-- ===== src/Tests/Budgets.antt =====
-- The budget at concrete inputs.
use helios_os.Kernel.Decision.{allowed, allowing, settled}
use helios_os.Prelude.{
  ◌+◌, ◌≡◌, ◌≢◌, ◌⊎◌, String, arith, eq_iff, refl, none, some, List, [], ◌∷◌, get, put, del,
}
use helios_os.Kernel.Agent.{Agent, find_agent}
use helios_os.Kernel.Budget.{
  BudgetManager, reserved_for, reserve, release, check_budget, add_reservation, commit, record_cost,
  give_back,
}
use helios_os.Kernel.Budget.Reservations.{
  Op, exec_all, exec, reserve_op, commit_op, release_op, settled_ticket_ignored,
}
use helios_os.Kernel.Budget.Limits.{Within, reserve-Within}
use helios_os.Tests.Fixtures.{agents, no_budgets}

-- A second reservation after the first is committed.
abbrev plan : List Op
plan = reserve_op 20 "t2" "a1" (some 5) none ∷ release_op "t3" ∷ []

abbrev one_open : BudgetManager
one_open = (reserve (some agents) 20 "t1" "a1" (some 3) none no_budgets).0

t2_not_t1 : ◌≢◌ {A = String} "t2" "t1"
t2_not_t1 e = ground (arith, eq_iff "t2" "t1")

settled_ticket_ignored_example :
    let after =
      exec_all (some agents) plan (exec (some agents) (commit_op "t1" (some 2) none) one_open) in
    let answer = record (allowing settled) { ticket = some "t1" } in
    (commit "t1" (some 2) none after ≡ (after, answer)) × (release "t1" after ≡ (after, answer))
settled_ticket_ignored_example =
    settled_ticket_ignored (some agents) "t1" (commit_op "t1" (some 2) none) plan one_open (some 2)
      none refl (t2_not_t1, (tt, tt))

-- What the calls leave reserved.
plan_reserved :
    reserved_for "a1"
      (exec_all (some agents) plan (exec (some agents) (commit_op "t1" (some 2) none) one_open))
    ≡ 5
unfolding exec_all reserved_for get exec reserve allowed check_budget find_agent commit
    add_reservation put record_cost give_back del release
plan_reserved = refl

reserve-Within_example :
    (reserved_for "a1" (reserve (some agents) 20 "t1" "a1" (some 3) none no_budgets).0
      ≡ reserved_for "a1" no_budgets + 3)
    × ((some agents ≡ none)
        ⊎ ((wired : List Agent) × (some agents ≡ some wired)
            × (agent : Agent) × (find_agent "a1" wired ≡ some agent)
            × Within agent.per_task_usd 3
            × Within agent.daily_usd (20 + reserved_for "a1" no_budgets + 3)))
unfolding reserve allowed check_budget find_agent reserved_for get
reserve-Within_example =
    reserve-Within (some agents) 20 "t1" "a1" (some 3) none no_budgets "t1" refl
