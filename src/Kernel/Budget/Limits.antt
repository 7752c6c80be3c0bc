-- ===== src/Kernel/Budget/Limits.antt =====
-- The limits that a reservation is tested against.
use helios_os.Prelude.{
  ℕ, ◌+◌, ◌≤◌, String, eq_iff, true, false, ◌≡◌, ◌⊎◌, Option, none, some, List, or_else, arith, inl,
  inr, refl, Option-cases,
}
use helios_os.Kernel.Decision.{allowed}
use helios_os.Kernel.Agent.{Agent, find_agent}
use helios_os.Kernel.Budget.{
  BudgetManager, reserved_for, check_budget, over_task, over_day, add_reservation, reserve,
}
use helios_os.Kernel.Budget.Reservations.{reserved_for-add}

-- Within a limit, where one is set that is not zero.
abbrev pub Within : Option ℕ → ℕ → Type 0
Within none n = Unit
Within (some limit) n = (limit ≡ 0) ⊎ (n ≤ limit)

over_day-Within : (limit : Option ℕ) (n : ℕ) → over_day limit n ≡ false → Within limit n
unfolding over_day
over_day-Within none n h = tt
over_day-Within (some l) n h = ground arith

over_task-Within : (limit : Option ℕ) (n : ℕ) → over_task limit n ≡ false → Within limit n
unfolding over_task
over_task-Within none n h = tt
over_task-Within (some l) n h = ground arith

reserve_granted :
    (registry : Option (List Agent)) (today : ℕ) (ticket agent_id : String)
    (estimate tokens : Option ℕ) (b : BudgetManager) (r : String)
    → (reserve registry today ticket agent_id estimate tokens b).1 ≡ some r
    → (allowed (check_budget registry today agent_id estimate b) ≡ true)
      × ((reserve registry today ticket agent_id estimate tokens b).0
          ≡ add_reservation ticket agent_id (or_else estimate 0) (or_else tokens 0) b)
unfolding reserve
reserve_granted registry today ticket agent_id estimate tokens b r h = ground arith

reserved_for_self :
    (ticket agent_id : String) (estimate tokens : Option ℕ) (b : BudgetManager)
    → reserved_for agent_id
        (add_reservation ticket agent_id (or_else estimate 0) (or_else tokens 0) b)
      ≡ reserved_for agent_id b + or_else estimate 0
reserved_for_self ticket agent_id estimate tokens b = ground (
  arith,
  reserved_for-add ticket agent_id agent_id (or_else estimate 0) (or_else tokens 0) b,
  eq_iff agent_id agent_id,
)

module _ (agents : List Agent) (today : ℕ) (ticket agent_id : String) (estimate tokens : Option ℕ)
    (b : BudgetManager) where
  check_budget_allows :
      (agent : Agent)
      → find_agent agent_id agents ≡ some agent
      → allowed (check_budget (some agents) today agent_id estimate b) ≡ true
      → (over_task agent.per_task_usd (or_else estimate 0) ≡ false)
        × (over_day agent.daily_usd (today + reserved_for agent_id b + or_else estimate 0) ≡ false)
  unfolding check_budget allowed
  check_budget_allows agent found h = ground arith

  check_budget_found :
      allowed (check_budget (some agents) today agent_id estimate b) ≡ true
      → (agent : Agent) × (find_agent agent_id agents ≡ some agent)
  unfolding check_budget allowed
  check_budget_found h = elim (Option-cases (find_agent agent_id agents)) [
    | inl e ↦ absurd (ground arith)
    | inr found ↦ found
  ]

  reserve_wired :
      (r : String)
      → (reserve (some agents) today ticket agent_id estimate tokens b).1 ≡ some r
      → (agent : Agent) × (find_agent agent_id agents ≡ some agent)
        × Within agent.per_task_usd (or_else estimate 0)
        × Within agent.daily_usd (today + reserved_for agent_id b + or_else estimate 0)
  reserve_wired r h =
      let (ok, after) = reserve_granted (some agents) today ticket agent_id estimate tokens b r h in
      let (agent, found) = check_budget_found ok in
      let (task, day) = check_budget_allows agent found ok in
      (
        agent,
        found,
        over_task-Within agent.per_task_usd (or_else estimate 0) task,
        over_day-Within agent.daily_usd _ day,
      )

-- When `reserve` gives a ticket, the estimate is added to what is reserved for the agent, and where a
-- registry is wired, the agent is in it, the estimate is within its limit for one task, and today's
-- cost with what was reserved for it before and the estimate is within its daily limit; a limit of
-- zero does not count as one. Where no registry is wired, only the sum is stated.
pub reserve-Within :
    (registry : Option (List Agent)) (today : ℕ) (ticket agent_id : String)
    (estimate tokens : Option ℕ) (b : BudgetManager) (r : String)
    → (reserve registry today ticket agent_id estimate tokens b).1 ≡ some r
    → (reserved_for agent_id (reserve registry today ticket agent_id estimate tokens b).0
        ≡ reserved_for agent_id b + or_else estimate 0)
      × ((registry ≡ none)
          ⊎ ((agents : List Agent) × (registry ≡ some agents)
              × (agent : Agent) × (find_agent agent_id agents ≡ some agent)
              × Within agent.per_task_usd (or_else estimate 0)
              × Within agent.daily_usd (today + reserved_for agent_id b + or_else estimate 0)))
reserve-Within none today ticket agent_id estimate tokens b r h =
    let (_, after) = reserve_granted none today ticket agent_id estimate tokens b r h in
    (rw after (reserved_for_self ticket agent_id estimate tokens b), inl refl)
reserve-Within (some agents) today ticket agent_id estimate tokens b r h =
    let (_, after) = reserve_granted (some agents) today ticket agent_id estimate tokens b r h in
    let (agent, found, task, day) =
      reserve_wired agents today ticket agent_id estimate tokens b r h in
    (
      rw after (reserved_for_self ticket agent_id estimate tokens b),
      inr (agents, refl, agent, found, task, day),
    )
