-- ===== src/Kernel/Budget.antt =====
-- Economic limits: class `BudgetManager` (src/platform/kernel/_facade.py), with its two-phase
-- reservations. Amounts are counted in the smallest unit of the currency and are exact; the code has
-- floats, which round, and does not keep them from being negative. The usage enforcer is
-- outside the repository: `today` is the cost that it reports for the agent's tenant, and what
-- `record_cost` is told is the list `recorded`, newest first. Tickets are drawn by the caller.
pub mod Reservations
pub mod Limits
use helios_os.Prelude.{
  ℕ, ◌+◌, ◌-◌, String, str_eq, Bool, true, false, ◌&&◌, Option, none, some, List, [], ◌∷◌, Dict,
  get, put, del, ltb, leb, or_else, ◌==◌, not, if◌then◌else◌,
}
use helios_os.Kernel.Decision.{
  KernelDecision, decide_as, allowing, denying, allowed, rate_limit, no_registry, not_found,
  per_task_exceeded, daily_exceeded, within_budget, reserved, committed, released, settled,
}
use helios_os.Kernel.Agent.{Agent, find_agent}

pub record Reservation : Type 0 where
  pub agent_id : String
  pub reserved_usd : ℕ
  pub reserved_tokens : ℕ

pub record Cost : Type 0 where
  pub agent_id : String
  pub cost_usd : ℕ
  pub tokens : ℕ

pub record BudgetManager : Type 0 where
  pub reservations : Dict Reservation
  pub reserved_by_agent : Dict ℕ
  pub recorded : List Cost

-- `self._reserved_by_agent.get(agent_id, 0.0)`, which is also `reserved_for`.
unfoldable pub reserved_for : String → BudgetManager → ℕ
reserved_for agent_id b = or_else (get agent_id b.reserved_by_agent) 0

-- `limit and estimate and estimate > limit`: zero is no limit.
unfoldable pub over_task : Option ℕ → ℕ → Bool
over_task none estimate = false
over_task (some limit) estimate = not (limit == 0) && ltb limit estimate

-- `daily_usd` and the projected cost beyond it.
unfoldable pub over_day : Option ℕ → ℕ → Bool
over_day none projected = false
over_day (some limit) projected = not (limit == 0) && ltb limit projected

-- `check_budget`; an estimate of `None` counts as zero.
unfoldable pub check_budget :
    Option (List Agent) → ℕ → String → Option ℕ → BudgetManager → KernelDecision
unfolding over_task over_day
check_budget none today agent_id estimate b = allowing no_registry
check_budget (some agents) today agent_id estimate b = elim (find_agent agent_id agents) [
  | none ↦ denying not_found
  | some agent ↦
      let cost = or_else estimate 0 in
      if over_task agent.per_task_usd cost
      then denying per_task_exceeded
      else if over_day agent.daily_usd (today + reserved_for agent_id b + cost)
      then decide_as rate_limit daily_exceeded
      else allowing within_budget
]

unfoldable pub add_reservation : String → String → ℕ → ℕ → BudgetManager → BudgetManager
add_reservation ticket agent_id usd tokens b = record b {
  reservations =
      put ticket (record { agent_id = agent_id; reserved_usd = usd; reserved_tokens = tokens })
        b.reservations;
  reserved_by_agent = put agent_id (reserved_for agent_id b + usd) b.reserved_by_agent;
}

-- `reserve`, which draws `ticket`.
unfoldable pub reserve :
    Option (List Agent)
    → ℕ
    → String
    → String
    → Option ℕ
    → Option ℕ
    → BudgetManager
    → BudgetManager × Option String × KernelDecision
reserve registry today ticket agent_id estimate tokens b =
    let decision = check_budget registry today agent_id estimate b in
    if allowed decision
    then (
      add_reservation ticket agent_id (or_else estimate 0) (or_else tokens 0) b,
      some ticket,
      record (allowing reserved) { ticket = some ticket },
    )
    else (b, none, decision)

-- The common part of `commit` and `release`: the reservation is popped and its amount given back.
unfoldable pub give_back : String → Reservation → BudgetManager → BudgetManager
give_back ticket r b = record b {
  reservations = del ticket b.reservations;
  reserved_by_agent =
      put r.agent_id (reserved_for r.agent_id b - r.reserved_usd) b.reserved_by_agent;
}

-- `usage_enforcer.record_cost`, called only when an actual cost is known.
unfoldable pub record_cost : String → Option ℕ → Option ℕ → BudgetManager → BudgetManager
record_cost agent_id none tokens b = b
record_cost agent_id (some usd) tokens b = record b {
  recorded = record { agent_id = agent_id; cost_usd = usd; tokens = or_else tokens 0 } ∷ b.recorded;
}

unfoldable pub commit :
    String → Option ℕ → Option ℕ → BudgetManager → BudgetManager × KernelDecision
commit ticket actual tokens b = elim (get ticket b.reservations) [
  | none ↦ (b, record (allowing settled) { ticket = some ticket })
  | some r ↦ (
    record_cost r.agent_id actual tokens (give_back ticket r b),
    record (allowing committed) { ticket = some ticket },
  )
]

unfoldable pub release : String → BudgetManager → BudgetManager × KernelDecision
release ticket b = elim (get ticket b.reservations) [
  | none ↦ (b, record (allowing settled) { ticket = some ticket })
  | some r ↦ (give_back ticket r b, record (allowing released) { ticket = some ticket })
]
