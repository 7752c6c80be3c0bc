-- ===== src/Kernel/Budget/Reservations.antt =====
-- What the calls of the budget do to the reserved totals and to the tickets.
use helios_os.Prelude.{
  ℕ, ◌+◌, ◌-◌, String, str_eq, eq_iff, ◌≡◌, ◌≢◌, All, refl, get-del, get-put_ne, Option, none, some,
  List, [], ◌∷◌, get, get-put, or_else, arith, if◌then◌else◌,
}
use helios_os.Kernel.Decision.{allowing, settled}
use helios_os.Kernel.Agent.{Agent}
use helios_os.Kernel.Budget.{
  BudgetManager, Reservation, reserved_for, add_reservation, reserve, give_back, record_cost,
  commit, release,
}

pub reserved_for-add :
    (ticket a j : String) (usd tokens : ℕ) (b : BudgetManager)
    → reserved_for j (add_reservation ticket a usd tokens b)
      ≡ (if str_eq a j then reserved_for a b + usd else reserved_for j b)
unfolding reserved_for add_reservation
reserved_for-add ticket a j usd tokens b =
    ground (arith, get-put a j (reserved_for a b + usd) b.reserved_by_agent)

pub reserved_for-give_back :
    (ticket j : String) (r : Reservation) (b : BudgetManager)
    → reserved_for j (give_back ticket r b) ≡ (
        if str_eq r.agent_id j
        then reserved_for r.agent_id b - r.reserved_usd
        else reserved_for j b)
unfolding reserved_for give_back
reserved_for-give_back ticket j r b =
    ground
      (arith, get-put r.agent_id j (reserved_for r.agent_id b - r.reserved_usd) b.reserved_by_agent)

-- The calls of the three methods, with what the enforcer reports and the ticket that is drawn.
pub data Op : Type 0 where
  reserve_op : ℕ → String → String → Option ℕ → Option ℕ → Op
  commit_op : String → Option ℕ → Option ℕ → Op
  release_op : String → Op

-- A commit or a release of the ticket.
abbrev pub Settles : String → Op → Type 0
Settles ticket (reserve_op today t a est tok) = ⊥
Settles ticket (commit_op t actual tok) = t ≡ ticket
Settles ticket (release_op t) = t ≡ ticket

-- The call does not draw the ticket.
abbrev pub NotDrawn : String → Op → Type 0
NotDrawn ticket (reserve_op today t a est tok) = t ≢ ticket
NotDrawn ticket o = Unit

module _ (registry : Option (List Agent)) where
  unfoldable pub exec : Op → BudgetManager → BudgetManager
  exec (reserve_op today ticket a est tok) b = (reserve registry today ticket a est tok b).0
  exec (commit_op ticket actual tok) b = (commit ticket actual tok b).0
  exec (release_op ticket) b = (release ticket b).0

  unfoldable pub exec_all : List Op → BudgetManager → BudgetManager
  exec_all [] b = b
  exec_all (o ∷ os) b = exec_all os (exec o b)

  -- A ticket that is not open is not opened by a call that does not draw it.
  exec-closed :
      (ticket : String) (o : Op) (b : BudgetManager)
      → get ticket b.reservations ≡ none
      → NotDrawn ticket o
      → get ticket (exec o b).reservations ≡ none
  unfolding exec reserve commit release give_back add_reservation record_cost
  exec-closed ticket (reserve_op today t a est tok) b closed other = ground (
    arith,
    get-put_ne t ticket
        (record { agent_id = a; reserved_usd = or_else est 0; reserved_tokens = or_else tok 0 })
        b.reservations other,
  )
  exec-closed ticket (commit_op t none tok) b closed other =
      ground (arith, get-del t ticket b.reservations)
  exec-closed ticket (commit_op t (some usd) tok) b closed other =
      ground (arith, get-del t ticket b.reservations)
  exec-closed ticket (release_op t) b closed other = ground (arith, get-del t ticket b.reservations)

  exec_all-closed :
      (ticket : String) (os : List Op) (b : BudgetManager)
      → get ticket b.reservations ≡ none
      → All (NotDrawn ticket) os
      → get ticket (exec_all os b).reservations ≡ none
  unfolding exec_all
  exec_all-closed ticket [] b closed h = closed
  exec_all-closed ticket (o ∷ os) b closed h =
      exec_all-closed ticket os (exec o b) (exec-closed ticket o b closed h.0) h.1

  settling-closed :
      (ticket : String) (o : Op) (b : BudgetManager)
      → Settles ticket o
      → get ticket (exec o b).reservations ≡ none
  unfolding exec commit release give_back record_cost
  settling-closed ticket (reserve_op today t a est tok) b s = absurd s
  settling-closed ticket (commit_op t none tok) b s =
      ground (arith, get-del t ticket b.reservations, eq_iff t ticket)
  settling-closed ticket (commit_op t (some usd) tok) b s =
      ground (arith, get-del t ticket b.reservations, eq_iff t ticket)
  settling-closed ticket (release_op t) b s =
      ground (arith, get-del t ticket b.reservations, eq_iff t ticket)

  -- A ticket is settled at most once: after a commit or a release of it, and after any further calls
  -- that do not draw it anew, a commit and a release of it change nothing, neither the reserved totals
  -- nor the costs that are recorded, and answer that it is settled.
  pub settled_ticket_ignored :
      (ticket : String) (o : Op) (os : List Op) (b : BudgetManager) (actual tokens : Option ℕ)
      → Settles ticket o
      → All (NotDrawn ticket) os
      → let after = exec_all os (exec o b) in
        let answer = record (allowing settled) { ticket = some ticket } in
        (commit ticket actual tokens after ≡ (after, answer))
        × (release ticket after ≡ (after, answer))
  unfolding commit release
  settled_ticket_ignored ticket o os b actual tokens s h =
      let closed = exec_all-closed ticket os (exec o b) (settling-closed ticket o b s) h in
      (rw (closed, commit) refl, rw (closed, release) refl)
