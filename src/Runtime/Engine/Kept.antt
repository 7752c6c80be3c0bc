-- ===== src/Runtime/Engine/Kept.antt =====
-- What the calls of one tool keep: a predicate on the outside and the trace that everything keeps which
-- the engine asks of the outside, where of the tools it is asked only of those that the kernel allowed.
use helios_os.Prelude.{
  ℕ, zero, suc, String, true, ◌≡◌, refl, Option, none, some, List, ◌∷◌, arith, inl, inr, Bool-cases,
  str_eq,
}
use helios_os.Kernel.Json.{Value}
use helios_os.Kernel.Decision.{KernelDecision, Captured, allowed}
use helios_os.Kernel.Stages.{World, syscall}
use helios_os.Runtime.Engine.Machine.{
  Outside, Admission, Event, asked, ran, Machine, returns, waits, broke,
}
use helios_os.Runtime.Engine.Tools.{
  Executed, value, suspends, error_result, call_tool, attempts, gated_attempts, execute_tool,
  with_ticket, commit_ticket, release_ticket,
}

-- The kernel allowed the call, of this tool with this input, as it was asked and in the state in which
-- it was.
abbrev pub IsAllowed : Event → Type 0
IsAllowed asked = Unit
IsAllowed (ran adm name input) =
    (adm.call.object_name ≡ name)
    × (adm.call.args.tool_input ≡ input)
    × (adm.call.verb ≡ "tool.call")
    × (allowed (syscall adm.config adm.call adm.kernel).decision ≡ true)

-- What the outside has become, and what has happened.
abbrev pub Seen : Type 0 → Type 0
Seen T = T × List Event

abbrev pub seen : {T : Type 0} → Machine T → Seen T
seen m = (m.outside, m.trace)

module _ {T : Type 0} where
  with_ticket-seen :
      (f : String → World → World) (ticket : Option String) (m : Machine T)
      → seen (with_ticket f ticket m) ≡ seen m
  unfolding with_ticket
  with_ticket-seen f none m = refl
  with_ticket-seen f (some t) m = elim (Bool-cases (str_eq t "")) [
    | inl e ↦ rw (e, with_ticket) refl
    | inr e ↦ rw (e, with_ticket) refl
  ]

  pub commit_ticket-seen :
      (ticket : Option String) (m : Machine T) → seen (commit_ticket ticket m) ≡ seen m
  unfolding commit_ticket
  commit_ticket-seen ticket m = with_ticket-seen _ ticket m

  pub release_ticket-seen :
      (ticket : Option String) (m : Machine T) → seen (release_ticket ticket m) ≡ seen m
  unfolding release_ticket
  release_ticket-seen ticket m = with_ticket-seen _ ticket m

-- A predicate that is kept by all that the dispatches ask of the outside, where of the tools it is
-- asked only of those that the kernel allowed.
pub record IsKept {T : Type 0} (o : Outside T) (P : Seen T → Type 0) : Type 0 where
  pub on_syscall : (t : T) (es : List Event) → P (t, es) → P (o.after_syscall t, es)
  pub on_gate :
      (name : String) (input : Value) (t : T) (es : List Event)
      → P (t, es)
      → P ((o.gate name input t).1, es)
  pub on_run :
      (adm : Admission) (name : String) (input : Value) (token : Option String) (t : T)
      (es : List Event)
      → IsAllowed (ran adm name input)
      → P (t, es)
      → P ((o.attempt name input token t).1, ran adm name input ∷ es)
  pub on_request :
      (ask : String → String → String → Captured → KernelDecision → T → Option String × T)
      → o.open_request ≡ some ask
      → (id pid tenant : String) (captured : Captured) (d : KernelDecision) (t : T)
        (es : List Event)
      → P (t, es)
      → P ((ask id pid tenant captured d t).1, es)
  pub on_ref : (t : T) (es : List Event) → P (t, es) → P ((o.fresh_ref t).1, es)

module _ {T : Type 0} (o : Outside T) (P : Seen T → Type 0) (kept : IsKept o P) where
  abbrev pub Holds : Machine T → Type 0
  Holds m = P (seen m)

  attempts-Holds :
      (n : ℕ) (adm : Admission) (name : String) (input : Value) (token : Option String)
      (m : Machine T)
      → IsAllowed (ran adm name input)
      → Holds m
      → Holds (attempts o n adm name input token m).1
  unfolding attempts call_tool
  attempts-Holds zero adm name input token m a h =
      let one = kept.on_run adm name input token m.outside m.trace a h in
      elim (o.attempt name input token m.outside).0
        as (λ x.
          Holds
            (elim x as (λ _. Executed × Machine T) [
              | returns v ↦ (value v, (call_tool o adm name input token m).1)
              | waits s ↦ (suspends s, (call_tool o adm name input token m).1)
              | broke e ↦ (value (error_result e), (call_tool o adm name input token m).1)
            ]).1) [ returns v ↦ one | waits s ↦ one | broke e ↦ one ]
  attempts-Holds (suc n) adm name input token m a h =
      let one = kept.on_run adm name input token m.outside m.trace a h in
      let next =
        attempts-Holds n adm name input token (call_tool o adm name input token m).1 a one in
      elim (o.attempt name input token m.outside).0
        as (λ x.
          Holds
            (elim x as (λ _. Executed × Machine T) [
              | returns v ↦ (value v, (call_tool o adm name input token m).1)
              | waits s ↦ (suspends s, (call_tool o adm name input token m).1)
              | broke e ↦ attempts o n adm name input token (call_tool o adm name input token m).1
            ]).1) [ returns v ↦ one | waits s ↦ one | broke e ↦ next ]

  gated_attempts-Holds :
      (adm : Admission) (name : String) (input : Value) (token : Option String) (m : Machine T)
      → IsAllowed (ran adm name input)
      → Holds m
      → Holds (gated_attempts o adm name input token m).1
  unfolding gated_attempts
  gated_attempts-Holds adm name input token m a h =
      let gate = kept.on_gate name input m.outside m.trace h in
      let m' : Machine T = record m { outside = (o.gate name input m.outside).1 } in
      let next = attempts-Holds o.max_retries adm name input token m' a gate in
      elim (o.gate name input m.outside).0
        as (λ x.
          Holds
            (elim x as (λ _. Executed × Machine T) [
              | some e ↦ (value (error_result e), m')
              | none ↦ attempts o o.max_retries adm name input token m'
            ]).1) [ some e ↦ gate | none ↦ next ]

  pub execute_tool-Holds :
      (adm : Admission) (name : String) (input : Value) (token : Option String) (m : Machine T)
      → IsAllowed (ran adm name input)
      → Holds m
      → Holds (execute_tool o adm name input token m).1
  unfolding execute_tool
  execute_tool-Holds adm name input token m a h =
      let next = gated_attempts-Holds adm name input token m a h in ground arith
