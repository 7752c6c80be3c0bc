-- ===== src/Runtime/Engine/Replies.antt =====
-- What the dispatches of a turn keep of their calls (src/runtime/engine.py).
use helios_os.Prelude.{
  ℕ, zero, suc, String, Bool, true, false, ◌≡◌, refl, ap, ◌∙◌, Option, List, [], ◌∷◌, All, map,
}
use helios_os.Kernel.Json.{Value}
use helios_os.Kernel.Decision.{KernelDecision, Action, allow, deny, mask, ask_human, rate_limit}
use helios_os.Runtime.Continuation.{ToolCallRecord, Continuation}
use helios_os.Runtime.Engine.Machine.{Outside, Admission, Machine}
use helios_os.Runtime.Engine.Tools.{Executed, value, suspends}
use helios_os.Runtime.Engine.Dispatch.{
  Progress, waiting, running, ended, open_suspension, act_on, begin, after_tool, finish, move,
  move_at, run_schedule, end_all,
}

-- What is called: the id, the name of the tool and its input.
abbrev pub Asked : Type 0
Asked = String × String × Value

abbrev pub asked_for : ToolCallRecord → Asked
asked_for rec = (rec.tool_use_id, rec.name, rec.arguments)

-- What a dispatch calls.
abbrev pub dispatched : Progress → Asked
dispatched (waiting rec) = asked_for rec
dispatched (running rec ticket adm) = asked_for rec
dispatched (ended rec e) = asked_for rec

-- How far a dispatch has come: it may have ended, or be past its admission.
abbrev pub is_ended : Progress → Bool
is_ended (ended rec e) = true
is_ended _ = false

abbrev is_begun : Progress → Bool
is_begun (waiting rec) = false
is_begun _ = true

module _ {T : Type 0} (o : Outside T) where
  -- A dispatch that begins keeps what it calls, and is past its admission.
  begin-call :
      (c : Continuation) (rec : ToolCallRecord) (m : Machine T)
      → (dispatched (begin o c rec m).0 ≡ asked_for rec) × (is_begun (begin o c rec m).0 ≡ true)
  unfolding begin
  begin-call c rec m = by_action _ _ _ _
    where
      by_action :
          (x : Action) (adm : Admission) (d : KernelDecision) (n : Machine T)
          → (dispatched (act_on o x c rec adm d n).0 ≡ asked_for rec)
            × (is_begun (act_on o x c rec adm d n).0 ≡ true)
      by_action allow adm d n = unfold act_on in (refl, refl)
      by_action deny adm d n = unfold act_on in (refl, refl)
      by_action mask adm d n = unfold act_on in (refl, refl)
      by_action ask_human adm d n = unfold act_on open_suspension in (refl, refl)
      by_action rate_limit adm d n = unfold act_on in (refl, refl)

  after_tool-call :
      (rec : ToolCallRecord) (ticket : Option String) (r : Executed × Machine T)
      → (dispatched (after_tool o rec ticket r).0 ≡ asked_for rec)
        × (is_ended (after_tool o rec ticket r).0 ≡ true)
  unfolding after_tool
  after_tool-call rec ticket (value v, m) = (refl, refl)
  after_tool-call rec ticket (suspends s, m) = (refl, refl)

  move-call :
      (c : Continuation) (p : Progress) (m : Machine T) → dispatched (move o c p m).0 ≡ dispatched p
  unfolding move finish
  move-call c (waiting rec) m = (begin-call c rec m).0
  move-call c (running rec ticket adm) m = (after_tool-call rec ticket _).0
  move-call c (ended rec e) m = refl

  move-is_begun :
      (c : Continuation) (p : Progress) (m : Machine T) → is_begun (move o c p m).0 ≡ true
  unfolding move finish after_tool
  move-is_begun c (waiting rec) m = (begin-call c rec m).1
  move-is_begun c (running rec ticket adm) m = ended-begun _ (after_tool-call rec ticket _).1
    where
      ended-begun : (p : Progress) → is_ended p ≡ true → is_begun p ≡ true
      ended-begun (waiting rec) h = cc
      ended-begun (running rec ticket adm) h = refl
      ended-begun (ended rec e) h = refl
  move-is_begun c (ended rec e) m = refl

  move-is_ended :
      (c : Continuation) (p : Progress) (m : Machine T)
      → is_begun p ≡ true
      → is_ended (move o c p m).0 ≡ true
  unfolding move finish
  move-is_ended c (waiting rec) m h = cc
  move-is_ended c (running rec ticket adm) m h = (after_tool-call rec ticket _).1
  move-is_ended c (ended rec e) m h = refl

  move_at-calls :
      (c : Continuation) (i : ℕ) (ps : List Progress) (m : Machine T)
      → map dispatched (move_at o c i ps m).0 ≡ map dispatched ps
  unfolding move_at
  move_at-calls c zero [] m = refl
  move_at-calls c (suc i) [] m = refl
  move_at-calls c zero (p ∷ ps) m = ap (λ (x : Asked). x ∷ map dispatched ps) (move-call c p m)
  move_at-calls c (suc i) (p ∷ ps) m =
      ap (λ (l : List Asked). dispatched p ∷ l) (move_at-calls c i ps m)

  pub run_schedule-calls :
      (c : Continuation) (is : List ℕ) (ps : List Progress) (m : Machine T)
      → map dispatched (run_schedule o c is ps m).0 ≡ map dispatched ps
  unfolding run_schedule
  run_schedule-calls c [] ps m = refl
  run_schedule-calls c (i ∷ is) ps m = run_schedule-calls c is _ _ ∙ move_at-calls c i ps m

  pub end_all-calls :
      (c : Continuation) (ps : List Progress) (m : Machine T)
      → (map dispatched (end_all o c ps m).0 ≡ map dispatched ps)
        × All (λ p. is_ended p ≡ true) (end_all o c ps m).0
  unfolding end_all
  end_all-calls c [] m = (refl, tt)
  end_all-calls c (p ∷ ps) m =
      let p1 = (move o c p m).0 in
      let m1 = (move o c p m).1 in
      let rest = end_all-calls c ps (move o c p1 m1).1 in
      (
        cc (move-call c p1 m1, move-call c p m, rest.0),
        (move-is_ended c p1 m1 (move-is_begun c p m), rest.1),
      )
