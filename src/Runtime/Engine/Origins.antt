-- ===== src/Runtime/Engine/Origins.antt =====
-- Where the results of dispatches come from (src/runtime/engine.py): the tool that was called, or a
-- refusal or failure that is put in its place.
use helios_os.Prelude.{
  ℕ, zero, suc, String, true, ◌≡◌, ◌⊎◌, refl, Option, none, some, List, [], ◌∷◌, All, inl, inr, map,
}
use helios_os.Kernel.Json.{Value, str, bool}
use helios_os.Kernel.Decision.{KernelDecision, Action, allow, deny, mask, ask_human, rate_limit}
use helios_os.Runtime.Continuation.{ToolCallRecord, Continuation}
use helios_os.Runtime.Shaping.{obj}
use helios_os.Runtime.Engine.Machine.{
  Outside, Admission, Machine, Attempt, returns, waits, broke, Executor, absent, useless, usable,
}
use helios_os.Runtime.Engine.Tools.{
  Executed, value, suspends, error_result, call_tool, attempts, gated_attempts, execute_tool,
}
use helios_os.Runtime.Engine.Dispatch.{
  Progress, waiting, running, ended, result, refused, open_suspension, act_on, begin, after_tool,
  finish, move, move_at, run_schedule, end_all, gather,
}

module _ {T : Type 0} (o : Outside T) where
  -- A value is an error message, or stands for a masked call, or is what the tool returned when it was
  -- called with the input.
  abbrev pub IsAnswer : String → Value → Value → Type 0
  IsAnswer name input v =
      ((e : String) × (v ≡ obj (("error", str e) ∷ [])))
      ⊎ ((v ≡ obj (("masked", bool true) ∷ []))
          ⊎ ((token : Option String) × (t : T) × ((o.attempt name input token t).0 ≡ returns v)))

  abbrev IsAnswered : String → Value → Executed → Type 0
  IsAnswered name input (value v) = IsAnswer name input v
  IsAnswered name input (suspends s) = Unit

  attempts-IsAnswered :
      (n : ℕ) (adm : Admission) (name : String) (input : Value) (token : Option String)
      (m : Machine T)
      → IsAnswered name input (attempts o n adm name input token m).0
  unfolding attempts call_tool error_result
  attempts-IsAnswered zero adm name input token m =
      by_attempt (o.attempt name input token m.outside).0 refl
    where
      by_attempt :
          (x : Attempt)
          → (o.attempt name input token m.outside).0 ≡ x
          → IsAnswered name input (attempts o zero adm name input token m).0
      by_attempt (returns v) e = rw (e, attempts) (inr (inr (token, m.outside, e)))
      by_attempt (waits s) e = rw (e, attempts) tt
      by_attempt (broke s) e = rw (e, attempts) (inl (s, refl))
  attempts-IsAnswered (suc n) adm name input token m =
      by_attempt (o.attempt name input token m.outside).0 refl
        (attempts-IsAnswered n adm name input token (call_tool o adm name input token m).1)
    where
      by_attempt :
          (x : Attempt)
          → (o.attempt name input token m.outside).0 ≡ x
          → IsAnswered name input
              (attempts o n adm name input token (call_tool o adm name input token m).1).0
          → IsAnswered name input (attempts o (suc n) adm name input token m).0
      by_attempt (returns v) e next = rw (e, attempts) (inr (inr (token, m.outside, e)))
      by_attempt (waits s) e next = rw (e, attempts) tt
      by_attempt (broke s) e next = rw (e, attempts) next

  gated_attempts-IsAnswered :
      (adm : Admission) (name : String) (input : Value) (token : Option String) (m : Machine T)
      → IsAnswered name input (gated_attempts o adm name input token m).0
  unfolding gated_attempts error_result
  gated_attempts-IsAnswered adm name input token m = by_gate (o.gate name input m.outside).0 refl
    where
      by_gate :
          (x : Option String)
          → (o.gate name input m.outside).0 ≡ x
          → IsAnswered name input (gated_attempts o adm name input token m).0
      by_gate (some s) e = rw (e, gated_attempts) (inl (s, refl))
      by_gate none e =
          rw (e, gated_attempts) (attempts-IsAnswered o.max_retries adm name input token _)

  execute_tool-IsAnswered :
      (adm : Admission) (name : String) (input : Value) (token : Option String) (m : Machine T)
      → IsAnswered name input (execute_tool o adm name input token m).0
  unfolding execute_tool error_result
  execute_tool-IsAnswered adm name input token m = by_executor o.executor refl
    where
      by_executor :
          (x : Executor)
          → o.executor ≡ x
          → IsAnswered name input (execute_tool o adm name input token m).0
      by_executor absent e = rw (e, execute_tool) (inl (_, refl))
      by_executor useless e = rw (e, execute_tool) (inl (_, refl))
      by_executor usable e = rw (e, execute_tool) (gated_attempts-IsAnswered adm name input token m)

  -- A dispatch that came to a result has an answer to its call.
  abbrev pub HasAnswer : Progress → Type 0
  HasAnswer (ended rec (result v)) = IsAnswer rec.name rec.arguments v
  HasAnswer _ = Unit

  act_on-HasAnswer :
      (x : Action) (c : Continuation) (rec : ToolCallRecord) (adm : Admission) (d : KernelDecision)
      (m : Machine T)
      → HasAnswer (act_on o x c rec adm d m).0
  unfolding act_on refused error_result open_suspension
  act_on-HasAnswer allow c rec adm d m = tt
  act_on-HasAnswer deny c rec adm d m = inl (_, refl)
  act_on-HasAnswer mask c rec adm d m = inr (inl refl)
  act_on-HasAnswer ask_human c rec adm d m = tt
  act_on-HasAnswer rate_limit c rec adm d m = inl (_, refl)

  after_tool-HasAnswer :
      (rec : ToolCallRecord) (ticket : Option String) (r : Executed × Machine T)
      → IsAnswered rec.name rec.arguments r.0
      → HasAnswer (after_tool o rec ticket r).0
  unfolding after_tool
  after_tool-HasAnswer rec ticket (value v, m) k = k
  after_tool-HasAnswer rec ticket (suspends s, m) k = tt

  move-HasAnswer :
      (c : Continuation) (p : Progress) (m : Machine T) → HasAnswer p → HasAnswer (move o c p m).0
  unfolding move begin finish
  move-HasAnswer c (waiting rec) m k = act_on-HasAnswer _ c rec _ _ _
  move-HasAnswer c (running rec ticket adm) m k =
      after_tool-HasAnswer rec ticket _ (execute_tool-IsAnswered adm rec.name rec.arguments none m)
  move-HasAnswer c (ended rec e) m k = k

  move_at-HasAnswer :
      (c : Continuation) (i : ℕ) (ps : List Progress) (m : Machine T)
      → All HasAnswer ps
      → All HasAnswer (move_at o c i ps m).0
  unfolding move_at
  move_at-HasAnswer c zero [] m k = tt
  move_at-HasAnswer c (suc i) [] m k = tt
  move_at-HasAnswer c zero (p ∷ ps) m k = (move-HasAnswer c p m k.0, k.1)
  move_at-HasAnswer c (suc i) (p ∷ ps) m k = (k.0, move_at-HasAnswer c i ps m k.1)

  run_schedule-HasAnswer :
      (c : Continuation) (is : List ℕ) (ps : List Progress) (m : Machine T)
      → All HasAnswer ps
      → All HasAnswer (run_schedule o c is ps m).0
  unfolding run_schedule
  run_schedule-HasAnswer c [] ps m k = k
  run_schedule-HasAnswer c (i ∷ is) ps m k =
      run_schedule-HasAnswer c is _ _ (move_at-HasAnswer c i ps m k)

  end_all-HasAnswer :
      (c : Continuation) (ps : List Progress) (m : Machine T)
      → All HasAnswer ps
      → All HasAnswer (end_all o c ps m).0
  unfolding end_all
  end_all-HasAnswer c [] m k = tt
  end_all-HasAnswer c (p ∷ ps) m k =
      let (p1, m1) = move o c p m in
      (
        move-HasAnswer c p1 m1 (move-HasAnswer c p m k.0),
        end_all-HasAnswer c ps (move o c p1 m1).1 k.1,
      )

  waiting-HasAnswer : (records : List ToolCallRecord) → All HasAnswer (map waiting records)
  waiting-HasAnswer [] = tt
  waiting-HasAnswer (r ∷ rs) = (tt, waiting-HasAnswer rs)

  pub gather-HasAnswer :
      (c : Continuation) (records : List ToolCallRecord) (m : Machine T)
      → All HasAnswer (gather o c records m).0
  unfolding gather
  gather-HasAnswer c records m = end_all-HasAnswer c _ _ (
      run_schedule-HasAnswer c (o.schedule m.outside) (map waiting records) m
        (waiting-HasAnswer records))
