-- ===== src/Runtime/Engine/Bounds.antt =====
-- How often a run asks its model.
use helios_os.Prelude.{
  ℕ, zero, suc, ◌+◌, ◌-◌, ◌≤◌, String, Bool, true, false, ◌≡◌, ap, some, List, [], ◌∷◌, ◌++◌, arith,
  if◌then◌else◌,
}
use helios_os.Runtime.Continuation.{RunState, ToolCallRecord, Continuation, load, touch}
use helios_os.Runtime.Outcome.{Ran}
use helios_os.Runtime.Engine.Machine.{Outside, Event, asked, ran, Machine, Held}
use helios_os.Runtime.Engine.Turn.{TurnEnd, chat_broke, finished, goes_on, ask, run_one_turn}
use helios_os.Runtime.Engine.Drive.{
  after_turn, last_or_next, drive_from, drive_all, advance, hand_over, step_turn, guarded_step,
  step, drive_or_step, set_running, drive_loaded, drive_found, drive,
}
use helios_os.Runtime.Engine.Kept.{Seen, IsKept}
use helios_os.Runtime.Engine.Runs.{
  answer_turn-Holds, max_turns-seen, transition-seen, last_or_next-seen,
}

-- The questions in a trace.
unfoldable pub asks : List Event → ℕ
asks [] = 0
asks (asked ∷ es) = suc (asks es)
asks (ran adm name input ∷ es) = asks es

trace_of : {T : Type 0} {s t : Seen T} → s ≡ t → s.1 ≡ t.1
trace_of e = ap (λ s. s.1) e

module _ {T : Type 0} (o : Outside T) where
  abbrev asks_of : Held T × Ran → ℕ
  asks_of r = asks r.0.1.trace

  -- What the dispatches of a turn do asks nothing.
  counts-IsKept : (n : ℕ) → IsKept o (λ s. asks s.1 ≡ n)
  unfolding asks
  counts-IsKept n = record {
    on_syscall = λ t es k. k;
    on_gate = λ name input t es k. k;
    on_run = λ adm name input token t es a k. k;
    on_request = λ ask e id pid tenant captured d t es k. k;
    on_ref = λ t es k. k;
  }

  -- A turn asks once.
  run_one_turn-asks :
      (turn n : ℕ) (h : Held T) → asks (run_one_turn o turn n h).held.1.trace ≡ asks h.1.trace + 1
  unfolding run_one_turn ask
  run_one_turn-asks turn n (c, m) =
      answer_turn-Holds o (λ s. asks s.1 ≡ asks m.trace + 1) (counts-IsKept (asks m.trace + 1)) _ n
        _ (unfold asks in omega arith)

  after_turn-asks :
      (on : ℕ → List ToolCallRecord → Held T → Held T × Ran) (e : TurnEnd) (n : ℕ)
      (es : List ToolCallRecord) (h : Held T) (k : ℕ)
      → asks_of (on n es h) ≤ asks h.1.trace + k
      → asks_of (after_turn o on e n es h) ≤ asks h.1.trace + k
  unfolding after_turn
  after_turn-asks on (chat_broke e) n es h k l = omega arith
  after_turn-asks on (finished out) n es h k l = omega arith
  after_turn-asks on goes_on n es h k l = l

  drive_from-asks :
      (left turn n : ℕ) (es : List ToolCallRecord) (h : Held T)
      → asks_of (drive_from o left turn n es h) ≤ asks h.1.trace + left
  unfolding drive_from
  drive_from-asks zero turn n es h = rw (trace_of (max_turns-seen o n h)) (omega arith)
  drive_from-asks (suc left) turn n es h =
      let t = run_one_turn o turn n h in
      omega (
        arith,
        run_one_turn-asks turn n h,
        after_turn-asks (drive_from o left (turn + 1)) t.end t.tokens (es ++ t.events) t.held left
            (drive_from-asks left (turn + 1) t.tokens (es ++ t.events) t.held),
      )

  last_or_next-asks :
      (last : Bool) (n : ℕ) (h : Held T) → asks_of (last_or_next o last n h) ≤ asks h.1.trace + 0
  last_or_next-asks last n h = omega (arith, ap asks (trace_of (last_or_next-seen o last n h)))

  guarded_step-asks :
      (last : Bool) (turn : ℕ) (h : Held T)
      → asks_of (guarded_step o last turn h) ≤ asks h.1.trace + 1
  unfolding guarded_step step_turn hand_over advance
  guarded_step-asks true turn h = rw (trace_of (max_turns-seen o 0 h)) (omega arith)
  guarded_step-asks false turn h =
      let t = run_one_turn o turn 0 h in
      omega (
        arith,
        run_one_turn-asks turn 0 h,
        after_turn-asks (hand_over o turn) t.end t.tokens t.events t.held 0
            (last_or_next-asks _ _ _),
      )

  -- The questions that one call may ask.
  abbrev pub allowance : Bool → Continuation → ℕ
  allowance single c = if single then 1 else c.max_turns - c.step_index

  drive_or_step-asks :
      (single : Bool) (c : Continuation) (m : Machine T)
      → asks_of (drive_or_step o single (c, m)) ≤ asks m.trace + allowance single c
  unfolding drive_or_step drive_all step
  drive_or_step-asks true c m = guarded_step-asks _ _ (c, m)
  drive_or_step-asks false c m = drive_from-asks _ _ 0 [] (c, m)

  set_running-trace : (c : Continuation) (m : Machine T) → (set_running o (c, m)).1.trace ≡ m.trace
  unfolding set_running
  set_running-trace c m = trace_of (transition-seen o _ _ _)

  run_on-asks :
      (single : Bool) (c : Continuation) (m : Machine T)
      → asks_of (drive_or_step o single (set_running o (c, m))) ≤ asks m.trace + allowance single c
  unfolding set_running touch
  run_on-asks true c m = omega (
    arith,
    drive_or_step-asks true (set_running o (c, m)).0 (set_running o (c, m)).1,
    ap asks (set_running-trace c m),
  )
  run_on-asks false c m = omega (
    arith,
    drive_or_step-asks false (set_running o (c, m)).0 (set_running o (c, m)).1,
    ap asks (set_running-trace c m),
  )

  drive_loaded-asks :
      (s : RunState) (single : Bool) (c : Continuation) (m : Machine T)
      → asks (drive_loaded o s single c m).0.trace ≤ asks m.trace + allowance single c
  unfolding drive_loaded
  drive_loaded-asks RunState.done single c m = omega arith
  drive_loaded-asks RunState.failed single c m = omega arith
  drive_loaded-asks RunState.suspended single c m = omega arith
  drive_loaded-asks RunState.running single c m = run_on-asks single c m
  drive_loaded-asks RunState.resuming single c m = run_on-asks single c m

  -- Driving a run that the store holds ends after a bounded number of questions to the model: in the
  -- inline mode at most as many as its turns that are left, and in the mode of the workers at most one.
  pub drive_asks_at_most :
      (single : Bool) (id : String) (m : Machine T) (c : Continuation)
      → load id m.store ≡ some c
      → asks (drive o single id m).0.trace ≤ asks m.trace + allowance single c
  unfolding drive drive_found
  drive_asks_at_most single id m c h = rw h (drive_loaded-asks c.status single c m)
