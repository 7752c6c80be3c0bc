-- ===== src/Runtime/Engine/Drive.antt =====
-- The loop over the turns and the single step of a worker: `_drive`, `_step` and `drive`
-- (src/runtime/engine.py). The loop runs on the turns that are left, `max_turns - step_index`, which is
-- what its test counts.
use helios_os.Prelude.{
  ℕ, zero, suc, ◌+◌, ◌-◌, String, Bool, true, false, Option, none, some, List, [], ◌++◌, leb,
}
use helios_os.Runtime.Continuation.{RunState, ToolCallRecord, Continuation, load}
use helios_os.Runtime.Outcome.{RunStatus, RunOutcome, outcome_of, Ran, returned, raised}
use helios_os.Runtime.Engine.Machine.{Outside, Machine, Held, keep_cont, transition, to_running}
use helios_os.Runtime.Engine.Turn.{TurnEnd, chat_broke, finished, goes_on, run_one_turn}
use helios_os.Runtime.Engine.Ending.{suspended_outcome, max_turns_reached}

-- The outcome of a run that is over: `DONE` or `FAILED`, with what it left.
unfoldable pub final_outcome : Continuation → RunOutcome
final_outcome c =
    let status : RunStatus = elim c.status [
      | RunState.done ↦ RunStatus.done
      | _ ↦ RunStatus.failed
    ] in
    record (outcome_of status c.continuation_id) { output = c.final_output; error = c.last_error }

abbrev pub failed_outcome : String → String → RunOutcome
failed_outcome id error = record (outcome_of RunStatus.failed id) { error = some error }

module _ {T : Type 0} (o : Outside T) where
  -- A run of the engine over a continuation in hand.
  abbrev pub Driven : Type 0
  Driven = Held T × Ran

  -- What a turn that ends the run hands back.
  unfoldable pub with_events : List ToolCallRecord → RunOutcome → RunOutcome
  with_events events out = record out { tool_events = events }

  -- What a turn leads to; the first argument goes on with the loop.
  unfoldable pub after_turn :
      (ℕ → List ToolCallRecord → Held T → Driven)
      → TurnEnd
      → ℕ
      → List ToolCallRecord
      → Held T
      → Driven
  unfolding with_events
  after_turn on (chat_broke e) tokens events h = (h, raised e)
  after_turn on (finished out) tokens events h = (h, returned (with_events events out))
  after_turn on goes_on tokens events h = on tokens events h

  -- The loop of `_drive`, with the turns that are left.
  unfoldable pub drive_from : ℕ → ℕ → ℕ → List ToolCallRecord → Held T → Driven
  drive_from zero turn tokens events h =
      let (h', out) = max_turns_reached o tokens h in (h', returned out)
  drive_from (suc left) turn tokens events h =
      let on = drive_from left (turn + 1) in
      let t = run_one_turn o turn tokens h in
      after_turn on t.end t.tokens (events ++ t.events) t.held

  -- `_drive`
  unfoldable pub drive_all : Held T → Driven
  drive_all (c, m) = drive_from (c.max_turns - c.step_index) c.step_index 0 [] (c, m)

  -- The continuation with its next step, saved.
  unfoldable pub advance : ℕ → Held T → Held T
  unfolding keep_cont
  advance turn (c, m) =
      keep_cont o (record c { step_index = turn + 1; status = RunState.running }, m)

  -- The end of `_step`: the last turn was had, or the next goes to another worker.
  unfoldable pub last_or_next : Bool → ℕ → Held T → Driven
  last_or_next true tokens h = let (h', out) = max_turns_reached o tokens h in (h', returned out)
  last_or_next false tokens (c, m) = (
    (c, m),
    returned (record (outcome_of RunStatus.continue c.continuation_id) { tokens_used = tokens }),
  )

  -- What `_step` does after a turn that goes on.
  unfoldable pub hand_over : ℕ → ℕ → List ToolCallRecord → Held T → Driven
  unfolding advance last_or_next
  hand_over turn tokens events (c, m) =
      last_or_next (leb c.max_turns (turn + 1)) tokens (advance turn (c, m))

  -- `_step` past its first test.
  unfoldable pub step_turn : ℕ → Held T → Driven
  unfolding hand_over
  step_turn turn h =
      let t = run_one_turn o turn 0 h in after_turn (hand_over turn) t.end t.tokens t.events t.held

  unfoldable pub guarded_step : Bool → ℕ → Held T → Driven
  unfolding step_turn
  guarded_step true turn h = let (h', out) = max_turns_reached o 0 h in (h', returned out)
  guarded_step false turn h = step_turn turn h

  -- `_step`
  unfoldable pub step : Held T → Driven
  unfolding guarded_step
  step (c, m) = guarded_step (leb c.max_turns c.step_index) c.step_index (c, m)

  -- `_drive_or_step`
  unfoldable pub drive_or_step : Bool → Held T → Driven
  unfolding step drive_all
  drive_or_step true h = step h
  drive_or_step false h = drive_all h

  -- The continuation is marked as running, and driven.
  unfoldable pub set_running : Held T → Held T
  unfolding keep_cont
  set_running (c, m) =
      let (c', m') = keep_cont o (record c { status = RunState.running }, m) in
      (c', transition o c' to_running m')

  abbrev pub machine_of : Driven → Machine T × Ran
  machine_of ((c, m), r) = (m, r)

  -- What `drive` does with the continuation that it loaded, by its status.
  unfoldable pub drive_loaded : RunState → Bool → Continuation → Machine T → Machine T × Ran
  unfolding set_running final_outcome
  drive_loaded RunState.done single_step c m = (m, returned (final_outcome c))
  drive_loaded RunState.failed single_step c m = (m, returned (final_outcome c))
  drive_loaded RunState.suspended single_step c m = (m, returned (suspended_outcome c))
  drive_loaded _ single_step c m = machine_of (drive_or_step single_step (set_running (c, m)))

  unfoldable pub drive_found : Bool → String → Option Continuation → Machine T → Machine T × Ran
  unfolding drive_loaded
  drive_found single_step id none m = (m, returned (failed_outcome id "continuation not found"))
  drive_found single_step id (some c) m = drive_loaded c.status single_step c m

  -- `drive`
  unfoldable pub drive : Bool → String → Machine T → Machine T × Ran
  unfolding drive_found
  drive single_step id m = drive_found single_step id (load id m.store) m
