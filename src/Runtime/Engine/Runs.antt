-- ===== src/Runtime/Engine/Runs.antt =====
-- What a turn, a drive and a step (src/runtime/engine.py) do to the outside and to the trace.
use helios_os.Prelude.{
  ℕ, zero, suc, ◌+◌, String, Bool, true, false, ◌≡◌, refl, ◌∙◌, Option, none, some, List, [], ◌∷◌,
  arith, sym, map, any,
}
use mathlib.Core.Path.{subst}
use helios_os.Runtime.Continuation.{ToolCallRecord, Continuation}
use helios_os.Runtime.Outcome.{Ran}
use helios_os.Runtime.Response.{LlmResponse, calls_of, text_or_none, has_tool_calls}
use helios_os.Runtime.Engine.Machine.{
  Question, Outside, Event, asked, Machine, Held, Chatted, chat_raised, answered, transition, Kind,
  account,
}
use helios_os.Runtime.Engine.Turn.{
  after_signals, with_results, settle_turn, good_turn, checked_turn, TurnEnd, chat_broke, finished,
  goes_on, take_sigterm, with_turn, record_of, is_parked, settled_record, append_results,
  after_gather, tool_turn, answer_turn, question, ask, run_one_turn,
}
use helios_os.Runtime.Engine.Ending.{complete, fail, suspend, max_turns_reached}
use helios_os.Runtime.Engine.Drive.{
  after_turn, advance, last_or_next, guarded_step, drive_from, drive_all, hand_over, step_turn,
  step, drive_or_step, set_running,
}
use helios_os.Runtime.Engine.Dispatch.{gather}
use helios_os.Runtime.Engine.Kept.{Seen, seen, IsKept}
use helios_os.Runtime.Engine.Trust.{gather-Holds}

-- The machine that a run leaves.
abbrev pub left_by : {T : Type 0} → Held T × Ran → Machine T
left_by r = r.0.1

module _ {T : Type 0} (o : Outside T) where
  pub transition-seen :
      (c : Continuation) (k : Kind) (m : Machine T) → seen (transition o c k m) ≡ seen m
  unfolding transition
  transition-seen c k m = ground arith

  account-seen : (r : LlmResponse) (h : Held T) → seen (account o r h).1 ≡ seen h.1
  unfolding account
  account-seen r (c, m) = ground arith

  fail-seen : (e : String) (h : Held T) → seen (fail o e h).0.1 ≡ seen h.1
  unfolding fail
  fail-seen e (c, m) = transition-seen _ _ _

  complete-seen : (s : String) (n : ℕ) (h : Held T) → seen (complete o s n h).0.1 ≡ seen h.1
  unfolding complete
  complete-seen s n (c, m) = refl

  suspend-seen :
      (rs : List ToolCallRecord) (n : ℕ) (h : Held T) → seen (suspend o rs n h).0.1 ≡ seen h.1
  unfolding suspend
  suspend-seen rs n (c, m) = transition-seen _ _ _

  pub max_turns-seen : (n : ℕ) (h : Held T) → seen (max_turns_reached o n h).0.1 ≡ seen h.1
  unfolding max_turns_reached
  max_turns-seen n (c, m) = refl

  take_sigterm-seen : (pid : String) (m : Machine T) → seen (take_sigterm o pid m).1 ≡ seen m
  unfolding take_sigterm
  take_sigterm-seen pid m = ground arith

  after_signals-seen :
      (stop : Bool) (r : LlmResponse) (n : ℕ) (es : List ToolCallRecord) (h : Held T)
      → seen (after_signals o stop r n es h).held.1 ≡ seen h.1
  unfolding after_signals
  after_signals-seen true r n es h = complete-seen r.text n h
  after_signals-seen false r n es h = refl

  with_results-seen :
      (rs : List ToolCallRecord) (h : Held T) → seen (with_results o rs h).1 ≡ seen h.1
  unfolding with_results
  with_results-seen rs (c, m) = refl

  settle_turn-seen :
      (parked : Bool) (r : LlmResponse) (rs : List ToolCallRecord) (n : ℕ) (h : Held T)
      → seen (settle_turn o parked r rs n h).held.1 ≡ seen h.1
  unfolding settle_turn append_results
  settle_turn-seen true r rs n h = suspend-seen rs n h
  settle_turn-seen false r rs n h =
      after_signals-seen _ r n _ _
      ∙ take_sigterm-seen _ (with_results o rs h).1
      ∙ with_results-seen rs h

  pub last_or_next-seen :
      (last : Bool) (n : ℕ) (h : Held T) → seen (left_by (last_or_next o last n h)) ≡ seen h.1
  unfolding last_or_next
  last_or_next-seen true n h = max_turns-seen n h
  last_or_next-seen false n (c, m) = refl

module _ {T : Type 0} (o : Outside T) (P : Seen T → Type 0) (kept : IsKept o P) where
  tool_turn-Holds :
      (r : LlmResponse) (n : ℕ) (h : Held T) → P (seen h.1) → P (seen (tool_turn o r n h).held.1)
  unfolding tool_turn after_gather
  tool_turn-Holds r n (c, m) h =
      let c' = with_turn o r c in
      let g = gather o c' (map record_of (calls_of r)) m in
      subst P (sym (settle_turn-seen o (any is_parked g.0) r (map settled_record g.0) n (c', g.1)))
        (gather-Holds o P kept c' (map record_of (calls_of r)) m h)

  good_turn-Holds :
      (calls : Bool) (r : LlmResponse) (n : ℕ) (h : Held T)
      → P (seen h.1)
      → P (seen (good_turn o calls r n h).held.1)
  unfolding good_turn
  good_turn-Holds true r n h k = tool_turn-Holds r n h k
  good_turn-Holds false r n h k = rw (complete-seen o r.text n h) k

  pub answer_turn-Holds :
      (a : Chatted) (n : ℕ) (h : Held T) → P (seen h.1) → P (seen (answer_turn o a n h).held.1)
  unfolding answer_turn
  answer_turn-Holds (chat_raised e) n h k = k
  answer_turn-Holds (answered r) n h k = checked (text_or_none r.error)
    where
      checked : (e : Option String) → P (seen (checked_turn o e r n h).held.1)
      checked (some e) = unfold checked_turn in rw (fail-seen o e h) k
      checked none =
          unfold checked_turn in
          good_turn-Holds (has_tool_calls r) r _ _ (rw (account-seen o r h) k)

-- So it is kept by the runs, if it is also by a question to the model.
module _ {T : Type 0} (o : Outside T) (P : Seen T → Type 0) (kept : IsKept o P)
    (on_chat : (q : Question) (t : T) (es : List Event)
      → P (t, es)
      → P ((o.chat q t).1, asked ∷ es)) where
  abbrev pub Stays : Machine T → Type 0
  Stays m = P (seen m)

  pub run_one_turn-Stays :
      (turn n : ℕ) (h : Held T) → Stays h.1 → Stays (run_one_turn o turn n h).held.1
  unfolding run_one_turn ask
  run_one_turn-Stays turn n (c, m) h =
      answer_turn-Holds o P kept _ n _ (on_chat (question o c) m.outside m.trace h)

  after_turn-Stays :
      (on : ℕ → List ToolCallRecord → Held T → Held T × Ran) (e : TurnEnd) (n : ℕ)
      (es : List ToolCallRecord) (h : Held T)
      → Stays h.1
      → Stays (left_by (on n es h))
      → Stays (left_by (after_turn o on e n es h))
  unfolding after_turn
  after_turn-Stays on (chat_broke e) n es h k l = k
  after_turn-Stays on (finished out) n es h k l = k
  after_turn-Stays on goes_on n es h k l = l

  drive_from-Stays :
      (left turn n : ℕ) (es : List ToolCallRecord) (h : Held T)
      → Stays h.1
      → Stays (left_by (drive_from o left turn n es h))
  unfolding drive_from
  drive_from-Stays zero turn n es h k = rw (max_turns-seen o n h) k
  drive_from-Stays (suc left) turn n es h k =
      let k' = run_one_turn-Stays turn n h k in
      after_turn-Stays (drive_from o left (turn + 1)) _ _ _ _ k'
        (drive_from-Stays left (turn + 1) _ _ _ k')

  guarded_step-Stays :
      (last : Bool) (turn : ℕ) (h : Held T)
      → Stays h.1
      → Stays (left_by (guarded_step o last turn h))
  unfolding guarded_step step_turn hand_over advance
  guarded_step-Stays true turn h k = rw (max_turns-seen o 0 h) k
  guarded_step-Stays false turn h k =
      let k' = run_one_turn-Stays turn 0 h k in
      after_turn-Stays (hand_over o turn) _ _ _ _ k' (subst P (sym (last_or_next-seen o _ _ _)) k')

  pub drive_or_step-Stays :
      (single : Bool) (h : Held T) → Stays h.1 → Stays (left_by (drive_or_step o single h))
  unfolding drive_or_step drive_all step
  drive_or_step-Stays true (c, m) k = guarded_step-Stays _ _ (c, m) k
  drive_or_step-Stays false (c, m) k = drive_from-Stays _ _ 0 [] (c, m) k

  pub run_on-Stays :
      (single : Bool) (h : Held T)
      → Stays h.1
      → Stays (left_by (drive_or_step o single (set_running o h)))
  unfolding set_running
  run_on-Stays single (c, m) k =
      drive_or_step-Stays single (set_running o (c, m)) (subst P (sym (transition-seen o _ _ _)) k)
