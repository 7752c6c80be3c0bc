-- ===== src/Runtime/Engine/Complete.antt =====
-- The history after a turn with tool calls that goes on (src/runtime/engine.py).
use helios_os.Prelude.{
  ℕ, String, Bool, true, false, ◌≡◌, ◌≢◌, refl, ap, ◌∙◌, List, [], ◌∷◌, ◌++◌, map, any, All,
}
use mathlib.Core.List.{append_assoc}
use helios_os.Kernel.Json.{Value}
use helios_os.Runtime.Continuation.{ToolCallRecord, Continuation, touch}
use helios_os.Runtime.Response.{ToolCall, LlmResponse, calls_of}
use helios_os.Runtime.Shaping.{vertex, content_str}
use helios_os.Runtime.Shaping.Results.{
  called_ids, answered_ids, answered_texts, replies-texts, replies, turn_message,
  replies_answer_turn, shape_turn_lem, shape_results_lem,
}
use helios_os.Runtime.Engine.Machine.{Outside, Machine, Held}
use helios_os.Runtime.Engine.Dispatch.{Progress, waiting, running, ended, result, parked, gather}
use helios_os.Runtime.Engine.Turn.{
  goes_on, record_of, settled_record, is_parked, kind_of, after_signals, with_results,
  append_results, settle_turn, after_gather, with_turn, tool_turn,
}
use helios_os.Runtime.Engine.Ending.{is_executed}
use helios_os.Runtime.Engine.Origins.{HasAnswer, gather-HasAnswer}
use helios_os.Runtime.Engine.Replies.{
  Asked, asked_for, dispatched, is_ended, run_schedule-calls, end_all-calls,
}

abbrev id_of : ToolCallRecord → String
id_of r = r.tool_use_id

-- The dispatches have all come to a result, and the records are those of the calls with the results.
abbrev pub HasResults : List Progress → List ToolCallRecord → Type 0
HasResults [] [] = Unit
HasResults (ended rec (result v) ∷ ps) (x ∷ rs) =
    (x.tool_use_id ≡ rec.tool_use_id) × (x.name ≡ rec.name) × (x.result ≡ v) × HasResults ps rs
HasResults _ _ = ⊥

-- What the model calls.
abbrev pub called : ToolCall → Asked
called t = (t.id, t.name, t.input)

settled-ids :
    (ps : List Progress) → map id_of (map settled_record ps) ≡ map (λ p. (dispatched p).0) ps
unfolding settled_record
settled-ids [] = refl
settled-ids (waiting rec ∷ ps) = ap (λ (l : List String). id_of rec ∷ l) (settled-ids ps)
settled-ids (running rec ticket adm ∷ ps) = ap (λ (l : List String). id_of rec ∷ l) (settled-ids ps)
settled-ids (ended rec (result v) ∷ ps) = ap (λ (l : List String). id_of rec ∷ l) (settled-ids ps)
settled-ids (ended rec (parked s) ∷ ps) = ap (λ (l : List String). id_of rec ∷ l) (settled-ids ps)

settled-HasResults :
    (ps : List Progress)
    → All (λ p. is_ended p ≡ true) ps
    → any is_parked ps ≡ false
    → HasResults ps (map settled_record ps)
unfolding settled_record any is_parked
settled-HasResults [] e h = tt
settled-HasResults (waiting rec ∷ ps) e h = absurd (cc (e.0))
settled-HasResults (running rec ticket adm ∷ ps) e h = absurd (cc (e.0))
settled-HasResults (ended rec (result v) ∷ ps) e h =
    let rest = settled-HasResults ps e.1 h in (refl, refl, refl, rest)
settled-HasResults (ended rec (parked s) ∷ ps) e h = absurd (cc)

settled-executed :
    (ps : List Progress)
    → All (λ p. is_ended p ≡ true) ps
    → any is_parked ps ≡ false
    → All (λ r. is_executed r ≡ true) (map settled_record ps)
unfolding settled_record is_executed any is_parked
settled-executed [] e h = tt
settled-executed (waiting rec ∷ ps) e h = absurd (cc (e.0))
settled-executed (running rec ticket adm ∷ ps) e h = absurd (cc (e.0))
settled-executed (ended rec (result v) ∷ ps) e h = (refl, settled-executed ps e.1 h)
settled-executed (ended rec (parked s) ∷ ps) e h = absurd (cc)

waiting-calls : (rs : List ToolCallRecord) → map dispatched (map waiting rs) ≡ map asked_for rs
waiting-calls [] = refl
waiting-calls (r ∷ rs) = ap (λ (l : List Asked). asked_for r ∷ l) (waiting-calls rs)

record_of-calls : (cs : List ToolCall) → map asked_for (map record_of cs) ≡ map called cs
unfolding record_of
record_of-calls [] = refl
record_of-calls (c ∷ cs) = ap (λ (l : List Asked). called c ∷ l) (record_of-calls cs)

-- What has the ids of the calls answers them.
ids-calls :
    (ps : List Progress) (cs : List ToolCall)
    → map dispatched ps ≡ map called cs
    → map (λ p. (dispatched p).0) ps ≡ map (λ (t : ToolCall). t.id) cs
ids-calls [] [] h = refl
ids-calls [] (c ∷ cs) h = cc
ids-calls (p ∷ ps) [] h = cc
ids-calls (p ∷ ps) (c ∷ cs) h =
    let first : dispatched p ≡ called c = cc in
    let rest : map dispatched ps ≡ map called cs = cc in
    ap (λ (x : Asked). x.0 ∷ map (λ q. (dispatched q).0) ps) first
    ∙ ap (λ (l : List String). c.id ∷ l) (ids-calls ps cs rest)

module _ {T : Type 0} (o : Outside T) where
  gather-calls :
      (c : Continuation) (rs : List ToolCallRecord) (m : Machine T)
      → (map dispatched (gather o c rs m).0 ≡ map asked_for rs)
        × All (λ p. is_ended p ≡ true) (gather o c rs m).0
  unfolding gather
  gather-calls c rs m =
      let (same, over) = end_all-calls o c _ _ in
      (
        same ∙ run_schedule-calls o c (o.schedule m.outside) (map waiting rs) m ∙ waiting-calls rs,
        over,
      )

  after_signals-messages :
      (stop : Bool) (r : LlmResponse) (n : ℕ) (es : List ToolCallRecord) (h : Held T)
      → (after_signals o stop r n es h).end ≡ goes_on
      → (after_signals o stop r n es h).held.0.messages ≡ h.0.messages
  unfolding after_signals
  after_signals-messages true r n es h e = cc
  after_signals-messages false r n es h e = refl

  with_results-messages :
      (rs : List ToolCallRecord) (h : Held T)
      → (with_results o rs h).0.messages ≡ h.0.messages ++ replies o.texts (kind_of o h.0) rs
  unfolding with_results touch
  with_results-messages rs (c, m) = shape_results_lem o.texts (kind_of o c) rs c.messages

  settle_turn-messages :
      (parks : Bool) (r : LlmResponse) (rs : List ToolCallRecord) (n : ℕ) (h : Held T)
      → (settle_turn o parks r rs n h).end ≡ goes_on
      → (parks ≡ false)
        × ((settle_turn o parks r rs n h).held.0.messages
            ≡ h.0.messages ++ replies o.texts (kind_of o h.0) rs)
  unfolding settle_turn append_results
  settle_turn-messages true r rs n h e = absurd (cc)
  settle_turn-messages false r rs n h e =
      (refl, after_signals-messages _ r n _ _ e ∙ with_results-messages rs h)

  turn-history :
      (r : LlmResponse) (rs : List ToolCallRecord) (c : Continuation)
      → (with_turn o r c).messages ++ replies o.texts (kind_of o (with_turn o r c)) rs
        ≡ c.messages ++ turn_message o.texts (kind_of o c) r ∷ replies o.texts (kind_of o c) rs
  unfolding with_turn
  turn-history r rs c =
      ap (λ (ms : List Value). ms ++ replies o.texts (kind_of o c) rs)
        (shape_turn_lem o.texts (kind_of o c) r c.messages)
      ∙ append_assoc c.messages (turn_message o.texts (kind_of o c) r ∷ []) _

  -- A turn with tool calls that goes on, under any schedule of its dispatches, has dispatched the
  -- calls of the turn, by id, name and input and in order, and every dispatch has come to a result: an
  -- error message, the mark of a masked call, or what the tool of that name returned when it was called
  -- with that input. The history then ends in the turn's message and the messages with the results:
  -- the ids that these answer are the ids that the turn called with, in order, and their texts are
  -- those of the results that the dispatches came to, in order. Of the dialects, that of Vertex has no
  -- ids.
  pub turn_answers_calls :
      (r : LlmResponse) (n : ℕ) (c : Continuation) (m : Machine T)
      → (tool_turn o r n (c, m)).end ≡ goes_on
      → kind_of o c ≢ vertex
      → let kind = kind_of o c in
        let ps = (gather o (with_turn o r c) (map record_of (calls_of r)) m).0 in
        (map dispatched ps ≡ map called (calls_of r))
        × All (HasAnswer o) ps
        × (rs : List ToolCallRecord) × HasResults ps rs
        × All (λ x. is_executed x ≡ true) rs
        × ((tool_turn o r n (c, m)).held.0.messages
            ≡ c.messages ++ turn_message o.texts kind r ∷ replies o.texts kind rs)
        × (answered_ids kind (replies o.texts kind rs)
            ≡ called_ids kind (turn_message o.texts kind r))
        × (answered_texts kind (replies o.texts kind rs)
            ≡ map (λ (x : ToolCallRecord). content_str o.texts x.result) rs)
  unfolding tool_turn after_gather
  turn_answers_calls r n c m e nv =
      let c' = with_turn o r c in
      let ps = (gather o c' (map record_of (calls_of r)) m).0 in
      let (same, over) = gather-calls c' (map record_of (calls_of r)) m in
      let asked = same ∙ record_of-calls (calls_of r) in
      let rs = map settled_record ps in
      let (none_parked, history) = settle_turn-messages (any is_parked ps) r rs n _ e in
      (
        asked,
        gather-HasAnswer o c' (map record_of (calls_of r)) m,
        rs,
        settled-HasResults ps over none_parked,
        settled-executed ps over none_parked,
        history ∙ turn-history r rs c,
        replies_answer_turn o.texts (kind_of o c) r rs nv
            (settled-ids ps ∙ ids-calls ps (calls_of r) asked),
        replies-texts o.texts (kind_of o c) rs nv,
      )
