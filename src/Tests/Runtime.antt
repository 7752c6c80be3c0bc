-- ===== src/Tests/Runtime.antt =====
-- The ledger, the queue and the worker at concrete inputs.
use helios_os.Prelude.{
  if◌then◌else◌, ◌==◌, ◌++◌, ℕ, ◌+◌, ◌%◌, String, true, false, ◌≡◌, ◌≢◌, refl, Option, none, some,
  List, [], ◌∷◌, get, contains, arith, ltb, inr, if◌then◌else◌,
}
use helios_os.Runtime.Continuation.{RunState, Continuation, ContinuationStore, load}
use helios_os.Runtime.Ledger.{
  RowStatus, retryable, dead, LedgerRow, Ledger, fresh_row, upsert_queued, try_mark_running,
  mark_retryable, is_claimable,
}
use helios_os.Runtime.Ledger.Claims
use helios_os.Runtime.Ledger.Claims.{claim_op, finalize_op, Leaves, claimed_once}
use helios_os.Runtime.Ledger.Epochs.{stale_epoch_refused}
use helios_os.Runtime.Ledger.Crashes.{crash_times, crash_budget}
use helios_os.Runtime.Queue.{
  Lane, p0, p1, p2, RunnableItem, Queue, claim, promote_due, enqueue, claim_lanes, take_items, lane,
  promote, append_item,
}
use helios_os.Runtime.Queue.Items.{
  total, tally, IsFlying, Op, enqueue_op, ack_op, nack_op, exec_all, AllSettle, acked, put_in,
  exec_all_conserves,
}
use helios_os.Runtime.Queue.Items
use helios_os.Runtime.Queue.Order.{names, first_of, claim_in_order}
use helios_os.Runtime.Queue.Starvation.{claim_all, low_lane_served}
use helios_os.Runtime.Outcome.{RunStatus, RunOutcome, outcome_of, returned, raised}
use helios_os.Runtime.Worker.Crashes.{CrashSettled}
use helios_os.Runtime.Worker.{
  World, enqueue_runnable, Engine, WorkerConfig, dropped, acked_world, handle_one, run_item,
  requeue,
}
use helios_os.Runtime.Worker.Deliveries.{
  settled_delivery_dropped, superseded_delivery_dropped, crash_redelivers,
}

abbrev first_row : LedgerRow
first_row = fresh_row "c1" "acme" "p1" 4

abbrev one_row : Ledger
one_row = ("c1", first_row) ∷ []

claim_wins : (try_mark_running "c1" "w1" 4 600 one_row).1 ≡ true
unfolding try_mark_running get fresh_row is_claimable
claim_wins = refl

abbrev ledger_calls : List Claims.Op
ledger_calls = finalize_op "c1" RowStatus.done none ∷ claim_op "c1" "w3" 4 700 ∷ []

claimed_once_example :
    let later = Claims.exec_all ledger_calls (try_mark_running "c1" "w1" 4 600 one_row).0 in
    try_mark_running "c1" "w2" 4 800 later ≡ (later, false)
unfolding fresh_row is_claimable
claimed_once_example =
    claimed_once "c1" "w1" 4 600 one_row ledger_calls "w2" 4 800 claim_wins (inr refl, (tt, tt))

abbrev old_epoch : ℕ
old_epoch = 4

stale_epoch_refused_example :
    let later = Claims.exec_all ledger_calls (upsert_queued "c1" "acme" "p1" 5 one_row) in
    try_mark_running "c1" "w2" old_epoch 800 later ≡ (later, false)
stale_epoch_refused_example =
    stale_epoch_refused "c1" "acme" "p1" 5 one_row ledger_calls "w2" old_epoch 800 (tt, (tt, tt))
      (λ e. absurd (omega arith))

crash_budget_example :
    let before = crash_times "c1" "boom" 3 2 (upsert_queued "c1" "acme" "p1" 5 one_row) in
    let (after, alive) = mark_retryable "c1" "boom" 3 before in
    (alive ≡ ltb 3 3)
    × (q : LedgerRow) × (get "c1" after ≡ some q)
    × (q.status ≡ (if ltb 3 3 then retryable else dead))
    × (q.crash_count ≡ 3)
crash_budget_example = crash_budget "c1" "acme" "p1" "boom" 5 3 2 one_row

abbrev item_of : String → Lane → Option ℕ → RunnableItem
item_of cont_id priority handle = record {
  cont_id = cont_id;
  tenant_id = "acme";
  priority = priority;
  enqueue_epoch = 4;
  resolution = none;
  attempt = 0;
  handle = handle;
}

-- One item in each lane, one in flight, and one that is due at 50.
abbrev work : Queue
work = record {
  lanes = record {
    first = item_of "a" p0 none ∷ [];
    middle = item_of "b" p1 none ∷ [];
    last = item_of "c" p2 none ∷ [];
  };
  delayed = record { due = 50; seq = 1; item = item_of "d" p0 none } ∷ [];
  inflight = (0, item_of "c1" p1 (some 0)) ∷ [];
  next_seq = 2;
  starve_guard = 0;
}

item-IsFlying : IsFlying (item_of "c1" p1 (some 0)) work
unfolding Items.found
item-IsFlying = (0, refl, refl)

abbrev queue_calls : List Op
queue_calls =
    enqueue_op 10 (item_of "c1" p1 none) (some 20) ∷ ack_op (item_of "c1" p1 (some 0)) ∷ []

exec_all_conserves_example :
    total "c1" (exec_all queue_calls work) + tally (acked "c1") queue_calls
    ≡ total "c1" work + tally (put_in "c1") queue_calls
unfolding Items.exec enqueue Items.found
exec_all_conserves_example = exec_all_conserves "c1" queue_calls work (tt, ((0, refl, refl), tt))

claim_in_order_example :
    names (claim 60 3 work).1
    ≡ first_of 3 (
        let ls = (promote_due 60 work).lanes in
        if (work.starve_guard + 1) % 5 == 0
        then names ls.last ++ (names ls.middle ++ names ls.first)
        else names ls.first ++ (names ls.middle ++ names ls.last))
claim_in_order_example = claim_in_order 60 3 work

-- The claim above gives the two items of the first lane, one of them promoted, and one of the next.
claim_runs : names (claim 60 3 work).1 ≡ "a" ∷ "d" ∷ "b" ∷ []
unfolding claim names claim_lanes promote_due take_items lane promote append_item
claim_runs = refl

low_lane_served_example :
    contains "c" (claim_all ((1, 1) ∷ (2, 1) ∷ (3, 1) ∷ (4, 1) ∷ (5, 1) ∷ []) work) ≡ true
low_lane_served_example =
    low_lane_served (1, 1) (2, 1) (3, 1) (4, 1) (5, 1) (item_of "c" p2 none) work
      (omega arith, (omega arith, (omega arith, (omega arith, (omega arith, tt))))) ([], refl)

abbrev run_of : String → ℕ → Continuation
run_of id updated_at = record {
  continuation_id = id;
  pid = "p";
  generation = 1;
  run_id = none;
  session_id = none;
  tenant_id = "acme";
  user_id = "default";
  namespace = "default";
  messages = [];
  provider = "openai";
  chat_model = "gpt-x";
  endpoint = none;
  api_key_ref = none;
  tool_definitions = none;
  goal = none;
  resource_usage = record { tokens_in = 0; tokens_out = 0; tool_calls = 0 };
  step_index = 0;
  max_turns = 300;
  status = RunState.suspended;
  suspend_reason = none;
  pending_calls = [];
  source = "human";
  enqueue_epoch = 4;
  last_error = none;
  final_output = "";
  updated_at = updated_at;
}

abbrev runs : ContinuationStore
runs = record { by_id = ("c0", run_of "c0" 3) ∷ ("c1", run_of "c1" 9) ∷ []; ref_to_id = [] }

abbrev good_outcome : RunOutcome
good_outcome = outcome_of RunStatus.done "c1"

abbrev good_engine : Engine (Unit {0})
good_engine = record {
  drive = λ id s u. (s, u, returned good_outcome);
  resume = λ r s u. (s, u, returned good_outcome);
}

abbrev bad_engine : Engine (Unit {0})
bad_engine = record {
  drive = λ id s u. (s, u, raised "boom");
  resume = λ r s u. (s, u, raised "boom");
}

abbrev worker : WorkerConfig
worker = record { worker_id = "w1"; lease = 600; max_crashes = 3; has_enqueuer = true }

abbrev world : World (Unit {0})
world = record { store = runs; rest = tt; ledger = one_row; queue = work }

abbrev delivery : RunnableItem
delivery = item_of "c1" p1 (some 0)

not_continue : RunStatus.done ≢ RunStatus.continue
not_continue e = cc

settled_delivery_dropped_example :
    let after = (handle_one good_engine worker 10 delivery world).0 in
    handle_one good_engine worker 30 delivery after
    ≡ (acked_world good_engine worker delivery after, dropped)
unfolding try_mark_running get fresh_row is_claimable run_item Claims.exec_all handle_one
settled_delivery_dropped_example =
    settled_delivery_dropped good_engine worker 10 delivery world runs tt good_outcome [] 30
      delivery (handle_one good_engine worker 10 delivery world).0 refl refl not_continue tt refl
      refl

superseded_delivery_dropped_example :
    let after = enqueue_runnable 10 "c1" none none none world in
    handle_one good_engine worker 30 delivery after
    ≡ (acked_world good_engine worker delivery after, dropped)
unfolding enqueue_runnable load get Claims.exec_all requeue
superseded_delivery_dropped_example =
    superseded_delivery_dropped good_engine worker 10 "c1" none none none world (run_of "c1" 9) []
      30 delivery (enqueue_runnable 10 "c1" none none none world) refl tt refl refl
      (λ e. absurd (omega arith))

crash_redelivers_example :
    CrashSettled 3 delivery first_row work (handle_one bad_engine worker 10 delivery world).0
unfolding try_mark_running get fresh_row is_claimable run_item
crash_redelivers_example =
    crash_redelivers bad_engine worker 10 delivery world runs tt "boom" first_row refl refl refl
      item-IsFlying
