-- ===== src/Runtime/Worker.antt =====
-- The one path by which work is queued and the worker that drives it: `Enqueuer`
-- (src/runtime/enqueuer.py) and `Worker` (src/runtime/worker.py). They are
-- written for every step engine: a run of it takes the continuation store and what else it works on,
-- the kernel and the tools, to an outcome or to an exception, and touches neither the ledger nor the
-- queue; the tool context that it is handed is part of it. Runtime/Service puts the engine in. An
-- instant is counted in half seconds, the unit of the backoff.
pub mod Crashes
pub mod Deliveries
pub mod Invariant
use helios_os.Prelude.{
  ℕ, ◌+◌, ◌*◌, ◌^◌, String, str_eq, Bool, true, false, not, ◌||◌, Option, none, some, List, [], ◌∷◌,
  or_else, if◌then◌else◌,
}
use helios_os.Runtime.Continuation.{Continuation, ContinuationStore, Resolution, load, save}
use helios_os.Runtime.Outcome.{RunStatus, RunOutcome, Ran, returned, raised}
use helios_os.Runtime.Ledger.{
  RowStatus, LedgerRow, Ledger, upsert_queued, try_mark_running, finalize, mark_retryable,
  recover_rows,
}
use helios_os.Runtime.Queue.{RunnableItem, Queue, Lane, lane_of, enqueue, claim, ack, nack}

-- What the workers share; `rest` is what their engine works on beside the store.
pub record World (R : Type 0) : Type 0 where
  pub store : ContinuationStore
  pub rest : R
  pub ledger : Ledger
  pub queue : Queue

-- `_PRIORITY_BY_SOURCE.get(source, "p1")`
unfoldable pub priority_for : String → String
priority_for source =
    if str_eq source "human" || str_eq source "reflex" || str_eq source "resume"
    then "p0"
    else if str_eq source "autonomous" || str_eq source "always_on" || str_eq source "batch"
    then "p2"
    else "p1"

-- `priority_for(cont.source if resolution is None else "resume")`
unfoldable pub own_priority : Option Resolution → Continuation → String
unfolding priority_for
own_priority none c = priority_for c.source
own_priority (some r) c = priority_for "resume"

-- `priority or priority_for(…)`
unfoldable pub chosen_priority : Option String → Option Resolution → Continuation → String
unfolding own_priority
chosen_priority none resolution c = own_priority resolution c
chosen_priority (some p) resolution c = if str_eq p "" then own_priority resolution c else p

abbrev pub runnable : String → String → String → ℕ → Option Resolution → RunnableItem
runnable cont_id tenant_id priority epoch resolution = record {
  cont_id = cont_id;
  tenant_id = tenant_id;
  priority = lane_of priority;
  enqueue_epoch = epoch;
  resolution = resolution;
  attempt = 0;
  handle = none;
}

module _ {R : Type 0} where
  -- What `enqueue_runnable` does with the continuation that it loaded.
  unfoldable pub requeue :
      ℕ → String → Continuation → String → Option ℕ → Option Resolution → World R → World R
  requeue now cont_id cont priority not_before resolution w =
      let epoch = cont.enqueue_epoch + 1 in
      record {
        store = save now (record cont { enqueue_epoch = epoch }) w.store;
        ledger = upsert_queued cont_id cont.tenant_id priority epoch w.ledger;
        rest = w.rest;
        queue =
            enqueue now (runnable cont_id cont.tenant_id priority epoch resolution) not_before
              w.queue;
      }

  -- `enqueue_runnable`
  unfoldable pub enqueue_runnable :
      ℕ → String → Option String → Option ℕ → Option Resolution → World R → World R
  enqueue_runnable now cont_id priority not_before resolution w = elim (load cont_id w.store) [
    | none ↦ w
    | some cont ↦
        requeue now cont_id cont (chosen_priority priority resolution cont) not_before resolution w
  ]

  -- The loop of `rebuild_from_ledger`, over the rows that the ledger recovers.
  unfoldable pub rebuild_rows : ℕ → List LedgerRow → World R → World R × ℕ
  rebuild_rows now [] w = (w, 0)
  rebuild_rows now (row ∷ rows) w = elim (load row.cont_id w.store) [
    | none ↦ rebuild_rows now rows w
    | some cont ↦
        let (w', count) = rebuild_rows now rows (record w {
          queue =
              enqueue now (runnable row.cont_id row.tenant_id row.priority row.enqueue_epoch none)
                row.not_before w.queue;
        }) in
        (w', count + 1)
  ]

  -- `rebuild_from_ledger`
  unfoldable pub rebuild_from_ledger : ℕ → World R → World R × ℕ
  rebuild_from_ledger now w = rebuild_rows now (recover_rows w.ledger) w

pub record Engine (R : Type 0) : Type 0 where
  pub drive : String → ContinuationStore → R → ContinuationStore × R × Ran
  pub resume : Resolution → ContinuationStore → R → ContinuationStore × R × Ran

pub record WorkerConfig : Type 0 where
  pub worker_id : String
  pub lease : ℕ
  pub max_crashes : ℕ
  pub has_enqueuer : Bool

-- How `handle_one` leaves: a delivery is dropped (`None`), or handled to a status, or a signal escapes.
pub data Handled : Type 0 where
  dropped escaped : Handled
  handled : RunStatus → Handled

-- `"done" if outcome.status in (DONE, SUSPENDED, MAX_TURNS) else "failed"`
unfoldable pub ledger_status : RunStatus → RowStatus
ledger_status RunStatus.done = RowStatus.done
ledger_status RunStatus.suspended = RowStatus.done
ledger_status RunStatus.max_turns = RowStatus.done
ledger_status _ = RowStatus.failed

module _ {R : Type 0} (engine : Engine R) (cfg : WorkerConfig) where
  -- `resume` for an item with a resolution, `drive` for another.
  unfoldable pub run_item : RunnableItem → ContinuationStore → R → ContinuationStore × R × Ran
  run_item item store rest = elim item.resolution [
    | some r ↦ engine.resume r store rest
    | none ↦ engine.drive item.cont_id store rest
  ]

  -- The `except` branch: another delivery after a backoff, or none when the crash budget is spent.
  unfoldable pub after_crash : ℕ → RunnableItem → String → World R → World R
  after_crash now item error w =
      let (ledger, alive) = mark_retryable item.cont_id error cfg.max_crashes w.ledger in
      record w {
        ledger = ledger;
        queue = if alive then nack now item (2 ^ item.attempt) w.queue else ack item w.queue;
      }

  unfoldable pub settle_run : RunnableItem → RowStatus → Option String → World R → World R
  settle_run item status error w = record w {
    ledger = finalize item.cont_id status error w.ledger;
    queue = ack item w.queue;
  }

  abbrev pub acked_world : RunnableItem → World R → World R
  acked_world item w = record w { queue = ack item w.queue }

  -- The lane of an item as the text that `enqueue_runnable` is given.
  abbrev pub text_of : Lane → String
  text_of Lane.p0 = "p0"
  text_of Lane.p1 = "p1"
  text_of Lane.p2 = "p2"

  -- What follows a run that returned.
  unfoldable pub after_run : ℕ → RunnableItem → RunOutcome → World R → World R × RunStatus
  after_run now item outcome w = elim outcome.status [
    | RunStatus.continue ↦
        if cfg.has_enqueuer
        then (
          acked_world item
              (enqueue_runnable now item.cont_id (some (text_of item.priority)) none none w),
          RunStatus.continue,
        )
        else (
          settle_run item RowStatus.failed (some "CONTINUE without enqueuer") w,
          RunStatus.failed,
        )
    | s ↦ (settle_run item (ledger_status s) outcome.error w, s)
  ]

  -- A signal that escapes from the engine is no `Exception`: it leaves `handle_one` with neither the
  -- ledger nor the queue told.
  unfoldable pub after_ran :
      ℕ → RunnableItem → World R → ContinuationStore × R × Ran → World R × Handled
  after_ran now item w (store, rest, raised error) = (
    after_crash now item error (record w { store = store; rest = rest }),
    handled RunStatus.failed,
  )
  after_ran now item w (store, rest, Ran.escaped) =
      (record w { store = store; rest = rest }, escaped)
  after_ran now item w (store, rest, returned outcome) =
      let (w', status) = after_run now item outcome (record w { store = store; rest = rest }) in
      (w', handled status)

  -- The part of `handle_one` past the claim.
  unfoldable pub handle_claimed : ℕ → RunnableItem → World R → World R × Handled
  handle_claimed now item w = after_ran now item w (run_item item w.store w.rest)

  -- `handle_one` at instant `now`.
  unfoldable pub handle_one : ℕ → RunnableItem → World R → World R × Handled
  handle_one now item w =
      let (ledger, won) =
        try_mark_running item.cont_id cfg.worker_id item.enqueue_epoch (now + cfg.lease) w.ledger in
      if won
      then handle_claimed now item (record w { ledger = ledger })
      else (acked_world item w, dropped)

  -- The statuses of a loop's rest after that of an item; a signal that escapes ends the loop.
  unfoldable pub after_item : Handled → World R → World R × List Handled → World R × List Handled
  after_item escaped w rest = (w, escaped ∷ [])
  after_item status w (w', statuses) = (w', status ∷ statuses)

  unfoldable pub handle_all : ℕ → List RunnableItem → World R → World R × List Handled
  unfolding after_item
  handle_all now [] w = (w, [])
  handle_all now (item ∷ items) w =
      let (w', status) = handle_one now item w in after_item status w' (handle_all now items w')

  -- `run_once(count=…)`
  unfoldable pub run_once : ℕ → ℕ → Bool → World R → World R × List Handled
  run_once now count draining w =
      let (queue, items) = claim now count w.queue in
      if draining then (w, []) else handle_all now items (record w { queue = queue })
