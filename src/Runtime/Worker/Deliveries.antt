-- ===== src/Runtime/Worker/Deliveries.antt =====
-- What the worker (src/runtime/worker.py) makes of deliveries that are settled, superseded or crashed.
use helios_os.Prelude.{
  ℕ, ◌+◌, String, Bool, true, false, ◌≡◌, ◌≢◌, refl, ap, ◌∙◌, Option, some, List, get, sym, ◌∷◌,
  All, arith, inr,
}
use mathlib.Core.Path.{subst}
use helios_os.Runtime.Continuation.{Continuation, ContinuationStore, Resolution, load}
use helios_os.Runtime.Ledger.{
  Ledger, LedgerRow, mark_running, is_claimable, try_mark_running, finalize, upsert_queued,
}
use helios_os.Runtime.Ledger.Claims.{Op, finalize_op, exec, exec_all, Leaves, claimed_once}
use helios_os.Runtime.Ledger.Epochs.{KeepsEpoch, stale_epoch_refused}
use helios_os.Runtime.Queue.{RunnableItem}
use helios_os.Runtime.Queue.Items.{IsFlying}
use helios_os.Runtime.Outcome.{RunStatus, RunOutcome, Ran, returned, raised}
use helios_os.Runtime.Worker.Crashes.{CrashSettled, claimed_row, after_crash_lem}
use helios_os.Runtime.Worker.{
  World, enqueue_runnable, requeue, chosen_priority, Engine, WorkerConfig, Handled, dropped,
  handled, ledger_status, run_item, after_crash, settle_run, acked_world, after_run, after_ran,
  handle_claimed, handle_one,
}

module _ {R : Type 0} (engine : Engine R) (cfg : WorkerConfig) where
  -- A delivery whose claim fails is acked and dropped: the engine does not run.
  lost_claim-dropped :
      (now : ℕ) (item : RunnableItem) (w : World R)
      → (try_mark_running item.cont_id cfg.worker_id item.enqueue_epoch
          (now + cfg.lease)
          w.ledger).1
        ≡ false
      → handle_one engine cfg now item w ≡ (acked_world engine cfg item w, dropped)
  unfolding handle_one
  lost_claim-dropped now item w h = rw h refl

  won_claim_runs :
      (now : ℕ) (item : RunnableItem) (w : World R)
      → (try_mark_running item.cont_id cfg.worker_id item.enqueue_epoch
          (now + cfg.lease)
          w.ledger).1
        ≡ true
      → handle_one engine cfg now item w
        ≡ handle_claimed engine cfg now item (record w {
          ledger =
              (try_mark_running item.cont_id cfg.worker_id item.enqueue_epoch
                (now + cfg.lease)
                w.ledger).0;
        })
  unfolding handle_one
  won_claim_runs now item w h = rw h refl

  handle_claimed-returned :
      (now : ℕ) (item : RunnableItem) (w : World R) (store : ContinuationStore) (rest : R)
      (outcome : RunOutcome)
      → run_item engine cfg item w.store w.rest ≡ (store, rest, returned outcome)
      → (handle_claimed engine cfg now item w).0
        ≡ (after_run engine cfg now item outcome (record w { store = store; rest = rest })).0
  unfolding handle_claimed after_ran
  handle_claimed-returned now item w store rest outcome h =
      ap (λ (r : ContinuationStore × R × Ran). (after_ran engine cfg now item w r).0) h

  handle_claimed-raised :
      (now : ℕ) (item : RunnableItem) (w : World R) (store : ContinuationStore) (rest : R)
      (error : String)
      → run_item engine cfg item w.store w.rest ≡ (store, rest, raised error)
      → handle_claimed engine cfg now item w ≡ (
        after_crash engine cfg now item error (record w { store = store; rest = rest }),
        handled RunStatus.failed,
      )
  unfolding handle_claimed after_ran
  handle_claimed-raised now item w store rest error h =
      ap (λ (r : ContinuationStore × R × Ran). after_ran engine cfg now item w r) h

  after_run_settled :
      (now : ℕ) (item : RunnableItem) (outcome : RunOutcome) (w : World R)
      → outcome.status ≢ RunStatus.continue
      → (after_run engine cfg now item outcome w).0
        ≡ settle_run engine cfg item (ledger_status outcome.status) outcome.error w
  unfolding after_run
  after_run_settled now item outcome w ne = ground arith

  -- What a delivery that is run and settled does to the ledger.
  settled_ledger :
      (now : ℕ) (item : RunnableItem) (w : World R) (store : ContinuationStore) (rest : R)
      (outcome : RunOutcome)
      → (try_mark_running item.cont_id cfg.worker_id item.enqueue_epoch
          (now + cfg.lease)
          w.ledger).1
        ≡ true
      → run_item engine cfg item w.store w.rest ≡ (store, rest, returned outcome)
      → outcome.status ≢ RunStatus.continue
      → (handle_one engine cfg now item w).0.ledger
        ≡ finalize item.cont_id
            (ledger_status outcome.status)
            outcome.error
            (try_mark_running item.cont_id cfg.worker_id item.enqueue_epoch
              (now + cfg.lease)
              w.ledger).0
  unfolding settle_run
  settled_ledger now item w store rest outcome won ran ne =
      ap (λ (r : World R × Handled). r.0.ledger) (won_claim_runs now item w won)
      ∙ ap (λ (v : World R). v.ledger) (handle_claimed-returned now item _ store rest outcome ran)
      ∙ ap (λ (v : World R). v.ledger) (after_run_settled now item outcome _ ne)

  ledger_status_final : (s : RunStatus) → is_claimable (ledger_status s) ≡ false
  unfolding is_claimable ledger_status
  ledger_status_final RunStatus.done = refl
  ledger_status_final RunStatus.suspended = refl
  ledger_status_final RunStatus.failed = refl
  ledger_status_final RunStatus.max_turns = refl
  ledger_status_final RunStatus.continue = refl

  -- Once a delivery of a continuation has been run to an outcome other than CONTINUE, every further
  -- delivery of it, whatever its epoch, is dropped without a run: the store and the ledger stay as
  -- they are and the item is acked. This holds after any further calls on the ledger by which the
  -- continuation is not queued again, reported crashed, or settled with a status that can be claimed.
  pub settled_delivery_dropped :
      (now : ℕ) (item : RunnableItem) (w : World R) (store : ContinuationStore) (rest : R)
      (outcome : RunOutcome) (os : List Op) (later : ℕ) (again : RunnableItem) (v : World R)
      → (try_mark_running item.cont_id cfg.worker_id item.enqueue_epoch
          (now + cfg.lease)
          w.ledger).1
        ≡ true
      → run_item engine cfg item w.store w.rest ≡ (store, rest, returned outcome)
      → outcome.status ≢ RunStatus.continue
      → All (Leaves item.cont_id) os
      → v.ledger ≡ exec_all os (handle_one engine cfg now item w).0.ledger
      → again.cont_id ≡ item.cont_id
      → handle_one engine cfg later again v ≡ (acked_world engine cfg again v, dropped)
  unfolding exec exec_all
  settled_delivery_dropped now item w store rest outcome os later again v won ran ne ls ledger
        same =
      let status = ledger_status outcome.status in
      let refused =
        claimed_once item.cont_id cfg.worker_id item.enqueue_epoch (now + cfg.lease) w.ledger
          (finalize_op item.cont_id status outcome.error ∷ os) cfg.worker_id again.enqueue_epoch
          (later + cfg.lease) won (inr (ledger_status_final outcome.status), ls) in
      let reached =
        ledger ∙ ap (exec_all os) (settled_ledger now item w store rest outcome won ran ne) in
      lost_claim-dropped later again v
        (rw (same, reached) (ap (λ (r : Ledger × Bool). r.1) refused))

  -- Once a continuation is queued again, every delivery of it but one of the new epoch is dropped
  -- without a run, after any further calls on the ledger that do not queue it once more.
  pub superseded_delivery_dropped :
      (now : ℕ) (id : String) (priority : Option String) (not_before : Option ℕ)
      (resolution : Option Resolution) (w : World R) (cont : Continuation) (os : List Op)
      (later : ℕ) (old : RunnableItem) (v : World R)
      → load id w.store ≡ some cont
      → All (KeepsEpoch id) os
      → v.ledger ≡ exec_all os (enqueue_runnable now id priority not_before resolution w).ledger
      → old.cont_id ≡ id
      → old.enqueue_epoch ≢ cont.enqueue_epoch + 1
      → handle_one engine cfg later old v ≡ (acked_world engine cfg old v, dropped)
  unfolding requeue
  superseded_delivery_dropped now id priority not_before resolution w cont os later old v found ls
        ledger same ne =
      let queued : (enqueue_runnable now id priority not_before resolution w).ledger
          ≡ upsert_queued id cont.tenant_id (chosen_priority priority resolution cont)
              (cont.enqueue_epoch + 1) w.ledger =
        unfold enqueue_runnable in (rw (found, enqueue_runnable) refl) in
      let refused =
        stale_epoch_refused id cont.tenant_id (chosen_priority priority resolution cont)
          (cont.enqueue_epoch + 1) w.ledger os cfg.worker_id old.enqueue_epoch (later + cfg.lease)
          ls ne in
      lost_claim-dropped later old v
        (rw (same, ledger ∙ ap (exec_all os) queued) (ap (λ (r : Ledger × Bool). r.1) refused))

  -- When the run of an item in flight raises, the item is in flight no more. As long as the crashes
  -- that its row counts, with this one, are below the maximum, one more item of the continuation waits
  -- in the queue and the row is retryable, so that it is delivered again; when they reach it, nothing
  -- more waits and the row is dead.
  pub crash_redelivers :
      (now : ℕ) (item : RunnableItem) (w : World R) (store : ContinuationStore) (rest : R)
      (error : String) (row : LedgerRow)
      → get item.cont_id w.ledger ≡ some row
      → (try_mark_running item.cont_id cfg.worker_id item.enqueue_epoch
          (now + cfg.lease)
          w.ledger).1
        ≡ true
      → run_item engine cfg item w.store w.rest ≡ (store, rest, raised error)
      → IsFlying item w.queue
      → CrashSettled cfg.max_crashes item row w.queue (handle_one engine cfg now item w).0
  unfolding mark_running
  crash_redelivers now item w store rest error row found won ran flying =
      let marked = mark_running cfg.worker_id (now + cfg.lease) row in
      subst (CrashSettled cfg.max_crashes item row w.queue)
        (sym (
          ap (λ (r : World R × Handled). r.0)
            (won_claim_runs now item w won
              ∙ handle_claimed-raised now item _ store rest error ran)))
        (after_crash_lem engine cfg now item error marked
          (record w {
            store = store;
            rest = rest;
            ledger =
                (try_mark_running item.cont_id cfg.worker_id item.enqueue_epoch (now + cfg.lease)
                  w.ledger).0;
          })
          (claimed_row item.cont_id cfg.worker_id item.enqueue_epoch (now + cfg.lease) w.ledger row
            found won)
          flying)
