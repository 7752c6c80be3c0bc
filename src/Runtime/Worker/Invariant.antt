-- ===== src/Runtime/Worker/Invariant.antt =====
-- What the engine keeps of the things that it works on, the workers keep.
use helios_os.Prelude.{
  ℕ, ◌+◌, String, Bool, true, false, ◌≡◌, refl, sym, Option, none, some, List, [], ◌∷◌, arith,
  Bool-cases, Option-cases, inl, inr,
}
use mathlib.Core.Path.{subst}
use helios_os.Runtime.Continuation.{ContinuationStore, Resolution, load}
use helios_os.Runtime.Outcome.{RunOutcome, Ran, returned, raised}
use helios_os.Runtime.Ledger.{LedgerRow, try_mark_running}
use helios_os.Runtime.Queue.{RunnableItem}
use helios_os.Runtime.Worker.{
  World, Engine, WorkerConfig, Handled, dropped, handled, text_of, after_item, enqueue_runnable,
  requeue, rebuild_rows, run_item, after_crash, settle_run, after_run, after_ran, handle_claimed,
  handle_one, handle_all, run_once,
}

module _ {R : Type 0} where
  pub enqueue_runnable-rest :
      (now : ℕ) (id : String) (priority : Option String) (not_before : Option ℕ)
      (res : Option Resolution) (w : World R)
      → (enqueue_runnable now id priority not_before res w).rest ≡ w.rest
  unfolding enqueue_runnable requeue
  enqueue_runnable-rest now id priority not_before res w = ground arith

  pub rebuild_rows-rest :
      (now : ℕ) (rows : List LedgerRow) (w : World R) → (rebuild_rows now rows w).0.rest ≡ w.rest
  unfolding rebuild_rows
  rebuild_rows-rest now [] w = refl
  rebuild_rows-rest now (row ∷ rows) w = elim (Option-cases (load row.cont_id w.store)) [
    | inl e ↦ rw (e, rebuild_rows) (rebuild_rows-rest now rows w)
    | inr (c, e) ↦ rw (e, rebuild_rows) (rebuild_rows-rest now rows _)
  ]

module _ {R : Type 0} (engine : Engine R) (cfg : WorkerConfig) (P : R → Type 0)
    (drives : (id : String) (s : ContinuationStore) (r : R) → P r → P (engine.drive id s r).1)
    (resumes : (res : Resolution) (s : ContinuationStore) (r : R)
      → P r
      → P (engine.resume res s r).1) where
  run_item-keeps :
      (item : RunnableItem) (s : ContinuationStore) (r : R)
      → P r
      → P (run_item engine cfg item s r).1
  unfolding run_item
  run_item-keeps item s r p = elim (Option-cases item.resolution) [
    | inl e ↦ rw e (drives item.cont_id s r p)
    | inr (res, e) ↦ rw e (resumes res s r p)
  ]

  after_crash-rest :
      (now : ℕ) (item : RunnableItem) (error : String) (w : World R)
      → (after_crash engine cfg now item error w).rest ≡ w.rest
  unfolding after_crash
  after_crash-rest now item error w = refl

  after_run-rest :
      (now : ℕ) (item : RunnableItem) (out : RunOutcome) (w : World R)
      → (after_run engine cfg now item out w).0.rest ≡ w.rest
  unfolding after_run settle_run
  after_run-rest now item out w = ground (
    arith,
    enqueue_runnable-rest now item.cont_id (some (text_of engine cfg item.priority)) none none w,
  )

  after_ran-keeps :
      (now : ℕ) (item : RunnableItem) (w : World R) (ran : ContinuationStore × R × Ran)
      → P ran.1
      → P (after_ran engine cfg now item w ran).0.rest
  unfolding after_ran
  after_ran-keeps now item w (s, r, raised e) p =
      subst P (sym (after_crash-rest now item e (record w { store = s; rest = r }))) p
  after_ran-keeps now item w (s, r, Ran.escaped) p = p
  after_ran-keeps now item w (s, r, returned out) p =
      subst P (sym (after_run-rest now item out (record w { store = s; rest = r }))) p

  handle_one-keeps :
      (now : ℕ) (item : RunnableItem) (w : World R)
      → P w.rest
      → P (handle_one engine cfg now item w).0.rest
  unfolding handle_one handle_claimed
  handle_one-keeps now item w p =
      elim (Bool-cases
        (try_mark_running item.cont_id cfg.worker_id item.enqueue_epoch (now + cfg.lease)
          w.ledger).1) [
            | inl e ↦ rw e (after_ran-keeps now item _ _ (run_item-keeps item w.store w.rest p))
            | inr e ↦ rw e p
          ]

  after_item-keeps :
      (s : Handled) (w : World R) (r : World R × List Handled)
      → P w.rest
      → P r.0.rest
      → P (after_item engine cfg s w r).0.rest
  unfolding after_item
  after_item-keeps dropped w r p q = q
  after_item-keeps Handled.escaped w r p q = p
  after_item-keeps (handled s) w r p q = q

  handle_all-keeps :
      (now : ℕ) (items : List RunnableItem) (w : World R)
      → P w.rest
      → P (handle_all engine cfg now items w).0.rest
  unfolding handle_all
  handle_all-keeps now [] w p = p
  handle_all-keeps now (item ∷ items) w p =
      let p' = handle_one-keeps now item w p in
      after_item-keeps _ _ _ p' (handle_all-keeps now items (handle_one engine cfg now item w).0 p')

  pub run_once-keeps :
      (now count : ℕ) (draining : Bool) (w : World R)
      → P w.rest
      → P (run_once engine cfg now count draining w).0.rest
  unfolding run_once
  run_once-keeps now count true w p = p
  run_once-keeps now count false w p = handle_all-keeps now _ _ p
