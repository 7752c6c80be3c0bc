-- ===== src/Runtime/Worker/Crashes.antt =====
-- What a crash of a run does to the queue and to its row (src/runtime/worker.py).
use helios_os.Prelude.{
  ℕ, ◌+◌, ◌^◌, String, eq_iff, Bool, true, ◌≡◌, refl, ap, some, get, get-put_self, put, ltb, leb,
  not, arith, Bool-cases, inl, inr, if◌then◌else◌,
}
use helios_os.Runtime.Ledger.{
  Ledger, LedgerRow, retryable, dead, crashed_row, mark_running, try_mark_running, mark_retryable,
}
use helios_os.Runtime.Queue.{RunnableItem, Queue, ack, nack}
use helios_os.Runtime.Queue.Items.{in_flight, IsFlying}
use helios_os.Runtime.Queue.Flights.{waiting, ack_settles, nack_settles}
use helios_os.Runtime.Worker.{World, Engine, WorkerConfig, after_crash}

mark_found :
    (id error : String) (max_crashes : ℕ) (row : LedgerRow) (rows : Ledger)
    → get id rows ≡ some row
    → mark_retryable id error max_crashes rows ≡ (
      put id (crashed_row error max_crashes row) rows,
      not (leb max_crashes (row.crash_count + 1)),
    )
unfolding mark_retryable
mark_found id error max_crashes row rows found = rw (found, mark_retryable) refl

ltb_flip : (a b : ℕ) → ltb a b ≡ not (leb b a)
ltb_flip a b = ground arith

-- What is left after a crash of an item, for the row and the queue before it.
abbrev pub CrashSettled : {R : Type 0} → ℕ → RunnableItem → LedgerRow → Queue → World R → Type 0
CrashSettled max_crashes item row q after =
    let again = ltb (row.crash_count + 1) max_crashes in
    (waiting item.cont_id after.queue ≡ waiting item.cont_id q + (if again then 1 else 0))
    × (in_flight item.cont_id after.queue.inflight + 1 ≡ in_flight item.cont_id q.inflight)
    × (left : LedgerRow) × (get item.cont_id after.ledger ≡ some left)
    × (left.crash_count ≡ row.crash_count + 1)
    × (left.status ≡ (if again then retryable else dead))

-- A claim that is won leaves the row with the number of its crashes.
pub claimed_row :
    (id worker : String) (epoch lease : ℕ) (rows : Ledger) (row : LedgerRow)
    → get id rows ≡ some row
    → (try_mark_running id worker epoch lease rows).1 ≡ true
    → get id (try_mark_running id worker epoch lease rows).0 ≡ some (mark_running worker lease row)
unfolding try_mark_running
claimed_row id worker epoch lease rows row found won =
    ground (arith, get-put_self id (mark_running worker lease row) rows)

module _ {R : Type 0} (engine : Engine R) (cfg : WorkerConfig) where
  after_crash_marked :
      (now : ℕ) (item : RunnableItem) (error : String) (w : World R) (ledger : Ledger)
      (alive : Bool)
      → mark_retryable item.cont_id error cfg.max_crashes w.ledger ≡ (ledger, alive)
      → after_crash engine cfg now item error w ≡ record w {
        ledger = ledger;
        queue = if alive then nack now item (2 ^ item.attempt) w.queue else ack item w.queue;
      }
  unfolding after_crash
  after_crash_marked now item error w ledger alive e =
      ap
        (λ (r : Ledger × Bool). record w {
          ledger = r.0;
          queue = if r.1 then nack now item (2 ^ item.attempt) w.queue else ack item w.queue;
        })
        e

  -- What a crash does to the queue and to the row, which says whether its budget is spent.
  pub after_crash_lem :
      (now : ℕ) (item : RunnableItem) (error : String) (row : LedgerRow) (w : World R)
      → get item.cont_id w.ledger ≡ some row
      → IsFlying item w.queue
      → CrashSettled cfg.max_crashes item row w.queue (after_crash engine cfg now item error w)
  after_crash_lem now item error row w found flying =
      let same = eq_iff item.cont_id item.cont_id in
      let last = crashed_row error cfg.max_crashes row in
      let kept = get-put_self item.cont_id last w.ledger in
      elim (Bool-cases (leb cfg.max_crashes (row.crash_count + 1))) [
        | inl spent ↦
            let now_dead : last.status ≡ dead =
              unfold crashed_row in (rw (spent, crashed_row) refl) in
            let (waits, flies) = ack_settles item.cont_id item w.queue flying in
            let marked =
              after_crash_marked now item error w _ _
                (mark_found item.cont_id error cfg.max_crashes row w.ledger found) in
            rw (marked, ltb_flip (row.crash_count + 1) cfg.max_crashes, spent)
              (
                ground (arith, waits, same),
                ground (arith, flies, same),
                last,
                kept,
                unfold crashed_row in refl,
                now_dead,
              )
        | inr left ↦
            let to_retry : last.status ≡ retryable =
              unfold crashed_row in (rw (left, crashed_row) refl) in
            let (waits, flies) =
              nack_settles item.cont_id now item (2 ^ item.attempt) w.queue flying in
            let marked =
              after_crash_marked now item error w _ _
                (mark_found item.cont_id error cfg.max_crashes row w.ledger found) in
            rw (marked, ltb_flip (row.crash_count + 1) cfg.max_crashes, left)
              (
                ground (arith, waits, same),
                ground (arith, flies, same),
                last,
                kept,
                unfold crashed_row in refl,
                to_retry,
              )
      ]
