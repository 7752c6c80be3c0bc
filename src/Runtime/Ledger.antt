-- ===== src/Runtime/Ledger.antt =====
-- The ledger of runnable continuations: `LedgerRow` and `InMemoryLedger` (src/runtime/ledger.py).
-- Its lock makes each method one step. Leases are instants of the clock that the caller reads.
pub mod Claims
pub mod Epochs
pub mod Crashes
use helios_os.Prelude.{
  ℕ, ◌+◌, String, Bool, true, false, not, ◌&&◌, ◌||◌, Option, none, some, List, Dict, get, put,
  values, ◌==◌, leb, keep, if◌then◌else◌,
}

pub data RowStatus : Type 0 where
  queued running retryable done dead failed : RowStatus

pub record LedgerRow : Type 0 where
  pub cont_id : String
  pub tenant_id : String
  pub priority : String
  pub status : RowStatus
  pub enqueue_epoch : ℕ
  pub owner_worker : Option String
  pub lease_until : Option ℕ
  pub crash_count : ℕ
  pub not_before : Option ℕ
  pub last_error : Option String

abbrev pub Ledger : Type 0
Ledger = Dict LedgerRow

-- The row that `upsert_queued` builds, with the dataclass defaults.
unfoldable pub fresh_row : String → String → String → ℕ → LedgerRow
fresh_row cont_id tenant_id priority epoch = record {
  cont_id = cont_id;
  tenant_id = tenant_id;
  priority = priority;
  status = queued;
  enqueue_epoch = epoch;
  owner_worker = none;
  lease_until = none;
  crash_count = 0;
  not_before = none;
  last_error = none;
}

unfoldable pub upsert_queued : String → String → String → ℕ → Ledger → Ledger
upsert_queued cont_id tenant_id priority epoch rows =
    put cont_id (fresh_row cont_id tenant_id priority epoch) rows

-- `row.status in ("queued", "retryable")`
unfoldable pub is_claimable : RowStatus → Bool
is_claimable queued = true
is_claimable retryable = true
is_claimable _ = false

unfoldable pub mark_running : String → ℕ → LedgerRow → LedgerRow
mark_running worker lease_until row = record row {
  status = running;
  owner_worker = some worker;
  lease_until = some lease_until;
}

-- `try_mark_running`, with the end of the lease.
unfoldable pub try_mark_running : String → String → ℕ → ℕ → Ledger → Ledger × Bool
try_mark_running cont_id worker epoch lease_until rows = elim (get cont_id rows) [
  | none ↦ (rows, false)
  | some row ↦
      if not (row.enqueue_epoch == epoch)
      then (rows, false)
      else if not (is_claimable row.status)
      then (rows, false)
      else (put cont_id (mark_running worker lease_until row) rows, true)
]

unfoldable pub settle : RowStatus → Option String → LedgerRow → LedgerRow
settle status error row = record row {
  status = status;
  last_error = error;
  owner_worker = none;
  lease_until = none;
}

unfoldable pub finalize : String → RowStatus → Option String → Ledger → Ledger
finalize cont_id status error rows = elim (get cont_id rows) [
  | none ↦ rows
  | some row ↦ put cont_id (settle status error row) rows
]

-- The assignments of `mark_retryable`.
unfoldable pub crashed_row : String → ℕ → LedgerRow → LedgerRow
crashed_row error max_crashes row = record row {
  crash_count = row.crash_count + 1;
  last_error = some error;
  owner_worker = none;
  lease_until = none;
  status = if leb max_crashes (row.crash_count + 1) then dead else retryable;
}

-- `mark_retryable`: false is the end of the crash budget, or a row that is not there.
unfoldable pub mark_retryable : String → String → ℕ → Ledger → Ledger × Bool
mark_retryable cont_id error max_crashes rows = elim (get cont_id rows) [
  | none ↦ (rows, false)
  | some row ↦ (
    put cont_id (crashed_row error max_crashes row) rows,
    not (leb max_crashes (row.crash_count + 1)),
  )
]

unfoldable pub recover_rows : Ledger → List LedgerRow
recover_rows rows = keep (λ r. is_claimable r.status) (values rows)
