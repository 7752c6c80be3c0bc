-- ===== src/Runtime/Ledger/Epochs.antt =====
-- The fencing epoch: a delivery of an older queueing of a continuation is refused.
use helios_os.Prelude.{
  ℕ, String, eq_iff, true, false, ◌≡◌, ◌≢◌, refl, Option, some, List, [], ◌∷◌, get, put, get-put,
  dict_laws, All, arith, Option-cases, inl, inr, get-put_self,
}
use helios_os.Runtime.Ledger.{
  RowStatus, LedgerRow, Ledger, fresh_row, upsert_queued, is_claimable, mark_running,
  try_mark_running, settle, finalize, crashed_row, mark_retryable,
}
use helios_os.Runtime.Ledger.Claims.{
  Op, upsert_op, claim_op, finalize_op, crash_op, exec, exec_all, claim_cases,
}

-- The call does not queue the continuation again.
abbrev pub KeepsEpoch : String → Op → Type 0
KeepsEpoch id (upsert_op c tenant priority epoch) = c ≢ id
KeepsEpoch id _ = Unit

-- There is no row, or one of this epoch.
pub record IsAtEpoch (id : String) (epoch : ℕ) (rows : Ledger) : Type 0 where
  pub same : (row : LedgerRow) → get id rows ≡ some row → row.enqueue_epoch ≡ epoch

put_same-IsAtEpoch :
    (id c : String) (epoch : ℕ) (row new : LedgerRow) (rows : Ledger)
    → get c rows ≡ some row
    → new.enqueue_epoch ≡ row.enqueue_epoch
    → IsAtEpoch id epoch rows
    → IsAtEpoch id epoch (put c new rows)
put_same-IsAtEpoch id c epoch row new rows e f t = record {
  same = λ r h. grind (arith, dict_laws, eq_iff c id, t.same row, t.same r);
}

put_other-IsAtEpoch :
    (id c : String) (epoch : ℕ) (new : LedgerRow) (rows : Ledger)
    → c ≢ id
    → IsAtEpoch id epoch rows
    → IsAtEpoch id epoch (put c new rows)
put_other-IsAtEpoch id c epoch new rows ne t = record {
  same = λ r h. ground (arith, get-put c id new rows, eq_iff c id, t.same r);
}

claim-IsAtEpoch :
    (id c worker : String) (epoch n lease : ℕ) (rows : Ledger)
    → IsAtEpoch id epoch rows
    → IsAtEpoch id epoch (try_mark_running c worker n lease rows).0
unfolding mark_running
claim-IsAtEpoch id c worker epoch n lease rows t = elim (claim_cases c worker n lease rows) [
  | inl e ↦ rw e t
  | inr (row, f, _, _, e) ↦
      rw e (put_same-IsAtEpoch id c epoch row (mark_running worker lease row) rows f refl t)
]

finalize-IsAtEpoch :
    (id c : String) (status : RowStatus) (error : Option String) (epoch : ℕ) (rows : Ledger)
    → IsAtEpoch id epoch rows
    → IsAtEpoch id epoch (finalize c status error rows)
unfolding finalize settle
finalize-IsAtEpoch id c status error epoch rows t = elim (Option-cases (get c rows)) [
  | inl e ↦ rw (e, finalize) t
  | inr (row, e) ↦
      rw (e, finalize) (put_same-IsAtEpoch id c epoch row (settle status error row) rows e refl t)
]

crash-IsAtEpoch :
    (id c error : String) (max epoch : ℕ) (rows : Ledger)
    → IsAtEpoch id epoch rows
    → IsAtEpoch id epoch (mark_retryable c error max rows).0
unfolding mark_retryable crashed_row
crash-IsAtEpoch id c error max epoch rows t = elim (Option-cases (get c rows)) [
  | inl e ↦ rw (e, mark_retryable) t
  | inr (row, e) ↦
      rw (e, mark_retryable)
        (put_same-IsAtEpoch id c epoch row (crashed_row error max row) rows e refl t)
]

exec-IsAtEpoch :
    (id : String) (epoch : ℕ) (o : Op) (rows : Ledger)
    → KeepsEpoch id o
    → IsAtEpoch id epoch rows
    → IsAtEpoch id epoch (exec o rows)
unfolding exec upsert_queued
exec-IsAtEpoch id epoch (upsert_op c tenant priority n) rows l t =
    put_other-IsAtEpoch id c epoch (fresh_row c tenant priority n) rows l t
exec-IsAtEpoch id epoch (claim_op c worker n lease) rows l t =
    claim-IsAtEpoch id c worker epoch n lease rows t
exec-IsAtEpoch id epoch (finalize_op c status error) rows l t =
    finalize-IsAtEpoch id c status error epoch rows t
exec-IsAtEpoch id epoch (crash_op c error max) rows l t =
    crash-IsAtEpoch id c error max epoch rows t

exec_all-IsAtEpoch :
    (id : String) (epoch : ℕ) (os : List Op) (rows : Ledger)
    → All (KeepsEpoch id) os
    → IsAtEpoch id epoch rows
    → IsAtEpoch id epoch (exec_all os rows)
unfolding exec_all
exec_all-IsAtEpoch id epoch [] rows l t = t
exec_all-IsAtEpoch id epoch (o ∷ os) rows (l, ls) t =
    exec_all-IsAtEpoch id epoch os (exec o rows) ls (exec-IsAtEpoch id epoch o rows l t)

upsert-IsAtEpoch :
    (id tenant priority : String) (epoch : ℕ) (rows : Ledger)
    → IsAtEpoch id epoch (upsert_queued id tenant priority epoch rows)
unfolding upsert_queued fresh_row
upsert-IsAtEpoch id tenant priority epoch rows = record {
  same = λ r h. ground (arith, get-put_self id (fresh_row id tenant priority epoch) rows);
}

-- After a continuation is queued at an epoch, a claim of it at any other epoch fails and changes
-- nothing, after any further calls that do not queue it again.
pub stale_epoch_refused :
    (id tenant priority : String) (epoch : ℕ) (rows : Ledger) (os : List Op) (worker : String)
    (stale lease : ℕ)
    → All (KeepsEpoch id) os
    → stale ≢ epoch
    → let later = exec_all os (upsert_queued id tenant priority epoch rows) in
      try_mark_running id worker stale lease later ≡ (later, false)
stale_epoch_refused id tenant priority epoch rows os worker stale lease ls ne =
    let t = exec_all-IsAtEpoch id epoch os _ ls (upsert-IsAtEpoch id tenant priority epoch rows) in
    elim (claim_cases id worker stale lease
      (exec_all os (upsert_queued id tenant priority epoch rows))) [
        | inl e ↦ e
        | inr (row, e, same, _, _) ↦ absurd (ne (ground (arith, t.same row)))
      ]

-- A continuation that has just been queued is claimed by the first call at its epoch, which makes
-- the caller its owner until the end of the lease.
pub first_claim_wins :
    (id tenant priority : String) (epoch : ℕ) (rows : Ledger) (worker : String) (lease : ℕ)
    → let (later, won) =
        try_mark_running id worker epoch lease (upsert_queued id tenant priority epoch rows) in
      (won ≡ true)
      × (get id later ≡ some (mark_running worker lease (fresh_row id tenant priority epoch)))
unfolding upsert_queued try_mark_running fresh_row is_claimable
first_claim_wins id tenant priority epoch rows worker lease =
    let queued_row = fresh_row id tenant priority epoch in
    ground (
      arith,
      get-put_self id queued_row rows,
      get-put_self id (mark_running worker lease queued_row) (put id queued_row rows),
    )
