-- ===== src/Runtime/Ledger/Claims.antt =====
-- A continuation is claimed at most once for each time that it is queued.
use helios_os.Prelude.{
  ℕ, String, eq_iff, true, false, ◌≡◌, ◌≢◌, ◌⊎◌, refl, Option, some, List, [], ◌∷◌, get, put,
  get-put, dict_laws, All, arith, Option-cases, Bool-cases, inl, inr, ◌==◌,
}
use helios_os.Runtime.Ledger.{
  RowStatus, LedgerRow, Ledger, fresh_row, upsert_queued, is_claimable, mark_running,
  try_mark_running, settle, finalize, crashed_row, mark_retryable,
}

-- The calls that change a ledger.
pub data Op : Type 0 where
  upsert_op : String → String → String → ℕ → Op
  claim_op : String → String → ℕ → ℕ → Op
  finalize_op : String → RowStatus → Option String → Op
  crash_op : String → String → ℕ → Op

unfoldable pub exec : Op → Ledger → Ledger
exec (upsert_op c tenant priority epoch) rows = upsert_queued c tenant priority epoch rows
exec (claim_op c worker epoch lease) rows = (try_mark_running c worker epoch lease rows).0
exec (finalize_op c status error) rows = finalize c status error rows
exec (crash_op c error max) rows = (mark_retryable c error max rows).0

unfoldable pub exec_all : List Op → Ledger → Ledger
exec_all [] rows = rows
exec_all (o ∷ os) rows = exec_all os (exec o rows)

-- The call does not make the continuation claimable: it is not queued again and no crash of it is
-- reported, and it is settled only with a final status.
abbrev pub Leaves : String → Op → Type 0
Leaves id (upsert_op c tenant priority epoch) = c ≢ id
Leaves id (claim_op c worker epoch lease) = Unit
Leaves id (finalize_op c status error) = (c ≢ id) ⊎ (is_claimable status ≡ false)
Leaves id (crash_op c error max) = c ≢ id

-- There is no row, or one that cannot be claimed.
pub record IsTaken (id : String) (rows : Ledger) : Type 0 where
  pub taken : (row : LedgerRow) → get id rows ≡ some row → is_claimable row.status ≡ false

put_other-IsTaken :
    (id c : String) (row : LedgerRow) (rows : Ledger)
    → (c ≢ id) ⊎ (is_claimable row.status ≡ false)
    → IsTaken id rows
    → IsTaken id (put c row rows)
put_other-IsTaken id c row rows h t = record {
  taken = λ r e. grind (arith, dict_laws, eq_iff c id, t.taken r);
}

-- What a claim leaves.
pub claim_cases :
    (c worker : String) (epoch lease : ℕ) (rows : Ledger)
    → ((try_mark_running c worker epoch lease rows ≡ (rows, false))
        ⊎ ((row : LedgerRow) × (get c rows ≡ some row)
            × (row.enqueue_epoch ≡ epoch)
            × (is_claimable row.status ≡ true)
            × (try_mark_running c worker epoch lease rows
                ≡ (put c (mark_running worker lease row) rows, true))))
unfolding try_mark_running
claim_cases c worker epoch lease rows = elim (Option-cases (get c rows)) [
  | inl e ↦ inl (rw (e, try_mark_running))
  | inr (row, e) ↦ elim (Bool-cases (row.enqueue_epoch == epoch)) [
    | inr f ↦ inl (rw (e, try_mark_running) (rw f))
    | inl f ↦ elim (Bool-cases (is_claimable row.status)) [
      | inr g ↦ inl (rw (e, try_mark_running) (rw (f, g)))
      | inl g ↦ inr (row, e, ground arith, g, rw (e, try_mark_running) (rw (f, g)))
    ]
  ]
]

claim-IsTaken :
    (id c worker : String) (epoch lease : ℕ) (rows : Ledger)
    → IsTaken id rows
    → IsTaken id (try_mark_running c worker epoch lease rows).0
unfolding mark_running is_claimable
claim-IsTaken id c worker epoch lease rows t = elim (claim_cases c worker epoch lease rows) [
  | inl e ↦ rw e t
  | inr (row, _, _, _, e) ↦
      rw e (put_other-IsTaken id c (mark_running worker lease row) rows (inr refl) t)
]

finalize-IsTaken :
    (id c : String) (status : RowStatus) (error : Option String) (rows : Ledger)
    → (c ≢ id) ⊎ (is_claimable status ≡ false)
    → IsTaken id rows
    → IsTaken id (finalize c status error rows)
unfolding finalize settle
finalize-IsTaken id c status error rows l t = elim (Option-cases (get c rows)) [
  | inl e ↦ rw (e, finalize) t
  | inr (row, e) ↦ rw (e, finalize) (put_other-IsTaken id c (settle status error row) rows l t)
]

crash-IsTaken :
    (id c error : String) (max : ℕ) (rows : Ledger)
    → c ≢ id
    → IsTaken id rows
    → IsTaken id (mark_retryable c error max rows).0
unfolding mark_retryable
crash-IsTaken id c error max rows l t = elim (Option-cases (get c rows)) [
  | inl e ↦ rw (e, mark_retryable) t
  | inr (row, e) ↦
      rw (e, mark_retryable) (put_other-IsTaken id c (crashed_row error max row) rows (inl l) t)
]

exec-IsTaken :
    (id : String) (o : Op) (rows : Ledger)
    → Leaves id o
    → IsTaken id rows
    → IsTaken id (exec o rows)
unfolding exec upsert_queued
exec-IsTaken id (upsert_op c tenant priority epoch) rows l t =
    put_other-IsTaken id c (fresh_row c tenant priority epoch) rows (inl l) t
exec-IsTaken id (claim_op c worker epoch lease) rows l t =
    claim-IsTaken id c worker epoch lease rows t
exec-IsTaken id (finalize_op c status error) rows l t = finalize-IsTaken id c status error rows l t
exec-IsTaken id (crash_op c error max) rows l t = crash-IsTaken id c error max rows l t

exec_all-IsTaken :
    (id : String) (os : List Op) (rows : Ledger)
    → All (Leaves id) os
    → IsTaken id rows
    → IsTaken id (exec_all os rows)
unfolding exec_all
exec_all-IsTaken id [] rows l t = t
exec_all-IsTaken id (o ∷ os) rows (l, ls) t =
    exec_all-IsTaken id os (exec o rows) ls (exec-IsTaken id o rows l t)

taken-refuses :
    (id worker : String) (epoch lease : ℕ) (rows : Ledger)
    → IsTaken id rows
    → try_mark_running id worker epoch lease rows ≡ (rows, false)
taken-refuses id worker epoch lease rows t = elim (claim_cases id worker epoch lease rows) [
  | inl e ↦ e
  | inr (row, e, _, g, _) ↦ absurd (ground (arith, t.taken row e))
]

won-IsTaken :
    (id worker : String) (epoch lease : ℕ) (rows : Ledger)
    → (try_mark_running id worker epoch lease rows).1 ≡ true
    → IsTaken id (try_mark_running id worker epoch lease rows).0
unfolding mark_running is_claimable
won-IsTaken id worker epoch lease rows h = elim (claim_cases id worker epoch lease rows) [
  | inl e ↦ absurd (ground (arith, e))
  | inr (row, _, _, _, e) ↦ rw e (record {
    taken = λ r f. ground (arith, get-put id id (mark_running worker lease row) rows, eq_iff id id);
  })
]

-- Once a claim of a continuation has succeeded, every further claim of it fails and changes
-- nothing, whoever makes it and at whatever epoch, after any further calls on the ledger by which
-- it is not queued again, reported crashed, or settled with a status that can be claimed.
pub claimed_once :
    (id worker : String) (epoch lease : ℕ) (rows : Ledger) (os : List Op) (other : String)
    (epoch' lease' : ℕ)
    → (try_mark_running id worker epoch lease rows).1 ≡ true
    → All (Leaves id) os
    → let later = exec_all os (try_mark_running id worker epoch lease rows).0 in
      try_mark_running id other epoch' lease' later ≡ (later, false)
claimed_once id worker epoch lease rows os other epoch' lease' h ls =
    taken-refuses id other epoch' lease' _
      (exec_all-IsTaken id os _ ls (won-IsTaken id worker epoch lease rows h))
