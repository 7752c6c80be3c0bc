-- ===== src/Runtime/Ledger/Crashes.antt =====
-- The crash budget: a continuation is retried until its crashes reach the maximum.
use helios_os.Prelude.{
  ℕ, ◌+◌, zero, suc, String, ◌≡◌, refl, ◌∙◌, ap, some, get, get-put_self, dict_laws, arith, ltb,
  if◌then◌else◌,
}
use helios_os.Runtime.Ledger.{
  dead, retryable, LedgerRow, Ledger, fresh_row, upsert_queued, crashed_row, mark_retryable,
}

-- `n` crashes of a continuation are reported.
unfoldable pub crash_times : String → String → ℕ → ℕ → Ledger → Ledger
crash_times id error max zero rows = rows
crash_times id error max (suc n) rows =
    crash_times id error max n (mark_retryable id error max rows).0

crashed_once :
    (id error : String) (max : ℕ) (row : LedgerRow) (rows : Ledger)
    → get id rows ≡ some row
    → (get id (mark_retryable id error max rows).0 ≡ some (crashed_row error max row))
      × ((mark_retryable id error max rows).1 ≡ ltb (row.crash_count + 1) max)
unfolding mark_retryable
crashed_once id error max row rows e = grind (arith, dict_laws)

crashed_times :
    (id error : String) (max n : ℕ) (row : LedgerRow) (rows : Ledger)
    → get id rows ≡ some row
    → (q : LedgerRow) × (get id (crash_times id error max n rows) ≡ some q)
      × (q.crash_count ≡ row.crash_count + n)
unfolding crash_times crashed_row
crashed_times id error max zero row rows e = (row, e, omega arith)
crashed_times id error max (suc n) row rows e =
    let (q, f, g) =
      crashed_times id error max n (crashed_row error max row) (mark_retryable id error max rows).0
        (crashed_once id error max row rows e).0 in
    (q, f, omega (arith, g))

crash_count_fresh :
    (id tenant priority : String) (epoch : ℕ) → (fresh_row id tenant priority epoch).crash_count ≡ 0
unfolding fresh_row
crash_count_fresh id tenant priority epoch = refl

-- After a continuation is queued and `n` crashes of it are reported, the next report answers that it
-- is still alive exactly when `n + 1` is below the maximum, and leaves its row retryable then and
-- dead otherwise, with `n + 1` crashes counted.
pub crash_budget :
    (id tenant priority error : String) (epoch max n : ℕ) (rows : Ledger)
    → let before = crash_times id error max n (upsert_queued id tenant priority epoch rows) in
      let (after, alive) = mark_retryable id error max before in
      (alive ≡ ltb (n + 1) max)
      × (q : LedgerRow) × (get id after ≡ some q)
      × (q.status ≡ (if ltb (n + 1) max then retryable else dead))
      × (q.crash_count ≡ n + 1)
unfolding crashed_row
crash_budget id tenant priority error epoch max n rows =
    let (q, f, g) =
      crashed_times id error max n (fresh_row id tenant priority epoch)
        (upsert_queued id tenant priority epoch rows)
        (unfold upsert_queued in get-put_self id (fresh_row id tenant priority epoch) rows) in
    let counted : q.crash_count ≡ n =
      omega (arith, g, crash_count_fresh id tenant priority epoch) in
    let (h, k) =
      crashed_once id error max q
        (crash_times id error max n (upsert_queued id tenant priority epoch rows)) f in
    (
      k ∙ ap (λ m. ltb (m + 1) max) counted,
      crashed_row error max q,
      h,
      ground (arith, counted),
      ap (λ m. m + 1) counted,
    )
