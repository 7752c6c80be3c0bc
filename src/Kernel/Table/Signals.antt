-- ===== src/Kernel/Table/Signals.antt =====
-- Signals are delivered once, and usage only grows.
use helios_os.Prelude.{
  ℕ, ◌+◌, String, eq_iff, true, ◌≡◌, ◌≢◌, refl, ap, ◌∙◌, some, inl, inr, List, [], ◌∷◌, ◌++◌, get,
  get-put_self, get-put_ne, arith, contains, Option-cases,
}
use helios_os.Kernel.Process.{AgentProcess, accumulate, total_tokens}
use helios_os.Kernel.Table.{
  ProcessTable, modify, record_usage, remove_first, add_signal, drop_signal, record_signal,
  clear_signal, clear_signals, signal, check_signals,
}

module _ (pid : String) (f : AgentProcess → AgentProcess) (t : ProcessTable) where
  get-modify_self :
      (p : AgentProcess)
      → get pid t.processes ≡ some p
      → get pid (modify pid f t).processes ≡ some (f p)
  unfolding modify
  get-modify_self p h = rw (h, modify) (get-put_self pid (f p) t.processes)

  get-modify_ne : (j : String) → pid ≢ j → get j (modify pid f t).processes ≡ get j t.processes
  unfolding modify
  get-modify_ne j ne = elim (Option-cases (get pid t.processes)) [
    | inl e ↦ rw (e, modify)
    | inr (p, e) ↦ rw (e, modify) (get-put_ne pid j (f p) t.processes ne)
  ]

remove_first_head : (s : String) (ss : List String) → remove_first s (s ∷ ss) ≡ ss
unfolding remove_first
remove_first_head s ss = ground (arith, eq_iff s s)

clear_signals_self :
    (pid : String) (ss : List String) (p : AgentProcess) (t : ProcessTable)
    → get pid t.processes ≡ some p
    → p.pending_signals ≡ ss
    → get pid (clear_signals pid ss t).processes ≡ some (record p { pending_signals = [] })
unfolding clear_signals drop_signal
clear_signals_self pid [] p t h e = ground arith
clear_signals_self pid (s ∷ ss) p t h e =
    clear_signals_self pid ss (drop_signal s p) (clear_signal pid s t)
      (unfold clear_signal in get-modify_self pid (drop_signal s) t p h)
      (ap (remove_first s) e ∙ remove_first_head s ss)

clear_signals_ne :
    (pid j : String) (ss : List String) (t : ProcessTable)
    → pid ≢ j
    → get j (clear_signals pid ss t).processes ≡ get j t.processes
unfolding clear_signals
clear_signals_ne pid j [] t ne = refl
clear_signals_ne pid j (s ∷ ss) t ne =
    clear_signals_ne pid j ss (clear_signal pid s t) ne
    ∙ (unfold clear_signal in get-modify_ne pid (drop_signal s) t j ne)

-- `check_signals` delivers every pending signal of the process, in order and repetitions included,
-- leaves none of them pending and the rest of the record as it was, and a second call delivers none.
check_signals_once :
    (pid : String) (p : AgentProcess) (t : ProcessTable)
    → get pid t.processes ≡ some p
    → ((check_signals pid t).1 ≡ p.pending_signals)
      × (get pid (check_signals pid t).0.processes ≡ some (record p { pending_signals = [] }))
      × ((check_signals pid (check_signals pid t).0).1 ≡ [])
unfolding check_signals
check_signals_once pid p t h =
    let cleared = clear_signals_self pid p.pending_signals p t h refl in
    (rw (h, check_signals), rw (h, check_signals) cleared, rw (h, check_signals) (rw cleared))

-- `check_signals` on one pid leaves the record of every other pid as it was.
pub check_signals_ne :
    (pid j : String) (t : ProcessTable)
    → pid ≢ j
    → get j (check_signals pid t).0.processes ≡ get j t.processes
unfolding check_signals
check_signals_ne pid j t ne = elim (Option-cases (get pid t.processes)) [
  | inl e ↦ rw (e, check_signals)
  | inr (p, e) ↦ rw (e, check_signals) (clear_signals_ne pid j p.pending_signals t ne)
]

contains-append : (s : String) (ss : List String) → contains s (ss ++ s ∷ []) ≡ true
unfolding contains
contains-append s [] = ground (arith, eq_iff s s)
contains-append s (x ∷ ss) = ground (arith, contains-append s ss)

contains-add_signal :
    (s : String) (p : AgentProcess) → contains s (add_signal s p).pending_signals ≡ true
unfolding add_signal
contains-add_signal s p = ground (arith, contains-append s p.pending_signals)

-- A signal sent to a process of the table is accepted, and is among those that the next
-- `check_signals` delivers, also when it was pending before.
pub signal_delivered :
    (pid s : String) (p : AgentProcess) (t : ProcessTable)
    → get pid t.processes ≡ some p
    → ((signal pid s t).1 ≡ true) × (contains s (check_signals pid (signal pid s t).0).1 ≡ true)
unfolding signal
signal_delivered pid s p t h = (
  rw (h, signal),
  rw (h, signal)
      (rw
        (check_signals_once pid (add_signal s p) (record_signal pid s t)
          (unfold record_signal in get-modify_self pid (add_signal s) t p h)).0
        (contains-add_signal s p)),
)

-- One `record_usage` call: tokens in, tokens out, dollars, tool calls, wallclock.
pub record Charge : Type 0 where
  pub tokens_in : ℕ
  pub tokens_out : ℕ
  pub dollars : ℕ
  pub tool_calls : ℕ
  pub wallclock_ms : ℕ

unfoldable pub charge : String → Charge → ProcessTable → ProcessTable
charge pid c t = record_usage pid c.tokens_in c.tokens_out c.dollars c.tool_calls c.wallclock_ms t

unfoldable pub charge_all : String → List Charge → ProcessTable → ProcessTable
charge_all pid [] t = t
charge_all pid (c ∷ cs) t = charge_all pid cs (charge pid c t)

abbrev pub sum_by : (Charge → ℕ) → List Charge → ℕ
sum_by f [] = 0
sum_by f (c ∷ cs) = f c + sum_by f cs

-- After any sequence of `record_usage` calls on a process of the table, its dollars, tool calls
-- and total tokens have grown by exactly the sums of the calls, and its phase and signals are as
-- they were.
charge_all_sums :
    (pid : String) (cs : List Charge) (p : AgentProcess) (t : ProcessTable)
    → get pid t.processes ≡ some p
    → (q : AgentProcess) × (get pid (charge_all pid cs t).processes ≡ some q)
      × (q.resource_usage.dollars ≡ p.resource_usage.dollars + sum_by (λ c. c.dollars) cs)
      × (q.resource_usage.tool_calls ≡ p.resource_usage.tool_calls + sum_by (λ c. c.tool_calls) cs)
      × (total_tokens q.resource_usage
          ≡ total_tokens p.resource_usage
            + sum_by (λ c. c.tokens_in) cs
            + sum_by (λ c. c.tokens_out) cs)
      × (q.phase ≡ p.phase)
      × (q.pending_signals ≡ p.pending_signals)
unfolding charge_all charge record_usage accumulate total_tokens
charge_all_sums pid [] p t h = (p, h, omega arith, omega arith, omega arith, refl, refl)
charge_all_sums pid (c ∷ cs) p t h =
    let u =
      accumulate p.resource_usage c.tokens_in c.tokens_out c.dollars c.tool_calls c.wallclock_ms in
    let (q, found, usd, calls, tokens, phase, signals) =
      charge_all_sums pid cs (record p { resource_usage = u }) (charge pid c t)
        (get-modify_self pid _ t p h) in
    (q, found, omega arith, omega arith, omega arith, phase, signals)
