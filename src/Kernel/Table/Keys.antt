-- ===== src/Kernel/Table/Keys.antt =====
-- The table files each process under its own pid, whatever is done to it.
use helios_os.Prelude.{
  ℕ, String, str_eq, eq_iff, Bool, ◌≡◌, refl, ap, ◌∙◌, sym, Option, none, some, inl, inr, List, [],
  ◌∷◌, get, get-put, get-del, arith, Bool-cases, Option-cases, is_some, if◌then◌else◌,
}
use helios_os.Kernel.Phase.{Phase}
use helios_os.Kernel.Process
use helios_os.Kernel.Process.{AgentIdentity, AgentProcess, new_process}
use helios_os.Kernel.Table.{
  ProcessTable, register, unregister, transition, modify, record_usage, heartbeat, add_signal,
  drop_signal, record_signal, clear_signal, clear_signals, signal, check_signals, visit_child,
  drain_child,
}
use helios_os.Kernel.Table.Cascade.{get-transition, map_option, bystander, transition_missing}

pub record IsWellKeyed (t : ProcessTable) : Type 0 where
  pub at_key : (k : String) (p : AgentProcess) → get k t.processes ≡ some p → p.identity.pid ≡ k

-- The operations of the table, with the instants at which they run.
pub data Op : Type 0 where
  register_op : AgentIdentity → String → Phase → ℕ → Op
  unregister_op : String → Op
  transition_op : String → Phase → String → Bool → Bool → ℕ → Op
  usage_op : String → ℕ → ℕ → ℕ → ℕ → ℕ → Op
  heartbeat_op : String → ℕ → Op
  signal_op clear_op : String → String → Op
  check_op : String → Op

-- A `register` that raises leaves the table as it was.
unfoldable pub exec : Op → ProcessTable → ProcessTable
exec (register_op i spec phase now) t = elim (register i spec phase now t) [
  | none ↦ t
  | some r ↦ r.0
]
exec (unregister_op pid) t = (unregister pid t).0
exec (transition_op pid phase reason force cascade now) t =
    (transition pid phase reason force cascade now t).0
exec (usage_op pid a b c d e) t = record_usage pid a b c d e t
exec (heartbeat_op pid now) t = heartbeat pid now t
exec (signal_op pid s) t = (signal pid s t).0
exec (clear_op pid s) t = clear_signal pid s t
exec (check_op pid) t = (check_signals pid t).0

unfoldable pub exec_all : List Op → ProcessTable → ProcessTable
exec_all [] t = t
exec_all (o ∷ os) t = exec_all os (exec o t)

modify-IsWellKeyed :
    (pid : String) (f : AgentProcess → AgentProcess) (t : ProcessTable)
    → ((p : AgentProcess) → (f p).identity ≡ p.identity)
    → IsWellKeyed t
    → IsWellKeyed (modify pid f t)
unfolding modify
modify-IsWellKeyed pid f t same w = elim (Option-cases (get pid t.processes)) [
  | inl e ↦ rw (e, modify) w
  | inr (p, e) ↦
      rw (e, modify)
        (record {
          at_key = λ k q h. ground (
            arith,
            get-put pid k (f p) t.processes,
            eq_iff pid k,
            same p,
            w.at_key pid p e,
            w.at_key k q,
          );
        })
]

identity-transition :
    (p : AgentProcess) (phase : Phase) (reason : String) (force : Bool) (now : ℕ)
    → (Process.transition p phase reason force now).0.identity ≡ p.identity
unfolding Process.transition
identity-transition p phase reason force now = ground arith

identity-bystander :
    (pid : String) (phase : Phase) (reason : String) (cascade : Bool) (now : ℕ) (c : AgentProcess)
    → (bystander pid phase reason cascade now c).identity ≡ c.identity
unfolding bystander visit_child drain_child
identity-bystander pid phase reason cascade now c = ground arith

register-IsWellKeyed :
    (i : AgentIdentity) (spec : String) (phase : Phase) (now : ℕ) (t : ProcessTable)
    → IsWellKeyed t
    → IsWellKeyed (exec (register_op i spec phase now) t)
unfolding exec register
register-IsWellKeyed i spec phase now t w = elim (Bool-cases (is_some (get i.pid t.processes))) [
  | inl e ↦ rw (e, exec, register) w
  | inr e ↦
      rw (e, exec, register)
        (record {
          at_key = λ k q h. ground (
            arith,
            get-put i.pid k (new_process i spec phase now) t.processes,
            eq_iff i.pid k,
            w.at_key k q,
          );
        })
]

-- What the table holds at `k` after the process at `pid` moved, before any cascade.
holder-pid :
    (pid k : String) (moved : AgentProcess) (found : Option AgentProcess) (c : AgentProcess)
    → moved.identity.pid ≡ pid
    → ((q : AgentProcess) → found ≡ some q → q.identity.pid ≡ k)
    → (if str_eq pid k then some moved else found) ≡ some c
    → c.identity.pid ≡ k
holder-pid pid k moved none c hm hf h = ground (arith, eq_iff pid k)
holder-pid pid k moved (some q) c hm hf h = ground (arith, eq_iff pid k, hf q)

map_option-pid :
    (pid : String) (phase : Phase) (reason : String) (cascade : Bool) (now : ℕ) (k : String)
    (o : Option AgentProcess) (q : AgentProcess)
    → ((c : AgentProcess) → o ≡ some c → c.identity.pid ≡ k)
    → map_option (bystander pid phase reason cascade now) o ≡ some q
    → q.identity.pid ≡ k
map_option-pid pid phase reason cascade now k none q hc h = cc
map_option-pid pid phase reason cascade now k (some c) q hc h =
    ground (arith, hc c, identity-bystander pid phase reason cascade now c)

transition-IsWellKeyed :
    (pid : String) (phase : Phase) (reason : String) (force cascade : Bool) (now : ℕ)
    (t : ProcessTable)
    → IsWellKeyed t
    → IsWellKeyed (transition pid phase reason force cascade now t).0
transition-IsWellKeyed pid phase reason force cascade now t w =
    elim (Option-cases (get pid t.processes)) [
      | inl e ↦ rw (transition_missing pid phase reason force cascade now t e) w
      | inr (p, e) ↦ record {
        at_key = λ k q h.
            map_option-pid pid phase reason cascade now k _ q
              (λ c.
                holder-pid pid k _ _ c
                  (ap (λ i. i.pid) (identity-transition p phase reason force now)
                    ∙ w.at_key pid p e)
                  (w.at_key k))
              (sym (get-transition pid phase reason force cascade now t k p e) ∙ h);
      }
    ]

unregister-IsWellKeyed :
    (pid : String) (t : ProcessTable) → IsWellKeyed t → IsWellKeyed (unregister pid t).0
unfolding unregister
unregister-IsWellKeyed pid t w = record {
  at_key = λ k q h. ground (arith, get-del pid k t.processes, w.at_key k q);
}

identity-add_signal : (s : String) (p : AgentProcess) → (add_signal s p).identity ≡ p.identity
unfolding add_signal
identity-add_signal s p = ground arith

clear_signal-IsWellKeyed :
    (pid s : String) (t : ProcessTable) → IsWellKeyed t → IsWellKeyed (clear_signal pid s t)
unfolding clear_signal drop_signal
clear_signal-IsWellKeyed pid s t w = modify-IsWellKeyed pid (drop_signal s) t (λ p. refl) w

clear_signals-IsWellKeyed :
    (pid : String) (ss : List String) (t : ProcessTable)
    → IsWellKeyed t
    → IsWellKeyed (clear_signals pid ss t)
unfolding clear_signals
clear_signals-IsWellKeyed pid [] t w = w
clear_signals-IsWellKeyed pid (s ∷ ss) t w =
    clear_signals-IsWellKeyed pid ss (clear_signal pid s t) (clear_signal-IsWellKeyed pid s t w)

check_signals-IsWellKeyed :
    (pid : String) (t : ProcessTable) → IsWellKeyed t → IsWellKeyed (check_signals pid t).0
unfolding check_signals
check_signals-IsWellKeyed pid t w = elim (Option-cases (get pid t.processes)) [
  | inl e ↦ rw (e, check_signals) w
  | inr (p, e) ↦ rw (e, check_signals) (clear_signals-IsWellKeyed pid p.pending_signals t w)
]

signal-IsWellKeyed :
    (pid s : String) (t : ProcessTable) → IsWellKeyed t → IsWellKeyed (signal pid s t).0
unfolding signal record_signal
signal-IsWellKeyed pid s t w = elim (Bool-cases (is_some (get pid t.processes))) [
  | inl e ↦ rw (e, signal) (modify-IsWellKeyed pid (add_signal s) t (identity-add_signal s) w)
  | inr e ↦ rw (e, signal) w
]

exec-IsWellKeyed : (o : Op) (t : ProcessTable) → IsWellKeyed t → IsWellKeyed (exec o t)
unfolding exec record_usage heartbeat
exec-IsWellKeyed (register_op i spec phase now) t w = register-IsWellKeyed i spec phase now t w
exec-IsWellKeyed (unregister_op pid) t w = unregister-IsWellKeyed pid t w
exec-IsWellKeyed (transition_op pid phase reason force cascade now) t w =
    transition-IsWellKeyed pid phase reason force cascade now t w
exec-IsWellKeyed (usage_op pid a b c d e) t w = modify-IsWellKeyed pid _ t (λ p. refl) w
exec-IsWellKeyed (heartbeat_op pid now) t w = modify-IsWellKeyed pid _ t (λ p. refl) w
exec-IsWellKeyed (signal_op pid s) t w = signal-IsWellKeyed pid s t w
exec-IsWellKeyed (clear_op pid s) t w = clear_signal-IsWellKeyed pid s t w
exec-IsWellKeyed (check_op pid) t w = check_signals-IsWellKeyed pid t w

-- From a table that files each process under its own pid, every sequence of operations, refused
-- registrations and transitions included, leads to a table that does.
pub exec_all-IsWellKeyed :
    (os : List Op) (t : ProcessTable) → IsWellKeyed t → IsWellKeyed (exec_all os t)
unfolding exec_all
exec_all-IsWellKeyed [] t w = w
exec_all-IsWellKeyed (o ∷ os) t w = exec_all-IsWellKeyed os (exec o t) (exec-IsWellKeyed o t w)
