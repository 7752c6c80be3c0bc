-- ===== src/Kernel/Table.antt =====
-- The process table: class `ProcessTable` (src/platform/kernel/_process.py) and the signals of the
-- kernel facade (`Kernel.signal`, `Kernel.check_signals` of src/platform/kernel/_facade.py).
-- The registry behind the table is its map of statuses, `AgentRegistry.set_status` with no backing
-- store (src/platform/registry.py).
pub mod Cascade
pub mod Keys
pub mod Signals
use helios_os.Prelude.{
  ℕ, String, str_eq, Bool, true, false, not, ◌&&◌, Option, none, some, List, [], ◌∷◌, ◌++◌, Dict,
  get, put, del, values, length, keep, contains, is_some, if◌then◌else◌,
}
use helios_os.Kernel.Phase.{
  Phase, phase_eq, AgentStatus, draining, stopped, failed, is_terminal, is_mirrored,
  status_value_from_phase,
}
use helios_os.Kernel.Process.{AgentIdentity, AgentProcess, ResourceUsage, new_process, accumulate}
use helios_os.Kernel.Process

-- What `AgentRegistry.set_status` reads and writes: the registered ids and their statuses.
pub record Registry : Type 0 where
  pub agent_ids : List String
  pub statuses : Dict AgentStatus

unfoldable pub set_status : String → AgentStatus → Registry → Registry
set_status agent_id status r =
    if contains agent_id r.agent_ids
    then record r { statuses = put agent_id status r.statuses }
    else r

pub record ProcessTable : Type 0 where
  pub registry : Option Registry
  pub processes : Dict AgentProcess

-- `attach_registry`
unfoldable pub attach_registry : Registry → ProcessTable → ProcessTable
attach_registry r t = record t { registry = some r }

-- `_mirror_status`, as a change of the registry that the table holds.
unfoldable pub mirror_status : AgentProcess → Option Registry → Option Registry
unfolding is_mirrored status_value_from_phase set_status
mirror_status p none = none
mirror_status p (some r) =
    if is_mirrored p.phase
    then some (set_status p.identity.pid (status_value_from_phase p.phase) r)
    else some r

-- `register`; `none` is the `ValueError` of a pid that is there already.
unfoldable pub register :
    AgentIdentity → String → Phase → ℕ → ProcessTable → Option (ProcessTable × AgentProcess)
unfolding new_process mirror_status
register identity spec_ref phase now t =
    if is_some (get identity.pid t.processes)
    then none
    else let p = new_process identity spec_ref phase now in
      some (
        record {
          registry = mirror_status p t.registry;
          processes = put identity.pid p t.processes;
        },
        p,
      )

unfoldable pub unregister : String → ProcessTable → ProcessTable × Bool
unregister pid t = (record t { processes = del pid t.processes }, is_some (get pid t.processes))

-- `p.identity.parent_pid == parent_pid`
unfoldable pub has_parent : String → AgentProcess → Bool
has_parent pid p = elim p.identity.parent_pid [ none ↦ false | some q ↦ str_eq q pid ]

unfoldable pub cascade_signal : Phase → String
unfolding phase_eq
cascade_signal parent_phase =
    if phase_eq parent_phase stopped
    then "parent_terminated"
    else if phase_eq parent_phase failed
    then "parent_terminated"
    else "parent_quarantined"

-- What the loop of `_cascade_to_children` does to one child that is not terminal. The text of
-- the reason goes to the log alone, since DRAINING keeps no `last_error`.
unfoldable pub drain_child : Phase → String → ℕ → AgentProcess → AgentProcess
unfolding cascade_signal Process.transition
drain_child parent_phase reason now c =
    (Process.transition
      (record c { pending_signals = c.pending_signals ++ cascade_signal parent_phase ∷ [] })
      draining reason true now).0

-- One turn of that loop, with the filter of `children_of`.
unfoldable pub visit_child : String → Phase → String → ℕ → AgentProcess → AgentProcess
unfolding has_parent
visit_child parent_pid parent_phase reason now c =
    if has_parent parent_pid c && not (is_terminal c.phase)
    then drain_child parent_phase reason now c
    else c

-- `self._mirror_status(child)`, made in the turns that drain the child.
unfoldable pub mirror_child :
    String → AgentProcess → AgentProcess → Option Registry → Option Registry
unfolding has_parent is_terminal mirror_status
mirror_child parent_pid old new r =
    if has_parent parent_pid old && not (is_terminal old.phase) then mirror_status new r else r

-- `_cascade_to_children`: the children are entries of the table, changed in place, and a child's
-- `parent_pid` never changes, so the loop is one pass over the entries.
unfoldable pub cascade_to_children :
    String
    → Phase
    → String
    → ℕ
    → Dict AgentProcess
    → Option Registry
    → Dict AgentProcess × Option Registry
unfolding visit_child mirror_child
cascade_to_children pid phase reason now [] r = ([], r)
cascade_to_children pid phase reason now ((k, c) ∷ d) r =
    let c' = visit_child pid phase reason now c in
    let (d', r') = cascade_to_children pid phase reason now d (mirror_child pid c c' r) in
    ((k, c') ∷ d', r')

-- The first half of `ProcessTable.transition`: the process itself, and its mirror if it moved.
unfoldable pub move :
    String → AgentProcess → Phase → String → Bool → ℕ → ProcessTable → ProcessTable
move pid p new_phase reason force now t =
    let (p', moved) = Process.transition p new_phase reason force now in
    record {
      registry = if moved then mirror_status p' t.registry else t.registry;
      processes = put pid p' t.processes;
    }

-- The second half: `if cascade and new_phase in cascade_phases: …`.
unfoldable pub cascade_from : String → Phase → String → Bool → ℕ → ProcessTable → ProcessTable
cascade_from pid new_phase reason cascade now t =
    let (d, r) = cascade_to_children pid new_phase reason now t.processes t.registry in
    if cascade && is_mirrored new_phase then record { registry = r; processes = d } else t

-- `ProcessTable.transition`; the second component is the returned process, after all changes.
unfoldable pub transition :
    String → Phase → String → Bool → Bool → ℕ → ProcessTable → ProcessTable × Option AgentProcess
transition pid new_phase reason force cascade now t = elim (get pid t.processes) [
  | none ↦ (t, none)
  | some p ↦
      let t' =
        cascade_from pid new_phase reason cascade now (move pid p new_phase reason force now t) in
      (t', get pid t'.processes)
]

-- The object behind `self._processes.get(pid)`, changed in place.
unfoldable pub modify : String → (AgentProcess → AgentProcess) → ProcessTable → ProcessTable
modify pid f t = elim (get pid t.processes) [
  | none ↦ t
  | some p ↦ record t { processes = put pid (f p) t.processes }
]

unfoldable pub record_usage : String → ℕ → ℕ → ℕ → ℕ → ℕ → ProcessTable → ProcessTable
record_usage pid tin tout usd calls ms t =
    modify pid
      (λ p. record p { resource_usage = accumulate p.resource_usage tin tout usd calls ms }) t

unfoldable pub set_heartbeat : ℕ → ResourceUsage → ResourceUsage
set_heartbeat now u = record u { last_heartbeat_at = some now }

unfoldable pub heartbeat : String → ℕ → ProcessTable → ProcessTable
heartbeat pid now t =
    modify pid (λ p. record p { resource_usage = set_heartbeat now p.resource_usage }) t

unfoldable pub add_signal : String → AgentProcess → AgentProcess
add_signal signal p =
    if contains signal p.pending_signals
    then p
    else record p { pending_signals = p.pending_signals ++ signal ∷ [] }

unfoldable pub record_signal : String → String → ProcessTable → ProcessTable
record_signal pid signal t = modify pid (add_signal signal) t

-- `xs.remove(x)`: the first occurrence.
unfoldable pub remove_first : String → List String → List String
remove_first s [] = []
remove_first s (x ∷ xs) = let rest = remove_first s xs in if str_eq x s then xs else x ∷ rest

unfoldable pub drop_signal : String → AgentProcess → AgentProcess
drop_signal signal p = record p { pending_signals = remove_first signal p.pending_signals }

unfoldable pub clear_signal : String → String → ProcessTable → ProcessTable
clear_signal pid signal t = modify pid (drop_signal signal) t

-- `Kernel.signal` with a table wired; the reason and the audit record are left out.
unfoldable pub signal : String → String → ProcessTable → ProcessTable × Bool
signal pid name t =
    if is_some (get pid t.processes) then (record_signal pid name t, true) else (t, false)

unfoldable pub clear_signals : String → List String → ProcessTable → ProcessTable
clear_signals pid [] t = t
clear_signals pid (s ∷ ss) t = clear_signals pid ss (clear_signal pid s t)

-- `Kernel.check_signals`: the pending signals, each cleared as it is delivered.
unfoldable pub check_signals : String → ProcessTable → ProcessTable × List String
check_signals pid t = elim (get pid t.processes) [
  | none ↦ (t, [])
  | some p ↦ (clear_signals pid p.pending_signals t, p.pending_signals)
]

unfoldable pub by_phase : Phase → ProcessTable → List AgentProcess
unfolding phase_eq
by_phase phase t = keep (λ p. phase_eq p.phase phase) (values t.processes)

unfoldable pub by_namespace : String → ProcessTable → List AgentProcess
by_namespace ns t = keep (λ p. str_eq p.identity.namespace ns) (values t.processes)

unfoldable pub by_tenant : String → ProcessTable → List AgentProcess
by_tenant tenant t = keep (λ p. str_eq p.identity.tenant_id tenant) (values t.processes)

unfoldable pub children_of : String → ProcessTable → List AgentProcess
unfolding has_parent
children_of pid t = keep (has_parent pid) (values t.processes)

-- One entry of `summary()`: the number of processes in a phase.
unfoldable pub phase_count : Phase → ProcessTable → ℕ
unfolding by_phase
phase_count phase t = length (by_phase phase t)
