-- ===== src/Tests/Processes.antt =====
-- The process table at concrete inputs.
use helios_os.Prelude.{
  String, eq_iff, arith, true, false, ◌≡◌, ◌≢◌, refl, Option, none, some, List, [], ◌∷◌, get,
}
use helios_os.Kernel.Phase.{
  Phase, pending, running, draining, stopped, failed, is_mirrored, is_terminal, can_transition,
  phase_eq,
}
use helios_os.Kernel.Phase.Reach.{Request}
use helios_os.Kernel.Process.{AgentIdentity, AgentProcess, new_process}
use helios_os.Kernel.Table.{ProcessTable, has_parent, cascade_signal, check_signals}
use helios_os.Kernel.Table
use helios_os.Kernel.Table.Cascade.{refused_transition_drains_child}
use helios_os.Kernel.Table.Keys.{
  IsWellKeyed, Op, exec_all, exec_all-IsWellKeyed, register_op, transition_op, check_op, signal_op,
}

abbrev identity_of : String → Option String → AgentIdentity
identity_of pid parent = record {
  pid = pid;
  name = "";
  namespace = "content";
  generation = 0;
  owner_id = none;
  tenant_id = "acme";
  parent_pid = parent;
}

abbrev process_in : String → Option String → Phase → List String → AgentProcess
process_in pid parent phase signals = record (new_process (identity_of pid parent) "spec" phase 0) {
  pending_signals = signals;
}

abbrev parent : AgentProcess
parent = process_in "p" none pending []

abbrev child : AgentProcess
child = process_in "c" (some "p") running ("reload" ∷ [])

abbrev family : ProcessTable
family = record { registry = none; processes = ("p", parent) ∷ ("c", child) ∷ [] }

abbrev parent_pid : String
parent_pid = "p"

other_pid : parent_pid ≢ "c"
other_pid e = ground (arith, eq_iff parent_pid "c")

refused_transition_drains_child_example :
    (get "p" (Table.transition "p" stopped "" false true 1 family).0.processes ≡ some parent)
    × (c' : AgentProcess) × (get "c"
          (Table.transition "p" stopped "" false true 1 family).0.processes
        ≡ some c')
    × (c'.phase ≡ draining)
unfolding get phase_eq new_process can_transition is_mirrored has_parent is_terminal
refused_transition_drains_child_example =
    refused_transition_drains_child "p" stopped "" 1 family "c" parent child refl refl other_pid
      refl refl refl refl refl refl

empty-IsWellKeyed : IsWellKeyed (record { registry = none; processes = [] })
unfolding get
empty-IsWellKeyed = record { at_key = λ k p h. cc }

abbrev plan : List Op
plan =
    register_op (identity_of "p" none) "spec" pending 0
    ∷ register_op (identity_of "c" (some "p")) "spec" running 0
    ∷ register_op (identity_of "p" none) "again" running 0
    ∷ signal_op "c" "reload"
    ∷ transition_op "p" failed "boom" false true 1
    ∷ check_op "c"
    ∷ []

exec_all-IsWellKeyed_example :
    IsWellKeyed (exec_all plan (record { registry = none; processes = [] }))
exec_all-IsWellKeyed_example =
    exec_all-IsWellKeyed plan (record { registry = none; processes = [] }) empty-IsWellKeyed

abbrev plain : Phase → Request
plain target = record { target = target; reason = ""; now = 0 }
