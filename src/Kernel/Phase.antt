-- ===== src/Kernel/Phase.antt =====
-- The phase machine of an agent process: `Phase`, `_ALLOWED_TRANSITIONS`, `is_terminal`,
-- `can_transition` and the mapping to the older `AgentStatus`
-- (src/platform/kernel/_process.py, stacks/base.py).
pub mod Reach
use helios_os.Prelude.{Bool, true, false}

pub data Phase : Type 0 where
  pending admitted starting running awaiting_human awaiting_external : Phase
  draining stopped failed quarantined evicted : Phase

pub Phase-discrete : Discrete Phase
Phase-discrete = hlevel

-- `a is b` on members of the enumeration.
unfoldable pub phase_eq : Phase → Phase → Bool
phase_eq pending pending = true
phase_eq admitted admitted = true
phase_eq starting starting = true
phase_eq running running = true
phase_eq awaiting_human awaiting_human = true
phase_eq awaiting_external awaiting_external = true
phase_eq draining draining = true
phase_eq stopped stopped = true
phase_eq failed failed = true
phase_eq quarantined quarantined = true
phase_eq evicted evicted = true
phase_eq _ _ = false

-- `target in _ALLOWED_TRANSITIONS.get(current, set())`, a clause for each member of a set.
unfoldable pub can_transition : Phase → Phase → Bool
can_transition pending admitted = true
can_transition pending failed = true
can_transition pending quarantined = true
can_transition admitted starting = true
can_transition admitted failed = true
can_transition admitted quarantined = true
can_transition admitted evicted = true
can_transition admitted stopped = true
can_transition starting running = true
can_transition starting failed = true
can_transition starting quarantined = true
can_transition starting evicted = true
can_transition starting stopped = true
can_transition running awaiting_human = true
can_transition running awaiting_external = true
can_transition running draining = true
can_transition running failed = true
can_transition running quarantined = true
can_transition running evicted = true
can_transition running stopped = true
can_transition awaiting_human running = true
can_transition awaiting_human awaiting_external = true
can_transition awaiting_human draining = true
can_transition awaiting_human failed = true
can_transition awaiting_human quarantined = true
can_transition awaiting_human evicted = true
can_transition awaiting_human stopped = true
can_transition awaiting_external running = true
can_transition awaiting_external awaiting_human = true
can_transition awaiting_external draining = true
can_transition awaiting_external failed = true
can_transition awaiting_external quarantined = true
can_transition awaiting_external evicted = true
can_transition awaiting_external stopped = true
can_transition draining stopped = true
can_transition draining failed = true
can_transition draining evicted = true
can_transition failed quarantined = true
can_transition failed stopped = true
can_transition quarantined stopped = true
can_transition quarantined admitted = true
can_transition evicted stopped = true
can_transition evicted admitted = true
can_transition _ _ = false

unfoldable pub is_terminal : Phase → Bool
is_terminal stopped = true
is_terminal _ = false

-- `new_phase in (FAILED, QUARANTINED, EVICTED)`: the phases that keep a reason in `last_error`.
unfoldable pub is_sideband : Phase → Bool
is_sideband failed = true
is_sideband quarantined = true
is_sideband evicted = true
is_sideband _ = false

-- `_MIRROR_PHASES`, which are also the `cascade_phases` of `ProcessTable.transition`.
unfoldable pub is_mirrored : Phase → Bool
unfolding is_sideband
is_mirrored stopped = true
is_mirrored p = is_sideband p

pub data AgentStatus : Type 0 where
  idle running paused stopped failed completed quarantined : AgentStatus

-- `_PHASE_TO_STATUS_VALUE`, read through `AgentStatus(value)`.
unfoldable pub status_value_from_phase : Phase → AgentStatus
status_value_from_phase pending = AgentStatus.idle
status_value_from_phase admitted = AgentStatus.idle
status_value_from_phase starting = AgentStatus.idle
status_value_from_phase running = AgentStatus.running
status_value_from_phase awaiting_human = AgentStatus.paused
status_value_from_phase awaiting_external = AgentStatus.paused
status_value_from_phase draining = AgentStatus.paused
status_value_from_phase stopped = AgentStatus.stopped
status_value_from_phase failed = AgentStatus.failed
status_value_from_phase quarantined = AgentStatus.quarantined
status_value_from_phase evicted = AgentStatus.stopped

-- `_STATUS_VALUE_TO_PHASE`, on the members of `AgentStatus`.
unfoldable pub phase_from_status_value : AgentStatus → Phase
phase_from_status_value AgentStatus.idle = running
phase_from_status_value AgentStatus.running = running
phase_from_status_value AgentStatus.paused = draining
phase_from_status_value AgentStatus.stopped = stopped
phase_from_status_value AgentStatus.failed = failed
phase_from_status_value AgentStatus.completed = stopped
phase_from_status_value AgentStatus.quarantined = quarantined
