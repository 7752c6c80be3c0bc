-- ===== src/Kernel/Process.antt =====
-- The process record: `ResourceUsage`, `AgentIdentity` and `AgentProcess`
-- (src/platform/kernel/_process.py). Instants are numbers of clock ticks, dollars and wallclock
-- times are counted in the smallest unit that the program adds up.
use Prim.Native.String.{◌++◌ as str_append}
use helios_os.Prelude.{
  ℕ, ◌+◌, String, str_eq, Bool, true, false, not, ◌&&◌, Option, none, some, List, [], if◌then◌else◌,
}
use helios_os.Kernel.Phase.{Phase, phase_eq, can_transition, is_sideband}

pub record ResourceUsage : Type 0 where
  pub tokens_in : ℕ
  pub tokens_out : ℕ
  pub dollars : ℕ
  pub tool_calls : ℕ
  pub wallclock_ms : ℕ
  pub last_heartbeat_at : Option ℕ

abbrev pub no_usage : ResourceUsage
no_usage = record {
  tokens_in = 0;
  tokens_out = 0;
  dollars = 0;
  tool_calls = 0;
  wallclock_ms = 0;
  last_heartbeat_at = none;
}

-- `accumulate(tokens_in, tokens_out, dollars, tool_calls, wallclock_ms)`.
unfoldable pub accumulate : ResourceUsage → ℕ → ℕ → ℕ → ℕ → ℕ → ResourceUsage
accumulate u tin tout usd calls ms = record u {
  tokens_in = u.tokens_in + tin;
  tokens_out = u.tokens_out + tout;
  dollars = u.dollars + usd;
  tool_calls = u.tool_calls + calls;
  wallclock_ms = u.wallclock_ms + ms;
}

unfoldable pub total_tokens : ResourceUsage → ℕ
total_tokens u = u.tokens_in + u.tokens_out

pub record AgentIdentity : Type 0 where
  pub pid : String
  pub name : String
  pub namespace : String
  pub generation : ℕ
  pub owner_id : Option String
  pub tenant_id : String
  pub parent_pid : Option String

unfoldable pub qualified_name : AgentIdentity → String
qualified_name i =
    if str_eq i.name "" then i.namespace else str_append i.namespace (str_append "/" i.name)

pub record AgentProcess : Type 0 where
  pub identity : AgentIdentity
  pub spec_ref : String
  pub phase : Phase
  pub resource_usage : ResourceUsage
  pub pending_signals : List String
  pub last_error : Option String
  pub created_at : ℕ
  pub phase_changed_at : ℕ

-- The dataclass defaults of a record that is registered at instant `now`.
unfoldable pub new_process : AgentIdentity → String → Phase → ℕ → AgentProcess
new_process identity spec_ref phase now = record {
  identity = identity;
  spec_ref = spec_ref;
  phase = phase;
  resource_usage = no_usage;
  pending_signals = [];
  last_error = none;
  created_at = now;
  phase_changed_at = now;
}

-- The assignments of `AgentProcess.transition`, past its two early returns.
unfoldable pub enter : AgentProcess → Phase → String → ℕ → AgentProcess
enter p new_phase reason now =
    let moved = record p { phase = new_phase; phase_changed_at = now } in
    if not (str_eq reason "") && is_sideband new_phase
    then record moved { last_error = some reason }
    else moved

-- `AgentProcess.transition(new_phase, reason=…, force=…)` at instant `now`.
unfoldable pub transition : AgentProcess → Phase → String → Bool → ℕ → AgentProcess × Bool
unfolding phase_eq can_transition is_sideband enter
transition p new_phase reason force now =
    if phase_eq new_phase p.phase
    then (p, true)
    else if not force && not (can_transition p.phase new_phase)
    then (p, false)
    else (enter p new_phase reason now, true)
