-- ===== src/Tests/Fixtures.antt =====
-- The agents, the configuration and the syscalls that the concrete runs use.
use helios_os.Prelude.{String, true, false, Option, none, some, List, [], ◌∷◌}
use helios_os.Kernel.Json.{Value, Fields}
use helios_os.Kernel.Policy.{Conversions}
use helios_os.Kernel.Agent.{Agent, ApprovalRule, Mode}
use helios_os.Kernel.Budget.{BudgetManager}
use helios_os.Kernel.Capability.{CapabilityToken, at}
use helios_os.Kernel.Pipeline.{Args, Syscall}
use helios_os.Kernel.Stages.{World, Config}

abbrev pub conv : Conversions
conv = record { repr = λ v. "None"; float_of = λ s. none }

abbrev pub always_rule : String → ApprovalRule
always_rule tool = record {
  tool = tool;
  mode = Mode.always;
  condition = record { deny_if = none; ask_human_if = none; is_empty = true };
}

-- May use `mcp.*` but `mcp.drop`, asks before `mcp.send`, and may spend 10 a task and 100 a day.
abbrev pub writer : Agent
writer = record {
  agent_id = "a1";
  name = "writer";
  namespace = "content";
  stack = some "forgeos";
  tenant_id = "acme";
  tools = "mcp.*" ∷ [];
  denied_tools = "mcp.drop" ∷ [];
  approvals = always_rule "mcp.send" ∷ [];
  human_in_loop = [];
  policies = [];
  exec_enabled = true;
  allowed_commands = "ls" ∷ [];
  daily_usd = some 100;
  per_task_usd = some 10;
  allowed_namespaces = [];
  blocked_namespaces = [];
}

abbrev pub agents : List Agent
agents = writer ∷ []

abbrev pub no_input : Value
no_input = Value.dict Fields.no_fields

abbrev pub lookup : String → Option String
lookup agent_id = some "dev"

abbrev pub no_budgets : BudgetManager
no_budgets = record { reservations = []; reserved_by_agent = []; recorded = [] }

abbrev pub fresh_world : World
fresh_world = record { budgets = no_budgets; tokens = []; log = [] }

abbrev pub cfg : Config
cfg = record {
  conv = conv;
  agents = some agents;
  acl = none;
  env_lookup = some lookup;
  license = none;
  production = false;
  today = 20;
  now = 5;
  later = 6;
  ticket = "t1";
  dispatcher = none;
  audited = true;
}

abbrev pub args_to : Option String → Args
args_to target = record {
  capability_token = none;
  tool_input = no_input;
  command = "";
  target_namespace = target;
  callee_namespace = none;
  estimated_cost_usd = some 3;
  estimated_tokens = none;
  tenant_id = none;
}

abbrev pub call_of : String → String → Option String → Syscall
call_of verb object_name target = record {
  verb = verb;
  subject = "a1";
  object_name = object_name;
  args = args_to target;
  tenant = none;
  last_decision = none;
  budget_ticket = none;
}

abbrev pub read_token : CapabilityToken
read_token = record {
  id = "k1";
  subject = "a1";
  target = "tool:mcp.read";
  verb = "tool.call";
  issued_at = 0;
  expires_at = at 9;
}
