-- ===== src/Kernel/Permission/Access.antt =====
-- Exactly when a shell command in an environment and a read of a namespace are allowed.
use helios_os.Prelude.{
  String, eq_iff, true, false, ◌≡◌, ◌⊎◌, ◌↔◌, Option, some, List, [], ◌∷◌, contains, arith, inl,
  inr, Option-cases,
}
use helios_os.Kernel.Decision.{allow}
use helios_os.Kernel.Agent.{Agent, find_agent}
use helios_os.Kernel.Permission.{
  list_empty, is_bound, leading_word, check_env_exec, check_boundaries, check_data_access,
}

-- What an agent needs to run `command` in `env_id`.
pub record MayExec (lookup : Option (String → Option String)) (env_id command : String)
    (agent : Agent) : Type 0 where
  pub bound : is_bound lookup agent.agent_id env_id ≡ true
  pub enabled : agent.exec_enabled ≡ true
  pub command_allowed :
      (list_empty agent.allowed_commands ≡ true)
      ⊎ (contains (leading_word command) agent.allowed_commands ≡ true)

find_agent-agent_id :
    (agent_id : String) (agents : List Agent) (a : Agent)
    → find_agent agent_id agents ≡ some a
    → a.agent_id ≡ agent_id
unfolding find_agent
find_agent-agent_id agent_id [] a h = cc
find_agent-agent_id agent_id (b ∷ agents) a h =
    ground (arith, find_agent-agent_id agent_id agents a, eq_iff b.agent_id agent_id)

module _ (agents : List Agent) (lookup : Option (String → Option String))
    (agent_id env_id command : String) where
  -- With a registry wired, a command is allowed exactly for a registered agent that is bound to the
  -- environment, whose manifest enables exec, and whose allowlist, where it has one, holds the
  -- command's leading word.
  check_env_exec_iff :
      ((check_env_exec (some agents) lookup agent_id env_id command).action ≡ allow) ↔ (
        (agent : Agent) × (find_agent agent_id agents ≡ some agent)
        × MayExec lookup env_id command agent)
  unfolding check_env_exec
  check_env_exec_iff = (
    λ h. elim (Option-cases (find_agent agent_id agents)) [
      | inl e ↦ absurd (ground arith)
      | inr (agent, e) ↦ (agent, e, ground (arith, find_agent-agent_id agent_id agents agent e))
    ],
    λ (agent, e, m). ground (arith, find_agent-agent_id agent_id agents agent e),
  )

-- What the boundaries of an agent say of a namespace: it is not blocked, and it is listed, or no
-- namespace is listed and either some are blocked or it is the agent's own.
pub record MayRead (target : String) (agent : Agent) : Type 0 where
  pub not_blocked : contains target agent.blocked_namespaces ≡ false
  pub listed :
      (contains target agent.allowed_namespaces ≡ true)
      ⊎ ((list_empty agent.allowed_namespaces ≡ true)
          × ((list_empty agent.blocked_namespaces ≡ false) ⊎ (target ≡ agent.namespace)))

check_boundaries_iff :
    (target : String) (agent : Agent)
    → ((check_boundaries agent target).action ≡ allow) ↔ MayRead target agent
unfolding check_boundaries contains
check_boundaries_iff target agent = (
  λ h. ground (arith, eq_iff target agent.namespace),
  λ m. ground (arith, eq_iff target agent.namespace),
)

-- With a registry wired, a read of a namespace is allowed exactly for a registered agent whose
-- boundaries let it read there.
check_data_access_iff :
    (agents : List Agent) (agent_id target : String)
    → ((check_data_access (some agents) agent_id target).action ≡ allow)
      ↔ ((agent : Agent) × (find_agent agent_id agents ≡ some agent) × MayRead target agent)
unfolding check_data_access
check_data_access_iff agents agent_id target = (
  λ h. elim (Option-cases (find_agent agent_id agents)) [
    | inl e ↦ absurd (ground arith)
    | inr (agent, e) ↦ (agent, e, (check_boundaries_iff target agent).0 (ground arith))
  ],
  λ (agent, e, m). rw (e, check_data_access) ((check_boundaries_iff target agent).1 m),
)
