-- ===== src/Platform/NamespacePolicy/Tightening.antt =====
-- The merged policy beside those of its levels (src/platform/namespace_policy.py).
use helios_os.Prelude.{
  ℕ, ◌≤◌, String, ◌||◌, ◌≡◌, refl, ap, ◌∙◌, Option, none, some, ◌++◌, or_else, contains,
}
use helios_os.Platform.NamespacePolicy.{
  NamespacePolicy, GlobalPolicy, Contract, audit_rank, pii_rank, given, strictest, named_events,
  from_global, from_namespace, daily_budgets, per_task_budgets, audit_levels, pii_policies,
  all_events, all_denied, resolve_effective_policy,
}
use helios_os.Platform.NamespacePolicy.Extremes.{
  least-AtMost, contains-sorted_set, contains-append, Among-append_left, Among-append_right,
  Among-given, strictest-AtLeast, contains_first, contains_second, AtMost, Among,
}

-- What a level that may be absent sets.
abbrev pub set_by {ℓ κ} : {A : Type ℓ} {B : Type κ} → Option A → (A → Option B) → Option B
set_by none f = none
set_by (some a) f = f a

Among-from_global :
    (g : Option GlobalPolicy) (f : GlobalPolicy → Option ℕ)
    → Among (set_by g f) (from_global g (λ p. given (f p)))
Among-from_global none f = tt
Among-from_global (some g) f = Among-given (f g)

Among-from_namespace :
    (n : Option NamespacePolicy) (f : NamespacePolicy → Option ℕ)
    → Among (set_by n f) (from_namespace n (λ p. given (f p)))
Among-from_namespace none f = tt
Among-from_namespace (some n) f = Among-given (f n)

-- Has the text, where one is given.
abbrev pub AtLeast : (String → ℕ) → String → Option String → Type 0
AtLeast rank level none = Unit
AtLeast rank level (some other) = rank other ≤ rank level

audit-AtLeast_global :
    (global : Option GlobalPolicy) (ns : Option NamespacePolicy) (agent : Contract)
    → AtLeast audit_rank
        (or_else (strictest audit_rank (audit_levels global ns agent)) "basic")
        (set_by global (λ g. some g.required_audit_level))
unfolding audit_levels
audit-AtLeast_global none ns agent = tt
audit-AtLeast_global (some g) ns agent =
    strictest-AtLeast audit_rank "basic" g.required_audit_level _
      (contains_first g.required_audit_level _)

audit-AtLeast_namespace :
    (global : Option GlobalPolicy) (ns : Option NamespacePolicy) (agent : Contract)
    → AtLeast audit_rank
        (or_else (strictest audit_rank (audit_levels global ns agent)) "basic")
        (set_by ns (λ n. some n.required_audit_level))
unfolding audit_levels
audit-AtLeast_namespace global none agent = tt
audit-AtLeast_namespace none (some n) agent =
    strictest-AtLeast audit_rank "basic" n.required_audit_level _
      (contains_first n.required_audit_level _)
audit-AtLeast_namespace (some g) (some n) agent =
    strictest-AtLeast audit_rank "basic" n.required_audit_level _
      (contains_second n.required_audit_level g.required_audit_level _)

pii-AtLeast_global :
    (global : Option GlobalPolicy) (ns : Option NamespacePolicy) (agent : Contract)
    → AtLeast pii_rank
        (or_else (strictest pii_rank (pii_policies global ns agent)) "detect")
        (set_by global (λ g. some g.pii_policy))
unfolding pii_policies
pii-AtLeast_global none ns agent = tt
pii-AtLeast_global (some g) ns agent =
    strictest-AtLeast pii_rank "detect" g.pii_policy _ (contains_first g.pii_policy _)

pii-AtLeast_namespace :
    (global : Option GlobalPolicy) (ns : Option NamespacePolicy) (agent : Contract)
    → AtLeast pii_rank
        (or_else (strictest pii_rank (pii_policies global ns agent)) "detect")
        (set_by ns (λ n. some n.pii_policy))
unfolding pii_policies
pii-AtLeast_namespace global none agent = tt
pii-AtLeast_namespace none (some n) agent =
    strictest-AtLeast pii_rank "detect" n.pii_policy _ (contains_first n.pii_policy _)
pii-AtLeast_namespace (some g) (some n) agent =
    strictest-AtLeast pii_rank "detect" n.pii_policy _ (contains_second n.pii_policy g.pii_policy _)

-- The policy of a namespace with another `daily_budget_usd`.
abbrev pub with_daily_budget : Option ℕ → Option NamespacePolicy → Option NamespacePolicy
with_daily_budget other none = none
with_daily_budget other (some ns) = some (record ns { daily_budget_usd = other })

module _ (global : Option GlobalPolicy) (ns : Option NamespacePolicy) (agent : Contract) where
  daily_budget_ignored :
      (other : Option ℕ) (n : Option NamespacePolicy)
      → resolve_effective_policy global (with_daily_budget other n) agent
        ≡ resolve_effective_policy global n agent
  unfolding resolve_effective_policy daily_budgets per_task_budgets audit_levels pii_policies
      all_events all_denied
  daily_budget_ignored other none = refl
  daily_budget_ignored other (some n) = refl

  -- The merged daily budget is set wherever the company's maximum, the namespace's
  -- `max_cost_per_agent_day` or the agent's own daily budget is, and is at most each of those that are
  -- set; the merged budget for a task is so for the company's maximum and the agent's own. The
  -- `daily_budget_usd` of the namespace takes no part: whatever it is set to, the merge is the same.
  pub budgets_tighten :
      (other : Option ℕ)
      → let eff = resolve_effective_policy global ns agent in
        AtMost eff.max_daily_budget_usd (set_by global (λ g. g.max_daily_budget_usd))
        × AtMost eff.max_daily_budget_usd (set_by ns (λ n. n.max_cost_per_agent_day))
        × AtMost eff.max_daily_budget_usd agent.daily_usd
        × AtMost eff.max_per_task_budget_usd (set_by global (λ g. g.max_per_task_budget_usd))
        × AtMost eff.max_per_task_budget_usd agent.per_task_usd
        × (resolve_effective_policy global (with_daily_budget other ns) agent ≡ eff)
  unfolding resolve_effective_policy daily_budgets per_task_budgets
  budgets_tighten other =
      let g_day = from_global global (λ g. given g.max_daily_budget_usd) in
      let n_day = from_namespace ns (λ n. given n.max_cost_per_agent_day) in
      let g_task = from_global global (λ g. given g.max_per_task_budget_usd) in
      (
        least-AtMost _ _
            (Among-append_left _ g_day _ (Among-from_global global (λ g. g.max_daily_budget_usd))),
        least-AtMost _ _ (
            Among-append_right _ g_day (n_day ++ given agent.daily_usd) (
              Among-append_left _ n_day _
                (Among-from_namespace ns (λ n. n.max_cost_per_agent_day)))),
        least-AtMost _ _ (
            Among-append_right _ g_day (n_day ++ given agent.daily_usd)
              (Among-append_right _ n_day _ (Among-given agent.daily_usd))),
        least-AtMost _ _ (
            Among-append_left _ g_task _
              (Among-from_global global (λ g. g.max_per_task_budget_usd))),
        least-AtMost _ _ (Among-append_right _ g_task _ (Among-given agent.per_task_usd)),
        daily_budget_ignored other ns,
      )

  -- The merged rules deny exactly the tools that the company or the namespace denies, require exactly
  -- the approval events that the company, the namespace or the agent names, and ask for an audit level
  -- and a treatment of personal data at least as strict as the company and the namespace do.
  pub rules_tighten :
      (x : String)
      → let eff = resolve_effective_policy global ns agent in
        (contains x eff.denied_tools ≡ (
          contains x (from_global global (λ g. g.denied_tools))
          || contains x (from_namespace ns (λ n. n.denied_tools))))
        × (contains x eff.required_hitl_events ≡ (
            contains x (from_global global (λ g. g.required_hitl_events))
            || (contains x (from_namespace ns (λ n. n.required_hitl_events))
                || contains x (named_events agent.hitl_events))))
        × AtLeast audit_rank eff.required_audit_level
            (set_by global (λ g. some g.required_audit_level))
        × AtLeast audit_rank eff.required_audit_level (set_by ns (λ n. some n.required_audit_level))
        × AtLeast pii_rank eff.pii_policy (set_by global (λ g. some g.pii_policy))
        × AtLeast pii_rank eff.pii_policy (set_by ns (λ n. some n.pii_policy))
  unfolding resolve_effective_policy all_denied all_events
  rules_tighten x = (
    contains-append x (from_global global (λ g. g.denied_tools))
        (from_namespace ns (λ n. n.denied_tools)),
    contains-sorted_set x (all_events global ns agent)
        ∙ contains-append x (from_global global (λ g. g.required_hitl_events)) _
        ∙ ap (λ b. contains x (from_global global (λ g. g.required_hitl_events)) || b)
            (contains-append x (from_namespace ns (λ n. n.required_hitl_events))
              (named_events agent.hitl_events)),
    audit-AtLeast_global global ns agent,
    audit-AtLeast_namespace global ns agent,
    pii-AtLeast_global global ns agent,
    pii-AtLeast_namespace global ns agent,
  )
