-- ===== src/Kernel/Stages/Soundness.antt =====
-- What an allowed syscall has been checked for.
use Prim.Native.String.{◌++◌ as str_append}
use helios_os.Prelude.{
  String, eq_iff, true, ◌≡◌, ◌⊎◌, refl, ◌∙◌, ap, some, [], ◌∷◌, arith, inl, inr, Bool-cases,
  Option-cases, or_else,
}
use helios_os.Kernel.Decision.{KernelDecision, allowed, denying, stage_crashed}
use helios_os.Kernel.Permission.{check_tool_call}
use helios_os.Kernel.Budget.{reserve}
use helios_os.Kernel.Capability.{authorize}
use helios_os.Kernel.Pipeline.{
  Args, Syscall, identity, capability, quota, policy, boundary, dispatch, audit, crash, Run,
}
use helios_os.Kernel.Pipeline.Order.{
  Through, step, done, Through-first, goes_on, allowed_only-Through,
}
use helios_os.Kernel.Pipeline.Refusals.{crash_is_not_audited}
use helios_os.Kernel.Stages.{
  World, Config, license_stage, tool_stage, exec_stage, a2a_stage, capability_stage, quota_stage,
  stages, syscall, try_token, tool_check,
}

module _ (cfg : Config) where
  -- The first three stages of an allowed syscall.
  pub first_three :
      (call : Syscall) (w : World)
      → allowed (syscall cfg call w).decision ≡ true
      → let (o1, c1, w1) = license_stage cfg call w in
        let (o2, c2, w2) = capability_stage cfg c1 w1 in
        let (o3, c3, w3) = quota_stage cfg c2 w2 in
        (goes_on o1 ≡ true) × (goes_on o2 ≡ true) × (goes_on o3 ≡ true)
  unfolding syscall stages
  first_three call w h =
      let (seen, call', w', t, _) = allowed_only-Through (stages cfg) call w h in
      let (on1, _, t1) = Through-first (stages cfg) (license_stage cfg) refl t in
      let (on2, _, t2) = Through-first (stages cfg) (capability_stage cfg) refl t1 in
      let (on3, _, t3) = Through-first (stages cfg) (quota_stage cfg) refl t2 in (on1, on2, on3)

  license_keeps :
      (call : Syscall) (w : World)
      → let (o, c, w') = license_stage cfg call w in
        (c.verb ≡ call.verb)
        × (c.subject ≡ call.subject)
        × (c.object_name ≡ call.object_name)
        × (c.args ≡ call.args)
        × (w' ≡ w)
  unfolding license_stage
  license_keeps call w = ground arith

  try_token_keeps :
      (call : Syscall) (target verb : String) (w : World)
      → (try_token cfg call target verb w).0.budgets ≡ w.budgets
  unfolding try_token
  try_token_keeps call target verb w = ground arith

  capability_keeps :
      (call : Syscall) (w : World)
      → let (o, c, w') = capability_stage cfg call w in (c ≡ call) × (w'.budgets ≡ w.budgets)
  unfolding capability_stage tool_stage exec_stage a2a_stage
  capability_keeps call w = ground (
    arith,
    try_token_keeps call (str_append "tool:" call.object_name) "tool.call" w,
    try_token_keeps call (str_append "env:" call.object_name) "exec" w,
  )

  -- A token that the call carries authorises this tool for this subject, or the permission check
  -- allows it.
  abbrev pub ToolChecked : Args → String → String → World → Type 0
  ToolChecked args subject tool w =
      ((token : String) × (args.capability_token ≡ some token)
        × ((authorize cfg.now cfg.later token subject (str_append "tool:" tool) "tool.call"
              w.tokens).1
            ≡ true))
      ⊎ ((d : KernelDecision) × (check_tool_call cfg.conv cfg.agents subject tool args.tool_input
            ≡ some d)
          × (allowed d ≡ true))

  try_token-true :
      (call : Syscall) (target verb : String) (w : World)
      → (try_token cfg call target verb w).1 ≡ true
      → (token : String) × (call.args.capability_token ≡ some token)
        × ((authorize cfg.now cfg.later token call.subject target verb w.tokens).1 ≡ true)
  unfolding try_token
  try_token-true call target verb w h = elim (Option-cases call.args.capability_token) [
    | inl e ↦ absurd (ground arith)
    | inr (token, e) ↦ (token, e, ground arith)
  ]

  tool_check-allowed :
      (call : Syscall)
      → goes_on (tool_check cfg call) ≡ true
      → (d : KernelDecision) × (check_tool_call cfg.conv cfg.agents call.subject call.object_name
            call.args.tool_input
          ≡ some d)
        × (allowed d ≡ true)
  unfolding tool_check
  tool_check-allowed call h =
      elim (Option-cases
        (check_tool_call cfg.conv cfg.agents call.subject call.object_name call.args.tool_input)) [
          | inl e ↦ absurd (ground arith)
          | inr (d, e) ↦ (d, e, ground arith)
        ]

  capability_checks_tool :
      (call : Syscall) (w : World)
      → call.verb ≡ "tool.call"
      → goes_on (capability_stage cfg call w).0 ≡ true
      → ToolChecked call.args call.subject call.object_name w
  unfolding capability_stage tool_stage
  capability_checks_tool call w v h =
      elim (Bool-cases (try_token cfg call (str_append "tool:" call.object_name) "tool.call" w).1) [
        | inl e ↦ inl (try_token-true call _ _ w e)
        | inr e ↦ inr (tool_check-allowed call (ground (arith, eq_iff call.verb "tool.call")))
      ]

  quota_reserves :
      (call : Syscall) (w : World)
      → goes_on (quota_stage cfg call w).0 ≡ true
      → (reserve cfg.agents cfg.today cfg.ticket call.subject
          (some (or_else call.args.estimated_cost_usd 0))
          call.args.estimated_tokens
          w.budgets).1
        ≡ some cfg.ticket
  unfolding quota_stage reserve
  quota_reserves call w h = ground arith

  -- A `tool.call` syscall is allowed only if a token that it carries authorises this tool for this
  -- subject or the permission check allows the tool with this input, and only with a reservation
  -- that the budget granted for its estimate.
  pub tool_call_allowed :
      (call : Syscall) (w : World)
      → call.verb ≡ "tool.call"
      → allowed (syscall cfg call w).decision ≡ true
      → ToolChecked call.args call.subject call.object_name w
        × ((reserve cfg.agents cfg.today cfg.ticket call.subject
              (some (or_else call.args.estimated_cost_usd 0))
              call.args.estimated_tokens
              w.budgets).1
            ≡ some cfg.ticket)
  tool_call_allowed call w v h =
      let (_, on2, on3) = first_three call w h in
      let (verb, subject, tool, args, same) = license_keeps call w in
      let (same_call, budgets) =
        capability_keeps (license_stage cfg call w).1 (license_stage cfg call w).2 in
      (
        rw (subject, tool, args, same) at
            (capability_checks_tool (license_stage cfg call w).1 (license_stage cfg call w).2
              (verb ∙ v) on2),
        rw (same_call, subject, args, budgets, same) at
            (quota_reserves
              (capability_stage cfg (license_stage cfg call w).1 (license_stage cfg call w).2).1
              (capability_stage cfg (license_stage cfg call w).1 (license_stage cfg call w).2).2
              on3),
      )

  data_read_crash :
      (call : Syscall) (w : World)
      → call.verb ≡ "data.read"
      → (capability_stage cfg call w).0 ≡ crash
  unfolding capability_stage
  data_read_crash call w v = rw v

  license-Through :
      (call : Syscall) (w : World)
      → goes_on (license_stage cfg call w).0 ≡ true
      → Through (stages cfg) (identity ∷ []) call w (identity ∷ []) (license_stage cfg call w).1 w
  unfolding stages
  license-Through call w h =
      step (license_stage cfg) refl h (rw (license_keeps call w).4 (done _ _))

  -- Every `data.read` syscall that the license stage lets through is denied because the capability
  -- stage raises, whatever boundaries the agent has, and only these two stages are called.
  pub data_read_crashes :
      (call : Syscall) (w : World)
      → call.verb ≡ "data.read"
      → goes_on (license_stage cfg call w).0 ≡ true
      → ((syscall cfg call w).decision ≡ denying stage_crashed)
        × ((syscall cfg call w).called ≡ identity ∷ capability ∷ [])
  unfolding syscall
  data_read_crashes call w v h =
      let ends =
        crash_is_not_audited (stages cfg) (identity ∷ [])
          (quota ∷ policy ∷ boundary ∷ dispatch ∷ audit ∷ []) (identity ∷ []) capability call
          (license_stage cfg call w).1 w w (capability_stage cfg) refl (license-Through call w h)
          (unfold stages in refl)
          (data_read_crash (license_stage cfg call w).1 w ((license_keeps call w).0 ∙ v)) in
      (ap (λ (r : Run World). r.decision) ends, ap (λ (r : Run World). r.called) ends)
