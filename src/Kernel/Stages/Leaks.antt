-- ===== src/Kernel/Stages/Leaks.antt =====
-- What a syscall that is refused after the quota stage leaves reserved.
use helios_os.Prelude.{
  ℕ, ◌+◌, String, true, false, ◌≡◌, refl, ap, ◌∙◌, Option, none, some, List, [], ◌∷◌, ◌++◌, arith,
  or_else, eq_iff,
}
use helios_os.Kernel.Decision.{KernelDecision, allowed}
use helios_os.Kernel.Permission.{check_data_access, check_boundaries}
use helios_os.Kernel.Budget.{BudgetManager, reserve, reserved_for}
use helios_os.Kernel.Budget.Reservations.{reserved_for-add}
use helios_os.Kernel.Pipeline.{
  Args, Syscall, StageName, identity, capability, quota, policy, boundary, dispatch, audit,
  is_audit, Outcome, decided, Run, run_audit_on_deny,
}
use helios_os.Kernel.Pipeline.Order.{Through, step, done, goes_on, Through-append}
use helios_os.Kernel.Pipeline.Refusals.{refused_run}
use helios_os.Kernel.Stages.{
  World, Config, quota_stage, policy_stage, boundary_stage, audit_stage, stages, syscall,
}

module _ (cfg : Config) where
  -- The estimate that the quota stage reserves.
  abbrev pub estimate_of : Syscall → ℕ
  estimate_of call = or_else call.args.estimated_cost_usd 0

  abbrev pub quota_of : Syscall → World → BudgetManager × Option String × KernelDecision
  quota_of call w =
      reserve cfg.agents cfg.today cfg.ticket call.subject (some (estimate_of call))
        call.args.estimated_tokens w.budgets

  quota_granted :
      (call : Syscall) (w : World)
      → (quota_of call w).1 ≡ some cfg.ticket
      → (goes_on (quota_stage cfg call w).0 ≡ true)
        × ((quota_stage cfg call w).1.args ≡ call.args)
        × ((quota_stage cfg call w).1.subject ≡ call.subject)
        × (reserved_for call.subject (quota_stage cfg call w).2.budgets
            ≡ reserved_for call.subject w.budgets + estimate_of call)
  unfolding quota_stage reserve allowed
  quota_granted call w h = ground (
    arith,
    reserved_for-add cfg.ticket call.subject call.subject (estimate_of call)
        (or_else call.args.estimated_tokens 0) w.budgets,
    eq_iff call.subject call.subject,
  )

  check_data_access-ticket :
      (subject target : String) → (check_data_access cfg.agents subject target).ticket ≡ none
  unfolding check_data_access check_boundaries
  check_data_access-ticket subject target = ground arith

  -- `run_audit_on_deny` with the kernel's audit stage, or none.
  audit_keeps :
      (call : Syscall) (d : KernelDecision) (w : World) (seen : List StageName)
      → ((run_audit_on_deny (stages cfg) call d w seen).decision ≡ d)
        × ((run_audit_on_deny (stages cfg) call d w seen).state.budgets ≡ w.budgets)
  unfolding run_audit_on_deny stages audit_stage
  audit_keeps call d w seen = ground arith

  boundary_at :
      (call : Syscall) (w : World) (subject ns : String)
      → call.args.target_namespace ≡ some ns
      → call.subject ≡ subject
      → boundary_stage cfg call w ≡ (decided (check_data_access cfg.agents subject ns), call, w)
  unfolding boundary_stage
  boundary_at call w subject ns h e = ground arith

  -- From the quota stage to the boundary stage.
  Through-quota :
      (call c : Syscall) (w v : World) (seen : List StageName)
      → Through (stages cfg) (identity ∷ capability ∷ []) call w seen c v
      → goes_on (quota_stage cfg c v).0 ≡ true
      → Through
          (stages cfg)
          (identity ∷ capability ∷ quota ∷ policy ∷ [])
          call
          w
          (seen ++ quota ∷ policy ∷ [])
          (quota_stage cfg c v).1
          (quota_stage cfg c v).2
  unfolding stages policy_stage
  Through-quota call c w v seen t on =
      Through-append (stages cfg) t
        (step (quota_stage cfg) refl on (step (policy_stage cfg) refl refl (done _ _)))

  -- When the quota stage has granted a reservation and the boundary stage then refuses the syscall,
  -- the caller gets the refusal with no ticket in it, and the estimate stays reserved against the
  -- agent.
  pub refused_after_quota_stays_reserved :
      (call c : Syscall) (w v : World) (seen : List StageName) (ns : String)
      → Through (stages cfg) (identity ∷ capability ∷ []) call w seen c v
      → (quota_of c v).1 ≡ some cfg.ticket
      → c.args.target_namespace ≡ some ns
      → allowed (check_data_access cfg.agents c.subject ns) ≡ false
      → ((syscall cfg call w).decision ≡ check_data_access cfg.agents c.subject ns)
        × ((syscall cfg call w).decision.ticket ≡ none)
        × (reserved_for c.subject (syscall cfg call w).state.budgets
            ≡ reserved_for c.subject v.budgets + estimate_of c)
  unfolding syscall
  refused_after_quota_stays_reserved call c w v seen ns t granted target refused =
      let (on, same_args, same_subject, held) = quota_granted c v granted in
      let c' = (quota_stage cfg c v).1 in
      let v' = (quota_stage cfg c v).2 in
      let d = check_data_access cfg.agents c.subject ns in
      let at_d : boundary_stage cfg c' v' ≡ (decided d, c', v') =
        boundary_at c' v' c.subject ns (ap (λ (a : Args). a.target_namespace) same_args ∙ target)
          same_subject in
      let ends =
        refused_run (stages cfg) (identity ∷ capability ∷ quota ∷ policy ∷ [])
          (dispatch ∷ audit ∷ []) (seen ++ quota ∷ policy ∷ []) boundary call c' w v'
          (boundary_stage cfg) d refl (Through-quota call c w v seen t on) (unfold stages in refl)
          (ap (λ (r : Outcome × Syscall × World). r.0) at_d) refused (unfold is_audit in refl) in
      let kept =
        audit_keeps (boundary_stage cfg c' v').1 d (boundary_stage cfg c' v').2
          ((seen ++ quota ∷ policy ∷ []) ++ boundary ∷ []) in
      let decision = ap (λ (r : Run World). r.decision) ends ∙ kept.0 in
      (
        decision,
        ap (λ (x : KernelDecision). x.ticket) decision ∙ check_data_access-ticket c.subject ns,
        ap (λ (r : Run World). reserved_for c.subject r.state.budgets) ends
            ∙ ap (reserved_for c.subject) kept.1
            ∙ ap (λ (r : Outcome × Syscall × World). reserved_for c.subject r.2.budgets) at_d
            ∙ held,
      )
