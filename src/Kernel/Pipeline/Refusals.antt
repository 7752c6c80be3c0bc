-- ===== src/Kernel/Pipeline/Refusals.antt =====
-- What a refusal and an exception of a stage lead to.
use helios_os.Prelude.{
  false, ◌≡◌, ◌∙◌, refl, Option, none, some, Option-cases, inl, inr, List, [], ◌∷◌, ◌++◌,
}
use helios_os.Kernel.Decision.{KernelDecision, allowed, denying, stage_crashed}
use helios_os.Kernel.Pipeline.{
  Syscall, StageName, stage_order, is_audit, audit, Run, crash, decided, Stage, Stages,
  run_audit_on_deny, stop, run,
}
use helios_os.Kernel.Pipeline.Order.{Through, run_from-Through, stopped_run, crashed_run}

-- How a run ends that is refused with `d`: the audit stage, where there is one, is called once, with
-- the denial attached, and nothing that it answers changes the decision.
abbrev pub audited :
    {S : Type 0} → Option (Stage S) → Syscall → S → KernelDecision → List StageName → Run S
audited none call s d called = record { decision = d; call = call; state = s; called = called }
audited (some stage) call s d called = record {
  decision = d;
  call = (stage (record call { last_decision = some d }) s).1;
  state = (stage (record call { last_decision = some d }) s).2;
  called = called ++ audit ∷ [];
}

module _ {S : Type 0} (stages : Stages S) where
  pub refused_run :
      (before after seen : List StageName) (name : StageName) (call call' : Syscall) (s s' : S)
      (stage : Stage S) (d : KernelDecision)
      → stage_order ≡ before ++ name ∷ after
      → Through stages before call s seen call' s'
      → stages name ≡ some stage
      → (stage call' s').0 ≡ decided d
      → allowed d ≡ false
      → is_audit name ≡ false
      → run stages call s
        ≡ run_audit_on_deny stages (stage call' s').1 d (stage call' s').2 (seen ++ name ∷ [])
  unfolding run stop
  refused_run before after seen name call call' s s' stage d split t e o refused plain = rw split (
      run_from-Through stages (name ∷ after) [] t
      ∙ stopped_run stages after seen name call' s' stage d e o refused
      ∙ rw plain)

  audited_lem :
      (call : Syscall) (s : S) (d : KernelDecision) (called : List StageName)
      → run_audit_on_deny stages call d s called ≡ audited (stages audit) call s d called
  unfolding run_audit_on_deny
  audited_lem call s d called = elim (Option-cases (stages audit)) [
    | inl e ↦ rw (e, run_audit_on_deny) refl
    | inr (stage, e) ↦ rw (e, run_audit_on_deny) refl
  ]

  -- A stage other than audit that is reached and decides against the syscall ends the run with its
  -- decision, whatever the audit stage then answers: the audit stage, where there is one, is called
  -- with the denial attached to the syscall, and no other stage is called.
  pub refusal_is_audited :
      (before after seen : List StageName) (name : StageName) (call call' : Syscall) (s s' : S)
      (stage : Stage S) (d : KernelDecision)
      → stage_order ≡ before ++ name ∷ after
      → Through stages before call s seen call' s'
      → stages name ≡ some stage
      → (stage call' s').0 ≡ decided d
      → allowed d ≡ false
      → is_audit name ≡ false
      → run stages call s
        ≡ audited (stages audit) (stage call' s').1 (stage call' s').2 d (seen ++ name ∷ [])
  refusal_is_audited before after seen name call call' s s' stage d split t e o refused plain =
      refused_run before after seen name call call' s s' stage d split t e o refused plain
      ∙ audited_lem (stage call' s').1 (stage call' s').2 d (seen ++ name ∷ [])

  -- A stage that is reached and raises ends the run with a denial, and no further stage is called:
  -- unless it is the audit stage itself, audit does not see the syscall.
  pub crash_is_not_audited :
      (before after seen : List StageName) (name : StageName) (call call' : Syscall) (s s' : S)
      (stage : Stage S)
      → stage_order ≡ before ++ name ∷ after
      → Through stages before call s seen call' s'
      → stages name ≡ some stage
      → (stage call' s').0 ≡ crash
      → run stages call s ≡ record {
        decision = denying stage_crashed;
        call = (stage call' s').1;
        state = (stage call' s').2;
        called = seen ++ name ∷ [];
      }
  unfolding run
  crash_is_not_audited before after seen name call call' s s' stage split t e o = rw split (
      run_from-Through stages (name ∷ after) [] t
      ∙ crashed_run stages after seen name call' s' stage e o)
