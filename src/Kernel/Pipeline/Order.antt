-- ===== src/Kernel/Pipeline/Order.antt =====
-- The order of the stages, short-circuits and the audit of denials, for every choice of stages.
use helios_os.Prelude.{
  Bool, true, false, ◌≡◌, ◌⊎◌, refl, ◌∙◌, ap, none, some, List, [], ◌∷◌, ◌++◌, arith, inl, inr,
  Bool-cases, Option-cases,
}
use mathlib.Core.List.{append-nil, append_assoc}
use helios_os.Kernel.Decision.{KernelDecision, allowed, denying, stage_crashed}
use helios_os.Kernel.Pipeline.{
  Syscall, StageName, stage_order, Outcome, pass, crash, decided, Stage, Stages, Run,
  run_audit_on_deny, after_stage, final_allow, stop, run_from, run,
}

-- The stage continues, or allows.
abbrev pub goes_on : Outcome → Bool
goes_on pass = true
goes_on crash = false
goes_on (decided d) = allowed d

-- A stage goes on, raises, or decides against the syscall.
outcome_cases :
    (o : Outcome)
    → (goes_on o ≡ true)
      ⊎ (o ≡ crash)
      ⊎ ((d : KernelDecision) × (o ≡ decided d) × (allowed d ≡ false))
outcome_cases pass = inl refl
outcome_cases crash = inr (inl refl)
outcome_cases (decided d) = elim (Bool-cases (allowed d)) [
  | inl h ↦ inl h
  | inr h ↦ inr (inr (d, refl, h))
]

module _ {S : Type 0} (stages : Stages S) where
  after_stage-on :
      (on : Syscall → S → List StageName → Run S) (name : StageName) (o : Outcome) (call : Syscall)
      (s : S) (seen : List StageName)
      → goes_on o ≡ true
      → after_stage stages on name o call s seen ≡ on call s seen
  unfolding after_stage
  after_stage-on on name pass call s seen h = refl
  after_stage-on on name crash call s seen h = cc
  after_stage-on on name (decided d) call s seen h = rw h

  -- The stages of a list let the syscall through, with what it and the state become: each of them
  -- is absent, continues or allows.
  pub data Through : List StageName → Syscall → S → List StageName → Syscall → S → Type 0 where
    done : (call : Syscall) (s : S) → Through [] call s [] call s
    absent :
        {name : StageName} {names seen : List StageName} {call call' : Syscall} {s s' : S}
        → stages name ≡ none
        → Through names call s seen call' s'
        → Through (name ∷ names) call s seen call' s'
    step :
        {name : StageName} {names seen : List StageName} {call call' : Syscall} {s s' : S}
        (stage : Stage S)
        → stages name ≡ some stage
        → goes_on (stage call s).0 ≡ true
        → Through names (stage call s).1 (stage call s).2 seen call' s'
        → Through (name ∷ names) call s (name ∷ seen) call' s'

  run_from-absent :
      (name : StageName) (names : List StageName) (call : Syscall) (s : S) (called : List StageName)
      → stages name ≡ none
      → run_from stages (name ∷ names) call s called ≡ run_from stages names call s called
  unfolding run_from
  run_from-absent name names call s called e = rw (e, run_from)

  run_from-stage :
      (name : StageName) (names : List StageName) (call : Syscall) (s : S) (called : List StageName)
      (stage : Stage S)
      → stages name ≡ some stage
      → run_from stages (name ∷ names) call s called
        ≡ after_stage stages
            (run_from stages names)
            name
            (stage call s).0
            (stage call s).1
            (stage call s).2
            (called ++ name ∷ [])
  unfolding run_from
  run_from-stage name names call s called stage e = rw (e, run_from)

  pub run_from-Through :
      {names seen : List StageName} {call call' : Syscall} {s s' : S} (rest called : List StageName)
      → Through names call s seen call' s'
      → run_from stages (names ++ rest) call s called
        ≡ run_from stages rest call' s' (called ++ seen)
  run_from-Through rest called (done call s) = rw (append-nil called)
  run_from-Through rest called (absent {name = name} {names = names} {call = call} {s = s} e t) =
      run_from-absent name (names ++ rest) call s called e ∙ run_from-Through rest called t
  run_from-Through rest called
        (step {name = name} {names = names} {seen = seen} {call = call} {s = s} stage e h t) =
      run_from-stage name (names ++ rest) call s called stage e
      ∙ after_stage-on (run_from stages (names ++ rest)) name (stage call s).0 (stage call s).1
          (stage call s).2 (called ++ name ∷ []) h
      ∙ run_from-Through rest (called ++ name ∷ []) t
      ∙ ap (run_from stages rest _ _) (append_assoc called (name ∷ []) seen)

  -- What a stage that is reached and decides against the syscall leads to.
  pub stopped_run :
      (rest called : List StageName) (name : StageName) (call : Syscall) (s : S) (stage : Stage S)
      (d : KernelDecision)
      → stages name ≡ some stage
      → (stage call s).0 ≡ decided d
      → allowed d ≡ false
      → run_from stages (name ∷ rest) call s called
        ≡ stop stages name (stage call s).1 d (stage call s).2 (called ++ name ∷ [])
  unfolding after_stage
  stopped_run rest called name call s stage d e o refused =
      run_from-stage name rest call s called stage e ∙ rw (o, after_stage) (rw refused)

  pub crashed_run :
      (rest called : List StageName) (name : StageName) (call : Syscall) (s : S) (stage : Stage S)
      → stages name ≡ some stage
      → (stage call s).0 ≡ crash
      → run_from stages (name ∷ rest) call s called ≡ record {
        decision = denying stage_crashed;
        call = (stage call s).1;
        state = (stage call s).2;
        called = called ++ name ∷ [];
      }
  unfolding after_stage
  crashed_run rest called name call s stage e o =
      run_from-stage name rest call s called stage e ∙ rw (o, after_stage)

  -- Where every stage lets the syscall through, it is allowed, with the budget ticket that the
  -- stages attached, after each stage that is there was called once, in the fixed order.
  pub run-Through :
      (call call' : Syscall) (s s' : S) (seen : List StageName)
      → Through stage_order call s seen call' s'
      → run stages call s
        ≡ record { decision = final_allow stages call'; call = call'; state = s'; called = seen }
  unfolding run run_from
  run-Through call call' s s' seen t = run_from-Through [] [] t

  final_allow-allowed : (call : Syscall) → allowed (final_allow stages call) ≡ true
  unfolding final_allow allowed
  final_allow-allowed call = refl

  crash_denies : allowed (denying stage_crashed) ≡ true → ⊥
  unfolding allowed
  crash_denies h = cc

  refused_denies :
      (d : KernelDecision) (name : StageName) (call : Syscall) (s : S) (seen : List StageName)
      → allowed d ≡ false
      → allowed (stop stages name call d s seen).decision ≡ true
      → ⊥
  unfolding stop run_audit_on_deny
  refused_denies d name call s seen refused h = ground arith

  run_from-allowed :
      (names called : List StageName) (call : Syscall) (s : S)
      → allowed (run_from stages names call s called).decision ≡ true
      → (seen : List StageName) × (call' : Syscall) × (s' : S) × Through names call s seen call' s'
  run_from-allowed [] called call s h = ([], call, s, done call s)
  run_from-allowed (name ∷ names) called call s h = elim (Option-cases (stages name)) [
    | inl e ↦
        let (seen, call', s', t) =
          run_from-allowed names called call s
            (rw (run_from-absent name names call s called e) at h) in
        (seen, call', s', absent e t)
    | inr (stage, e) ↦ elim (outcome_cases (stage call s).0) [
      | inl on ↦
          let (seen, call', s', t) =
            run_from-allowed names (called ++ name ∷ []) (stage call s).1 (stage call s).2 (
              rw
                (
                  run_from-stage name names call s called stage e,
                  after_stage-on (run_from stages names) name (stage call s).0 (stage call s).1
                      (stage call s).2 (called ++ name ∷ []) on,
                )
                at h) in
          (name ∷ seen, call', s', step stage e on t)
      | inr (inl c) ↦
          absurd (crash_denies (rw (crashed_run names called name call s stage e c) at h))
      | inr (inr (d, o, refused)) ↦ absurd (
          refused_denies d name (stage call s).1 (stage call s).2 (called ++ name ∷ []) refused
            (rw (stopped_run names called name call s stage d e o refused) at h))
    ]
  ]

  -- No syscall is allowed unless every stage that is there continued or allowed, and then each of
  -- them was called exactly once, in the fixed order, each on what the one before it left.
  pub allowed_only-Through :
      (call : Syscall) (s : S)
      → allowed (run stages call s).decision ≡ true
      → (seen : List StageName) × (call' : Syscall) × (s' : S) × Through stage_order call s seen
          call' s'
        × ((run stages call s).called ≡ seen)
  unfolding run
  allowed_only-Through call s h =
      let (seen, call', s', t) = run_from-allowed stage_order [] call s h in
      (seen, call', s', t, ap (λ (r : Run S). r.called) (run-Through call call' s s' seen t))

  -- What `Through` says of its first stage, where that is there.
  pub Through-first :
      {name : StageName} {names seen : List StageName} {call call' : Syscall} {s s' : S}
      (stage : Stage S)
      → stages name ≡ some stage
      → Through (name ∷ names) call s seen call' s'
      → (goes_on (stage call s).0 ≡ true)
        × (later : List StageName) × Through names (stage call s).1 (stage call s).2 later call' s'
  Through-first stage e (absent none_there t) = absurd (cc)
  Through-first stage e (step {seen = seen} found there h t) =
      let same : found ≡ stage = cc in (rw same at h, seen, rw same at t)

  pub Through-append :
      {before after seen later : List StageName} {call c call' : Syscall} {s v s' : S}
      → Through before call s seen c v
      → Through after c v later call' s'
      → Through (before ++ after) call s (seen ++ later) call' s'
  Through-append (done call s) u = u
  Through-append (absent e t) u = absent e (Through-append t u)
  Through-append (step stage e h t) u = step stage e h (Through-append t u)
