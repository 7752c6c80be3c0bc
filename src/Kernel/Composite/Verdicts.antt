-- ===== src/Kernel/Composite/Verdicts.antt =====
-- What the policies that an agent refers to can answer.
use helios_os.Prelude.{
  Bool, true, false, ◌≡◌, ◌⊎◌, refl, sym, ap, Option, none, some, List, [], ◌∷◌, arith,
  Option-cases, inl, inr,
}
use mathlib.Core.Path.{subst}
use helios_os.Kernel.Json.{Value}
use helios_os.Kernel.Decision.{
  KernelDecision, allowing, denying, denied, needs_human, policies_permit, policy_denies,
  policy_missing,
}
use helios_os.Kernel.Policy.{
  Conversions, PolicyRef, PolicyEngine, Rule, Verdict, evaluate_from, resolve,
  evaluate_rule_tristate,
}
use helios_os.Kernel.Composite.Refusals.{Clears}

-- Policies deny, ask a human or permit, where they do not raise.
abbrev pub IsVerdict : Option KernelDecision → Type 0
IsVerdict none = Unit
IsVerdict (some d) = (denied d ≡ true) ⊎ (needs_human d ≡ true) ⊎ (d ≡ allowing policies_permit)

module _ (conv : Conversions) (policies : PolicyEngine) (context : Value) where
  module _ (asked : Bool) (r : PolicyRef) (rs : List PolicyRef) where
    -- The policies from `r` on, and those after it with and without its asking.
    abbrev from_here : Option KernelDecision
    from_here = evaluate_from conv policies asked (r ∷ rs) context

    missing-IsVerdict : resolve policies r ≡ none → IsVerdict from_here
    unfolding evaluate_from denied
    missing-IsVerdict e =
        let p : from_here ≡ some (denying policy_missing) = ground arith in
        subst IsVerdict (sym p) (inl refl)

    raising-IsVerdict :
        (rule : Rule)
        → resolve policies r ≡ some rule
        → evaluate_rule_tristate conv rule context ≡ none
        → IsVerdict from_here
    unfolding evaluate_from
    raising-IsVerdict rule e f =
        let p : from_here ≡ none = ground arith in subst IsVerdict (sym p) tt

    verdict-IsVerdict :
        (rule : Rule) (v : Verdict)
        → resolve policies r ≡ some rule
        → evaluate_rule_tristate conv rule context ≡ some v
        → IsVerdict (evaluate_from conv policies true rs context)
        → IsVerdict (evaluate_from conv policies asked rs context)
        → IsVerdict from_here
    unfolding evaluate_from denied
    verdict-IsVerdict rule Verdict.deny e f h k =
        let p : from_here ≡ some (denying policy_denies) = ground arith in
        subst IsVerdict (sym p) (inl refl)
    verdict-IsVerdict rule Verdict.ask e f h k =
        let p : from_here ≡ evaluate_from conv policies true rs context = ground arith in
        subst IsVerdict (sym p) h
    verdict-IsVerdict rule Verdict.allow e f h k =
        let p : from_here ≡ evaluate_from conv policies asked rs context = ground arith in
        subst IsVerdict (sym p) k

  pub evaluate_from-IsVerdict :
      (asked : Bool) (refs : List PolicyRef)
      → IsVerdict (evaluate_from conv policies asked refs context)
  unfolding evaluate_from denied needs_human
  evaluate_from-IsVerdict true [] = inr (inl refl)
  evaluate_from-IsVerdict false [] = inr (inr refl)
  evaluate_from-IsVerdict asked (r ∷ rs) = elim (Option-cases (resolve policies r)) [
    | inl e ↦ missing-IsVerdict asked r rs e
    | inr (rule, e) ↦ elim (Option-cases (evaluate_rule_tristate conv rule context)) [
      | inl f ↦ raising-IsVerdict asked r rs rule e f
      | inr (v, f) ↦
          verdict-IsVerdict asked r rs rule v e f (evaluate_from-IsVerdict true rs)
            (evaluate_from-IsVerdict asked rs)
    ]
  ]

  pub Clears-permits :
      (o : Option KernelDecision) → IsVerdict o → Clears o → o ≡ some (allowing policies_permit)
  Clears-permits none v (d, e, k, n) = absurd (ground arith)
  Clears-permits (some c) (inl h) (d, e, k, n) = absurd (cc)
  Clears-permits (some c) (inr (inl h)) (d, e, k, n) = absurd (cc)
  Clears-permits (some c) (inr (inr h)) (d, e, k, n) = ap some h
