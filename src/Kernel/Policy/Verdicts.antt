-- ===== src/Kernel/Policy/Verdicts.antt =====
-- The verdict of a list of policies: a denial wins over a request for approval.
use helios_os.Prelude.{
  Bool, true, false, ◌||◌, ◌≡◌, Option, none, some, List, [], ◌∷◌, ◌++◌, arith, All, any,
  if◌then◌else◌,
}
use helios_os.Kernel.Json.{Value}
use helios_os.Kernel.Decision.{
  KernelDecision, decide_as, allowing, denying, ask_human, policy_asks, policies_permit,
  policy_denies, policy_missing,
}
use helios_os.Kernel.Policy.{
  Conversions, PolicyRef, PolicyEngine, Verdict, evaluate_rule_tristate, resolve, evaluate_from,
  evaluate,
}

-- What one policy reference says of a context.
pub data Outcome : Type 0 where
  missing raises : Outcome
  gives : Verdict → Outcome

module _ (conv : Conversions) (policies : PolicyEngine) (context : Value) where
  unfoldable pub outcome : PolicyRef → Outcome
  outcome ref = elim (resolve policies ref) [
    | none ↦ missing
    | some rule ↦ elim (evaluate_rule_tristate conv rule context) [
      | none ↦ raises
      | some v ↦ gives v
    ]
  ]

  -- Neither missing, raising nor denying.
  unfoldable pub passes : PolicyRef → Bool
  passes ref = elim (outcome ref) [
    | gives Verdict.ask ↦ true
    | gives Verdict.allow ↦ true
    | _ ↦ false
  ]

  unfoldable pub asks : PolicyRef → Bool
  asks ref = elim (outcome ref) [ gives Verdict.ask ↦ true | _ ↦ false ]

  evaluate_from-pass :
      (asked : Bool) (refs : List PolicyRef)
      → All (λ r. passes r ≡ true) refs
      → evaluate_from conv policies asked refs context ≡ (
          if asked || any asks refs
          then some (decide_as ask_human policy_asks)
          else some (allowing policies_permit))
  unfolding evaluate_from passes asks outcome any
  evaluate_from-pass asked [] h = ground arith
  evaluate_from-pass asked (r ∷ rs) h =
      ground (arith, evaluate_from-pass true rs h.1, evaluate_from-pass asked rs h.1)

  -- Where no policy is missing, raises or denies, the decision is to ask a human if some policy
  -- asks, and to allow if none does.
  evaluate_pass :
      (refs : List PolicyRef)
      → All (λ r. passes r ≡ true) refs
      → evaluate conv policies refs context ≡ (
          if any asks refs
          then some (decide_as ask_human policy_asks)
          else some (allowing policies_permit))
  unfolding evaluate
  evaluate_pass refs h = evaluate_from-pass false refs h

  -- The decision that the first policy which does not pass ends the run with.
  abbrev pub stop_at : Outcome → Option KernelDecision
  stop_at missing = some (denying policy_missing)
  stop_at raises = none
  stop_at (gives v) = some (denying policy_denies)

  evaluate_from-stop :
      (asked : Bool) (before after : List PolicyRef) (ref : PolicyRef)
      → All (λ r. passes r ≡ true) before
      → passes ref ≡ false
      → evaluate_from conv policies asked (before ++ ref ∷ after) context ≡ stop_at (outcome ref)
  unfolding evaluate_from passes outcome
  evaluate_from-stop asked [] after ref h k = ground arith
  evaluate_from-stop asked (r ∷ before) after ref h k = ground (
    arith,
    evaluate_from-stop true before after ref h.1 k,
    evaluate_from-stop asked before after ref h.1 k,
  )

  -- The first policy that is missing, raises or denies decides, whatever policies before it asked
  -- for and whatever comes after it: a missing one and a denying one deny the action.
  evaluate_stop :
      (before after : List PolicyRef) (ref : PolicyRef)
      → All (λ r. passes r ≡ true) before
      → passes ref ≡ false
      → evaluate conv policies (before ++ ref ∷ after) context ≡ stop_at (outcome ref)
  unfolding evaluate
  evaluate_stop before after ref h k = evaluate_from-stop false before after ref h k
