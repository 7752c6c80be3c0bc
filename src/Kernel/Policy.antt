-- ===== src/Kernel/Policy.antt =====
-- Declarative rules: `_get_field`, `_eval_predicate`, `evaluate_rule_tristate` and class
-- `PolicyEngine` (src/platform/kernel/_facade.py). `none` as the result of a predicate is the
-- `TypeError` of `in` on a value that holds no items.
pub mod Verdicts
use helios_os.Prelude.{
  ℕ, String, str_eq, Bool, true, false, not, ◌&&◌, ◌||◌, Option, none, some, List, [], ◌∷◌, Dict,
  get, put, ltb, any, if◌then◌else◌,
}
use text.Mathlib.Text.{starts_with}
use helios_os.Kernel.Json.{
  Value, null, bool, num, str, list, dict, Items, no_items, item, Fields, field_of, has_key,
  value_eq, in_items, truthy, bit,
}
use helios_os.Kernel.Glob.{ends_with, substring, split_dots, single}
use helios_os.Kernel.Decision.{
  KernelDecision, decide_as, allowing, denying, ask_human, policy_missing, policy_denies,
  policy_asks, policies_permit,
}

-- Python's conversions that the predicates call: `str(v)` of a value that is no text, and
-- `float(text)`, `none` where that raises `ValueError`.
pub record Conversions : Type 0 where
  pub repr : Value → String
  pub float_of : String → Option ℕ

-- `{op, field, value}`, each as `pred.get` reads it.
pub record Predicate : Type 0 where
  pub op : Option String
  pub path : Option String
  pub value : Value
  pub is_empty : Bool

pub record Rule : Type 0 where
  pub deny_if : Option Predicate
  pub ask_human_if : Option Predicate
  pub is_empty : Bool

unfoldable pub step_field : Value → String → Value
step_field (dict fs) part = field_of part fs
step_field _ part = null

unfoldable pub walk : Value → List String → Value
unfolding step_field
walk v [] = v
walk v (p ∷ ps) = walk (step_field v p) ps

abbrev pub text_or : Option String → String → String
text_or none d = d
text_or (some s) d = s

-- `_get_field(context, path)`
unfoldable pub get_field : Value → String → Value
unfolding walk split_dots
get_field context path = walk context (split_dots path)

unfoldable pub keys_of : Fields → List String
keys_of Fields.no_fields = []
keys_of (Fields.field k v fs) = k ∷ keys_of fs

unfoldable pub characters : String → List String
characters String.[] = []
characters (String.◌∷◌ c s) = single c ∷ characters s

pub data Verdict : Type 0 where
  deny ask allow : Verdict

module _ (conv : Conversions) where
  unfoldable pub to_str : Value → String
  to_str (str s) = s
  to_str v = conv.repr v

  -- `float(v)`, `none` where it raises.
  unfoldable pub to_float : Value → Option ℕ
  to_float (num n) = some n
  to_float (bool b) = some (bit b)
  to_float (str s) = conv.float_of s
  to_float _ = none

  -- `isinstance(actual, str) and test(actual)`
  abbrev pub on_text : Value → (String → Bool) → Bool
  on_text (str s) test = test s
  on_text _ test = false

  unfoldable pub texts_of : Items → List String
  unfolding to_str
  texts_of no_items = []
  texts_of (item v vs) = to_str v ∷ texts_of vs

  -- `[str(s) for s in (value or [])]`: a text is run through by characters, a dictionary by keys;
  -- `none` where the value cannot be run through.
  unfoldable pub suffixes : Value → Option (List String)
  unfolding texts_of
  suffixes null = some []
  suffixes (list xs) = some (texts_of xs)
  suffixes (str t) = some (characters t)
  suffixes (dict fs) = some (keys_of fs)
  suffixes v = if truthy v then none else some []

  abbrev pub both : Option ℕ → Option ℕ → (ℕ → ℕ → Bool) → Bool
  both (some a) (some b) test = test a b
  both _ _ test = false

  -- `actual in (target or [])`
  unfoldable pub is_in : Value → Value → Option Bool
  is_in actual (dict fs) = elim actual [
    | str k ↦ some (has_key k fs)
    | list xs ↦ elim fs [ Fields.no_fields ↦ some false | Fields.field k v r ↦ none ]
    | dict gs ↦ elim fs [ Fields.no_fields ↦ some false | Fields.field k v r ↦ none ]
    | _ ↦ some false
  ]
  is_in (str s) (str t) = some (if str_eq t "" then false else substring s t)
  is_in actual (str t) = if str_eq t "" then some false else none
  is_in actual null = some false
  is_in actual (list xs) = some (in_items actual xs)
  is_in actual target = if truthy target then none else some false

  abbrev pub negate : Option Bool → Option Bool
  negate none = none
  negate (some b) = some (not b)

  -- `any(actual.endswith(str(s)) for s in (target or []))`
  unfoldable pub suffix_test : Value → Value → Option Bool
  unfolding suffixes
  suffix_test (str s) target = elim (suffixes target) [
    | none ↦ none
    | some xs ↦ some (any (ends_with s) xs)
  ]
  suffix_test _ target = some false

  unfoldable pub not_suffix_test : Value → Value → Option Bool
  unfolding suffixes
  not_suffix_test (str s) target = elim (suffixes target) [
    | none ↦ none
    | some xs ↦ some (not (any (ends_with s) xs))
  ]
  not_suffix_test _ target = some false

  -- The ladder of `op` tests in `_eval_predicate`.
  unfoldable pub eval_op : String → Value → Value → Option Bool
  eval_op op actual target =
      if str_eq op "equals"
      then some (value_eq actual target)
      else if str_eq op "contains"
      then some (on_text actual (λ s. substring (to_str target) s))
      else if str_eq op "startswith"
      then some (on_text actual (λ s. starts_with s (to_str target)))
      else if str_eq op "endswith"
      then some (on_text actual (λ s. ends_with s (to_str target)))
      else if str_eq op "gt"
      then some (both (to_float actual) (to_float target) (λ a b. ltb b a))
      else if str_eq op "lt"
      then some (both (to_float actual) (to_float target) (λ a b. ltb a b))
      else if str_eq op "in"
      then is_in actual target
      else if str_eq op "not_in"
      then negate (is_in actual target)
      else if str_eq op "endswith_any"
      then suffix_test actual target
      else if str_eq op "not_endswith_any"
      then not_suffix_test actual target
      else some false

  -- `_eval_predicate(pred, context)`
  unfoldable pub eval_predicate : Predicate → Value → Option Bool
  eval_predicate pred context =
      eval_op (text_or pred.op "equals") (get_field context (text_or pred.path "")) pred.value

  -- A clause of a rule: absent or empty it does not fire; `none` where its predicate raises.
  unfoldable pub fires : Option Predicate → Value → Option Bool
  unfolding eval_predicate
  fires none context = some false
  fires (some pred) context = if pred.is_empty then some false else eval_predicate pred context

  -- `evaluate_rule_tristate(rule, context)`
  unfoldable pub evaluate_rule_tristate : Rule → Value → Option Verdict
  evaluate_rule_tristate rule context = elim (fires rule.deny_if context) [
    | none ↦ none
    | some true ↦ some Verdict.deny
    | some false ↦ elim (fires rule.ask_human_if context) [
      | none ↦ none
      | some true ↦ some Verdict.ask
      | some false ↦ some Verdict.allow
    ]
  ]

-- A policy reference: `ref.get("name")`, `ref.get("inline")`.
pub record PolicyRef : Type 0 where
  pub name : String
  pub inline : Option Rule

abbrev pub PolicyEngine : Type 0
PolicyEngine = Dict Rule

unfoldable pub load_policy : String → Rule → PolicyEngine → PolicyEngine
load_policy name rule policies = put name rule policies

-- An empty rule is false.
abbrev pub nonempty : Option Rule → Option Rule
nonempty none = none
nonempty (some r) = if r.is_empty then none else some r

-- `ref.get("inline") or self._policies.get(policy_name)`, `none` where the result is false.
unfoldable pub resolve : PolicyEngine → PolicyRef → Option Rule
resolve policies ref = elim (nonempty ref.inline) [
  | some r ↦ some r
  | none ↦ nonempty (get ref.name policies)
]

module _ (conv : Conversions) (policies : PolicyEngine) where
  -- The loop of `PolicyEngine.evaluate`; `asked` is `ask_human_policy is not None`.
  unfoldable pub evaluate_from : Bool → List PolicyRef → Value → Option KernelDecision
  evaluate_from asked [] context =
      if asked then some (decide_as ask_human policy_asks) else some (allowing policies_permit)
  evaluate_from asked (ref ∷ refs) context =
      let on = λ (a : Bool). evaluate_from a refs context in
      elim (resolve policies ref) [
        | none ↦ some (denying policy_missing)
        | some rule ↦ elim (evaluate_rule_tristate conv rule context) [
          | none ↦ none
          | some Verdict.deny ↦ some (denying policy_denies)
          | some Verdict.ask ↦ on true
          | some Verdict.allow ↦ on asked
        ]
      ]

  -- `PolicyEngine.evaluate(policy_refs, context)`; `none` where a predicate raises.
  unfoldable pub evaluate : List PolicyRef → Value → Option KernelDecision
  unfolding evaluate_from
  evaluate refs context = evaluate_from false refs context
