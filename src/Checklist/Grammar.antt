-- ===== src/Checklist/Grammar.antt =====
-- The rules of office_connect/core/checklist/grammar.py: evaluation on every read, and validation when a
-- catalog is written. The messages of the validation errors are left out.
pub mod Meaning
pub mod Accepted
pub mod Unparseable
use office_connect.Base.{
  ℕ, ◌+◌, Bool, true, false, not, ◌&&◌, ◌||◌, Option, none, some, List, [], ◌∷◌, String, ltb, any,
  all, if◌then◌else◌,
}
use office_connect.Base.Attempts.{Attempt, ok, err, ◌>>=◌, ◌>>◌, guard}
use office_connect.Json.{Json, Items, Fields, lookup}
use office_connect.Checklist.Values.{Exception, resolve_field, cmp_eq, cmp_contains, cmp_gt}
use package.text.Mathlib.Text.{◌==◌ as str_eq}

abbrev pub max_rule_depth : ℕ
max_rule_depth = 8

pub data Reason : Type 0 where
  always condition_met condition_unmet empty_rule any_satisfied any_unsatisfied : Reason
  all_satisfied all_unsatisfied unparseable_rule : Reason

pub record RuleOutcome : Type 0 where
  pub required : Bool
  pub reason : Reason
  pub unparseable : Bool

abbrev pub Evaluated : Type 0
Evaluated = Attempt Exception RuleOutcome

abbrev pub unparseable_outcome : RuleOutcome
unparseable_outcome = record {
  required = false;
  reason = Reason.unparseable_rule;
  unparseable = true;
}

abbrev pub outcome : Bool → Reason → Reason → RuleOutcome
outcome required met unmet = record {
  required = required;
  reason = if required then met else unmet;
  unparseable = false;
}

-- the keys of `RULE_OPERATORS`
pub data Operator : Type 0 where
  always if_condition any_branch all_branches : Operator

abbrev pub read_operator : String → Option Operator
read_operator key =
    if str_eq key "always"
    then some Operator.always
    else if str_eq key "if"
    then some Operator.if_condition
    else if str_eq key "any"
    then some Operator.any_branch
    else if str_eq key "all"
    then some Operator.all_branches
    else none

pub data Comparator : Type 0 where
  eq contains gt : Comparator

abbrev pub read_comparator : String → Option Comparator
read_comparator key =
    if str_eq key "eq"
    then some Comparator.eq
    else if str_eq key "contains"
    then some Comparator.contains
    else if str_eq key "gt"
    then some Comparator.gt
    else none

abbrev pub compare_by : Comparator → Option Json → Json → Attempt Exception Bool
compare_by Comparator.eq actual expected = cmp_eq actual expected
compare_by Comparator.contains actual expected = cmp_contains actual expected
compare_by Comparator.gt actual expected = cmp_gt actual expected

-- `[key for key in operand if key != "field"]`, with the values
abbrev pub comparators : Fields → List (String × Json)
comparators Fields.end = []
comparators (Fields.field k v fields) =
    let rest = comparators fields in if str_eq k "field" then rest else (k, v) ∷ rest

abbrev pub compared : Fields → Json → Json → Option Comparator → Evaluated
compared facts path expected none = ok unparseable_outcome
compared facts path expected (some comparator) = do
  matched ← compare_by comparator (resolve_field facts path) expected
  ok (outcome matched Reason.condition_met Reason.condition_unmet)

abbrev pub with_comparator : Fields → Json → List (String × Json) → Evaluated
with_comparator facts path ((key, expected) ∷ []) =
    compared facts path expected (read_comparator key)
with_comparator facts path _ = ok unparseable_outcome

abbrev pub with_field : Fields → Fields → Option Json → Evaluated
with_field facts operand none = ok unparseable_outcome
with_field facts operand (some path) = with_comparator facts path (comparators operand)

-- `_evaluate_condition` of an object
unfoldable pub evaluate_condition : Fields → Fields → Evaluated
unfolding lookup
evaluate_condition facts operand = with_field facts operand (lookup "field" operand)

abbrev pub satisfied : Operator → List RuleOutcome → RuleOutcome
satisfied Operator.any_branch outcomes =
    outcome (any (λ o. o.required) outcomes) Reason.any_satisfied Reason.any_unsatisfied
satisfied _ outcomes =
    outcome (all (λ o. o.required) outcomes) Reason.all_satisfied Reason.all_unsatisfied

-- `_evaluate_junction`, once its branches are evaluated
abbrev pub junction : Operator → List RuleOutcome → RuleOutcome
junction operator outcomes =
    if any (λ o. o.unparseable) outcomes then unparseable_outcome else satisfied operator outcomes

abbrev pub on_bool : Option Operator → Bool → RuleOutcome
on_bool (some Operator.always) operand = outcome operand Reason.always Reason.empty_rule
on_bool operator operand = unparseable_outcome

abbrev pub on_object : Option Operator → Fields → Fields → Evaluated
on_object (some Operator.if_condition) facts operand = evaluate_condition facts operand
on_object operator facts operand = ok unparseable_outcome

abbrev pub on_list : Option Operator → Attempt Exception (List RuleOutcome) → Evaluated
on_list (some Operator.any_branch) outcomes =
    outcomes >>= λ os. ok (junction Operator.any_branch os)
on_list (some Operator.all_branches) outcomes =
    outcomes >>= λ os. ok (junction Operator.all_branches os)
on_list operator outcomes = ok unparseable_outcome

-- `if depth > MAX_RULE_DEPTH: return _UNPARSEABLE`
abbrev pub unless_deep : ℕ → Evaluated → Evaluated
unless_deep depth evaluated = if ltb max_rule_depth depth then ok unparseable_outcome else evaluated

unfoldable mutual
  -- `_evaluate`
  pub evaluate : Fields → ℕ → Json → Evaluated
  evaluate facts depth (Json.obj Fields.end) =
      unless_deep depth (ok (outcome false Reason.empty_rule Reason.empty_rule))
  evaluate facts depth (Json.obj (Fields.field key (Json.bool operand) Fields.end)) =
      unless_deep depth (ok (on_bool (read_operator key) operand))
  evaluate facts depth (Json.obj (Fields.field key (Json.obj operand) Fields.end)) =
      unless_deep depth (on_object (read_operator key) facts operand)
  evaluate facts depth (Json.obj (Fields.field key (Json.arr branches) Fields.end)) =
      let outcomes = evaluate_all facts (depth + 1) branches in
      unless_deep depth (on_list (read_operator key) outcomes)
  evaluate facts depth rule = ok unparseable_outcome

  -- the list comprehension over the branches
  pub evaluate_all : Fields → ℕ → Items → Attempt Exception (List RuleOutcome)
  evaluate_all facts depth Items.nil = ok []
  evaluate_all facts depth (Items.cons branch branches) =
      evaluate facts depth branch >>= λ o. evaluate_all facts depth branches >>= λ os. ok (o ∷ os)

unfoldable pub evaluate_required_rule : Fields → Json → Evaluated
unfolding evaluate
evaluate_required_rule facts rule = evaluate facts 0 rule

-- the codes of core/checklist/errors.py
pub data RuleError : Type 0 where
  invalid_rule unknown_rule_operator unknown_comparator : RuleError
  invalid_auto_check unknown_check_type : RuleError

abbrev pub Validated : Type 0
Validated = Attempt RuleError (Unit {0})

abbrev pub is_text : Json → Bool
is_text (Json.text s) = true
is_text other = false

abbrev pub validate_comparators : List (String × Json) → Validated
validate_comparators ((key, expected) ∷ []) = elim (read_comparator key) [
  | none ↦ err RuleError.unknown_comparator
  | some comparator ↦ ok tt
]
validate_comparators _ = err RuleError.invalid_rule

abbrev pub validate_path : Fields → Option Json → Validated
validate_path operand none = err RuleError.invalid_rule
validate_path operand (some path) =
    guard (is_text path) RuleError.invalid_rule >> validate_comparators (comparators operand)

abbrev pub validate_bool : Option Operator → Validated
validate_bool none = err RuleError.unknown_rule_operator
validate_bool (some Operator.always) = ok tt
validate_bool (some operator) = err RuleError.invalid_rule

abbrev pub validate_object : Option Operator → Fields → Validated
validate_object none operand = err RuleError.unknown_rule_operator
validate_object (some Operator.if_condition) operand =
    validate_path operand (lookup "field" operand)
validate_object (some operator) operand = err RuleError.invalid_rule

abbrev pub nonempty : Items → Bool
nonempty Items.nil = false
nonempty (Items.cons item items) = true

abbrev pub validate_list : Option Operator → Bool → Validated → Validated
validate_list none some_branch branches = err RuleError.unknown_rule_operator
validate_list (some Operator.any_branch) some_branch branches =
    guard some_branch RuleError.invalid_rule >> branches
validate_list (some Operator.all_branches) some_branch branches =
    guard some_branch RuleError.invalid_rule >> branches
validate_list (some operator) some_branch branches = err RuleError.invalid_rule

-- every other operand is refused, after the operator is looked up
abbrev pub validate_other : Option Operator → Validated
validate_other none = err RuleError.unknown_rule_operator
validate_other (some operator) = err RuleError.invalid_rule

abbrev pub unless_too_deep : ℕ → Validated → Validated
unless_too_deep depth validated =
    if ltb max_rule_depth depth then err RuleError.invalid_rule else validated

unfoldable mutual
  -- `_validate`
  pub validate : ℕ → Json → Validated
  validate depth (Json.obj (Fields.field key (Json.bool operand) Fields.end)) =
      unless_too_deep depth (validate_bool (read_operator key))
  validate depth (Json.obj (Fields.field key (Json.obj operand) Fields.end)) =
      unless_too_deep depth (validate_object (read_operator key) operand)
  validate depth (Json.obj (Fields.field key (Json.arr branches) Fields.end)) =
      let rest = validate_all (depth + 1) branches in
      unless_too_deep depth (validate_list (read_operator key) (nonempty branches) rest)
  validate depth (Json.obj (Fields.field key operand Fields.end)) =
      unless_too_deep depth (validate_other (read_operator key))
  validate depth rule = err RuleError.invalid_rule

  -- the loop over the branches
  pub validate_all : ℕ → Items → Validated
  validate_all depth Items.nil = ok tt
  validate_all depth (Items.cons branch branches) =
      validate depth branch >>= λ done. validate_all depth branches

unfoldable pub validate_required_rule : Json → Validated
unfolding validate
validate_required_rule rule = validate 0 rule
