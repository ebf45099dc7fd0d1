-- ===== src/Checklist/Grammar/Unparseable.antt =====
-- core/checklist/grammar.py: rules that evaluation cannot read.
use office_connect.Base.{
  ℕ, ◌+◌, ◌≡◌, refl, subst, Bool, true, false, Option, none, some, List, [], ◌∷◌, String, ltb,
  arith, inl, inr, Bool-cases,
}
use office_connect.Base.Attempts.{Attempt, ok, >>=-eq-ok, ok-injective}
use office_connect.Json.{Json, Fields, lookup}
use office_connect.Checklist.Values.{Exception, resolve_field}
use office_connect.Checklist.Grammar.{
  Operator, read_operator, Comparator, read_comparator, compare_by, comparators, max_rule_depth,
  RuleOutcome, Reason, Evaluated, unparseable_outcome, outcome, evaluate_condition, with_field,
  with_comparator, compared, junction, on_bool, on_object, on_list, unless_deep, evaluate,
  evaluate_all, evaluate_required_rule,
}

abbrev Spares : RuleOutcome → Type 0
Spares o = o.unparseable ≡ true → o.required ≡ false

abbrev AllSpare : Evaluated → Type 0
AllSpare m = (o : RuleOutcome) → m ≡ ok o → Spares o

spare : (o : RuleOutcome) → Spares o → AllSpare (ok o)
spare o s p h = subst Spares (ok-injective h) s

spare_outcome : (required : Bool) (met unmet : Reason) → Spares (outcome required met unmet)
spare_outcome required met unmet h = cc

spare_bool : (op : Option Operator) (b : Bool) → Spares (on_bool op b)
spare_bool (some Operator.always) b h = cc
spare_bool none b h = refl
spare_bool (some Operator.if_condition) b h = refl
spare_bool (some Operator.any_branch) b h = refl
spare_bool (some Operator.all_branches) b h = refl

spare_compared :
    (facts : Fields) (path expected : Json) (c : Option Comparator)
    → AllSpare (compared facts path expected c)
spare_compared facts path expected none o h = spare unparseable_outcome (λ k. refl) o h
spare_compared facts path expected (some c) o h =
    let (matched, ran, rest) = >>=-eq-ok (compare_by c (resolve_field facts path) expected) _ h in
    spare (outcome matched Reason.condition_met Reason.condition_unmet) (λ k. cc) o rest

spare_comparator :
    (facts : Fields) (path : Json) (entries : List (String × Json))
    → AllSpare (with_comparator facts path entries)
spare_comparator facts path [] = spare unparseable_outcome (λ h. refl)
spare_comparator facts path ((key, expected) ∷ []) =
    spare_compared facts path expected (read_comparator key)
spare_comparator facts path (entry ∷ other ∷ entries) = spare unparseable_outcome (λ h. refl)

spare_field :
    (facts operand : Fields) (path : Option Json) → AllSpare (with_field facts operand path)
spare_field facts operand none = spare unparseable_outcome (λ h. refl)
spare_field facts operand (some path) = spare_comparator facts path (comparators operand)

spare_object :
    (facts operand : Fields) (op : Option Operator) → AllSpare (on_object op facts operand)
unfolding evaluate_condition
spare_object facts operand (some Operator.if_condition) =
    spare_field facts operand (lookup "field" operand)
spare_object facts operand none = spare unparseable_outcome (λ h. refl)
spare_object facts operand (some Operator.always) = spare unparseable_outcome (λ h. refl)
spare_object facts operand (some Operator.any_branch) = spare unparseable_outcome (λ h. refl)
spare_object facts operand (some Operator.all_branches) = spare unparseable_outcome (λ h. refl)

spare_junction : (op : Operator) (os : List RuleOutcome) → Spares (junction op os)
spare_junction Operator.any_branch os h = ground arith
spare_junction Operator.all_branches os h = ground arith
spare_junction Operator.always os h = ground arith
spare_junction Operator.if_condition os h = ground arith

spare_list :
    (op : Option Operator) (outcomes : Attempt Exception (List RuleOutcome))
    → AllSpare (on_list op outcomes)
spare_list (some Operator.any_branch) outcomes o h =
    let (os, ran, rest) = >>=-eq-ok outcomes _ h in
    spare (junction Operator.any_branch os) (spare_junction Operator.any_branch os) o rest
spare_list (some Operator.all_branches) outcomes o h =
    let (os, ran, rest) = >>=-eq-ok outcomes _ h in
    spare (junction Operator.all_branches os) (spare_junction Operator.all_branches os) o rest
spare_list none outcomes o h = spare unparseable_outcome (λ k. refl) o h
spare_list (some Operator.always) outcomes o h = spare unparseable_outcome (λ k. refl) o h
spare_list (some Operator.if_condition) outcomes o h = spare unparseable_outcome (λ k. refl) o h

spare_deep : (depth : ℕ) (m : Evaluated) → AllSpare m → AllSpare (unless_deep depth m)
spare_deep depth m all_spare o h = elim (Bool-cases (ltb max_rule_depth depth)) [
  | inl deep ↦ spare unparseable_outcome (λ k. refl) o (rw deep at h)
  | inr fits ↦ all_spare o (rw fits at h)
]

spare_evaluate : (facts : Fields) (depth : ℕ) (rule : Json) → AllSpare (evaluate facts depth rule)
unfolding evaluate
spare_evaluate facts depth (Json.obj (Fields.field key (Json.bool b) Fields.end)) =
    spare_deep depth (ok (on_bool (read_operator key) b))
      (spare (on_bool (read_operator key) b) (spare_bool (read_operator key) b))
spare_evaluate facts depth (Json.obj (Fields.field key (Json.obj operand) Fields.end)) =
    spare_deep depth (on_object (read_operator key) facts operand)
      (spare_object facts operand (read_operator key))
spare_evaluate facts depth (Json.obj (Fields.field key (Json.arr branches) Fields.end)) =
    spare_deep depth (on_list (read_operator key) (evaluate_all facts (depth + 1) branches))
      (spare_list (read_operator key) (evaluate_all facts (depth + 1) branches))
spare_evaluate facts depth (Json.obj Fields.end) =
    spare_deep depth (ok (outcome false Reason.empty_rule Reason.empty_rule))
      (spare (outcome false Reason.empty_rule Reason.empty_rule) (λ h. refl))
spare_evaluate facts depth rule = spare unparseable_outcome (λ h. refl)

pub evaluate-Spares :
    (facts : Fields) (rule : Json) (o : RuleOutcome)
    → evaluate_required_rule facts rule ≡ ok o
    → o.unparseable ≡ true
    → o.required ≡ false
unfolding evaluate_required_rule
evaluate-Spares facts rule o h = spare_evaluate facts 0 rule o h
