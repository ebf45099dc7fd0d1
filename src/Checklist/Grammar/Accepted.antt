-- ===== src/Checklist/Grammar/Accepted.antt =====
-- Evaluation says what the rule means, and a rule that validation accepts can always be read.
use office_connect.Base.{
  ℕ, ◌+◌, ◌≡◌, ◌↔◌, refl, sym, ap, subst, or_iff, and_iff, ◌∙◌, Bool, true, false, Option, none,
  some, List, [], ◌∷◌, String, ltb, any, all, arith, inl, inr, Bool-cases, Option-cases,
}
use office_connect.Base.Attempts.{Attempt, ok, >>=-eq-ok, guard-eq-ok, ok-injective}
use office_connect.Json.{Json, Items, Fields, lookup}
use office_connect.Checklist.Values.{Exception, resolve_field}
use office_connect.Checklist.Grammar.{
  Operator, read_operator, read_comparator, compare_by, comparators, max_rule_depth, RuleOutcome,
  Reason, Evaluated, outcome, evaluate_condition, with_comparator, junction, on_bool, on_object,
  on_list, unless_deep, evaluate, evaluate_all, evaluate_required_rule, RuleError, Validated,
  validate, validate_all, validate_required_rule, unless_too_deep, validate_bool, validate_object,
  validate_list, validate_comparators, nonempty, is_text, validate_other,
}
use office_connect.Checklist.Grammar.Meaning.{
  Requires, Says, SayTogether, unreadable, bool_Says, object_Says, Junction-Says,
}

-- An evaluation that could be read was not cut off by the depth.
shallow :
    (depth : ℕ) (m : Evaluated) (o : RuleOutcome)
    → unless_deep depth m ≡ ok o
    → o.unparseable ≡ false
    → m ≡ ok o
shallow depth m o h readable = elim (Bool-cases (ltb max_rule_depth depth)) [
  | inl deep ↦ absurd (unreadable (ok-injective (rw deep at h)) readable)
  | inr fits ↦ rw fits at h
]

together_nil : (facts : Fields) (os : List RuleOutcome) → [] ≡ os → SayTogether facts Items.nil os
together_nil facts os h =
    subst (λ (x : List RuleOutcome). SayTogether facts Items.nil x) h
      (λ clean. ((λ r. cc, λ q. absurd q), (λ r. tt, λ q. refl)))

together_cons :
    (facts : Fields) (branch : Json) (branches : Items) (o : RuleOutcome) (os : List RuleOutcome)
    → Says o (Requires facts branch)
    → SayTogether facts branches os
    → SayTogether facts (Items.cons branch branches) (o ∷ os)
together_cons facts branch branches o os says together clean =
    let first = says (ground arith) in
    let (some_rest, all_rest) = together (ground arith) in
    (
      or_iff o.required (any (λ x. x.required) os) first some_rest,
      and_iff o.required (all (λ x. x.required) os) first all_rest,
    )

mutual
  unfolding evaluate evaluate_all

  evaluate_Says :
      (facts : Fields) (depth : ℕ) (rule : Json) (o : RuleOutcome)
      → evaluate facts depth rule ≡ ok o
      → Says o (Requires facts rule)
  evaluate_Says facts depth (Json.obj (Fields.field key (Json.bool b) Fields.end)) o h readable =
      bool_Says (read_operator key) key b o refl
        (ok-injective (shallow depth (ok (on_bool (read_operator key) b)) o h readable)) readable
  evaluate_Says facts depth (Json.obj (Fields.field key (Json.obj operand) Fields.end)) o h
        readable =
      object_Says facts operand (read_operator key) key o refl
        (shallow depth (on_object (read_operator key) facts operand) o h readable) readable
  evaluate_Says facts depth (Json.obj (Fields.field key (Json.arr branches) Fields.end)) o h
        readable =
      Junction-Says facts branches key (evaluate_all facts (depth + 1) branches) o
        (shallow depth (on_list (read_operator key) (evaluate_all facts (depth + 1) branches)) o h
          readable)
        (λ os. evaluate_all_Says facts (depth + 1) branches os) readable
  evaluate_Says facts depth (Json.obj Fields.end) o h readable =
      let same =
        ok-injective
          (shallow depth (ok (outcome false Reason.empty_rule Reason.empty_rule)) o h readable) in
      (λ r. cc (ap (λ (x : RuleOutcome). x.required) same, r), λ q. absurd q)
  evaluate_Says facts depth rule o h readable = absurd (unreadable (ok-injective h) readable)

  evaluate_all_Says :
      (facts : Fields) (depth : ℕ) (branches : Items) (os : List RuleOutcome)
      → evaluate_all facts depth branches ≡ ok os
      → SayTogether facts branches os
  evaluate_all_Says facts depth Items.nil os h = together_nil facts os (ok-injective h)
  evaluate_all_Says facts depth (Items.cons branch branches) os h =
      let (o, first, h1) = >>=-eq-ok (evaluate facts depth branch) _ h in
      let (rest, later, h2) = >>=-eq-ok (evaluate_all facts depth branches) _ h1 in
      subst (λ (x : List RuleOutcome). SayTogether facts (Items.cons branch branches) x)
        (ok-injective h2)
        (together_cons facts branch branches o rest (evaluate_Says facts depth branch o first)
          (evaluate_all_Says facts depth branches rest later))

-- Every outcome that comes back could be read.
abbrev IsReadable : Evaluated → Type 0
IsReadable m = (o : RuleOutcome) → m ≡ ok o → o.unparseable ≡ false

abbrev AreReadable : Attempt Exception (List RuleOutcome) → Type 0
AreReadable m = (os : List RuleOutcome) → m ≡ ok os → any (λ o. o.unparseable) os ≡ false

read_condition :
    (facts : Fields) (path : Json) (entries : List (String × Json))
    → validate_comparators entries ≡ ok tt
    → IsReadable (with_comparator facts path entries)
read_condition facts path [] v o h = cc
read_condition facts path ((key, expected) ∷ []) v o h = elim (Option-cases (read_comparator key)) [
  | inl absent ↦ let refused = rw (absent, validate_comparators) at v in cc
  | inr (c, known) ↦
      let (matched, ran, rest) =
        >>=-eq-ok (compare_by c (resolve_field facts path) expected) _ (rw known at h) in
      sym (ap (λ (x : RuleOutcome). x.unparseable) (ok-injective rest))
]
read_condition facts path (entry ∷ other ∷ entries) v o h = cc

read_object :
    (facts operand : Fields) (op : Option Operator)
    → validate_object op operand ≡ ok tt
    → IsReadable (on_object op facts operand)
unfolding evaluate_condition
read_object facts operand (some Operator.if_condition) v o h =
    elim (Option-cases (lookup "field" operand)) [
      | inl absent ↦ let refused = rw absent at v in cc
      | inr (path, named) ↦
          let (texted, rest) =
            guard-eq-ok (is_text path) RuleError.invalid_rule _ (rw named at v) in
          read_condition facts path (comparators operand) rest o (rw named at h)
    ]
read_object facts operand none v o h = cc
read_object facts operand (some Operator.always) v o h = cc
read_object facts operand (some Operator.any_branch) v o h = cc
read_object facts operand (some Operator.all_branches) v o h = cc

read_bool :
    (op : Option Operator) (b : Bool) → validate_bool op ≡ ok tt → IsReadable (ok (on_bool op b))
read_bool (some Operator.always) b v o h =
    sym (ap (λ (x : RuleOutcome). x.unparseable) (ok-injective h))
read_bool none b v o h = cc
read_bool (some Operator.if_condition) b v o h = cc
read_bool (some Operator.any_branch) b v o h = cc
read_bool (some Operator.all_branches) b v o h = cc

read_junction :
    (op : Operator) (os : List RuleOutcome)
    → any (λ o. o.unparseable) os ≡ false
    → (junction op os).unparseable ≡ false
read_junction Operator.any_branch os clean = ground arith
read_junction Operator.all_branches os clean = ground arith
read_junction Operator.always os clean = ground arith
read_junction Operator.if_condition os clean = ground arith

read_list :
    (op : Option Operator) (branches : Items) (rest : Validated)
    (outcomes : Attempt Exception (List RuleOutcome))
    → validate_list op (nonempty branches) rest ≡ ok tt
    → (rest ≡ ok tt → AreReadable outcomes)
    → IsReadable (on_list op outcomes)
read_list (some Operator.any_branch) branches rest outcomes v all_read o h =
    let (filled, passed) = guard-eq-ok (nonempty branches) RuleError.invalid_rule _ v in
    let (os, ran, same) = >>=-eq-ok outcomes _ h in
    sym (ap (λ (x : RuleOutcome). x.unparseable) (ok-injective same))
    ∙ read_junction Operator.any_branch os (all_read passed os ran)
read_list (some Operator.all_branches) branches rest outcomes v all_read o h =
    let (filled, passed) = guard-eq-ok (nonempty branches) RuleError.invalid_rule _ v in
    let (os, ran, same) = >>=-eq-ok outcomes _ h in
    sym (ap (λ (x : RuleOutcome). x.unparseable) (ok-injective same))
    ∙ read_junction Operator.all_branches os (all_read passed os ran)
read_list none branches rest outcomes v all_read o h = cc
read_list (some Operator.always) branches rest outcomes v all_read o h = cc
read_list (some Operator.if_condition) branches rest outcomes v all_read o h = cc

-- Both stop at the same depth.
fits :
    (depth : ℕ) (v : Validated) (m : Evaluated)
    → unless_too_deep depth v ≡ ok tt
    → (v ≡ ok tt → IsReadable m)
    → IsReadable (unless_deep depth m)
fits depth v m valid read o h = elim (Bool-cases (ltb max_rule_depth depth)) [
  | inl deep ↦ let refused = rw deep at valid in cc
  | inr shallow ↦ read (rw shallow at valid) o (rw shallow at h)
]

refused : (depth : ℕ) (op : Option Operator) → unless_too_deep depth (validate_other op) ≡ ok tt → ⊥
refused depth none h = ground arith
refused depth (some op) h = ground arith

mutual
  unfolding evaluate evaluate_all validate validate_all

  validate-IsReadable :
      (facts : Fields) (depth : ℕ) (rule : Json)
      → validate depth rule ≡ ok tt
      → IsReadable (evaluate facts depth rule)
  validate-IsReadable facts depth (Json.obj (Fields.field key (Json.bool b) Fields.end)) v o h =
      fits depth (validate_bool (read_operator key)) (ok (on_bool (read_operator key) b)) v
        (read_bool (read_operator key) b) o h
  validate-IsReadable facts depth (Json.obj (Fields.field key (Json.obj operand) Fields.end)) v o
        h =
      fits depth (validate_object (read_operator key) operand)
        (on_object (read_operator key) facts operand) v
        (read_object facts operand (read_operator key)) o h
  validate-IsReadable facts depth (Json.obj (Fields.field key (Json.arr branches) Fields.end)) v o
        h =
      let rest = validate_all (depth + 1) branches in
      let outcomes = evaluate_all facts (depth + 1) branches in
      fits depth (validate_list (read_operator key) (nonempty branches) rest)
        (on_list (read_operator key) outcomes) v
        (λ passed.
          read_list (read_operator key) branches rest outcomes passed
            (validate_all-AreReadable facts (depth + 1) branches))
        o h
  validate-IsReadable facts depth (Json.obj (Fields.field key Json.null Fields.end)) v o h =
      absurd (refused depth (read_operator key) v)
  validate-IsReadable facts depth (Json.obj (Fields.field key (Json.int z) Fields.end)) v o h =
      absurd (refused depth (read_operator key) v)
  validate-IsReadable facts depth (Json.obj (Fields.field key (Json.real m k) Fields.end)) v o h =
      absurd (refused depth (read_operator key) v)
  validate-IsReadable facts depth (Json.obj (Fields.field key (Json.text s) Fields.end)) v o h =
      absurd (refused depth (read_operator key) v)
  validate-IsReadable facts depth rule v o h = cc

  validate_all-AreReadable :
      (facts : Fields) (depth : ℕ) (branches : Items)
      → validate_all depth branches ≡ ok tt
      → AreReadable (evaluate_all facts depth branches)
  validate_all-AreReadable facts depth Items.nil v os h =
      subst (λ (x : List RuleOutcome). any (λ o. o.unparseable) x ≡ false) (ok-injective h) refl
  validate_all-AreReadable facts depth (Items.cons branch branches) v os h =
      let (first, passed, rest) = >>=-eq-ok (validate depth branch) _ v in
      let (o, ran, h1) = >>=-eq-ok (evaluate facts depth branch) _ h in
      let (later, ran_later, h2) = >>=-eq-ok (evaluate_all facts depth branches) _ h1 in
      let clean = validate-IsReadable facts depth branch passed o ran in
      let all_clean = validate_all-AreReadable facts depth branches rest later ran_later in
      subst (λ (x : List RuleOutcome). any (λ o. o.unparseable) x ≡ false) (ok-injective h2)
        (rw clean all_clean)

-- A rule that validation accepts is never flagged as unparseable, and its item is required exactly where
-- the rule requires it: `always` true, a condition that is met, some branch of an `any`, or every branch
-- of an `all`. (Evaluation can also raise, where a comparison meets a nan.)
pub validate_required_rule-Requires :
    (facts : Fields) (rule : Json) (o : RuleOutcome)
    → validate_required_rule rule ≡ ok tt
    → evaluate_required_rule facts rule ≡ ok o
    → (o.unparseable ≡ false) × ((o.required ≡ true) ↔ Requires facts rule)
unfolding validate_required_rule evaluate_required_rule
validate_required_rule-Requires facts rule o valid h =
    let readable = validate-IsReadable facts 0 rule valid o h in
    (readable, evaluate_Says facts 0 rule o h readable)
