-- ===== src/Checklist/Grammar/Meaning.antt =====
-- What a rule means, apart from depths and reasons, and that evaluation computes it.
use office_connect.Base.{
  ◌≡◌, ◌⊎◌, ◌↔◌, refl, sym, ap, ◌∙◌, Bool, true, false, Option, none, some, List, [], ◌∷◌, String,
  any, all, arith, inl, inr, Bool-cases, Option-cases, eq_iff,
}
use office_connect.Base.Attempts.{Attempt, ok, err, >>=-eq-ok, ok-injective}
use office_connect.Json.{Json, Items, Fields, lookup}
use office_connect.Checklist.Values.{Exception, resolve_field}
use office_connect.Checklist.Grammar.{
  Operator, read_operator, Comparator, read_comparator, compare_by, comparators, RuleOutcome,
  unparseable_outcome, evaluate_condition, with_comparator, compared, junction, on_bool, on_object,
  on_list,
}

-- The condition of an `if`: one comparator, which holds of the field's value.
pub record Met (facts operand : Fields) : Type 0 where
  pub path : Json
  pub named : lookup "field" operand ≡ some path
  pub key : String
  pub expected : Json
  pub only : comparators operand ≡ (key, expected) ∷ []
  pub comparator : Comparator
  pub known : read_comparator key ≡ some comparator
  pub holds : compare_by comparator (resolve_field facts path) expected ≡ ok true

abbrev mutual
  -- Whether a rule requires its item: `always` true, a condition that is met, some branch of an `any`, or
  -- every branch of an `all`.
  pub Requires : Fields → Json → Type 0
  Requires facts (Json.obj (Fields.field key (Json.bool operand) Fields.end)) =
      (key ≡ "always") × (operand ≡ true)
  Requires facts (Json.obj (Fields.field key (Json.obj operand) Fields.end)) =
      (key ≡ "if") × Met facts operand
  Requires facts (Json.obj (Fields.field key (Json.arr branches) Fields.end)) =
      ((key ≡ "any") × SomeRequires facts branches) ⊎ ((key ≡ "all") × AllRequire facts branches)
  Requires facts rule = ⊥

  pub SomeRequires : Fields → Items → Type 0
  SomeRequires facts Items.nil = ⊥
  SomeRequires facts (Items.cons branch branches) =
      Requires facts branch ⊎ SomeRequires facts branches

  pub AllRequire : Fields → Items → Type 0
  AllRequire facts Items.nil = Unit
  AllRequire facts (Items.cons branch branches) = Requires facts branch × AllRequire facts branches

operator_always : (key : String) → (read_operator key ≡ some Operator.always) ↔ (key ≡ "always")
operator_always key = (
  λ h. ground (arith, eq_iff key "always", eq_iff key "if", eq_iff key "any", eq_iff key "all"),
  λ e. rw e refl,
)

operator_if : (key : String) → (read_operator key ≡ some Operator.if_condition) ↔ (key ≡ "if")
operator_if key = (
  λ h. ground (arith, eq_iff key "always", eq_iff key "if", eq_iff key "any", eq_iff key "all"),
  λ e. rw e refl,
)

operator_any : (key : String) → (read_operator key ≡ some Operator.any_branch) ↔ (key ≡ "any")
operator_any key = (
  λ h. ground (arith, eq_iff key "always", eq_iff key "if", eq_iff key "any", eq_iff key "all"),
  λ e. rw e refl,
)

operator_all : (key : String) → (read_operator key ≡ some Operator.all_branches) ↔ (key ≡ "all")
operator_all key = (
  λ h. ground (arith, eq_iff key "always", eq_iff key "if", eq_iff key "any", eq_iff key "all"),
  λ e. rw e refl,
)

-- An outcome that could be read says what the rule means.
abbrev pub Says : RuleOutcome → Type 0 → Type 0
Says o P = o.unparseable ≡ false → (o.required ≡ true) ↔ P

pub unreadable : {o : RuleOutcome} → unparseable_outcome ≡ o → o.unparseable ≡ false → ⊥
unreadable h readable = cc (ap (λ (x : RuleOutcome). x.unparseable) h, readable)

pub bool_Says :
    (op : Option Operator) (key : String) (b : Bool) (o : RuleOutcome)
    → read_operator key ≡ op
    → on_bool op b ≡ o
    → Says o ((key ≡ "always") × (b ≡ true))
bool_Says none key b o known h readable = absurd (unreadable h readable)
bool_Says (some Operator.always) key b o known h readable =
    let required = ap (λ (x : RuleOutcome). x.required) h in
    (λ r. ((operator_always key).0 known, required ∙ r), λ q. sym required ∙ q.1)
bool_Says (some Operator.if_condition) key b o known h readable = absurd (unreadable h readable)
bool_Says (some Operator.any_branch) key b o known h readable = absurd (unreadable h readable)
bool_Says (some Operator.all_branches) key b o known h readable = absurd (unreadable h readable)

compared_Says :
    (facts operand : Fields) (path : Json) (key : String) (expected : Json) (c : Option Comparator)
    (o : RuleOutcome)
    → lookup "field" operand ≡ some path
    → comparators operand ≡ (key, expected) ∷ []
    → read_comparator key ≡ c
    → compared facts path expected c ≡ ok o
    → Says o (Met facts operand)
compared_Says facts operand path key expected none o named only known h readable =
    absurd (unreadable (ok-injective h) readable)
compared_Says facts operand path key expected (some c) o named only known h readable =
    let (matched, ran, rest) = >>=-eq-ok (compare_by c (resolve_field facts path) expected) _ h in
    let required = ap (λ (x : RuleOutcome). x.required) (ok-injective rest) in
    (
      λ r. record {
        path = path;
        named = named;
        key = key;
        expected = expected;
        only = only;
        comparator = c;
        known = known;
        holds = ran ∙ ap ok (required ∙ r);
      },
      λ m.
          let holds = m.holds in
          let named' = m.named in
          let only' = m.only in
          let known' = m.known in let same : matched ≡ true = cc in sym required ∙ same,
    )

with_comparator_Says :
    (facts operand : Fields) (path : Json) (entries : List (String × Json)) (o : RuleOutcome)
    → lookup "field" operand ≡ some path
    → comparators operand ≡ entries
    → with_comparator facts path entries ≡ ok o
    → Says o (Met facts operand)
with_comparator_Says facts operand path [] o named only h readable =
    absurd (unreadable (ok-injective h) readable)
with_comparator_Says facts operand path ((key, expected) ∷ []) o named only h readable =
    compared_Says facts operand path key expected (read_comparator key) o named only refl h readable
with_comparator_Says facts operand path (entry ∷ other ∷ entries) o named only h readable =
    absurd (unreadable (ok-injective h) readable)

pub condition_Says :
    (facts operand : Fields) (o : RuleOutcome)
    → evaluate_condition facts operand ≡ ok o
    → Says o (Met facts operand)
unfolding evaluate_condition
condition_Says facts operand o h readable = elim (Option-cases (lookup "field" operand)) [
  | inl absent ↦ absurd (unreadable (ok-injective (rw absent at h)) readable)
  | inr (path, named) ↦
      with_comparator_Says facts operand path (comparators operand) o named refl (rw named at h)
        readable
]

pub object_Says :
    (facts operand : Fields) (op : Option Operator) (key : String) (o : RuleOutcome)
    → read_operator key ≡ op
    → on_object op facts operand ≡ ok o
    → Says o ((key ≡ "if") × Met facts operand)
object_Says facts operand (some Operator.if_condition) key o known h readable =
    let (forth, back) = condition_Says facts operand o h readable in
    (λ r. ((operator_if key).0 known, forth r), λ q. back q.1)
object_Says facts operand none key o known h readable =
    absurd (unreadable (ok-injective h) readable)
object_Says facts operand (some Operator.always) key o known h readable =
    absurd (unreadable (ok-injective h) readable)
object_Says facts operand (some Operator.any_branch) key o known h readable =
    absurd (unreadable (ok-injective h) readable)
object_Says facts operand (some Operator.all_branches) key o known h readable =
    absurd (unreadable (ok-injective h) readable)

-- What the outcomes of branches that could all be read say together.
abbrev pub SayTogether : Fields → Items → List RuleOutcome → Type 0
SayTogether facts branches os =
    any (λ o. o.unparseable) os ≡ false
    → ((any (λ o. o.required) os ≡ true) ↔ SomeRequires facts branches)
      × ((all (λ o. o.required) os ≡ true) ↔ AllRequire facts branches)

abbrev pub Junction : Fields → String → Items → Type 0
Junction facts key branches =
    ((key ≡ "any") × SomeRequires facts branches) ⊎ ((key ≡ "all") × AllRequire facts branches)

list_Says :
    (facts : Fields) (branches : Items) (op : Option Operator) (key : String)
    (os : List RuleOutcome) (o : RuleOutcome)
    → read_operator key ≡ op
    → on_list op (ok os) ≡ ok o
    → SayTogether facts branches os
    → Says o (Junction facts key branches)
list_Says facts branches (some Operator.any_branch) key os o known h together readable =
    elim (Bool-cases (any (λ o. o.unparseable) os)) [
      | inl poisoned ↦ absurd (unreadable (ok-injective (rw poisoned at h)) readable)
      | inr clean ↦
          let (forth, back) = (together clean).0 in
          let made : junction Operator.any_branch os ≡ o = ok-injective h in
          let required : any (λ o. o.required) os ≡ o.required =
            ap (λ (x : RuleOutcome). x.required) (rw clean at made) in
          let is_any = (operator_any key).0 known in
          (
            λ r. inl (is_any, forth (required ∙ r)),
            λ q. elim q [
              | inl yes_any ↦ sym required ∙ back yes_any.1
              | inr yes_all ↦ let same = (operator_all key).1 yes_all.0 in cc (same, known)
            ],
          )
    ]
list_Says facts branches (some Operator.all_branches) key os o known h together readable =
    elim (Bool-cases (any (λ o. o.unparseable) os)) [
      | inl poisoned ↦ absurd (unreadable (ok-injective (rw poisoned at h)) readable)
      | inr clean ↦
          let (forth, back) = (together clean).1 in
          let made : junction Operator.all_branches os ≡ o = ok-injective h in
          let required : all (λ o. o.required) os ≡ o.required =
            ap (λ (x : RuleOutcome). x.required) (rw clean at made) in
          let is_all = (operator_all key).0 known in
          (
            λ r. inr (is_all, forth (required ∙ r)),
            λ q. elim q [
              | inl yes_any ↦ let same = (operator_any key).1 yes_any.0 in cc (same, known)
              | inr yes_all ↦ sym required ∙ back yes_all.1
            ],
          )
    ]
list_Says facts branches none key os o known h together readable =
    absurd (unreadable (ok-injective h) readable)
list_Says facts branches (some Operator.always) key os o known h together readable =
    absurd (unreadable (ok-injective h) readable)
list_Says facts branches (some Operator.if_condition) key os o known h together readable =
    absurd (unreadable (ok-injective h) readable)

pub Junction-Says :
    (facts : Fields) (branches : Items) (key : String)
    (outcomes : Attempt Exception (List RuleOutcome)) (o : RuleOutcome)
    → on_list (read_operator key) outcomes ≡ ok o
    → ((os : List RuleOutcome) → outcomes ≡ ok os → SayTogether facts branches os)
    → Says o (Junction facts key branches)
Junction-Says facts branches key (ok os) o h together readable =
    list_Says facts branches (read_operator key) key os o refl h (together os refl) readable
Junction-Says facts branches key (err e) o h together readable =
    absurd (raised (read_operator key) h readable)
  where
    raised : (op : Option Operator) → on_list op (err e) ≡ ok o → o.unparseable ≡ false → ⊥
    raised none h readable = unreadable (ok-injective h) readable
    raised (some Operator.always) h readable = unreadable (ok-injective h) readable
    raised (some Operator.if_condition) h readable = unreadable (ok-injective h) readable
    raised (some Operator.any_branch) h readable = cc
    raised (some Operator.all_branches) h readable = cc
