-- ===== src/Checklist/Engine/Evidence.antt =====
-- What a plan does with an item that stands in the database.
use office_connect.Base.{
  ◌≡◌, ◌<◌, ◌⊎◌, ◌↔◌, refl, sym, subst, true, false, some, List, In, here, there, In-append_left,
  In-append_right, arith, inl, inr, Bool-cases,
}
use office_connect.Base.Attempts.{ok, >>=-eq-ok, ok-injective}
use office_connect.Json.{Fields}
use office_connect.Checklist.Grammar.{RuleOutcome, evaluate_required_rule}
use office_connect.Checklist.Checks.{CheckResult, Runner}
use office_connect.Checklist.Engine.{
  CatalogSpec, ItemState, holds_something, Action, ItemPlan, item_facts, state_of, is_skipped,
  item_plan, plan_row, plan_rows, plan_checklist,
}
use office_connect.Checklist.Engine.Order.{In-sort_specs}

-- The item holds a file, a waiver or a generated document.
abbrev pub IsHolding : ItemState → Type 0
IsHolding s = (0 < s.evidence_count) ⊎ (s.waived ≡ true) ⊎ (s.generated ≡ true)

holds-IsHolding : (s : ItemState) → holds_something s ≡ true → IsHolding s
holds-IsHolding s h = elim (Bool-cases s.waived) [
  | inl waived ↦ inr (inl waived)
  | inr kept ↦ elim (Bool-cases s.generated) [
    | inl made ↦ inr (inr made)
    | inr other ↦ inl (ground arith)
  ]
]

IsHolding-holds : (s : ItemState) → IsHolding s → holds_something s ≡ true
IsHolding-holds s (inl files) = ground arith
IsHolding-holds s (inr (inl waived)) = ground arith
IsHolding-holds s (inr (inr made)) = ground arith

-- The plan of an item: whether it applies is what its rule says, it is put away exactly where it does not
-- apply and holds nothing, and otherwise it is kept.
abbrev pub IsPlanOf : Fields → CatalogSpec → ItemState → ItemPlan → Type 0
IsPlanOf facts spec state p =
    (p.catalog ≡ spec)
    × (p.item_id ≡ some state.item_id)
    × ((o : RuleOutcome) × (evaluate_required_rule facts spec.required_rule ≡ ok o)
        × (p.required ≡ o.required))
    × ((p.action ≡ Action.make_dormant) ↔ ((p.required ≡ false) × (¬ IsHolding state)))
    × (IsHolding state → p.action ≡ Action.keep)

live_plan :
    (facts : Fields) (spec : CatalogSpec) (state : ItemState) (o : RuleOutcome)
    (checks : List CheckResult)
    → evaluate_required_rule facts spec.required_rule ≡ ok o
    → state.dormant ≡ false
    → IsPlanOf facts spec state (item_plan spec (some state) o checks)
live_plan facts spec state o checks ran live = elim (Bool-cases o.required) [
  | inl needed ↦ (
    refl,
    refl,
    (o, ran, refl),
    (λ h. absurd (ground arith), λ h. absurd (ground (arith, h.0))),
    λ h. let holds = IsHolding-holds state h in ground arith,
  )
  | inr spare ↦ elim (Bool-cases (holds_something state)) [
    | inl holds ↦ (
      refl,
      refl,
      (o, ran, refl),
      (λ h. absurd (ground arith), λ h. absurd (h.1 (holds-IsHolding state holds))),
      λ h. ground arith,
    )
    | inr empty ↦ (
      refl,
      refl,
      (o, ran, refl),
      (
        λ h. (spare, λ some_held. let holds = IsHolding-holds state some_held in cc (holds, empty)),
        λ h. ground arith,
      ),
      λ h. let holds = IsHolding-holds state h in absurd (ground arith),
    )
  ]
]

module _ (run_auto_checks : Runner) (existing : List ItemState) (facts : Fields) where
  live_row :
      (spec : CatalogSpec) (state : ItemState) {plans : List ItemPlan}
      → state_of existing spec.catalog_id ≡ some state
      → state.dormant ≡ false
      → plan_row run_auto_checks existing facts spec ≡ ok plans
      → (p : ItemPlan) × In p plans × IsPlanOf facts spec state p
  unfolding plan_row
  live_row spec state {plans = plans} found live h =
      let (o, ran, rest) = >>=-eq-ok (evaluate_required_rule facts spec.required_rule) _ h in
      let kept : is_skipped (some state) o ≡ false = ground arith in
      let (results, checked, last) =
        >>=-eq-ok (run_auto_checks spec.auto_checks (item_facts facts (some state))) _
          (rw (found, kept) at rest) in
      let p = item_plan spec (some state) o results in
      (
        p,
        subst (λ (x : List ItemPlan). In p x) (ok-injective last) (here refl),
        live_plan facts spec state o results ran live,
      )

  live_rows :
      (spec : CatalogSpec) (state : ItemState) {specs : List CatalogSpec} {plans : List ItemPlan}
      → In spec specs
      → state_of existing spec.catalog_id ≡ some state
      → state.dormant ≡ false
      → plan_rows run_auto_checks existing facts specs ≡ ok plans
      → (p : ItemPlan) × In p plans × IsPlanOf facts spec state p
  unfolding plan_rows
  live_rows spec state {plans = plans} (here {x = x} {xs = specs} same) found live h =
      let (first, row, more) = >>=-eq-ok (plan_row run_auto_checks existing facts x) _ h in
      let (rest, rows, last) = >>=-eq-ok (plan_rows run_auto_checks existing facts specs) _ more in
      let known =
        subst (λ (y : CatalogSpec). state_of existing y.catalog_id ≡ some state) (sym same) found in
      let (p, listed, plan) = live_row x state known live row in
      (
        p,
        subst (λ (y : List ItemPlan). In p y) (ok-injective last) (In-append_left rest listed),
        subst (λ (y : CatalogSpec). IsPlanOf facts y state p) same plan,
      )
  live_rows spec state {plans = plans} (there {x = x} {xs = specs} m) found live h =
      let (first, row, more) = >>=-eq-ok (plan_row run_auto_checks existing facts x) _ h in
      let (rest, rows, last) = >>=-eq-ok (plan_rows run_auto_checks existing facts specs) _ more in
      let (p, listed, plan) = live_rows spec state m found live rows in
      (
        p,
        subst (λ (x : List ItemPlan). In p x) (ok-injective last) (In-append_right first listed),
        plan,
      )

  -- If the checklist is planned, an item that is not dormant, and whose catalog row is in the catalog, has a
  -- plan: required as its rule says, put away exactly where it is not required and holds nothing, and kept
  -- whenever it holds a file, a waiver or a generated document.
  pub plan_checklist-IsPlanOf :
      (catalog : List CatalogSpec) (plans : List ItemPlan) (spec : CatalogSpec) (state : ItemState)
      → plan_checklist run_auto_checks existing facts catalog ≡ ok plans
      → In spec catalog
      → state_of existing spec.catalog_id ≡ some state
      → state.dormant ≡ false
      → (p : ItemPlan) × In p plans × IsPlanOf facts spec state p
  unfolding plan_checklist
  plan_checklist-IsPlanOf catalog plans spec state h listed found live =
      live_rows spec state (In-sort_specs listed) found live h
