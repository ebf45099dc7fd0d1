-- ===== src/Checklist/Engine/Blocking.antt =====
-- packet_status of a planned checklist.
use office_connect.Base.{
  ◌<◌, ◌≡◌, ◌⊎◌, ◌↔◌, refl, sym, ap, subst, ◌∙◌, true, false, ◌&&◌, Option, none, some, List, [],
  ◌∷◌, String, All, All-append, All-split, arith, inl, inr, Bool-cases, eq_iff,
}
use office_connect.Base.Attempts.{ok, >>=-eq-ok, ok-injective}
use office_connect.Json.{Fields}
use office_connect.Checklist.Grammar.{RuleOutcome, evaluate_required_rule}
use office_connect.Checklist.Grammar.Unparseable.{evaluate-Spares}
use office_connect.Checklist.Checks.{CheckResult, Runner}
use office_connect.Checklist.Engine.{
  CatalogSpec, ItemState, ItemPlan, is_missing, is_blocking_evidence, derive, state_of, is_skipped,
  item_facts, item_plan, planned, plan_row, plan_rows, plan_checklist, sort_specs, is_countable,
  lacks_evidence, packet_status, is_complete,
}
use office_connect.Checklist.Engine.Order.{All-sort_specs}
use package.text.Mathlib.Text.{◌==◌ as str_eq}

-- Something is there for an item: a waiver, a generated document, or a file.
abbrev pub IsSatisfied : Option ItemState → Type 0
IsSatisfied none = ⊥
IsSatisfied (some s) = (s.waived ≡ true) ⊎ (s.generated ≡ true) ⊎ (0 < s.evidence_count)

-- A row that a human must bring evidence for, and that is required, has some.
abbrev pub IsFulfilled : Fields → List ItemState → CatalogSpec → Type 0
IsFulfilled facts existing spec =
    (o : RuleOutcome)
    → evaluate_required_rule facts spec.required_rule ≡ ok o
    → o.required ≡ true
    → is_blocking_evidence spec.evidence ≡ true
    → IsSatisfied (state_of existing spec.catalog_id)

abbrev IsFree : ItemPlan → Type 0
IsFree p = is_countable p && lacks_evidence p ≡ false

complete_iff : (plan : List ItemPlan) → (is_complete (packet_status plan) ≡ true) ↔ All IsFree plan
unfolding packet_status
complete_iff [] = (λ h. tt, λ h. refl)
complete_iff (p ∷ plan) =
    let (forth, back) = complete_iff plan in
    elim (Bool-cases (is_countable p && lacks_evidence p)) [
      | inl blocks ↦ (λ h. absurd (ground arith), λ h. cc (blocks, h.0))
      | inr free ↦ (λ h. (free, forth (ground arith)), λ h. let rest = back h.1 in ground arith)
    ]

-- `data_only` is no kind of evidence that blocks.
blocking_not_data :
    (evidence : String) → is_blocking_evidence evidence ≡ true → str_eq evidence "data_only" ≡ false
blocking_not_data evidence h = elim (Bool-cases (str_eq evidence "upload")) [
  | inl upload ↦ ap (λ (x : String). str_eq x "data_only") ((eq_iff evidence "upload").0 upload)
  | inr other ↦
      ap (λ (x : String). str_eq x "data_only")
        ((eq_iff evidence "external_wet_sign").0 (rw other at h))
]

derive_missing :
    (spec : CatalogSpec) (state : Option ItemState) (checks : List CheckResult)
    → is_blocking_evidence spec.evidence ≡ true
    → (is_missing (derive spec state checks).0 ≡ false) ↔ IsSatisfied state
derive_missing spec none checks h =
    let other = blocking_not_data spec.evidence h in (λ m. ground arith, λ q. absurd q)
derive_missing spec (some s) checks h =
    let other = blocking_not_data spec.evidence h in (λ m. ground arith, λ q. ground arith)

-- The plan of a row that is not skipped is free exactly where the row is fulfilled.
planned-IsFree :
    (facts : Fields) (existing : List ItemState) (spec : CatalogSpec) (o : RuleOutcome)
    (checks : List CheckResult)
    → evaluate_required_rule facts spec.required_rule ≡ ok o
    → IsFree (item_plan spec (state_of existing spec.catalog_id) o checks)
      ↔ IsFulfilled facts existing spec
planned-IsFree facts existing spec o checks ran =
    elim (Bool-cases (is_blocking_evidence spec.evidence)) [
      | inr harmless ↦ (λ free o' ran' needed h. cc (h, harmless), λ full. ground arith)
      | inl blocks ↦
          let (forth, back) =
            derive_missing spec (state_of existing spec.catalog_id) checks blocks in
          (
            λ free o' ran' needed h.
                let same : o' ≡ o = ok-injective (sym ran' ∙ ran) in
                let needed' : o.required ≡ true =
                  ap (λ (x : RuleOutcome). x.required) (sym same) ∙ needed in
                forth (ground arith),
            λ full. elim (Bool-cases o.required) [
              | inl needed ↦ let there = back (full o ran needed blocks) in ground arith
              | inr spare ↦ ground arith
            ],
          )
    ]

skipped_spare :
    (state : Option ItemState) (o : RuleOutcome)
    → is_skipped state o ≡ true
    → (o.unparseable ≡ true → o.required ≡ false)
    → o.required ≡ false
skipped_spare state o h poisoned = elim (Bool-cases o.unparseable) [
  | inl unreadable ↦ poisoned unreadable
  | inr readable ↦ elim (Bool-cases o.required) [
    | inl needed ↦ absurd (ground arith)
    | inr spare ↦ spare
  ]
]

module _ (run_auto_checks : Runner) (existing : List ItemState) (facts : Fields) where
  planned_iff :
      (spec : CatalogSpec) (o : RuleOutcome) {plans : List ItemPlan}
      → evaluate_required_rule facts spec.required_rule ≡ ok o
      → planned run_auto_checks existing facts spec (state_of existing spec.catalog_id) o ≡ ok plans
      → All IsFree plans ↔ IsFulfilled facts existing spec
  planned_iff spec o {plans = plans} ran h =
      elim (Bool-cases (is_skipped (state_of existing spec.catalog_id) o)) [
        | inl skipped ↦
            let unneeded =
              skipped_spare (state_of existing spec.catalog_id) o skipped
                (evaluate-Spares facts spec.required_rule o ran) in
            let none_planned : [] ≡ plans = ok-injective (rw skipped at h) in
            subst (λ (x : List ItemPlan). All IsFree x ↔ IsFulfilled facts existing spec)
              none_planned
              (
                λ free o' ran' needed blocks.
                    let same : o' ≡ o = ok-injective (sym ran' ∙ ran) in absurd (ground arith),
                λ full. tt,
              )
        | inr kept ↦
            let checks =
              run_auto_checks spec.auto_checks
                (item_facts facts (state_of existing spec.catalog_id)) in
            let (results, ran_checks, rest) = >>=-eq-ok checks _ (rw kept at h) in
            let (forth, back) = planned-IsFree facts existing spec o results ran in
            subst (λ (x : List ItemPlan). All IsFree x ↔ IsFulfilled facts existing spec)
              (ok-injective rest) (λ h. forth h.0, λ h. (back h, tt))
      ]

  row_iff :
      (spec : CatalogSpec) {plans : List ItemPlan}
      → plan_row run_auto_checks existing facts spec ≡ ok plans
      → All IsFree plans ↔ IsFulfilled facts existing spec
  unfolding plan_row
  row_iff spec h =
      let (o, ran, rest) = >>=-eq-ok (evaluate_required_rule facts spec.required_rule) _ h in
      planned_iff spec o ran rest

  rows_iff :
      (specs : List CatalogSpec) {plans : List ItemPlan}
      → plan_rows run_auto_checks existing facts specs ≡ ok plans
      → All IsFree plans ↔ All (IsFulfilled facts existing) specs
  unfolding plan_rows
  rows_iff [] h =
      subst (λ (x : List ItemPlan). All IsFree x ↔ Unit {0}) (ok-injective h) (λ h. h, λ h. h)
  rows_iff (spec ∷ specs) h =
      let (first, row, more) = >>=-eq-ok (plan_row run_auto_checks existing facts spec) _ h in
      let (rest, rows, last) = >>=-eq-ok (plan_rows run_auto_checks existing facts specs) _ more in
      let (row_forth, row_back) = row_iff spec row in
      let (forth, back) = rows_iff specs rows in
      subst (λ (x : List ItemPlan). All IsFree x ↔ All (IsFulfilled facts existing) (spec ∷ specs))
        (ok-injective last)
        (
          λ h. let (here, there) = All-split IsFree first rest h in (row_forth here, forth there),
          λ h. All-append IsFree first rest (row_back h.0) (back h.1),
        )

  -- If the checklist is planned from a catalog, the packet is complete exactly where every row of the
  -- catalog whose rule requires it, and whose evidence a human must bring, has a waiver, a generated
  -- document or a file: whatever the automatic checks say, and in whatever order the catalog stands.
  pub plan_checklist-iff-IsFulfilled :
      (catalog : List CatalogSpec) (plans : List ItemPlan)
      → plan_checklist run_auto_checks existing facts catalog ≡ ok plans
      → (is_complete (packet_status plans) ≡ true) ↔ All (IsFulfilled facts existing) catalog
  unfolding plan_checklist
  plan_checklist-iff-IsFulfilled catalog plans h =
      let (complete_free, free_complete) = complete_iff plans in
      let (forth, back) = rows_iff (sort_specs catalog) h in
      let (unsort, sort) = All-sort_specs (IsFulfilled facts existing) catalog in
      (
        λ complete. unsort (forth (complete_free complete)),
        λ full. free_complete (back (sort full)),
      )
