-- ===== src/Checklist/Engine/Required.antt =====
-- The completeness of a packet whose catalog passed validation.
use office_connect.Base.{◌≡◌, ◌↔◌, sym, ap, ◌∙◌, true, List, [], ◌∷◌, All}
use office_connect.Base.Attempts.{ok, >>=-eq-ok, ok-injective}
use office_connect.Json.{Fields}
use office_connect.Checklist.Grammar.{RuleOutcome, evaluate_required_rule, validate_required_rule}
use office_connect.Checklist.Grammar.Meaning.{Requires}
use office_connect.Checklist.Grammar.Accepted.{validate_required_rule-Requires}
use office_connect.Checklist.Checks.{Runner}
use office_connect.Checklist.Engine.{
  CatalogSpec, ItemState, ItemPlan, is_blocking_evidence, state_of, plan_row, plan_rows,
  plan_checklist, sort_specs, packet_status, is_complete,
}
use office_connect.Checklist.Engine.Order.{All-sort_specs}
use office_connect.Checklist.Engine.Blocking.{
  IsSatisfied, IsFulfilled, plan_checklist-iff-IsFulfilled,
}

abbrev pub IsValid : CatalogSpec → Type 0
IsValid spec = validate_required_rule spec.required_rule ≡ ok tt

-- If the rule requires the row, and a human must bring its evidence, then something is there.
abbrev pub IsProvided : Fields → List ItemState → CatalogSpec → Type 0
IsProvided facts existing spec =
    Requires facts spec.required_rule
    → is_blocking_evidence spec.evidence ≡ true
    → IsSatisfied (state_of existing spec.catalog_id)

abbrev IsEvaluated : Fields → CatalogSpec → Type 0
IsEvaluated facts spec =
    (o : RuleOutcome) × (evaluate_required_rule facts spec.required_rule ≡ ok o)

IsProvided-IsFulfilled :
    (facts : Fields) (existing : List ItemState) (spec : CatalogSpec)
    → IsValid spec
    → IsEvaluated facts spec
    → IsFulfilled facts existing spec ↔ IsProvided facts existing spec
IsProvided-IsFulfilled facts existing spec valid (o, ran) =
    let (readable, said) = validate_required_rule-Requires facts spec.required_rule o valid ran in
    (
      λ full required blocks. full o ran (said.1 required) blocks,
      λ provided o' ran' needed blocks.
          provided
            (said.0 (ap (λ (x : RuleOutcome). x.required) (ok-injective (sym ran ∙ ran')) ∙ needed))
            blocks,
    )

All-IsProvided :
    (facts : Fields) (existing : List ItemState) (specs : List CatalogSpec)
    → All IsValid specs
    → All (IsEvaluated facts) specs
    → All (IsFulfilled facts existing) specs ↔ All (IsProvided facts existing) specs
All-IsProvided facts existing [] valid ran = (λ h. h, λ h. h)
All-IsProvided facts existing (spec ∷ specs) valid ran =
    let (out, into) = IsProvided-IsFulfilled facts existing spec valid.0 ran.0 in
    let (forth, back) = All-IsProvided facts existing specs valid.1 ran.1 in
    (λ h. (out h.0, forth h.1), λ h. (into h.0, back h.1))

module _ (run_auto_checks : Runner) (existing : List ItemState) (facts : Fields) where
  rows-IsEvaluated :
      (specs : List CatalogSpec) {plans : List ItemPlan}
      → plan_rows run_auto_checks existing facts specs ≡ ok plans
      → All (IsEvaluated facts) specs
  unfolding plan_rows plan_row
  rows-IsEvaluated [] h = tt
  rows-IsEvaluated (spec ∷ specs) h =
      let (first, row, more) = >>=-eq-ok (plan_row run_auto_checks existing facts spec) _ h in
      let (rest, rows, last) = >>=-eq-ok (plan_rows run_auto_checks existing facts specs) _ more in
      let (o, ran, planned) = >>=-eq-ok (evaluate_required_rule facts spec.required_rule) _ row in
      ((o, ran), rows-IsEvaluated specs rows)

  -- If every rule of a catalog passes validation, and the checklist is planned, then the packet is complete
  -- exactly where every row that its rule requires, and whose evidence a human must bring, has a waiver, a
  -- generated document or a file: whatever the automatic checks say, and in whatever order the rows stand.
  pub plan_checklist-Requires :
      (catalog : List CatalogSpec) (plans : List ItemPlan)
      → All IsValid catalog
      → plan_checklist run_auto_checks existing facts catalog ≡ ok plans
      → (is_complete (packet_status plans) ≡ true) ↔ All (IsProvided facts existing) catalog
  unfolding plan_checklist
  plan_checklist-Requires catalog plans valid h =
      let (forth, back) =
        plan_checklist-iff-IsFulfilled run_auto_checks existing facts catalog plans h in
      let (unsort, sort) = All-sort_specs (IsEvaluated facts) catalog in
      let (out, into) =
        All-IsProvided facts existing catalog valid
          (unsort (rows-IsEvaluated (sort_specs catalog) h)) in
      (λ complete. out (forth complete), λ provided. back (into provided))
