-- ===== src/Checklist/Examples.antt =====
-- The checklist theorems at a cash advance of 60 000.00 that must bring a signed request.
use office_connect.Base.{◌≡◌, ◌↔◌, refl, here, In, true, false, none, some, [], ◌∷◌, All}
use office_connect.Base.Int.{pos}
use office_connect.Base.Attempts.{ok}
use office_connect.Json.{Json, Items, Fields, lookup}
use office_connect.Decimal.{parse_decimal, finite_lt}
use office_connect.Checklist.Values.{resolve_field, cmp_gt, as_decimal, split_dots}
use office_connect.Checklist.Grammar.{
  Reason, RuleOutcome, evaluate_condition, evaluate, evaluate_required_rule, validate,
  validate_required_rule, unparseable_outcome,
}
use office_connect.Checklist.Grammar.Meaning.{Requires}
use office_connect.Checklist.Grammar.Accepted.{validate_required_rule-Requires}
use office_connect.Checklist.Checks.{Runner}
use office_connect.Checklist.Engine.{
  CatalogSpec, ItemState, ItemPlan, Status, item_plan, insert_spec, sort_specs, state_of, plan_row,
  plan_rows, plan_checklist, packet_status, is_complete,
}
use office_connect.Checklist.Engine.Evidence.{IsPlanOf, plan_checklist-IsPlanOf}
use office_connect.Checklist.Engine.Required.{IsProvided, plan_checklist-Requires}

abbrev advance : Fields
advance = Fields.field "amount" (Json.text "60000.00") Fields.end

-- `{"any": [{"if": {"field": "amount", "gt": 50000}}, {"always": false}]}`
abbrev large_rule : Json
large_rule = Json.obj (
    Fields.field "any"
      (Json.arr (
        Items.cons
          (Json.obj (
            Fields.field "if"
              (Json.obj (
                Fields.field "field" (Json.text "amount")
                  (Fields.field "gt" (Json.int (pos 50000)) Fields.end)))
              Fields.end))
          (Items.cons (Json.obj (Fields.field "always" (Json.bool false) Fields.end)) Items.nil)))
      Fields.end)

abbrev needed : RuleOutcome
needed = record { required = true; reason = Reason.any_satisfied; unparseable = false }

large_rule_read : evaluate_required_rule advance large_rule ≡ ok needed
unfolding evaluate_required_rule evaluate evaluate_condition lookup resolve_field split_dots cmp_gt
    as_decimal parse_decimal finite_lt
large_rule_read = refl

large_rule_valid : validate_required_rule large_rule ≡ ok tt
unfolding validate_required_rule validate lookup
large_rule_valid = refl

validate_required_rule-Requires_example :
    (false ≡ false) × ((true ≡ true) ↔ Requires advance large_rule)
validate_required_rule-Requires_example =
    validate_required_rule-Requires advance large_rule needed large_rule_valid large_rule_read

-- `{"sometimes": true}`
abbrev unknown_rule : Json
unknown_rule = Json.obj (Fields.field "sometimes" (Json.bool true) Fields.end)

unknown_rule_read : evaluate_required_rule advance unknown_rule ≡ ok unparseable_outcome
unfolding evaluate_required_rule evaluate
unknown_rule_read = refl

abbrev no_checks : Runner
no_checks checks facts = ok []

abbrev signed_request : CatalogSpec
signed_request = record {
  catalog_id = 7;
  code = "signed_request";
  label = "Signed request";
  group = "request";
  evidence = "upload";
  required_rule = large_rule;
  auto_checks = Json.arr Items.nil;
  sort = pos 10;
  circular_version = none;
}

abbrev one_file : ItemState
one_file = record {
  item_id = 31;
  catalog_id = 7;
  status = Status.missing;
  evidence_count = 1;
  evidence_pending = 0;
  evidence_infected = 0;
  generated = false;
  waived = false;
  dormant = false;
}

abbrev the_plan : ItemPlan
the_plan = item_plan signed_request (some one_file) needed []

planned_request :
    plan_checklist no_checks (one_file ∷ []) advance (signed_request ∷ []) ≡ ok (the_plan ∷ [])
unfolding plan_checklist plan_rows plan_row sort_specs insert_spec state_of evaluate_required_rule
    evaluate evaluate_condition lookup resolve_field split_dots cmp_gt as_decimal parse_decimal
    finite_lt
planned_request = refl

plan_checklist-Requires_example :
    (is_complete (packet_status (the_plan ∷ [])) ≡ true)
    ↔ All (IsProvided advance (one_file ∷ [])) (signed_request ∷ [])
plan_checklist-Requires_example =
    plan_checklist-Requires no_checks (one_file ∷ []) advance (signed_request ∷ []) (the_plan ∷ [])
      (large_rule_valid, tt) planned_request

request_found : state_of (one_file ∷ []) 7 ≡ some one_file
unfolding state_of
request_found = refl

plan_checklist-IsPlanOf_example :
    (p : ItemPlan) × In p (the_plan ∷ []) × IsPlanOf advance signed_request one_file p
plan_checklist-IsPlanOf_example =
    plan_checklist-IsPlanOf no_checks (one_file ∷ []) advance (signed_request ∷ []) (the_plan ∷ [])
      signed_request one_file planned_request (here refl) request_found refl
