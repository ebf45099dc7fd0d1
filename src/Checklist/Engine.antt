-- ===== src/Checklist/Engine.antt =====
-- office_connect/core/checklist/engine.py: the plan for a subject's checklist, and its packet's status.
-- The runner of the automatic checks is a parameter.
pub mod Order
pub mod Blocking
pub mod Evidence
pub mod Required
use office_connect.Base.{
  ℕ, zero, suc, ◌+◌, ◌-◌, Bool, true, false, not, ◌&&◌, ◌||◌, Option, none, some, List, [], ◌∷◌,
  ◌++◌, String, ltb, leb, ◌==◌, if◌then◌else◌, any, filter, map, length, is_none, is_some,
}
use office_connect.Base.Int.{ℤ, pos, ltb_ℤ, leb_ℤ}
use office_connect.Base.Attempts.{Attempt, ok, err, ◌>>=◌}
use office_connect.Json.{Json, Items, Fields, put_field}
use office_connect.Checklist.Values.{Exception}
use office_connect.Checklist.Grammar.{RuleOutcome, Reason, evaluate_required_rule}
use office_connect.Checklist.Checks.{CheckResult, is_flagged, is_passed, Runner}
use Prim.Native.Nat.{Ordering}
use Prim.Native.String.{compare as compare_text}
use package.text.Mathlib.Text.{◌==◌ as str_eq}

pub record CatalogSpec : Type 0 where
  pub catalog_id : ℕ
  pub code : String
  pub label : String
  pub group : String
  pub evidence : String
  pub required_rule : Json
  pub auto_checks : Json
  pub sort : ℤ
  pub circular_version : Option String

pub data Status : Type 0 where
  missing attached generated auto_passed auto_flagged waived : Status

pub record ItemState : Type 0 where
  pub item_id : ℕ
  pub catalog_id : ℕ
  pub status : Status
  pub evidence_count : ℕ
  pub evidence_pending : ℕ
  pub evidence_infected : ℕ
  pub generated : Bool
  pub waived : Bool
  pub dormant : Bool

abbrev pub holds_something : ItemState → Bool
holds_something s = ltb 0 s.evidence_count || s.waived || s.generated

pub data Action : Type 0 where
  create keep restore make_dormant : Action

pub data EvidenceState : Type 0 where
  missing attached generated waived : EvidenceState

pub record ItemPlan : Type 0 where
  pub catalog : CatalogSpec
  pub item_id : Option ℕ
  pub action : Action
  pub required : Bool
  pub rule_reason : Reason
  pub unparseable_rule : Bool
  pub evidence_state : EvidenceState
  pub derived_status : Status
  pub checks : List CheckResult

abbrev pub is_missing : EvidenceState → Bool
is_missing EvidenceState.missing = true
is_missing _ = false

-- `evidence in BLOCKING_EVIDENCE`
abbrev pub is_blocking_evidence : String → Bool
is_blocking_evidence evidence = str_eq evidence "upload" || str_eq evidence "external_wet_sign"

abbrev pub status_of_checks : Bool → Bool → Status
status_of_checks true passed = Status.auto_flagged
status_of_checks false true = Status.auto_passed
status_of_checks false false = Status.attached

-- `_derive` of an item with no row, and of one with a row
abbrev pub derive_absent : CatalogSpec → List CheckResult → EvidenceState × Status
derive_absent spec checks =
    if str_eq spec.evidence "data_only"
    then (
      EvidenceState.attached,
      if any is_flagged checks then Status.auto_flagged else Status.auto_passed,
    )
    else (EvidenceState.missing, Status.missing)

abbrev pub derive : CatalogSpec → Option ItemState → List CheckResult → EvidenceState × Status
derive spec none checks = derive_absent spec checks
derive spec (some state) checks =
    if state.waived
    then (EvidenceState.waived, Status.waived)
    else if state.generated
    then (EvidenceState.generated, Status.generated)
    else if str_eq spec.evidence "data_only"
    then derive_absent spec checks
    else if ltb 0 state.evidence_count
    then (EvidenceState.attached, status_of_checks (any is_flagged checks) (any is_passed checks))
    else (EvidenceState.missing, Status.missing)

abbrev pub count_json : ℕ → Json
count_json n = Json.int (pos n)

abbrev pub item_overlay : Option ItemState → Json
item_overlay none = Json.obj (
    Fields.field "evidence_count" (count_json 0) (
      Fields.field "evidence_pending" (count_json 0) (
        Fields.field "evidence_infected" (count_json 0) (
          Fields.field "waived" (Json.bool false)
            (Fields.field "generated" (Json.bool false) Fields.end)))))
item_overlay (some s) = Json.obj (
    Fields.field "evidence_count" (count_json s.evidence_count) (
      Fields.field "evidence_pending" (count_json s.evidence_pending) (
        Fields.field "evidence_infected" (count_json s.evidence_infected) (
          Fields.field "waived" (Json.bool s.waived)
            (Fields.field "generated" (Json.bool s.generated) Fields.end)))))

-- `_item_facts`
pub item_facts : Fields → Option ItemState → Fields
unfolding put_field
item_facts facts state = put_field "item" (item_overlay state) facts

abbrev is_lt : Ordering → Bool
is_lt Ordering.lt = true
is_lt _ = false

-- the order of `(row.sort, row.code)`
abbrev pub before : CatalogSpec → CatalogSpec → Bool
before a b = ltb_ℤ a.sort b.sort || (leb_ℤ a.sort b.sort && is_lt (compare_text a.code b.code))

-- `sorted` is stable
unfoldable pub insert_spec : CatalogSpec → List CatalogSpec → List CatalogSpec
insert_spec spec [] = spec ∷ []
insert_spec spec (row ∷ rows) =
    let rest = insert_spec spec rows in if before row spec then row ∷ rest else spec ∷ row ∷ rows

unfoldable pub sort_specs : List CatalogSpec → List CatalogSpec
unfolding insert_spec
sort_specs [] = []
sort_specs (spec ∷ specs) = insert_spec spec (sort_specs specs)

abbrev or_this : Option ItemState → ItemState → ℕ → Option ItemState
or_this (some later) state id = some later
or_this none state id = if state.catalog_id == id then some state else none

-- `by_catalog.get(id)`: of two rows for one catalog row the dict holds the later
unfoldable pub state_of : List ItemState → ℕ → Option ItemState
state_of [] id = none
state_of (state ∷ states) id = or_this (state_of states id) state id

abbrev pub is_dormant : Option ItemState → Bool
is_dormant none = false
is_dormant (some s) = s.dormant

-- the three `continue`s
abbrev pub is_skipped : Option ItemState → RuleOutcome → Bool
is_skipped state outcome =
    if not outcome.required && not outcome.unparseable
    then is_none state || is_dormant state
    else outcome.unparseable && is_dormant state

abbrev pub action_of : Option ItemState → Bool → Action
action_of none applies = Action.create
action_of (some s) applies =
    if applies && s.dormant
    then Action.restore
    else if applies
    then Action.keep
    else if holds_something s
    then Action.keep
    else Action.make_dormant

abbrev pub id_of : Option ItemState → Option ℕ
id_of none = none
id_of (some s) = some s.item_id

abbrev pub item_plan : CatalogSpec → Option ItemState → RuleOutcome → List CheckResult → ItemPlan
item_plan spec state outcome checks =
    let (evidence, status) = derive spec state checks in
    record {
      catalog = spec;
      item_id = id_of state;
      action = action_of state outcome.required;
      required = outcome.required;
      rule_reason = outcome.reason;
      unparseable_rule = outcome.unparseable;
      evidence_state = evidence;
      derived_status = status;
      checks = checks;
    }

module _ (run_auto_checks : Runner) (existing : List ItemState) (facts : Fields) where
  -- the checks run only for a row that is not skipped
  abbrev pub planned :
      CatalogSpec → Option ItemState → RuleOutcome → Attempt Exception (List ItemPlan)
  planned spec state outcome =
      let checks = run_auto_checks spec.auto_checks (item_facts facts state) in
      if is_skipped state outcome
      then ok []
      else checks >>= λ results. ok (item_plan spec state outcome results ∷ [])

  -- the body of the loop: no plan or one
  unfoldable pub plan_row : CatalogSpec → Attempt Exception (List ItemPlan)
  unfolding item_facts state_of evaluate_required_rule
  plan_row spec = evaluate_required_rule facts spec.required_rule >>= λ outcome.
      planned spec (state_of existing spec.catalog_id) outcome

  unfoldable pub plan_rows : List CatalogSpec → Attempt Exception (List ItemPlan)
  unfolding plan_row
  plan_rows [] = ok []
  plan_rows (spec ∷ specs) =
      plan_row spec >>= λ first. plan_rows specs >>= λ rest. ok (first ++ rest)

  unfoldable pub plan_checklist : List CatalogSpec → Attempt Exception (List ItemPlan)
  unfolding plan_rows sort_specs
  plan_checklist catalog = plan_rows (sort_specs catalog)

pub record BlockingItem : Type 0 where
  pub catalog_id : ℕ
  pub item_id : Option ℕ
  pub code : String
  pub label : String
  pub group : String
  pub evidence : String

pub record PacketStatus : Type 0 where
  pub required_total : ℕ
  pub required_done : ℕ
  pub blocking : List BlockingItem
  pub flags : List (ℕ × CheckResult)
  pub unparseable : List ℕ

abbrev pub is_countable : ItemPlan → Bool
is_countable p = p.required && is_blocking_evidence p.catalog.evidence

abbrev pub lacks_evidence : ItemPlan → Bool
lacks_evidence p = is_missing p.evidence_state

abbrev pub blocking_item : ItemPlan → BlockingItem
blocking_item p = record {
  catalog_id = p.catalog.catalog_id;
  item_id = p.item_id;
  code = p.catalog.code;
  label = p.catalog.label;
  group = p.catalog.group;
  evidence = p.catalog.evidence;
}

abbrev pub flags_of : List ItemPlan → List (ℕ × CheckResult)
flags_of [] = []
flags_of (p ∷ plan) =
    map (λ c. (p.catalog.catalog_id, c)) (filter is_flagged p.checks) ++ flags_of plan

-- with `blocking_evidence` at its default
unfoldable pub packet_status : List ItemPlan → PacketStatus
packet_status plan =
    let countable = filter is_countable plan in
    let blocking = map blocking_item (filter lacks_evidence countable) in
    record {
      required_total = length countable;
      required_done = length countable - length blocking;
      blocking = blocking;
      flags = flags_of plan;
      unparseable = map (λ p. p.catalog.catalog_id) (filter (λ p. p.unparseable_rule) plan);
    }

-- `complete`: `not self.blocking`
abbrev pub is_complete : PacketStatus → Bool
is_complete status = elim status.blocking [ [] ↦ true | _ ∷ _ ↦ false ]

-- `status in SATISFIED_STATUSES`
pub status_is_satisfied : Status → Bool
status_is_satisfied Status.missing = false
status_is_satisfied _ = true
