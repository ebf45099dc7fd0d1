-- ===== src/Reimbursement/Walkthrough.antt =====
-- A traveller's claim and liquidation on their way to the money: the test data of the claim services.
use office_connect.Base.{ℕ, ◌≡◌, refl, ◌/◌, Bool, true, false, none, some, [], ◌∷◌}
use office_connect.Base.Int.{pos}
use office_connect.Json.{Json, Fields}
use office_connect.OrgUnits.{Directory}
use office_connect.Workflow.Types.{
  StateKind, StepStatus, Action, JoinType, State, Transition, Instance, Step, Db,
}
use office_connect.Reimbursement.Claims.Lifecycle.{
  Environment, Submission, submit_claim, draft_claim,
}
use office_connect.Reimbursement.Errors.{Result, ok, err}
use office_connect.Reimbursement.Fms.{Payment}
use office_connect.Reimbursement.Records.{
  ClaimKind, AdvanceStatus, CashAdvance, Claim, ItineraryLeg, Totals, Config, Staff, Store,
}
use office_connect.Reimbursement.Settling.{Settlement}

abbrev pub drafting : State
drafting = record {
  id = 10;
  definition_version_id = 1;
  code = "draft";
  kind = StateKind.initial;
  is_approval_gate = false;
  required_permission = none;
  join_type = JoinType.all;
  step_count = 1;
  quorum_count = none;
  sla_hours = none;
  enforce_segregation = false;
  requires_comment = false;
}

abbrev pub with_fms : State
with_fms = record drafting {
  id = 11;
  code = "handed_to_fms";
  kind = StateKind.normal;
  is_approval_gate = true;
  required_permission = some "reimb.claim.fms_update";
}

abbrev pub paid : State
paid = record drafting { id = 12; code = "paid_closed"; kind = StateKind.terminal }

abbrev pub submitting : Transition
submitting = record {
  id = 20;
  definition_version_id = 1;
  from_state_id = 10;
  to_state_id = 11;
  action = Action.submit;
  sort_order = 0;
  required_permission = none;
  min_amount = none;
  max_amount = none;
  requires_comment = false;
}

abbrev pub closing_it : Transition
closing_it = record submitting {
  id = 21;
  from_state_id = 11;
  to_state_id = 12;
  action = Action.approve;
}

-- the officer, account 2, may act for FMS everywhere
abbrev pub directory : Directory
directory = record {
  org_units = record { id = 7; parent_org_unit_id = none; deleted = false } ∷ [];
  permissions = record { id = 5; code = "reimb.claim.fms_update" } ∷ [];
  role_permissions = record { role_id = 3; permission_id = 5 } ∷ [];
  user_roles =
      record { user_id = 2; role_id = 3; org_unit_id = none; valid_from = none; valid_to = none }
      ∷ [];
}

-- Both chains are cut to the states draft, handed_to_fms and the last one.
abbrev pub engine : Db
engine = record {
  directory = directory;
  flags = record { key = "module.reimbursement"; enabled = true; is_active = true } ∷ [];
  definitions =
      record { id = 1; code = "reimbursement.claim" }
      ∷ record { id = 2; code = "reimbursement.liquidation" }
      ∷ [];
  versions =
      record { id = 1; definition_id = 1; version_no = 1; is_published = true }
      ∷ record { id = 2; definition_id = 2; version_no = 1; is_published = true }
      ∷ [];
  states =
      drafting
      ∷ with_fms
      ∷ paid
      ∷ record drafting { id = 13; definition_version_id = 2 }
      ∷ record with_fms { id = 14; definition_version_id = 2 }
      ∷ record paid { id = 15; definition_version_id = 2; code = "settled" }
      ∷ [];
  transitions =
      submitting
      ∷ closing_it
      ∷ record submitting {
        id = 22;
        definition_version_id = 2;
        from_state_id = 13;
        to_state_id = 14;
      }
      ∷ record closing_it {
        id = 23;
        definition_version_id = 2;
        from_state_id = 14;
        to_state_id = 15;
      }
      ∷ [];
  delegations = [];
  instances = [];
  steps = [];
  events = [];
  next_instance_id = 1;
  next_step_id = 1;
  next_event_id = 1;
  clock = 1000;
}

abbrev pub traveller : Staff
traveller = record {
  id = 30;
  section_id = none;
  division_id = some 7;
  employment_status = "permanent";
  deleted = false;
}

-- an advance of 500 pesos
abbrev pub advance : CashAdvance
advance = record {
  id = 1;
  claimant_id = 30;
  dv_no = some "DV-1";
  dv_date = some 600;
  amount = pos 50000;
  dpo_no = some "DPO-1";
  date_return = some 1000;
  deadline_date = some 1030;
  deadline_basis = some "calendar";
  status = AdvanceStatus.overdue;
  settled_at = none;
  settled_by = none;
  settlement_mode = none;
  refund_or_no = none;
  refund_or_date = none;
  refund_amount = none;
}

abbrev pub trip : Claim
trip = record (draft_claim 1 ClaimKind.reimbursement traveller 1 0) {
  destination_region_code = some "07";
  date_depart = some 1000;
  date_return = some 1000;
}

abbrev pub leg : ItineraryLeg
leg = record {
  id = 1;
  claim_id = 1;
  seq = 1;
  leg_date = some 1000;
  place = some "Cebu";
  destination_region_code = some "07";
  time_depart = none;
  time_arrive = none;
  transport_mode = some "bus";
  fare = some (pos 20000);
  per_diem_pct = none;
  per_diem_amount = none;
  leg_total = none;
  lodging_provided = false;
  meals_provided = false;
}

abbrev pub shares : Config
shares = record {
  key = "per_diem.apportionment";
  value = Json.obj (
      Fields.field "lodging" (Json.int (pos 50)) (
        Fields.field "meals" (Json.int (pos 30))
          (Fields.field "incidentals" (Json.int (pos 20)) Fields.end)));
  effective_from = 100;
  tenant_id = none;
  is_active = true;
}

abbrev pub last_day : Config
last_day = record shares {
  key = "per_diem.departure_day_rate";
  value = Json.obj (Fields.field "pct" (Json.int (pos 50)) Fields.end);
}

-- The traveller, account 1, has a draft claim, and a draft liquidation of the advance.
abbrev pub office : Store
office = record {
  db = engine;
  accounts =
      record { id = 1; is_active = true; staff_id = some 30 }
      ∷ record { id = 2; is_active = true; staff_id = none }
      ∷ [];
  staff = traveller ∷ [];
  holidays = [];
  sequences = [];
  configs = shares ∷ last_day ∷ [];
  regions =
      record { region_code = "07"; cluster = "B"; effective_from = 100; is_active = true } ∷ [];
  rates =
      record { cluster = "B"; daily_rate = pos 150000; effective_from = 100; is_active = true }
      ∷ [];
  return_reasons = [];
  advances = advance ∷ [];
  claims =
      trip ∷ record trip { id = 2; kind = ClaimKind.liquidation; cash_advance_id = some 1 } ∷ [];
  legs = leg ∷ record leg { id = 2; claim_id = 2 } ∷ [];
  histories = [];
  return_events = [];
  external_events = [];
  next_advance_id = 2;
  next_claim_id = 3;
  next_leg_id = 3;
}

-- every packet is complete
abbrev pub environment : Environment
environment = record {
  year_of = λ day. day / 365;
  submit_key = λ claim revision. "submit";
  action_key = λ action claim revision state actor. "approve";
  assert_packet_complete = λ s claim actor now. ok tt;
  assert_persisted_packet_complete = λ s claim. ok tt;
}

abbrev pub files : ℕ → Submission
files claim = record { claim_id = claim; actor_user_id = 1; idempotency_key = none; now = 2000 }

abbrev pub store_of : Result (Claim × Store) → Store
store_of (ok x) = x.1
store_of (err e) = office

abbrev pub claim_of : Result (Claim × Store) → Claim
claim_of (ok x) = x.0
claim_of (err e) = trip

abbrev pub filed : Store
filed = store_of (submit_claim environment office (files 1))

abbrev pub payment : Payment
payment = record {
  claim_id = 1;
  actor_user_id = 2;
  payout_ref = some " LDDAP-7 ";
  paid_on = some 1000;
  comment = none;
  expected_version = none;
  now = 3000;
}

-- The same two claims, once they are with FMS.
abbrev pub on_its_way : Instance
on_its_way = record {
  id = 1;
  definition_version_id = 1;
  current_state_id = 11;
  row_version = 2;
  revision_no = 1;
  originator_user_id = some 1;
  org_unit_id = some 7;
  amount = some (pos 90000);
}

abbrev pub waiting_step : Step
waiting_step = record {
  id = 1;
  instance_id = 1;
  state_id = 11;
  revision_no = 1;
  sequence_no = 0;
  join_type = JoinType.all;
  quorum_count = none;
  required_permission = some "reimb.claim.fms_update";
  org_unit_id = some 7;
  status = StepStatus.active;
  acted_by_user_id = none;
  on_behalf_of_user_id = none;
  acted_at = none;
  comment = none;
  sla_due_at = none;
  escalation_level = 0;
}

-- 900 pesos against the advance of 500
abbrev pub figures : Totals
figures = record {
  per_diem = pos 70000;
  transport = pos 20000;
  other = pos 0;
  grand = pos 90000;
  advance = pos 50000;
  to_reimburse = pos 40000;
  to_refund = pos 0;
  computed_at = 1000;
  days = [];
}

abbrev pub reimbursing : Claim
reimbursing = record trip { workflow_instance_id = some 1; status = some "handed_to_fms" }

abbrev pub liquidating : Claim
liquidating = record reimbursing {
  id = 2;
  kind = ClaimKind.liquidation;
  cash_advance_id = some 1;
  workflow_instance_id = some 2;
  totals = some figures;
}

abbrev pub at_fms : Store
at_fms = record office {
  db = record engine {
    instances =
        on_its_way
        ∷ record on_its_way { id = 2; definition_version_id = 2; current_state_id = 14 }
        ∷ [];
    steps = waiting_step ∷ record waiting_step { id = 2; instance_id = 2; state_id = 14 } ∷ [];
    next_instance_id = 3;
    next_step_id = 3;
  };
  claims = reimbursing ∷ liquidating ∷ [];
}

abbrev pub settlement : Settlement
settlement = record {
  claim_id = 2;
  actor_user_id = 2;
  or_no = none;
  or_date = none;
  refund_amount = none;
  comment = none;
  expected_version = none;
  now = 3000;
}

abbrev pub is_ok : Result (Claim × Store) → Bool
is_ok (ok x) = true
is_ok (err e) = false

pub returned : (r : Result (Claim × Store)) → is_ok r ≡ true → r ≡ ok (claim_of r, store_of r)
returned (ok x) h = refl
returned (err e) h = cc
