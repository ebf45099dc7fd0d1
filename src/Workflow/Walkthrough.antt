-- ===== src/Workflow/Walkthrough.antt =====
-- A claim on its way through a gate of two approvers: the test data of the engine.
use office_connect.Base.{ℕ, true, false, Option, none, some, [], ◌∷◌, String}
use office_connect.OrgUnits.{Directory}
use office_connect.Workflow.Types.{
  StateKind, Action, JoinType, EventType, State, Transition, Instance, Event, Db,
}
use office_connect.Workflow.Result.{Result, ok, err}
use office_connect.Workflow.Decisions.{Request}
use office_connect.Workflow.Transitions.{execute_action}
use office_connect.Workflow.Service.{Start, start_instance}

abbrev pub draft : State
draft = record {
  id = 10;
  definition_version_id = 1;
  code = "draft";
  kind = StateKind.initial;
  is_approval_gate = false;
  required_permission = none;
  join_type = JoinType.all;
  step_count = 1;
  quorum_count = none;
  sla_hours = none;
  enforce_segregation = false;
  requires_comment = false;
}

abbrev pub review : State
review = record draft {
  id = 11;
  code = "review";
  kind = StateKind.normal;
  is_approval_gate = true;
  step_count = 2;
  sla_hours = some 24;
  enforce_segregation = true;
}

abbrev pub paid : State
paid = record draft { id = 12; code = "paid"; kind = StateKind.terminal }

abbrev pub submitting : Transition
submitting = record {
  id = 20;
  definition_version_id = 1;
  from_state_id = 10;
  to_state_id = 11;
  action = Action.submit;
  sort_order = 0;
  required_permission = none;
  min_amount = none;
  max_amount = none;
  requires_comment = false;
}

abbrev pub approving : Transition
approving = record submitting {
  id = 21;
  from_state_id = 11;
  to_state_id = 12;
  action = Action.approve;
}

abbrev pub nothing_granted : Directory
nothing_granted = record {
  org_units = [];
  permissions = [];
  role_permissions = [];
  user_roles = [];
}

abbrev pub installed : Db
installed = record {
  directory = nothing_granted;
  flags = [];
  definitions = record { id = 1; code = "claim" } ∷ [];
  versions = record { id = 1; definition_id = 1; version_no = 1; is_published = true } ∷ [];
  states = draft ∷ review ∷ paid ∷ [];
  transitions = submitting ∷ approving ∷ [];
  delegations = [];
  instances = [];
  steps = [];
  events = [];
  next_instance_id = 1;
  next_step_id = 1;
  next_event_id = 1;
  clock = 1000;
}

abbrev pub claim : Start
claim = record {
  definition_code = "claim";
  actor_user_id = some 1;
  org_unit_id = none;
  amount = none;
  feature_flag_key = none;
  now = none;
}

abbrev pub asks : Action → ℕ → Option String → ℕ → Request
asks action actor key version = record {
  instance_id = 1;
  action = action;
  actor_user_id = actor;
  comment = none;
  idempotency_key = key;
  expected_version = some version;
  now = none;
}

abbrev pub nobody : Event
nobody = record {
  id = 0;
  instance_id = 0;
  step_id = none;
  event_type = EventType.note;
  action = none;
  from_state_id = none;
  to_state_id = none;
  actor_user_id = none;
  on_behalf_of_user_id = none;
  comment = none;
  idempotency_key = none;
  escalation_level = none;
  revision_no = none;
}

abbrev pub event_of : Result (Event × Db) → Event
event_of (ok x) = x.0
event_of (err e) = nobody

abbrev pub left_by : Result (Event × Db) → Db
left_by (ok x) = x.1
left_by (err e) = installed

abbrev pub started_by : Result (Instance × Db) → Db
started_by (ok x) = x.1
started_by (err e) = installed

abbrev pub claimed : Instance
claimed = record {
  id = 1;
  definition_version_id = 1;
  current_state_id = 10;
  row_version = 1;
  revision_no = 1;
  originator_user_id = some 1;
  org_unit_id = none;
  amount = none;
}

abbrev pub db1 : Db
db1 = started_by (start_instance installed claim)

abbrev pub submit_it : Request
submit_it = asks Action.submit 1 (some "k1") 1

abbrev pub db2 : Db
db2 = left_by (execute_action db1 submit_it)

abbrev pub first_approval : Request
first_approval = asks Action.approve 2 (some "k2") 2

abbrev pub second_approval : Request
second_approval = asks Action.approve 3 (some "k3") 3

abbrev pub db3 : Db
db3 = left_by (execute_action db2 first_approval)

abbrev pub first_event : Event
first_event = event_of (execute_action db2 first_approval)

abbrev pub db4 : Db
db4 = left_by (execute_action db3 second_approval)

abbrev pub reviewing : Instance
reviewing = record claimed { current_state_id = 11; row_version = 2 }

abbrev pub waiting_for_one : Instance
waiting_for_one = record reviewing { row_version = 3 }

abbrev pub done_claim : Instance
done_claim = record claimed { current_state_id = 12; row_version = 4 }

-- two approvers who both read version 2
abbrev pub late : Request
late = asks Action.approve 3 (some "k4") 2

-- Person 7 holds "claims.approve" everywhere, and has person 2 stand in until 2000.
abbrev pub standing_in : Db
standing_in = record installed {
  directory = record {
    org_units = [];
    permissions = record { id = 5; code = "claims.approve" } ∷ [];
    role_permissions = record { role_id = 3; permission_id = 5 } ∷ [];
    user_roles =
        record { user_id = 7; role_id = 3; org_unit_id = none; valid_from = none; valid_to = none }
        ∷ [];
  };
  delegations =
      record {
        delegator_user_id = 7;
        delegate_user_id = 2;
        definition_id = none;
        org_unit_id = none;
        starts_at = 500;
        ends_at = 2000;
      }
      ∷ [];
}
