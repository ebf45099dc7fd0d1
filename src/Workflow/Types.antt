-- ===== src/Workflow/Types.antt =====
-- office_connect/core/models/workflow.py: the rows of the workflow tables.
-- Ids are natural numbers, times are seconds, and amounts are centavos (`Numeric(12, 2)`). The
-- columns that no function of the package reads (names, descriptions, payload, the reserved role of a
-- transition, when a version was published) are left out.
use office_connect.Base.{ℕ, Bool, true, false, Option, List, String, ◌==◌, ◌≡◌, arith}
use office_connect.Base.Int.{ℤ}
use office_connect.OrgUnits.{Directory}

pub data StateKind : Type 0 where
  initial normal terminal : StateKind

pub data Action : Type 0 where
  submit approve return reject cancel escalate resubmit : Action

pub data StepStatus : Type 0 where
  pending active done returned skipped : StepStatus

pub data JoinType : Type 0 where
  all any quorum : JoinType

pub data EventType : Type 0 where
  started transition escalation reminder note : EventType

pub record DefinitionVersion : Type 0 where
  pub id : ℕ
  pub definition_id : ℕ
  pub version_no : ℕ
  pub is_published : Bool

pub record Definition : Type 0 where
  pub id : ℕ
  pub code : String

pub record State : Type 0 where
  pub id : ℕ
  pub definition_version_id : ℕ
  pub code : String
  pub kind : StateKind
  pub is_approval_gate : Bool
  pub required_permission : Option String
  pub join_type : JoinType
  pub step_count : ℕ
  pub quorum_count : Option ℕ
  pub sla_hours : Option ℕ
  pub enforce_segregation : Bool
  pub requires_comment : Bool

pub record Transition : Type 0 where
  pub id : ℕ
  pub definition_version_id : ℕ
  pub from_state_id : ℕ
  pub to_state_id : ℕ
  pub action : Action
  pub sort_order : ℕ
  pub required_permission : Option String
  pub min_amount : Option ℤ
  pub max_amount : Option ℤ
  pub requires_comment : Bool

pub record Instance : Type 0 where
  pub id : ℕ
  pub definition_version_id : ℕ
  pub current_state_id : ℕ
  pub row_version : ℕ
  pub revision_no : ℕ
  pub originator_user_id : Option ℕ
  pub org_unit_id : Option ℕ
  pub amount : Option ℤ

pub record Step : Type 0 where
  pub id : ℕ
  pub instance_id : ℕ
  pub state_id : ℕ
  pub revision_no : ℕ
  pub sequence_no : ℕ
  pub join_type : JoinType
  pub quorum_count : Option ℕ
  pub required_permission : Option String
  pub org_unit_id : Option ℕ
  pub status : StepStatus
  pub acted_by_user_id : Option ℕ
  pub on_behalf_of_user_id : Option ℕ
  pub acted_at : Option ℕ
  pub comment : Option String
  pub sla_due_at : Option ℕ
  pub escalation_level : ℕ

pub record Event : Type 0 where
  pub id : ℕ
  pub instance_id : ℕ
  pub step_id : Option ℕ
  pub event_type : EventType
  pub action : Option Action
  pub from_state_id : Option ℕ
  pub to_state_id : Option ℕ
  pub actor_user_id : Option ℕ
  pub on_behalf_of_user_id : Option ℕ
  pub comment : Option String
  pub idempotency_key : Option String
  pub escalation_level : Option ℕ
  pub revision_no : Option ℕ

pub record Delegation : Type 0 where
  pub delegator_user_id : ℕ
  pub delegate_user_id : ℕ
  pub definition_id : Option ℕ
  pub org_unit_id : Option ℕ
  pub starts_at : ℕ
  pub ends_at : ℕ

pub record FeatureFlag : Type 0 where
  pub key : String
  pub enabled : Bool
  pub is_active : Bool

-- The tables as one transaction sees them, with the clock (`utc_now()`) and the ids that the
-- database hands out next. Each list is in id order, which is the order of insertion.
pub record Db : Type 0 where
  pub directory : Directory
  pub flags : List FeatureFlag
  pub definitions : List Definition
  pub versions : List DefinitionVersion
  pub states : List State
  pub transitions : List Transition
  pub delegations : List Delegation
  pub instances : List Instance
  pub steps : List Step
  pub events : List Event
  pub next_instance_id : ℕ
  pub next_step_id : ℕ
  pub next_event_id : ℕ
  pub clock : ℕ

abbrev pub is_terminal : StateKind → Bool
is_terminal StateKind.terminal = true
is_terminal _ = false

abbrev pub is_initial : StateKind → Bool
is_initial StateKind.initial = true
is_initial _ = false

abbrev pub is_active : StepStatus → Bool
is_active StepStatus.active = true
is_active _ = false

abbrev pub is_done : StepStatus → Bool
is_done StepStatus.done = true
is_done _ = false

abbrev pub is_open : StepStatus → Bool
is_open StepStatus.active = true
is_open StepStatus.pending = true
is_open _ = false

abbrev pub is_live : StepStatus → Bool
is_live StepStatus.active = true
is_live StepStatus.done = true
is_live _ = false

abbrev action_no : Action → ℕ
action_no Action.submit = 0
action_no Action.approve = 1
action_no Action.return = 2
action_no Action.reject = 3
action_no Action.cancel = 4
action_no Action.escalate = 5
action_no Action.resubmit = 6

-- equality of the enum's values
abbrev pub action_eq : Action → Action → Bool
action_eq a b = action_no a == action_no b

pub eq_of-action_eq : (a b : Action) → action_eq a b ≡ true → a ≡ b
eq_of-action_eq a b h = ground arith
