-- ===== src/Workflow/Decisions.antt =====
-- The branches of execute_action (office_connect/core/workflow/transitions.py): what an approval, a
-- return or reject, and an originator's action check, and what they decide.
use office_connect.Base.{
  ℕ, ◌+◌, Bool, true, false, not, ◌&&◌, Option, none, some, List, [], ◌∷◌, ◌++◌, String, ◌==◌,
  if◌then◌else◌, find?, any, map, is_id, or_else,
}
use office_connect.Workflow.Types.{
  Action, StepStatus, State, Transition, Instance, Step, Db, is_active, is_done, is_open,
}
use office_connect.Workflow.Result.{Error, Result, ok, ◌>>=◌, ◌>>◌, guard, require}
use office_connect.Workflow.Steps.{gate_steps, in_gate, join_satisfied}
use office_connect.Workflow.Segregation.{assert_segregation}
use office_connect.Workflow.Delegation.{Authority, resolve_authority}

-- the arguments of `execute_action`
pub record Request : Type 0 where
  pub instance_id : ℕ
  pub action : Action
  pub actor_user_id : ℕ
  pub comment : Option String
  pub idempotency_key : Option String
  pub expected_version : Option ℕ
  pub now : Option ℕ

-- `action in GATE_ACTIONS`
abbrev pub is_gate_action : Action → Bool
is_gate_action Action.approve = true
is_gate_action Action.return = true
is_gate_action Action.reject = true
is_gate_action _ = false

unfoldable pub definition_id : Db → Instance → Option ℕ
definition_id db i = elim (find? (λ v. v.id == i.definition_version_id) db.versions) [
  | none ↦ none
  | some v ↦ some v.definition_id
]

unfoldable pub authorize_originator : Db → Instance → Transition → ℕ → Option ℕ → ℕ → Authority
authorize_originator db i t actor definition now =
    if is_id i.originator_user_id actor
    then record { authorized = true; on_behalf_of = none }
    else resolve_authority db actor t.required_permission i.org_unit_id definition now

-- What the branch of an action decides: who is represented, which step was filled, the next state
-- and revision, and the step rows as they are left.
pub record Decision : Type 0 where
  pub on_behalf_of : Option ℕ
  pub acted_step_id : Option ℕ
  pub new_state_id : ℕ
  pub revision_no : ℕ
  pub steps : List Step

-- the distinct-approver test
abbrev pub has_acted : ℕ → List Step → Bool
has_acted actor = any (λ s. is_id s.acted_by_user_id actor && is_done s.status)

-- the approvers of the steps that are done
pub prior_approvers : List Step → List ℕ
prior_approvers [] = []
prior_approvers (s ∷ ss) =
    let rest = prior_approvers ss in
    if is_done s.status then elim s.acted_by_user_id [ none ↦ rest | some a ↦ a ∷ rest ] else rest

unfoldable pub check_segregation : State → Instance → List Step → ℕ → Result (Unit {0})
unfolding prior_approvers
check_segregation current i gate actor =
    if current.enforce_segregation
    then elim i.originator_user_id [
      | none ↦ ok tt
      | some maker ↦ assert_segregation maker (prior_approvers gate ++ actor ∷ [])
    ]
    else ok tt

-- `step.status = "done"` and the four columns beside it
abbrev pub fill : Request → Option ℕ → ℕ → Step → Step
fill r on_behalf_of now s = record s {
  status = StepStatus.done;
  acted_by_user_id = some r.actor_user_id;
  on_behalf_of_user_id = on_behalf_of;
  acted_at = some now;
  comment = r.comment;
}

-- the row that `next(s for s in gate if ...)` returned is changed in place
unfoldable pub update_first : (Step → Bool) → (Step → Step) → List Step → List Step
update_first p f [] = []
update_first p f (s ∷ ss) = let rest = update_first p f ss in if p s then f s ∷ ss else s ∷ rest

abbrev pub update_all : (Step → Bool) → (Step → Step) → List Step → List Step
update_all p f = map (λ s. if p s then f s else s)

abbrev pub active_in : Instance → State → Step → Bool
active_in i current s = in_gate i.id current.id (some i.revision_no) s && is_active s.status

unfoldable pub approved :
    Db → Instance → State → Transition → Request → ℕ → Step → Option ℕ → Decision
unfolding update_first
approved db i current t r now step on_behalf_of =
    let filled = update_first (active_in i current) (fill r on_behalf_of now) db.steps in
    let joined = join_satisfied (gate_steps filled i.id current.id (some i.revision_no)) in
    record {
      on_behalf_of = on_behalf_of;
      acted_step_id = some step.id;
      new_state_id = if joined then t.to_state_id else current.id;
      revision_no = i.revision_no;
      steps =
          if joined
          then update_all (active_in i current) (λ s. record s { status = StepStatus.skipped })
              filled
          else filled;
    }

unfoldable pub decide_approve : Db → Instance → State → Transition → Request → ℕ → Result Decision
decide_approve db i current t r now = do
  let gate = gate_steps db.steps i.id current.id (some i.revision_no)
  guard (not (has_acted r.actor_user_id gate)) Error.already_acted
  step ← require (find? (λ s. is_active s.status) gate) Error.already_acted
  let auth =
      resolve_authority db r.actor_user_id step.required_permission step.org_unit_id
        (definition_id db i) now
  guard auth.authorized Error.not_authorized
  check_segregation current i gate r.actor_user_id
  ok (approved db i current t r now step auth.on_behalf_of)

abbrev pub open_in : Instance → State → Step → Bool
open_in i current s = in_gate i.id current.id (some i.revision_no) s && is_open s.status

-- `"returned" if action == "return" else "skipped"`
abbrev pub resolved_status : Action → StepStatus
resolved_status Action.return = StepStatus.returned
resolved_status _ = StepStatus.skipped

unfoldable pub decide_send_back : Db → Instance → State → Transition → Request → ℕ → Result Decision
decide_send_back db i current t r now = do
  let auth =
      resolve_authority db r.actor_user_id
        (or_else current.required_permission t.required_permission) i.org_unit_id
        (definition_id db i) now
  guard auth.authorized Error.not_authorized
  ok (record {
    on_behalf_of = auth.on_behalf_of;
    acted_step_id = none;
    new_state_id = t.to_state_id;
    revision_no = i.revision_no;
    steps =
        update_all (open_in i current)
          (λ s. record s {
            status = resolved_status r.action;
            acted_by_user_id = some r.actor_user_id;
            on_behalf_of_user_id = auth.on_behalf_of;
            acted_at = some now;
          })
          db.steps;
  })

abbrev pub next_revision : Action → ℕ → ℕ
next_revision Action.resubmit n = n + 1
next_revision _ n = n

unfoldable pub decide_originator : Db → Instance → Transition → Request → ℕ → Result Decision
decide_originator db i t r now = do
  let auth = authorize_originator db i t r.actor_user_id (definition_id db i) now
  guard auth.authorized Error.not_authorized
  ok (record {
    on_behalf_of = auth.on_behalf_of;
    acted_step_id = none;
    new_state_id = t.to_state_id;
    revision_no = next_revision r.action i.revision_no;
    steps = db.steps;
  })

-- the `if action in GATE_ACTIONS` ladder
abbrev pub branch : Action → Db → Instance → State → Transition → Request → ℕ → Result Decision
branch Action.approve db i current t r now = decide_approve db i current t r now
branch Action.return db i current t r now = decide_send_back db i current t r now
branch Action.reject db i current t r now = decide_send_back db i current t r now
branch _ db i current t r now = decide_originator db i t r now
