-- ===== src/Workflow/Transitions.antt =====
-- office_connect/core/workflow/transitions.py: execute_action, one atomic action on an instance.
-- The row locks serialise the actors of one instance, so a call is one step on the database. A call
-- that raises hands back no database, as the caller's transaction is rolled back. The audit context
-- changes nothing that is read here.
pub mod Inversion
pub mod Versions
pub mod Gate
pub mod FanIn
pub mod Available
use office_connect.Base.{
  ℕ, ◌+◌, Bool, true, false, not, ◌&&◌, ◌||◌, Option, none, some, List, [], ◌∷◌, ◌++◌, String, ◌==◌,
  if◌then◌else◌, find?, filter, any, map, get_or, is_id, is_some, truthy, or_else,
}
use text.Mathlib.Text.{◌==◌ as str_eq}
use office_connect.Workflow.Types.{
  Action, StepStatus, EventType, DefinitionVersion, State, Transition, Instance, Step, Event, Db,
  is_terminal, is_active, is_done, is_open,
}
use office_connect.Workflow.Result.{Error, Result, ok, err, ◌>>=◌, ◌>>◌, guard, require}
use office_connect.Workflow.Guards.{select_transition}
use office_connect.Workflow.Steps.{activate_state_steps, gate_steps, in_gate, join_satisfied}
use office_connect.Workflow.Segregation.{assert_segregation}
use office_connect.Workflow.Decisions.{Request, Decision, branch}

abbrev pub find_instance : Db → ℕ → Option Instance
find_instance db id = find? (λ i. i.id == id) db.instances

abbrev pub find_state : Db → ℕ → Option State
find_state db id = find? (λ s. s.id == id) db.states

abbrev pub moved_instance : Instance → Decision → Instance
moved_instance i d = record i {
  current_state_id = d.new_state_id;
  row_version = i.row_version + 1;
  revision_no = d.revision_no;
}

-- `_emit`
abbrev pub emit : Db → Instance → State → Request → Decision → Event
emit db i current r d = record {
  id = db.next_event_id;
  instance_id = i.id;
  step_id = d.acted_step_id;
  event_type = EventType.transition;
  action = some r.action;
  from_state_id = some current.id;
  to_state_id = some d.new_state_id;
  actor_user_id = some r.actor_user_id;
  on_behalf_of_user_id = d.on_behalf_of;
  comment = r.comment;
  idempotency_key = r.idempotency_key;
  escalation_level = none;
  revision_no = some d.revision_no;
}

abbrev pub put_instance : Instance → List Instance → List Instance
put_instance i = map (λ j. if j.id == i.id then i else j)

-- `if moved: ... activate_state_steps(...)`
unfoldable pub enter_state : Db → Instance → State → ℕ → Result Db
enter_state db i current now = if i.current_state_id == current.id then ok db else do
  new_state ← require (find_state db i.current_state_id) Error.attribute_error
  ok (if new_state.is_approval_gate then activate_state_steps db i new_state now else db)

unfoldable pub advance : Db → Instance → State → Request → ℕ → Decision → Result (Event × Db)
advance db i current r now d = do
  let moved = moved_instance i d
  entered ←
      enter_state (record db { instances = put_instance moved db.instances; steps = d.steps }) moved
        current now
  let event = emit db i current r d
  ok (
    event,
    record entered { events = entered.events ++ event ∷ []; next_event_id = db.next_event_id + 1 },
  )

-- `expected_version is not None and instance.row_version != expected_version`, negated
abbrev pub version_matches : Option ℕ → ℕ → Bool
version_matches none current = true
version_matches (some v) current = current == v

unfoldable pub perform : Db → Instance → Request → ℕ → Result (Event × Db)
perform db i r now = do
  guard (version_matches r.expected_version i.row_version) Error.stale_version
  current ← require (find_state db i.current_state_id) Error.attribute_error
  guard (not (is_terminal current.kind)) Error.state_conflict
  t ← require (select_transition db i current r.action) Error.transition_not_allowed
  guard (not ((t.requires_comment || current.requires_comment) && not (truthy r.comment)))
      Error.comment_required
  d ← branch r.action db i current t r now
  advance db i current r now d

abbrev pub same_key : Option String → Option String → Bool
same_key (some a) (some b) = str_eq a b
same_key _ _ = false

-- the idempotency query: the first event of the instance with a key that is not empty
unfoldable pub replayed : Db → ℕ → Option String → Option Event
replayed db instance_id key =
    if truthy key
    then find? (λ e. e.instance_id == instance_id && same_key e.idempotency_key key) db.events
    else none

unfoldable pub execute_action : Db → Request → Result (Event × Db)
execute_action db r = do
  i ← require (find_instance db r.instance_id) Error.instance_not_found
  elim (replayed db r.instance_id r.idempotency_key) [
    | some event ↦ ok (event, db)
    | none ↦ perform db i r (get_or r.now db.clock)
  ]
