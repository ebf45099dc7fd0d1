-- ===== src/Workflow/Service.antt =====
-- office_connect/core/workflow/service.py and the reads of definitions.py that it needs: starting an
-- instance on the latest published version.
use office_connect.Base.{
  ℕ, ◌+◌, Bool, true, false, ◌&&◌, Option, none, some, List, [], ◌∷◌, ◌++◌, String, ltb, ◌==◌,
  if◌then◌else◌, find?, filter, any, get_or,
}
use office_connect.Base.Int.{ℤ}
use text.Mathlib.Text.{◌==◌ as str_eq}
use office_connect.Workflow.Types.{
  EventType, DefinitionVersion, State, Instance, Event, Db, is_initial,
}
use office_connect.Workflow.Result.{Error, Result, ok, err, ◌>>=◌, ◌>>◌, guard, require}
use office_connect.Workflow.Steps.{activate_state_steps}

-- the arguments of `start_instance`; the subject and the context are stored and never read
pub record Start : Type 0 where
  pub definition_code : String
  pub actor_user_id : Option ℕ
  pub org_unit_id : Option ℕ
  pub amount : Option ℤ
  pub feature_flag_key : Option String
  pub now : Option ℕ

pub flag_enabled : Db → String → Bool
flag_enabled db key = elim (find? (λ f. str_eq f.key key) db.flags) [
  | none ↦ false
  | some f ↦ f.enabled && f.is_active
]

-- `order_by(version_no.desc()).limit(1)`: of equal numbers the first row
unfoldable pub latest : List DefinitionVersion → Option DefinitionVersion
latest [] = none
latest (v ∷ vs) = elim (latest vs) [
  | none ↦ some v
  | some w ↦ if ltb v.version_no w.version_no then some w else some v
]

unfoldable pub get_published_version : Db → String → Option DefinitionVersion
unfolding latest
get_published_version db code = latest (
    filter
      (λ v.
        v.is_published && any (λ d. d.id == v.definition_id && str_eq d.code code) db.definitions)
      db.versions)

-- `.scalars().one()`
abbrev pub the_one : List State → Result State
the_one (s ∷ []) = ok s
the_one _ = err Error.not_exactly_one_row

unfoldable pub initial_state : Db → ℕ → Result State
initial_state db version_id =
    the_one (filter (λ s. s.definition_version_id == version_id && is_initial s.kind) db.states)

abbrev pub flag_allows : Db → Option String → Bool
flag_allows db none = true
flag_allows db (some key) = flag_enabled db key

abbrev pub new_instance : Db → Start → DefinitionVersion → State → Instance
new_instance db s version initial = record {
  id = db.next_instance_id;
  definition_version_id = version.id;
  current_state_id = initial.id;
  row_version = 1;
  revision_no = 1;
  originator_user_id = s.actor_user_id;
  org_unit_id = s.org_unit_id;
  amount = s.amount;
}

abbrev pub started_event : Db → Start → Instance → State → Event
started_event db s i initial = record {
  id = db.next_event_id;
  instance_id = i.id;
  step_id = none;
  event_type = EventType.started;
  action = none;
  from_state_id = none;
  to_state_id = some initial.id;
  actor_user_id = s.actor_user_id;
  on_behalf_of_user_id = none;
  comment = none;
  idempotency_key = none;
  escalation_level = none;
  revision_no = some i.revision_no;
}

abbrev pub insert_instance : Db → Instance → Db
insert_instance db i = record db {
  instances = db.instances ++ i ∷ [];
  next_instance_id = db.next_instance_id + 1;
}

abbrev pub append_event : Db → Event → Db
append_event db e = record db { events = db.events ++ e ∷ []; next_event_id = db.next_event_id + 1 }

unfoldable pub start_instance : Db → Start → Result (Instance × Db)
unfolding flag_enabled get_published_version latest initial_state
start_instance db s = do
  let now = get_or s.now db.clock
  guard (flag_allows db s.feature_flag_key) Error.module_disabled
  version ← require (get_published_version db s.definition_code) Error.definition_not_published
  initial ← initial_state db version.id
  let i = new_instance db s version initial
  let inserted = insert_instance db i
  let activated =
      if initial.is_approval_gate then activate_state_steps inserted i initial now else inserted
  ok (i, append_event activated (started_event db s i initial))
