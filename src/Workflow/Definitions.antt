-- ===== src/Workflow/Definitions.antt =====
-- office_connect/core/workflow/definitions.py: versions, states and transitions are added to a draft, whose
-- graph is validated when it is published. (Its reads are in Service.) The `id` of a new row is the one
-- that the database hands out.
pub mod Exploration
pub mod Graph
pub mod Frozen
pub mod Authoring
pub mod Latest
pub mod Start
mod Examples
use office_connect.Base.{
  ℕ, zero, suc, ◌+◌, Bool, true, false, not, ◌&&◌, ◌||◌, Option, none, some, List, [], ◌∷◌, ◌++◌,
  String, ◌==◌, if◌then◌else◌, any, all, filter, map, length, max,
}
use office_connect.Base.Int.{ℤ}
use office_connect.Workflow.Types.{
  StateKind, Action, JoinType, Definition, DefinitionVersion, State, Transition, Db, is_initial,
  is_terminal,
}
use office_connect.Workflow.Result.{Error, Result, ok, err, ◌>>=◌, ◌>>◌, guard}

-- `func.max`, with the `or 0`
abbrev pub max_version_no : ℕ → List DefinitionVersion → ℕ
max_version_no definition_id [] = 0
max_version_no definition_id (v ∷ vs) =
    let rest = max_version_no definition_id vs in
    if v.definition_id == definition_id then max v.version_no rest else rest

unfoldable pub create_version : Db → ℕ → Definition → DefinitionVersion × Db
create_version db id definition =
    let version : DefinitionVersion = record {
      id = id;
      definition_id = definition.id;
      version_no = max_version_no definition.id db.versions + 1;
      is_published = false;
    } in
    (version, record db { versions = db.versions ++ version ∷ [] })

-- the arguments of `add_state` that the engine reads
pub record NewState : Type 0 where
  pub code : String
  pub kind : StateKind
  pub is_approval_gate : Bool
  pub required_permission : Option String
  pub join_type : JoinType
  pub step_count : ℕ
  pub quorum_count : Option ℕ
  pub sla_hours : Option ℕ
  pub enforce_segregation : Bool
  pub requires_comment : Bool

abbrev pub state_row : ℕ → DefinitionVersion → NewState → State
state_row id version s = record {
  id = id;
  definition_version_id = version.id;
  code = s.code;
  kind = s.kind;
  is_approval_gate = s.is_approval_gate;
  required_permission = s.required_permission;
  join_type = s.join_type;
  step_count = s.step_count;
  quorum_count = s.quorum_count;
  sla_hours = s.sla_hours;
  enforce_segregation = s.enforce_segregation;
  requires_comment = s.requires_comment;
}

unfoldable pub add_state : Db → ℕ → DefinitionVersion → NewState → Result (State × Db)
add_state db id version s = do
  guard (not version.is_published) Error.already_published
  let state = state_row id version s
  ok (state, record db { states = db.states ++ state ∷ [] })

-- the arguments of `add_transition`
pub record NewTransition : Type 0 where
  pub from_state : State
  pub to_state : State
  pub action : Action
  pub sort_order : ℕ
  pub required_permission : Option String
  pub min_amount : Option ℤ
  pub max_amount : Option ℤ
  pub requires_comment : Bool

abbrev pub transition_row : ℕ → DefinitionVersion → NewTransition → Transition
transition_row id version t = record {
  id = id;
  definition_version_id = version.id;
  from_state_id = t.from_state.id;
  to_state_id = t.to_state.id;
  action = t.action;
  sort_order = t.sort_order;
  required_permission = t.required_permission;
  min_amount = t.min_amount;
  max_amount = t.max_amount;
  requires_comment = t.requires_comment;
}

unfoldable pub add_transition :
    Db → ℕ → DefinitionVersion → NewTransition → Result (Transition × Db)
add_transition db id version t = do
  guard (not version.is_published) Error.already_published
  let transition = transition_row id version t
  ok (transition, record db { transitions = db.transitions ++ transition ∷ [] })

-- `_states_and_transitions`
abbrev pub states_of : Db → ℕ → List State
states_of db version_id = filter (λ s. s.definition_version_id == version_id) db.states

abbrev pub transitions_of : Db → ℕ → List Transition
transitions_of db version_id = filter (λ t. t.definition_version_id == version_id) db.transitions

abbrev pub member : ℕ → List ℕ → Bool
member x xs = any (λ y. y == x) xs

-- `out[node]`: every node of the search is the id of a state
abbrev pub out : List Transition → ℕ → List ℕ
out transitions node = map (λ t. t.to_state_id) (filter (λ t. t.from_state_id == node) transitions)

-- The search: the frontier is a stack, its top first.
pub record Search : Type 0 where
  pub seen : List ℕ
  pub frontier : List ℕ

-- `frontier.extend(ids)`
abbrev pub extend : List ℕ → List ℕ → List ℕ
extend frontier [] = frontier
extend frontier (id ∷ ids) = extend (id ∷ frontier) ids

-- one round of the `while frontier`
unfoldable pub visit : List Transition → Search → Search
visit transitions s = elim s.frontier [
  | [] ↦ s
  | node ∷ rest ↦
      if member node s.seen
      then record { seen = s.seen; frontier = rest }
      else record { seen = node ∷ s.seen; frontier = extend rest (out transitions node) }
]

-- a round with an empty frontier changes nothing, so the fuel only has to be large enough
unfoldable pub explore : ℕ → List Transition → Search → Search
unfolding visit
explore zero transitions s = s
explore (suc fuel) transitions s = explore fuel transitions (visit transitions s)

abbrev pub start_at : ℕ → Search
start_at id = record { seen = []; frontier = id ∷ [] }

-- one round for every transition, and one for the initial state
unfoldable pub reached : List Transition → ℕ → List ℕ
unfolding explore
reached transitions initial =
    (explore (suc (length transitions)) transitions (start_at initial)).seen

abbrev pub some_state : List State → Bool
some_state [] = false
some_state (s ∷ states) = true

-- `if len(initials) != 1: raise`, and `initials[0]`
abbrev pub only_initial : List State → Result State
only_initial (s ∷ []) = ok s
only_initial _ = err Error.invalid_definition

abbrev pub ids_of : List State → List ℕ
ids_of states = map (λ s. s.id) states

abbrev pub endpoints_known : List State → Transition → Bool
endpoints_known states t =
    member t.from_state_id (ids_of states) && member t.to_state_id (ids_of states)

abbrev pub nonempty : List ℕ → Bool
nonempty [] = false
nonempty (id ∷ ids) = true

abbrev pub has_exit : List Transition → State → Bool
has_exit transitions s = is_terminal s.kind || nonempty (out transitions s.id)

unfoldable pub validate_graph : List State → List Transition → Result (Unit {0})
unfolding reached
validate_graph states transitions = do
  guard (some_state states) Error.invalid_definition
  initial ← only_initial (filter (λ s. is_initial s.kind) states)
  guard (any (λ s. is_terminal s.kind) states) Error.invalid_definition
  guard (all (endpoints_known states) transitions) Error.invalid_definition
  guard (all (has_exit transitions) states) Error.invalid_definition
  guard (all (λ s. member s.id (reached transitions initial.id)) states) Error.invalid_definition

abbrev pub published : DefinitionVersion → DefinitionVersion
published version = record version { is_published = true }

abbrev pub save_version : DefinitionVersion → List DefinitionVersion → List DefinitionVersion
save_version version versions = map (λ v. if v.id == version.id then version else v) versions

unfoldable pub publish_version : Db → DefinitionVersion → Result (DefinitionVersion × Db)
unfolding validate_graph
publish_version db version =
    if version.is_published
    then ok (version, db)
    else (validate_graph (states_of db version.id) (transitions_of db version.id)
        >> ok (
          published version,
          record db { versions = save_version (published version) db.versions },
        ))
