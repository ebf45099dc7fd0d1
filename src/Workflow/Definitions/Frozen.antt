-- ===== src/Workflow/Definitions/Frozen.antt =====
-- core/workflow/definitions.py: the authoring functions, one call at a time.
use office_connect.Base.{
  ℕ, ◌≡◌, ◌≢◌, ◌⊎◌, sym, ap, inl, inr, true, false, not, [], ◌∷◌, ◌++◌, ◌==◌, In, arith, Bool-cases,
}
use office_connect.Workflow.Types.{Definition, DefinitionVersion, State, Transition, Db}
use office_connect.Workflow.Result.{Error, ok, guard-eq-ok, >>=-eq-ok, ok-injective}
use office_connect.Workflow.Definitions.{
  create_version, NewState, state_row, add_state, NewTransition, transition_row, add_transition,
  states_of, transitions_of, validate_graph, published, save_version, publish_version,
}
use office_connect.Workflow.Definitions.Graph.{IsWellFormed, validate_graph-IsWellFormed}

-- One call of the authoring functions, on a version of the store.
pub data Authored (db : Db) : Db → Type 0 where
  version_created :
      (id : ℕ) (definition : Definition) (version : DefinitionVersion) (after : Db)
      → ((v : DefinitionVersion) → In v db.versions → v.id ≢ id)
      → create_version db id definition ≡ (version, after)
      → Authored db after
  state_added :
      (id : ℕ) (version : DefinitionVersion) (s : NewState) (row : State) (after : Db)
      → In version db.versions
      → add_state db id version s ≡ ok (row, after)
      → Authored db after
  transition_added :
      (id : ℕ) (version : DefinitionVersion) (t : NewTransition) (row : Transition) (after : Db)
      → In version db.versions
      → add_transition db id version t ≡ ok (row, after)
      → Authored db after
  version_published :
      (version frozen : DefinitionVersion) (after : Db)
      → In version db.versions
      → publish_version db version ≡ ok (frozen, after)
      → Authored db after

-- Ids tell versions apart, and the graph of a published one is well formed.
pub record IsSound (db : Db) : Type 0 where
  pub unique : (v w : DefinitionVersion) → In v db.versions → In w db.versions → v.id ≡ w.id → v ≡ w
  pub well_formed :
      (v : DefinitionVersion)
      → In v db.versions
      → v.is_published ≡ true
      → IsWellFormed (states_of db v.id) (transitions_of db v.id)

-- What a call leaves of a published version: the row, its states and its transitions.
abbrev pub IsKept : Db → Db → DefinitionVersion → Type 0
IsKept db after v =
    In v after.versions
    × (states_of after v.id ≡ states_of db v.id)
    × (transitions_of after v.id ≡ transitions_of db v.id)

-- In a sound store an unpublished version is told from the published ones by its id.
pub other_id :
    {db : Db} (v w : DefinitionVersion)
    → IsSound db
    → In v db.versions
    → In w db.versions
    → v.is_published ≡ true
    → w.is_published ≡ false
    → w.id == v.id ≡ false
other_id v w sound m n frozen draft = elim (Bool-cases (w.id == v.id)) [
  | inr other ↦ other
  | inl same ↦ let e = sound.unique w v n m (ground arith) in cc
]

pub add_state-eq-ok :
    (db : Db) (id : ℕ) (v : DefinitionVersion) (s : NewState) {row : State} {after : Db}
    → add_state db id v s ≡ ok (row, after)
    → (v.is_published ≡ false) × (after ≡ record db { states = db.states ++ state_row id v s ∷ [] })
unfolding add_state
add_state-eq-ok db id v s h =
    let (draft, rest) = guard-eq-ok (not v.is_published) Error.already_published _ h in
    (ground arith, ap (λ (x : State × Db). x.1) (sym (ok-injective rest)))

pub add_transition-eq-ok :
    (db : Db) (id : ℕ) (v : DefinitionVersion) (t : NewTransition) {row : Transition} {after : Db}
    → add_transition db id v t ≡ ok (row, after)
    → (v.is_published ≡ false)
      × (after ≡ record db { transitions = db.transitions ++ transition_row id v t ∷ [] })
unfolding add_transition
add_transition-eq-ok db id v t h =
    let (draft, rest) = guard-eq-ok (not v.is_published) Error.already_published _ h in
    (ground arith, ap (λ (x : Transition × Db). x.1) (sym (ok-injective rest)))

pub publish_version-eq-ok :
    (db : Db) (v : DefinitionVersion) {w : DefinitionVersion} {after : Db}
    → publish_version db v ≡ ok (w, after)
    → ((v.is_published ≡ true) × (after ≡ db))
      ⊎ ((v.is_published ≡ false)
          × IsWellFormed (states_of db v.id) (transitions_of db v.id)
          × (after ≡ record db { versions = save_version (published v) db.versions }))
unfolding publish_version
publish_version-eq-ok db v h = elim (Bool-cases v.is_published) [
  | inl done ↦
      inl (done, ap (λ (x : DefinitionVersion × Db). x.1) (sym (ok-injective (rw done at h))))
  | inr draft ↦
      let (checked, valid, rest) =
        >>=-eq-ok (validate_graph (states_of db v.id) (transitions_of db v.id)) _ (rw draft at h) in
      inr (
        draft,
        (validate_graph-IsWellFormed (states_of db v.id) (transitions_of db v.id)).0 valid,
        ap (λ (x : DefinitionVersion × Db). x.1) (sym (ok-injective rest)),
      )
]
