-- ===== src/Workflow/Definitions/Start.antt =====
-- start_instance on a definition that has a published version.
use office_connect.Base.{
  ℕ, ◌≡◌, refl, inl, inr, true, ◌&&◌, List, [], ◌∷◌, ◌==◌, if◌then◌else◌, filter, In, here,
  In-append_right, filter-In, get_or, arith, Bool-cases,
}
use office_connect.Workflow.Types.{StateKind, DefinitionVersion, State, Instance, Db, is_initial}
use office_connect.Workflow.Result.{ok}
use office_connect.Workflow.Service.{
  Start, the_one, initial_state, flag_allows, new_instance, insert_instance, append_event,
  started_event, start_instance,
}
use office_connect.Workflow.Steps.{activate_state_steps}
use office_connect.Workflow.Definitions.Frozen.{IsSound}
use office_connect.Workflow.Definitions.Latest.{IsPublishedOf, IsLatestOf, published-IsLatestOf}

filter-filter :
    (id : ℕ) (states : List State)
    → filter (λ s. s.definition_version_id == id && is_initial s.kind) states
      ≡ filter (λ s. is_initial s.kind) (filter (λ s. s.definition_version_id == id) states)
filter-filter id [] = refl
filter-filter id (s ∷ states) = ground (arith, filter-filter id states)

-- In a sound store the initial state of a published version is found.
initial_state-IsSound :
    (db : Db) (v : DefinitionVersion)
    → IsSound db
    → In v db.versions
    → v.is_published ≡ true
    → (s : State) × (initial_state db v.id ≡ ok s)
unfolding initial_state
initial_state-IsSound db v sound m frozen =
    let w = sound.well_formed v m frozen in
    (w.initial, rw (filter-filter v.id db.states, w.one_initial) refl)

-- The state is of the version, and of the initial kind.
abbrev pub IsInitialOf : Db → DefinitionVersion → State → Type 0
IsInitialOf db w s =
    In s db.states × (s.definition_version_id ≡ w.id) × (s.kind ≡ StateKind.initial)

kind_initial : (k : StateKind) → is_initial k ≡ true → k ≡ StateKind.initial
kind_initial k h = ground arith

the_one-In : {x : State} (xs : List State) → the_one xs ≡ ok x → In x xs
the_one-In [] h = cc
the_one-In (y ∷ []) h = here cc
the_one-In (y ∷ z ∷ xs) h = cc

initial_state-IsInitialOf :
    (db : Db) (w : DefinitionVersion) (s : State)
    → initial_state db w.id ≡ ok s
    → IsInitialOf db w s
unfolding initial_state
initial_state-IsInitialOf db w s h =
    let (m, test) = filter-In _ db.states (the_one-In _ h) in
    (m, ground arith, kind_initial s.kind (ground arith))

stored :
    (db : Db) (i : Instance) (initial : State) (now : ℕ)
    → In i
        (if initial.is_approval_gate
          then activate_state_steps (insert_instance db i) i initial now
          else insert_instance db i).instances
unfolding activate_state_steps
stored db i initial now = elim (Bool-cases initial.is_approval_gate) [
  | inl gate ↦ rw gate (In-append_right db.instances (here refl))
  | inr plain ↦ rw plain (In-append_right db.instances (here refl))
]

-- If the version ids are distinct and the graph of every published version is well formed, then a definition
-- that has a published version can be started, where no feature flag is asked for or the one asked for is
-- on: the call returns an instance and stores it, pinned to the published version of the definition with
-- the highest number, in the initial state of that version.
pub start_instance-IsSound :
    (db : Db) (s : Start) (v : DefinitionVersion)
    → IsSound db
    → flag_allows db s.feature_flag_key ≡ true
    → IsPublishedOf db s.definition_code v
    → (i : Instance) × (after : Db) × (initial : State) × (w : DefinitionVersion) × (start_instance
          db s
        ≡ ok (i, after))
      × In i after.instances
      × IsLatestOf db s.definition_code w
      × (i.definition_version_id ≡ w.id)
      × (i.current_state_id ≡ initial.id)
      × IsInitialOf db w initial
unfolding start_instance
start_instance-IsSound db s v sound allowed published =
    let (w, found, newest) = published-IsLatestOf db s.definition_code v published in
    let (initial, one) = initial_state-IsSound db w sound newest.0.listed newest.0.published in
    let i = new_instance db s w initial in
    let inserted = insert_instance db i in
    let activated =
      if initial.is_approval_gate
      then activate_state_steps inserted i initial (get_or s.now db.clock)
      else inserted in
    (
      i,
      append_event activated (started_event db s i initial),
      initial,
      w,
      rw (allowed, found, one) refl,
      stored db i initial (get_or s.now db.clock),
      newest,
      refl,
      refl,
      initial_state-IsInitialOf db w initial one,
    )
