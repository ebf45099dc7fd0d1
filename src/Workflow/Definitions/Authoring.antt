-- ===== src/Workflow/Definitions/Authoring.antt =====
-- core/workflow/definitions.py: sequences of authoring calls.
use office_connect.Base.{
  ℕ, ◌≡◌, ◌≢◌, refl, sym, ap, subst, ◌∙◌, inl, inr, true, false, List, [], ◌∷◌, ◌++◌, ◌==◌,
  if◌then◌else◌, In, here, there, In-append_left, In-append_cases, In-map, map-In,
  filter-append_out, arith, Bool-cases,
}
use office_connect.Workflow.Types.{DefinitionVersion, State, Transition, Db}
use office_connect.Workflow.Definitions.{
  create_version, state_row, transition_row, NewState, NewTransition, states_of, transitions_of,
  published, save_version,
}
use office_connect.Workflow.Definitions.Graph.{IsWellFormed}
use office_connect.Workflow.Definitions.Frozen.{
  Authored, IsSound, IsKept, other_id, add_state-eq-ok, add_transition-eq-ok, publish_version-eq-ok,
}

abbrev Keeps : Db → Db → Type 0
Keeps db after =
    (v : DefinitionVersion) → In v db.versions → v.is_published ≡ true → IsKept db after v

-- The effect of the two functions that add a row of a draft.
abbrev with_state : Db → State → Db
with_state db s = record db { states = db.states ++ s ∷ [] }

abbrev with_transition : Db → Transition → Db
with_transition db t = record db { transitions = db.transitions ++ t ∷ [] }

state_Keeps :
    (db : Db) (id : ℕ) (w : DefinitionVersion) (s : NewState)
    → IsSound db
    → In w db.versions
    → w.is_published ≡ false
    → Keeps db (with_state db (state_row id w s))
state_Keeps db id w s sound m draft v n frozen = (
  n,
  filter-append_out (λ x. x.definition_version_id == v.id) db.states (state_row id w s)
      (other_id v w sound n m frozen draft),
  refl,
)

transition_Keeps :
    (db : Db) (id : ℕ) (w : DefinitionVersion) (t : NewTransition)
    → IsSound db
    → In w db.versions
    → w.is_published ≡ false
    → Keeps db (with_transition db (transition_row id w t))
transition_Keeps db id w t sound m draft v n frozen = (
  n,
  refl,
  filter-append_out (λ x. x.definition_version_id == v.id) db.transitions (transition_row id w t)
      (other_id v w sound n m frozen draft),
)

-- What keeps every published version, and changes no row of a version, keeps the store sound.
same_IsSound :
    (db after : Db) → after.versions ≡ db.versions → Keeps db after → IsSound db → IsSound after
same_IsSound db after same keeps sound =
    let back : (v : DefinitionVersion) → In v after.versions → In v db.versions =
      λ v m. subst (λ (x : List DefinitionVersion). In v x) same m in
    record {
      unique = λ v w m n e. sound.unique v w (back v m) (back w n) e;
      well_formed = λ v m frozen.
          let (listed, states, transitions) = keeps v (back v m) frozen in
          subst (λ (x : List Transition). IsWellFormed (states_of after v.id) x) (sym transitions)
            (subst (λ (x : List State). IsWellFormed x (transitions_of db v.id)) (sym states)
              (sound.well_formed v (back v m) frozen));
    }

abbrev saved : DefinitionVersion → DefinitionVersion → DefinitionVersion
saved version v = if v.id == version.id then version else v

abbrev with_published : Db → DefinitionVersion → Db
with_published db w = record db { versions = save_version (published w) db.versions }

publish_Keeps :
    (db : Db) (w : DefinitionVersion)
    → IsSound db
    → In w db.versions
    → w.is_published ≡ false
    → Keeps db (with_published db w)
publish_Keeps db w sound m draft v n frozen =
    let other = other_id v w sound n m frozen draft in
    let other' : v.id == w.id ≡ false = ground arith in
    let same : saved (published w) v ≡ v = rw other' refl in
    (
      subst (λ (x : DefinitionVersion). In x (save_version (published w) db.versions)) same
          (In-map (saved (published w)) n),
      refl,
      refl,
    )

saved_id : (w v : DefinitionVersion) → (saved (published w) v).id ≡ v.id
saved_id w v = ground arith

publish_IsSound :
    (db : Db) (w : DefinitionVersion)
    → IsSound db
    → In w db.versions
    → w.is_published ≡ false
    → IsWellFormed (states_of db w.id) (transitions_of db w.id)
    → IsSound (with_published db w)
publish_IsSound db w sound m draft valid = record {
  unique = λ v1 v2 m1 m2 e.
      let (u1, n1, e1) = map-In (saved (published w)) db.versions m1 in
      let (u2, n2, e2) = map-In (saved (published w)) db.versions m2 in
      let ids : u1.id ≡ u2.id =
        sym (saved_id w u1)
        ∙ ap (λ (x : DefinitionVersion). x.id) e1
        ∙ e
        ∙ sym (ap (λ (x : DefinitionVersion). x.id) e2)
        ∙ saved_id w u2 in
      sym e1 ∙ ap (saved (published w)) (sound.unique u1 u2 n1 n2 ids) ∙ e2;
  well_formed = λ v n frozen.
      let (u, listed, e) = map-In (saved (published w)) db.versions n in
      elim (Bool-cases (u.id == w.id)) [
        | inl same ↦
            let here_id : u.id ≡ w.id = ground arith in
            let id : w.id ≡ v.id =
              sym here_id ∙ sym (saved_id w u) ∙ ap (λ (x : DefinitionVersion). x.id) e in
            subst (λ (x : ℕ). IsWellFormed (states_of db x) (transitions_of db x)) id valid
        | inr other ↦
            let it : u ≡ v = rw other at e in
            sound.well_formed v (subst (λ (x : DefinitionVersion). In x db.versions) it listed)
              frozen
      ];
}

only : {v w : DefinitionVersion} → In v (w ∷ []) → w ≡ v
only (here e) = e
only (there m) = elim m [ ]

-- `create_version` with a fresh id
create_IsSound :
    (db : Db) (version : DefinitionVersion)
    → IsSound db
    → version.is_published ≡ false
    → ((v : DefinitionVersion) → In v db.versions → v.id ≢ version.id)
    → IsSound (record db { versions = db.versions ++ version ∷ [] })
create_IsSound db version sound draft fresh = record {
  unique = λ v w m n e. elim (In-append_cases db.versions m) [
    | inl old ↦ elim (In-append_cases db.versions n) [
      | inl old' ↦ sound.unique v w old old' e
      | inr new' ↦ absurd (fresh v old (e ∙ ap (λ (x : DefinitionVersion). x.id) (sym (only new'))))
    ]
    | inr new ↦ elim (In-append_cases db.versions n) [
      | inl old' ↦
          absurd (fresh w old' (sym e ∙ ap (λ (x : DefinitionVersion). x.id) (sym (only new))))
      | inr new' ↦ sym (only new) ∙ only new'
    ]
  ];
  well_formed = λ v m frozen. elim (In-append_cases db.versions m) [
    | inl old ↦ sound.well_formed v old frozen
    | inr new ↦
        let e = only new in
        absurd
          (subst (λ (x : DefinitionVersion). x.is_published ≡ false → ⊥) (sym e) (λ h. cc) draft)
  ];
}

-- One call keeps the store sound, and every published version as it is.
step : {db after : Db} → Authored db after → IsSound db → IsSound after × Keeps db after
unfolding create_version
step {db = db} (Authored.version_created id definition version after fresh h) sound =
    let e : (create_version db id definition).1 ≡ after =
      ap (λ (x : DefinitionVersion × Db). x.1) h in
    subst (λ (x : Db). IsSound x × Keeps db x) e
      (
        create_IsSound db (create_version db id definition).0 sound refl fresh,
        λ v n k. (In-append_left _ n, refl, refl),
      )
step {db = db} (Authored.state_added id w s row after m h) sound =
    let (draft, e) = add_state-eq-ok db id w s h in
    let keeps = state_Keeps db id w s sound m draft in
    subst (λ (x : Db). IsSound x × Keeps db x) (sym e) (same_IsSound db _ refl keeps sound, keeps)
step {db = db} (Authored.transition_added id w t row after m h) sound =
    let (draft, e) = add_transition-eq-ok db id w t h in
    let keeps = transition_Keeps db id w t sound m draft in
    subst (λ (x : Db). IsSound x × Keeps db x) (sym e) (same_IsSound db _ refl keeps sound, keeps)
step {db = db} (Authored.version_published w frozen after m h) sound =
    elim (publish_version-eq-ok db w h) [
      | inl (done, e) ↦
          subst (λ (x : Db). IsSound x × Keeps db x) (sym e) (sound, λ v n k. (n, refl, refl))
      | inr (draft, valid, e) ↦
          subst (λ (x : Db). IsSound x × Keeps db x) (sym e)
            (publish_IsSound db w sound m draft valid, publish_Keeps db w sound m draft)
    ]

-- Any number of calls, one after another.
pub data Authoring (db : Db) : Db → Type 0 where
  begin : Authoring db db
  call : {before after : Db} → Authoring db before → Authored before after → Authoring db after

-- However many authoring calls return, and in whatever order: if the version ids were distinct and the graph
-- of every published version well formed, they still are, and every version that was published stands with
-- its row, its states and its transitions unchanged. (The id of a new version is one that no version has.)
pub Authoring-IsSound :
    {db after : Db}
    → Authoring db after
    → IsSound db
    → IsSound after
      × ((v : DefinitionVersion) → In v db.versions → v.is_published ≡ true → IsKept db after v)
Authoring-IsSound Authoring.begin sound = (sound, λ v m k. (m, refl, refl))
Authoring-IsSound (Authoring.call calls last) sound =
    let (between, kept) = Authoring-IsSound calls sound in
    let (end, kept_last) = step last between in
    (
      end,
      λ v m k.
          let (m1, states1, transitions1) = kept v m k in
          let (m2, states2, transitions2) = kept_last v m1 k in
          (m2, states2 ∙ states1, transitions2 ∙ transitions1),
    )
