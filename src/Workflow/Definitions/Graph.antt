-- ===== src/Workflow/Definitions/Graph.antt =====
-- What the validation of a version's graph accepts.
use office_connect.Base.{
  ℕ, ◌≡◌, ◌↔◌, refl, ap, ◌∙◌, inl, inr, Bool, true, false, List, [], ◌∷◌, ◌==◌, any, all, filter,
  In, here, there, any-In, In-any, all-In, In-all, arith, Bool-cases,
}
use office_connect.Workflow.Types.{State, Transition, is_initial, is_terminal}
use office_connect.Workflow.Result.{Error, ok, guard, guard-eq-ok, >>=-eq-ok}
use office_connect.Workflow.Definitions.{
  member, out, reached, some_state, only_initial, ids_of, endpoints_known, nonempty, has_exit,
  validate_graph,
}
use office_connect.Workflow.Definitions.Exploration.{Reachable, reached-Reachable}

abbrev pub IsStateId : List State → ℕ → Type 0
IsStateId states id = (s : State) × In s states × (s.id ≡ id)

-- There is one initial state and some terminal one, transitions join states of the version, a state that is
-- not terminal has a way out, and every state can be reached from the initial one.
pub record IsWellFormed (states : List State) (transitions : List Transition) : Type 0 where
  pub initial : State
  pub one_initial : filter (λ s. is_initial s.kind) states ≡ initial ∷ []
  pub terminal : (s : State) × In s states × (is_terminal s.kind ≡ true)
  pub endpoints :
      (t : Transition)
      → In t transitions
      → IsStateId states t.from_state_id × IsStateId states t.to_state_id
  pub exits :
      (s : State)
      → In s states
      → is_terminal s.kind ≡ false
      → (t : Transition) × In t transitions × (t.from_state_id ≡ s.id)
  pub reachable : (s : State) → In s states → Reachable transitions initial.id s.id

member-ids :
    (states : List State) (id : ℕ) → (member id (ids_of states) ≡ true) ↔ IsStateId states id
member-ids [] id = (λ h. cc, λ (s, m, e). elim m [ ])
member-ids (s ∷ states) id =
    let (forth, back) = member-ids states id in
    (
      λ h. elim (Bool-cases (s.id == id)) [
        | inl same ↦ (s, here refl, ground arith)
        | inr other ↦ let (t, m, e) = forth (ground arith) in (t, there m, e)
      ],
      λ (t, m, e). elim m [
        | here same ↦ let e' : s.id ≡ id = ap (λ (x : State). x.id) same ∙ e in ground arith
        | there k ↦ let rest = back (t, k, e) in ground arith
      ],
    )

nonempty-out :
    (transitions : List Transition) (node : ℕ)
    → (nonempty (out transitions node) ≡ true)
      ↔ ((t : Transition) × In t transitions × (t.from_state_id ≡ node))
nonempty-out [] node = (λ h. cc, λ (t, m, e). elim m [ ])
nonempty-out (t ∷ transitions) node =
    let (forth, back) = nonempty-out transitions node in
    elim (Bool-cases (t.from_state_id == node)) [
      | inl same ↦ (λ h. (t, here refl, ground arith), λ h. ground arith)
      | inr other ↦ (
        λ h. let (u, m, e) = forth (ground arith) in (u, there m, e),
        λ (u, m, e). elim m [
          | here first ↦
              let e' : t.from_state_id ≡ node =
                ap (λ (x : Transition). x.from_state_id) first ∙ e in
              absurd (ground arith)
          | there k ↦ let rest = back (u, k, e) in ground arith
        ],
      )
    ]

only_initial-eq-ok :
    (states : List State) {s : State} → only_initial states ≡ ok s → states ≡ s ∷ []
only_initial-eq-ok [] h = cc
only_initial-eq-ok (s ∷ []) h = cc
only_initial-eq-ok (s ∷ t ∷ states) h = cc

passes : (t : Bool) → guard t Error.invalid_definition ≡ ok tt → t ≡ true
passes true h = refl
passes false h = cc

accepted :
    (states : List State) (transitions : List Transition)
    → validate_graph states transitions ≡ ok tt
    → IsWellFormed states transitions
unfolding validate_graph
accepted states transitions h =
    let (some_, h1) = guard-eq-ok (some_state states) Error.invalid_definition _ h in
    let (initial, one, h2) =
      >>=-eq-ok (only_initial (filter (λ s. is_initial s.kind) states)) _ h1 in
    let (ends, h3) =
      guard-eq-ok (any (λ s. is_terminal s.kind) states) Error.invalid_definition _ h2 in
    let (known, h4) =
      guard-eq-ok (all (endpoints_known states) transitions) Error.invalid_definition _ h3 in
    let (exits, h5) =
      guard-eq-ok (all (has_exit transitions) states) Error.invalid_definition _ h4 in
    let seen = passes (all (λ s. member s.id (reached transitions initial.id)) states) h5 in
    record {
      initial = initial;
      one_initial = only_initial-eq-ok (filter (λ s. is_initial s.kind) states) one;
      terminal = any-In (λ s. is_terminal s.kind) states ends;
      endpoints = λ t m.
          let both = all-In (endpoints_known states) known m in
          (
            (member-ids states t.from_state_id).0 (ground arith),
            (member-ids states t.to_state_id).0 (ground arith),
          );
      exits = λ s m normal.
          let way = all-In (has_exit transitions) exits m in
          (nonempty-out transitions s.id).0 (ground arith);
      reachable = λ s m.
          (reached-Reachable transitions initial.id s.id).0
            (all-In (λ s. member s.id (reached transitions initial.id)) seen m);
    }

some-In : {s : State} {states : List State} → In s states → some_state states ≡ true
some-In (here e) = refl
some-In (there m) = refl

well_formed :
    (states : List State) (transitions : List Transition)
    → IsWellFormed states transitions
    → validate_graph states transitions ≡ ok tt
unfolding validate_graph
well_formed states transitions w =
    let (s, listed, ends) = w.terminal in
    let found = some-In listed in
    let one : only_initial (filter (λ s. is_initial s.kind) states) ≡ ok w.initial =
      rw w.one_initial refl in
    let terminal = In-any (λ s. is_terminal s.kind) listed ends in
    let known = In-all (endpoints_known states) transitions (λ t m.
      let (from, to) = w.endpoints t m in
      let from' = (member-ids states t.from_state_id).1 from in
      let to' = (member-ids states t.to_state_id).1 to in ground arith) in
    let exits = In-all (has_exit transitions) states (λ s m.
      elim (Bool-cases (is_terminal s.kind)) [
        | inl over ↦ ground arith
        | inr normal ↦
            let way = (nonempty-out transitions s.id).1 (w.exits s m normal) in ground arith
      ]) in
    let seen =
      In-all (λ s. member s.id (reached transitions w.initial.id)) states
        (λ s m. (reached-Reachable transitions w.initial.id s.id).1 (w.reachable s m)) in
    rw (found, one, terminal, known, exits, seen) refl

-- The validation accepts exactly the graphs with one initial state, some terminal state, transitions that
-- join states of the version, a way out of every state that is not terminal, and every state reachable from
-- the initial one.
pub validate_graph-IsWellFormed :
    (states : List State) (transitions : List Transition)
    → (validate_graph states transitions ≡ ok tt) ↔ IsWellFormed states transitions
validate_graph-IsWellFormed states transitions =
    (accepted states transitions, well_formed states transitions)
