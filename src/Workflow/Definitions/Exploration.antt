-- ===== src/Workflow/Definitions/Exploration.antt =====
-- The search of `validate_graph`.
use office_connect.Base.{
  ℕ, zero, suc, ◌+◌, ◌≤◌, ◌≡◌, ◌↔◌, ◌⊎◌, refl, sym, ap, subst, ◌∙◌, inl, inr, Bool, true, false,
  not, ◌||◌, List, [], ◌∷◌, ◌==◌, length, count, In, here, there, arith, Bool-cases,
}
use office_connect.Workflow.Types.{Transition}
use office_connect.Workflow.Definitions.{
  member, out, Search, extend, visit, explore, start_at, reached,
}

-- A state can be reached from another along the transitions.
pub data Reachable (transitions : List Transition) (from : ℕ) : ℕ → Type 0 where
  stay : Reachable transitions from from
  follow :
      {node : ℕ} (t : Transition)
      → Reachable transitions from node
      → In t transitions
      → t.from_state_id ≡ node
      → Reachable transitions from t.to_state_id

-- How much is left to visit: it falls by one in each round.
abbrev left_over : List Transition → List ℕ → ℕ
left_over transitions seen = count (λ t. not (member t.from_state_id seen)) transitions

abbrev work : List Transition → Search → ℕ
work transitions s = length s.frontier + left_over transitions s.seen

length-extend :
    (frontier ids : List ℕ) → length (extend frontier ids) ≡ length frontier + length ids
length-extend frontier [] = omega arith
length-extend frontier (id ∷ ids) = omega (arith, length-extend (id ∷ frontier) ids)

left_over-seen :
    (transitions : List Transition) (seen : List ℕ) (node : ℕ)
    → member node seen ≡ false
    → left_over transitions (node ∷ seen) + length (out transitions node)
      ≡ left_over transitions seen
left_over-seen [] seen node fresh = refl
left_over-seen (t ∷ transitions) seen node fresh =
    let rest = left_over-seen transitions seen node fresh in
    elim (Bool-cases (t.from_state_id == node)) [
      | inl same ↦
          let e : t.from_state_id ≡ node = ground arith in
          let new : member t.from_state_id seen ≡ false = rw e fresh in ground arith
      | inr other ↦ ground arith
    ]

abbrev at_search : List ℕ → List ℕ → Search
at_search seen frontier = record { seen = seen; frontier = frontier }

-- One round: with an empty frontier nothing changes, and otherwise there is one visit less to make.
work-visit :
    (transitions : List Transition) (seen frontier : List ℕ)
    → let s = at_search seen frontier in
      ((frontier ≡ []) × (visit transitions s ≡ s))
      ⊎ (suc (work transitions (visit transitions s)) ≡ work transitions s)
unfolding visit
work-visit transitions seen [] = inl (refl, refl)
work-visit transitions seen (node ∷ rest) = elim (Bool-cases (member node seen)) [
  | inl old ↦ inr (rw old (omega arith))
  | inr fresh ↦ inr (
      rw fresh (
        omega (
          arith,
          length-extend rest (out transitions node),
          left_over-seen transitions seen node fresh,
        )))
]

explore_done :
    (fuel : ℕ) (transitions : List Transition) (s : Search)
    → visit transitions s ≡ s
    → explore fuel transitions s ≡ s
unfolding explore
explore_done zero transitions s h = refl
explore_done (suc fuel) transitions s h =
    ap (explore fuel transitions) h ∙ explore_done fuel transitions s h

explore_ends :
    (fuel : ℕ) (transitions : List Transition) (s : Search)
    → work transitions s ≤ fuel
    → (explore fuel transitions s).frontier ≡ []
unfolding explore
explore_ends zero transitions s h = elim (work-visit transitions s.seen s.frontier) [
  | inl done ↦ done.0
  | inr less ↦ absurd (omega arith)
]
explore_ends (suc fuel) transitions s h = elim (work-visit transitions s.seen s.frontier) [
  | inl (empty, same) ↦
      ap (λ (x : Search). x.frontier) (explore_done (suc fuel) transitions s same) ∙ empty
  | inr less ↦ explore_ends fuel transitions (visit transitions s) (omega arith)
]

left_over-blank : (transitions : List Transition) → left_over transitions [] ≡ length transitions
left_over-blank [] = refl
left_over-blank (t ∷ transitions) = omega (arith, left_over-blank transitions)

-- The `while frontier` of the validation ends: from any initial state, one round more than there are
-- transitions leaves the frontier empty.
pub explore-ends :
    (transitions : List Transition) (initial : ℕ)
    → (explore (suc (length transitions)) transitions (start_at initial)).frontier ≡ []
explore-ends transitions initial =
    explore_ends (suc (length transitions)) transitions (start_at initial)
      (omega (arith, left_over-blank transitions))

abbrev known : Search → ℕ → Bool
known s x = member x s.seen || member x s.frontier

-- What the rounds keep: only reachable states are found, the initial one is, and so is every state that a
-- transition leads to from a state seen.
record IsExploring (transitions : List Transition) (initial : ℕ) (s : Search) : Type 0 where
  sound : (x : ℕ) → known s x ≡ true → Reachable transitions initial x
  rooted : known s initial ≡ true
  closed :
      (t : Transition)
      → In t transitions
      → member t.from_state_id s.seen ≡ true
      → known s t.to_state_id ≡ true

member-extend :
    (x : ℕ) (frontier ids : List ℕ)
    → member x (extend frontier ids) ≡ (member x ids || member x frontier)
member-extend x frontier [] = refl
member-extend x frontier (id ∷ ids) = ground (arith, member-extend x (id ∷ frontier) ids)

member-out :
    (transitions : List Transition) (node x : ℕ)
    → member x (out transitions node) ≡ true
    → (t : Transition) × In t transitions × (t.from_state_id ≡ node) × (t.to_state_id ≡ x)
member-out (t ∷ transitions) node x h = elim (Bool-cases (t.from_state_id == node)) [
  | inl same ↦ elim (Bool-cases (t.to_state_id == x)) [
    | inl to ↦ (t, here refl, ground arith, ground arith)
    | inr other ↦
        let (u, m, from, to) = member-out transitions node x (ground arith) in
        (u, there m, from, to)
  ]
  | inr other ↦
      let (u, m, from, to) = member-out transitions node x (ground arith) in (u, there m, from, to)
]
member-out [] node x h = cc

out-member :
    (t : Transition) {transitions : List Transition}
    → In t transitions
    → member t.to_state_id (out transitions t.from_state_id) ≡ true
out-member t (here {x = u} {xs = transitions} e) =
    subst (λ (v : Transition). member v.to_state_id (out (u ∷ transitions) v.from_state_id) ≡ true)
      e (ground arith)
out-member t (there {x = u} m) = let rest = out-member t m in ground arith

module _ (transitions : List Transition) (initial : ℕ) where
  IsExploring-old :
      (seen rest : List ℕ) (node : ℕ)
      → member node seen ≡ true
      → IsExploring transitions initial (at_search seen (node ∷ rest))
      → IsExploring transitions initial (at_search seen rest)
  IsExploring-old seen rest node old kept =
      let same : (x : ℕ) → known (at_search seen (node ∷ rest)) x ≡ known (at_search seen rest) x =
        λ x. elim (Bool-cases (node == x)) [
          | inl e ↦
              let seen_too : member x seen ≡ true =
                subst (λ (y : ℕ). member y seen ≡ true) (ground arith) old in
              ground arith
          | inr other ↦ ground arith
        ] in
      record {
        sound = λ x h. kept.sound x (same x ∙ h);
        rooted = sym (same initial) ∙ kept.rooted;
        closed = λ t m h. sym (same t.to_state_id) ∙ kept.closed t m h;
      }

  IsExploring-fresh :
      (seen rest : List ℕ) (node : ℕ)
      → IsExploring transitions initial (at_search seen (node ∷ rest))
      → IsExploring transitions initial
          (at_search (node ∷ seen) (extend rest (out transitions node)))
  IsExploring-fresh seen rest node kept = record {
    sound = λ x h. elim (Bool-cases (member x (out transitions node))) [
      | inl new ↦
          let (t, m, from, to) = member-out transitions node x new in
          let there_is = kept.sound node (ground arith) in
          subst (λ (y : ℕ). Reachable transitions initial y) to (Reachable.follow t there_is m from)
      | inr other ↦ kept.sound x (ground (arith, member-extend x rest (out transitions node)))
    ];
    rooted = ground (arith, kept.rooted, member-extend initial rest (out transitions node));
    closed = λ t m h. elim (Bool-cases (member t.from_state_id seen)) [
      | inl old ↦
          let target = kept.closed t m old in
          ground (arith, member-extend t.to_state_id rest (out transitions node))
      | inr new ↦
          let from : t.from_state_id ≡ node = ground arith in
          let target =
            subst (λ (y : ℕ). member t.to_state_id (out transitions y) ≡ true) from
              (out-member t m) in
          ground (arith, member-extend t.to_state_id rest (out transitions node))
    ];
  }

  IsExploring-visit :
      (seen frontier : List ℕ)
      → IsExploring transitions initial (at_search seen frontier)
      → IsExploring transitions initial (visit transitions (at_search seen frontier))
  unfolding visit
  IsExploring-visit seen [] kept = kept
  IsExploring-visit seen (node ∷ rest) kept = elim (Bool-cases (member node seen)) [
    | inl old ↦ rw old (IsExploring-old seen rest node old kept)
    | inr fresh ↦ rw fresh (IsExploring-fresh seen rest node kept)
  ]

  IsExploring-explore :
      (fuel : ℕ) (s : Search)
      → IsExploring transitions initial s
      → IsExploring transitions initial (explore fuel transitions s)
  unfolding explore
  IsExploring-explore zero s kept = kept
  IsExploring-explore (suc fuel) s kept =
      IsExploring-explore fuel (visit transitions s) (IsExploring-visit s.seen s.frontier kept)

  IsExploring-start : IsExploring transitions initial (start_at initial)
  IsExploring-start = record {
    sound = λ x h.
        let e : initial ≡ x = ground arith in
        subst (λ (y : ℕ). Reachable transitions initial y) e Reachable.stay;
    rooted = ground arith;
    closed = λ t m h. cc;
  }

module _ (transitions : List Transition) (initial : ℕ) (s : Search) where
  Reachable-seen :
      IsExploring transitions initial s
      → s.frontier ≡ []
      → {x : ℕ} → Reachable transitions initial x
      → member x s.seen ≡ true
  Reachable-seen kept ended Reachable.stay = let root = kept.rooted in ground arith
  Reachable-seen kept ended (Reachable.follow t r m from) =
      let source = Reachable-seen kept ended r in
      let target = kept.closed t m (subst (λ (y : ℕ). member y s.seen ≡ true) (sym from) source) in
      ground arith

  seen_iff :
      (x : ℕ)
      → IsExploring transitions initial s
      → s.frontier ≡ []
      → (member x s.seen ≡ true) ↔ Reachable transitions initial x
  seen_iff x kept ended = (λ h. kept.sound x (ground arith), Reachable-seen kept ended)

-- The states that the validation has seen are exactly those that the transitions lead to from the initial
-- one.
pub reached-Reachable :
    (transitions : List Transition) (initial x : ℕ)
    → (member x (reached transitions initial) ≡ true) ↔ Reachable transitions initial x
unfolding reached
reached-Reachable transitions initial x =
    let rounds = suc (length transitions) in
    seen_iff transitions initial (explore rounds transitions (start_at initial)) x
      (IsExploring-explore transitions initial rounds (start_at initial)
        (IsExploring-start transitions initial))
      (explore-ends transitions initial)
