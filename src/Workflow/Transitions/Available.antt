-- ===== src/Workflow/Transitions/Available.antt =====
-- available_actions of office_connect/core/workflow/transitions.py: what a user is offered.
use office_connect.Base.{
  ℕ, ◌≡◌, ◌⊎◌, refl, Bool, true, false, not, ◌&&◌, Option, none, some, List, [], ◌∷◌, ◌++◌, arith,
  In, here, there, filter, any, filter-In, In-filter, Bool-cases, Option-cases, inl, inr,
  if◌then◌else◌, is_id, get_or, or_else,
}
use office_connect.Workflow.Types.{
  Action, State, Transition, Instance, Step, Db, action_eq, is_active, is_terminal,
}
use office_connect.Workflow.Result.{Error, Result, ok, ◌>>=◌, require, require-eq-ok, ok-injective}
use office_connect.Workflow.Guards.{amount_guard_passes, leaves, in_order, select_transition}
use office_connect.Workflow.Guards.Order.{In-in_order, in_order-In}
use office_connect.Workflow.Delegation.Holders.{find?-none}
use office_connect.Workflow.Steps.{gate_steps}
use office_connect.Workflow.Delegation.{resolve_authority}
use office_connect.Workflow.Decisions.{definition_id, authorize_originator, has_acted}
use office_connect.Workflow.Transitions.{find_instance, find_state}

module _ (db : Db) (i : Instance) (current : State) (actor now : ℕ) where
  -- the authority that a gate action asks for
  abbrev pub gate_authorized : Transition → Bool
  gate_authorized t =
      (resolve_authority db actor (or_else current.required_permission t.required_permission)
        i.org_unit_id (definition_id db i) now).authorized

  -- the actor-dependent guards of an approval
  abbrev pub may_approve : List Step → Bool
  may_approve gate =
      any (λ s. is_active s.status) gate
      && not (has_acted actor gate)
      && not (current.enforce_segregation && is_id i.originator_user_id actor)

  abbrev pub may_take : Action → Transition → Bool
  may_take Action.approve t =
      may_approve (gate_steps db.steps i.id current.id (some i.revision_no)) && gate_authorized t
  may_take Action.return t = gate_authorized t
  may_take Action.reject t = gate_authorized t
  may_take _ t = (authorize_originator db i t actor (definition_id db i) now).authorized

  -- the three `continue`s and the authority
  abbrev pub offers : List Action → Transition → Bool
  offers allowed t =
      not (any (λ a. action_eq a t.action) allowed)
      && amount_guard_passes t i
      && may_take t.action t

  -- the `for transition in ...`
  unfoldable pub collect : List Action → List Transition → List Action
  collect allowed [] = allowed
  collect allowed (t ∷ ts) =
      collect (if offers allowed t then allowed ++ t.action ∷ [] else allowed) ts

abbrev pub offered_in : Db → Instance → ℕ → ℕ → Option State → List Action
offered_in db i actor now none = []
offered_in db i actor now (some current) =
    if is_terminal current.kind
    then []
    else collect db i current actor now [] (in_order (filter (leaves current) db.transitions))

unfoldable pub available_actions : Db → ℕ → ℕ → Option ℕ → Result (List Action)
unfolding collect
available_actions db instance_id actor now = do
  i ← require (find_instance db instance_id) Error.instance_not_found
  ok (offered_in db i actor (get_or now db.clock) (find_state db i.current_state_id))

-- A listed action stands on a row whose band the amount passes.
collect-In :
    (db : Db) (i : Instance) (current : State) (actor now : ℕ) (allowed : List Action)
    (ts : List Transition) {a : Action}
    → In a (collect db i current actor now allowed ts)
    → In a allowed
      ⊎ ((t : Transition) × In t ts × (t.action ≡ a) × (amount_guard_passes t i ≡ true))
unfolding collect
collect-In db i current actor now allowed [] m = inl m
collect-In db i current actor now allowed (t ∷ ts) {a} m =
    elim (Bool-cases (offers db i current actor now allowed t)) [
      | inl on ↦
          elim (collect-In db i current actor now (allowed ++ t.action ∷ []) ts (rw on at m)) [
            | inl earlier ↦ elim (In-snoc allowed t.action earlier) [
              | inl old ↦ inl old
              | inr same ↦ inr (t, here refl, same, ground arith)
            ]
            | inr (u, k, same, passes) ↦ inr (u, there k, same, passes)
          ]
      | inr off ↦ elim (collect-In db i current actor now allowed ts (rw off at m)) [
        | inl earlier ↦ inl earlier
        | inr (u, k, same, passes) ↦ inr (u, there k, same, passes)
      ]
    ]
  where
    In-snoc : (xs : List Action) (x : Action) {a : Action} → In a (xs ++ x ∷ []) → In a xs ⊎ (x ≡ a)
    In-snoc [] x (here e) = inr e
    In-snoc [] x (there n) = elim n [ ]
    In-snoc (y ∷ xs) x (here e) = inl (here e)
    In-snoc (y ∷ xs) x (there n) = elim (In-snoc xs x n) [ inl k ↦ inl (there k) | inr e ↦ inr e ]

same_action : (a b : Action) → a ≡ b → action_eq a b ≡ true
same_action a b h = ground arith

routed :
    (db : Db) (i : Instance) (current : State) (a : Action) (t : Transition)
    → In t (in_order (filter (leaves current) db.transitions))
    → t.action ≡ a
    → amount_guard_passes t i ≡ true
    → (u : Transition) × (select_transition db i current a ≡ some u)
unfolding select_transition
routed db i current a t k same passes =
    let test = λ (x : Transition). leaves current x && action_eq x.action a in
    let (row, from) =
      filter-In (leaves current) db.transitions
        (In-in_order (filter (leaves current) db.transitions) k) in
    let is = same_action t.action a same in
    let both : leaves current t && action_eq t.action a ≡ true = ground arith in
    let candidate = in_order-In (filter test db.transitions) (In-filter test row both) in
    elim (Option-cases (select_transition db i current a)) [
      | inr found ↦ found
      | inl absent ↦
          let blocked = find?-none (λ x. amount_guard_passes x i) absent candidate in
          cc (blocked, passes)
    ]

offered_in-routed :
    (db : Db) (i : Instance) (current : State) (actor now : ℕ) (a : Action)
    → In a (offered_in db i actor now (some current))
    → (is_terminal current.kind ≡ false)
      × ((t : Transition) × (select_transition db i current a ≡ some t))
offered_in-routed db i current actor now a m = elim (Bool-cases (is_terminal current.kind)) [
  | inl ended ↦ elim (rw ended at m) [ ]
  | inr live ↦ (
    live,
    elim (collect-In db i current actor now [] (in_order (filter (leaves current) db.transitions))
        (rw live at m)) [
          | inl none_yet ↦ elim none_yet [ ]
          | inr (t, k, same, passes) ↦ routed db i current a t k same passes
        ],
  )
]

-- The row that an action is routed to.
pub record Routed (db : Db) (instance_id : ℕ) (a : Action) : Type 0 where
  pub i : Instance
  pub found : find_instance db instance_id ≡ some i
  pub current : State
  pub state : find_state db i.current_state_id ≡ some current
  pub live : is_terminal current.kind ≡ false
  pub t : Transition
  pub routed_to : select_transition db i current a ≡ some t

-- What is offered is routed: for an action that `available_actions` lists, the instance exists and is in
-- a state that is not terminal, and `execute_action` finds a transition out of that state for it.
pub available_actions-Routed :
    (db : Db) (instance_id actor : ℕ) (now : Option ℕ) (a : Action) {actions : List Action}
    → available_actions db instance_id actor now ≡ ok actions
    → In a actions
    → Routed db instance_id a
unfolding available_actions
available_actions-Routed db instance_id actor now a {actions} h m =
    let (i, found, h1) =
      require-eq-ok (find_instance db instance_id) Error.instance_not_found _ h in
    let listed = ok-injective h1 in
    let m' : In a (offered_in db i actor (get_or now db.clock) (find_state db i.current_state_id)) =
      rw listed m in
    elim (Option-cases (find_state db i.current_state_id)) [
      | inl absent ↦ elim (rw absent at m') [ ]
      | inr (current, state) ↦
          let (live, (t, to)) =
            offered_in-routed db i current actor (get_or now db.clock) a (rw state at m') in
          record {
            i = i;
            found = found;
            current = current;
            state = state;
            live = live;
            t = t;
            routed_to = to;
          }
    ]
