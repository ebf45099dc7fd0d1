-- ===== src/Workflow/Transitions/Inversion.antt =====
-- What a successful execute_action has passed, check by check, and what it leaves.
use office_connect.Base.{
  ℕ, ◌+◌, ◌≡◌, ◌⊎◌, inl, inr, Bool, true, false, not, ◌||◌, ◌&&◌, none, some, [], ◌∷◌, ◌++◌, ◌==◌,
  arith, Option-cases, Bool-cases, get_or, truthy,
}
use office_connect.Workflow.Types.{State, Transition, Instance, Event, Db, is_terminal}
use office_connect.Workflow.Result.{Error, ok, >>=-eq-ok, guard-eq-ok, require-eq-ok}
use office_connect.Workflow.Guards.{select_transition}
use office_connect.Workflow.Steps.{activate_state_steps}
use office_connect.Workflow.Decisions.{Request, Decision, branch}
use office_connect.Workflow.Transitions.{
  find_instance, find_state, moved_instance, emit, put_instance, enter_state, advance,
  version_matches, perform, replayed, execute_action,
}

-- Entering a state touches the step rows and their ids only.
abbrev pub WithSteps : Db → Db → Db
WithSteps db out = record db { steps = out.steps; next_step_id = out.next_step_id }

pub activate_frame :
    (db : Db) (i : Instance) (s : State) (now : ℕ)
    → activate_state_steps db i s now ≡ WithSteps db (activate_state_steps db i s now)
unfolding activate_state_steps
activate_frame db i s now = ground arith

pub enter_frame :
    (db : Db) (i : Instance) (current : State) (now : ℕ) {out : Db}
    → enter_state db i current now ≡ ok out
    → out ≡ WithSteps db out
unfolding enter_state
enter_frame db i current now {out} h = elim (Bool-cases (i.current_state_id == current.id)) [
  | inl same ↦ ground arith
  | inr other ↦ elim (Option-cases (find_state db i.current_state_id)) [
    | inl gone ↦ ground arith
    | inr (s, found) ↦ ground (arith, activate_frame db i s now)
  ]
]

-- What `advance` leaves: one event more, the instance moved, and possibly new steps.
pub record Advanced (db : Db) (i : Instance) (current : State) (r : Request) (now : ℕ)
    (d : Decision) (e : Event) (out : Db) : Type 0 where
  pub entered : Db
  pub enters :
      enter_state
        (record db { instances = put_instance (moved_instance i d) db.instances; steps = d.steps })
        (moved_instance i d)
        current
        now
      ≡ ok entered
  pub event : e ≡ emit db i current r d
  pub result :
      out ≡ record entered { events = db.events ++ e ∷ []; next_event_id = db.next_event_id + 1 }
  pub events : out.events ≡ db.events ++ e ∷ []
  pub instances : out.instances ≡ put_instance (moved_instance i d) db.instances
  pub states : out.states ≡ db.states
  pub next : out.next_instance_id ≡ db.next_instance_id

pub advance-Advanced :
    (db : Db) (i : Instance) (current : State) (r : Request) (now : ℕ) (d : Decision) {e : Event}
    {out : Db}
    → advance db i current r now d ≡ ok (e, out)
    → Advanced db i current r now d e out
unfolding advance
advance-Advanced db i current r now d {e} {out} h =
    let moved = moved_instance i d in
    let before : Db = record db { instances = put_instance moved db.instances; steps = d.steps } in
    let (entered, enters, last) =
      >>=-eq-ok (enter_state before moved current now)
        (λ entered. ok (
          emit db i current r d,
          record entered {
            events = entered.events ++ emit db i current r d ∷ [];
            next_event_id = db.next_event_id + 1;
          },
        ))
        h in
    let frame = enter_frame before moved current now enters in
    record {
      entered = entered;
      enters = enters;
      event = cc;
      result = cc;
      events = cc;
      instances = cc;
      states = cc;
      next = cc;
    }

-- Every check that a new, successful action has passed, in the order of the code.
pub record Accepted (db : Db) (r : Request) (e : Event) (out : Db) : Type 0 where
  pub i : Instance
  pub found : find_instance db r.instance_id ≡ some i
  pub fresh : replayed db r.instance_id r.idempotency_key ≡ none
  pub version : version_matches r.expected_version i.row_version ≡ true
  pub current : State
  pub state : find_state db i.current_state_id ≡ some current
  pub live : is_terminal current.kind ≡ false
  pub t : Transition
  pub routed : select_transition db i current r.action ≡ some t
  pub commented : (t.requires_comment || current.requires_comment) && not (truthy r.comment) ≡ false
  pub d : Decision
  pub decided : branch r.action db i current t r (get_or r.now db.clock) ≡ ok d
  pub advanced : Advanced db i current r (get_or r.now db.clock) d e out

not-true : (b : Bool) → not b ≡ true → b ≡ false
not-true b h = ground arith

module _ (db : Db) (r : Request) {e : Event} {out : Db} where
  perform-Accepted :
      (i : Instance)
      → find_instance db r.instance_id ≡ some i
      → replayed db r.instance_id r.idempotency_key ≡ none
      → perform db i r (get_or r.now db.clock) ≡ ok (e, out)
      → Accepted db r e out
  unfolding perform
  perform-Accepted i found fresh h =
      let now = get_or r.now db.clock in
      let (version, h1) = guard-eq-ok _ Error.stale_version _ h in
      let (current, state, h2) = require-eq-ok _ Error.attribute_error _ h1 in
      let (live, h3) = guard-eq-ok _ Error.state_conflict _ h2 in
      let (t, routed, h4) = require-eq-ok _ Error.transition_not_allowed _ h3 in
      let (commented, h5) = guard-eq-ok _ Error.comment_required _ h4 in
      let (d, decided, h6) =
        >>=-eq-ok (branch r.action db i current t r now) (advance db i current r now) h5 in
      record {
        i = i;
        found = found;
        fresh = fresh;
        version = version;
        current = current;
        state = state;
        live = not-true (is_terminal current.kind) live;
        t = t;
        routed = routed;
        commented =
            not-true ((t.requires_comment || current.requires_comment) && not (truthy r.comment))
              commented;
        d = d;
        decided = decided;
        advanced = advance-Advanced db i current r now d h6;
      }

  -- A call that succeeds either replays the recorded event and changes nothing, or is accepted.
  pub execute_action-cases :
      execute_action db r ≡ ok (e, out)
      → ((replayed db r.instance_id r.idempotency_key ≡ some e) × (out ≡ db)) ⊎ Accepted db r e out
  unfolding execute_action
  execute_action-cases h =
      let (i, found, h1) =
        require-eq-ok (find_instance db r.instance_id) Error.instance_not_found _ h in
      elim (Option-cases (replayed db r.instance_id r.idempotency_key)) [
        | inl fresh ↦ inr (perform-Accepted i found fresh (ground arith))
        | inr (old, again) ↦ inl (ground arith, ground arith)
      ]
