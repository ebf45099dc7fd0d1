-- ===== src/Workflow/Transitions/Versions.antt =====
-- Retries and races: idempotency keys, the version check, terminal states.
use office_connect.Base.{
  ℕ, ◌≡◌, ◌≢◌, ap, sym, ◌∙◌, Bool, true, ◌&&◌, Option, none, some, List, [], ◌∷◌, ◌++◌, String,
  ◌==◌, arith, inl, inr, find?, find?-holds, find?-append_none, truthy, get_or,
}
use text.Mathlib.TextPositions.{eq_refl}
use office_connect.Workflow.Types.{State, Instance, Event, Db, is_terminal}
use office_connect.Workflow.Result.{Error, ok, err, require-eq-ok}
use office_connect.Workflow.Decisions.{Request}
use office_connect.Workflow.Transitions.{
  find_instance, find_state, moved_instance, put_instance, same_key, replayed, perform,
  execute_action,
}
use office_connect.Workflow.Transitions.Inversion.{Accepted, execute_action-cases}

-- A call on an existing instance whose key is recorded returns the recorded event.
replay_returns :
    (db : Db) (r : Request) {i : Instance} {e : Event}
    → find_instance db r.instance_id ≡ some i
    → replayed db r.instance_id r.idempotency_key ≡ some e
    → execute_action db r ≡ ok (e, db)
unfolding execute_action
replay_returns db r found again = ground arith

known_instance :
    (db : Db) (r : Request) {e : Event} {out : Db}
    → execute_action db r ≡ ok (e, out)
    → (i : Instance) × (find_instance db r.instance_id ≡ some i)
unfolding execute_action
known_instance db r h =
    let (i, found, rest) =
      require-eq-ok (find_instance db r.instance_id) Error.instance_not_found _ h in
    (i, found)

same_key_refl : (key : Option String) → truthy key ≡ true → same_key key key ≡ true
same_key_refl none h = cc
same_key_refl (some k) h = eq_refl k

-- The idempotency query finds an event that was appended while no other had the key.
replayed_new :
    (db out : Db) (id : ℕ) (key : Option String) (e : Event)
    → truthy key ≡ true
    → replayed db id key ≡ none
    → out.events ≡ db.events ++ e ∷ []
    → e.instance_id ≡ id
    → same_key e.idempotency_key key ≡ true
    → replayed out id key ≡ some e
unfolding replayed
replayed_new db out id key e keyed fresh events of same =
    let test : Event → Bool = λ x. x.instance_id == id && same_key x.idempotency_key key in
    let before : find? test db.events ≡ none = ground arith in
    let last : find? test (e ∷ []) ≡ some e = ground arith in
    let after : find? test out.events ≡ some e =
      ap (find? test) events ∙ find?-append_none test db.events (e ∷ []) before ∙ last in
    ground arith

-- An instance that has been updated is found under its id.
find_moved :
    (m : Instance) (id : ℕ) (l : List Instance) {k : Instance}
    → m.id ≡ id
    → find? (λ i. i.id == id) l ≡ some k
    → find? (λ i. i.id == id) (put_instance m l) ≡ some m
find_moved m id [] same h = cc
find_moved m id (j ∷ l) {k} same h = ground (arith, find_moved m id l {k = k} same)

module _ (db out : Db) (r : Request) (e : Event) (a : Accepted db r e out) where
  accepted_id : a.i.id ≡ r.instance_id
  accepted_id =
      let same = find?-holds (λ k. k.id == r.instance_id) db.instances a.found in ground arith

  pub accepted_instance : find_instance out r.instance_id ≡ some (moved_instance a.i a.d)
  accepted_instance =
      ap (find? (λ k. k.id == r.instance_id)) a.advanced.instances
      ∙ find_moved (moved_instance a.i a.d) r.instance_id db.instances accepted_id a.found

  accepted_replayed :
      truthy r.idempotency_key ≡ true → replayed out r.instance_id r.idempotency_key ≡ some e
  accepted_replayed keyed =
      let adv = a.advanced in
      replayed_new db out r.instance_id r.idempotency_key e keyed a.fresh adv.events
        (ap (λ (x : Event). x.instance_id) adv.event ∙ accepted_id)
        (ap (λ (x : Event). same_key x.idempotency_key r.idempotency_key) adv.event
          ∙ same_key_refl r.idempotency_key keyed)

-- A retry is safe: once a call with a key that is not empty has succeeded, every call on the same
-- instance with the same key, whatever else it asks for, returns the same event and changes nothing.
pub execute_action-retry :
    (db : Db) (r again : Request) {e : Event} {out : Db}
    → truthy r.idempotency_key ≡ true
    → again.instance_id ≡ r.instance_id
    → again.idempotency_key ≡ r.idempotency_key
    → execute_action db r ≡ ok (e, out)
    → execute_action out again ≡ ok (e, out)
execute_action-retry db r again {e} {out} keyed of key h =
    let (i, found) = known_instance db r h in
    elim (execute_action-cases db r h) [
      | inl (recorded, same) ↦
          replay_returns out again {i = i} (rw (same, of) found) (rw (same, of, key) recorded)
      | inr a ↦
          replay_returns out again {i = moved_instance a.i a.d}
            (rw of (accepted_instance db out r e a))
            (rw (of, key) (accepted_replayed db out r e a keyed))
    ]

-- A call on an existing instance whose key is not recorded goes through the checks.
not_replayed :
    (db : Db) (r : Request) {i : Instance}
    → find_instance db r.instance_id ≡ some i
    → replayed db r.instance_id r.idempotency_key ≡ none
    → execute_action db r ≡ perform db i r (get_or r.now db.clock)
unfolding execute_action
not_replayed db r found fresh = ground arith

stale :
    (db : Db) (i : Instance) (r : Request) (now v : ℕ)
    → r.expected_version ≡ some v
    → i.row_version ≢ v
    → perform db i r now ≡ err Error.stale_version
unfolding perform
stale db i r now v expected moved = ground arith

-- No lost update: of two new actions that expect the same version of an instance only the first can
-- succeed. The second is refused as stale, whoever asks and whatever the action is.
pub execute_action-no_lost_update :
    (db : Db) (first second : Request) (v : ℕ) {e : Event} {out : Db}
    → first.expected_version ≡ some v
    → second.expected_version ≡ some v
    → second.instance_id ≡ first.instance_id
    → replayed db first.instance_id first.idempotency_key ≡ none
    → replayed out second.instance_id second.idempotency_key ≡ none
    → execute_action db first ≡ ok (e, out)
    → execute_action out second ≡ err Error.stale_version
execute_action-no_lost_update db first second v {e} {out} ef es same_id new_first new_second h =
    elim (execute_action-cases db first h) [
      | inl (recorded, same) ↦ cc (recorded, new_first)
      | inr a ↦
          let version = a.version in
          not_replayed out second (rw same_id (accepted_instance db out first e a)) new_second
          ∙ stale out (moved_instance a.i a.d) second (get_or second.now out.clock) v es
              (ground arith)
    ]

-- Nothing happens after the end: a call that succeeds on an instance in a terminal state is the
-- replay of a recorded event, and changes nothing.
pub execute_action-terminal :
    (db : Db) (r : Request) (i : Instance) (s : State) {e : Event} {out : Db}
    → find_instance db r.instance_id ≡ some i
    → find_state db i.current_state_id ≡ some s
    → is_terminal s.kind ≡ true
    → execute_action db r ≡ ok (e, out)
    → (replayed db r.instance_id r.idempotency_key ≡ some e) × (out ≡ db)
execute_action-terminal db r i s {e} {out} found state ended h =
    elim (execute_action-cases db r h) [
      | inl replay ↦ replay
      | inr a ↦ absurd (not_terminal a found state ended)
    ]
  where
    same_some : {A : Type 0} {x y : A} → some x ≡ some y → x ≡ y
    same_some p = cc

    not_terminal :
        (a : Accepted db r e out)
        → find_instance db r.instance_id ≡ some i
        → find_state db i.current_state_id ≡ some s
        → is_terminal s.kind ≡ true
        → ⊥
    not_terminal a found state ended =
        let same : a.i ≡ i = same_some (sym a.found ∙ found) in
        let at : a.current ≡ s =
          same_some
            (sym a.state ∙ ap (λ (k : Instance). find_state db k.current_state_id) same ∙ state) in
        let live = a.live in cc (at, live, ended)
