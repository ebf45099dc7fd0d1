-- ===== src/Workflow/Replay/Reachable.antt =====
-- Every sequence of transactions keeps the log and the read-model in agreement.
use office_connect.Base.{
  ℕ, ◌+◌, ◌≤◌, ◌≡◌, refl, ap, sym, ◌∙◌, none, some, List, [], ◌∷◌, ◌++◌, ◌==◌, arith, Bool-cases,
  Option-cases, inl, inr, if◌then◌else◌, find?, get_or,
}
use office_connect.Workflow.Types.{EventType, Instance, Event, Db}
use office_connect.Workflow.Result.{Error, ok, >>=-eq-ok, guard-eq-ok, require-eq-ok}
use office_connect.Workflow.Transitions.{find_instance}
use office_connect.Workflow.Transitions.Inversion.{activate_frame}
use office_connect.Workflow.Service.{
  Start, flag_allows, get_published_version, initial_state, new_instance, started_event,
  insert_instance, start_instance,
}
use office_connect.Workflow.Replay.{folded_state_id}
use office_connect.Workflow.Replay.Consistency.{AgreesWithLog, folded, folded-eq, folded-snoc}

-- Ids that the database has not handed out yet name no instance and no event.
abbrev pub IsFresh : Db → Type 0
IsFresh db =
    (n : ℕ) → db.next_instance_id ≤ n → (find_instance db n ≡ none) × (folded db.events n ≡ none)

pub record IsWellFormed (db : Db) : Type 0 where
  pub agrees : AgreesWithLog db
  pub fresh : IsFresh db

-- Starting an instance

-- What `start_instance` leaves: one instance and one event more.
pub record Started (db : Db) (i : Instance) (out : Db) : Type 0 where
  pub event : Event
  pub own : event.instance_id ≡ db.next_instance_id
  pub kind : event.event_type ≡ EventType.started
  pub to : event.to_state_id ≡ some i.current_state_id
  pub keyless : event.idempotency_key ≡ none
  pub id : i.id ≡ db.next_instance_id
  pub events : out.events ≡ db.events ++ event ∷ []
  pub instances : out.instances ≡ db.instances ++ i ∷ []
  pub next : out.next_instance_id ≡ db.next_instance_id + 1

pub start-Started :
    (db : Db) (s : Start) {i : Instance} {out : Db}
    → start_instance db s ≡ ok (i, out)
    → Started db i out
unfolding start_instance
start-Started db s {i} {out} h =
    let now = get_or s.now db.clock in
    let (allowed, h1) = guard-eq-ok (flag_allows db s.feature_flag_key) Error.module_disabled _ h in
    let (version, published, h2) =
      require-eq-ok (get_published_version db s.definition_code) Error.definition_not_published _
        h1 in
    let (initial, only, h3) = >>=-eq-ok (initial_state db version.id) _ h2 in
    let made = new_instance db s version initial in
    let frame = activate_frame (insert_instance db made) made initial now in
    record {
      event = started_event db s made initial;
      own = refl;
      kind = refl;
      to = ground arith;
      keyless = refl;
      id = ground arith;
      events = ground (arith, frame);
      instances = ground (arith, frame);
      next = ground (arith, frame);
    }

find-snoc :
    (l : List Instance) (i : Instance) (id : ℕ)
    → find? (λ k. k.id == id) (l ++ i ∷ []) ≡ elim (find? (λ k. k.id == id) l) [
      | some k ↦ some k
      | none ↦ if i.id == id then some i else none
    ]
find-snoc [] i id = ground arith
find-snoc (k ∷ l) i id = ground (arith, find-snoc l i id)

module _ (db : Db) (i : Instance) (out : Db) (s : Started db i out) (w : IsWellFormed db) where
  started_find :
      (id : ℕ)
      → find_instance out id ≡ elim (find_instance db id) [
        | some k ↦ some k
        | none ↦ if i.id == id then some i else none
      ]
  started_find id = ap (find? (λ k. k.id == id)) s.instances ∙ find-snoc db.instances i id

  started_fold :
      (id : ℕ)
      → folded_state_id out id
        ≡ (if id == db.next_instance_id then some i.current_state_id else folded db.events id)
  started_fold id =
      let fold =
        folded-eq out id ∙ ap (λ es. folded es id) s.events ∙ folded-snoc db.events s.event id in
      let own = s.own in let kind = s.kind in let to = s.to in ground arith

  pub start-IsWellFormed : IsWellFormed out
  start-IsWellFormed = record {
    agrees = λ id j h. elim (Bool-cases (id == db.next_instance_id)) [
      | inl new ↦
          let unused = w.fresh id (ground arith) in
          let own = s.id in ground (arith, started_find id, started_fold id)
      | inr old ↦ elim (Option-cases (find_instance db id)) [
        | inl absent ↦ let own = s.id in ground (arith, started_find id)
        | inr (k, present) ↦
            let before = sym (folded-eq db id) in
            let agreed = w.agrees id k present in ground (arith, started_find id, started_fold id)
      ]
    ];
    fresh = λ n le.
        let next = s.next in
        let own = s.id in
        let unused = w.fresh n (omega arith) in
        let fold = folded-eq out n in
        (ground (arith, started_find n), ground (arith, started_fold n));
  }
