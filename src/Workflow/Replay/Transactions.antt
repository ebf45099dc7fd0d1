-- ===== src/Workflow/Replay/Transactions.antt =====
-- The transactions of the platform as a step relation: in every database that is reached, the log of
-- each instance folds to its stored state.
use office_connect.Base.{
  ℕ, ◌+◌, ◌<◌, ◌≤◌, ◌≡◌, refl, ap, sym, subst, ◌∙◌, true, Option, none, some, List, [], ◌∷◌, ◌++◌,
  ◌==◌, arith, Bool-cases, inl, inr, find?, filter, ltb, filter-append, find?-holds, get_or,
}
use office_connect.Workflow.Types.{Instance, Step, Event, Db}
use office_connect.Workflow.Result.{ok}
use office_connect.Workflow.Decisions.{Request}
use office_connect.Workflow.Transitions.{find_instance, moved_instance, execute_action}
use office_connect.Workflow.Transitions.Inversion.{execute_action-cases}
use office_connect.Workflow.Service.{Start, start_instance}
use office_connect.Workflow.Sweep.{due_steps, escalation_events, sweep_due_steps}
use office_connect.Workflow.Replay.{of_instance, fold_from, folded_state_id, is_consistent}
use office_connect.Workflow.Replay.Consistency.{
  execute_action-AgreesWithLog, folded, folded-eq, folded-snoc, fold_from-append, find-put, replace,
}
use office_connect.Workflow.Replay.Reachable.{IsWellFormed, start-Started, start-IsWellFormed}

-- An instance that is found has an id that was handed out.
known_id :
    (db : Db) (i : Instance) (id : ℕ)
    → find_instance db id ≡ some i
    → (db.next_instance_id ≤ id → (find_instance db id ≡ none) × (folded db.events id ≡ none))
    → i.id < db.next_instance_id
known_id db i id found fresh =
    let same = find?-holds (λ k. k.id == id) db.instances found in
    elim (Bool-cases (ltb id db.next_instance_id)) [
      | inl below ↦ ground arith
      | inr above ↦ let gone = fresh (ground arith) in cc (found, gone.0)
    ]

execute_action-IsWellFormed :
    (db : Db) (r : Request) {e : Event} {out : Db}
    → IsWellFormed db
    → execute_action db r ≡ ok (e, out)
    → IsWellFormed out
execute_action-IsWellFormed db r {e} {out} w h = record {
  agrees = execute_action-AgreesWithLog db r w.agrees h;
  fresh = λ n le. elim (execute_action-cases db r h) [
    | inl (again, same) ↦
        let early : db.next_instance_id ≤ n = subst (λ (d : Db). d.next_instance_id ≤ n) same le in
        rw same (w.fresh n early)
    | inr a ↦
        let adv = a.advanced in
        let next = adv.next in
        let unused = w.fresh n (omega arith) in
        let m = moved_instance a.i a.d in
        let put : find_instance out n ≡ replace m (find_instance db n) =
          ap (find? (λ i. i.id == n)) adv.instances ∙ find-put m n db.instances in
        let of : e.instance_id ≡ a.i.id = ap (λ (x : Event). x.instance_id) adv.event in
        let fold : folded out.events n ≡ folded (db.events ++ e ∷ []) n =
          ap (λ es. folded es n) adv.events in
        let known : a.i.id < db.next_instance_id =
          known_id db a.i r.instance_id a.found (w.fresh r.instance_id) in
        (cc (put, unused.0), ground (arith, folded-snoc db.events e n))
  ];
}

fold_escalations :
    (s : Option ℕ) (n id : ℕ) (due : List Step)
    → fold_from s (filter (of_instance id) (escalation_events n due)) ≡ s
unfolding escalation_events
fold_escalations s n id [] = refl
fold_escalations s n id (d ∷ due) = ground (arith, fold_escalations s (n + 1) id due)

sweep-folded :
    (db : Db) (now : Option ℕ) (limit id : ℕ)
    → folded (sweep_due_steps db now limit).db.events id ≡ folded db.events id
unfolding sweep_due_steps
sweep-folded db now limit id =
    let es = escalation_events db.next_event_id (due_steps limit (get_or now db.clock) db.steps) in
    rw (filter-append (of_instance id) db.events es) (
      rw (fold_from-append none (filter (of_instance id) db.events) (filter (of_instance id) es)) (
        fold_escalations (folded db.events id) db.next_event_id id
          (due_steps limit (get_or now db.clock) db.steps)))

sweep-instances :
    (db : Db) (now : Option ℕ) (limit : ℕ)
    → ((sweep_due_steps db now limit).db.instances ≡ db.instances)
      × ((sweep_due_steps db now limit).db.next_instance_id ≡ db.next_instance_id)
unfolding sweep_due_steps
sweep-instances db now limit = (refl, refl)

-- A transaction of the platform. Publishing definitions, granting, delegating and the passing of
-- time touch neither the instances nor their events.
pub data Transaction (db out : Db) : Type 0 where
  act : (r : Request) (e : Event) → execute_action db r ≡ ok (e, out) → Transaction db out
  start : (s : Start) (i : Instance) → start_instance db s ≡ ok (i, out) → Transaction db out
  sweep :
      (now : Option ℕ) (limit : ℕ) → out ≡ (sweep_due_steps db now limit).db → Transaction db out
  configure :
      out.instances ≡ db.instances
      → out.events ≡ db.events
      → out.next_instance_id ≡ db.next_instance_id
      → Transaction db out

-- Nothing that the invariant reads has changed.
keep-IsWellFormed :
    (db out : Db)
    → out.instances ≡ db.instances
    → ((id : ℕ) → folded out.events id ≡ folded db.events id)
    → out.next_instance_id ≡ db.next_instance_id
    → IsWellFormed db
    → IsWellFormed out
keep-IsWellFormed db out instances folds next w = record {
  agrees = λ id i h.
      folded-eq out id
      ∙ folds id
      ∙ sym (folded-eq db id)
      ∙ w.agrees id i (sym (ap (find? (λ k. k.id == id)) instances) ∙ h);
  fresh = λ n le.
      let unused = w.fresh n (omega arith) in
      (ap (find? (λ k. k.id == n)) instances ∙ unused.0, folds n ∙ unused.1);
}

Transaction-IsWellFormed : {db out : Db} → Transaction db out → IsWellFormed db → IsWellFormed out
Transaction-IsWellFormed {db} (act r e h) w = execute_action-IsWellFormed db r w h
Transaction-IsWellFormed {db} {out} (start s i h) w =
    start-IsWellFormed db i out (start-Started db s h) w
Transaction-IsWellFormed {db} {out} (sweep now limit same) w = rw same (
    keep-IsWellFormed db (sweep_due_steps db now limit).db (sweep-instances db now limit).0
      (sweep-folded db now limit) (sweep-instances db now limit).1 w)
Transaction-IsWellFormed {db} {out} (configure instances events next) w =
    keep-IsWellFormed db out instances (λ id. ap (λ es. folded es id) events) next w

pub data Reach (db : Db) : Db → Type 0 where
  here : Reach db db
  next : {mid out : Db} → Reach db mid → Transaction mid out → Reach db out

Reach-IsWellFormed : {db out : Db} → Reach db out → IsWellFormed db → IsWellFormed out
Reach-IsWellFormed here w = w
Reach-IsWellFormed (next r t) w = Transaction-IsWellFormed t (Reach-IsWellFormed r w)

empty-IsWellFormed : (db : Db) → db.instances ≡ [] → db.events ≡ [] → IsWellFormed db
empty-IsWellFormed db i e = record {
  agrees = λ id k h. cc (ap (find? (λ (x : Instance). x.id == id)) i);
  fresh = λ n le. (ap (find? (λ x. x.id == n)) i, ap (λ es. folded es n) e);
}

agreed-is_consistent :
    (db : Db) (id : ℕ) (i : Instance)
    → find_instance db id ≡ some i
    → folded_state_id db id ≡ some i.current_state_id
    → is_consistent db id ≡ true
unfolding is_consistent
agreed-is_consistent db id i found agreed = ground arith

-- From a database with no instance and no event, after any sequence of actions, starts, sweeps and
-- changes of configuration, `is_consistent` holds of every instance that exists.
pub Reach-is_consistent :
    (db out : Db) (id : ℕ) (i : Instance)
    → db.instances ≡ []
    → db.events ≡ []
    → Reach db out
    → find_instance out id ≡ some i
    → is_consistent out id ≡ true
Reach-is_consistent db out id i no_instances no_events reached found =
    agreed-is_consistent out id i found (
      (Reach-IsWellFormed reached (empty-IsWellFormed db no_instances no_events)).agrees id i found)
