-- ===== src/Workflow/Replay/Consistency.antt =====
-- The event log always folds to the stored state: the invariant behind replay.py.
use office_connect.Base.{
  ℕ, ◌≡◌, refl, ap, sym, ◌∙◌, true, Option, none, some, List, [], ◌∷◌, ◌++◌, ◌==◌, arith,
  Option-cases, inl, inr, if◌then◌else◌, find?, filter, filter-append, find?-holds,
}
use office_connect.Workflow.Types.{Instance, Event, Db}
use office_connect.Workflow.Result.{ok}
use office_connect.Workflow.Decisions.{Request}
use office_connect.Workflow.Transitions.{
  find_instance, moved_instance, put_instance, execute_action,
}
use office_connect.Workflow.Transitions.Inversion.{execute_action-cases}
use office_connect.Workflow.Replay.{moves_state, moved_to, fold_from, of_instance, folded_state_id}

pub fold_from-append :
    (s : Option ℕ) (es fs : List Event) → fold_from s (es ++ fs) ≡ fold_from (fold_from s es) fs
fold_from-append s [] fs = refl
fold_from-append s (e ∷ es) fs =
    fold_from-append (moved_to (moves_state e.event_type) e.to_state_id s) es fs

abbrev pub folded : List Event → ℕ → Option ℕ
folded es id = fold_from none (filter (of_instance id) es)

pub folded-eq : (db : Db) (id : ℕ) → folded_state_id db id ≡ folded db.events id
unfolding folded_state_id
folded-eq db id = refl

filter_one :
    (id : ℕ) (e : Event)
    → filter (of_instance id) (e ∷ []) ≡ (if of_instance id e then e ∷ [] else [])
filter_one id e = ground arith

pub folded-snoc :
    (es : List Event) (e : Event) (id : ℕ)
    → folded (es ++ e ∷ []) id ≡ (
        if e.instance_id == id
        then moved_to (moves_state e.event_type) e.to_state_id (folded es id)
        else folded es id)
folded-snoc es e id = rw (filter-append (of_instance id) es (e ∷ [])) (
    rw (fold_from-append none (filter (of_instance id) es) (filter (of_instance id) (e ∷ [])))
      (ground arith))

abbrev pub replace : Instance → Option Instance → Option Instance
replace m none = none
replace m (some k) = some (if k.id == m.id then m else k)

pub find-put :
    (m : Instance) (j : ℕ) (l : List Instance)
    → find? (λ i. i.id == j) (put_instance m l) ≡ replace m (find? (λ i. i.id == j) l)
find-put m j [] = refl
find-put m j (k ∷ l) = ground (arith, find-put m j l)

-- The read-model agrees with the log, for every instance.
abbrev pub AgreesWithLog : Db → Type 0
AgreesWithLog db =
    (id : ℕ) (i : Instance)
    → find_instance db id ≡ some i
    → folded_state_id db id ≡ some i.current_state_id

transition_case :
    (m : Instance) (e : Event) (k i' : Instance) (id : ℕ) (before : Option ℕ) {after : Option ℕ}
    → e.instance_id ≡ m.id
    → moves_state e.event_type ≡ true
    → e.to_state_id ≡ some m.current_state_id
    → (k.id == id) ≡ true
    → replace m (some k) ≡ some i'
    → before ≡ some k.current_state_id
    → after ≡ (
        if e.instance_id == id
        then moved_to (moves_state e.event_type) e.to_state_id before
        else before)
    → after ≡ some i'.current_state_id
transition_case m e k i' id before of moves to same got agreed fold = ground arith

-- A transition event beside the update of the instance keeps the agreement.
transition-AgreesWithLog :
    (db out : Db) (m : Instance) (e : Event)
    → out.events ≡ db.events ++ e ∷ []
    → out.instances ≡ put_instance m db.instances
    → e.instance_id ≡ m.id
    → moves_state e.event_type ≡ true
    → e.to_state_id ≡ some m.current_state_id
    → AgreesWithLog db
    → AgreesWithLog out
transition-AgreesWithLog db out m e events instances of moves to agree id i' h =
    elim (Option-cases (find_instance db id)) [
      | inl absent ↦ let put = find-put m id db.instances in cc (instances, put, absent, h)
      | inr (k, present) ↦
          let got : replace m (some k) ≡ some i' =
            cc (instances, find-put m id db.instances, present, h) in
          let same = find?-holds (λ i. i.id == id) db.instances present in
          let after : folded_state_id out id ≡ folded (db.events ++ e ∷ []) id =
            folded-eq out id ∙ ap (λ es. folded es id) events in
          transition_case m e k i' id (folded db.events id) of moves to same got
            (sym (folded-eq db id) ∙ agree id k present) (after ∙ folded-snoc db.events e id)
    ]

-- Whatever an action does, of any actor, valid or not: after it the log of every instance folds to
-- the state that its row stores.
pub execute_action-AgreesWithLog :
    (db : Db) (r : Request) {e : Event} {out : Db}
    → AgreesWithLog db
    → execute_action db r ≡ ok (e, out)
    → AgreesWithLog out
execute_action-AgreesWithLog db r {e} {out} agree h = elim (execute_action-cases db r h) [
  | inl (again, same) ↦ rw same agree
  | inr a ↦
      let adv = a.advanced in
      transition-AgreesWithLog db out (moved_instance a.i a.d) e adv.events adv.instances
        (ap (λ (x : Event). x.instance_id) adv.event)
        (ap (λ (x : Event). moves_state x.event_type) adv.event)
        (ap (λ (x : Event). x.to_state_id) adv.event) agree
]
