-- ===== src/Workflow/Transitions/FanIn.antt =====
-- When an approval moves its instance: the fan-in of the gate after one more step is done.
use office_connect.Base.{
  ℕ, ◌+◌, ◌-◌, ◌≡◌, refl, ap, sym, ◌∙◌, Bool, true, false, ◌&&◌, Option, none, some, List, [], ◌∷◌,
  arith, Bool-cases, inl, inr, find?, filter, count, get_or, if◌then◌else◌,
}
use office_connect.Workflow.Types.{
  Action, JoinType, State, Transition, Instance, Step, Event, Db, is_active, is_done,
}
use office_connect.Workflow.Result.{ok}
use office_connect.Workflow.Guards.{select_transition}
use office_connect.Workflow.Steps.{gate_steps, in_gate, join_satisfied}
use office_connect.Workflow.Steps.Join.{Joined, IsUniform, join_satisfied-Joined}
use office_connect.Workflow.Decisions.{Request, Decision, fill, update_first, active_in, approved}
use office_connect.Workflow.Transitions.{
  find_instance, find_state, moved_instance, replayed, execute_action,
}
use office_connect.Workflow.Transitions.Inversion.{Accepted, execute_action-cases}
use office_connect.Workflow.Transitions.Versions.{accepted_instance}
use office_connect.Workflow.Transitions.Gate.{gate, Approval-of, same_some}

module _ (r : Request) (on_behalf_of : Option ℕ) (now instance_id state_id : ℕ)
    (revision : Option ℕ) where
  abbrev within : Step → Bool
  within = in_gate instance_id state_id revision

  abbrev filled : List Step → List Step
  filled = update_first (λ s. within s && is_active s.status) (fill r on_behalf_of now)

  filled_done :
      (steps : List Step) {step : Step}
      → find? (λ s. is_active s.status) (filter within steps) ≡ some step
      → count (λ s. is_done s.status) (filter within (filled steps))
        ≡ count (λ s. is_done s.status) (filter within steps) + 1
  unfolding update_first
  filled_done [] h = cc
  filled_done (s ∷ steps) {step} h = ground (arith, filled_done steps {step = step})

  filled_active :
      (steps : List Step) {step : Step}
      → find? (λ s. is_active s.status) (filter within steps) ≡ some step
      → count (λ s. is_active s.status) (filter within (filled steps)) + 1
        ≡ count (λ s. is_active s.status) (filter within steps)
  unfolding update_first
  filled_active [] h = cc
  filled_active (s ∷ steps) {step} h = ground (arith, filled_active steps {step = step})

-- Filling a row keeps its join type and quorum, whatever rows are looked at.
filled-IsUniform :
    (g : Step → Bool) (r : Request) (on_behalf_of : Option ℕ) (now : ℕ) (j : JoinType)
    (q : Option ℕ) (steps : List Step)
    → ((s : Step) → g (fill r on_behalf_of now s) ≡ g s)
    → IsUniform j q (filter g steps)
    → IsUniform j q
        (filter g (update_first (λ s. g s && is_active s.status) (fill r on_behalf_of now) steps))
unfolding update_first
filled-IsUniform g r o now j q [] keeps h = tt
filled-IsUniform g r o now j q (s ∷ steps) keeps h = elim (Bool-cases (g s)) [
  | inr off ↦ rw (off, off) (filled-IsUniform g r o now j q steps keeps (rw off at h))
  | inl on ↦ elim (Bool-cases (is_active s.status)) [
    | inl active ↦ rw (on, active, keeps s, on) (rw on at h)
    | inr done ↦
        let both : (g s && is_active s.status) ≡ false = ground arith in
        let others = rw on at h in
        rw (both, on) (others.0, filled-IsUniform g r o now j q steps keeps others.1)
  ]
]

abbrev pub done_in : Db → Instance → State → ℕ
done_in db i current = count (λ s. is_done s.status) (gate db i current)

abbrev pub active_at : Db → Instance → State → ℕ
active_at db i current = count (λ s. is_active s.status) (gate db i current)

module _ (db : Db) (i : Instance) (current : State) (t : Transition) (r : Request) (now : ℕ)
    (on_behalf_of : Option ℕ) where
  abbrev gate_after : List Step
  gate_after =
      gate_steps (update_first (active_in i current) (fill r on_behalf_of now) db.steps) i.id
        current.id (some i.revision_no)

  Joined-after :
      (j : JoinType) (q : Option ℕ) (step : Step)
      → IsUniform j q (gate db i current)
      → find? (λ s. is_active s.status) (gate db i current) ≡ some step
      → ((join_satisfied gate_after ≡ true)
          → Joined j q (done_in db i current + 1) (active_at db i current - 1))
        × (Joined j q (done_in db i current + 1) (active_at db i current - 1)
            → (join_satisfied gate_after ≡ true))
  unfolding gate_steps
  Joined-after j q step uniform waiting =
      let done =
        filled_done r on_behalf_of now i.id current.id (some i.revision_no) db.steps waiting in
      let active =
        filled_active r on_behalf_of now i.id current.id (some i.revision_no) db.steps waiting in
      let less : count (λ s. is_active s.status) gate_after ≡ active_at db i current - 1 =
        omega arith in
      let (forth, back) = join_satisfied-Joined j q gate_after (
        filled-IsUniform (in_gate i.id current.id (some i.revision_no)) r on_behalf_of now j q
          db.steps (λ s. refl) uniform) in
      (λ e. rw (← done, ← less) (forth e), λ e. back (rw (done, less) e))

  approved_target :
      (step : Step)
      → (approved db i current t r now step on_behalf_of).new_state_id
        ≡ (if join_satisfied gate_after then t.to_state_id else current.id)
  unfolding approved
  approved_target step = refl

-- The instance after an approval, by whether the join is met with one step more done and one active
-- step fewer.
pub record Moves (db out : Db) (r : Request) (i : Instance) (current : State) (t : Transition)
    (j : JoinType) (q : Option ℕ) : Type 0 where
  pub after : Instance
  pub found : find_instance out r.instance_id ≡ some after
  pub on :
      Joined j q (done_in db i current + 1) (active_at db i current - 1)
      → after.current_state_id ≡ t.to_state_id
  pub stays :
      ¬ Joined j q (done_in db i current + 1) (active_at db i current - 1)
      → after.current_state_id ≡ current.id

Accepted-Moves :
    (db out : Db) (r : Request) (e : Event)
    → r.action ≡ Action.approve
    → (a : Accepted db r e out) (j : JoinType) (q : Option ℕ)
    → IsUniform j q (gate db a.i a.current)
    → Moves db out r a.i a.current a.t j q
Accepted-Moves db out r e approving a j q uniform =
    let app = Approval-of db out r e approving a in
    let now = get_or r.now db.clock in
    let (forth, back) =
      Joined-after db a.i a.current a.t r now app.on_behalf_of j q app.step uniform app.waiting in
    let target : a.d.new_state_id ≡ (
        if join_satisfied (gate_after db a.i a.current a.t r now app.on_behalf_of)
        then a.t.to_state_id
        else a.current.id) =
      ap (λ (d : Decision). d.new_state_id) app.decision
      ∙ approved_target db a.i a.current a.t r now app.on_behalf_of app.step in
    record {
      after = moved_instance a.i a.d;
      found = accepted_instance db out r e a;
      on = λ joined. let met = back joined in ground arith;
      stays = λ unmet.
          elim (Bool-cases
            (join_satisfied (gate_after db a.i a.current a.t r now app.on_behalf_of))) [
              | inl met ↦ absurd (unmet (forth met))
              | inr open_gate ↦ ground arith
            ];
    }

-- An approval moves the instance to the routed transition's target exactly when the gate's join is met
-- with this one step more done and one active step fewer, and otherwise leaves it in its state. The
-- gate's rows carry one join type and quorum.
pub approve-Moves :
    (db out : Db) (r : Request) (i : Instance) (current : State) (t : Transition) (e : Event)
    (j : JoinType) (q : Option ℕ)
    → r.action ≡ Action.approve
    → find_instance db r.instance_id ≡ some i
    → find_state db i.current_state_id ≡ some current
    → select_transition db i current r.action ≡ some t
    → IsUniform j q (gate db i current)
    → replayed db r.instance_id r.idempotency_key ≡ none
    → execute_action db r ≡ ok (e, out)
    → Moves db out r i current t j q
approve-Moves db out r i current t e j q approving found state routed uniform fresh h =
    elim (execute_action-cases db r h) [
      | inl (recorded, same) ↦ cc (recorded, fresh)
      | inr a ↦ from_accepted a
    ]
  where
    from_accepted : Accepted db r e out → Moves db out r i current t j q
    from_accepted a =
        let same : a.i ≡ i = same_some (sym a.found ∙ found) in
        let at : a.current ≡ current =
          same_some
            (sym a.state ∙ ap (λ (k : Instance). find_state db k.current_state_id) same ∙ state) in
        let to : a.t ≡ t = same_some (
          sym a.routed
          ∙ ap (λ (k : Instance). select_transition db k a.current r.action) same
          ∙ ap (λ (s : State). select_transition db i s r.action) at
          ∙ routed) in
        rw (same, at, to) at (Accepted-Moves db out r e approving a j q (rw (same, at) uniform))
