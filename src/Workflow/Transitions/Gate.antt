-- ===== src/Workflow/Transitions/Gate.antt =====
-- Approvals: segregation of duties, and the fan-in that moves an instance on.
use office_connect.Base.{
  ℕ, ◌≡◌, ◌≢◌, ap, sym, ◌∙◌, true, false, not, Option, none, some, List, [], ◌∷◌, ◌++◌, arith, All,
  inl, inr, find?, get_or,
}
use office_connect.Workflow.Types.{Action, State, Transition, Instance, Step, Event, Db, is_active}
use office_connect.Workflow.Result.{Error, ok, >>=-eq-ok, guard-eq-ok, require-eq-ok, ok-injective}
use office_connect.Workflow.Steps.{gate_steps}
use office_connect.Workflow.Segregation.{assert_segregation, Distinct, assert_segregation-passes}
use office_connect.Workflow.Delegation.{resolve_authority}
use office_connect.Workflow.Decisions.{
  Request, Decision, definition_id, has_acted, prior_approvers, check_segregation, approved,
  decide_approve, branch,
}
use office_connect.Workflow.Transitions.{find_instance, find_state, replayed, execute_action}
use office_connect.Workflow.Transitions.Inversion.{Accepted, execute_action-cases}

-- The gate's rows of an instance at its present revision.
abbrev pub gate : Db → Instance → State → List Step
gate db i current = gate_steps db.steps i.id current.id (some i.revision_no)

-- Every check that an approval has passed.
pub record Approval (db : Db) (i : Instance) (current : State) (t : Transition) (r : Request)
    (now : ℕ) (d : Decision) : Type 0 where
  pub unacted : has_acted r.actor_user_id (gate db i current) ≡ false
  pub step : Step
  pub waiting : find? (λ s. is_active s.status) (gate db i current) ≡ some step
  pub segregated : check_segregation current i (gate db i current) r.actor_user_id ≡ ok tt
  pub on_behalf_of : Option ℕ
  pub decision : d ≡ approved db i current t r now step on_behalf_of

decide_approve-Approval :
    (db : Db) (i : Instance) (current : State) (t : Transition) (r : Request) (now : ℕ)
    {d : Decision}
    → decide_approve db i current t r now ≡ ok d
    → Approval db i current t r now d
unfolding decide_approve
decide_approve-Approval db i current t r now {d} h =
    let (unacted, h1) =
      guard-eq-ok (not (has_acted r.actor_user_id (gate db i current))) Error.already_acted _ h in
    let (step, waiting, h2) =
      require-eq-ok (find? (λ s. is_active s.status) (gate db i current)) Error.already_acted _
        h1 in
    let auth =
      resolve_authority db r.actor_user_id step.required_permission step.org_unit_id
        (definition_id db i) now in
    let (authorized, h3) = guard-eq-ok auth.authorized Error.not_authorized _ h2 in
    let (passed, segregated, h4) =
      >>=-eq-ok (check_segregation current i (gate db i current) r.actor_user_id) _ h3 in
    record {
      unacted = ground arith;
      step = step;
      waiting = waiting;
      segregated = segregated;
      on_behalf_of = auth.on_behalf_of;
      decision = sym (ok-injective h4);
    }

segregation_checked :
    (current : State) (i : Instance) (steps : List Step) (actor maker : ℕ)
    → current.enforce_segregation ≡ true
    → i.originator_user_id ≡ some maker
    → check_segregation current i steps actor ≡ ok tt
    → assert_segregation maker (prior_approvers steps ++ actor ∷ []) ≡ ok tt
unfolding check_segregation
segregation_checked current i steps actor maker enforced from h = ground arith

-- The branch of an accepted approval.
pub Approval-of :
    (db out : Db) (r : Request) (e : Event)
    → r.action ≡ Action.approve
    → (a : Accepted db r e out) → Approval db a.i a.current a.t r (get_or r.now db.clock) a.d
Approval-of db out r e approving a =
    decide_approve-Approval db a.i a.current a.t r (get_or r.now db.clock) (
      sym (ap (λ (x : Action). branch x db a.i a.current a.t r (get_or r.now db.clock)) approving)
      ∙ a.decided)

pub same_some {ℓ} : {A : Type ℓ} {x y : A} → some x ≡ some y → x ≡ y
same_some p = cc

-- Four eyes: where a gate enforces segregation, a new approval that succeeds is never by the
-- originator, and the originator, the approvers of the steps that were done before and the new
-- approver are all different people.
pub approve-four_eyes :
    (db out : Db) (r : Request) (i : Instance) (current : State) (maker : ℕ) (e : Event)
    → r.action ≡ Action.approve
    → find_instance db r.instance_id ≡ some i
    → find_state db i.current_state_id ≡ some current
    → current.enforce_segregation ≡ true
    → i.originator_user_id ≡ some maker
    → replayed db r.instance_id r.idempotency_key ≡ none
    → execute_action db r ≡ ok (e, out)
    → All (λ c. maker ≢ c) (prior_approvers (gate db i current) ++ r.actor_user_id ∷ [])
      × Distinct (prior_approvers (gate db i current) ++ r.actor_user_id ∷ [])
approve-four_eyes db out r i current maker e approving found state enforced from fresh h =
    elim (execute_action-cases db r h) [
      | inl (recorded, same) ↦ cc (recorded, fresh)
      | inr a ↦ four_eyes a
    ]
  where
    four_eyes :
        Accepted db r e out
        → All (λ c. maker ≢ c) (prior_approvers (gate db i current) ++ r.actor_user_id ∷ [])
          × Distinct (prior_approvers (gate db i current) ++ r.actor_user_id ∷ [])
    four_eyes a =
        let same : a.i ≡ i = same_some (sym a.found ∙ found) in
        let at : a.current ≡ current =
          same_some
            (sym a.state ∙ ap (λ (k : Instance). find_state db k.current_state_id) same ∙ state) in
        let passed = (Approval-of db out r e approving a).segregated in
        (assert_segregation-passes maker
            (prior_approvers (gate db i current) ++ r.actor_user_id ∷ [])).0
          (segregation_checked current i (gate db i current) r.actor_user_id maker enforced from
            (rw (same, at) at passed))
