-- ===== src/Reimbursement/Claims/Refusals.antt =====
-- services/lifecycle.py: who is refused by submit_claim, claim_action and cancel_draft_claim, and when.
use office_connect.Base.{
  ℕ, ◌≡◌, ◌≢◌, true, false, Option, none, some, refl, sym, ap, subst, ◌∙◌, inl, inr, String,
  is_some, Bool-cases,
}
use office_connect.Reimbursement.Claims.{is_claim_owner, may_see_claim}
use office_connect.Reimbursement.Claims.Lifecycle.{
  Environment, locked_claim, is_cancelled, Submission, may_submit, submit_claim, ClaimAction,
  is_claim_action, claim_action, append_history, cancelled_claim, cancel_draft_claim,
}
use office_connect.Reimbursement.Claims.Visible.{Sees, is_claim_owner-IsOwner, may_see_claim-Sees}
use office_connect.Reimbursement.Claims.Lockstep.{claim_action-Passed}
use office_connect.Reimbursement.Errors.{
  Error, ok, err, >>=-eq-ok, require-eq-ok, guard-eq-ok, raise_if-eq-ok, ok-injective,
}
use office_connect.Reimbursement.Records.{Claim, Store, put_claim, find_claim}
use office_connect.Reimbursement.Records.Lookup.{
  find_claim-put_claim, find_claim_id, find_claim-same,
}
use office_connect.Workflow.Result.{Error as EngineError}
use text.Mathlib.Text.{◌==◌ as str_eq}

stranger_unseen :
    (s : Store) (claim : Claim) (actor : ℕ)
    → ¬ Sees s claim actor
    → (may_see_claim s claim actor ≡ false) × (is_claim_owner s claim actor ≡ false)
stranger_unseen s claim actor unseen = (
  elim (Bool-cases (may_see_claim s claim actor)) [
    | inl seen ↦ absurd (unseen (may_see_claim-Sees s claim actor seen))
    | inr hidden ↦ hidden
  ],
  elim (Bool-cases (is_claim_owner s claim actor)) [
    | inl owner ↦ absurd (unseen (inl (is_claim_owner-IsOwner s claim actor owner)))
    | inr other ↦ other
  ],
)

-- An actor who neither has the account of the claimant nor holds one of the three oversight permissions at
-- the unit of the claim (its instance's unit, else the claimant's section or division) gets one and the same
-- answer, "not_claim_owner", from submitting the claim, from acting on it by approve, return, resubmit or
-- cancel, and from cancelling it as a draft, whatever the state of the claim and of its instance.
pub stranger_refused :
    (env : Environment) (s : Store) (r : Submission) (a : ClaimAction) (comment : String)
    {claim : Claim}
    → a.claim_id ≡ r.claim_id
    → a.actor_user_id ≡ r.actor_user_id
    → is_claim_action a.action ≡ true
    → find_claim s r.claim_id ≡ some claim
    → ¬ Sees s claim r.actor_user_id
    → (submit_claim env s r ≡ err Error.not_claim_owner)
      × (claim_action env s a ≡ err Error.not_claim_owner)
      × (cancel_draft_claim s r.claim_id r.actor_user_id comment ≡ err Error.not_claim_owner)
unfolding submit_claim claim_action cancel_draft_claim locked_claim may_submit
stranger_refused env s r a comment {claim} same_claim same_actor known found stranger =
    let (unseen, other) = stranger_unseen s claim r.actor_user_id stranger in
    (
      rw found (rw other refl),
      rw (known, same_claim, found) (rw same_actor (rw unseen refl)),
      rw found (rw other refl),
    )

-- What a cancelled draft is.
record Cancelled (id : ℕ) (after : Store) : Type 0 where
  row : Claim
  found : find_claim after id ≡ some row
  status : is_cancelled row ≡ true
  link : row.workflow_instance_id ≡ none

unlinked : (o : Option ℕ) → is_some o ≡ false → o ≡ none
unlinked none e = refl
unlinked (some n) e = cc

cancel-Cancelled :
    (s : Store) (id actor : ℕ) (comment : String) {out : Claim} {after : Store}
    → cancel_draft_claim s id actor comment ≡ ok (out, after)
    → Cancelled id after
unfolding cancel_draft_claim locked_claim
cancel-Cancelled s id actor comment {out} {after} h =
    let (claim, found, h1) = require-eq-ok (find_claim s id) Error.claim_not_found _ h in
    let (owner, h2) = guard-eq-ok (is_claim_owner s claim actor) Error.not_claim_owner _ h1 in
    let (unsubmitted, h3) =
      raise_if-eq-ok (is_some claim.workflow_instance_id) Error.claim_already_submitted _ h2 in
    let (reason, h4) =
      raise_if-eq-ok (str_eq comment "") (Error.engine EngineError.comment_required) _ h3 in
    let (live, h5) = raise_if-eq-ok (is_cancelled claim) Error.claim_cancelled _ h4 in
    let same = find_claim_id s id found in
    subst (λ (x : Claim × Store). Cancelled id x.1) (ok-injective h5)
      (record {
        row = cancelled_claim claim;
        found =
            find_claim-same (append_history _ (put_claim (cancelled_claim claim) s))
              (put_claim (cancelled_claim claim) s) id refl
              (subst
                (λ (x : ℕ).
                  find_claim (put_claim (cancelled_claim claim) s) x ≡ some (cancelled_claim claim))
                same
                (find_claim-put_claim (cancelled_claim claim) s
                  (subst (λ (x : ℕ). find_claim s x ≡ some claim) (sym same) found)));
        status = refl;
        link = unlinked claim.workflow_instance_id unsubmitted;
      })

-- A cancelled draft stays cancelled: once cancel_draft_claim has returned, no submission of the claim, no
-- action on it and no second cancellation returns, whoever calls and with whatever arguments.
pub cancel_draft_claim-final :
    (env : Environment) (s : Store) (id actor : ℕ) (comment : String) {out : Claim} {after : Store}
    (r : Submission) (a : ClaimAction) (who : ℕ) (why : String) (x y z : Claim × Store)
    → cancel_draft_claim s id actor comment ≡ ok (out, after)
    → r.claim_id ≡ id
    → a.claim_id ≡ id
    → (submit_claim env after r ≢ ok x)
      × (claim_action env after a ≢ ok y)
      × (cancel_draft_claim after id who why ≢ ok z)
unfolding submit_claim cancel_draft_claim locked_claim may_submit
cancel_draft_claim-final env s id actor comment {out} {after} r a who why x y z done filed acted =
    let c = cancel-Cancelled s id actor comment done in
    (
      λ h.
          let (claim, found, h1) =
            require-eq-ok (find_claim after r.claim_id) Error.claim_not_found _ h in
          let (unit, allowed, h2) = >>=-eq-ok (may_submit after claim r.actor_user_id) _ h1 in
          let same = same_value (sym found ∙ ap (find_claim after) filed ∙ c.found) in
          let (owner, h3) =
            guard-eq-ok (is_claim_owner after claim r.actor_user_id) Error.not_claim_owner _
              allowed in
          let (unsubmitted, h4) =
            raise_if-eq-ok (is_some claim.workflow_instance_id) Error.claim_already_submitted _
              h3 in
          let (live, h5) = raise_if-eq-ok (is_cancelled claim) Error.claim_cancelled _ h4 in
          clash (sym (ap is_cancelled same ∙ c.status) ∙ live),
      λ h.
          let p = claim_action-Passed env after a h in
          let same = same_value (sym p.found ∙ ap (find_claim after) acted ∙ c.found) in
          absent (sym p.link ∙ ap (λ (k : Claim). k.workflow_instance_id) same ∙ c.link),
      λ h.
          let (claim, found, h1) = require-eq-ok (find_claim after id) Error.claim_not_found _ h in
          let same = same_value (sym found ∙ c.found) in
          let (owner, h2) =
            guard-eq-ok (is_claim_owner after claim who) Error.not_claim_owner _ h1 in
          let (unsubmitted, h3) =
            raise_if-eq-ok (is_some claim.workflow_instance_id) Error.claim_already_submitted _
              h2 in
          let (reason, h4) =
            raise_if-eq-ok (str_eq why "") (Error.engine EngineError.comment_required) _ h3 in
          let (live, h5) = raise_if-eq-ok (is_cancelled claim) Error.claim_cancelled _ h4 in
          clash (sym (ap is_cancelled same ∙ c.status) ∙ live),
    )
  where
    same_value : {p q : Claim} → some p ≡ some q → p ≡ q
    same_value e = cc

    clash : true ≡ false → ⊥
    clash e = cc

    absent : {n : ℕ} → some n ≡ none → ⊥
    absent e = cc
