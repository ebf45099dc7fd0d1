-- ===== src/Reimbursement/Claims/Prepared.antt =====
-- services/lifecycle.py: what the demands of an action leave of a claim and of its instance.
use office_connect.Base.{ℕ, ◌≡◌, none, some, refl, sym, ap, subst, ◌∙◌, ◌==◌, find?, arith}
use office_connect.Reimbursement.Claims.Lifecycle.{
  Environment, locked_claim, grand_of, ClaimAction, assert_return_reasons, may_withdraw, repriced,
  prepare_resubmit, assert_money, prepare,
}
use office_connect.Reimbursement.Claims.Mirror.{Facts}
use office_connect.Reimbursement.ClaimTotals.{compute_claim_totals}
use office_connect.Reimbursement.ClaimTotals.Balanced.{compute-Computed}
use office_connect.Reimbursement.Errors.{
  Error, Result, ok, ◌>>◌, >>=-eq-ok, require-eq-ok, guard-eq-ok, ok-injective,
}
use office_connect.Reimbursement.Records.{Claim, Store, find_claim}
use office_connect.Reimbursement.Records.Lookup.{find_claim-same}
use office_connect.Workflow.Replay.Consistency.{find-put}
use office_connect.Workflow.Transitions.{find_instance}
use office_connect.Workflow.Types.{Action, Instance, Db}

-- What the demands of an action leave of the claim and of its instance.
pub record Prepared (s : Store) (claim : Claim) (i : Instance) (id iid : ℕ) (prepared : Store)
    : Type 0 where
  pub events : prepared.db.events ≡ s.db.events
  pub advances : prepared.advances ≡ s.advances
  pub facts : (fresh : Claim) → find_claim prepared id ≡ some fresh → Facts claim fresh
  pub link :
      (fresh : Claim)
      → find_claim prepared id ≡ some fresh
      → fresh.workflow_instance_id ≡ claim.workflow_instance_id
  pub same :
      (current : Instance)
      → find_instance prepared.db iid ≡ some current
      → (current.id ≡ i.id)
        × (current.revision_no ≡ i.revision_no)
        × (current.current_state_id ≡ i.current_state_id)

eq-Facts : (a b : Claim) → a ≡ b → Facts b a
eq-Facts a b e = record {
  kind = ap (λ (x : Claim). x.kind) e;
  advance = ap (λ (x : Claim). x.cash_advance_id) e;
  payout = ap (λ (x : Claim). x.payout_ref) e;
}

module _ (env : Environment) (s : Store) (claim : Claim) (i : Instance) (r : ClaimAction) (iid : ℕ)
    (found : find_claim s r.claim_id ≡ some claim)
    (instance_found : find_instance s.db iid ≡ some i) where
  same_some {ℓ} : {A : Type ℓ} {x y : A} → some x ≡ some y → x ≡ y
  same_some p = cc

  untouched : Prepared s claim i r.claim_id iid s
  untouched = record {
    events = refl;
    advances = refl;
    facts = λ fresh e. eq-Facts fresh claim (same_some (sym e ∙ found));
    link = λ fresh e. ap (λ (x : Claim). x.workflow_instance_id) (same_some (sym e ∙ found));
    same = λ current e.
        let same = same_some (sym e ∙ instance_found) in
        (
          ap (λ (x : Instance). x.id) same,
          ap (λ (x : Instance). x.revision_no) same,
          ap (λ (x : Instance). x.current_state_id) same,
        );
  }

  same_store :
      {prepared : Store}
      → ◌≡◌ {A = Result Store} (ok s) (ok prepared)
      → Prepared s claim i r.claim_id iid prepared
  same_store h =
      subst (λ (x : Store). Prepared s claim i r.claim_id iid x) (ok-injective h) untouched

  resubmit_Prepared :
      {prepared : Store}
      → prepare_resubmit env s i r ≡ ok prepared
      → Prepared s claim i r.claim_id iid prepared
  unfolding prepare_resubmit locked_claim
  resubmit_Prepared h =
      let (computed, totals, h1) = >>=-eq-ok (compute_claim_totals s r.claim_id none) _ h in
      let (priced, listed, h2) =
        require-eq-ok (find_claim computed.1 r.claim_id) Error.claim_not_found _ h1 in
      let (u, complete, h3) =
        >>=-eq-ok (env.assert_packet_complete computed.1 priced r.actor_user_id r.now) _ h2 in
      let (grand, total, h4) = >>=-eq-ok (grand_of priced) _ h3 in
      let c = compute-Computed s r.claim_id none totals in
      subst (λ (x : Store). Prepared s claim i r.claim_id iid x) (ok-injective h4)
        (record {
          events = ap (λ (x : Db). x.events) c.db;
          advances = c.advances;
          facts = λ fresh e.
              let now = same_some (
                sym (find_claim-same computed.1 (repriced computed.1 i grand) r.claim_id refl e)
                ∙ c.listed) in
              let was = same_some (sym c.found ∙ found) in
              record {
                kind = ap (λ (x : Claim). x.kind) (now ∙ c.row) ∙ ap (λ (x : Claim). x.kind) was;
                advance =
                    ap (λ (x : Claim). x.cash_advance_id) (now ∙ c.row)
                    ∙ ap (λ (x : Claim). x.cash_advance_id) was;
                payout =
                    ap (λ (x : Claim). x.payout_ref) (now ∙ c.row)
                    ∙ ap (λ (x : Claim). x.payout_ref) was;
              };
          link = λ fresh e.
              let here_row : fresh ≡ c.out = same_some (
                sym (find_claim-same computed.1 (repriced computed.1 i grand) r.claim_id refl e)
                ∙ c.listed) in
              let was : c.claim ≡ claim = same_some (sym c.found ∙ found) in
              ap (λ (x : Claim). x.workflow_instance_id) (here_row ∙ c.row)
              ∙ ap (λ (x : Claim). x.workflow_instance_id) was;
          same = λ current e.
              let moved : Instance = record i { amount = some grand } in
              let put = find-put moved iid computed.1.db.instances in
              let before : find? (λ (x : Instance). x.id == iid) computed.1.db.instances ≡ some i =
                ap (λ (x : Db). find? (λ (y : Instance). y.id == iid) x.instances) c.db
                ∙ instance_found in
              let eq : some current ≡ some moved = sym e ∙ put ∙ rw before (ground arith) in
              let same = same_some eq in
              (
                ap (λ (x : Instance). x.id) same,
                ap (λ (x : Instance). x.revision_no) same,
                ap (λ (x : Instance). x.current_state_id) same,
              );
        })

  pub prepare-Prepared :
      (action : Action) {prepared : Store}
      → prepare env s claim i r action ≡ ok prepared
      → Prepared s claim i r.claim_id iid prepared
  unfolding prepare
  prepare-Prepared Action.submit h = same_store h
  prepare-Prepared Action.approve h =
      let (u, checked, h1) =
        >>=-eq-ok (env.assert_persisted_packet_complete s claim >> assert_money s claim) _ h in
      same_store h1
  prepare-Prepared Action.return h =
      let (u, checked, h1) = >>=-eq-ok (assert_return_reasons s r.reason_ids) _ h in same_store h1
  prepare-Prepared Action.reject h = same_store h
  prepare-Prepared Action.cancel h =
      let (allowed, h1) =
        guard-eq-ok (may_withdraw s claim i r.actor_user_id) Error.not_claim_owner _ h in
      same_store h1
  prepare-Prepared Action.escalate h = same_store h
  prepare-Prepared Action.resubmit h =
      let (allowed, h1) =
        guard-eq-ok (may_withdraw s claim i r.actor_user_id) Error.not_claim_owner _ h in
      resubmit_Prepared h1
