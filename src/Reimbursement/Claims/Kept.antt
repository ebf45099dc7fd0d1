-- ===== src/Reimbursement/Claims/Kept.antt =====
-- services/lifecycle.py: what claim_action leaves alone.
use office_connect.Base.{ℕ, ◌≡◌, some, sym, subst, ◌∙◌}
use office_connect.Reimbursement.Claims.Lifecycle.{
  Environment, logged, has_event, action_request, key_of, ClaimAction, act,
}
use office_connect.Reimbursement.Claims.Lockstep.{Passed, logged_same}
use office_connect.Reimbursement.Claims.Mirror.{Facts, after_action-Facts}
use office_connect.Reimbursement.Claims.Prepared.{prepare-Prepared}
use office_connect.Reimbursement.Errors.{ok, from_engine, >>=-eq-ok}
use office_connect.Reimbursement.Records.{Claim, Store, find_claim}
use office_connect.Reimbursement.Records.Lookup.{find_claim_id, find_claim-same}
use office_connect.Workflow.Transitions.{execute_action}
use office_connect.Workflow.Types.{Instance}

act-Facts :
    (env : Environment) (s : Store) (claim : Claim) (i : Instance) (r : ClaimAction) {out : Claim}
    {after : Store}
    → find_claim s claim.id ≡ some claim
    → act env s claim i r ≡ ok (out, after)
    → (out.id ≡ claim.id)
      × (find_claim after out.id ≡ some out)
      × Facts claim out
      × (after.advances ≡ s.advances)
unfolding act
act-Facts env s claim i r {out} {after} listed h =
    let key = key_of env r claim i in
    let (done, engine_ok, h1) =
      >>=-eq-ok (from_engine (execute_action s.db (action_request r i key))) _ h in
    let moved : Store = record s { db = done.1 } in
    let (recorded, logged_ok, h2) =
      >>=-eq-ok (logged (has_event s.db i.id key) r.action moved claim i done.0 r) _ h1 in
    let (db, claims, advances) =
      logged_same (has_event s.db i.id key) r.action moved claim i done.0 r logged_ok in
    let (id, stored, facts, rows) =
      after_action-Facts recorded claim i.id done.0 r.now
        (find_claim-same recorded s claim.id claims listed) h2 in
    (id, stored, facts, rows ∙ advances)

join : (a b c : Claim) → Facts a b → Facts b c → Facts a c
join a b c f g = record {
  kind = g.kind ∙ f.kind;
  advance = g.advance ∙ f.advance;
  payout = g.payout ∙ f.payout;
}

-- The claim under its id, with the columns that no action writes, beside the same advances.
pub Passed-Facts :
    (env : Environment) (s : Store) (r : ClaimAction) {out : Claim} {after : Store}
    → (p : Passed env s r out after)
    → (out.id ≡ r.claim_id)
      × (find_claim after r.claim_id ≡ some out)
      × Facts p.claim out
      × (after.advances ≡ s.advances)
Passed-Facts env s r {out} {after} p =
    let ready = prepare-Prepared env s p.claim p.i r p.id p.found p.at r.action p.ready in
    let row_id = find_claim_id p.prepared r.claim_id p.found_row in
    let (id, stored, facts, rows) =
      act-Facts env p.prepared p.row p.current r
        (subst (λ (x : ℕ). find_claim p.prepared x ≡ some p.row) (sym row_id) p.found_row)
        p.acted in
    (
      id ∙ row_id,
      subst (λ (x : ℕ). find_claim after x ≡ some out) (id ∙ row_id) stored,
      join p.claim p.row out (ready.facts p.row p.found_row) facts,
      rows ∙ ready.advances,
    )
