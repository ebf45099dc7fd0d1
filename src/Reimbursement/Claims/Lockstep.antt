-- ===== src/Reimbursement/Claims/Lockstep.antt =====
-- services/lifecycle.py: submit_claim and claim_action beside the engine that they drive.
use office_connect.Base.{
  ℕ, ◌≡◌, Bool, true, false, some, refl, sym, ap, subst, ◌∙◌, String, ◌==◌, arith, find?-holds,
}
use office_connect.Reimbursement.Claims.{may_see_claim, find_state?}
use office_connect.Reimbursement.Claims.Lifecycle.{
  Environment, locked_claim, ClaimAction, is_claim_action, prepare, log_return, logged, has_event,
  action_request, key_of, key_or, act, claim_action,
}
use office_connect.Reimbursement.Claims.Mirror.{Mirrors, after_action-Mirrors}
use office_connect.Reimbursement.Errors.{
  Error, Result, ok, from_engine, >>=-eq-ok, require-eq-ok, guard-eq-ok, ok-injective,
}
use office_connect.Reimbursement.Records.{Claim, Store, find_claim}
use office_connect.Reimbursement.Records.Lookup.{find_claim_id, find_claim-same}
use office_connect.Workflow.Transitions.{find_instance, execute_action}
use office_connect.Workflow.Types.{Action, Instance, Event, Db}
use office_connect.Reimbursement.Claims.Prepared.{prepare-Prepared}
use office_connect.Reimbursement.Claims.Engine.{replayed-none, executed}

same_rows :
    {s after : Store}
    → ◌≡◌ {A = Result Store} (ok s) (ok after)
    → (after.db ≡ s.db) × (after.claims ≡ s.claims) × (after.advances ≡ s.advances)
same_rows {s} h =
    subst (λ (x : Store). (x.db ≡ s.db) × (x.claims ≡ s.claims) × (x.advances ≡ s.advances))
      (ok-injective h) (refl, refl, refl)

-- Recording a return adds a row of the log of returns.
pub logged_same :
    (b : Bool) (action : Action) (s : Store) (claim : Claim) (i : Instance) (event : Event)
    (r : ClaimAction) {after : Store}
    → logged b action s claim i event r ≡ ok after
    → (after.db ≡ s.db) × (after.claims ≡ s.claims) × (after.advances ≡ s.advances)
unfolding logged log_return
logged_same true action s claim i event r h = same_rows h
logged_same false Action.return s claim i event r h =
    let (to_state, reached, h1) =
      require-eq-ok (find_state? s.db event.to_state_id) Error.attribute_error _ h in
    subst (λ (x : Store). (x.db ≡ s.db) × (x.claims ≡ s.claims) × (x.advances ≡ s.advances))
      (ok-injective h1) (refl, refl, refl)
logged_same false Action.submit s claim i event r h = same_rows h
logged_same false Action.approve s claim i event r h = same_rows h
logged_same false Action.reject s claim i event r h = same_rows h
logged_same false Action.cancel s claim i event r h = same_rows h
logged_same false Action.escalate s claim i event r h = same_rows h
logged_same false Action.resubmit s claim i event r h = same_rows h

same_value {ℓ} : {A : Type ℓ} {x y : A} → some x ≡ some y → x ≡ y
same_value p = cc

instance_id : (db : Db) (id : ℕ) {i : Instance} → find_instance db id ≡ some i → i.id ≡ id
instance_id db id h =
    let e = find?-holds (λ (x : Instance). x.id == id) db.instances h in ground arith

act-Mirrors :
    (env : Environment) (s : Store) (claim : Claim) (i : Instance) (r : ClaimAction) {out : Claim}
    {after : Store}
    → find_claim s claim.id ≡ some claim
    → claim.workflow_instance_id ≡ some i.id
    → has_event s.db i.id (key_of env r claim i) ≡ false
    → act env s claim i r ≡ ok (out, after)
    → (out.id ≡ claim.id) × (find_claim after out.id ≡ some out) × Mirrors after out
unfolding act
act-Mirrors env s claim i r listed link fresh h =
    let key = key_of env r claim i in
    let request = action_request r i key in
    let (done, engine_ok, h1) = >>=-eq-ok (from_engine (execute_action s.db request)) _ h in
    let x = executed s.db request (replayed-none s.db i.id key fresh) engine_ok in
    let moved : Store = record s { db = done.1 } in
    let (recorded, logged_ok, h2) =
      >>=-eq-ok (logged (has_event s.db i.id key) r.action moved claim i done.0 r) _ h1 in
    let (db, claims, advances) =
      logged_same (has_event s.db i.id key) r.action moved claim i done.0 r logged_ok in
    after_action-Mirrors recorded claim i.id done.0 r.now x.i
      (find_claim-same recorded s claim.id claims listed) link
      (ap (λ (y : Db). find_instance y i.id) db ∙ x.found) x.to h2

-- Every step that a call of claim_action which returned has taken.
pub record Passed (env : Environment) (s : Store) (r : ClaimAction) (out : Claim) (after : Store)
    : Type 0 where
  pub known : is_claim_action r.action ≡ true
  pub claim : Claim
  pub found : find_claim s r.claim_id ≡ some claim
  pub seen : may_see_claim s claim r.actor_user_id ≡ true
  pub id : ℕ
  pub link : claim.workflow_instance_id ≡ some id
  pub i : Instance
  pub at : find_instance s.db id ≡ some i
  pub prepared : Store
  pub ready : prepare env s claim i r r.action ≡ ok prepared
  pub row : Claim
  pub found_row : find_claim prepared r.claim_id ≡ some row
  pub current : Instance
  pub found_current : find_instance prepared.db id ≡ some current
  pub acted : act env prepared row current r ≡ ok (out, after)

pub claim_action-Passed :
    (env : Environment) (s : Store) (r : ClaimAction) {out : Claim} {after : Store}
    → claim_action env s r ≡ ok (out, after)
    → Passed env s r out after
unfolding claim_action locked_claim
claim_action-Passed env s r h =
    let (known, h1) = guard-eq-ok (is_claim_action r.action) Error.unsupported_claim_action _ h in
    let (claim, found, h2) = require-eq-ok (find_claim s r.claim_id) Error.claim_not_found _ h1 in
    let (seen, h3) =
      guard-eq-ok (may_see_claim s claim r.actor_user_id) Error.not_claim_owner _ h2 in
    let (id, link, h4) =
      require-eq-ok claim.workflow_instance_id Error.claim_not_in_workflow _ h3 in
    let (i, at, h5) = require-eq-ok (find_instance s.db id) Error.attribute_error _ h4 in
    let (prepared, ready, h6) = >>=-eq-ok (prepare env s claim i r r.action) _ h5 in
    let (row, found_row, h7) =
      require-eq-ok (find_claim prepared r.claim_id) Error.claim_not_found _ h6 in
    let (current, found_current, h8) =
      require-eq-ok (find_instance prepared.db id) Error.attribute_error _ h7 in
    record {
      known = known;
      claim = claim;
      found = found;
      seen = seen;
      id = id;
      link = link;
      i = i;
      at = at;
      prepared = prepared;
      ready = ready;
      row = row;
      found_row = found_row;
      current = current;
      found_current = found_current;
      acted = h8;
    }

-- The key is the same after the demands of the action, and so is the log that is asked for it.
same_key_of :
    (env : Environment) (r : ClaimAction) (row claim : Claim) (current i : Instance)
    → row.id ≡ claim.id
    → current.revision_no ≡ i.revision_no
    → current.current_state_id ≡ i.current_state_id
    → key_of env r row current ≡ key_of env r claim i
same_key_of env r row claim current i e f g =
    ap
      (λ (n : ℕ).
        key_or r.idempotency_key
          (env.action_key r.action n current.revision_no current.current_state_id r.actor_user_id))
      e
    ∙ ap
        (λ (n : ℕ).
          key_or r.idempotency_key
            (env.action_key r.action claim.id n current.current_state_id r.actor_user_id))
        f
    ∙ ap
        (λ (n : ℕ).
          key_or r.idempotency_key
            (env.action_key r.action claim.id i.revision_no n r.actor_user_id))
        g

same_log :
    (a b : Db) (m n : ℕ) (k l : String)
    → a.events ≡ b.events
    → m ≡ n
    → k ≡ l
    → has_event b n l ≡ false
    → has_event a m k ≡ false
same_log a b m n k l e f g h = rw (e, f, g) h

-- A call of claim_action that returns and is no replay (no event of the instance has its key) leaves the
-- claim, under its id, with the status that is the code of the state in which its instance now is. (A
-- status that is NULL or empty reads as "draft".)
pub claim_action-Mirrors :
    (env : Environment) (s : Store) (r : ClaimAction) {claim : Claim} {i : Instance} {id : ℕ}
    {out : Claim} {after : Store}
    → find_claim s r.claim_id ≡ some claim
    → claim.workflow_instance_id ≡ some id
    → find_instance s.db id ≡ some i
    → has_event s.db i.id (key_of env r claim i) ≡ false
    → claim_action env s r ≡ ok (out, after)
    → (out.id ≡ r.claim_id) × (find_claim after out.id ≡ some out) × Mirrors after out
claim_action-Mirrors env s r {claim} {i} {id} {out} {after} found link at fresh h =
    passed (claim_action-Passed env s r h)
  where
    passed :
        Passed env s r out after
        → (out.id ≡ r.claim_id) × (find_claim after out.id ≡ some out) × Mirrors after out
    passed p =
        let same_claim : p.claim ≡ claim = same_value (sym p.found ∙ found) in
        let same_id : p.id ≡ id =
          same_value (sym p.link ∙ ap (λ (x : Claim). x.workflow_instance_id) same_claim ∙ link) in
        let same_i : p.i ≡ i = same_value (sym p.at ∙ ap (find_instance s.db) same_id ∙ at) in
        let ready = prepare-Prepared env s p.claim p.i r p.id p.found p.at r.action p.ready in
        let (current_id, revision, state) = ready.same p.current p.found_current in
        let row_id = find_claim_id p.prepared r.claim_id p.found_row in
        let claim_id = find_claim_id s r.claim_id found in
        let i_id = instance_id s.db p.id p.at in
        let key =
          same_key_of env r p.row claim p.current i (row_id ∙ sym claim_id)
            (revision ∙ ap (λ (x : Instance). x.revision_no) same_i)
            (state ∙ ap (λ (x : Instance). x.current_state_id) same_i) in
        let unused =
          same_log p.prepared.db s.db p.current.id i.id (key_of env r p.row p.current)
            (key_of env r claim i) ready.events (current_id ∙ ap (λ (x : Instance). x.id) same_i)
            key fresh in
        let (out_id, stored, mirrors) =
          act-Mirrors env p.prepared p.row p.current r
            (subst (λ (x : ℕ). find_claim p.prepared x ≡ some p.row) (sym row_id) p.found_row)
            (ready.link p.row p.found_row ∙ p.link ∙ ap some (sym (current_id ∙ i_id))) unused
            p.acted in
        (out_id ∙ row_id, stored, mirrors)
