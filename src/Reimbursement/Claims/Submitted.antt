-- ===== src/Reimbursement/Claims/Submitted.antt =====
-- services/lifecycle.py: submit_claim beside the engine that it drives.
use office_connect.Base.{
  ℕ, ◌≡◌, ◌≢◌, true, false, ◌&&◌, Option, none, some, refl, sym, ap, subst, ◌∙◌, inl, inr, List, [],
  ◌∷◌, ◌++◌, String, ◌==◌, In, here, there, any, is_some, arith, Option-cases,
}
use office_connect.Reimbursement.Claims.{is_claim_owner}
use office_connect.Reimbursement.Claims.Engine.{replayed-none, executed}
use office_connect.Reimbursement.Claims.Lifecycle.{
  Environment, locked_claim, is_cancelled, Submission, below_advance, grand_of, numbered,
  may_submit, prepare_submit, enter_workflow, submit_request, key_or, after_action, submit_claim,
  definition_code, feature_flag_key, has_event,
}
use office_connect.Reimbursement.Claims.Mirror.{Mirrors, after_action-Mirrors}
use office_connect.Reimbursement.ClaimTotals.{compute_claim_totals}
use office_connect.Reimbursement.ClaimTotals.Balanced.{compute-Computed}
use office_connect.Reimbursement.Errors.{
  Error, ok, from_engine, from_engine-eq-ok, >>=-eq-ok, require-eq-ok, guard-eq-ok, raise_if-eq-ok,
  ok-injective,
}
use office_connect.Reimbursement.Records.{Claim, Store, put_claim, find_claim}
use office_connect.Reimbursement.Records.Lookup.{
  find_claim-put_claim, find_claim_id, find_claim-same, put_claim_db,
}
use office_connect.Workflow.Replay.Reachable.{start-Started}
use office_connect.Workflow.Service.{Start, start_instance}
use office_connect.Workflow.Transitions.{same_key, execute_action}
use office_connect.Workflow.Types.{Instance, Event, Db}

-- The claim that goes into the workflow: found under its id, with nothing new in the engine.
record Priced (s : Store) (id : ℕ) (claim : Claim) (after : Store) : Type 0 where
  listed : find_claim after claim.id ≡ some claim
  same_id : claim.id ≡ id
  db : after.db ≡ s.db

prepare-Priced :
    (env : Environment) (s : Store) (id actor now : ℕ) {claim : Claim} {after : Store}
    → prepare_submit env s id actor now ≡ ok (claim, after)
    → Priced s id claim after
unfolding prepare_submit locked_claim
prepare-Priced env s id actor now h =
    let (computed, totals, h1) = >>=-eq-ok (compute_claim_totals s id none) _ h in
    let (claim, found, h2) = require-eq-ok (find_claim computed.1 id) Error.claim_not_found _ h1 in
    let (owed, h3) = raise_if-eq-ok (below_advance claim) Error.spawn_below_advance _ h2 in
    let (u, complete, h4) =
      >>=-eq-ok (env.assert_packet_complete computed.1 claim actor now) _ h3 in
    let at = find_claim_id computed.1 id found in
    subst (λ (x : Claim × Store). Priced s id x.0 x.1) (ok-injective h4)
      (record {
        listed = subst (λ (x : ℕ). find_claim computed.1 x ≡ some claim) (sym at) found;
        same_id = at;
        db = (compute-Computed s id none totals).db;
      })

-- The reference number leaves the id, the claims and the engine alone.
numbered_same :
    (env : Environment) (s : Store) (claim : Claim) (now : ℕ)
    → ((numbered env s claim now).0.id ≡ claim.id)
      × ((numbered env s claim now).1.claims ≡ s.claims)
      × ((numbered env s claim now).1.db ≡ s.db)
unfolding numbered
numbered_same env s claim now = elim (Option-cases claim.ref_no) [
  | inl e ↦ rw e (refl, refl, refl)
  | inr (ref, e) ↦ rw e (refl, refl, refl)
]

-- The claim beside its new instance.
record Entered (s : Store) (claim : Claim) (i : Instance) (linked : Claim) (after : Store)
    : Type 0 where
  same_id : linked.id ≡ claim.id
  listed : find_claim after linked.id ≡ some linked
  link : linked.workflow_instance_id ≡ some i.id
  start : Start
  started : start_instance s.db start ≡ ok (i, after.db)

enter-Entered :
    (env : Environment) (s : Store) (claim : Claim) (r : Submission) (unit : ℕ) {i : Instance}
    {linked : Claim} {after : Store}
    → find_claim s claim.id ≡ some claim
    → enter_workflow env s claim r unit ≡ ok (i, (linked, after))
    → Entered s claim i linked after
unfolding enter_workflow
enter-Entered env s claim r unit listed h =
    let (grand, total, h1) = >>=-eq-ok (grand_of claim) _ h in
    let start : Start = record {
      definition_code = definition_code claim.kind;
      actor_user_id = some r.actor_user_id;
      org_unit_id = some unit;
      amount = some grand;
      feature_flag_key = some feature_flag_key;
      now = some r.now;
    } in
    let (started, engine_ok, h2) = >>=-eq-ok (from_engine (start_instance s.db start)) _ h1 in
    subst (λ (x : Instance × (Claim × Store)). Entered s claim x.0 x.1.0 x.1.1) (ok-injective h2)
      (built start started.0 started.1 (from_engine-eq-ok (start_instance s.db start) engine_ok))
  where
    built :
        (start : Start) (i : Instance) (db : Db)
        → start_instance s.db start ≡ ok (i, db)
        → Entered s claim i
            (record (numbered env (record s { db = db }) claim r.now).0 {
              workflow_instance_id = some i.id;
            })
            (put_claim
              (record (numbered env (record s { db = db }) claim r.now).0 {
                workflow_instance_id = some i.id;
              })
              (numbered env (record s { db = db }) claim r.now).1)
    built start i db e =
        let inserted : Store = record s { db = db } in
        let (id, claims, same) = numbered_same env inserted claim r.now in
        let store = (numbered env inserted claim r.now).1 in
        let linked : Claim = record (numbered env inserted claim r.now).0 {
          workflow_instance_id = some i.id;
        } in
        record {
          same_id = id;
          listed = find_claim-put_claim linked store (
              subst (λ (x : ℕ). find_claim store x ≡ some claim) (sym id)
                (find_claim-same store s claim.id claims listed));
          link = refl;
          start = start;
          started = e ∙ ap (λ (x : Db). ok (i, x)) (sym (put_claim_db linked store ∙ same));
        }

-- No event of the instance has a key.
no_key :
    (events : List Event) (id : ℕ) (key : String)
    → ((e : Event) → In e events → e.instance_id ≢ id)
    → any (λ e. e.instance_id == id && same_key e.idempotency_key (some key)) events ≡ false
no_key [] id key h = refl
no_key (e ∷ events) id key h =
    let first = h e (here refl) in
    let rest = no_key events id key (λ x m. h x (there m)) in ground arith

keyless_last :
    (events : List Event) (e : Event) (id : ℕ) (key : String)
    → e.idempotency_key ≡ none
    → any (λ x. x.instance_id == id && same_key x.idempotency_key (some key)) events ≡ false
    → any (λ x. x.instance_id == id && same_key x.idempotency_key (some key)) (events ++ e ∷ [])
      ≡ false
keyless_last [] e id key none_there h = rw none_there (ground arith)
keyless_last (x ∷ events) e id key none_there h =
    ground (arith, keyless_last events e id key none_there)

started_unused :
    (db : Db) (start : Start) (i : Instance) (out : Db) (key : String)
    → ((e : Event) → In e db.events → e.instance_id ≢ db.next_instance_id)
    → start_instance db start ≡ ok (i, out)
    → has_event out i.id key ≡ false
started_unused db start i out key fresh h =
    let s = start-Started db start h in
    let old = no_key db.events i.id key (λ e m same. fresh e m (same ∙ s.id)) in
    subst
      (λ (x : List Event).
        any (λ e. e.instance_id == i.id && same_key e.idempotency_key (some key)) x ≡ false)
      (sym s.events) (keyless_last db.events s.event i.id key s.keyless old)

-- The first action of the new instance.
first_action :
    (env : Environment) (s prepared entered : Store) (r : Submission) (base linked : Claim)
    (i : Instance) (event : Event) (db : Db) {out : Claim} {after : Store}
    → ((e : Event) → In e s.db.events → e.instance_id ≢ s.db.next_instance_id)
    → prepared.db ≡ s.db
    → Entered prepared base i linked entered
    → from_engine (execute_action entered.db (submit_request env r i)) ≡ ok (event, db)
    → after_action (record entered { db = db }) linked i.id event r.now ≡ ok (out, after)
    → (out.id ≡ linked.id) × (find_claim after out.id ≡ some out) × Mirrors after out
first_action env s prepared entered r base linked i event db fresh same e done h =
    let request = submit_request env r i in
    let key = key_or r.idempotency_key (env.submit_key r.claim_id i.revision_no) in
    let fresh' : (x : Event)
        → In x prepared.db.events
        → x.instance_id ≢ prepared.db.next_instance_id =
      subst (λ (y : Db). (x : Event) → In x y.events → x.instance_id ≢ y.next_instance_id)
        (sym same) fresh in
    let unused = started_unused prepared.db e.start i entered.db key fresh' e.started in
    let x = executed entered.db request (replayed-none entered.db i.id key unused) done in
    after_action-Mirrors (record entered { db = db }) linked i.id event r.now x.i
      (find_claim-same (record entered { db = db }) entered linked.id refl e.listed) e.link x.found
      x.to h

-- Every step that a call of submit_claim which returned has taken.
pub record Filed (env : Environment) (s : Store) (r : Submission) (out : Claim) (after : Store)
    : Type 0 where
  pub claim : Claim
  pub found : find_claim s r.claim_id ≡ some claim
  pub unit : ℕ
  pub allowed : may_submit s claim r.actor_user_id ≡ ok unit
  pub same_id : out.id ≡ r.claim_id
  pub stored : find_claim after out.id ≡ some out
  pub mirrors : Mirrors after out

pub submit_claim-Filed :
    (env : Environment) (s : Store) (r : Submission) {out : Claim} {after : Store}
    → ((e : Event) → In e s.db.events → e.instance_id ≢ s.db.next_instance_id)
    → submit_claim env s r ≡ ok (out, after)
    → Filed env s r out after
unfolding submit_claim locked_claim
submit_claim-Filed env s r {out} {after} fresh h =
    let (claim, found, h1) = require-eq-ok (find_claim s r.claim_id) Error.claim_not_found _ h in
    let (unit, allowed, h2) = >>=-eq-ok (may_submit s claim r.actor_user_id) _ h1 in
    let (prepared, priced_ok, h3) =
      >>=-eq-ok (prepare_submit env s claim.id r.actor_user_id r.now) _ h2 in
    let (entered, entered_ok, h4) =
      >>=-eq-ok (enter_workflow env prepared.1 prepared.0 r unit) _ h3 in
    let request = submit_request env r entered.0 in
    let (done, done_ok, h5) =
      >>=-eq-ok (from_engine (execute_action entered.1.1.db request)) _ h4 in
    let p = prepare-Priced env s claim.id r.actor_user_id r.now priced_ok in
    let e = enter-Entered env prepared.1 prepared.0 r unit p.listed entered_ok in
    let (same_id, stored, mirrors) =
      first_action env s prepared.1 entered.1.1 r prepared.0 entered.1.0 entered.0 done.0 done.1
        fresh p.db e done_ok h5 in
    record {
      claim = claim;
      found = found;
      unit = unit;
      allowed = allowed;
      same_id = same_id ∙ e.same_id ∙ p.same_id ∙ find_claim_id s r.claim_id found;
      stored = stored;
      mirrors = mirrors;
    }

-- A submission that returns was made by the owner of the claim, which was neither in the workflow nor
-- cancelled, and leaves it, under its id, linked to an instance and with the status that is the code of the
-- state in which this instance now is. (The next id of an instance is one that no event has.)
pub submit_claim-Mirrors :
    (env : Environment) (s : Store) (r : Submission) {claim out : Claim} {after : Store}
    → ((e : Event) → In e s.db.events → e.instance_id ≢ s.db.next_instance_id)
    → find_claim s r.claim_id ≡ some claim
    → submit_claim env s r ≡ ok (out, after)
    → (is_claim_owner s claim r.actor_user_id ≡ true)
      × (claim.workflow_instance_id ≡ none)
      × (is_cancelled claim ≡ false)
      × (out.id ≡ r.claim_id)
      × (find_claim after out.id ≡ some out)
      × Mirrors after out
unfolding may_submit
submit_claim-Mirrors env s r {claim} fresh found h =
    let f = submit_claim-Filed env s r fresh h in
    let same : f.claim ≡ claim = same_value (sym f.found ∙ found) in
    let allowed =
      subst (λ (x : Claim). may_submit s x r.actor_user_id ≡ ok f.unit) same f.allowed in
    let (owner, h1) =
      guard-eq-ok (is_claim_owner s claim r.actor_user_id) Error.not_claim_owner _ allowed in
    let (unsubmitted, h2) =
      raise_if-eq-ok (is_some claim.workflow_instance_id) Error.claim_already_submitted _ h1 in
    let (live, h3) = raise_if-eq-ok (is_cancelled claim) Error.claim_cancelled _ h2 in
    (owner, unlinked claim.workflow_instance_id unsubmitted, live, f.same_id, f.stored, f.mirrors)
  where
    same_value : {x y : Claim} → some x ≡ some y → x ≡ y
    same_value p = cc

    unlinked : (o : Option ℕ) → is_some o ≡ false → o ≡ none
    unlinked none e = refl
    unlinked (some n) e = cc
