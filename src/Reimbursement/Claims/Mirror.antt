-- ===== src/Reimbursement/Claims/Mirror.antt =====
-- services/lifecycle.py: what the read-model of a claim is after an action of the engine.
use office_connect.Base.{
  ℕ, ◌≡◌, ◌&&◌, Option, none, some, refl, sym, ap, subst, ◌∙◌, inl, inr, List, String, ◌==◌, any,
  find?, Bool-cases,
}
use office_connect.Reimbursement.Claims.{
  status_or_draft, resolve_holder, synced, find_state?, find_instance?, mirror,
  sync_claim_from_event, is_fresh, stamped, sla_due, has_sla, stamp_sla,
}
use office_connect.Reimbursement.Claims.Lifecycle.{after_action}
use office_connect.Reimbursement.Errors.{Error, ok, >>=-eq-ok, require-eq-ok, ok-injective}
use office_connect.Reimbursement.Records.Lookup.{
  find_claim-put_claim, put_claim_db, put_claim_advances, find_claim-same,
}
use office_connect.Reimbursement.Records.{Claim, StatusHistory, Store, put_claim, find_claim}
use office_connect.Workflow.Transitions.{find_instance, find_state, moved_instance}
use office_connect.Workflow.Transitions.Inversion.{Accepted}
use office_connect.Workflow.Transitions.Versions.{accepted_instance}
use office_connect.Workflow.Decisions.{Request}
use office_connect.Workflow.Types.{State, Instance, Event, Db}
use text.Mathlib.Text.{◌==◌ as str_eq}
use text.Mathlib.TextEquality.{eq_iff}

-- The status of the claim reads as the code of its instance's current state.
pub record Mirrors (s : Store) (c : Claim) : Type 0 where
  pub i : Instance
  pub linked : find_instance? s.db c.workflow_instance_id ≡ some i
  pub state : State
  pub current : find_state s.db i.current_state_id ≡ some state
  pub agrees : status_or_draft c.status ≡ status_or_draft (some state.code)

status_or_draft_idem :
    (code : String) (status : Option String)
    → code ≡ status_or_draft status
    → status_or_draft (some code) ≡ status_or_draft status
status_or_draft_idem code none h = rw h refl
status_or_draft_idem code (some t) h = elim (Bool-cases (str_eq t "")) [
  | inl e ↦ let h' : code ≡ "draft" = rw e at h in rw (h', e) refl
  | inr e ↦ let h' : code ≡ t = rw e at h in rw h' refl
]

-- The columns of a claim that no action writes.
pub record Facts (claim out : Claim) : Type 0 where
  pub kind : out.kind ≡ claim.kind
  pub advance : out.cash_advance_id ≡ claim.cash_advance_id
  pub payout : out.payout_ref ≡ claim.payout_ref

-- What `_sync_claim_from_event` leaves.
pub record Synced (s : Store) (claim : Claim) (event : Event) (out : Claim) (after : Store)
    : Type 0 where
  pub to_state : State
  pub reached : find_state? s.db event.to_state_id ≡ some to_state
  pub same_db : after.db ≡ s.db
  pub same_id : out.id ≡ claim.id
  pub same_link : out.workflow_instance_id ≡ claim.workflow_instance_id
  pub same_facts : Facts claim out
  pub same_advances : after.advances ≡ s.advances
  pub stored : find_claim after out.id ≡ some out
  pub agrees : status_or_draft out.status ≡ status_or_draft (some to_state.code)

-- The claim that was written, with a history row beside it.
written :
    (s : Store) (claim : Claim) (event : Event) (to_state : State) (out : Claim)
    (rows : List StatusHistory)
    → find_state? s.db event.to_state_id ≡ some to_state
    → find_claim s claim.id ≡ some claim
    → out.id ≡ claim.id
    → out.workflow_instance_id ≡ claim.workflow_instance_id
    → Facts claim out
    → out.status ≡ some to_state.code
    → Synced s claim event out (record (put_claim out s) { histories = rows })
written s claim event to_state out rows reached listed id link facts status = record {
  to_state = to_state;
  reached = reached;
  same_db = put_claim_db out s;
  same_id = id;
  same_link = link;
  same_facts = facts;
  same_advances = put_claim_advances out s;
  stored =
      find_claim-same (record (put_claim out s) { histories = rows }) (put_claim out s) out.id refl
        (find_claim-put_claim out s
          (subst (λ (x : ℕ). find_claim s x ≡ some claim) (sym id) listed));
  agrees = ap status_or_draft status;
}

sync-Synced :
    (s : Store) (claim : Claim) (event : Event) (now : ℕ) {out : Claim} {after : Store}
    → find_claim s claim.id ≡ some claim
    → sync_claim_from_event s claim event now ≡ ok (out, after)
    → Synced s claim event out after
unfolding sync_claim_from_event mirror
sync-Synced s claim event now {out} {after} listed h =
    let (to_state, reached, h1) =
      require-eq-ok (find_state? s.db event.to_state_id) Error.attribute_error _ h in
    elim (Bool-cases (str_eq to_state.code (status_or_draft claim.status))) [
      | inl same ↦
          let e = ok-injective (rw same at h1) in
          let agreed =
            status_or_draft_idem to_state.code claim.status
              ((eq_iff to_state.code (status_or_draft claim.status)).0 same) in
          subst (λ (x : Claim × Store). Synced s claim event x.0 x.1) e
            (record {
              to_state = to_state;
              reached = reached;
              same_db = refl;
              same_id = refl;
              same_link = refl;
              same_facts = record { kind = refl; advance = refl; payout = refl };
              same_advances = refl;
              stored = listed;
              agrees = sym agreed;
            })
      | inr other ↦
          let h2 = rw other at h1 in
          let (i, linked, h3) =
            require-eq-ok (find_instance? s.db claim.workflow_instance_id) Error.attribute_error _
              h2 in
          let (held, resolved, h4) = >>=-eq-ok (resolve_holder s to_state claim i) _ h3 in
          subst (λ (x : Claim × Store). Synced s claim event x.0 x.1) (ok-injective h4)
            (written s claim event to_state (synced claim to_state held now) _ reached listed refl
              refl (record { kind = refl; advance = refl; payout = refl }) refl)
    ]

-- Stamping a deadline touches the step rows only.
pub record Stamped (s after : Store) : Type 0 where
  pub claims : after.claims ≡ s.claims
  pub advances : after.advances ≡ s.advances
  pub instances : after.db.instances ≡ s.db.instances
  pub states : after.db.states ≡ s.db.states

stamp-Stamped :
    (s : Store) (claim : Claim) (i : Instance) (event : Event) (now : ℕ) {after : Store}
    → stamp_sla s claim i event now ≡ ok after
    → Stamped s after
unfolding stamp_sla
stamp-Stamped s claim i event now {after} h =
    let (state, reached, h1) =
      require-eq-ok (find_state? s.db event.to_state_id) Error.attribute_error _ h in
    elim (Bool-cases (has_sla claim state && any (is_fresh i state) s.db.steps)) [
      | inl due ↦
          let (at, timed, h2) = >>=-eq-ok (sla_due s now) _ (rw due at h1) in
          subst (λ (x : Store). Stamped s x) (ok-injective h2)
            (record { claims = refl; advances = refl; instances = refl; states = refl })
      | inr idle ↦
          subst (λ (x : Store). Stamped s x) (ok-injective (rw idle at h1))
            (record { claims = refl; advances = refl; instances = refl; states = refl })
    ]

-- After an event that led the instance to its current state, the claim mirrors the instance.
pub after_action-Mirrors :
    (s : Store) (claim : Claim) (id : ℕ) (event : Event) (now : ℕ) (i : Instance) {out : Claim}
    {after : Store}
    → find_claim s claim.id ≡ some claim
    → claim.workflow_instance_id ≡ some id
    → find_instance s.db id ≡ some i
    → event.to_state_id ≡ some i.current_state_id
    → after_action s claim id event now ≡ ok (out, after)
    → (out.id ≡ claim.id) × (find_claim after out.id ≡ some out) × Mirrors after out
unfolding after_action
after_action-Mirrors s claim id event now i {out} {after} listed link found to h =
    let (synced, synced_ok, h1) = >>=-eq-ok (sync_claim_from_event s claim event now) _ h in
    let (j, found_j, h2) =
      require-eq-ok (find_instance synced.1.db id) Error.attribute_error _ h1 in
    let (stamped, stamped_ok, h3) = >>=-eq-ok (stamp_sla synced.1 synced.0 j event now) _ h2 in
    let sync = sync-Synced s claim event now listed synced_ok in
    let stamp = stamp-Stamped synced.1 synced.0 j event now stamped_ok in
    let e = ok-injective h3 in
    let state : find_state s.db i.current_state_id ≡ some sync.to_state =
      subst (λ (x : Option ℕ). find_state? s.db x ≡ some sync.to_state) to sync.reached in
    let linked : find_instance? s.db synced.0.workflow_instance_id ≡ some i =
      subst (λ (x : Option ℕ). find_instance? s.db x ≡ some i) (sym (sync.same_link ∙ link))
        found in
    let instances : stamped.db.instances ≡ s.db.instances =
      stamp.instances ∙ ap (λ (x : Db). x.instances) sync.same_db in
    let states : stamped.db.states ≡ s.db.states =
      stamp.states ∙ ap (λ (x : Db). x.states) sync.same_db in
    subst
      (λ (x : Claim × Store).
        (x.0.id ≡ claim.id) × (find_claim x.1 x.0.id ≡ some x.0) × Mirrors x.1 x.0)
      e
      (
        sync.same_id,
        find_claim-same stamped synced.1 synced.0.id stamp.claims sync.stored,
        record {
          i = i;
          linked = moved_link stamped.db s.db instances synced.0.workflow_instance_id ∙ linked;
          state = sync.to_state;
          current = ap (find? (λ (x : State). x.id == i.current_state_id)) states ∙ state;
          agrees = sync.agrees;
        },
      )
  where
    moved_link :
        (a b : Db)
        → a.instances ≡ b.instances
        → (o : Option ℕ) → find_instance? a o ≡ find_instance? b o
    moved_link a b e none = refl
    moved_link a b e (some n) = ap (find? (λ (x : Instance). x.id == n)) e

-- Whatever event it mirrors, the claim keeps the columns that no action writes, and the advances stay.
pub after_action-Facts :
    (s : Store) (claim : Claim) (id : ℕ) (event : Event) (now : ℕ) {out : Claim} {after : Store}
    → find_claim s claim.id ≡ some claim
    → after_action s claim id event now ≡ ok (out, after)
    → (out.id ≡ claim.id)
      × (find_claim after out.id ≡ some out)
      × Facts claim out
      × (after.advances ≡ s.advances)
unfolding after_action
after_action-Facts s claim id event now {out} {after} listed h =
    let (synced, synced_ok, h1) = >>=-eq-ok (sync_claim_from_event s claim event now) _ h in
    let (j, found_j, h2) =
      require-eq-ok (find_instance synced.1.db id) Error.attribute_error _ h1 in
    let (stamped, stamped_ok, h3) = >>=-eq-ok (stamp_sla synced.1 synced.0 j event now) _ h2 in
    let sync = sync-Synced s claim event now listed synced_ok in
    let stamp = stamp-Stamped synced.1 synced.0 j event now stamped_ok in
    subst
      (λ (x : Claim × Store).
        (x.0.id ≡ claim.id)
        × (find_claim x.1 x.0.id ≡ some x.0)
        × Facts claim x.0
        × (x.1.advances ≡ s.advances))
      (ok-injective h3)
      (
        sync.same_id,
        find_claim-same stamped synced.1 synced.0.id stamp.claims sync.stored,
        sync.same_facts,
        stamp.advances ∙ sync.same_advances,
      )

-- A new action that the engine accepts: its event leads to the state that the instance is in.
pub record Executed (r : Request) (event : Event) (out : Db) : Type 0 where
  pub i : Instance
  pub found : find_instance out r.instance_id ≡ some i
  pub to : event.to_state_id ≡ some i.current_state_id

pub Accepted-Executed :
    (db : Db) (r : Request) {e : Event} {out : Db} → Accepted db r e out → Executed r e out
Accepted-Executed db r {e} {out} a = record {
  i = moved_instance a.i a.d;
  found = accepted_instance db out r e a;
  to = ap (λ (x : Event). x.to_state_id) a.advanced.event;
}
