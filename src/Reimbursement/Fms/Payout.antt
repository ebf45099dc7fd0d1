-- ===== src/Reimbursement/Fms/Payout.antt =====
-- services/external.py: recording a payment, and recording it again.
use office_connect.Base.{
  ℕ, ◌≡◌, ◌≢◌, false, not, ◌&&◌, ◌||◌, Option, some, sym, ap, subst, ◌∙◌, String, is_some,
}
use office_connect.Reimbursement.Claims.{status_or_draft}
use office_connect.Reimbursement.Claims.Kept.{Passed-Facts}
use office_connect.Reimbursement.Claims.Lifecycle.{Environment, locked_claim, claim_action}
use office_connect.Reimbursement.Claims.Lockstep.{claim_action-Passed}
use office_connect.Reimbursement.Errors.{
  Error, ok, >>=-eq-ok, require-eq-ok, guard-eq-ok, raise_if-eq-ok, ok-injective,
}
use office_connect.Reimbursement.Fms.{
  paid, is_relay, is_future, Relay, record_external_event, Payment, paid_claim, paid_relay, closing,
  record_payout,
}
use office_connect.Reimbursement.Records.{
  Claim, ExternalEvent, Store, is_liquidation, put_claim, find_claim,
}
use office_connect.Reimbursement.Records.Lookup.{
  find_claim-put_claim, find_claim_id, find_claim-same,
}
use office_connect.Reimbursement.Status.{handed_to_fms}
use office_connect.Reimbursement.Texts.{stripped}
use text.Mathlib.Text.{◌==◌ as str_eq}

-- A relay adds an event and moves no claim.
relay_claims :
    (s : Store) (r : Relay) {e : ExternalEvent} {after : Store}
    → record_external_event s r ≡ ok (e, after)
    → after.claims ≡ s.claims
unfolding record_external_event locked_claim
relay_claims s r h =
    let (open_set, h1) =
      raise_if-eq-ok (str_eq r.status paid && not r.allow_terminal)
        Error.external_status_is_terminal _ h in
    let (known, h2) =
      guard-eq-ok (is_relay r.status || (str_eq r.status paid && r.allow_terminal))
        Error.unknown_external_status _ h1 in
    let (past, h3) =
      raise_if-eq-ok (is_future r.event_date r.now) Error.external_event_future_date _ h2 in
    let (claim, found, h4) = require-eq-ok (find_claim s r.claim_id) Error.claim_not_found _ h3 in
    let (at_fms, h5) =
      guard-eq-ok (str_eq (status_or_draft claim.status) handed_to_fms)
        Error.external_event_wrong_state _ h4 in
    sym (ap (λ (x : ExternalEvent × Store). x.1.claims) (ok-injective h5))

-- The refusals that a payment which returned has passed, and the claim that it leaves.
record Closed (env : Environment) (s : Store) (p : Payment) (out : Claim) (after : Store)
    : Type 0 where
  claim : Claim
  found : find_claim s p.claim_id ≡ some claim
  unpaid : is_some claim.payout_ref ≡ false
  reference : str_eq (stripped p.payout_ref) "" ≡ false
  recorded : out.payout_ref ≡ some (stripped p.payout_ref)
  stored : find_claim after p.claim_id ≡ some out

paid_found :
    (s t : Store) (p : Payment) (claim : Claim) (reference : String) (day : ℕ)
    → find_claim s p.claim_id ≡ some claim
    → t.claims ≡ (put_claim (paid_claim claim p reference day) s).claims
    → find_claim t p.claim_id ≡ some (paid_claim claim p reference day)
paid_found s t p claim reference day found rows =
    let row = paid_claim claim p reference day in
    let at = find_claim_id s p.claim_id found in
    find_claim-same t (put_claim row s) p.claim_id rows (
      subst (λ (x : ℕ). find_claim (put_claim row s) x ≡ some row) at
        (find_claim-put_claim row s
          (subst (λ (x : ℕ). find_claim s x ≡ some claim) (sym at) found)))

closes :
    (env : Environment) (s t : Store) (p : Payment) (claim : Claim) (day : ℕ) {out : Claim}
    {after : Store}
    → find_claim t p.claim_id ≡ some (paid_claim claim p (stripped p.payout_ref) day)
    → claim_action env t (closing p.claim_id p.actor_user_id p.comment p.expected_version p.now)
      ≡ ok (out, after)
    → (out.payout_ref ≡ some (stripped p.payout_ref)) × (find_claim after p.claim_id ≡ some out)
closes env s t p claim day found h =
    let r = closing p.claim_id p.actor_user_id p.comment p.expected_version p.now in
    let passed = claim_action-Passed env t r h in
    let (id, stored, facts, rows) = Passed-Facts env t r passed in
    let same = same_value (sym passed.found ∙ found) in
    (facts.payout ∙ ap (λ (x : Claim). x.payout_ref) same, stored)
  where
    same_value : {x y : Claim} → some x ≡ some y → x ≡ y
    same_value e = cc

record_payout-Closed :
    (env : Environment) (s : Store) (p : Payment) {out : Claim} {after : Store}
    → record_payout env s p ≡ ok (out, after)
    → Closed env s p out after
unfolding record_payout locked_claim
record_payout-Closed env s p h =
    let (claim, found, h1) = require-eq-ok (find_claim s p.claim_id) Error.claim_not_found _ h in
    let (kind, h2) =
      raise_if-eq-ok (is_liquidation claim.kind) Error.payout_not_a_reimbursement _ h1 in
    let (unpaid, h3) =
      raise_if-eq-ok (is_some claim.payout_ref) Error.payout_already_recorded _ h2 in
    let (at_fms, h4) =
      guard-eq-ok (str_eq (status_or_draft claim.status) handed_to_fms) Error.payout_wrong_state _
        h3 in
    let (reference, h5) =
      raise_if-eq-ok (str_eq (stripped p.payout_ref) "") Error.payout_ref_required _ h4 in
    let (day, dated, h6) = require-eq-ok p.paid_on Error.payout_date_required _ h5 in
    let (past, h7) =
      raise_if-eq-ok (is_future (some day) p.now) Error.external_event_future_date _ h6 in
    let row = paid_claim claim p (stripped p.payout_ref) day in
    let (relayed, relay_ok, h8) =
      >>=-eq-ok (record_external_event (put_claim row s) (paid_relay p (stripped p.payout_ref) day))
        _ h7 in
    let rows = relay_claims (put_claim row s) (paid_relay p (stripped p.payout_ref) day) relay_ok in
    let there_now = paid_found s relayed.1 p claim (stripped p.payout_ref) day found rows in
    let (recorded, stored) = closes env s relayed.1 p claim day there_now h8 in
    record {
      claim = claim;
      found = found;
      unpaid = unpaid;
      reference = reference;
      recorded = recorded;
      stored = stored;
    }

-- A payment is recorded once: a call of record_payout that returns leaves on the claim the stripped
-- reference, which is not empty, on a claim that had none; and no second call for the claim, whatever its
-- arguments, returns on what it leaves.
pub record_payout-once :
    (env : Environment) (s : Store) (p again : Payment) (other : Claim × Store) {claim out : Claim}
    {after : Store}
    → again.claim_id ≡ p.claim_id
    → find_claim s p.claim_id ≡ some claim
    → record_payout env s p ≡ ok (out, after)
    → (is_some claim.payout_ref ≡ false)
      × (out.payout_ref ≡ some (stripped p.payout_ref))
      × (str_eq (stripped p.payout_ref) "" ≡ false)
      × (find_claim after p.claim_id ≡ some out)
      × (record_payout env after again ≢ ok other)
record_payout-once env s p again other {claim} {out} {after} same found h =
    let c = record_payout-Closed env s p h in
    let was = same_value (sym c.found ∙ found) in
    (
      sym (ap (λ (x : Claim). is_some x.payout_ref) was) ∙ c.unpaid,
      c.recorded,
      c.reference,
      c.stored,
      λ h2.
          let d = record_payout-Closed env after again h2 in
          let now = same_value (sym d.found ∙ ap (find_claim after) same ∙ c.stored) in
          paid_already (sym (ap (λ (x : Claim). x.payout_ref) now ∙ c.recorded)) d.unpaid,
    )
  where
    same_value : {x y : Claim} → some x ≡ some y → x ≡ y
    same_value e = cc

    paid_already : {o : Option String} {t : String} → some t ≡ o → is_some o ≡ false → ⊥
    paid_already e f = cc
