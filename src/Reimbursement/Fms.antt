-- ===== src/Reimbursement/Fms.antt =====
-- office_connect/modules/reimbursement/services/external.py: what FMS said about a claim, and the
-- payment that closes it. The notifications and the retention clock are left out.
pub mod Payout
use office_connect.Base.{
  ℕ, Bool, true, false, not, ◌&&◌, ◌||◌, Option, none, some, List, [], ◌∷◌, ◌++◌, String, ltb, ◌==◌,
  if◌then◌else◌, is_some,
}
use office_connect.Reimbursement.Claims.{status_or_draft}
use office_connect.Reimbursement.Claims.Lifecycle.{
  Environment, locked_claim, ClaimAction, claim_action,
}
use office_connect.Reimbursement.Errors.{
  Error, Result, ok, err, ◌>>=◌, ◌>>◌, guard, raise_if, require,
}
use office_connect.Reimbursement.Records.{
  Claim, ExternalEvent, Store, is_liquidation, put_claim, manila_date,
}
use office_connect.Reimbursement.Status.{handed_to_fms}
use office_connect.Reimbursement.Texts.{append, stripped, non_empty}
use office_connect.Workflow.Types.{Action}
use text.Mathlib.Text.{◌==◌ as str_eq}

abbrev pub paid : String
paid = "paid"

-- `RELAY_STATUSES`
abbrev pub is_relay : String → Bool
is_relay status =
    str_eq status "with_budget"
    || str_eq status "with_accounting"
    || str_eq status "payment_processing"

-- `_assert_not_future`
abbrev pub is_future : Option ℕ → ℕ → Bool
is_future none now = false
is_future (some day) now = ltb (manila_date now) day

-- the arguments of `record_external_event`
pub record Relay : Type 0 where
  pub claim_id : ℕ
  pub status : String
  pub actor_user_id : ℕ
  pub noted_by : Option String
  pub note : Option String
  pub event_date : Option ℕ
  pub now : ℕ
  pub allow_terminal : Bool

abbrev pub external_event : Relay → ExternalEvent
external_event r = record {
  claim_id = r.claim_id;
  status = r.status;
  noted_by = non_empty (stripped r.noted_by);
  note = non_empty (stripped r.note);
  event_date = r.event_date;
  created_by = some r.actor_user_id;
}

abbrev pub append_event : Store → ExternalEvent → Store
append_event s e = record s { external_events = s.external_events ++ e ∷ [] }

unfoldable pub record_external_event : Store → Relay → Result (ExternalEvent × Store)
record_external_event s r = do
  raise_if (str_eq r.status paid && not r.allow_terminal) Error.external_status_is_terminal
  guard (is_relay r.status || (str_eq r.status paid && r.allow_terminal))
      Error.unknown_external_status
  raise_if (is_future r.event_date r.now) Error.external_event_future_date
  claim ← locked_claim s r.claim_id
  guard (str_eq (status_or_draft claim.status) handed_to_fms) Error.external_event_wrong_state
  ok (external_event r, append_event s (external_event r))

-- the arguments of `record_payout`
pub record Payment : Type 0 where
  pub claim_id : ℕ
  pub actor_user_id : ℕ
  pub payout_ref : Option String
  pub paid_on : Option ℕ
  pub comment : Option String
  pub expected_version : Option ℕ
  pub now : ℕ

-- `note_for_payout`
abbrev pub note_for_payout : String → String
note_for_payout reference = append "Payment reference " (append reference ".")

abbrev pub paid_claim : Claim → Payment → String → ℕ → Claim
paid_claim claim p reference day = record claim {
  payout_ref = some reference;
  paid_on = some day;
  paid_by = some p.actor_user_id;
}

abbrev pub paid_relay : Payment → String → ℕ → Relay
paid_relay p reference day = record {
  claim_id = p.claim_id;
  status = paid;
  actor_user_id = p.actor_user_id;
  noted_by = none;
  note = some (note_for_payout reference);
  event_date = some day;
  now = p.now;
  allow_terminal = true;
}

abbrev pub closing : ℕ → ℕ → Option String → Option ℕ → ℕ → ClaimAction
closing claim_id actor comment expected_version now = record {
  claim_id = claim_id;
  action = Action.approve;
  actor_user_id = actor;
  comment = comment;
  reason_ids = [];
  idempotency_key = none;
  expected_version = expected_version;
  now = now;
}

unfoldable pub record_payout : Environment → Store → Payment → Result (Claim × Store)
record_payout env s p = do
  claim ← locked_claim s p.claim_id
  raise_if (is_liquidation claim.kind) Error.payout_not_a_reimbursement
  raise_if (is_some claim.payout_ref) Error.payout_already_recorded
  guard (str_eq (status_or_draft claim.status) handed_to_fms) Error.payout_wrong_state
  let reference = stripped p.payout_ref
  raise_if (str_eq reference "") Error.payout_ref_required
  day ← require p.paid_on Error.payout_date_required
  raise_if (is_future (some day) p.now) Error.external_event_future_date
  relayed ←
      record_external_event (put_claim (paid_claim claim p reference day) s)
        (paid_relay p reference day)
  claim_action env relayed.1 (closing p.claim_id p.actor_user_id p.comment p.expected_version p.now)
