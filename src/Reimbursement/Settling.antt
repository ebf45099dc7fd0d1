-- ===== src/Reimbursement/Settling.antt =====
-- office_connect/modules/reimbursement/services/settlement.py: recording how a liquidation settled, and
-- the reimbursement of what an advance did not cover. The documents, the retention clock and the
-- notifications are left out. The unique index of the table (models/claim.py) is asked when the spawn
-- is flushed.
pub mod Final
use office_connect.Base.{
  ℕ, zero, suc, ◌+◌, Bool, true, false, not, ◌&&◌, ◌||◌, Option, none, some, List, [], ◌∷◌, ◌++◌,
  String, ◌==◌, if◌then◌else◌, find?, any, is_id, is_none, is_some, truthy, length,
}
use office_connect.Base.Int.{ℤ, pos, ltb_ℤ}
use office_connect.Reimbursement.CashAdvances.{
  refund, exact, over_advance, Settling as SettlingRow, mark_settled,
}
use office_connect.Reimbursement.Claims.{status_or_draft}
use office_connect.Reimbursement.Claims.Lifecycle.{
  Environment, locked_claim, create_draft_claim, claim_action,
}
use office_connect.Reimbursement.ClaimTotals.{legs_of, compute_claim_totals}
use office_connect.Reimbursement.Errors.{
  Error, Result, ok, err, ◌>>=◌, ◌>>◌, guard, raise_if, require,
}
use office_connect.Reimbursement.Fms.{closing}
use office_connect.Reimbursement.PerDiem.Rows.{eq_ℤ}
use office_connect.Reimbursement.Records.{
  ClaimKind, CashAdvance, Claim, ItineraryLeg, Totals, Store, is_settled, is_liquidation, put_claim,
  find_account, find_claim, find_advance,
}
use office_connect.Reimbursement.Status.{handed_to_fms, cancelled, member, reimbursement}
use text.Mathlib.Text.{◌==◌ as str_eq}

unfoldable pub settlement_mode : Totals → String
settlement_mode t =
    if ltb_ℤ (pos 0) t.to_refund
    then refund
    else if ltb_ℤ (pos 0) t.to_reimburse
    then over_advance
    else exact

-- the arguments of `record_settlement`
pub record Settlement : Type 0 where
  pub claim_id : ℕ
  pub actor_user_id : ℕ
  pub or_no : Option String
  pub or_date : Option ℕ
  pub refund_amount : Option ℤ
  pub comment : Option String
  pub expected_version : Option ℕ
  pub now : ℕ

abbrev pub is_refund : String → Bool
is_refund mode = str_eq mode refund

abbrev pub check_receipt : Bool → Settlement → Result (Unit {0})
check_receipt true r = guard (truthy r.or_no && is_some r.or_date) Error.refund_receipt_required
check_receipt false r =
    raise_if (truthy r.or_no || is_some r.or_date) Error.refund_receipt_not_applicable

abbrev pub check_amount : Option ℤ → ℤ → Result (Unit {0})
check_amount none expected = ok tt
check_amount (some given) expected = guard (eq_ℤ given expected) Error.refund_amount_mismatch

-- `_validate_receipt`
unfoldable pub validate_receipt : String → ℤ → Settlement → Result (Unit {0})
validate_receipt mode to_refund r = do
  check_receipt (is_refund mode) r
  check_amount r.refund_amount (if is_refund mode then to_refund else pos 0)

-- `x if mode == ca.REFUND else None`
abbrev pub on_refund {ℓ} : {A : Type ℓ} → String → Option A → Option A
on_refund mode x = if is_refund mode then x else none

abbrev pub settling : Settlement → String → ℤ → SettlingRow
settling r mode to_refund = record {
  actor_user_id = r.actor_user_id;
  mode = mode;
  refund_amount = on_refund mode (some to_refund);
  or_no = on_refund mode r.or_no;
  or_date = on_refund mode r.or_date;
  now = r.now;
}

-- the refusals of `record_settlement`, with the advance and the totals
unfoldable pub may_settle : Store → Settlement → Result (CashAdvance × Totals)
may_settle s r = do
  claim ← locked_claim s r.claim_id
  guard (is_liquidation claim.kind) Error.not_a_liquidation
  advance_id ← require claim.cash_advance_id Error.liquidation_without_advance
  advance ← require (find_advance s advance_id) Error.cash_advance_not_found
  raise_if (is_settled advance.status) Error.settlement_already_recorded
  guard (str_eq (status_or_draft claim.status) handed_to_fms)
      (Error.settlement_wrong_state (status_or_draft claim.status))
  totals ← require claim.totals Error.settlement_totals_missing
  validate_receipt (settlement_mode totals) totals.to_refund r
  ok (advance, totals)

unfoldable pub record_settlement : Environment → Store → Settlement → Result (Claim × Store)
record_settlement env s r = do
  checked ← may_settle s r
  marked ← mark_settled s checked.0 (settling r (settlement_mode checked.1) checked.1.to_refund)
  claim_action env marked.1 (closing r.claim_id r.actor_user_id r.comment r.expected_version r.now)

-- `LIVE_SPAWN_STATUSES`
abbrev pub is_live_spawn : Option String → Bool
is_live_spawn none = false
is_live_spawn (some status) =
    member status reimbursement.all_states && not (str_eq status cancelled)

unfoldable pub spawn_for_liquidation : Store → ℕ → Option Claim
spawn_for_liquidation s id =
    find? (λ c. is_id c.spawned_from_claim_id id && is_live_spawn c.status) s.claims

abbrev pub is_distinct : Option String → Bool
is_distinct none = true
is_distinct (some status) = not (str_eq status cancelled)

-- a row of `uq_reimb_claims_spawn_per_liquidation`
abbrev pub is_indexed_spawn : ℕ → Claim → Bool
is_indexed_spawn id c = is_id c.spawned_from_claim_id id && is_distinct c.status

-- `_TRIP_FIELDS`, the advance and the source
abbrev pub spawned : Claim → Claim → CashAdvance → Claim
spawned claim source advance = record claim {
  activity_id = source.activity_id;
  dpo_no = source.dpo_no;
  dpo_date = source.dpo_date;
  dpo_document_id = source.dpo_document_id;
  purpose = source.purpose;
  destination = source.destination;
  destination_region_code = source.destination_region_code;
  date_depart = source.date_depart;
  date_return = source.date_return;
  is_within_50km = source.is_within_50km;
  overnight_stay = source.overnight_stay;
  fund_source = source.fund_source;
  other_total = source.other_total;
  cash_advance_id = some advance.id;
  spawned_from_claim_id = some source.id;
}

-- the legs with their `_LEG_INPUTS`, numbered from `seq` on
unfoldable pub copied_legs : ℕ → ℕ → ℕ → List ItineraryLeg → List ItineraryLeg
copied_legs claim_id id seq [] = []
copied_legs claim_id id seq (leg ∷ legs) =
    record leg {
      id = id;
      claim_id = claim_id;
      seq = seq;
      per_diem_pct = none;
      per_diem_amount = none;
      leg_total = none;
    }
    ∷ copied_legs claim_id (id + 1) (seq + 1) legs

abbrev pub with_legs : Store → ℕ → List ItineraryLeg → Store
with_legs s claim_id legs = record s {
  legs = s.legs ++ copied_legs claim_id s.next_leg_id 1 legs;
  next_leg_id = s.next_leg_id + length legs;
}

abbrev pub is_holder : Store → ℕ → Claim → Bool
is_holder s actor source = elim (find_account s actor) [
  | none ↦ false
  | some a ↦ is_id a.staff_id source.claimant_id
]

abbrev pub advance_of : Store → Option ℕ → Option CashAdvance
advance_of s none = none
advance_of s (some id) = find_advance s id

abbrev pub is_over_advance : Option String → Bool
is_over_advance none = false
is_over_advance (some mode) = str_eq mode over_advance

abbrev pub refuse_existing : Option Claim → Result (Unit {0})
refuse_existing none = ok tt
refuse_existing (some c) = err (Error.spawn_exists (some c.id))

unfoldable pub spawn_reimbursement : Store → ℕ → ℕ → ℕ → Result (Claim × Store)
unfolding copied_legs
spawn_reimbursement s liquidation_id actor now = do
  source ← locked_claim s liquidation_id
  guard (is_liquidation source.kind) Error.not_a_liquidation
  guard (is_holder s actor source) Error.not_advance_holder
  advance ← require (advance_of s source.cash_advance_id) Error.liquidation_without_advance
  guard (is_over_advance advance.settlement_mode) Error.spawn_not_over_advance
  refuse_existing (spawn_for_liquidation s source.id)
  drafted ← create_draft_claim s actor ClaimKind.reimbursement now
  raise_if (any (is_indexed_spawn source.id) s.claims) (Error.spawn_exists none)
  let claim = spawned drafted.0 source advance
  computed ←
      compute_claim_totals
        (with_legs (put_claim claim drafted.1) claim.id (legs_of drafted.1 source.id)) claim.id none
  out ← locked_claim computed.1 claim.id
  ok (out, computed.1)
