-- ===== src/Reimbursement/Errors.antt =====
-- office_connect/modules/reimbursement/services/errors.py: the factories that the claim services raise.
-- The messages and the figures in them are left out, save what a caller reads back: the claim that
-- already occupies a slot, and the code of a state.
pub use office_connect.Base.Attempts.{
  Attempt, ok, err, ◌>>=◌, ◌>>◌, guard, raise_if, require, >>=-eq-ok, guard-eq-ok, raise_if-eq-ok,
  require-eq-ok, ok-injective,
}
use office_connect.Base.{ℕ, ◌≡◌, Option, List, String}
use office_connect.Workflow.Result.{Error as EngineError}
use office_connect.Reimbursement.PerDiem.Rows.{Error as PerDiemError}

pub data Error : Type 0 where
  claim_not_found claim_already_submitted claim_not_reimbursement claimant_no_org_unit : Error
  not_claim_owner claim_not_in_workflow return_reason_required claim_cancelled : Error
  no_staff_link totals_missing : Error
  no_eligible_holder : String → Error
  unknown_return_reason : List ℕ → Error
  unsupported_claim_action : Error
  packet_incomplete : Error
  cash_advance_not_found cash_advance_settled cash_advance_amount_invalid : Error
  cash_advance_dates_invalid cash_advance_already_settled_for_liquidation : Error
  cash_advance_unliquidated : Option String → Option ℕ → Error
  liquidation_exists : Option ℕ → Error
  not_advance_holder liquidation_without_advance not_a_liquidation : Error
  settlement_required settlement_already_recorded settlement_totals_missing : Error
  settlement_wrong_state : String → Error
  refund_receipt_required refund_receipt_not_applicable refund_amount_mismatch : Error
  spawn_not_over_advance spawn_below_advance : Error
  spawn_exists : Option ℕ → Error
  unknown_external_status external_status_is_terminal external_event_wrong_state : Error
  external_event_future_date : Error
  payout_required payout_ref_required payout_date_required payout_already_recorded : Error
  payout_wrong_state payout_not_a_reimbursement : Error
  -- what the engine and the per-diem rules raise
  engine : EngineError → Error
  per_diem : PerDiemError → Error
  -- Python's own exceptions
  type_error value_error overflow_error attribute_error key_error multiple_rows : Error

abbrev pub Result {ℓ} : Type ℓ → Type ℓ
Result A = Attempt Error A

-- An exception passes through a caller unchanged.
abbrev pub from_engine {ℓ} : {A : Type ℓ} → Attempt EngineError A → Result A
from_engine (err e) = err (Error.engine e)
from_engine (ok a) = ok a

abbrev pub from_per_diem {ℓ} : {A : Type ℓ} → Attempt PerDiemError A → Result A
from_per_diem (err e) = err (Error.per_diem e)
from_per_diem (ok a) = ok a

pub from_engine-eq-ok {ℓ} :
    {A : Type ℓ} (r : Attempt EngineError A) {a : A}
    → ◌≡◌ {A = Result A} (from_engine r) (ok a)
    → ◌≡◌ {A = Attempt EngineError A} r (ok a)
from_engine-eq-ok (err e) h = cc
from_engine-eq-ok (ok a) h = cc
