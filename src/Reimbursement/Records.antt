-- ===== src/Reimbursement/Records.antt =====
-- The rows that the claim services read and write: office_connect/modules/reimbursement/models, and
-- the accounts, staff and holidays of core/models. A list holds the rows that a session returns, in
-- id order; columns that the modelled functions neither read nor write are left out. Dates are
-- ordinals, times are seconds since 1 January 1970 in UTC, and amounts are centavos, on which
-- `to_money` is the identity.
pub mod Lookup
use office_connect.Base.{
  ℕ, ◌+◌, ◌/◌, Bool, true, false, Option, none, some, List, String, ◌==◌, ◌||◌, find?, map,
  if◌then◌else◌, any,
}
use office_connect.Base.Int.{ℤ}
use office_connect.Json.{Json}
use office_connect.OrgUnits.{User}
use office_connect.Workflow.Types.{Db}
use office_connect.Reimbursement.PerDiem.Rows.{DayBreakdown}
use text.Mathlib.Text.{◌==◌ as str_eq}

-- models/enums.py
pub data ClaimKind : Type 0 where
  reimbursement liquidation : ClaimKind

pub data HolderKind : Type 0 where
  user external_fms : HolderKind

-- `open` of CashAdvanceStatus is spelled `opened`.
pub data AdvanceStatus : Type 0 where
  opened liquidation_started settled overdue : AdvanceStatus

pub data ReturnTarget : Type 0 where
  claimant previous_step : ReturnTarget

pub record CashAdvance : Type 0 where
  pub id : ℕ
  pub claimant_id : ℕ
  pub dv_no : Option String
  pub dv_date : Option ℕ
  pub amount : ℤ
  pub dpo_no : Option String
  pub date_return : Option ℕ
  pub deadline_date : Option ℕ
  pub deadline_basis : Option String
  pub status : AdvanceStatus
  pub settled_at : Option ℕ
  pub settled_by : Option ℕ
  pub settlement_mode : Option String
  pub refund_or_no : Option String
  pub refund_or_date : Option ℕ
  pub refund_amount : Option ℤ

-- a text `scope-year-number`
pub record Reference : Type 0 where
  pub scope : String
  pub year : ℕ
  pub number : ℕ

-- the `totals` of a claim, as `_totals_json` writes them; `{}` is no totals
pub record Totals : Type 0 where
  pub per_diem : ℤ
  pub transport : ℤ
  pub other : ℤ
  pub grand : ℤ
  pub advance : ℤ
  pub to_reimburse : ℤ
  pub to_refund : ℤ
  pub computed_at : ℕ
  pub days : List DayBreakdown

pub record Claim : Type 0 where
  pub id : ℕ
  pub ref_no : Option Reference
  pub kind : ClaimKind
  pub claimant_id : ℕ
  pub activity_id : Option ℕ
  pub workflow_instance_id : Option ℕ
  pub dpo_no : Option String
  pub dpo_date : Option ℕ
  pub dpo_document_id : Option ℕ
  pub purpose : Option String
  pub destination : Option String
  pub destination_region_code : Option String
  pub date_depart : Option ℕ
  pub date_return : Option ℕ
  pub is_within_50km : Bool
  pub overnight_stay : Bool
  pub fund_source : Option String
  pub is_jo_cos : Bool
  pub cash_advance_id : Option ℕ
  pub spawned_from_claim_id : Option ℕ
  pub other_total : ℤ
  pub payout_ref : Option String
  pub paid_on : Option ℕ
  pub paid_by : Option ℕ
  pub status : Option String
  pub holder_kind : Option HolderKind
  pub holder_id : Option ℕ
  pub holder_since : Option ℕ
  pub next_action : Option String
  pub liquidation_deadline : Option ℕ
  pub totals : Option Totals

pub record ItineraryLeg : Type 0 where
  pub id : ℕ
  pub claim_id : ℕ
  pub seq : ℕ
  pub leg_date : Option ℕ
  pub place : Option String
  pub destination_region_code : Option String
  pub time_depart : Option String
  pub time_arrive : Option String
  pub transport_mode : Option String
  pub fare : Option ℤ
  pub per_diem_pct : Option ℤ
  pub per_diem_amount : Option ℤ
  pub leg_total : Option ℤ
  pub lodging_provided : Bool
  pub meals_provided : Bool

pub record StatusHistory : Type 0 where
  pub claim_id : ℕ
  pub from_status : Option String
  pub to_status : String
  pub actor_id : Option ℕ
  pub note : Option String

pub record ReturnEvent : Type 0 where
  pub claim_id : ℕ
  pub step_id : Option ℕ
  pub reason_ids : List ℕ
  pub free_comment : Option String
  pub returned_to : ReturnTarget

pub record ExternalEvent : Type 0 where
  pub claim_id : ℕ
  pub status : String
  pub noted_by : Option String
  pub note : Option String
  pub event_date : Option ℕ
  pub created_by : Option ℕ

pub record ReturnReason : Type 0 where
  pub id : ℕ
  pub is_active : Bool

pub record Config : Type 0 where
  pub key : String
  pub value : Json
  pub effective_from : ℕ
  pub tenant_id : Option ℕ
  pub is_active : Bool

pub record RegionCluster : Type 0 where
  pub region_code : String
  pub cluster : String
  pub effective_from : ℕ
  pub is_active : Bool

pub record DteCluster : Type 0 where
  pub cluster : String
  pub daily_rate : ℤ
  pub effective_from : ℕ
  pub is_active : Bool

-- core/models: user.py, staff.py, holiday.py, reference_sequence.py
pub record Account : Type 0 where
  pub id : ℕ
  pub is_active : Bool
  pub staff_id : Option ℕ

pub record Staff : Type 0 where
  pub id : ℕ
  pub section_id : Option ℕ
  pub division_id : Option ℕ
  pub employment_status : String
  pub deleted : Bool

pub record Holiday : Type 0 where
  pub calendar_date : ℕ
  pub holiday_type : String
  pub is_active : Bool

pub record ReferenceSequence : Type 0 where
  pub scope : String
  pub year : ℕ
  pub last_value : ℕ

-- The module's tables beside the engine's, as one transaction sees them.
pub record Store : Type 0 where
  pub db : Db
  pub accounts : List Account
  pub staff : List Staff
  pub holidays : List Holiday
  pub sequences : List ReferenceSequence
  pub configs : List Config
  pub regions : List RegionCluster
  pub rates : List DteCluster
  pub return_reasons : List ReturnReason
  pub advances : List CashAdvance
  pub claims : List Claim
  pub legs : List ItineraryLeg
  pub histories : List StatusHistory
  pub return_events : List ReturnEvent
  pub external_events : List ExternalEvent
  pub next_advance_id : ℕ
  pub next_claim_id : ℕ
  pub next_leg_id : ℕ

abbrev pub is_settled : AdvanceStatus → Bool
is_settled AdvanceStatus.settled = true
is_settled _ = false

-- `UNLIQUIDATED_STATUSES`
abbrev pub is_unliquidated : AdvanceStatus → Bool
is_unliquidated AdvanceStatus.settled = false
is_unliquidated _ = true

abbrev pub is_liquidation : ClaimKind → Bool
is_liquidation ClaimKind.reimbursement = false
is_liquidation ClaimKind.liquidation = true

-- a flushed change of a row
unfoldable pub put_advance : CashAdvance → Store → Store
put_advance row s = record s { advances = map (λ a. if a.id == row.id then row else a) s.advances }

unfoldable pub put_claim : Claim → Store → Store
put_claim row s = record s { claims = map (λ c. if c.id == row.id then row else c) s.claims }

-- `to_manila(now).date()`: Manila is eight hours ahead, and 719163 is 1 January 1970
unfoldable pub manila_date : ℕ → ℕ
manila_date now = (now + 28800) / 86400 + 719163

abbrev non_working : String → Bool
non_working t =
    str_eq t "regular"
    || str_eq t "special_non_working"
    || str_eq t "work_suspension"
    || str_eq t "local"

abbrev pub is_non_working : Holiday → Bool
is_non_working h = non_working h.holiday_type

unfoldable pub find_account : Store → ℕ → Option Account
find_account s id = find? (λ a. a.id == id) s.accounts

unfoldable pub find_staff : Store → ℕ → Option Staff
find_staff s id = find? (λ r. r.id == id) s.staff

unfoldable pub find_claim : Store → ℕ → Option Claim
find_claim s id = find? (λ c. c.id == id) s.claims

unfoldable pub find_advance : Store → ℕ → Option CashAdvance
find_advance s id = find? (λ a. a.id == id) s.advances
