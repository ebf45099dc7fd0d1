-- ===== src/Reimbursement/Liquidations.antt =====
-- office_connect/modules/reimbursement/services/liquidation.py: a draft liquidation of an advance.
-- The unique index of the table (models/claim.py) is asked when the link is flushed.
pub mod Once
use office_connect.Base.{
  ℕ, Bool, true, false, not, ◌&&◌, Option, none, some, List, String, ◌==◌, if◌then◌else◌, find?,
  any, is_id,
}
use office_connect.Reimbursement.CashAdvances.{link_claim, mark_liquidation_started}
use office_connect.Reimbursement.Claims.Lifecycle.{create_draft_claim}
use office_connect.Reimbursement.Errors.{
  Error, Result, ok, err, ◌>>=◌, ◌>>◌, guard, raise_if, require,
}
use office_connect.Reimbursement.Records.{
  ClaimKind, CashAdvance, Claim, Store, is_settled, is_liquidation, find_account, find_advance,
}
use office_connect.Reimbursement.Status.{cancelled, member, liquidation}
use text.Mathlib.Text.{◌==◌ as str_eq}

-- `status.in_(LIVE_STATUSES)`: NULL is in no set
abbrev pub is_live : Option String → Bool
is_live none = false
is_live (some status) = member status liquidation.all_states && not (str_eq status cancelled)

abbrev pub is_liquidation_of : ℕ → Claim → Bool
is_liquidation_of advance_id c = is_id c.cash_advance_id advance_id && is_liquidation c.kind

unfoldable pub liquidation_for_advance : Store → ℕ → Option Claim
liquidation_for_advance s advance_id =
    find? (λ c. is_liquidation_of advance_id c && is_live c.status) s.claims

-- `status IS DISTINCT FROM 'cancelled'`
abbrev pub is_distinct : Option String → Bool
is_distinct none = true
is_distinct (some status) = not (str_eq status cancelled)

-- a row of `uq_reimb_claims_live_liquidation_per_advance`
abbrev pub is_indexed : ℕ → Claim → Bool
is_indexed advance_id c = is_liquidation_of advance_id c && is_distinct c.status

abbrev pub holds_advance : Store → ℕ → CashAdvance → Bool
holds_advance s actor advance = elim (find_account s actor) [
  | none ↦ false
  | some a ↦ is_id a.staff_id advance.claimant_id
]

abbrev pub refuse_existing : Option Claim → Result (Unit {0})
refuse_existing none = ok tt
refuse_existing (some c) = err (Error.liquidation_exists (some c.id))

-- what the advance already knows
abbrev pub prefilled : Claim → CashAdvance → Claim
prefilled claim advance = record claim {
  dpo_no = advance.dpo_no;
  date_return = advance.date_return;
}

unfoldable pub start_liquidation : Store → ℕ → ℕ → ℕ → Result (Claim × Store)
start_liquidation s advance_id actor now = do
  advance ← require (find_advance s advance_id) Error.cash_advance_not_found
  raise_if (is_settled advance.status) Error.cash_advance_already_settled_for_liquidation
  guard (holds_advance s actor advance) Error.not_advance_holder
  refuse_existing (liquidation_for_advance s advance_id)
  drafted ← create_draft_claim s actor ClaimKind.liquidation now
  raise_if (any (is_indexed advance_id) s.claims) (Error.liquidation_exists none)
  let (claim, linked) = link_claim drafted.1 (prefilled drafted.0 advance) advance
  ok (claim, (mark_liquidation_started linked advance).1)
