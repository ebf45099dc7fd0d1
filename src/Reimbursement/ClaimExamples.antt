-- ===== src/Reimbursement/ClaimExamples.antt =====
-- Runs of the claim services, and the theorems about them at concrete claims.
use office_connect.Base.{
  String, ◌≡◌, ◌≢◌, ◌<◌, refl, true, false, some, none, [], ◌∷◌, In, here, there, arith, is_some,
}
use office_connect.Base.Int.{pos, ◌+ℤ◌, ◌-ℤ◌}
use office_connect.Json.{index, int_of, lookup}
use office_connect.OrgUnits.{authorize_scoped, scoped_org_units, grants_now, carries}
use office_connect.Reimbursement.CashAdvances.{
  NewAdvance, create_cash_advance, mark_overdue, mark_settled, validate, guard_section_89,
  open_cash_advance_for, resolve_deadline,
}
use office_connect.Reimbursement.CashAdvances.Ledger.{Recorded, IsPinned}
use office_connect.Reimbursement.CashAdvances.Sequence.{
  IsSound, Recording, Recording-IsSound, Recorded-IsPinned,
}
use office_connect.Reimbursement.Claims.{
  is_claim_owner, unit_of_staff, unit_of_claim, may_see_claim, resolve_holder, mirror,
  sync_claim_from_event, stamp_sla,
}
use office_connect.Reimbursement.Claims.Lifecycle.{
  locked_claim, is_cancelled, may_submit, prepare_submit, enter_workflow, after_action,
  submit_claim, ClaimAction, Submission, create_draft_claim, assert_advance_settled, prepare, act,
  logged, claim_action, assert_money, assert_payout_recorded, cancel_draft_claim,
}
use office_connect.Reimbursement.Claims.Lockstep.{claim_action-Mirrors}
use office_connect.Reimbursement.Claims.Mirror.{Mirrors}
use office_connect.Reimbursement.Claims.Visible.{Sees, Sees-may_see_claim}
use office_connect.Reimbursement.Claims.Refusals.{stranger_refused, cancel_draft_claim-final}
use office_connect.Reimbursement.Claims.Submitted.{submit_claim-Mirrors}
use office_connect.Reimbursement.ClaimTotals.{
  insert_leg, by_seq, legs_of, trip_claim, advance_amount, totals_of, compute_claim_totals,
}
use office_connect.Reimbursement.ClaimTotals.Balanced.{IsBalanced, compute_claim_totals-IsBalanced}
use office_connect.Reimbursement.Errors.{Error, Result, ok, err}
use office_connect.Reimbursement.Fms.{closing, record_external_event, record_payout}
use office_connect.Reimbursement.Fms.Payout.{record_payout-once}
use office_connect.Reimbursement.Liquidations.{
  is_indexed, liquidation_for_advance, start_liquidation,
}
use office_connect.Reimbursement.Liquidations.Once.{start_liquidation-once}
use office_connect.Reimbursement.PerDiem.Day.{controlling_leg, day_breakdown}
use office_connect.Reimbursement.PerDiem.Rows.{as_of, apportionment, departure_pct, PerDiemResult}
use office_connect.Reimbursement.PerDiem.Totals.{
  check_legs, span, check_span, days_from, compute_per_diem,
}
use office_connect.Reimbursement.Records.{
  CashAdvance, Claim, Totals, Store, is_settled, put_claim, put_advance, manila_date, find_account,
  find_staff, find_claim, find_advance,
}
use office_connect.Reimbursement.Settling.{
  may_settle, validate_receipt, settlement_mode, record_settlement,
}
use office_connect.Reimbursement.Settling.Final.{
  Settled, IsReceipted, IsMode, row_of, record_settlement-once,
}
use office_connect.Reimbursement.Texts.{stripped, strip}
use office_connect.Reimbursement.Walkthrough.{
  office, trip, advance, filed, files, payment, at_fms, reimbursing, on_its_way, settlement,
  environment, claim_of, store_of, is_ok, returned,
}
use office_connect.Workflow.Decisions.{
  authorize_originator, decide_originator, decide_approve, approved, check_segregation,
}
use office_connect.Workflow.Delegation.{resolve_authority}
use office_connect.Workflow.Guards.{in_order, select_transition, amount_guard_passes}
use office_connect.Workflow.Service.{start_instance}
use office_connect.Workflow.Steps.{activate_state_steps, gate_steps, join_satisfied}
use office_connect.Workflow.Transitions.{
  replayed, perform, advance as engine_advance, enter_state, execute_action,
}
use text.Mathlib.Text.{◌==◌ as str_eq}

files_it : is_ok (submit_claim environment office (files 1)) ≡ true
unfolding submit_claim locked_claim find_claim may_submit is_claim_owner find_account unit_of_staff
    find_staff prepare_submit compute_claim_totals trip_claim legs_of by_seq insert_leg
    compute_per_diem check_legs span check_span days_from day_breakdown controlling_leg as_of
    enter_workflow put_claim start_instance execute_action replayed perform select_transition
    in_order engine_advance after_action sync_claim_from_event mirror resolve_holder stamp_sla
    totals_of ◌+ℤ◌ index lookup int_of apportionment departure_pct amount_guard_passes
    decide_originator authorize_originator enter_state activate_state_steps
files_it = refl

abbrev filed_claim : Claim
filed_claim = claim_of (submit_claim environment office (files 1))

submit_claim-Mirrors_example :
    (is_claim_owner office trip 1 ≡ true)
    × (trip.workflow_instance_id ≡ none)
    × (is_cancelled trip ≡ false)
    × (filed_claim.id ≡ 1)
    × (find_claim filed filed_claim.id ≡ some filed_claim)
    × Mirrors filed filed_claim
unfolding find_claim
submit_claim-Mirrors_example =
    submit_claim-Mirrors environment office (files 1) (λ e m. elim m [ ]) refl
      (returned (submit_claim environment office (files 1)) files_it)

pays_it : is_ok (record_payout environment at_fms payment) ≡ true
unfolding claim_action act prepare may_see_claim assert_money assert_payout_recorded locked_claim
    find_claim put_claim strip manila_date record_external_event record_payout scoped_org_units
    grants_now carries check_segregation logged unit_of_claim find_account is_claim_owner
    authorize_scoped execute_action replayed perform select_transition in_order engine_advance
    after_action sync_claim_from_event mirror resolve_holder stamp_sla amount_guard_passes
    enter_state activate_state_steps gate_steps resolve_authority decide_approve approved
    join_satisfied
pays_it = refl

abbrev paid : Claim
paid = claim_of (record_payout environment at_fms payment)

abbrev after_payout : Store
after_payout = store_of (record_payout environment at_fms payment)

record_payout-once_example :
    (is_some reimbursing.payout_ref ≡ false)
    × (paid.payout_ref ≡ some (stripped payment.payout_ref))
    × (str_eq (stripped payment.payout_ref) "" ≡ false)
    × (find_claim after_payout 1 ≡ some paid)
    × (record_payout environment after_payout payment ≢ ok (paid, after_payout))
unfolding find_claim
record_payout-once_example =
    record_payout-once environment at_fms payment payment (paid, after_payout) refl refl
      (returned (record_payout environment at_fms payment) pays_it)

settles_it : is_ok (record_settlement environment at_fms settlement) ≡ true
unfolding claim_action act prepare may_see_claim assert_money assert_payout_recorded locked_claim
    find_claim put_claim strip manila_date record_external_event record_payout scoped_org_units
    grants_now carries check_segregation logged unit_of_claim find_account is_claim_owner
    authorize_scoped execute_action replayed perform select_transition in_order engine_advance
    after_action sync_claim_from_event mirror resolve_holder stamp_sla amount_guard_passes
    enter_state activate_state_steps gate_steps resolve_authority decide_approve approved
    join_satisfied record_settlement may_settle validate_receipt settlement_mode find_advance
    mark_settled put_advance assert_advance_settled ◌-ℤ◌
settles_it = refl

abbrev closed : Claim
closed = claim_of (record_settlement environment at_fms settlement)

abbrev after_settlement : Store
after_settlement = store_of (record_settlement environment at_fms settlement)

record_settlement-once_example :
    (x : Settled at_fms settlement closed after_settlement) × (is_settled x.advance.status ≡ false)
    × (find_advance after_settlement x.checked.id ≡ some (row_of x.advance settlement x.totals))
    × IsReceipted x.totals settlement
    × ((mode : String) × IsMode x.totals mode
        × ((row_of x.advance settlement x.totals).settlement_mode ≡ some mode))
    × (record_settlement environment after_settlement settlement ≢ ok (closed, after_settlement))
record_settlement-once_example =
    record_settlement-once environment at_fms settlement settlement (closed, after_settlement) refl
      (returned (record_settlement environment at_fms settlement) settles_it)

abbrev referenced : Claim
referenced = record reimbursing { payout_ref = some "LDDAP-7" }

abbrev payable : Store
payable = record at_fms { claims = referenced ∷ [] }

abbrev approval : ClaimAction
approval = closing 1 2 none none 3000

approves_it : is_ok (claim_action environment payable approval) ≡ true
unfolding claim_action act prepare may_see_claim assert_money assert_payout_recorded locked_claim
    find_claim put_claim strip manila_date record_external_event record_payout scoped_org_units
    grants_now carries check_segregation logged unit_of_claim find_account is_claim_owner
    authorize_scoped execute_action replayed perform select_transition in_order engine_advance
    after_action sync_claim_from_event mirror resolve_holder stamp_sla amount_guard_passes
    enter_state activate_state_steps gate_steps resolve_authority decide_approve approved
    join_satisfied
approves_it = refl

abbrev approved_claim : Claim
approved_claim = claim_of (claim_action environment payable approval)

abbrev after_approval : Store
after_approval = store_of (claim_action environment payable approval)

claim_action-Mirrors_example :
    (approved_claim.id ≡ 1)
    × (find_claim after_approval approved_claim.id ≡ some approved_claim)
    × Mirrors after_approval approved_claim
unfolding find_claim
claim_action-Mirrors_example =
    claim_action-Mirrors environment payable approval {claim = referenced} {i = on_its_way} refl
      refl refl refl (returned (claim_action environment payable approval) approves_it)

-- account 9 does not exist
abbrev curious : ClaimAction
curious = record approval { actor_user_id = 9 }

abbrev intruder : Submission
intruder = record (files 1) { actor_user_id = 9 }

stranger_unseen : ¬ Sees at_fms reimbursing 9
unfolding find_claim may_see_claim is_claim_owner find_account unit_of_claim authorize_scoped
    scoped_org_units grants_now carries
stranger_unseen sees = let seen = Sees-may_see_claim at_fms reimbursing 9 sees in cc

stranger_refused_example :
    (submit_claim environment at_fms intruder ≡ err Error.not_claim_owner)
    × (claim_action environment at_fms curious ≡ err Error.not_claim_owner)
    × (cancel_draft_claim at_fms 1 9 "mine" ≡ err Error.not_claim_owner)
unfolding find_claim
stranger_refused_example =
    stranger_refused environment at_fms intruder curious "mine" {claim = reimbursing} refl refl refl
      refl stranger_unseen

withdraws_it : is_ok (cancel_draft_claim office 1 1 "not travelling") ≡ true
unfolding cancel_draft_claim locked_claim find_claim is_claim_owner find_account
withdraws_it = refl

abbrev withdrawn : Result (Claim × Store)
withdrawn = cancel_draft_claim office 1 1 "not travelling"

cancel_draft_claim-final_example :
    (submit_claim environment (store_of withdrawn) (files 1) ≢ ok (trip, office))
    × (claim_action environment (store_of withdrawn) approval ≢ ok (trip, office))
    × (cancel_draft_claim (store_of withdrawn) 1 1 "again" ≢ ok (trip, office))
cancel_draft_claim-final_example =
    cancel_draft_claim-final environment office 1 1 "not travelling" (files 1) approval 1 "again"
      (trip, office) (trip, office) (trip, office) (returned withdrawn withdraws_it) refl refl

-- the office before the liquidation
abbrev unliquidated : Store
unliquidated = record office { claims = trip ∷ [] }

abbrev begun : Result (Claim × Store)
begun = start_liquidation unliquidated 1 1 4000

begins_it : is_ok (start_liquidation unliquidated 1 1 4000) ≡ true
unfolding start_liquidation find_advance find_account liquidation_for_advance create_draft_claim
    find_staff
begins_it = refl

start_liquidation-once_example :
    ((claim_of begun).cash_advance_id ≡ some 1)
    × In (claim_of begun) (store_of begun).claims
    × (is_indexed 1 (claim_of begun) ≡ true)
    × ((c : Claim) → In c (store_of begun).claims → is_indexed 1 c ≡ true → c ≡ claim_of begun)
    × (start_liquidation (store_of begun) 1 1 5000 ≢ ok (trip, office))
start_liquidation-once_example =
    start_liquidation-once unliquidated 1 1 4000 1 5000 (trip, office) (returned begun begins_it)

-- an advance for another traveller, which then goes overdue
abbrev another : NewAdvance
another = record {
  claimant_id = 31;
  amount = pos 70000;
  dv_no = some "DV-2";
  dv_date = none;
  dpo_no = none;
  date_return = none;
  now = 1000;
}

abbrev pair_of : Result (CashAdvance × Store) → CashAdvance × Store
pair_of (ok x) = x
pair_of (err e) = (advance, office)

abbrev granted : CashAdvance × Store
granted = pair_of (create_cash_advance office another)

grants_it : create_cash_advance office another ≡ ok (granted.0, granted.1)
unfolding create_cash_advance validate guard_section_89 open_cash_advance_for resolve_deadline
grants_it = refl

one_advance : IsSound office
one_advance = record {
  unique = λ a b m n e. sole m n;
  fresh = λ a m. below m;
  one = λ a b m n u v e. sole m n;
}
  where
    sole : {a b : CashAdvance} → In a (advance ∷ []) → In b (advance ∷ []) → a ≡ b
    sole (here e) (here f) = cc
    sole (here e) (there n) = elim n [ ]
    sole (there m) n = elim m [ ]

    below : {a : CashAdvance} → In a (advance ∷ []) → a.id < 2
    below (here e) = ground arith
    below (there m) = elim m [ ]

abbrev late : Store
late = (mark_overdue granted.1 granted.0).1

-- the new row is listed
listed : In granted.0 granted.1.advances
unfolding create_cash_advance validate guard_section_89 open_cash_advance_for resolve_deadline
listed = there (here refl)

grant_and_lapse : Recording office late
grant_and_lapse =
    Recording.call
      (Recording.call Recording.begin (Recorded.created another granted.0 granted.1 grants_it))
      (Recorded.went_overdue granted.0 late listed refl)

Recording-IsSound_example :
    IsSound late
    × ((a : CashAdvance) → In a office.advances → is_settled a.status ≡ true → In a late.advances)
Recording-IsSound_example = Recording-IsSound grant_and_lapse one_advance

Recorded-IsPinned_example :
    (b : CashAdvance) × In b granted.1.advances × (b.id ≡ 1) × IsPinned advance b
Recorded-IsPinned_example =
    Recorded-IsPinned (Recorded.created another granted.0 granted.1 grants_it) one_advance advance
      (here refl)

abbrev no_result : PerDiemResult
no_result = record { days = []; leg_values = []; per_diem_total = pos 0; transport_total = pos 0 }

abbrev computed_of : Result (PerDiemResult × Store) → PerDiemResult × Store
computed_of (ok x) = x
computed_of (err e) = (no_result, office)

abbrev priced : PerDiemResult × Store
priced = computed_of (compute_claim_totals office 1 none)

computes_it : compute_claim_totals office 1 none ≡ ok (priced.0, priced.1)
unfolding compute_claim_totals find_claim trip_claim legs_of by_seq insert_leg compute_per_diem
    check_legs span check_span days_from day_breakdown controlling_leg as_of ◌+ℤ◌ index lookup
    int_of apportionment departure_pct
computes_it = refl

compute_claim_totals-IsBalanced_example :
    (out : Claim) × (t : Totals) × (find_claim priced.1 1 ≡ some out)
    × (out.totals ≡ some t)
    × IsBalanced t
    × (t.per_diem ≡ priced.0.per_diem_total)
    × (t.transport ≡ priced.0.transport_total)
    × (t.other ≡ pos 0)
    × (t.advance ≡ advance_amount office none)
    × ((c : Claim) → In c office.claims → c.id ≢ 1 → In c priced.1.claims)
    × (priced.1.advances ≡ office.advances)
unfolding find_claim
compute_claim_totals-IsBalanced_example =
    compute_claim_totals-IsBalanced office 1 none {claim = trip} refl computes_it
