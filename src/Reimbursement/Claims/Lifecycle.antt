-- ===== src/Reimbursement/Claims/Lifecycle.antt =====
-- office_connect/modules/reimbursement/services/lifecycle.py: the functions that move a claim.
-- What they call outside the modelled services is an interface: the checklist of the packet, the year
-- of a date and the texts of the idempotency keys. The documents that a call queues for generation
-- change nothing that is read here.
use office_connect.Base.{
  ℕ, ◌+◌, Bool, true, false, not, ◌&&◌, ◌||◌, Option, none, some, List, [], ◌∷◌, ◌++◌, String, ◌==◌,
  if◌then◌else◌, find?, filter, any, is_some,
}
use office_connect.Base.Int.{ℤ, pos, ltb_ℤ}
use office_connect.OrgUnits.{authorize_scoped}
use office_connect.Reimbursement.Claims.{
  status_or_draft, is_claim_owner, unit_of_staff, may_see_claim, find_state?, sync_claim_from_event,
  stamp_sla,
}
use office_connect.Reimbursement.ClaimTotals.{compute_claim_totals}
use office_connect.Reimbursement.Errors.{
  Error, Result, ok, err, ◌>>=◌, ◌>>◌, guard, raise_if, require, from_engine,
}
use office_connect.Reimbursement.Records.{
  ClaimKind, HolderKind, ReturnTarget, Claim, Staff, Totals, StatusHistory, Store, is_settled,
  is_liquidation, put_claim, manila_date, find_account, find_staff, find_claim, find_advance,
}
use office_connect.Reimbursement.References.{allocate_reference_number}
use office_connect.Reimbursement.Texts.{stripped}
use office_connect.Reimbursement.Status.{draft, returned, handed_to_fms, cancelled, vocabulary, get}
use office_connect.Workflow.Decisions.{Request}
use office_connect.Workflow.Result.{Error as EngineError}
use office_connect.Workflow.Service.{start_instance}
use office_connect.Workflow.Steps.{gate_steps}
use office_connect.Workflow.Transitions.{execute_action, find_instance, put_instance, same_key}
use office_connect.Workflow.Types.{Action, StepStatus, Instance, Step, Event, Db}
use text.Mathlib.Text.{◌==◌ as str_eq}

pub record Environment : Type 0 where
  -- `date.year`
  pub year_of : ℕ → ℕ
  -- the f-strings of the keys
  pub submit_key : ℕ → ℕ → String
  pub action_key : Action → ℕ → ℕ → ℕ → ℕ → String
  -- `assert_packet_complete` and `assert_persisted_packet_complete` of services/checklist.py
  pub assert_packet_complete : Store → Claim → ℕ → ℕ → Result (Unit {0})
  pub assert_persisted_packet_complete : Store → Claim → Result (Unit {0})

-- `_locked_claim`
unfoldable pub locked_claim : Store → ℕ → Result Claim
locked_claim s id = require (find_claim s id) Error.claim_not_found

abbrev pub is_cancelled : Claim → Bool
is_cancelled claim = str_eq (status_or_draft claim.status) cancelled

-- Creating a draft

abbrev pub staff_of : Store → ℕ → Option Staff
staff_of s actor = elim (find_account s actor) [
  | none ↦ none
  | some a ↦ elim a.staff_id [ none ↦ none | some id ↦ find_staff s id ]
]

abbrev pub is_jo_cos : Staff → Bool
is_jo_cos staff =
    str_eq staff.employment_status "job_order"
    || str_eq staff.employment_status "contract_of_service"

abbrev pub draft_claim : ℕ → ClaimKind → Staff → ℕ → ℕ → Claim
draft_claim id kind staff actor now = record {
  id = id;
  ref_no = none;
  kind = kind;
  claimant_id = staff.id;
  activity_id = none;
  workflow_instance_id = none;
  dpo_no = none;
  dpo_date = none;
  dpo_document_id = none;
  purpose = none;
  destination = none;
  destination_region_code = none;
  date_depart = none;
  date_return = none;
  is_within_50km = false;
  overnight_stay = false;
  fund_source = none;
  is_jo_cos = is_jo_cos staff;
  cash_advance_id = none;
  spawned_from_claim_id = none;
  other_total = pos 0;
  payout_ref = none;
  paid_on = none;
  paid_by = none;
  status = some draft;
  holder_kind = some HolderKind.user;
  holder_id = some actor;
  holder_since = some now;
  next_action = get (vocabulary kind).next_action draft;
  liquidation_deadline = none;
  totals = none;
}

abbrev pub append_history : StatusHistory → Store → Store
append_history h s = record s { histories = s.histories ++ h ∷ [] }

abbrev pub insert_claim : Store → Claim → Store
insert_claim s claim = record s {
  claims = s.claims ++ claim ∷ [];
  next_claim_id = s.next_claim_id + 1;
}

unfoldable pub create_draft_claim : Store → ℕ → ClaimKind → ℕ → Result (Claim × Store)
create_draft_claim s actor kind now = do
  staff ← require (staff_of s actor) Error.no_staff_link
  raise_if staff.deleted Error.no_staff_link
  let claim = draft_claim s.next_claim_id kind staff actor now
  ok (
    claim,
    append_history
        (record {
          claim_id = claim.id;
          from_status = none;
          to_status = draft;
          actor_id = some actor;
          note = none;
        })
        (insert_claim s claim),
  )

-- Submitting

-- the arguments of `submit_claim`
pub record Submission : Type 0 where
  pub claim_id : ℕ
  pub actor_user_id : ℕ
  pub idempotency_key : Option String
  pub now : ℕ

-- `definition_code` and `REF_SCOPES`
abbrev pub definition_code : ClaimKind → String
definition_code ClaimKind.reimbursement = "reimbursement.claim"
definition_code ClaimKind.liquidation = "reimbursement.liquidation"

abbrev pub ref_scope : ClaimKind → String
ref_scope ClaimKind.reimbursement = "RB"
ref_scope ClaimKind.liquidation = "LQ"

abbrev pub refunds : Option Totals → Bool
refunds none = false
refunds (some t) = ltb_ℤ (pos 0) t.to_refund

-- a reimbursement that nets an advance and is owed nothing
abbrev pub below_advance : Claim → Bool
below_advance claim =
    not (is_liquidation claim.kind) && is_some claim.cash_advance_id && refunds claim.totals

-- `claim.totals["grand"]`
abbrev pub grand_of : Claim → Result ℤ
grand_of claim = elim claim.totals [ none ↦ err Error.key_error | some t ↦ ok t.grand ]

-- `if claim.ref_no is None: ...`
unfoldable pub numbered : Environment → Store → Claim → ℕ → Claim × Store
numbered env s claim now = elim claim.ref_no [
  | some ref ↦ (claim, s)
  | none ↦
      let (ref, sequences) =
        allocate_reference_number s.sequences (ref_scope claim.kind)
          (env.year_of (manila_date now)) in
      (record claim { ref_no = some ref }, record s { sequences = sequences })
]

-- the refusals of `submit_claim` before it writes, with the unit that the claim is filed at
unfoldable pub may_submit : Store → Claim → ℕ → Result ℕ
may_submit s claim actor = do
  guard (is_claim_owner s claim actor) Error.not_claim_owner
  raise_if (is_some claim.workflow_instance_id) Error.claim_already_submitted
  raise_if (is_cancelled claim) Error.claim_cancelled
  require (unit_of_staff s claim.claimant_id) Error.claimant_no_org_unit

-- the totals and the packet
unfoldable pub prepare_submit : Environment → Store → ℕ → ℕ → ℕ → Result (Claim × Store)
prepare_submit env s claim_id actor now = do
  computed ← compute_claim_totals s claim_id none
  claim ← locked_claim computed.1 claim_id
  raise_if (below_advance claim) Error.spawn_below_advance
  env.assert_packet_complete computed.1 claim actor now
  ok (claim, computed.1)

abbrev pub feature_flag_key : String
feature_flag_key = "module.reimbursement"

-- `start_instance`, the reference number and the link to the instance
unfoldable pub enter_workflow :
    Environment → Store → Claim → Submission → ℕ → Result (Instance × (Claim × Store))
unfolding numbered
enter_workflow env s claim r unit = do
  grand ← grand_of claim
  started ← from_engine (
      start_instance s.db (record {
        definition_code = definition_code claim.kind;
        actor_user_id = some r.actor_user_id;
        org_unit_id = some unit;
        amount = some grand;
        feature_flag_key = some feature_flag_key;
        now = some r.now;
      }))
  let (ref, with_number) = numbered env (record s { db = started.1 }) claim r.now
  let linked = record ref { workflow_instance_id = some started.0.id }
  ok (started.0, (linked, put_claim linked with_number))

abbrev pub key_or : Option String → String → String
key_or none default = default
key_or (some key) default = if str_eq key "" then default else key

abbrev pub submit_request : Environment → Submission → Instance → Request
submit_request env r i = record {
  instance_id = i.id;
  action = Action.submit;
  actor_user_id = r.actor_user_id;
  comment = none;
  idempotency_key = some (key_or r.idempotency_key (env.submit_key r.claim_id i.revision_no));
  expected_version = none;
  now = some r.now;
}

-- `_sync_claim_from_event` and `_stamp_sla` after an action of the engine
unfoldable pub after_action : Store → Claim → ℕ → Event → ℕ → Result (Claim × Store)
after_action s claim instance_id event now = do
  out ← sync_claim_from_event s claim event now
  i ← require (find_instance out.1.db instance_id) Error.attribute_error
  stamped ← stamp_sla out.1 out.0 i event now
  ok (out.0, stamped)

unfoldable pub submit_claim : Environment → Store → Submission → Result (Claim × Store)
submit_claim env s r = do
  claim ← locked_claim s r.claim_id
  unit ← may_submit s claim r.actor_user_id
  prepared ← prepare_submit env s claim.id r.actor_user_id r.now
  entered ← enter_workflow env prepared.1 prepared.0 r unit
  done ← from_engine (execute_action entered.1.1.db (submit_request env r entered.0))
  after_action (record entered.1.1 { db = done.1 }) entered.1.0 entered.0.id done.0 r.now

-- Acting on a submitted claim

-- the arguments of `claim_action`; an action that is no verb of the engine is refused as well
pub record ClaimAction : Type 0 where
  pub claim_id : ℕ
  pub action : Action
  pub actor_user_id : ℕ
  pub comment : Option String
  pub reason_ids : List ℕ
  pub idempotency_key : Option String
  pub expected_version : Option ℕ
  pub now : ℕ

-- `_CLAIM_ACTIONS`
abbrev pub is_claim_action : Action → Bool
is_claim_action Action.approve = true
is_claim_action Action.return = true
is_claim_action Action.resubmit = true
is_claim_action Action.cancel = true
is_claim_action _ = false

-- `_assert_advance_settled`
unfoldable pub assert_advance_settled : Store → Claim → Result (Unit {0})
assert_advance_settled s claim = do
  advance_id ← require claim.cash_advance_id Error.liquidation_without_advance
  advance ← require (find_advance s advance_id) Error.settlement_required
  guard (is_settled advance.status) Error.settlement_required

-- `(text or "").strip()` is not empty
abbrev pub has_text : Option String → Bool
has_text text = not (str_eq (stripped text) "")

-- `_assert_payout_recorded`
unfoldable pub assert_payout_recorded : Claim → Result (Unit {0})
assert_payout_recorded claim = guard (has_text claim.payout_ref) Error.payout_required

abbrev pub is_live_reason : Store → ℕ → Bool
is_live_reason s id = any (λ r. r.id == id && r.is_active) s.return_reasons

abbrev pub is_empty : List ℕ → Bool
is_empty [] = true
is_empty (x ∷ xs) = false

-- `_assert_return_reasons`; the ids in the error may stand twice here
unfoldable pub assert_return_reasons : Store → List ℕ → Result (Unit {0})
assert_return_reasons s ids = do
  raise_if (is_empty ids) Error.return_reason_required
  let unknown = filter (λ id. not (is_live_reason s id)) ids
  guard (is_empty unknown) (Error.unknown_return_reason unknown)

unfoldable pub may_withdraw : Store → Claim → Instance → ℕ → Bool
may_withdraw s claim i actor =
    is_claim_owner s claim actor
    || authorize_scoped s.db.directory s.db.clock actor "reimb.claim.review" i.org_unit_id

abbrev pub repriced : Store → Instance → ℤ → Store
repriced s i grand = record s {
  db = record s.db { instances = put_instance (record i { amount = some grand }) s.db.instances };
}

-- `if action == "resubmit": ...`
unfoldable pub prepare_resubmit : Environment → Store → Instance → ClaimAction → Result Store
prepare_resubmit env s i r = do
  computed ← compute_claim_totals s r.claim_id none
  claim ← locked_claim computed.1 r.claim_id
  env.assert_packet_complete computed.1 claim r.actor_user_id r.now
  grand ← grand_of claim
  ok (repriced computed.1 i grand)

-- the money that the last approval of a chain asserts
unfoldable pub assert_money : Store → Claim → Result (Unit {0})
assert_money s claim =
    if str_eq (status_or_draft claim.status) handed_to_fms
    then (if is_liquidation claim.kind
        then assert_advance_settled s claim
        else assert_payout_recorded claim)
    else ok tt

-- what each action demands before the engine is asked, with the store that it leaves
unfoldable pub prepare :
    Environment → Store → Claim → Instance → ClaimAction → Action → Result Store
prepare env s claim i r Action.return = assert_return_reasons s r.reason_ids >> ok s
prepare env s claim i r Action.cancel =
    guard (may_withdraw s claim i r.actor_user_id) Error.not_claim_owner >> ok s
prepare env s claim i r Action.resubmit =
    guard (may_withdraw s claim i r.actor_user_id) Error.not_claim_owner
    >> prepare_resubmit env s i r
prepare env s claim i r Action.approve =
    env.assert_persisted_packet_complete s claim >> assert_money s claim >> ok s
prepare env s claim i r other = ok s

abbrev pub is_returned : Step → Bool
is_returned step = elim step.status [ StepStatus.returned ↦ true | other ↦ false ]

abbrev pub gate_left : Db → Event → Instance → List Step
gate_left db event i = elim event.from_state_id [
  | none ↦ []
  | some state ↦ gate_steps db.steps i.id state event.revision_no
]

abbrev pub step_id : Option Step → Option ℕ
step_id none = none
step_id (some step) = some step.id

-- `if action == "return" and not replayed: ...`
unfoldable pub log_return : Store → Claim → Instance → Event → ClaimAction → Result Store
log_return s claim i event r = do
  to_state ← require (find_state? s.db event.to_state_id) Error.attribute_error
  ok (record s {
    return_events =
        s.return_events
        ++ record {
          claim_id = claim.id;
          step_id = step_id (find? is_returned (gate_left s.db event i));
          reason_ids = r.reason_ids;
          free_comment = r.comment;
          returned_to =
              if str_eq to_state.code returned
              then ReturnTarget.claimant
              else ReturnTarget.previous_step;
        }
          ∷ [];
  })

unfoldable pub logged :
    Bool → Action → Store → Claim → Instance → Event → ClaimAction → Result Store
logged false Action.return s claim i event r = log_return s claim i event r
logged replayed action s claim i event r = ok s

abbrev pub has_event : Db → ℕ → String → Bool
has_event db instance_id key =
    any (λ e. e.instance_id == instance_id && same_key e.idempotency_key (some key)) db.events

abbrev pub action_request : ClaimAction → Instance → String → Request
action_request r i key = record {
  instance_id = i.id;
  action = r.action;
  actor_user_id = r.actor_user_id;
  comment = r.comment;
  idempotency_key = some key;
  expected_version = r.expected_version;
  now = some r.now;
}

abbrev pub key_of : Environment → ClaimAction → Claim → Instance → String
key_of env r claim i =
    key_or r.idempotency_key
      (env.action_key r.action claim.id i.revision_no i.current_state_id r.actor_user_id)

-- from the key on
unfoldable pub act : Environment → Store → Claim → Instance → ClaimAction → Result (Claim × Store)
act env s claim i r = do
  let key = key_of env r claim i
  done ← from_engine (execute_action s.db (action_request r i key))
  let moved = record s { db = done.1 }
  recorded ← logged (has_event s.db i.id key) r.action moved claim i done.0 r
  after_action recorded claim i.id done.0 r.now

unfoldable pub claim_action : Environment → Store → ClaimAction → Result (Claim × Store)
claim_action env s r = do
  guard (is_claim_action r.action) Error.unsupported_claim_action
  claim ← locked_claim s r.claim_id
  guard (may_see_claim s claim r.actor_user_id) Error.not_claim_owner
  instance_id ← require claim.workflow_instance_id Error.claim_not_in_workflow
  i ← require (find_instance s.db instance_id) Error.attribute_error
  prepared ← prepare env s claim i r r.action
  fresh ← locked_claim prepared r.claim_id
  current ← require (find_instance prepared.db instance_id) Error.attribute_error
  act env prepared fresh current r

-- Cancelling a draft

abbrev pub cancelled_claim : Claim → Claim
cancelled_claim claim = record claim {
  status = some cancelled;
  holder_kind = none;
  holder_id = none;
  holder_since = none;
  next_action = none;
}

unfoldable pub cancel_draft_claim : Store → ℕ → ℕ → String → Result (Claim × Store)
cancel_draft_claim s claim_id actor comment = do
  claim ← locked_claim s claim_id
  guard (is_claim_owner s claim actor) Error.not_claim_owner
  raise_if (is_some claim.workflow_instance_id) Error.claim_already_submitted
  raise_if (str_eq comment "") (Error.engine EngineError.comment_required)
  raise_if (is_cancelled claim) Error.claim_cancelled
  ok (
    cancelled_claim claim,
    append_history
        (record {
          claim_id = claim.id;
          from_status = some (status_or_draft claim.status);
          to_status = cancelled;
          actor_id = some actor;
          note = some comment;
        })
        (put_claim (cancelled_claim claim) s),
  )
