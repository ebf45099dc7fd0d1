-- ===== src/Reimbursement/Claims.antt =====
-- office_connect/modules/reimbursement/services/lifecycle.py: who may see and hold a claim, and the
-- read-model of the engine that a claim carries. A function that changes a claim hands it back with
-- the store.

pub mod Lifecycle
pub mod Mirror
pub mod Prepared
pub mod Engine
pub mod Lockstep
pub mod Submitted
pub mod Visible
pub mod Refusals
pub mod Kept
use office_connect.Base.{
  ℕ, ◌+◌, ◌-◌, ◌*◌, Bool, true, false, not, ◌&&◌, ◌||◌, Option, none, some, List, [], ◌∷◌, ◌++◌,
  String, ltb, ◌==◌, if◌then◌else◌, find?, filter, map, any, is_id, is_none, get_or,
}
use office_connect.Base.Int.{ℤ, pos, ◌+ℤ◌, ◌*ℤ◌}
use office_connect.OrgUnits.{Holder, User, ancestors_or_self, authorize_scoped, permission_holders}
use office_connect.Reimbursement.Configs.{config_working_days, load_nonworking_dates}
use office_connect.Reimbursement.Deadline.{shift}
use office_connect.Reimbursement.Errors.{
  Error, Result, ok, err, ◌>>=◌, ◌>>◌, guard, raise_if, require,
}
use office_connect.Reimbursement.Records.{
  HolderKind, Account, Claim, Staff, Store, is_settled, put_claim, manila_date, find_account,
  find_staff, find_advance,
}
use office_connect.Reimbursement.Status.{draft, member, vocabulary, get}
use office_connect.Workflow.Steps.{in_gate}
use office_connect.Workflow.Transitions.{find_instance, find_state}
use office_connect.Workflow.Types.{State, Instance, Step, Event, Db, is_active, is_terminal}
use office_connect.Workdays.{add_working_days}
use text.Mathlib.Text.{◌==◌ as str_eq}

-- `claim.status or st.DRAFT`
abbrev pub status_or_draft : Option String → String
status_or_draft none = draft
status_or_draft (some status) = if str_eq status "" then draft else status

-- `owner_user`: the active accounts of a staff record, of which there is at most one
abbrev pub at_most_one : List Account → Result (Option Account)
at_most_one [] = ok none
at_most_one (a ∷ []) = ok (some a)
at_most_one _ = err Error.multiple_rows

unfoldable pub owner_user : Store → ℕ → Result (Option Account)
owner_user s claimant_id =
    at_most_one (filter (λ a. is_id a.staff_id claimant_id && a.is_active) s.accounts)

unfoldable pub is_claim_owner : Store → Claim → ℕ → Bool
is_claim_owner s claim actor = elim (find_account s actor) [
  | none ↦ false
  | some a ↦ is_id a.staff_id claim.claimant_id
]

-- `a or b` on ids
abbrev pub or_id : Option ℕ → Option ℕ → Option ℕ
or_id none b = b
or_id (some a) b = if a == 0 then b else some a

-- `(staff.section_id or staff.division_id) if staff else None`
unfoldable pub unit_of_staff : Store → ℕ → Option ℕ
unit_of_staff s id = elim (find_staff s id) [
  | none ↦ none
  | some r ↦ or_id r.section_id r.division_id
]

abbrev pub unit_of_instance : Store → Option ℕ → Option ℕ
unit_of_instance s none = none
unit_of_instance s (some id) = elim (find_instance s.db id) [ none ↦ none | some i ↦ i.org_unit_id ]

unfoldable pub unit_of_claim : Store → Claim → Option ℕ
unit_of_claim s claim = elim (unit_of_instance s claim.workflow_instance_id) [
  | none ↦ unit_of_staff s claim.claimant_id
  | some unit ↦ some unit
]

abbrev pub oversight_perms : List String
oversight_perms = "reimb.claim.review" ∷ "reimb.claim.fms_update" ∷ "reimb.claim.approve" ∷ []

unfoldable pub may_see_claim : Store → Claim → ℕ → Bool
may_see_claim s claim actor =
    if is_claim_owner s claim actor then true else elim (unit_of_claim s claim) [
      | none ↦ false
      | some unit ↦
          any (λ perm. authorize_scoped s.db.directory s.db.clock actor perm (some unit))
            oversight_perms
    ]

-- `proximity[unit]`: a unit that stands twice has its later rank
unfoldable pub rank_from : ℕ → List ℕ → ℕ → Option ℕ
rank_from n [] unit = none
rank_from n (u ∷ units) unit = elim (rank_from (n + 1) units unit) [
  | some rank ↦ some rank
  | none ↦ if u == unit then some n else none
]

-- the rank of a holder who may hold the gate
abbrev pub rank_of : State → Instance → List ℕ → Holder → Option ℕ
rank_of state i ancestry (user, none) = none
rank_of state i ancestry (user, some unit) =
    if state.enforce_segregation && is_id i.originator_user_id user
    then none
    else rank_from 0 ancestry unit

unfoldable pub candidates : State → Instance → List ℕ → List Holder → List (ℕ × ℕ)
unfolding rank_from
candidates state i ancestry [] = []
candidates state i ancestry (h ∷ holders) =
    let rest = candidates state i ancestry holders in
    elim (rank_of state i ancestry h) [ none ↦ rest | some rank ↦ (rank, h.0) ∷ rest ]

abbrev pub pair_before : ℕ × ℕ → ℕ × ℕ → Bool
pair_before (a, b) (c, d) = ltb a c || (a == c && ltb b d)

-- `sorted(...)[0]`
unfoldable pub least : ℕ × ℕ → List (ℕ × ℕ) → ℕ × ℕ
least best [] = best
least best (p ∷ ps) = least (if pair_before p best then p else best) ps

abbrev pub Held : Type 0
Held = Option HolderKind × Option ℕ

abbrev pub as_user : Account → User
as_user a = record { id = a.id; is_active = a.is_active }

unfoldable pub gate_holders : Store → State → Instance → List Holder
gate_holders s state i = elim state.required_permission [
  | none ↦ []
  | some perm ↦
      permission_holders s.db.directory (map as_user s.accounts) s.db.clock perm i.org_unit_id
]

abbrev pub nearest : String → List (ℕ × ℕ) → Result Held
nearest code [] = err (Error.no_eligible_holder code)
nearest code (p ∷ ps) = ok (some HolderKind.user, some (least p ps).1)

abbrev pub owner_or : Option Account → Option ℕ → Option ℕ
owner_or none originator = originator
owner_or (some a) originator = some a.id

-- the last part of `resolve_holder`: a gate
unfoldable pub resolve_gate : Store → State → Instance → Result Held
unfolding gate_holders candidates least
resolve_gate s state i =
    nearest state.code
      (candidates state i (ancestors_or_self s.db.directory i.org_unit_id) (gate_holders s state i))

unfoldable pub resolve_holder : Store → State → Claim → Instance → Result Held
resolve_holder s state claim i =
    if is_terminal state.kind
    then ok (none, none)
    else if member state.code (vocabulary claim.kind).claimant
    then (do
      owner ← owner_user s claim.claimant_id
      ok (some HolderKind.user, owner_or owner i.originator_user_id))
    else if member state.code (vocabulary claim.kind).external
    then ok (some HolderKind.external_fms, none)
    else resolve_gate s state i

abbrev pub since : Option HolderKind → ℕ → Option ℕ
since none now = none
since (some kind) now = some now

-- the claim as `_sync_claim_from_event` writes it
abbrev pub synced : Claim → State → Held → ℕ → Claim
synced claim to_state held now = record claim {
  status = some to_state.code;
  holder_kind = held.0;
  holder_id = held.1;
  holder_since = since held.0 now;
  next_action = get (vocabulary claim.kind).next_action to_state.code;
}

abbrev pub find_state? : Db → Option ℕ → Option State
find_state? db none = none
find_state? db (some id) = find_state db id

abbrev pub find_instance? : Db → Option ℕ → Option Instance
find_instance? db none = none
find_instance? db (some id) = find_instance db id

-- `_sync_claim_from_event`, past the test for a same-state event
unfoldable pub mirror : Store → Claim → State → Event → ℕ → Result (Claim × Store)
mirror s claim to_state event now = do
  i ← require (find_instance? s.db claim.workflow_instance_id) Error.attribute_error
  held ← resolve_holder s to_state claim i
  let out = synced claim to_state held now
  let written = put_claim out s
  ok (
    out,
    record written {
      histories =
          written.histories
          ++ record {
            claim_id = claim.id;
            from_status = some (status_or_draft claim.status);
            to_status = to_state.code;
            actor_id = event.actor_user_id;
            note = event.comment;
          }
            ∷ [];
    },
  )

unfoldable pub sync_claim_from_event : Store → Claim → Event → ℕ → Result (Claim × Store)
sync_claim_from_event s claim event now = do
  to_state ← require (find_state? s.db event.to_state_id) Error.attribute_error
  if str_eq to_state.code (status_or_draft claim.status)
      then ok (claim, s)
      else mirror s claim to_state event now

abbrev pub sla_key : String
sla_key = "sla.approval_working_days"

-- `active` and not stamped
abbrev pub is_fresh : Instance → State → Step → Bool
is_fresh i state step =
    in_gate i.id state.id (some i.revision_no) step
    && is_active step.status
    && is_none step.sla_due_at

-- 17:00 in Manila on a day, in seconds of UTC
abbrev pub end_of_day : ℕ → ℕ
end_of_day day = (day - 719163) * 86400 + 32400

abbrev pub stamped : Instance → State → ℕ → Step → Step
stamped i state due step =
    if is_fresh i state step then record step { sla_due_at = some due } else step

unfoldable pub sla_due : Store → ℕ → Result ℕ
sla_due s now = do
  let today = manila_date now
  let working_days = config_working_days s.configs sla_key (pos 3) today
  last ← require (shift today (working_days *ℤ pos 4 +ℤ pos 14)) Error.overflow_error
  due_date ←
      require (add_working_days (load_nonworking_dates s.holidays today last) today working_days)
        Error.overflow_error
  ok (end_of_day due_date)

-- the gates that `_stamp_sla` stamps
abbrev pub has_sla : Claim → State → Bool
has_sla claim state =
    state.is_approval_gate && not (member state.code (vocabulary claim.kind).external)

unfoldable pub stamp_sla : Store → Claim → Instance → Event → ℕ → Result Store
stamp_sla s claim i event now = do
  state ← require (find_state? s.db event.to_state_id) Error.attribute_error
  if has_sla claim state && any (is_fresh i state) s.db.steps
      then (do
        due ← sla_due s now
        ok (record s { db = record s.db { steps = map (stamped i state due) s.db.steps } }))
      else ok s
