-- ===== src/Reimbursement/CashAdvances.antt =====
-- office_connect/modules/reimbursement/services/cash_advance.py: the writer of the cash advances.
-- A function that is handed a row of the session takes that row. The race that the unique index of
-- the table catches cannot arise here, since a call is one step on the store.

pub mod Ledger
pub mod Sequence
use office_connect.Base.{
  ℕ, ◌+◌, ◌*◌, Bool, true, false, not, ◌&&◌, ◌||◌, Option, none, some, List, [], ◌∷◌, ◌++◌, String,
  ltb, leb, ◌==◌, if◌then◌else◌, find?, filter, map, get_or, is_id, length,
}
use office_connect.Base.Int.{ℤ, pos, negsuc, pos_part, leb_ℤ, ◌+ℤ◌, ◌*ℤ◌}
use office_connect.Json.{Fields}
use office_connect.Reimbursement.Configs.{effective_config, load_nonworking_dates}
use office_connect.Reimbursement.Deadline.{
  DeadlineRule, working, read_rule, liquidation_deadline, shift,
}
use office_connect.Reimbursement.Errors.{
  Error, Result, ok, err, ◌>>=◌, ◌>>◌, guard, raise_if, require,
}
use office_connect.Reimbursement.Records.{
  AdvanceStatus, CashAdvance, Claim, Store, is_settled, is_unliquidated, is_liquidation,
  put_advance, put_claim, manila_date, find_advance,
}
use text.Mathlib.Text.{◌==◌ as str_eq}

abbrev pub refund : String
refund = "refund"

abbrev pub exact : String
exact = "exact"

abbrev pub over_advance : String
over_advance = "over_advance"

-- `mode in SETTLEMENT_MODES`
abbrev pub is_mode : String → Bool
is_mode mode = str_eq mode refund || str_eq mode exact || str_eq mode over_advance

unfoldable pub get_cash_advance : Store → ℕ → Result CashAdvance
get_cash_advance s id = require (find_advance s id) Error.cash_advance_not_found

abbrev pub blocks : ℕ → CashAdvance → Bool
blocks claimant_id a = a.claimant_id == claimant_id && is_unliquidated a.status

unfoldable pub open_cash_advance_for : Store → ℕ → Option CashAdvance
open_cash_advance_for s claimant_id = find? (blocks claimant_id) s.advances

-- the last day of the window of holidays: `date_return + timedelta(days=...)`
abbrev pub window_end : ℕ → ℤ → Option ℕ
window_end day days = shift day (days *ℤ pos 4 +ℤ pos 14)

-- the deadline and the basis that produced it
abbrev pub Deadline : Type 0
Deadline = Option ℕ × Option String

abbrev pub holidays_for : Store → ℕ → DeadlineRule → Result (List ℕ)
holidays_for s day rule =
    if str_eq rule.basis working
    then (do
      last ← require (window_end day rule.days) Error.overflow_error
      ok (load_nonworking_dates s.holidays day last))
    else ok []

unfoldable pub resolve_deadline : Store → Option ℕ → ℕ → Result Deadline
resolve_deadline s none today = ok (none, none)
resolve_deadline s (some day) today = do
  rule ← require (read_rule (some (effective_config s.configs today))) Error.type_error
  nonworking ← holidays_for s day rule
  computed ← require (liquidation_deadline (some day) rule nonworking) Error.overflow_error
  ok (computed, some rule.basis)

abbrev pub returns_before : Option ℕ → Option ℕ → Bool
returns_before (some dv) (some back) = ltb back dv
returns_before _ _ = false

-- `_validate`
unfoldable pub validate : ℤ → Option ℕ → Option ℕ → Result (Unit {0})
validate amount dv_date date_return = do
  raise_if (leb_ℤ amount (pos 0)) Error.cash_advance_amount_invalid
  raise_if (returns_before dv_date date_return) Error.cash_advance_dates_invalid
  ok tt

-- `_guard_section_89`
unfoldable pub guard_section_89 : Store → ℕ → Result (Unit {0})
guard_section_89 s claimant_id = elim (open_cash_advance_for s claimant_id) [
  | none ↦ ok tt
  | some blocking ↦ err (Error.cash_advance_unliquidated blocking.dv_no blocking.deadline_date)
]

-- the arguments of `create_cash_advance`
pub record NewAdvance : Type 0 where
  pub claimant_id : ℕ
  pub amount : ℤ
  pub dv_no : Option String
  pub dv_date : Option ℕ
  pub dpo_no : Option String
  pub date_return : Option ℕ
  pub now : ℕ

abbrev pub new_advance : Store → NewAdvance → Deadline → CashAdvance
new_advance s n deadline = record {
  id = s.next_advance_id;
  claimant_id = n.claimant_id;
  dv_no = n.dv_no;
  dv_date = n.dv_date;
  amount = n.amount;
  dpo_no = n.dpo_no;
  date_return = n.date_return;
  deadline_date = deadline.0;
  deadline_basis = deadline.1;
  status = AdvanceStatus.opened;
  settled_at = none;
  settled_by = none;
  settlement_mode = none;
  refund_or_no = none;
  refund_or_date = none;
  refund_amount = none;
}

abbrev pub insert_advance : Store → CashAdvance → Store
insert_advance s row = record s {
  advances = s.advances ++ row ∷ [];
  next_advance_id = s.next_advance_id + 1;
}

unfoldable pub create_cash_advance : Store → NewAdvance → Result (CashAdvance × Store)
create_cash_advance s n = do
  validate n.amount n.dv_date n.date_return
  guard_section_89 s n.claimant_id
  deadline ← resolve_deadline s n.date_return (manila_date n.now)
  let row = new_advance s n deadline
  ok (row, insert_advance s row)

-- the writable keys of `fields`; `none` is a key that the caller did not send
pub record Changes : Type 0 where
  pub dv_no : Option (Option String)
  pub dv_date : Option (Option ℕ)
  pub dpo_no : Option (Option String)
  pub amount : Option ℤ
  pub date_return : Option (Option ℕ)

abbrev pub same_date : Option ℕ → Option ℕ → Bool
same_date none none = true
same_date (some a) (some b) = a == b
same_date _ _ = false

-- `"date_return" in changes and changes["date_return"] != row.date_return`
abbrev pub clock_moved : Option (Option ℕ) → Option ℕ → Bool
clock_moved none current = false
clock_moved (some sent) current = not (same_date sent current)

-- the `setattr` loop
abbrev pub changed : CashAdvance → Changes → CashAdvance
changed row c = record row {
  dv_no = get_or c.dv_no row.dv_no;
  dv_date = get_or c.dv_date row.dv_date;
  dpo_no = get_or c.dpo_no row.dpo_no;
  amount = get_or c.amount row.amount;
  date_return = get_or c.date_return row.date_return;
}

abbrev pub reopened : AdvanceStatus → AdvanceStatus
reopened AdvanceStatus.overdue = AdvanceStatus.opened
reopened status = status

-- `if clock_moved: ...`
unfoldable pub reclocked : Store → Bool → CashAdvance → ℕ → Result CashAdvance
reclocked s false row today = ok row
reclocked s true row today = do
  deadline ← resolve_deadline s row.date_return today
  ok (record row {
    deadline_date = deadline.0;
    deadline_basis = deadline.1;
    status = reopened row.status;
  })

unfoldable pub update_cash_advance : Store → ℕ → Changes → ℕ → Result (CashAdvance × Store)
update_cash_advance s id c now = do
  row ← get_cash_advance s id
  raise_if (is_settled row.status) Error.cash_advance_settled
  let edited = changed row c
  validate edited.amount edited.dv_date edited.date_return
  out ← reclocked s (clock_moved c.date_return row.date_return) edited (manila_date now)
  ok (out, put_advance out s)

-- The writes below return the row as they leave it, and whether they changed it.
abbrev pub may_go_overdue : AdvanceStatus → Bool
may_go_overdue AdvanceStatus.opened = true
may_go_overdue AdvanceStatus.liquidation_started = true
may_go_overdue _ = false

unfoldable pub mark_overdue : Store → CashAdvance → Bool × Store
mark_overdue s row =
    if may_go_overdue row.status
    then (true, put_advance (record row { status = AdvanceStatus.overdue }) s)
    else (false, s)

abbrev pub is_opened : AdvanceStatus → Bool
is_opened AdvanceStatus.opened = true
is_opened _ = false

unfoldable pub mark_liquidation_started : Store → CashAdvance → Bool × Store
mark_liquidation_started s row =
    if is_opened row.status
    then (true, put_advance (record row { status = AdvanceStatus.liquidation_started }) s)
    else (false, s)

-- the arguments of `mark_settled`
pub record Settling : Type 0 where
  pub actor_user_id : ℕ
  pub mode : String
  pub refund_amount : Option ℤ
  pub or_no : Option String
  pub or_date : Option ℕ
  pub now : ℕ

abbrev pub settled_row : CashAdvance → Settling → CashAdvance
settled_row row x = record row {
  status = AdvanceStatus.settled;
  settled_at = some x.now;
  settled_by = some x.actor_user_id;
  settlement_mode = some x.mode;
  refund_amount = x.refund_amount;
  refund_or_no = x.or_no;
  refund_or_date = x.or_date;
}

unfoldable pub mark_settled : Store → CashAdvance → Settling → Result (Bool × Store)
mark_settled s row x = do
  guard (is_mode x.mode) Error.value_error
  ok (if is_settled row.status then (false, s) else (true, put_advance (settled_row row x) s))

unfoldable pub link_claim : Store → Claim → CashAdvance → Claim × Store
link_claim s claim row =
    let linked = record claim {
      cash_advance_id = some row.id;
      liquidation_deadline = row.deadline_date;
    } in
    (linked, put_claim linked s)

abbrev pub mirrors : CashAdvance → Claim → Bool
mirrors row c = is_id c.cash_advance_id row.id && is_liquidation c.kind

-- the number of claims, and the store with the deadline on each
unfoldable pub remirror_deadline : Store → CashAdvance → ℕ × Store
remirror_deadline s row = (
  length (filter (mirrors row) s.claims),
  record s {
    claims =
        map
          (λ c. if mirrors row c then record c { liquidation_deadline = row.deadline_date } else c)
          s.claims;
  },
)
