-- ===== src/Reimbursement/Status.antt =====
-- office_connect/modules/reimbursement/services/status.py: the status vocabulary of each kind of
-- claim. The display labels are left out. A mapping is a list of its entries.
use office_connect.Base.{Bool, Option, none, some, List, [], ◌∷◌, String, any, if◌then◌else◌}
use office_connect.Reimbursement.Records.{ClaimKind}
use text.Mathlib.Text.{◌==◌ as str_eq}

abbrev pub draft : String
draft = "draft"

abbrev pub returned : String
returned = "returned"

abbrev pub handed_to_fms : String
handed_to_fms = "handed_to_fms"

abbrev pub cancelled : String
cancelled = "cancelled"

abbrev pub division_approval : String
division_approval = "division_approval"

abbrev pub admin_review : String
admin_review = "admin_review"

abbrev pub fms_returned : String
fms_returned = "fms_returned"

abbrev pub paid_closed : String
paid_closed = "paid_closed"

abbrev pub certify_b : String
certify_b = "certify_b"

abbrev pub certify_c : String
certify_c = "certify_c"

abbrev pub settled : String
settled = "settled"

abbrev pub in_bureau : String
in_bureau = "in_bureau"

abbrev pub with_fms : String
with_fms = "with_fms"

abbrev pub board_done : String
board_done = "done"

abbrev pub board_columns : List String
board_columns = in_bureau ∷ with_fms ∷ board_done ∷ []

abbrev pub Mapping : Type 0
Mapping = List (String × Option String)

pub record Vocabulary : Type 0 where
  pub all_states : List String
  pub terminal : List String
  pub claimant : List String
  pub external : List String
  pub next_action : Mapping
  pub board_column : Mapping

abbrev pub reimbursement : Vocabulary
reimbursement = record {
  all_states =
      draft ∷ division_approval ∷ admin_review ∷ handed_to_fms ∷ fms_returned ∷ returned
      ∷ paid_closed ∷ cancelled ∷ [];
  terminal = paid_closed ∷ cancelled ∷ [];
  claimant = draft ∷ returned ∷ [];
  external = handed_to_fms ∷ [];
  next_action =
      (draft, some "Complete your packet")
      ∷ (division_approval, some "Approve or return")
      ∷ (admin_review, some "Final check & print packet")
      ∷ (handed_to_fms, some "Waiting on FMS — update status")
      ∷ (fms_returned, some "Relay FMS comments")
      ∷ (returned, some "Fix and resubmit")
      ∷ (paid_closed, none)
      ∷ (cancelled, none)
      ∷ [];
  board_column =
      (draft, none)
      ∷ (division_approval, some in_bureau)
      ∷ (admin_review, some in_bureau)
      ∷ (handed_to_fms, some with_fms)
      ∷ (fms_returned, some in_bureau)
      ∷ (returned, some in_bureau)
      ∷ (paid_closed, some board_done)
      ∷ (cancelled, none)
      ∷ [];
}

abbrev pub liquidation : Vocabulary
liquidation = record {
  all_states = draft ∷ certify_b ∷ certify_c ∷ handed_to_fms ∷ returned ∷ settled ∷ cancelled ∷ [];
  terminal = settled ∷ cancelled ∷ [];
  claimant = draft ∷ returned ∷ [];
  external = handed_to_fms ∷ [];
  next_action =
      (draft, some "Complete your liquidation")
      ∷ (certify_b, some "Certify or return")
      ∷ (certify_c, some "Record the Accounting certification")
      ∷ (handed_to_fms, some "Waiting on FMS — update status")
      ∷ (returned, some "Fix and resubmit")
      ∷ (settled, none)
      ∷ (cancelled, none)
      ∷ [];
  board_column =
      (draft, none)
      ∷ (certify_b, some in_bureau)
      ∷ (certify_c, some in_bureau)
      ∷ (handed_to_fms, some with_fms)
      ∷ (returned, some in_bureau)
      ∷ (settled, some board_done)
      ∷ (cancelled, none)
      ∷ [];
}

abbrev pub vocabulary : ClaimKind → Vocabulary
vocabulary ClaimKind.reimbursement = reimbursement
vocabulary ClaimKind.liquidation = liquidation

abbrev pub member : String → List String → Bool
member code = any (λ s. str_eq s code)

-- `mapping.get(code)`
unfoldable pub get : Mapping → String → Option String
get [] code = none
get ((state, value) ∷ rest) code = if str_eq state code then value else get rest code

unfoldable pub board_column : ClaimKind → Option String → Option String
unfolding get
board_column kind none = none
board_column kind (some status) = get (vocabulary kind).board_column status
