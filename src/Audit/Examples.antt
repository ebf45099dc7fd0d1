-- ===== src/Audit/Examples.antt =====
-- A log of a created claim and a logout, under a digest that is the text itself with a mark after it.
use office_connect.Base.{
  ℕ, ◌≡◌, ◌≢◌, ◌⊎◌, refl, false, none, some, inl, inr, Bool-cases, eq_iff, [], ◌∷◌, String,
}
use office_connect.Base.Attempts.{ok}
use office_connect.Json.{Json, Fields}
use office_connect.Audit.{
  AuditLog, Pending, Context, Log, AuthEvent, append_auth_event, write_audit_rows, verify_chain,
  compute_row_hash, payload_of,
}
use office_connect.Audit.Chain.{Written, Written-verify_chain}
use office_connect.Audit.Tampered.{Collision, verify_chain-reports}
use Prim.Native.String.{◌++◌ as append}
use text.Mathlib.TextLemmas.{append-ne-nil_of_right_ne-nil}
use package.text.Mathlib.Text.{◌==◌ as str_eq}

-- enough of `json.dumps` to tell tables apart
abbrev table_of : Json → String
table_of (Json.obj (Fields.field key (Json.text table) fields)) = table
table_of other = ""

abbrev marked : String → String
marked text = append text "#"

abbrev iso : ℕ → String
iso t = ""

marked_nonempty : (text : String) → str_eq (marked text) "" ≡ false
marked_nonempty text = elim (Bool-cases (str_eq (marked text) "")) [
  | inr other ↦ other
  | inl same ↦ absurd (
      append-ne-nil_of_right_ne-nil text (λ e. let t = (eq_iff "#" "").1 e in cc)
        ((eq_iff (marked text) "").0 same))
]

abbrev request : Context
request = record { actor_id = some 1; request_id = none }

abbrev created : Pending
created = record {
  table = "claims";
  row_pk = 4;
  action = "insert";
  excluded = "secret" ∷ [];
  columns = Fields.field "secret" (Json.text "x") Fields.end;
  old_diff = none;
  new_diff = none;
  at = 100;
}

abbrev logout : AuthEvent
logout = record {
  event = "auth.logout";
  subject_user_id = 1;
  actor_id = none;
  request_id = none;
  event_data = Fields.end;
  table_name = "core_sessions";
  row_pk = none;
  at = 120;
}

abbrev empty : Log
empty = record { rows = []; next_id = 1 }

abbrev after_claim : Log
after_claim = write_audit_rows table_of marked iso empty request (created ∷ [])

abbrev claim_row : AuditLog
claim_row = record {
  id = 1;
  created_at = 100;
  actor_id = some 1;
  request_id = none;
  table_name = "claims";
  row_pk = 4;
  action = "insert";
  old_data = none;
  new_data = some (Fields.field "secret" (Json.text "[redacted]") Fields.end);
  prev_hash = "0000000000000000000000000000000000000000000000000000000000000000";
  row_hash = "0000000000000000000000000000000000000000000000000000000000000000|claims#";
}

abbrev logout_row : AuditLog
logout_row = record claim_row {
  id = 2;
  created_at = 120;
  table_name = "core_sessions";
  row_pk = 1;
  new_data = some (Fields.field "event" (Json.text "auth.logout") Fields.end);
  prev_hash = "0000000000000000000000000000000000000000000000000000000000000000|claims#";
  row_hash =
      "0000000000000000000000000000000000000000000000000000000000000000|claims#|core_sessions#";
}

abbrev both : Log
both = record { rows = claim_row ∷ logout_row ∷ []; next_id = 3 }

logged_out : append_auth_event table_of marked iso after_claim request logout ≡ ok both
unfolding append_auth_event write_audit_rows compute_row_hash
logged_out = refl

both-Written : Written table_of marked iso both
both-Written =
    Written.appended request logout (Written.flushed request (created ∷ []) (Written.empty_log 1))
      logged_out

Written-verify_chain_example : verify_chain table_of marked iso both.rows ≡ none
Written-verify_chain_example = Written-verify_chain table_of marked iso marked_nonempty both-Written

abbrev forged : AuditLog
forged = record claim_row { table_name = "holidays" }

other_table :
    table_of (payload_of table_of marked iso claim_row)
    ≢ table_of (payload_of table_of marked iso forged)
other_table e = cc

verify_chain-reports_example :
    (verify_chain table_of marked iso (forged ∷ logout_row ∷ []) ≡ some 1)
    ⊎ (verify_chain table_of marked iso (forged ∷ logout_row ∷ []) ≡ some 2)
    ⊎ Collision marked
verify_chain-reports_example =
    verify_chain-reports table_of marked iso [] [] claim_row forged logout_row
      Written-verify_chain_example other_table
