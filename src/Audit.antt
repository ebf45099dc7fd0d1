-- ===== src/Audit.antt =====
-- office_connect/core/audit.py: the hash-chained audit trail, on a log in id order. `json.dumps` with sorted
-- keys, SHA-256 and the ISO form of a time are parameters; a column value is already in its JSON form.
-- An advisory lock serialises the writers, so each call is one step.
pub mod Chain
pub mod Tampered
mod Examples
use office_connect.Base.{
  ℕ, suc, ◌+◌, Bool, true, false, not, ◌&&◌, ◌||◌, Option, none, some, List, [], ◌∷◌, ◌++◌, String,
  any, if◌then◌else◌, ◌≡◌,
}
use office_connect.Base.Int.{pos}
use office_connect.Base.Attempts.{Attempt, ok, err, raise_if, ◌>>=◌, ◌>>◌}
use office_connect.Json.{Json, Fields, put_field}
use Prim.Native.String.{◌++◌ as append}
use package.text.Mathlib.Text.{◌==◌ as str_eq}

-- models/audit_log.py
pub record AuditLog : Type 0 where
  pub id : ℕ
  pub created_at : ℕ
  pub actor_id : Option ℕ
  pub request_id : Option String
  pub table_name : String
  pub row_pk : ℕ
  pub action : String
  pub old_data : Option Fields
  pub new_data : Option Fields
  pub prev_hash : String
  pub row_hash : String

abbrev pub genesis_hash : String
genesis_hash = "0000000000000000000000000000000000000000000000000000000000000000"

abbrev pub id_json : Option ℕ → Json
id_json none = Json.null
id_json (some n) = Json.int (pos n)

abbrev pub text_json : Option String → Json
text_json none = Json.null
text_json (some s) = Json.text s

abbrev pub fields_json : Option Fields → Json
fields_json none = Json.null
fields_json (some fields) = Json.obj fields

-- the marker of `_REDACTED`, unless the value is None
abbrev pub redacted : Json → Json
redacted Json.null = Json.null
redacted value = Json.text "[redacted]"

abbrev pub listed : String → List String → Bool
listed key excluded = any (λ k. str_eq k key) excluded

-- the row image of an insert
abbrev pub image : List String → Fields → Fields
image excluded Fields.end = Fields.end
image excluded (Fields.field k v columns) =
    let rest = image excluded columns in
    Fields.field k (if listed k excluded then redacted v else v) rest

-- what `_capture_changes` left for one object, with its columns after the flush and the clock
pub record Pending : Type 0 where
  pub table : String
  pub row_pk : ℕ
  pub action : String
  pub excluded : List String
  pub columns : Fields
  pub old_diff : Option Fields
  pub new_diff : Option Fields
  pub at : ℕ

abbrev pub is_insert : Pending → Bool
is_insert p = str_eq p.action "insert"

abbrev pub old_of : Pending → Option Fields
old_of p = if is_insert p then none else p.old_diff

abbrev pub new_of : Pending → Option Fields
new_of p = if is_insert p then some (image p.excluded p.columns) else p.new_diff

-- `session.info`
pub record Context : Type 0 where
  pub actor_id : Option ℕ
  pub request_id : Option String

-- the table, with the id that the database hands out next
pub record Log : Type 0 where
  pub rows : List AuditLog
  pub next_id : ℕ

-- `scalar_one_or_none() or GENESIS_HASH`
abbrev pub or_genesis : String → String
or_genesis hash = if str_eq hash "" then genesis_hash else hash

abbrev pub last_hash : List AuditLog → String
last_hash [] = genesis_hash
last_hash (row ∷ []) = or_genesis row.row_hash
last_hash (row ∷ next ∷ rows) = last_hash (next ∷ rows)

-- the arguments of `append_auth_event`
pub record AuthEvent : Type 0 where
  pub event : String
  pub subject_user_id : ℕ
  pub actor_id : Option ℕ
  pub request_id : Option String
  pub event_data : Fields
  pub table_name : String
  pub row_pk : Option ℕ
  pub at : ℕ

-- the `ValueError`
pub data Refusal : Type 0 where
  forbidden_key : Refusal

abbrev pub forbidden_event_keys : List String
forbidden_event_keys =
    "password" ∷ "password_hash" ∷ "mfa_secret" ∷ "secret" ∷ "session_id" ∷ "sid" ∷ "code" ∷ "totp"
    ∷ "token" ∷ []

abbrev pub carries_secret : Fields → Bool
carries_secret Fields.end = false
carries_secret (Fields.field k v fields) = listed k forbidden_event_keys || carries_secret fields

-- `{**fields, **data}`
abbrev pub merge : Fields → Fields → Fields
merge fields Fields.end = fields
merge fields (Fields.field k v more) = merge (put_field k v fields) more

abbrev pub given_or {ℓ} : {A : Type ℓ} → Option A → A → A
given_or none x = x
given_or (some y) x = y

abbrev pub given_or_else {ℓ} : {A : Type ℓ} → Option A → Option A → Option A
given_or_else none x = x
given_or_else (some y) x = some y

module _ (dumps : Json → String) (sha256 : String → String) (isoformat : ℕ → String) where
  -- `build_payload`, of the columns of a row
  abbrev pub payload_of : AuditLog → Json
  payload_of row = Json.obj (
      Fields.field "table" (Json.text row.table_name) (
        Fields.field "row_pk" (Json.int (pos row.row_pk)) (
          Fields.field "action" (Json.text row.action) (
            Fields.field "actor_id" (id_json row.actor_id) (
              Fields.field "request_id" (text_json row.request_id) (
                Fields.field "at" (Json.text (isoformat row.created_at)) (
                  Fields.field "old" (fields_json row.old_data)
                    (Fields.field "new" (fields_json row.new_data) Fields.end))))))))

  abbrev pub hashed_text : String → Json → String
  hashed_text prev payload = append prev (append "|" (dumps payload))

  unfoldable pub compute_row_hash : String → Json → String
  compute_row_hash prev payload = sha256 (hashed_text prev payload)

  -- the loop of `verify_chain`
  unfoldable pub verify_from : String → List AuditLog → Option ℕ
  verify_from prev [] = none
  verify_from prev (row ∷ rows) =
      let rest = verify_from row.row_hash rows in
      if not (str_eq row.prev_hash prev)
        || not (str_eq row.row_hash (compute_row_hash prev (payload_of row)))
      then some row.id
      else rest

  unfoldable pub verify_chain : List AuditLog → Option ℕ
  unfolding verify_from
  verify_chain rows = verify_from genesis_hash rows

  -- the row is hashed under the columns that it is inserted with
  abbrev pub sealed : String → AuditLog → AuditLog
  sealed prev row = record row {
    prev_hash = prev;
    row_hash = compute_row_hash prev (payload_of row);
  }

  abbrev pub pending_row : Context → ℕ → Pending → AuditLog
  pending_row context id p = record {
    id = id;
    created_at = p.at;
    actor_id = context.actor_id;
    request_id = context.request_id;
    table_name = p.table;
    row_pk = p.row_pk;
    action = p.action;
    old_data = old_of p;
    new_data = new_of p;
    prev_hash = "";
    row_hash = "";
  }

  -- the loop of `_write_audit_rows`
  abbrev pub chained : Context → String → ℕ → List Pending → List AuditLog
  chained context prev id [] = []
  chained context prev id (p ∷ ps) =
      let row = sealed prev (pending_row context id p) in
      row ∷ chained context row.row_hash (suc id) ps

  abbrev pub count_of : List Pending → ℕ
  count_of [] = 0
  count_of (p ∷ ps) = suc (count_of ps)

  unfoldable pub write_audit_rows : Log → Context → List Pending → Log
  write_audit_rows log context pending = record {
    rows = log.rows ++ chained context (last_hash log.rows) log.next_id pending;
    next_id = log.next_id + count_of pending;
  }

  abbrev pub event_row : Context → ℕ → AuthEvent → AuditLog
  event_row context id e = record {
    id = id;
    created_at = e.at;
    actor_id = given_or_else e.actor_id context.actor_id;
    request_id = given_or_else e.request_id context.request_id;
    table_name = e.table_name;
    row_pk = given_or e.row_pk e.subject_user_id;
    action = "insert";
    old_data = none;
    new_data = some (merge (Fields.field "event" (Json.text e.event) Fields.end) e.event_data);
    prev_hash = "";
    row_hash = "";
  }

  unfoldable pub append_auth_event : Log → Context → AuthEvent → Attempt Refusal Log
  unfolding put_field
  append_auth_event log context e =
      raise_if (carries_secret e.event_data) Refusal.forbidden_key
      >> ok (record {
        rows = log.rows ++ sealed (last_hash log.rows) (event_row context log.next_id e) ∷ [];
        next_id = log.next_id + 1;
      })
