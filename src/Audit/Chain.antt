-- ===== src/Audit/Chain.antt =====
-- core/audit.py: the logs that the writers leave, under verify_chain.
use office_connect.Base.{
  ℕ, suc, ◌≡◌, refl, sym, subst, inl, inr, false, not, ◌||◌, Option, none, some, List, [], ◌∷◌,
  ◌++◌, String, Bool-cases, eq_iff,
}
use office_connect.Base.Attempts.{ok, raise_if-eq-ok, ok-injective}
use office_connect.Json.{Json}
use office_connect.Audit.{
  AuditLog, genesis_hash, Pending, Context, Log, last_hash, AuthEvent, Refusal, carries_secret,
  payload_of, compute_row_hash, verify_from, verify_chain, sealed, pending_row, chained,
  write_audit_rows, event_row, append_auth_event,
}
use package.text.Mathlib.Text.{◌==◌ as str_eq}

-- the hash that the row after these rows is chained to
abbrev pub end_hash : String → List AuditLog → String
end_hash prev [] = prev
end_hash prev (row ∷ rows) = end_hash row.row_hash rows

module _ (dumps : Json → String) (sha256 : String → String) (isoformat : ℕ → String) where
  abbrev pub verified : String → List AuditLog → Option ℕ
  verified = verify_from dumps sha256 isoformat

  verify-append :
      (prev : String) (xs ys : List AuditLog)
      → verified prev xs ≡ none
      → verified (end_hash prev xs) ys ≡ none
      → verified prev (xs ++ ys) ≡ none
  unfolding verify_from
  verify-append prev [] ys hx hy = hy
  verify-append prev (row ∷ xs) ys hx hy =
      let bad =
        not (str_eq row.prev_hash prev)
        || not (
            str_eq row.row_hash (
              compute_row_hash dumps sha256 isoformat prev
                (payload_of dumps sha256 isoformat row))) in
      elim (Bool-cases bad) [
        | inl broken ↦ (let stuck : some row.id ≡ none = rw broken at hx in cc)
        | inr good ↦ rw good (verify-append row.row_hash xs ys (rw good at hx) hy)
      ]

  sealed_ok :
      (prev : String) (row : AuditLog) (rows : List AuditLog)
      → verified (sealed dumps sha256 isoformat prev row).row_hash rows ≡ none
      → verified prev (sealed dumps sha256 isoformat prev row ∷ rows) ≡ none
  unfolding verify_from
  sealed_ok prev row rows h =
      let hash = (sealed dumps sha256 isoformat prev row).row_hash in
      let same = (eq_iff prev prev).1 refl in
      let same_hash = (eq_iff hash hash).1 refl in rw (same, same_hash) h

  chained_ok :
      (context : Context) (prev : String) (id : ℕ) (pending : List Pending)
      → verified prev (chained dumps sha256 isoformat context prev id pending) ≡ none
  unfolding verify_from
  chained_ok context prev id [] = refl
  chained_ok context prev id (p ∷ ps) =
      sealed_ok prev (pending_row dumps sha256 isoformat context id p)
        (chained dumps sha256 isoformat context
          (sealed dumps sha256 isoformat prev
            (pending_row dumps sha256 isoformat context id p)).row_hash
          (suc id) ps)
        (chained_ok context
          (sealed dumps sha256 isoformat prev
            (pending_row dumps sha256 isoformat context id p)).row_hash
          (suc id) ps)

  -- A row that verifies has the hash of its text, and the rows after it verify from that hash.
  pub verified_row :
      (prev : String) (row : AuditLog) (rows : List AuditLog)
      → verified prev (row ∷ rows) ≡ none
      → (row.row_hash
          ≡ compute_row_hash dumps sha256 isoformat prev (payload_of dumps sha256 isoformat row))
        × (row.prev_hash ≡ prev)
        × (verified row.row_hash rows ≡ none)
  unfolding verify_from
  verified_row prev row rows h =
      let computed =
        compute_row_hash dumps sha256 isoformat prev (payload_of dumps sha256 isoformat row) in
      elim (Bool-cases (str_eq row.prev_hash prev)) [
        | inr other ↦ (let stuck : some row.id ≡ none = rw other at h in cc)
        | inl linked ↦ elim (Bool-cases (str_eq row.row_hash computed)) [
          | inr other ↦ (let stuck : some row.id ≡ none = rw (linked, other) at h in cc)
          | inl sound ↦ (
            (eq_iff row.row_hash computed).0 sound,
            (eq_iff row.prev_hash prev).0 linked,
            rw (linked, sound) at h,
          )
        ]
      ]

  module _ (nonempty : (text : String) → str_eq (sha256 text) "" ≡ false) where
    last_hash_end :
        (prev : String) (row : AuditLog) (rows : List AuditLog)
        → verified prev (row ∷ rows) ≡ none
        → last_hash (row ∷ rows) ≡ end_hash prev (row ∷ rows)
    unfolding compute_row_hash
    last_hash_end prev row [] h =
        let (hash, link, rest) = verified_row prev row [] h in
        let some_hash : str_eq row.row_hash "" ≡ false =
          subst (λ (x : String). str_eq x "" ≡ false) (sym hash) (nonempty _) in
        rw some_hash refl
    last_hash_end prev row (next ∷ rows) h =
        let (hash, link, rest) = verified_row prev row (next ∷ rows) h in
        last_hash_end row.row_hash next rows rest

    last_hash_chain :
        (rows : List AuditLog)
        → verified genesis_hash rows ≡ none
        → last_hash rows ≡ end_hash genesis_hash rows
    last_hash_chain [] h = refl
    last_hash_chain (row ∷ rows) h = last_hash_end genesis_hash row rows h

    extended :
        (rows more : List AuditLog)
        → verified genesis_hash rows ≡ none
        → verified (last_hash rows) more ≡ none
        → verified genesis_hash (rows ++ more) ≡ none
    extended rows more hx hy =
        verify-append genesis_hash rows more hx
          (subst (λ (x : String). verified x more ≡ none) (last_hash_chain rows hx) hy)

-- The logs that the two writers lead to, from an empty one.
pub data Written (dumps : Json → String) (sha256 : String → String) (isoformat : ℕ → String)
    : Log → Type 0 where
  empty_log :
      (next_id : ℕ) → Written dumps sha256 isoformat (record { rows = []; next_id = next_id })
  flushed :
      {log : Log} (context : Context) (pending : List Pending)
      → Written dumps sha256 isoformat log
      → Written dumps sha256 isoformat (write_audit_rows dumps sha256 isoformat log context pending)
  appended :
      {log after : Log} (context : Context) (e : AuthEvent)
      → Written dumps sha256 isoformat log
      → append_auth_event dumps sha256 isoformat log context e ≡ ok after
      → Written dumps sha256 isoformat after

-- Every log that flushes and authentication events write, from an empty one, passes verify_chain; the digest
-- is never the empty text.
pub Written-verify_chain :
    (dumps : Json → String) (sha256 : String → String) (isoformat : ℕ → String)
    → ((text : String) → str_eq (sha256 text) "" ≡ false)
    → {log : Log} → Written dumps sha256 isoformat log
    → verify_chain dumps sha256 isoformat log.rows ≡ none
unfolding verify_chain verify_from write_audit_rows append_auth_event
Written-verify_chain dumps sha256 isoformat nonempty (Written.empty_log next_id) = refl
Written-verify_chain dumps sha256 isoformat nonempty
      (Written.flushed {log = log} context pending written) =
    extended dumps sha256 isoformat nonempty log.rows
      (chained dumps sha256 isoformat context (last_hash log.rows) log.next_id pending)
      (Written-verify_chain dumps sha256 isoformat nonempty written)
      (chained_ok dumps sha256 isoformat context (last_hash log.rows) log.next_id pending)
Written-verify_chain dumps sha256 isoformat nonempty
      (Written.appended {log = log} context e written h) =
    let (clean, rest) = raise_if-eq-ok (carries_secret e.event_data) Refusal.forbidden_key _ h in
    let row = event_row dumps sha256 isoformat context log.next_id e in
    subst (λ (x : Log). verify_chain dumps sha256 isoformat x.rows ≡ none) (ok-injective rest)
      (extended dumps sha256 isoformat nonempty log.rows
        (sealed dumps sha256 isoformat (last_hash log.rows) row ∷ [])
        (Written-verify_chain dumps sha256 isoformat nonempty written)
        (sealed_ok dumps sha256 isoformat (last_hash log.rows) row [] refl))
