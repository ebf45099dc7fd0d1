-- ===== src/Audit/Tampered.antt =====
-- core/audit.py: logs in which a row was rewritten, under verify_chain.
use office_connect.Base.{
  ℕ, ◌≡◌, ◌≢◌, ◌⊎◌, refl, sym, ◌∙◌, inl, inr, false, none, some, List, [], ◌∷◌, ◌++◌, String,
  Bool-cases, eq_iff,
}
use office_connect.Json.{Json}
use office_connect.Audit.{
  AuditLog, genesis_hash, payload_of, compute_row_hash, hashed_text, verify_from, verify_chain,
}
use office_connect.Audit.Chain.{end_hash, verified, verified_row}
use text.Mathlib.TextLemmas.{append_cancel_left}
use package.text.Mathlib.Text.{◌==◌ as str_eq}

-- Two different texts with one digest.
abbrev pub Collision : (String → String) → Type 0
Collision sha256 = (a b : String) × (a ≢ b) × (sha256 a ≡ sha256 b)

unlinked_hash :
    {a b c x y : String} → a ≡ b → b ≡ x → c ≡ y → str_eq y x ≡ false → str_eq a c ≡ false
unlinked_hash {a} {b} {c} {x} {y} ab bx cy apart = elim (Bool-cases (str_eq a c)) [
  | inr other ↦ other
  | inl same ↦
      let e = (eq_iff y x).1 (sym cy ∙ sym ((eq_iff a c).0 same) ∙ ab ∙ bx) in
      absurd (cc (e, apart))
]

module _ (dumps : Json → String) (sha256 : String → String) (isoformat : ℕ → String) where
  verify-split :
      (prev : String) (xs ys : List AuditLog)
      → verified dumps sha256 isoformat prev (xs ++ ys) ≡ none
      → verified dumps sha256 isoformat prev xs ≡ none
        × (verified dumps sha256 isoformat (end_hash prev xs) ys ≡ none)
  unfolding verify_from
  verify-split prev [] ys h = (refl, h)
  verify-split prev (row ∷ xs) ys h =
      let (hash, link, rest) = verified_row dumps sha256 isoformat prev row (xs ++ ys) h in
      let (front, back) = verify-split row.row_hash xs ys rest in
      let same = (eq_iff row.prev_hash prev).1 link in
      let same_hash = (eq_iff row.row_hash _).1 hash in (rw (same, same_hash) front, back)

  verify-prefix :
      (prev : String) (xs ys : List AuditLog)
      → verified dumps sha256 isoformat prev xs ≡ none
      → verified dumps sha256 isoformat prev (xs ++ ys)
        ≡ verified dumps sha256 isoformat (end_hash prev xs) ys
  unfolding verify_from
  verify-prefix prev [] ys h = refl
  verify-prefix prev (row ∷ xs) ys h =
      let (hash, link, rest) = verified_row dumps sha256 isoformat prev row xs h in
      let same = (eq_iff row.prev_hash prev).1 link in
      let same_hash = (eq_iff row.row_hash _).1 hash in
      rw (same, same_hash) (verify-prefix row.row_hash xs ys rest)

  abbrev hash_of : String → AuditLog → String
  hash_of prev row =
      compute_row_hash dumps sha256 isoformat prev (payload_of dumps sha256 isoformat row)

  -- Rows with different contents, chained to one hash, have different hashes, or the digest collides.
  other_hash :
      (prev : String) (row row' : AuditLog)
      → dumps (payload_of dumps sha256 isoformat row)
        ≢ dumps (payload_of dumps sha256 isoformat row')
      → (str_eq (hash_of prev row') (hash_of prev row) ≡ false) ⊎ Collision sha256
  unfolding compute_row_hash
  other_hash prev row row' differ =
      let text = hashed_text dumps sha256 isoformat prev (payload_of dumps sha256 isoformat row) in
      let text' =
        hashed_text dumps sha256 isoformat prev (payload_of dumps sha256 isoformat row') in
      elim (Bool-cases (str_eq (hash_of prev row') (hash_of prev row))) [
        | inr apart ↦ inl apart
        | inl same ↦ inr (
          text',
          text,
          λ e. differ (sym (append_cancel_left "|" _ _ (append_cancel_left prev _ _ e))),
          (eq_iff (hash_of prev row') (hash_of prev row)).0 same,
        )
      ]

  at_row :
      (prev : String) (row row' next : AuditLog) (ys : List AuditLog)
      → verified dumps sha256 isoformat prev (row ∷ next ∷ ys) ≡ none
      → dumps (payload_of dumps sha256 isoformat row)
        ≢ dumps (payload_of dumps sha256 isoformat row')
      → (verified dumps sha256 isoformat prev (row' ∷ next ∷ ys) ≡ some row'.id)
        ⊎ (verified dumps sha256 isoformat prev (row' ∷ next ∷ ys) ≡ some next.id)
        ⊎ Collision sha256
  unfolding verify_from
  at_row prev row row' next ys h differ =
      let (hash, link, rest) = verified_row dumps sha256 isoformat prev row (next ∷ ys) h in
      let (next_hash, next_link, more) =
        verified_row dumps sha256 isoformat row.row_hash next ys rest in
      elim (Bool-cases (str_eq row'.prev_hash prev)) [
        | inr unlinked ↦ inl (rw unlinked refl)
        | inl linked ↦ elim (Bool-cases (str_eq row'.row_hash (hash_of prev row'))) [
          | inr wrong ↦ inl (rw (linked, wrong) refl)
          | inl recomputed ↦ elim (other_hash prev row row' differ) [
            | inr collision ↦ inr (inr collision)
            | inl apart ↦
                let e = (eq_iff row'.row_hash (hash_of prev row')).0 recomputed in
                let broken : str_eq next.prev_hash row'.row_hash ≡ false =
                  unlinked_hash next_link hash e apart in
                inr (inl (rw (linked, recomputed, broken) refl))
          ]
        ]
      ]

-- Tampering shows: in a log that verifies, a row with a row after it is replaced by one with other contents,
-- with whatever hashes. Then verify_chain reports that row or the next one, or two texts with one digest are
-- known.
pub verify_chain-reports :
    (dumps : Json → String) (sha256 : String → String) (isoformat : ℕ → String)
    (xs ys : List AuditLog) (row row' next : AuditLog)
    → verify_chain dumps sha256 isoformat (xs ++ row ∷ next ∷ ys) ≡ none
    → dumps (payload_of dumps sha256 isoformat row) ≢ dumps (payload_of dumps sha256 isoformat row')
    → (verify_chain dumps sha256 isoformat (xs ++ row' ∷ next ∷ ys) ≡ some row'.id)
      ⊎ (verify_chain dumps sha256 isoformat (xs ++ row' ∷ next ∷ ys) ≡ some next.id)
      ⊎ Collision sha256
unfolding verify_chain
verify_chain-reports dumps sha256 isoformat xs ys row row' next h differ =
    let (front, back) = verify-split dumps sha256 isoformat genesis_hash xs (row ∷ next ∷ ys) h in
    let same = verify-prefix dumps sha256 isoformat genesis_hash xs (row' ∷ next ∷ ys) front in
    elim (at_row dumps sha256 isoformat (end_hash genesis_hash xs) row row' next ys back differ) [
      | inl here_row ↦ inl (same ∙ here_row)
      | inr (inl next_row) ↦ inr (inl (same ∙ next_row))
      | inr (inr collision) ↦ inr (inr collision)
    ]
