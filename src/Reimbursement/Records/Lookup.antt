-- ===== src/Reimbursement/Records/Lookup.antt =====
-- The claims of the store: a row that is put is found.
use office_connect.Base.{
  ℕ, ◌≡◌, some, refl, Option, ap, ◌∙◌, List, [], ◌∷◌, ◌==◌, find?, map, if◌then◌else◌, arith,
  Bool-cases, inl, inr, find?-holds,
}
use office_connect.Reimbursement.Records.{
  CashAdvance, Claim, Store, put_claim, find_claim, put_advance, find_advance,
}

-- A row that is found under its id is found, changed, after it has been put.
pub find_claim-put_claim :
    (c : Claim) (s : Store) {old : Claim}
    → find_claim s c.id ≡ some old
    → find_claim (put_claim c s) c.id ≡ some c
unfolding find_claim put_claim
find_claim-put_claim c s {old} h = found s.claims h
  where
    found :
        (l : List Claim)
        → find? (λ x. x.id == c.id) l ≡ some old
        → find? (λ x. x.id == c.id) (map (λ x. if x.id == c.id then c else x) l) ≡ some c
    found [] h = cc
    found (x ∷ l) h = elim (Bool-cases (x.id == c.id)) [
      | inl e ↦ ground arith
      | inr e ↦ let rest = found l (ground arith) in ground arith
    ]

pub find_claim_id : (s : Store) (id : ℕ) {c : Claim} → find_claim s id ≡ some c → c.id ≡ id
unfolding find_claim
find_claim_id s id h = let e = find?-holds (λ (x : Claim). x.id == id) s.claims h in ground arith

pub put_claim_db : (c : Claim) (s : Store) → (put_claim c s).db ≡ s.db
unfolding put_claim
put_claim_db c s = refl

-- A search reads the claims only.
pub find_claim-same :
    (s t : Store) (id : ℕ) {o : Option Claim}
    → s.claims ≡ t.claims
    → find_claim t id ≡ o
    → find_claim s id ≡ o
unfolding find_claim
find_claim-same s t id e h = ap (find? (λ (x : Claim). x.id == id)) e ∙ h

pub put_claim_claims :
    (c : Claim) (s : Store)
    → (put_claim c s).claims ≡ map (λ x. if x.id == c.id then c else x) s.claims
unfolding put_claim
put_claim_claims c s = refl

pub put_claim_advances : (c : Claim) (s : Store) → (put_claim c s).advances ≡ s.advances
unfolding put_claim
put_claim_advances c s = refl

pub find_advance-put_advance :
    (a : CashAdvance) (s : Store) (id : ℕ) {old : CashAdvance}
    → a.id ≡ id
    → find_advance s id ≡ some old
    → find_advance (put_advance a s) id ≡ some a
unfolding find_advance put_advance
find_advance-put_advance a s id {old} same h = found s.advances h
  where
    found :
        (l : List CashAdvance)
        → find? (λ x. x.id == id) l ≡ some old
        → find? (λ x. x.id == id) (map (λ x. if x.id == a.id then a else x) l) ≡ some a
    found [] h = cc
    found (x ∷ l) h = elim (Bool-cases (x.id == id)) [
      | inl e ↦ ground arith
      | inr e ↦ let rest = found l (ground arith) in ground arith
    ]

-- A search reads the advances only.
pub find_advance-same :
    (s t : Store) (id : ℕ) {o : Option CashAdvance}
    → s.advances ≡ t.advances
    → find_advance t id ≡ o
    → find_advance s id ≡ o
unfolding find_advance
find_advance-same s t id e h = ap (find? (λ (x : CashAdvance). x.id == id)) e ∙ h

pub find_advance_id :
    (s : Store) (id : ℕ) {a : CashAdvance} → find_advance s id ≡ some a → a.id ≡ id
unfolding find_advance
find_advance_id s id h =
    let e = find?-holds (λ (x : CashAdvance). x.id == id) s.advances h in ground arith
