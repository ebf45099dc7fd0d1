-- ===== src/Workflow/Segregation.antt =====
-- office_connect/core/maker_checker.py: no self-approval, and a distinct person for each slot.
use office_connect.Base.{
  ℕ, ◌≡◌, ◌≢◌, ◌↔◌, ◌∙◌, sym, refl, Bool, true, false, List, [], ◌∷◌, any, ◌==◌, arith, All,
  Bool-cases, inl, inr, if◌then◌else◌,
}
use office_connect.Workflow.Result.{Error, Result, ok, err}

-- `x in xs`
abbrev pub member : ℕ → List ℕ → Bool
member x = any (λ y. y == x)

-- the `for cid in checkers` over the set `seen`
pub distinct_from : List ℕ → List ℕ → Result (Unit {0})
distinct_from seen [] = ok tt
distinct_from seen (c ∷ cs) =
    let rest = distinct_from (c ∷ seen) cs in
    if member c seen then err Error.segregation_of_duties else rest

unfoldable pub assert_segregation : ℕ → List ℕ → Result (Unit {0})
unfolding distinct_from
assert_segregation maker_id checker_ids =
    if member maker_id checker_ids
    then err Error.segregation_of_duties
    else distinct_from [] checker_ids

-- Every two entries differ.
abbrev pub Distinct : List ℕ → Type 0
Distinct [] = Unit
Distinct (x ∷ xs) = All (λ y. x ≢ y) xs × Distinct xs

not-member : (x : ℕ) (xs : List ℕ) → member x xs ≡ false → All (λ y. x ≢ y) xs
not-member x [] h = tt
not-member x (y ∷ ys) h = (λ e. ground arith, not-member x ys (ground arith))

member-false : (x : ℕ) (xs : List ℕ) → All (λ y. x ≢ y) xs → member x xs ≡ false
member-false x [] h = refl
member-false x (y ∷ ys) h = let apart = h.0 in ground (arith, member-false x ys h.1)

abbrev ApartFrom : List ℕ → ℕ → Type 0
ApartFrom seen c = All (λ s. c ≢ s) seen

split_apart :
    (c : ℕ) (seen cs : List ℕ)
    → All (ApartFrom (c ∷ seen)) cs
    → All (λ y. c ≢ y) cs × All (ApartFrom seen) cs
split_apart c seen [] h = (tt, tt)
split_apart c seen (x ∷ cs) h =
    let rest = split_apart c seen cs h.1 in ((λ e. h.0.0 (sym e), rest.0), (h.0.1, rest.1))

join_apart :
    (c : ℕ) (seen cs : List ℕ)
    → All (λ y. c ≢ y) cs
    → All (ApartFrom seen) cs
    → All (ApartFrom (c ∷ seen)) cs
join_apart c seen [] h k = tt
join_apart c seen (x ∷ cs) h k = ((λ e. h.0 (sym e), k.0), join_apart c seen cs h.1 k.1)

distinct_new :
    (c : ℕ) (seen cs : List ℕ)
    → member c seen ≡ false
    → distinct_from seen (c ∷ cs) ≡ distinct_from (c ∷ seen) cs
unfolding distinct_from
distinct_new c seen cs new = ground arith

distinct_old :
    (c : ℕ) (seen cs : List ℕ)
    → member c seen ≡ true
    → distinct_from seen (c ∷ cs) ≡ err Error.segregation_of_duties
unfolding distinct_from
distinct_old c seen cs old = ground arith

distinct_from-Distinct :
    (seen cs : List ℕ) → (distinct_from seen cs ≡ ok tt) ↔ (Distinct cs × All (ApartFrom seen) cs)
distinct_from-Distinct seen [] = (λ h. (tt, tt), λ h. unfold distinct_from in refl)
distinct_from-Distinct seen (c ∷ cs) = elim (Bool-cases (member c seen)) [
  | inl old ↦ (λ h. cc (h, distinct_old c seen cs old), λ h. cc (old, member-false c seen h.1.0))
  | inr new ↦
      let (forth, back) = distinct_from-Distinct (c ∷ seen) cs in
      (
        λ h.
            let (distinct, apart) = forth (sym (distinct_new c seen cs new) ∙ h) in
            let (from_c, from_seen) = split_apart c seen cs apart in
            ((from_c, distinct), (not-member c seen new, from_seen)),
        λ h. distinct_new c seen cs new ∙ back (h.0.1, join_apart c seen cs h.0.0 h.1.1),
      )
]

unseen : (cs : List ℕ) → All (ApartFrom []) cs
unseen [] = tt
unseen (c ∷ cs) = (tt, unseen cs)

-- The check passes exactly when the maker is none of the checkers and no two checkers are the same
-- person; otherwise it raises `segregation_of_duties`.
pub assert_segregation-passes :
    (maker : ℕ) (checkers : List ℕ)
    → (assert_segregation maker checkers ≡ ok tt)
      ↔ (All (λ c. maker ≢ c) checkers × Distinct checkers)
unfolding assert_segregation
assert_segregation-passes maker checkers = elim (Bool-cases (member maker checkers)) [
  | inl same ↦ (λ h. ground arith, λ h. cc (same, member-false maker checkers h.0))
  | inr other ↦
      let (forth, back) = distinct_from-Distinct [] checkers in
      (
        λ h. (not-member maker checkers other, (forth (ground arith)).0),
        λ h. let passed = back (h.1, unseen checkers) in ground arith,
      )
]
