-- ===== src/Reimbursement/Deadline/Rule.antt =====
-- What rules the configuration can yield, and when reading it raises.
use office_connect.Base.{◌≡◌, ◌⊎◌, refl, Option, none, some, String, inl, inr, arith, Bool-cases}
use office_connect.Base.Int.{ℤ, pos, ◌≤ℤ◌, leb_ℤ}
use office_connect.Json.{Json, Fields, lookup}
use office_connect.Reimbursement.Deadline.{
  DeadlineRule, deadline_key, calendar, working, with_basis, read_basis, read_days, read_value,
  read_rule, int_of_entry,
}
use text.Mathlib.Text.{◌==◌ as str_eq}
use text.Mathlib.TextEquality.{eq_iff}

abbrev pub IsUsable : DeadlineRule → Type 0
IsUsable rule = (pos 1 ≤ℤ rule.days) × ((rule.basis ≡ calendar) ⊎ (rule.basis ≡ working))

known_basis : (days : ℤ) (basis : String) → pos 1 ≤ℤ days → IsUsable (with_basis days basis)
known_basis days basis positive = elim (Bool-cases (str_eq basis calendar)) [
  | inl cal ↦ rw cal (positive, inl ((eq_iff basis calendar).0 cal))
  | inr other ↦ elim (Bool-cases (str_eq basis working)) [
    | inl work ↦ rw (other, work) (positive, inr ((eq_iff basis working).0 work))
    | inr neither ↦ rw (other, neither) (positive, inl refl)
  ]
]

-- A list or an object: the values that Python cannot hash.
abbrev pub Unhashable : Option Json → Type 0
Unhashable (some (Json.arr items)) = Unit
Unhashable (some (Json.obj fields)) = Unit
Unhashable other = ⊥

-- A rule that can be used, or a `TypeError` with a basis that cannot be hashed.
abbrev pub Outcome : Option Json → Option DeadlineRule → Type 0
Outcome basis none = Unhashable basis
Outcome basis (some rule) = IsUsable rule

read_basis-Outcome :
    (days : ℤ) (basis : Option Json) → pos 1 ≤ℤ days → Outcome basis (read_basis days basis)
read_basis-Outcome days none positive = known_basis days calendar positive
read_basis-Outcome days (some (Json.text basis)) positive = known_basis days basis positive
read_basis-Outcome days (some (Json.arr items)) positive = tt
read_basis-Outcome days (some (Json.obj fields)) positive = tt
read_basis-Outcome days (some Json.null) positive = (positive, inl refl)
read_basis-Outcome days (some (Json.bool b)) positive = (positive, inl refl)
read_basis-Outcome days (some (Json.int z)) positive = (positive, inl refl)
read_basis-Outcome days (some (Json.real m k)) positive = (positive, inl refl)

read_days-Outcome : (days : Option ℤ) (basis : Option Json) → Outcome basis (read_days days basis)
read_days-Outcome none basis = (omega arith, inl refl)
read_days-Outcome (some days) basis = elim (Bool-cases (leb_ℤ days (pos 0))) [
  | inl low ↦ rw low (omega arith, inl refl)
  | inr positive ↦ rw positive (read_basis-Outcome days basis (ground arith))
]

-- the basis that the configuration gives, if it gives one
abbrev basis_of_value : Option Json → Option Json
basis_of_value (some (Json.obj fields)) = lookup "basis" fields
basis_of_value other = none

abbrev pub configured_basis : Option Fields → Option Json
configured_basis none = none
configured_basis (some config) = basis_of_value (lookup deadline_key config)

read_value-Outcome : (value : Option Json) → Outcome (basis_of_value value) (read_value value)
read_value-Outcome (some (Json.obj fields)) =
    read_days-Outcome (int_of_entry (lookup "days" fields)) (lookup "basis" fields)
read_value-Outcome none = (omega arith, inl refl)
read_value-Outcome (some Json.null) = (omega arith, inl refl)
read_value-Outcome (some (Json.bool b)) = (omega arith, inl refl)
read_value-Outcome (some (Json.int z)) = (omega arith, inl refl)
read_value-Outcome (some (Json.real m k)) = (omega arith, inl refl)
read_value-Outcome (some (Json.text s)) = (omega arith, inl refl)
read_value-Outcome (some (Json.arr items)) = (omega arith, inl refl)

-- Whatever the configuration holds, the rule that is read has at least one day and one of the two
-- bases. Reading raises a `TypeError` only where the configured basis is a list or an object.
pub read_rule-Outcome :
    (config : Option Fields) → Outcome (configured_basis config) (read_rule config)
unfolding read_rule
read_rule-Outcome none = (omega arith, inl refl)
read_rule-Outcome (some config) = read_value-Outcome (lookup deadline_key config)
