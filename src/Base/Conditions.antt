-- ===== src/Base/Conditions.antt =====
-- Boolean tests on native numbers, conditionals and case splits.
use Prim.Native.Nat.{ℕ, compare, Ordering}
use mathlib.Core.Path.{◌≡◌, refl}
use mathlib.Core.Logic.{◌⊎◌, inl, inr, ◌↔◌}
use mathlib.Core.Bool.{Bool, true, false, ◌&&◌, ◌||◌}
use native.Mathlib.Omega.{arith}

abbrev pub ltb : ℕ → ℕ → Bool
ltb a b = elim (compare a b) [ Ordering.lt ↦ true | _ ↦ false ]

abbrev pub leb : ℕ → ℕ → Bool
leb a b = elim (compare a b) [ Ordering.gt ↦ false | _ ↦ true ]

infix 50 ◌==◌
abbrev pub ◌==◌ : ℕ → ℕ → Bool
a == b = elim (compare a b) [ Ordering.eq ↦ true | _ ↦ false ]

infix 1 if◌then◌else◌
abbrev pub if◌then◌else◌ {ℓ} : {A : Type ℓ} → Bool → A → A → A
if true then x else y = x
if false then x else y = y

-- To split on a computed value and keep the equation.
pub Bool-cases : (b : Bool) → (b ≡ true) ⊎ (b ≡ false)
Bool-cases true = inl refl
Bool-cases false = inr refl

pub ==_iff : (a b : ℕ) → (a == b ≡ true) ↔ (a ≡ b)
==_iff a b = (λ h. ground arith, λ h. ground arith)

-- Tests that reflect statements reflect their disjunction and their conjunction.
module _ {ℓ κ} {P : Type ℓ} {Q : Type κ} where
  pub or_iff : (b c : Bool) → (b ≡ true) ↔ P → (c ≡ true) ↔ Q → (b || c ≡ true) ↔ (P ⊎ Q)
  or_iff true c p q = (λ h. inl (p.0 refl), λ h. refl)
  or_iff false c p q = (λ h. inr (q.0 h), λ h. elim h [ inl x ↦ cc (p.1 x) | inr y ↦ q.1 y ])

  pub and_iff : (b c : Bool) → (b ≡ true) ↔ P → (c ≡ true) ↔ Q → (b && c ≡ true) ↔ (P × Q)
  and_iff true c p q = (λ h. (p.0 refl, q.0 h), λ h. q.1 h.1)
  and_iff false c p q = (λ h. cc, λ h. p.1 h.0)
