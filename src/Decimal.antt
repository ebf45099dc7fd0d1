-- ===== src/Decimal.antt =====
-- Python's `decimal.Decimal` as the checklist reads it: the texts it accepts, and `==` and `>`.
-- `finite m k` is the number m / 10^k; a positive exponent is multiplied out, so the limit on exponents
-- is not modelled. Only ASCII digits and white space are read. `none` is the `InvalidOperation` that
-- the default context raises.
use office_connect.Base.{
  ℕ, zero, suc, ◌+◌, ◌-◌, ◌*◌, ◌^◌, Bool, true, false, not, ◌&&◌, ◌||◌, Option, none, some, List,
  [], ◌∷◌, String, ◌≡◌, refl, leb, ◌==◌, if◌then◌else◌, map, filter,
}
use office_connect.Base.Int.{ℤ, pos, sub_ℕ, ◌*ℤ◌, ltb_ℤ, leb_ℤ}
use office_connect.Json.{codes, strip}

pub data Decimal : Type 0 where
  finite : ℤ → ℕ → Decimal
  infinite : Bool → Decimal
  nan : Bool → Decimal

abbrev is_digit : ℕ → Bool
is_digit c = leb 48 c && leb c 57

abbrev to_lower : ℕ → ℕ
to_lower c = if leb 65 c && leb c 90 then c + 32 else c

-- the digits at the front: their value, how many there are, and what follows
abbrev Digits : Type 0
Digits = ℕ × ℕ × List ℕ

take_digits : ℕ → ℕ → List ℕ → Digits
take_digits acc n [] = (acc, n, [])
take_digits acc n (c ∷ cs) =
    let rest = take_digits (acc * 10 + (c - 48)) (suc n) cs in
    if is_digit c then rest else (acc, n, c ∷ cs)

abbrev all_digits : List ℕ → Bool
all_digits [] = true
all_digits (c ∷ cs) = is_digit c && all_digits cs

-- an exponent: its sign and its value
abbrev exponent_digits : Bool → Digits → Option (Bool × ℕ)
exponent_digits minus (value, zero, rest) = none
exponent_digits minus (value, suc n, []) = some (minus, value)
exponent_digits minus (value, suc n, c ∷ rest) = none

-- what follows the digits: nothing, or `e` and a number
exponent : List ℕ → Option (Bool × ℕ)
unfolding take_digits
exponent [] = some (false, 0)
exponent (c ∷ []) = none
exponent (c ∷ s ∷ cs) =
    if not (c == 101)
    then none
    else if s == 45
    then exponent_digits true (take_digits 0 0 cs)
    else if s == 43
    then exponent_digits false (take_digits 0 0 cs)
    else exponent_digits false (take_digits 0 0 (s ∷ cs))

abbrev sign_of : Bool → ℕ → ℤ
sign_of true n = sub_ℕ 0 n
sign_of false n = pos n

abbrev scaled : Bool → ℕ → ℕ → Option (Bool × ℕ) → Option Decimal
scaled minus value places none = none
scaled minus value places (some (true, e)) =
    some (Decimal.finite (sign_of minus value) (places + e))
scaled minus value places (some (false, e)) =
    some (Decimal.finite (sign_of minus (value * 10 ^ e)) places)

-- the fraction after the point, if there is one
abbrev fraction : Bool → ℕ → ℕ → List ℕ → Option Decimal
unfolding take_digits exponent
fraction minus value n [] = if n == 0 then none else scaled minus value 0 (some (false, 0))
fraction minus value n (c ∷ cs) =
    if c == 46
    then (let (value', places, rest) = take_digits value 0 cs in
        if n + places == 0 then none else scaled minus value' places (exponent rest))
    else if n == 0
    then none
    else scaled minus value 0 (exponent (c ∷ cs))

abbrev same_codes : List ℕ → List ℕ → Bool
same_codes [] [] = true
same_codes (c ∷ cs) (d ∷ ds) = c == d && same_codes cs ds
same_codes _ _ = false

-- `nan`, with the digits of its payload
abbrev is_nan : List ℕ → Bool
is_nan (c ∷ d ∷ e ∷ cs) = c == 110 && d == 97 && e == 110 && all_digits cs
is_nan _ = false

abbrev is_signalling : List ℕ → Bool
is_signalling [] = false
is_signalling (c ∷ cs) = c == 115 && is_nan cs

unsigned : Bool → List ℕ → Option Decimal
unfolding fraction take_digits
unsigned minus cs =
    if same_codes cs (codes "inf") || same_codes cs (codes "infinity")
    then some (Decimal.infinite minus)
    else if is_nan cs
    then some (Decimal.nan false)
    else if is_signalling cs
    then some (Decimal.nan true)
    else let (value, n, rest) = take_digits 0 0 cs in fraction minus value n rest

abbrev signed : List ℕ → Option Decimal
signed [] = none
signed (c ∷ cs) =
    if c == 45
    then unsigned true cs
    else if c == 43
    then unsigned false cs
    else unsigned false (c ∷ cs)

-- `Decimal(text)`, with `none` for the `InvalidOperation`
unfoldable pub parse_decimal : String → Option Decimal
unfolding unsigned strip
parse_decimal text = signed (map to_lower (filter (λ c. not (c == 95)) (strip (codes text))))

-- the comparison of two finite values, at one scale
abbrev scaled_up : ℤ → ℕ → ℤ
scaled_up m k = m *ℤ pos (10 ^ k)

unfoldable pub finite_lt : ℤ → ℕ → ℤ → ℕ → Bool
unfolding ◌*ℤ◌
finite_lt m j n k = ltb_ℤ (scaled_up m k) (scaled_up n j)

unfoldable pub finite_eq : ℤ → ℕ → ℤ → ℕ → Bool
unfolding ◌*ℤ◌
finite_eq m j n k = leb_ℤ (scaled_up m k) (scaled_up n j) && leb_ℤ (scaled_up n j) (scaled_up m k)

-- `left == right`: a signalling nan raises, a quiet one equals nothing
abbrev pub eq_decimal : Decimal → Decimal → Option Bool
eq_decimal (Decimal.nan true) b = none
eq_decimal a (Decimal.nan true) = none
eq_decimal (Decimal.nan false) b = some false
eq_decimal a (Decimal.nan false) = some false
eq_decimal (Decimal.infinite true) (Decimal.infinite true) = some true
eq_decimal (Decimal.infinite false) (Decimal.infinite false) = some true
eq_decimal (Decimal.finite m j) (Decimal.finite n k) = some (finite_eq m j n k)
eq_decimal _ _ = some false

-- `left > right`: any nan raises
abbrev pub gt_decimal : Decimal → Decimal → Option Bool
gt_decimal (Decimal.nan s) b = none
gt_decimal a (Decimal.nan s) = none
gt_decimal (Decimal.finite m j) (Decimal.finite n k) = some (finite_lt n k m j)
gt_decimal (Decimal.infinite false) (Decimal.infinite false) = some false
gt_decimal (Decimal.infinite false) b = some true
gt_decimal (Decimal.infinite true) b = some false
gt_decimal (Decimal.finite m j) (Decimal.infinite false) = some false
gt_decimal (Decimal.finite m j) (Decimal.infinite true) = some true

reads_amounts :
    (parse_decimal " -1_2.50e1 " ≡ some (Decimal.finite (sub_ℕ 0 12500) 2))
    × (parse_decimal "250.00" ≡ some (Decimal.finite (pos 25000) 2))
    × (parse_decimal "sNaN12" ≡ some (Decimal.nan true))
    × (parse_decimal "-Infinity" ≡ some (Decimal.infinite true))
    × (parse_decimal "." ≡ none)
    × (parse_decimal "12x" ≡ none)
unfolding parse_decimal
reads_amounts = (refl, refl, refl, refl, refl, refl)
