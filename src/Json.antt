-- ===== src/Json.antt =====
-- JSON values as Python reads them from a JSONB column, and Python's `int()` of such a value.
-- `real m k` is the float that is written with the decimal value m / 10^k. In texts only ASCII
-- whitespace and digits are read, which is all that the seeded configuration holds.
use office_connect.Base.{
  ℕ, ◌+◌, ◌-◌, ◌*◌, ◌/◌, ◌^◌, Bool, true, false, ◌&&◌, ◌||◌, Option, none, some, List, [], ◌∷◌,
  String, leb, ◌==◌, if◌then◌else◌,
}
use office_connect.Base.Int.{ℤ, pos, sub_ℕ, pos_part, neg_part}
use mathlib.Core.List.{reverse}
use Prim.Native.Char.{code}
use package.text.Mathlib.Text.{◌==◌ as str_eq}

mutual
  pub data Json : Type 0 where
    null : Json
    bool : Bool → Json
    int : ℤ → Json
    real : ℤ → ℕ → Json
    text : String → Json
    arr : Items → Json
    obj : Fields → Json

  pub data Items : Type 0 where
    nil : Items
    cons : Json → Items → Items

  pub data Fields : Type 0 where
    end : Fields
    field : String → Json → Fields → Fields

-- `mapping[key]`, with `none` for the `KeyError`
unfoldable pub lookup : String → Fields → Option Json
lookup key end = none
lookup key (field k v rest) = if str_eq k key then some v else lookup key rest

-- `mapping[key] = value`
unfoldable pub put_field : String → Json → Fields → Fields
put_field key value end = field key value end
put_field key value (field k v fields) =
    let rest = put_field key value fields in
    if str_eq k key then field k value fields else field k v rest

-- `value[key]` of any value: `none` for the `KeyError` or `TypeError`
unfoldable pub index : Json → String → Option Json
unfolding lookup
index (obj fields) key = lookup key fields
index _ key = none

abbrev pub codes : String → List ℕ
codes String.[] = []
codes (String.◌∷◌ c s) = code c ∷ codes s

-- space, tab to carriage return, and the four separators
abbrev pub is_space : ℕ → Bool
is_space c = c == 32 || (leb 9 c && leb c 13) || (leb 28 c && leb c 31)

strip_left : List ℕ → List ℕ
strip_left [] = []
strip_left (c ∷ cs) = if is_space c then strip_left cs else c ∷ cs

unfoldable pub strip : List ℕ → List ℕ
unfolding strip_left
strip cs = reverse (strip_left (reverse (strip_left cs)))

-- digits, with single underscores between them; `seen` tells that a digit came last
digits : ℕ → Bool → List ℕ → Option ℕ
digits acc seen [] = if seen then some acc else none
digits acc seen (c ∷ cs) =
    let more = digits (acc * 10 + (c - 48)) true cs in
    let after = digits acc false cs in
    if leb 48 c && leb c 57 then more else if c == 95 && seen then after else none

signed : List ℕ → Option ℤ
unfolding digits
signed [] = none
signed (c ∷ cs) =
    if c == 45
    then elim (digits 0 false cs) [ none ↦ none | some n ↦ some (sub_ℕ 0 n) ]
    else if c == 43
    then elim (digits 0 false cs) [ none ↦ none | some n ↦ some (pos n) ]
    else elim (digits 0 false (c ∷ cs)) [ none ↦ none | some n ↦ some (pos n) ]

-- `int(value)`, with `none` for the `TypeError` or `ValueError`
unfoldable pub int_of : Json → Option ℤ
unfolding strip signed
int_of (bool true) = some (pos 1)
int_of (bool false) = some (pos 0)
int_of (int z) = some z
int_of (real m k) = some (sub_ℕ (pos_part m / 10 ^ k) (neg_part m / 10 ^ k))
int_of (text s) = signed (strip (codes s))
int_of _ = none
