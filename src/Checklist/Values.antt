-- ===== src/Checklist/Values.antt =====
-- The first half of office_connect/core/checklist/grammar.py: fields of the facts, and the comparators.
-- Facts and rules are JSON values; an object's keys are distinct, as in a dict. The sentinel MISSING is
-- `none`.
use office_connect.Base.{
  ℕ, suc, Bool, true, false, not, ◌&&◌, ◌||◌, Option, none, some, List, [], ◌∷◌, String, ◌==◌,
  if◌then◌else◌,
}
use office_connect.Base.Int.{ℤ, pos}
use office_connect.Base.Attempts.{Attempt, ok, require}
use office_connect.Json.{Json, Items, Fields, lookup, codes}
use office_connect.Decimal.{Decimal, parse_decimal, finite_eq, eq_decimal, gt_decimal}
use Prim.Native.Char.{Char, code}
use package.text.Mathlib.Text.{◌==◌ as str_eq}

-- what evaluation can raise: `decimal.InvalidOperation`, of a comparison with a nan
pub data Exception : Type 0 where
  invalid_operation : Exception

-- `path.split(".")`
abbrev before_first : Char → List String → List String
before_first c [] = []
before_first c (segment ∷ segments) = String.◌∷◌ c segment ∷ segments

unfoldable pub split_dots : String → List String
split_dots String.[] = String.[] ∷ []
split_dots (String.◌∷◌ c s) =
    let rest = split_dots s in if code c == 46 then String.[] ∷ rest else before_first c rest

-- the projection of a segment across a list of objects
abbrev pub project : String → Items → Items
project segment Items.nil = Items.nil
project segment (Items.cons (Json.obj fields) items) =
    let rest = project segment items in
    elim (lookup segment fields) [ none ↦ rest | some v ↦ Items.cons v rest ]
project segment (Items.cons item items) = project segment items

abbrev pub projected : Items → Option Json
projected Items.nil = none
projected (Items.cons item items) = some (Json.arr (Items.cons item items))

-- one round of the `for segment in path.split(".")`
abbrev pub enter : Json → String → Option Json
enter (Json.obj fields) segment = lookup segment fields
enter (Json.arr items) segment = projected (project segment items)
enter current segment = none

abbrev pub follow : Option Json → List String → Option Json
follow none segments = none
follow (some current) [] = some current
follow (some current) (segment ∷ segments) = follow (enter current segment) segments

unfoldable pub resolve_field : Fields → Json → Option Json
unfolding split_dots lookup
resolve_field facts (Json.text path) =
    if str_eq path "" then none else follow (some (Json.obj facts)) (split_dots path)
resolve_field facts other = none

-- `_as_decimal`
unfoldable pub as_decimal : Option Json → Option Decimal
unfolding parse_decimal
as_decimal (some (Json.int z)) = some (Decimal.finite z 0)
as_decimal (some (Json.real m k)) = some (Decimal.finite m k)
as_decimal (some (Json.text s)) = parse_decimal s
as_decimal other = none

abbrev number_of : Json → Option (ℤ × ℕ)
number_of (Json.bool true) = some (pos 1, 0)
number_of (Json.bool false) = some (pos 0, 0)
number_of (Json.int z) = some (z, 0)
number_of (Json.real m k) = some (m, k)
number_of other = none

abbrev same_number : Option (ℤ × ℕ) → Option (ℤ × ℕ) → Bool
same_number (some (m, j)) (some (n, k)) = finite_eq m j n k
same_number a b = false

abbrev size_of : Fields → ℕ
size_of Fields.end = 0
size_of (Fields.field k v fields) = suc (size_of fields)

-- Python's `==` of two values; a Boolean is the number 0 or 1
mutual
  same_value : Json → Json → Bool
  same_value Json.null Json.null = true
  same_value (Json.text a) (Json.text b) = str_eq a b
  same_value (Json.arr a) (Json.arr b) = same_items a b
  same_value (Json.obj a) (Json.obj b) = size_of a == size_of b && same_fields a b
  same_value (Json.bool a) b = same_number (number_of (Json.bool a)) (number_of b)
  same_value (Json.int a) b = same_number (number_of (Json.int a)) (number_of b)
  same_value (Json.real a k) b = same_number (number_of (Json.real a k)) (number_of b)
  same_value _ _ = false

  same_items : Items → Items → Bool
  same_items Items.nil Items.nil = true
  same_items (Items.cons a xs) (Items.cons b ys) = same_value a b && same_items xs ys
  same_items _ _ = false

  same_fields : Fields → Fields → Bool
  same_fields Fields.end other = true
  same_fields (Fields.field k v fields) other =
      elim (lookup k other) [ none ↦ false | some w ↦ same_value v w ] && same_fields fields other

-- `expected in actual` for texts and for lists
abbrev starts_codes : List ℕ → List ℕ → Bool
starts_codes [] cs = true
starts_codes (d ∷ ds) [] = false
starts_codes (d ∷ ds) (c ∷ cs) = c == d && starts_codes ds cs

abbrev within_codes : List ℕ → List ℕ → Bool
within_codes ds [] = starts_codes ds []
within_codes ds (c ∷ cs) = starts_codes ds (c ∷ cs) || within_codes ds cs

member_value : Json → Items → Bool
unfolding same_value
member_value expected Items.nil = false
member_value expected (Items.cons item items) =
    same_value item expected || member_value expected items

abbrev raised : Option Bool → Attempt Exception Bool
raised answer = require answer Exception.invalid_operation

abbrev both_decimal : Json → Json → Option Decimal → Option Decimal → Attempt Exception Bool
both_decimal actual expected (some a) (some b) = raised (eq_decimal a b)
both_decimal actual expected _ _ = ok (same_value actual expected)

-- `_cmp_eq`
unfoldable pub cmp_eq : Option Json → Json → Attempt Exception Bool
unfolding same_value as_decimal
cmp_eq none expected = ok false
cmp_eq (some (Json.bool a)) (Json.bool b) = ok (if a then b else not b)
cmp_eq (some (Json.bool a)) expected = ok false
cmp_eq (some actual) (Json.bool b) = ok false
cmp_eq (some actual) expected =
    both_decimal actual expected (as_decimal (some actual)) (as_decimal (some expected))

-- `_cmp_contains`
unfoldable pub cmp_contains : Option Json → Json → Attempt Exception Bool
unfolding member_value
cmp_contains (some (Json.text a)) (Json.text b) = ok (within_codes (codes b) (codes a))
cmp_contains (some (Json.arr items)) expected = ok (member_value expected items)
cmp_contains actual expected = ok false

abbrev greater : Option Decimal → Option Decimal → Attempt Exception Bool
greater (some a) (some b) = raised (gt_decimal a b)
greater a b = ok false

-- `_cmp_gt`
unfoldable pub cmp_gt : Option Json → Json → Attempt Exception Bool
unfolding as_decimal
cmp_gt actual expected = greater (as_decimal actual) (as_decimal (some expected))
