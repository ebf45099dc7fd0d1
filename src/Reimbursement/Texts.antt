-- ===== src/Reimbursement/Texts.antt =====
-- Python's `str.strip` and `+` on texts, as the claim services use them.
use office_connect.Base.{Option, none, some, String, if◌then◌else◌}
use office_connect.Json.{is_space}
use Prim.Native.Char.{code}
use text.Mathlib.Text.{◌==◌ as str_eq}

unfoldable pub append : String → String → String
append String.[] t = t
append (String.◌∷◌ c s) t = String.◌∷◌ c (append s t)

reverse_onto : String → String → String
reverse_onto String.[] t = t
reverse_onto (String.◌∷◌ c s) t = reverse_onto s (String.◌∷◌ c t)

strip_left : String → String
strip_left String.[] = String.[]
strip_left (String.◌∷◌ c s) =
    let rest = strip_left s in if is_space (code c) then rest else String.◌∷◌ c s

unfoldable pub strip : String → String
unfolding reverse_onto strip_left
strip s = reverse_onto (strip_left (reverse_onto (strip_left s) "")) ""

-- `(text or "").strip()`
abbrev pub stripped : Option String → String
stripped none = ""
stripped (some text) = strip text

-- `text or None`
abbrev pub non_empty : String → Option String
non_empty text = if str_eq text "" then none else some text
