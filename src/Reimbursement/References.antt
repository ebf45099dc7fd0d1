-- ===== src/Reimbursement/References.antt =====
-- office_connect/core/reference_numbers.py: gap-free numbers of a series and a year.
-- The caller's `year` is always given. The row lock makes a call one step.
use office_connect.Base.{ℕ, ◌+◌, Bool, ◌&&◌, List, [], ◌∷◌, String, ◌==◌, if◌then◌else◌}
use office_connect.Reimbursement.Records.{Reference, ReferenceSequence}
use text.Mathlib.Text.{◌==◌ as str_eq}

abbrev pub counts : String → ℕ → ReferenceSequence → Bool
counts scope year row = str_eq row.scope scope && row.year == year

-- the number, and the counters with `last_value += 1`
unfoldable pub next_value : List ReferenceSequence → String → ℕ → ℕ × List ReferenceSequence
next_value [] scope year = (1, record { scope = scope; year = year; last_value = 1 } ∷ [])
next_value (row ∷ rows) scope year =
    let (n, rest) = next_value rows scope year in
    if counts scope year row
    then (row.last_value + 1, record row { last_value = row.last_value + 1 } ∷ rows)
    else (n, row ∷ rest)

unfoldable pub allocate_reference_number :
    List ReferenceSequence → String → ℕ → Reference × List ReferenceSequence
unfolding next_value
allocate_reference_number rows scope year =
    let (n, rest) = next_value rows scope year in
    (record { scope = scope; year = year; number = n }, rest)
