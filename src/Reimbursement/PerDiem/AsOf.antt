-- ===== src/Reimbursement/PerDiem/AsOf.antt =====
-- Which row of an effective-dated table is read for a day.
use office_connect.Base.{
  ℕ, ◌≤◌, ◌≡◌, ◌⊎◌, refl, true, false, Option, none, some, List, [], ◌∷◌, String, arith, All, In,
  here, there, inl, inr, Bool-cases, sym,
}
use office_connect.Reimbursement.PerDiem.Rows.{Dated, passed_over, improves, as_of_from, as_of}
use text.Mathlib.TextEquality.{eq_iff}

module _ {A : Type 0} (table : Dated A) (day : ℕ) (key : String) where
  -- A row of the key that has taken effect by the day.
  abbrev pub InForce : A → Type 0
  InForce row = (table.key_of row ≡ key) × (table.from row ≤ day)

  abbrev pub NoLater : A → A → Type 0
  NoLater best row = InForce row → table.from row ≤ table.from best

  -- No row is in force, or the row is one of the table, in force, and none in force is newer.
  abbrev pub IsLatest : List A → Option A → Type 0
  IsLatest rows none = All (λ row. ¬ InForce row) rows
  IsLatest rows (some best) = In best rows × InForce best × All (NoLater best) rows

  not-InForce : (row : A) → passed_over table day key row ≡ true → ¬ InForce row
  not-InForce row over force =
      let same = (eq_iff (table.key_of row) key).1 force.0 in let early = force.1 in ground arith

  kept-InForce : (row : A) → passed_over table day key row ≡ false → InForce row
  kept-InForce row kept = ((eq_iff (table.key_of row) key).0 (ground arith), ground arith)

  -- What the loop returns once it holds a row.
  record Better (best : A) (rows : List A) : Type 0 where
    row : A
    found : as_of_from table day key (some best) rows ≡ some row
    same_or_in : (row ≡ best) ⊎ In row rows
    force : InForce row
    newer : table.from best ≤ table.from row
    newest : All (NoLater row) rows

  better : (best : A) (rows : List A) → InForce best → Better best rows
  unfolding as_of_from
  better best [] force = record {
    row = best;
    found = refl;
    same_or_in = inl refl;
    force = force;
    newer = omega arith;
    newest = tt;
  }
  better best (x ∷ rows) force = elim (Bool-cases (passed_over table day key x)) [
    | inl over ↦
        let rest = better best rows force in
        record {
          row = rest.row;
          found = rw over rest.found;
          same_or_in = in_tail rest.row rest.same_or_in;
          force = rest.force;
          newer = rest.newer;
          newest = (λ f. absurd (not-InForce x over f), rest.newest);
        }
    | inr kept ↦ elim (Bool-cases (improves table day key x (some best))) [
      | inl up ↦
          let rest = better x rows (kept-InForce x kept) in
          let newer = rest.newer in
          record {
            row = rest.row;
            found = rw (kept, up) rest.found;
            same_or_in = inr (moved rest.row rest.same_or_in);
            force = rest.force;
            newer = ground arith;
            newest = (λ f. newer, rest.newest);
          }
      | inr down ↦
          let rest = better best rows force in
          let newer = rest.newer in
          record {
            row = rest.row;
            found = rw (kept, down) rest.found;
            same_or_in = in_tail rest.row rest.same_or_in;
            force = rest.force;
            newer = newer;
            newest = (λ f. ground arith, rest.newest);
          }
    ]
  ]
    where
      in_tail : (row : A) → (row ≡ best) ⊎ In row rows → (row ≡ best) ⊎ In row (x ∷ rows)
      in_tail row (inl e) = inl e
      in_tail row (inr m) = inr (there m)

      moved : (row : A) → (row ≡ x) ⊎ In row rows → In row (x ∷ rows)
      moved row (inl e) = here (sym e)
      moved row (inr m) = there m

  IsLatest-from : (rows : List A) → IsLatest rows (as_of_from table day key none rows)
  unfolding as_of_from
  IsLatest-from [] = tt
  IsLatest-from (x ∷ rows) = elim (Bool-cases (passed_over table day key x)) [
    | inl over ↦
        rw over
          (skip (as_of_from table day key none rows) (not-InForce x over) (IsLatest-from rows))
    | inr kept ↦
        let rest = better x rows (kept-InForce x kept) in
        let newer = rest.newer in
        rw (kept, rest.found)
          (moved rest.row rest.same_or_in, rest.force, (λ f. newer, rest.newest))
  ]
    where
      skip : (found : Option A) → ¬ InForce x → IsLatest rows found → IsLatest (x ∷ rows) found
      skip none out h = (out, h)
      skip (some row) out h = (there h.0, h.1, (λ f. absurd (out f), h.2))

      moved : (row : A) → (row ≡ x) ⊎ In row rows → In row (x ∷ rows)
      moved row (inl e) = here (sym e)
      moved row (inr m) = there m

-- Reading an effective-dated table for a day and a key returns a row of that key that has taken effect by
-- the day and than which no such row is newer, and returns nothing exactly where there is no such row.
pub as_of-IsLatest :
    {A : Type 0} (table : Dated A) (rows : List A) (day : ℕ) (key : String)
    → IsLatest table day key rows (as_of table rows day key)
unfolding as_of
as_of-IsLatest table rows day key = IsLatest-from table day key rows
