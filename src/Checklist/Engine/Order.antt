-- ===== src/Checklist/Engine/Order.antt =====
-- The sorting of the catalog in plan_checklist.
use office_connect.Base.{◌↔◌, List, [], ◌∷◌, All, In, here, there, Bool-cases, inl, inr}
use office_connect.Checklist.Engine.{CatalogSpec, before, insert_spec, sort_specs}

module _ {ℓ} (P : CatalogSpec → Type ℓ) where
  All-insert_spec :
      (spec : CatalogSpec) (rows : List CatalogSpec)
      → All P (insert_spec spec rows) ↔ (P spec × All P rows)
  unfolding insert_spec
  All-insert_spec spec [] = (λ h. h, λ h. h)
  All-insert_spec spec (row ∷ rows) =
      let (forth, back) = All-insert_spec spec rows in
      elim (Bool-cases (before row spec)) [
        | inl first ↦
            rw first (
              λ h. let rest = forth h.1 in (rest.0, (h.0, rest.1)),
              λ h. (h.1.0, back (h.0, h.1.1)),
            )
        | inr later ↦ rw later (λ h. h, λ h. h)
      ]

  pub All-sort_specs : (specs : List CatalogSpec) → All P (sort_specs specs) ↔ All P specs
  unfolding sort_specs
  All-sort_specs [] = (λ h. h, λ h. h)
  All-sort_specs (spec ∷ specs) =
      let (forth, back) = All-sort_specs specs in
      let (out, into) = All-insert_spec spec (sort_specs specs) in
      (λ h. let parts = out h in (parts.0, forth parts.1), λ h. into (h.0, back h.1))

In-insert_spec :
    {x : CatalogSpec} (spec : CatalogSpec) (rows : List CatalogSpec)
    → In x (spec ∷ rows)
    → In x (insert_spec spec rows)
unfolding insert_spec
In-insert_spec spec [] m = m
In-insert_spec spec (row ∷ rows) m = elim (Bool-cases (before row spec)) [
  | inr later ↦ rw later m
  | inl first ↦ rw first (elim m [
    | here e ↦ there (In-insert_spec spec rows (here e))
    | there (here e) ↦ here e
    | there (there k) ↦ there (In-insert_spec spec rows (there k))
  ])
]

pub In-sort_specs :
    {x : CatalogSpec} {specs : List CatalogSpec} → In x specs → In x (sort_specs specs)
unfolding sort_specs
In-sort_specs (here {xs = specs} e) = In-insert_spec _ (sort_specs specs) (here e)
In-sort_specs (there {xs = specs} m) = In-insert_spec _ (sort_specs specs) (there (In-sort_specs m))
