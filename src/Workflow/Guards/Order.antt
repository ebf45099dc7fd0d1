-- ===== src/Workflow/Guards/Order.antt =====
-- Ordering the routed rows keeps exactly the rows.
use office_connect.Base.{List, [], ◌∷◌, In, here, there, Bool-cases, inl, inr}
use office_connect.Workflow.Types.{Transition}
use office_connect.Workflow.Guards.{before, insert_row, in_order}

In-insert_row :
    {x : Transition} (t : Transition) (us : List Transition)
    → In x (insert_row t us)
    → In x (t ∷ us)
unfolding insert_row
In-insert_row t [] m = m
In-insert_row {x} t (u ∷ us) m = elim (Bool-cases (before t u)) [
  | inl first ↦ rw first at m
  | inr later ↦ swap (λ n. In-insert_row t us n) (rw later at m)
]
  where
    swap : (In x (insert_row t us) → In x (t ∷ us)) → In x (u ∷ insert_row t us) → In x (t ∷ u ∷ us)
    swap rest (here e) = there (here e)
    swap rest (there n) = elim (rest n) [ here e ↦ here e | there k ↦ there (there k) ]

insert_row-In :
    {x : Transition} (t : Transition) (us : List Transition)
    → In x (t ∷ us)
    → In x (insert_row t us)
unfolding insert_row
insert_row-In t [] m = m
insert_row-In {x} t (u ∷ us) m = elim (Bool-cases (before t u)) [
  | inl first ↦ rw first m
  | inr later ↦ rw later (swap (λ n. insert_row-In t us n) m)
]
  where
    swap : (In x (t ∷ us) → In x (insert_row t us)) → In x (t ∷ u ∷ us) → In x (u ∷ insert_row t us)
    swap rest (here e) = there (rest (here e))
    swap rest (there (here e)) = here e
    swap rest (there (there k)) = there (rest (there k))

pub In-in_order : {x : Transition} (ts : List Transition) → In x (in_order ts) → In x ts
unfolding in_order
In-in_order [] m = m
In-in_order (t ∷ ts) m = elim (In-insert_row t (in_order ts) m) [
  | here e ↦ here e
  | there k ↦ there (In-in_order ts k)
]

pub in_order-In : {x : Transition} (ts : List Transition) → In x ts → In x (in_order ts)
unfolding in_order
in_order-In [] m = elim m [ ]
in_order-In (t ∷ ts) (here e) = insert_row-In t (in_order ts) (here e)
in_order-In (t ∷ ts) (there k) = insert_row-In t (in_order ts) (there (in_order-In ts k))
