-- ===== src/Base/Membership.antt =====
-- Searching and filtering lists, in terms of membership.
use mathlib.Core.Path.{◌≡◌, refl, ap}
use mathlib.Core.Logic.{◌⊎◌, inl, inr}
use mathlib.Core.Bool.{Bool, true, false}
use mathlib.Core.Option.{none, some}
use mathlib.Core.List.{List, [], ◌∷◌, ◌++◌, map}
use native.Mathlib.Omega.{arith}
use office_connect.Base.Conditions.{Bool-cases, if◌then◌else◌}
use office_connect.Base.Lists.{In, here, there, any, all, filter, find?, All}

module _ {ℓ} {A : Type ℓ} (p : A → Bool) where
  pub any-In : (xs : List A) → any p xs ≡ true → (x : A) × In x xs × (p x ≡ true)
  any-In [] h = cc
  any-In (x ∷ xs) h = elim (Bool-cases (p x)) [
    | inl e ↦ (x, here refl, e)
    | inr e ↦ let (y, m, t) = any-In xs (ground arith) in (y, there m, t)
  ]

  pub In-any : {x : A} {xs : List A} → In x xs → p x ≡ true → any p xs ≡ true
  In-any (here e) t = ground arith
  In-any (there m) t = ground (arith, In-any m t)

  pub all-In : {x : A} {xs : List A} → all p xs ≡ true → In x xs → p x ≡ true
  all-In h (here e) = ground arith
  all-In h (there m) = all-In (ground arith) m

  pub In-all : (xs : List A) → ((x : A) → In x xs → p x ≡ true) → all p xs ≡ true
  In-all [] h = refl
  In-all (x ∷ xs) h =
      let first = h x (here refl) in let rest = In-all xs (λ y m. h y (there m)) in ground arith

  -- The head of a filtered list is kept exactly where the test holds.
  kept :
      {x y : A} (xs rest : List A) (b : Bool)
      → (In x rest → In x xs × (p x ≡ true))
      → p y ≡ b
      → In x (if b then y ∷ rest else rest)
      → In x (y ∷ xs) × (p x ≡ true)
  kept {x} xs rest true ih e (here same) = (here same, cc)
  kept xs rest true ih e (there m) = (there (ih m).0, (ih m).1)
  kept xs rest false ih e m = (there (ih m).0, (ih m).1)

  pub filter-In : {x : A} (xs : List A) → In x (filter p xs) → In x xs × (p x ≡ true)
  filter-In [] m = elim m [ ]
  filter-In (y ∷ xs) m = kept xs (filter p xs) (p y) (filter-In xs) refl m

  keep :
      {x : A} (y : A) (rest : List A) (b : Bool) → In x rest → In x (if b then y ∷ rest else rest)
  keep y rest true m = there m
  keep y rest false m = m

  pub In-filter : {x : A} {xs : List A} → In x xs → p x ≡ true → In x (filter p xs)
  In-filter {x} (here {x = y} {xs = xs} e) t = let on : p y ≡ true = cc in rw on (here e)
  In-filter (there {x = y} {xs = xs} m) t = keep y (filter p xs) (p y) (In-filter m t)

module _ {ℓ} {A : Type ℓ} where
  pub In-append_left : {x : A} {xs : List A} (ys : List A) → In x xs → In x (xs ++ ys)
  In-append_left ys (here e) = here e
  In-append_left ys (there m) = there (In-append_left ys m)

  pub In-append_right : {x : A} (xs : List A) {ys : List A} → In x ys → In x (xs ++ ys)
  In-append_right [] m = m
  In-append_right (y ∷ xs) m = there (In-append_right xs m)

module _ {ℓ} {A : Type ℓ} where
  pub In-append_cases : {x : A} (xs : List A) {ys : List A} → In x (xs ++ ys) → In x xs ⊎ In x ys
  In-append_cases [] m = inr m
  In-append_cases (y ∷ xs) m = elim m [
    | here e ↦ inl (here e)
    | there k ↦ elim (In-append_cases xs k) [ inl l ↦ inl (there l) | inr r ↦ inr r ]
  ]

  -- A row that the test refuses changes nothing when it is added.
  pub filter-append_out :
      (p : A → Bool) (xs : List A) (x : A) → p x ≡ false → filter p (xs ++ x ∷ []) ≡ filter p xs
  filter-append_out p [] x h = ground arith
  filter-append_out p (y ∷ xs) x h = ground (arith, filter-append_out p xs x h)

module _ {ℓ κ} {A : Type ℓ} {B : Type κ} (f : A → B) where
  pub In-map : {x : A} {xs : List A} → In x xs → In (f x) (map f xs)
  In-map (here e) = here (ap f e)
  In-map (there m) = there (In-map m)

  pub map-In : {y : B} (xs : List A) → In y (map f xs) → (x : A) × In x xs × (f x ≡ y)
  map-In [] m = elim m [ ]
  map-In (x ∷ xs) m = elim m [
    | here e ↦ (x, here refl, e)
    | there k ↦ let (z, listed, e) = map-In xs k in (z, there listed, e)
  ]

module _ {ℓ κ} {A : Type ℓ} {B : Type κ} (q : B → Bool) (f : A → B) where
  pub any-map : (xs : List A) → any q (map f xs) ≡ any (λ x. q (f x)) xs
  any-map [] = refl
  any-map (x ∷ xs) = rw (any-map xs)

module _ {ℓ} {A : Type ℓ} (p : A → Bool) where
  pub filter-append : (xs ys : List A) → filter p (xs ++ ys) ≡ filter p xs ++ filter p ys
  filter-append [] ys = refl
  filter-append (x ∷ xs) ys = ground (arith, filter-append xs ys)

  -- What a search returns satisfies the test and is a member.
  pub find?-holds : {x : A} (xs : List A) → find? p xs ≡ some x → p x ≡ true
  find?-holds [] h = cc
  find?-holds {x} (y ∷ ys) h = ground (arith, find?-holds {x = x} ys)

  pub find?-In : {x : A} (xs : List A) → find? p xs ≡ some x → In x xs
  find?-In [] h = cc
  find?-In {x} (y ∷ ys) h = elim (Bool-cases (p y)) [
    | inl e ↦ here (ground arith)
    | inr e ↦ there (find?-In {x = x} ys (ground arith))
  ]

  pub find?-append_none : (xs ys : List A) → find? p xs ≡ none → find? p (xs ++ ys) ≡ find? p ys
  find?-append_none [] ys h = refl
  find?-append_none (x ∷ xs) ys h = ground (arith, find?-append_none xs ys)

  pub find?-append_some :
      {x : A} (xs ys : List A) → find? p xs ≡ some x → find? p (xs ++ ys) ≡ some x
  find?-append_some [] ys h = cc
  find?-append_some {x = z} (x ∷ xs) ys h = ground (arith, find?-append_some {x = z} xs ys)

module _ {ℓ κ} {A : Type ℓ} (P : A → Type κ) where
  pub All-split : (xs ys : List A) → All P (xs ++ ys) → All P xs × All P ys
  All-split [] ys h = (tt, h)
  All-split (x ∷ xs) ys h = let (hx, hy) = All-split xs ys h.1 in ((h.0, hx), hy)

  pub All-append : (xs ys : List A) → All P xs → All P ys → All P (xs ++ ys)
  All-append [] ys hx hy = hy
  All-append (x ∷ xs) ys hx hy = (hx.0, All-append xs ys hx.1 hy)
