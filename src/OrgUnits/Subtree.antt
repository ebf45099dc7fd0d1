-- ===== src/OrgUnits/Subtree.antt =====
-- descendants_or_self, the inverse of ancestors_or_self.
use office_connect.Base.{
  ℕ, zero, suc, ◌≤◌, ◌≡◌, ◌↔◌, refl, sym, ap, subst, ◌∙◌, inl, inr, Bool, true, false, ◌&&◌, not,
  Option, none, some, List, [], ◌∷◌, ◌==◌, arith, In, here, there, filter, is_id, Bool-cases,
  Option-cases, filter-In, In-filter, In-map, map-In, In-append_left, In-append_right,
  In-append_cases,
}
use office_connect.OrgUnits.{
  OrgUnit, Directory, max_ancestry_depth, live_unit, children, each, subtree, below_root,
  descendants_or_self, ancestors_or_self, member,
}
use office_connect.OrgUnits.Coverage.{Above, Covers-unit, unit-Covers}

-- The id of a live row tells it from the other live rows: it is the primary key.
abbrev pub HasKeys : List OrgUnit → Type 0
HasKeys units = (u : OrgUnit) → In u units → u.deleted ≡ false → live_unit units u.id ≡ some u

module _ {ℓ κ} {A : Type ℓ} {B : Type κ} (f : A → List B) where
  each-In : {y : B} (xs : List A) → In y (each f xs) → (x : A) × In x xs × In y (f x)
  each-In [] m = elim m [ ]
  each-In (x ∷ xs) m = elim (In-append_cases (f x) m) [
    | inl k ↦ (x, here refl, k)
    | inr k ↦ let (z, listed, n) = each-In xs k in (z, there listed, n)
  ]

  In-each : {y : B} {x : A} {xs : List A} → In x xs → In y (f x) → In y (each f xs)
  In-each {y = y} (here {xs = xs} e) m =
      In-append_left (each f xs) (subst (λ (z : A). In y (f z)) (sym e) m)
  In-each (there {x = z} k) m = In-append_right (f z) (In-each k m)

some-injective : {u v : OrgUnit} → some u ≡ some v → u ≡ v
some-injective h = cc

first : {a id : ℕ} (b : Bool) → a == id && not b ≡ true → a ≡ id
first b h = ground arith

live : (a id : ℕ) {b : Bool} → a == id && not b ≡ true → b ≡ false
live a id h = ground arith

live_unit-In :
    (units : List OrgUnit) (id : ℕ) {u : OrgUnit}
    → live_unit units id ≡ some u
    → In u units × (u.id ≡ id) × (u.deleted ≡ false)
unfolding live_unit
live_unit-In [] id h = cc
live_unit-In (v ∷ units) id {u = u} h = elim (Bool-cases (v.id == id && not v.deleted)) [
  | inl found ↦
      let same : v ≡ u = some-injective (rw found at h) in
      (
        here same,
        ap (λ (x : OrgUnit). x.id) (sym same) ∙ first v.deleted found,
        ap (λ (x : OrgUnit). x.deleted) (sym same) ∙ live v.id id found,
      )
  | inr other ↦ let (m, e, f) = live_unit-In units id {u = u} (rw other at h) in (there m, e, f)
]

module _ (units : List OrgUnit) where
  children-In :
      (c p : ℕ)
      → In c (children units p)
      → (u : OrgUnit) × In u units
        × (u.id ≡ c)
        × (u.parent_org_unit_id ≡ some p)
        × (u.deleted ≡ false)
  children-In c p m =
      let test : OrgUnit → Bool = λ u. is_id u.parent_org_unit_id p && not u.deleted in
      let (u, found, e) = map-In (λ (u : OrgUnit). u.id) (filter test units) m in
      let (listed, passed) = filter-In test units found in
      (u, listed, e, parent_some u.parent_org_unit_id p (ground arith), ground arith)
    where
      parent_some : (o : Option ℕ) (p : ℕ) → is_id o p ≡ true → o ≡ some p
      parent_some none p h = cc
      parent_some (some q) p h = ap some (ground arith)

  In-children :
      (u : OrgUnit) (p : ℕ)
      → In u units
      → u.parent_org_unit_id ≡ some p
      → u.deleted ≡ false
      → In u.id (children units p)
  In-children u p listed up alive =
      In-map (λ (u : OrgUnit). u.id)
        (In-filter (λ (u : OrgUnit). is_id u.parent_org_unit_id p && not u.deleted) listed
          (rw (up, alive) (ground arith)))

  -- One more step at the top of a chain, and the step at its top taken off.
  Above-root :
      {c n t p : ℕ} (row top : OrgUnit)
      → live_unit units c ≡ some row
      → row.parent_org_unit_id ≡ some p
      → live_unit units p ≡ some top
      → Above units c n t
      → Above units p (suc n) t
  Above-root {c = c} {t = t} row top e up alive (Above.self last k same) =
      let (m, at, f) = live_unit-In units t k in
      let (m', at', f') = live_unit-In units _ alive in
      let here_row : live_unit units t ≡ some row =
        subst (λ (x : ℕ). live_unit units x ≡ some row) (sym same ∙ at) e in
      Above.parent row here_row up (Above.self top alive at')
  Above-root row top e up alive (Above.parent last k more rest) =
      Above.parent last k more (Above-root row top e up alive rest)

  root-Above :
      {p n t : ℕ} → Above units p (suc n) t → (c : ℕ) × In c (children units p) × Above units c n t
  root-Above {t = t} (Above.parent row e up (Above.self top k same)) =
      let (m, at, alive) = live_unit-In units t e in
      let (m', at', f') = live_unit-In units _ k in
      let up' = up ∙ ap some (sym at' ∙ same) in
      (row.id, In-children row _ m up' alive, Above.self row e refl)
  root-Above (Above.parent row e up (Above.parent row' k more rest)) =
      let (c, listed, above) = root-Above (Above.parent row' k more rest) in
      (c, listed, Above.parent row e up above)

  live_root : {u n t : ℕ} → Above units u n t → (top : OrgUnit) × (live_unit units u ≡ some top)
  live_root {t = t} (Above.self row k same) =
      let (m, at, f) = live_unit-In units t k in
      (row, subst (λ (x : ℕ). live_unit units x ≡ some row) (sym at ∙ same) k)
  live_root (Above.parent row k up rest) = live_root rest

  subtree-Above :
      (depth id x : ℕ) (top : OrgUnit)
      → HasKeys units
      → live_unit units id ≡ some top
      → In x (subtree units depth id)
      → (n : ℕ) × (n ≤ depth) × Above units id n x
  unfolding subtree
  subtree-Above zero id x top keys alive (here e) =
      let (m, at, f) = live_unit-In units id alive in
      (0, omega arith, subst (λ (y : ℕ). Above units id 0 y) e (Above.self top alive at))
  subtree-Above zero id x top keys alive (there m) = elim m [ ]
  subtree-Above (suc depth) id x top keys alive (here e) =
      let (m, at, f) = live_unit-In units id alive in
      (0, omega arith, subst (λ (y : ℕ). Above units id 0 y) e (Above.self top alive at))
  subtree-Above (suc depth) id x top keys alive (there m) =
      let (c, listed, below) = each-In (subtree units depth) (children units id) m in
      let (u, known, at, up, live_u) = children-In c id listed in
      let here_u = subst (λ (y : ℕ). live_unit units y ≡ some u) at (keys u known live_u) in
      let (n, few, above) = subtree-Above depth c x u keys here_u below in
      (suc n, omega arith, Above-root u top here_u up alive above)

  Above-subtree :
      (depth id x n : ℕ) → n ≤ depth → Above units id n x → In x (subtree units depth id)
  unfolding subtree
  Above-subtree zero id x zero few (Above.self row k same) =
      let (m, at, f) = live_unit-In units x k in here (sym same ∙ at)
  Above-subtree zero id x (suc n) few above = absurd (omega arith)
  Above-subtree (suc depth) id x zero few (Above.self row k same) =
      let (m, at, f) = live_unit-In units x k in here (sym same ∙ at)
  Above-subtree (suc depth) id x (suc n) few above =
      let (c, listed, rest) = root-Above above in
      there (In-each (subtree units depth) listed (Above-subtree depth c x n (omega arith) rest))

module _ (dir : Directory) where
  root_iff :
      (r x : ℕ)
      → HasKeys dir.org_units
      → In x (below_root dir r) ↔ ((n : ℕ) × (n ≤ max_ancestry_depth) × Above dir.org_units r n x)
  unfolding below_root
  root_iff r x keys = elim (Option-cases (live_unit dir.org_units r)) [
    | inl gone ↦
        rw (below_root, gone)
          (
            λ m. elim m [ ],
            λ (n, few, above). let (top, alive) = live_root dir.org_units above in cc (gone, alive),
          )
    | inr (top, alive) ↦
        let (m, at, f) = live_unit-In dir.org_units r alive in
        rw (below_root, alive)
          (
            λ m.
                subtree-Above dir.org_units max_ancestry_depth r x top keys alive
                  (subst (λ (y : ℕ). In x (subtree dir.org_units max_ancestry_depth y)) at m),
            λ (n, few, above).
                subst (λ (y : ℕ). In x (subtree dir.org_units max_ancestry_depth y)) (sym at)
                  (Above-subtree dir.org_units max_ancestry_depth r x n few above),
          )
  ]

-- The two walks are inverse to each other: where live rows are told apart by their ids, a unit is in the
-- subtrees of some roots exactly where one of the roots is on the unit's own chain of parents.
pub descendants_or_self-ancestors_or_self :
    (dir : Directory) (roots : List ℕ) (x : ℕ)
    → HasKeys dir.org_units
    → In x (descendants_or_self dir roots)
      ↔ ((r : ℕ) × In r roots × (member r (ancestors_or_self dir (some x)) ≡ true))
unfolding descendants_or_self
descendants_or_self-ancestors_or_self dir roots x keys = (
  λ m.
      let (r, listed, below) = each-In (below_root dir) roots m in
      (r, listed, unit-Covers dir 0 0 "" r x ((root_iff dir r x keys).0 below)),
  λ (r, listed, above).
      In-each (below_root dir) listed
        ((root_iff dir r x keys).1 (Covers-unit dir 0 0 "" (some r) x above)),
)
