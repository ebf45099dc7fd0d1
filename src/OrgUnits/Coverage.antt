-- ===== src/OrgUnits/Coverage.antt =====
-- What authorize_scoped promises, stated on the organisation tree.
use office_connect.Base.{
  ℕ, zero, suc, ◌≤◌, ◌≡◌, refl, ◌↔◌, inl, inr, Bool, true, false, Option, none, some, List, [], ◌∷◌,
  String, arith, filter, any, is_none, In, Bool-cases, Option-cases, ◌==◌, any-In, In-any,
  filter-In, In-filter, any-map,
}
use office_connect.OrgUnits.{
  OrgUnit, UserRole, Directory, max_ancestry_depth, live_unit, climb, ancestors_or_self, grants_now,
  scoped_org_units, member, is_covered, intersects, authorize_scoped,
}
use office_connect.OrgUnits.Grants.{IsCurrent, grants_now-IsCurrent, IsCurrent-grants_now}

-- `u` is reached from `t` by `n` steps to the parent, through live units only.
pub data Above (units : List OrgUnit) (u : ℕ) : ℕ → ℕ → Type 0 where
  self : {t : ℕ} (row : OrgUnit) → live_unit units t ≡ some row → row.id ≡ u → Above units u zero t
  parent :
      {n t p : ℕ} (row : OrgUnit)
      → live_unit units t ≡ some row
      → row.parent_org_unit_id ≡ some p
      → Above units u n p
      → Above units u (suc n) t

module _ (units : List OrgUnit) where
  climb_gone : (depth t : ℕ) → live_unit units t ≡ none → climb units depth t ≡ []
  unfolding climb
  climb_gone zero t e = ground arith
  climb_gone (suc depth) t e = ground arith

  climb_top :
      (t : ℕ) (row : OrgUnit) → live_unit units t ≡ some row → climb units zero t ≡ row.id ∷ []
  unfolding climb
  climb_top t row e = ground arith

  climb_root :
      (depth t : ℕ) (row : OrgUnit)
      → live_unit units t ≡ some row
      → row.parent_org_unit_id ≡ none
      → climb units (suc depth) t ≡ row.id ∷ []
  unfolding climb
  climb_root depth t row e root = ground arith

  climb_parent :
      (depth t p : ℕ) (row : OrgUnit)
      → live_unit units t ≡ some row
      → row.parent_org_unit_id ≡ some p
      → climb units (suc depth) t ≡ row.id ∷ climb units depth p
  unfolding climb
  climb_parent depth t p row e up = ground arith

  member-Above :
      (u depth t : ℕ)
      → member u (climb units depth t) ≡ true
      → (n : ℕ) × (n ≤ depth) × Above units u n t
  member-Above u zero t h = elim (Option-cases (live_unit units t)) [
    | inl gone ↦ let none_left = climb_gone zero t gone in absurd (ground arith)
    | inr (row, e) ↦
        let top = climb_top t row e in (0, omega arith, Above.self row e (ground arith))
  ]
  member-Above u (suc depth) t h = elim (Option-cases (live_unit units t)) [
    | inl gone ↦ let none_left = climb_gone (suc depth) t gone in absurd (ground arith)
    | inr (row, e) ↦ elim (Bool-cases (row.id == u)) [
      | inl found ↦ (0, omega arith, Above.self row e (ground arith))
      | inr other ↦ elim (Option-cases row.parent_org_unit_id) [
        | inl root ↦ let top = climb_root depth t row e root in absurd (ground arith)
        | inr (p, up) ↦
            let rest = climb_parent depth t p row e up in
            let (n, few, above) = member-Above u depth p (ground arith) in
            (suc n, omega arith, Above.parent row e up above)
      ]
    ]
  ]

  Above-member :
      {n t : ℕ} (u depth : ℕ)
      → n ≤ depth
      → Above units u n t
      → member u (climb units depth t) ≡ true
  Above-member {t = t} u zero few (self row e same) = let top = climb_top t row e in ground arith
  Above-member {t = t} u (suc depth) few (self row e same) =
      elim (Option-cases row.parent_org_unit_id) [
        | inl root ↦ let top = climb_root depth t row e root in ground arith
        | inr (p, up) ↦ let rest = climb_parent depth t p row e up in ground arith
      ]
  Above-member u zero few (parent row e up above) = absurd (omega arith)
  Above-member {t = t} u (suc depth) few (parent {p = p} row e up above) =
      let rest = climb_parent depth t p row e up in
      ground (arith, Above-member u depth (omega arith) above)

-- A grant's unit covers the target: a global grant covers everything, a scoped one its own unit and
-- what lies at most 64 steps below it.
abbrev pub Covers : Directory → Option ℕ → Option ℕ → Type 0
Covers dir none target = Unit
Covers dir (some u) none = ⊥
Covers dir (some u) (some t) = (n : ℕ) × (n ≤ max_ancestry_depth) × Above dir.org_units u n t

-- There is a grant of the permission to the user that is valid now and covers the target.
pub record Authorized (dir : Directory) (now user : ℕ) (perm : String) (target : Option ℕ)
    : Type 0 where
  pub grant : UserRole
  pub listed : In grant dir.user_roles
  pub current : IsCurrent dir now user perm grant
  pub covers : Covers dir grant.org_unit_id target

module _ (dir : Directory) (now user : ℕ) (perm : String) where
  scopes-grant :
      (q : Option ℕ → Bool)
      → any q (scoped_org_units dir now user perm) ≡ true
      → (g : UserRole) × In g dir.user_roles
        × (grants_now dir now user perm g ≡ true)
        × (q g.org_unit_id ≡ true)
  unfolding scoped_org_units
  scopes-grant q h =
      let (g, found, covered) =
        any-In (λ g. q g.org_unit_id) (filter (grants_now dir now user perm) dir.user_roles)
          (rw
            (← any-map q (λ (g : UserRole). g.org_unit_id)
              (filter (grants_now dir now user perm) dir.user_roles))
            h) in
      let (listed, current) = filter-In (grants_now dir now user perm) dir.user_roles found in
      (g, listed, current, covered)

  grant-scopes :
      (q : Option ℕ → Bool) {g : UserRole}
      → In g dir.user_roles
      → grants_now dir now user perm g ≡ true
      → q g.org_unit_id ≡ true
      → any q (scoped_org_units dir now user perm) ≡ true
  unfolding scoped_org_units
  grant-scopes q m t e =
      rw
        (any-map q (λ (g : UserRole). g.org_unit_id)
          (filter (grants_now dir now user perm) dir.user_roles))
        (In-any (λ g. q g.org_unit_id) (In-filter (grants_now dir now user perm) m t) e)

  pub Covers-global : (o target : Option ℕ) → is_none o ≡ true → Covers dir o target
  Covers-global none target h = tt
  Covers-global (some u) target h = cc

  pub Covers-unit :
      (o : Option ℕ) (t : ℕ)
      → is_covered (ancestors_or_self dir (some t)) o ≡ true
      → Covers dir o (some t)
  unfolding ancestors_or_self
  Covers-unit none t h = cc
  Covers-unit (some u) t h = member-Above dir.org_units u max_ancestry_depth t h

  pub unit-Covers :
      (u t : ℕ)
      → Covers dir (some u) (some t)
      → is_covered (ancestors_or_self dir (some t)) (some u) ≡ true
  unfolding ancestors_or_self
  unit-Covers u t (n, few, above) = Above-member dir.org_units u max_ancestry_depth few above

  authorize_global :
      (target : Option ℕ)
      → any is_none (scoped_org_units dir now user perm) ≡ true
      → authorize_scoped dir now user perm target ≡ true
  unfolding authorize_scoped
  authorize_global target h = ground arith

  authorize_nowhere :
      any is_none (scoped_org_units dir now user perm) ≡ false
      → authorize_scoped dir now user perm none ≡ false
  unfolding authorize_scoped
  authorize_nowhere h = ground arith

  authorize_unit :
      (t : ℕ)
      → any is_none (scoped_org_units dir now user perm) ≡ false
      → authorize_scoped dir now user perm (some t)
        ≡ any (is_covered (ancestors_or_self dir (some t))) (scoped_org_units dir now user perm)
  unfolding authorize_scoped intersects
  authorize_unit t h = ground arith

  granted :
      (target : Option ℕ)
      → authorize_scoped dir now user perm target ≡ true
      → Authorized dir now user perm target
  granted target h = elim (Bool-cases (any is_none (scoped_org_units dir now user perm))) [
    | inl everywhere ↦
        let (g, listed, current, global) = scopes-grant is_none everywhere in
        record {
          grant = g;
          listed = listed;
          current = grants_now-IsCurrent dir now user perm g current;
          covers = Covers-global g.org_unit_id target global;
        }
    | inr scoped ↦ granted_at target scoped h
  ]
    where
      granted_at :
          (target : Option ℕ)
          → any is_none (scoped_org_units dir now user perm) ≡ false
          → authorize_scoped dir now user perm target ≡ true
          → Authorized dir now user perm target
      granted_at none scoped h = let denied = authorize_nowhere scoped in cc
      granted_at (some t) scoped h =
          let (g, listed, current, covered) =
            scopes-grant (is_covered (ancestors_or_self dir (some t)))
              (rw (← authorize_unit t scoped) h) in
          record {
            grant = g;
            listed = listed;
            current = grants_now-IsCurrent dir now user perm g current;
            covers = Covers-unit g.org_unit_id t covered;
          }

  grant_suffices :
      (target o : Option ℕ) {g : UserRole}
      → In g dir.user_roles
      → grants_now dir now user perm g ≡ true
      → g.org_unit_id ≡ o
      → Covers dir o target
      → authorize_scoped dir now user perm target ≡ true
  grant_suffices target none m t e c =
      authorize_global target (grant-scopes is_none m t (rw e refl))
  grant_suffices none (some u) m t e c = absurd c
  grant_suffices (some a) (some u) m t e c =
      elim (Bool-cases (any is_none (scoped_org_units dir now user perm))) [
        | inl everywhere ↦ authorize_global (some a) everywhere
        | inr scoped ↦ rw (authorize_unit a scoped) (
            grant-scopes (is_covered (ancestors_or_self dir (some a))) m t
              (rw e (unit-Covers u a c)))
      ]

-- A user is authorized for a permission at a target exactly when a grant that is valid now carries
-- it and is global, or stands on a unit that the target reaches through at most 64 live parents;
-- with no target only a global grant counts.
pub authorize_scoped-Authorized :
    (dir : Directory) (now user : ℕ) (perm : String) (target : Option ℕ)
    → (authorize_scoped dir now user perm target ≡ true) ↔ Authorized dir now user perm target
authorize_scoped-Authorized dir now user perm target = (
  granted dir now user perm target,
  λ a.
      grant_suffices dir now user perm target a.grant.org_unit_id a.listed
        (IsCurrent-grants_now dir now user perm a.grant a.current) refl a.covers,
)
