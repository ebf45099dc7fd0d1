-- ===== src/OrgUnits/Examples.antt =====
-- A finance section (2) under a bureau (1), and the permission "claims.approve" granted at the bureau.
use office_connect.Base.{
  ℕ, ◌≡◌, ◌↔◌, refl, subst, Option, true, false, none, some, [], ◌∷◌, In, here, there,
}
use office_connect.OrgUnits.{
  OrgUnit, UserRole, Directory, live_unit, climb, ancestors_or_self, carries, grants_now,
  scoped_org_units, intersects, authorize_scoped, User, permission_holders, member,
  descendants_or_self,
}
use office_connect.OrgUnits.Holders.{permission_holders-authorize_scoped}
use office_connect.OrgUnits.Subtree.{HasKeys, descendants_or_self-ancestors_or_self}
use office_connect.OrgUnits.Coverage.{Authorized, authorize_scoped-Authorized}

abbrev pub bureau : OrgUnit
bureau = record { id = 1; parent_org_unit_id = none; deleted = false }

abbrev pub section : OrgUnit
section = record { id = 2; parent_org_unit_id = some 1; deleted = false }

abbrev approver_at_bureau : UserRole
approver_at_bureau = record {
  user_id = 7;
  role_id = 3;
  org_unit_id = some 1;
  valid_from = none;
  valid_to = some 100;
}

abbrev pub office : Directory
office = record {
  org_units = bureau ∷ section ∷ [];
  permissions = record { id = 5; code = "claims.approve" } ∷ [];
  role_permissions = record { role_id = 3; permission_id = 5 } ∷ [];
  user_roles = approver_at_bureau ∷ [];
}

ancestors-section : ancestors_or_self office (some 2) ≡ 2 ∷ 1 ∷ []
unfolding ancestors_or_self climb live_unit
ancestors-section = refl

authorized_below : authorize_scoped office 10 7 "claims.approve" (some 2) ≡ true
unfolding authorize_scoped scoped_org_units grants_now carries intersects ancestors_or_self climb
    live_unit
authorized_below = refl

-- The window has closed at 100, and a scoped grant never answers for a request without a unit.
not_authorized_later : authorize_scoped office 100 7 "claims.approve" (some 2) ≡ false
unfolding authorize_scoped scoped_org_units grants_now carries intersects ancestors_or_self climb
    live_unit
not_authorized_later = refl

not_authorized_globally : authorize_scoped office 10 7 "claims.approve" none ≡ false
unfolding authorize_scoped scoped_org_units grants_now carries
not_authorized_globally = refl

authorize_scoped-Authorized_example :
    (authorize_scoped office 10 7 "claims.approve" (some 2) ≡ true)
    ↔ Authorized office 10 7 "claims.approve" (some 2)
authorize_scoped-Authorized_example =
    authorize_scoped-Authorized office 10 7 "claims.approve" (some 2)

abbrev approver : User
approver = record { id = 7; is_active = true }

permission_holders-authorize_scoped_example :
    (authorize_scoped office 10 7 "claims.approve" (some 2) ≡ true) ↔ (
      (unit : Option ℕ) × In
        (7, unit)
        (permission_holders office (approver ∷ []) 10 "claims.approve" (some 2)))
permission_holders-authorize_scoped_example =
    permission_holders-authorize_scoped office (approver ∷ []) 10 "claims.approve" (some 2) 7
      (approver, here refl, refl, refl)

office_keys : HasKeys office.org_units
unfolding live_unit
office_keys u (here e) live =
    subst (λ (v : OrgUnit). live_unit office.org_units v.id ≡ some v) e refl
office_keys u (there (here e)) live =
    subst (λ (v : OrgUnit). live_unit office.org_units v.id ≡ some v) e refl
office_keys u (there (there m)) live = elim m [ ]

descendants_or_self-ancestors_or_self_example :
    In 2 (descendants_or_self office (1 ∷ []))
    ↔ ((r : ℕ) × In r (1 ∷ []) × (member r (ancestors_or_self office (some 2)) ≡ true))
descendants_or_self-ancestors_or_self_example =
    descendants_or_self-ancestors_or_self office (1 ∷ []) 2 office_keys
