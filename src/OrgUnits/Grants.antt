-- ===== src/OrgUnits/Grants.antt =====
-- The joins and the validity window of scoped_org_units, as a statement about the rows.
use office_connect.Base.{
  ℕ, ◌≤◌, ◌<◌, ◌≡◌, refl, true, Bool, ◌&&◌, Option, none, some, String, arith, In, any-In, In-any,
  ◌==◌, eq_iff, any,
}
use office_connect.OrgUnits.{
  Permission, RolePermission, UserRole, Directory, carries, grants_now, opened, not_closed,
}
use text.Mathlib.Text.{◌==◌ as str_eq}

abbrev pub Started : Option ℕ → ℕ → Type 0
Started none now = Unit
Started (some t) now = t ≤ now

abbrev pub Running : Option ℕ → ℕ → Type 0
Running none now = Unit
Running (some t) now = now < t

-- The grant is the user's, its role is joined to a permission with the code, and it is valid now:
-- from `valid_from` on, and before `valid_to`.
pub record IsCurrent (dir : Directory) (now user : ℕ) (perm : String) (g : UserRole) : Type 0 where
  pub holder : g.user_id ≡ user
  pub link : RolePermission
  pub link_listed : In link dir.role_permissions
  pub link_role : link.role_id ≡ g.role_id
  pub permission : Permission
  pub permission_listed : In permission dir.permissions
  pub permission_id : permission.id ≡ link.permission_id
  pub code : permission.code ≡ perm
  pub started : Started g.valid_from now
  pub running : Running g.valid_to now

and_right : (a b : Bool) → a && b ≡ true → b ≡ true
and_right a b h = ground arith

opened-Started : (o : Option ℕ) (now : ℕ) → opened o now ≡ true → Started o now
opened-Started none now h = tt
opened-Started (some t) now h = ground arith

not_closed-Running : (o : Option ℕ) (now : ℕ) → not_closed o now ≡ true → Running o now
not_closed-Running none now h = tt
not_closed-Running (some t) now h = ground arith

Started-opened : (o : Option ℕ) (now : ℕ) → Started o now → opened o now ≡ true
Started-opened none now h = refl
Started-opened (some t) now h = ground arith

Running-not_closed : (o : Option ℕ) (now : ℕ) → Running o now → not_closed o now ≡ true
Running-not_closed none now h = refl
Running-not_closed (some t) now h = ground arith

module _ (dir : Directory) (now user : ℕ) (perm : String) (g : UserRole) where
  abbrev names : RolePermission → Permission → Bool
  names r p = p.id == r.permission_id && str_eq p.code perm

  grants_now-parts :
      grants_now dir now user perm g ≡ true
      → (g.user_id ≡ user)
        × (carries dir perm g ≡ true)
        × (opened g.valid_from now ≡ true)
        × (not_closed g.valid_to now ≡ true)
  unfolding grants_now
  grants_now-parts h = ground arith

  grants_now-join :
      g.user_id ≡ user
      → carries dir perm g ≡ true
      → opened g.valid_from now ≡ true
      → not_closed g.valid_to now ≡ true
      → grants_now dir now user perm g ≡ true
  unfolding grants_now
  grants_now-join a b c d = ground arith

  pub grants_now-IsCurrent : grants_now dir now user perm g ≡ true → IsCurrent dir now user perm g
  unfolding carries
  grants_now-IsCurrent h =
      let (holder, carried, open_now, open_still) = grants_now-parts h in
      let (r, listed, linked) =
        any-In (λ r. r.role_id == g.role_id && any (names r) dir.permissions) dir.role_permissions
          carried in
      let (p, found, named) =
        any-In (names r) dir.permissions
          (and_right (r.role_id == g.role_id) (any (names r) dir.permissions) linked) in
      record {
        holder = holder;
        link = r;
        link_listed = listed;
        link_role = ground arith;
        permission = p;
        permission_listed = found;
        permission_id = ground arith;
        code =
            (eq_iff p.code perm).0 (and_right (p.id == r.permission_id) (str_eq p.code perm) named);
        started = opened-Started g.valid_from now open_now;
        running = not_closed-Running g.valid_to now open_still;
      }

  pub IsCurrent-grants_now : IsCurrent dir now user perm g → grants_now dir now user perm g ≡ true
  unfolding carries
  IsCurrent-grants_now c =
      let same_code = (eq_iff c.permission.code perm).1 c.code in
      let same_id = c.permission_id in
      let same_role = c.link_role in
      let named : names c.link c.permission ≡ true = ground arith in
      let some_permission = In-any (names c.link) c.permission_listed named in
      grants_now-join c.holder
        (In-any (λ r. r.role_id == g.role_id && any (names r) dir.permissions) c.link_listed
          (ground arith))
        (Started-opened g.valid_from now c.started) (Running-not_closed g.valid_to now c.running)
