-- ===== src/OrgUnits.antt =====
-- office_connect/core/org_units.py: the organisation tree and permissions that are granted at a unit.
-- The tables are lists of rows in the order in which the database returns them. Rows of the other
-- tables that are soft-deleted are never returned by a session, so those lists hold live rows only;
-- `core_org_units` is read without that filter, so its rows carry the mark.
-- Times are counted in seconds.
pub mod Grants
pub mod Coverage
pub mod Holders
pub mod Subtree
mod Examples
use office_connect.Base.{
  ℕ, zero, suc, Bool, true, false, not, ◌&&◌, ◌||◌, Option, none, some, List, [], ◌∷◌, ◌++◌, String,
  leb, ltb, ◌==◌, if◌then◌else◌, find?, filter, any, map, is_none, is_id,
}
use text.Mathlib.Text.{◌==◌ as str_eq}

-- models/org_unit.py: the columns that the walk reads
pub record OrgUnit : Type 0 where
  pub id : ℕ
  pub parent_org_unit_id : Option ℕ
  pub deleted : Bool

pub record Permission : Type 0 where
  pub id : ℕ
  pub code : String

pub record RolePermission : Type 0 where
  pub role_id : ℕ
  pub permission_id : ℕ

pub record UserRole : Type 0 where
  pub user_id : ℕ
  pub role_id : ℕ
  pub org_unit_id : Option ℕ
  pub valid_from : Option ℕ
  pub valid_to : Option ℕ

pub record Directory : Type 0 where
  pub org_units : List OrgUnit
  pub permissions : List Permission
  pub role_permissions : List RolePermission
  pub user_roles : List UserRole

-- `_MAX_ANCESTRY_DEPTH`
abbrev pub max_ancestry_depth : ℕ
max_ancestry_depth = 64

-- the row with a primary key, unless it is soft-deleted
unfoldable pub live_unit : List OrgUnit → ℕ → Option OrgUnit
live_unit units id = find? (λ u. u.id == id && not u.deleted) units

-- the recursive query: `depth` parents may still be joined
pub climb : List OrgUnit → ℕ → ℕ → List ℕ
climb units zero id = elim (live_unit units id) [ none ↦ [] | some u ↦ u.id ∷ [] ]
climb units (suc depth) id = elim (live_unit units id) [
  | none ↦ []
  | some u ↦ u.id ∷ elim u.parent_org_unit_id [ none ↦ [] | some p ↦ climb units depth p ]
]

unfoldable pub ancestors_or_self : Directory → Option ℕ → List ℕ
unfolding climb
ancestors_or_self dir none = []
ancestors_or_self dir (some id) = climb dir.org_units max_ancestry_depth id

-- `or_(column.is_(None), column <= now)`
abbrev pub opened : Option ℕ → ℕ → Bool
opened none now = true
opened (some t) now = leb t now

-- `or_(column.is_(None), column > now)`
abbrev pub not_closed : Option ℕ → ℕ → Bool
not_closed none now = true
not_closed (some t) now = ltb now t

-- the two joins: the role of the grant carries the permission with this code
unfoldable pub carries : Directory → String → UserRole → Bool
carries dir perm grant =
    any
      (λ r.
        r.role_id == grant.role_id
        && any (λ p. p.id == r.permission_id && str_eq p.code perm) dir.permissions)
      dir.role_permissions

unfoldable pub grants_now : Directory → ℕ → ℕ → String → UserRole → Bool
grants_now dir now user perm grant =
    grant.user_id == user
    && carries dir perm grant
    && opened grant.valid_from now
    && not_closed grant.valid_to now

unfoldable pub scoped_org_units : Directory → ℕ → ℕ → String → List (Option ℕ)
scoped_org_units dir now user perm =
    map (λ g. g.org_unit_id) (filter (grants_now dir now user perm) dir.user_roles)

abbrev pub member : ℕ → List ℕ → Bool
member n = any (λ m. m == n)

abbrev pub is_covered : List ℕ → Option ℕ → Bool
is_covered covered none = false
is_covered covered (some u) = member u covered

-- `{s for s in scopes if s is not None} & covered`
unfoldable pub intersects : List (Option ℕ) → List ℕ → Bool
intersects scopes covered = any (is_covered covered) scopes

-- `not xs`
abbrev pub is_empty {ℓ} : {A : Type ℓ} → List A → Bool
is_empty [] = true
is_empty (x ∷ xs) = false

-- `now` is the clock: `authorize_scoped` passes no time on, so `scoped_org_units` reads `utc_now()`.
unfoldable pub authorize_scoped : Directory → ℕ → ℕ → String → Option ℕ → Bool
authorize_scoped dir now user perm target =
    let scopes = scoped_org_units dir now user perm in
    if is_empty scopes
    then false
    else if any is_none scopes
    then true
    else elim target [ none ↦ false | some t ↦ intersects scopes (ancestors_or_self dir (some t)) ]

-- models/user.py: the columns that `permission_holders` reads
pub record User : Type 0 where
  pub id : ℕ
  pub is_active : Bool

-- the step of the second recursive query: the live rows whose parent is `id`
abbrev pub children : List OrgUnit → ℕ → List ℕ
children units id =
    map (λ u. u.id) (filter (λ u. is_id u.parent_org_unit_id id && not u.deleted) units)

abbrev pub each {ℓ κ} : {A : Type ℓ} {B : Type κ} → (A → List B) → List A → List B
each f [] = []
each f (x ∷ xs) = f x ++ each f xs

-- a unit of the query's result with what is joined below it, `depth` levels deep
unfoldable pub subtree : List OrgUnit → ℕ → ℕ → List ℕ
subtree units zero id = id ∷ []
subtree units (suc depth) id = id ∷ each (subtree units depth) (children units id)

-- the base of the query: the root, where it is live
unfoldable pub below_root : Directory → ℕ → List ℕ
unfolding subtree live_unit
below_root dir root = elim (live_unit dir.org_units root) [
  | none ↦ []
  | some u ↦ subtree dir.org_units max_ancestry_depth u.id
]

-- The set is a list here: an element may stand in it more than once.
unfoldable pub descendants_or_self : Directory → List ℕ → List ℕ
unfolding below_root
descendants_or_self dir roots = each (below_root dir) roots

-- the order of `(user_id, org_unit_id)`, where NULL comes last
abbrev pub Holder : Type 0
Holder = ℕ × Option ℕ

abbrev pub unit_before : Option ℕ → Option ℕ → Bool
unit_before none b = false
unit_before (some a) none = true
unit_before (some a) (some b) = ltb a b

abbrev pub holder_before : Holder → Holder → Bool
holder_before (user, unit) (other, at) = ltb user other || (user == other && unit_before unit at)

abbrev pub same_unit : Option ℕ → Option ℕ → Bool
same_unit none none = true
same_unit (some a) (some b) = a == b
same_unit a b = false

abbrev pub same_holder : Holder → Holder → Bool
same_holder (user, unit) (other, at) = user == other && same_unit unit at

-- `distinct().order_by(...)`
unfoldable pub insert_holder : Holder → List Holder → List Holder
insert_holder h [] = h ∷ []
insert_holder h (k ∷ ks) =
    let rest = insert_holder h ks in
    if same_holder h k then k ∷ ks else if holder_before h k then h ∷ k ∷ ks else k ∷ rest

unfoldable pub in_order : List Holder → List Holder
unfolding insert_holder
in_order [] = []
in_order (h ∷ hs) = insert_holder h (in_order hs)

abbrev pub covers_target : List ℕ → UserRole → Bool
covers_target covered g = is_none g.org_unit_id || is_covered covered g.org_unit_id

abbrev pub is_active_user : List User → ℕ → Bool
is_active_user users id = any (λ u. u.id == id && u.is_active) users

unfoldable pub permission_holders : Directory → List User → ℕ → String → Option ℕ → List Holder
unfolding in_order grants_now
permission_holders dir users now perm target =
    let covered = ancestors_or_self dir target in
    in_order (
      map (λ g. (g.user_id, g.org_unit_id))
        (filter
          (λ g.
            grants_now dir now g.user_id perm g
            && is_active_user users g.user_id
            && covers_target covered g)
          dir.user_roles))
