-- ===== src/OrgUnits/Holders.antt =====
-- permission_holders, the inverse of authorize_scoped.
use office_connect.Base.{
  ℕ, ◌≡◌, ◌↔◌, refl, sym, ap, subst, ◌∙◌, inl, inr, Bool, true, ◌&&◌, ◌||◌, Option, none, some,
  List, [], ◌∷◌, String, ◌==◌, arith, In, here, there, filter, map, is_none, Bool-cases, any-In,
  In-any, filter-In, In-filter, In-map, map-In,
}
use office_connect.OrgUnits.{
  UserRole, Directory, User, Holder, grants_now, ancestors_or_self, is_covered, same_holder,
  holder_before, insert_holder, in_order, covers_target, is_active_user, permission_holders,
  authorize_scoped,
}
use office_connect.OrgUnits.Grants.{IsCurrent, grants_now-IsCurrent, IsCurrent-grants_now}
use office_connect.OrgUnits.Coverage.{Covers, authorize_scoped-Authorized, Covers-unit, unit-Covers}

same_holder-eq : (h k : Holder) → same_holder h k ≡ true → h ≡ k
same_holder-eq (u, none) (v, none) same = let e : u ≡ v = ground arith in rw e refl
same_holder-eq (u, none) (v, some b) same = absurd (ground arith)
same_holder-eq (u, some a) (v, none) same = absurd (ground arith)
same_holder-eq (u, some a) (v, some b) same =
    let e : u ≡ v = ground arith in let f : a ≡ b = ground arith in rw (e, f) refl

insert_holder-In :
    {x : Holder} (h : Holder) (ks : List Holder) → In x (insert_holder h ks) ↔ In x (h ∷ ks)
unfolding insert_holder
insert_holder-In h [] = (λ m. m, λ m. m)
insert_holder-In {x = x} h (k ∷ ks) =
    let (forth, back) = insert_holder-In {x = x} h ks in
    elim (Bool-cases (same_holder h k)) [
      | inl same ↦ rw same (
        λ m. there m,
        λ m. elim m [ here e ↦ here (sym (same_holder-eq h k same) ∙ e) | there n ↦ n ],
      )
      | inr other ↦ elim (Bool-cases (holder_before h k)) [
        | inl first ↦ rw (other, first) (λ m. m, λ m. m)
        | inr later ↦
            rw (other, later)
              (
                λ m. elim m [
                  | here e ↦ there (here e)
                  | there n ↦ elim (forth n) [ here e ↦ here e | there o ↦ there (there o) ]
                ],
                λ m. elim m [
                  | here e ↦ there (back (here e))
                  | there (here e) ↦ here e
                  | there (there n) ↦ there (back (there n))
                ],
              )
      ]
    ]

in_order-In : {x : Holder} (hs : List Holder) → In x (in_order hs) ↔ In x hs
unfolding in_order
in_order-In [] = (λ m. m, λ m. m)
in_order-In {x = x} (h ∷ hs) =
    let (forth, back) = in_order-In {x = x} hs in
    let (out, into) = insert_holder-In {x = x} h (in_order hs) in
    (
      λ m. elim (out m) [ here e ↦ here e | there n ↦ there (forth n) ],
      λ m. into (elim m [ here e ↦ here e | there n ↦ there (back n) ]),
    )

-- The account is live and active.
abbrev pub IsActive : List User → ℕ → Type 0
IsActive users id = (u : User) × In u users × (u.id ≡ id) × (u.is_active ≡ true)

-- An active user has a grant, at this unit, that carries the permission now and covers the target.
pub record IsHolder (dir : Directory) (users : List User) (now : ℕ) (perm : String)
    (target : Option ℕ) (user : ℕ) (unit : Option ℕ) : Type 0 where
  pub active : IsActive users user
  pub grant : UserRole
  pub listed : In grant dir.user_roles
  pub current : IsCurrent dir now user perm grant
  pub at_unit : grant.org_unit_id ≡ unit
  pub covers : Covers dir unit target

module _ (dir : Directory) (users : List User) (now : ℕ) (perm : String) (target : Option ℕ) where
  abbrev holds : UserRole → Bool
  holds g =
      grants_now dir now g.user_id perm g
      && is_active_user users g.user_id
      && covers_target (ancestors_or_self dir target) g

  is_active_user-IsActive : (id : ℕ) → is_active_user users id ≡ true → IsActive users id
  is_active_user-IsActive id h =
      let (u, listed, test) = any-In (λ u. u.id == id && u.is_active) users h in
      (u, listed, ground arith, ground arith)

  IsActive-is_active_user : (id : ℕ) → IsActive users id → is_active_user users id ≡ true
  IsActive-is_active_user id (u, listed, e, on) =
      In-any (λ (u : User). u.id == id && u.is_active) listed (ground arith)

  target_Covers :
      (t unit : Option ℕ)
      → (is_none unit || is_covered (ancestors_or_self dir t) unit) ≡ true
      → Covers dir unit t
  unfolding ancestors_or_self
  target_Covers t none h = tt
  target_Covers none (some u) h = cc
  target_Covers (some t) (some u) h = Covers-unit dir now 0 perm (some u) t h

  Covers-target :
      (t unit : Option ℕ)
      → Covers dir unit t
      → (is_none unit || is_covered (ancestors_or_self dir t) unit) ≡ true
  Covers-target t none h = refl
  Covers-target none (some u) h = absurd h
  Covers-target (some t) (some u) h = unit-Covers dir now 0 perm u t h

  holds-IsHolder :
      (g : UserRole)
      → In g dir.user_roles
      → holds g ≡ true
      → IsHolder dir users now perm target g.user_id g.org_unit_id
  holds-IsHolder g listed test = record {
    active = is_active_user-IsActive g.user_id (ground arith);
    grant = g;
    listed = listed;
    current = grants_now-IsCurrent dir now g.user_id perm g (ground arith);
    at_unit = refl;
    covers = target_Covers target g.org_unit_id (ground arith);
  }

  IsHolder-holds :
      (user : ℕ) (unit : Option ℕ) (h : IsHolder dir users now perm target user unit)
      → holds h.grant ≡ true
  IsHolder-holds user unit h =
      let e = h.current.holder in
      let granted : grants_now dir now h.grant.user_id perm h.grant ≡ true =
        subst (λ (u : ℕ). grants_now dir now u perm h.grant ≡ true) (sym e)
          (IsCurrent-grants_now dir now user perm h.grant h.current) in
      let active : is_active_user users h.grant.user_id ≡ true =
        subst (λ (u : ℕ). is_active_user users u ≡ true) (sym e)
          (IsActive-is_active_user user h.active) in
      let covered : covers_target (ancestors_or_self dir target) h.grant ≡ true =
        rw h.at_unit (Covers-target target unit h.covers) in
      ground arith

  -- The pairs that permission_holders lists are exactly the active users with a grant that carries the
  -- permission now and covers the target, each with the unit of such a grant.
  pub permission_holders-IsHolder :
      (user : ℕ) (unit : Option ℕ)
      → In (user, unit) (permission_holders dir users now perm target)
        ↔ IsHolder dir users now perm target user unit
  unfolding permission_holders
  permission_holders-IsHolder user unit =
      let pair : UserRole → Holder = λ g. (g.user_id, g.org_unit_id) in
      let (forth, back) = in_order-In {x = (user, unit)} (map pair (filter holds dir.user_roles)) in
      (
        λ m.
            let (g, found, e) = map-In pair (filter holds dir.user_roles) (forth m) in
            let (listed, test) = filter-In holds dir.user_roles found in
            subst (λ (p : Holder). IsHolder dir users now perm target p.0 p.1) e
              (holds-IsHolder g listed test),
        λ h.
            let same : pair h.grant ≡ (user, unit) =
              ap (λ (u : ℕ). (u, h.grant.org_unit_id)) h.current.holder
              ∙ ap (λ (o : Option ℕ). (user, o)) h.at_unit in
            back (
              subst (λ (p : Holder). In p (map pair (filter holds dir.user_roles))) same
                (In-map pair (In-filter holds h.listed (IsHolder-holds user unit h)))),
      )

  -- permission_holders and authorize_scoped agree: an active user is authorized for the permission at the
  -- target exactly where the list has a pair of that user.
  pub permission_holders-authorize_scoped :
      (user : ℕ)
      → IsActive users user
      → (authorize_scoped dir now user perm target ≡ true)
        ↔ ((unit : Option ℕ) × In (user, unit) (permission_holders dir users now perm target))
  permission_holders-authorize_scoped user active =
      let (granted, sufficient) = authorize_scoped-Authorized dir now user perm target in
      (
        λ h.
            let a = granted h in
            (
              a.grant.org_unit_id,
              (permission_holders-IsHolder user a.grant.org_unit_id).1 (record {
                active = active;
                grant = a.grant;
                listed = a.listed;
                current = a.current;
                at_unit = refl;
                covers = a.covers;
              }),
            ),
        λ (unit, m).
            let h = (permission_holders-IsHolder user unit).0 m in
            sufficient (record {
              grant = h.grant;
              listed = h.listed;
              current = h.current;
              covers = subst (λ (o : Option ℕ). Covers dir o target) (sym h.at_unit) h.covers;
            }),
      )
