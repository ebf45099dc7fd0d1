-- ===== src/Workflow/Delegation/Holders.antt =====
-- Who may act: a holder of the permission, or a delegate of one.
use office_connect.Base.{
  find?-In, ℕ, ◌≡◌, ◌⊎◌, ◌↔◌, refl, sym, ap, ◌∙◌, Bool, true, false, Option, none, some, List,
  String, arith, In, here, there, find?, filter, filter-In, In-filter, find?-holds, Bool-cases,
  Option-cases, inl, inr,
}
use office_connect.OrgUnits.{authorize_scoped}
use office_connect.OrgUnits.Coverage.{Authorized, authorize_scoped-Authorized}
use office_connect.Workflow.Types.{Db, Delegation}
use office_connect.Workflow.Delegation.{
  Authority, covers_request, first_delegator, resolve_authority,
}
use office_connect.Workflow.Delegation.Covering.{
  IsCovering, covers_request-IsCovering, IsCovering-covers_request,
}

pub find?-none :
    {A : Type 0} (p : A → Bool) {x : A} {xs : List A} → find? p xs ≡ none → In x xs → p x ≡ false
find?-none p h (here e) = ground arith
find?-none p h (there {x = y} {xs = xs} m) = elim (Bool-cases (p y)) [
  | inl on ↦ ground arith
  | inr off ↦ find?-none p (ground arith) m
]

module _ (db : Db) (actor : ℕ) (perm : String) (org_unit definition : Option ℕ) (now : ℕ) where
  -- A direct grant at the unit, as of the clock.
  abbrev pub Holds : ℕ → Type 0
  Holds user = Authorized db.directory db.clock user perm org_unit

  holds : (user : ℕ) → authorize_scoped db.directory db.clock user perm org_unit ≡ true → Holds user
  holds user h = (authorize_scoped-Authorized db.directory db.clock user perm org_unit).0 h

  Holds-authorized :
      (user : ℕ) → Holds user → authorize_scoped db.directory db.clock user perm org_unit ≡ true
  Holds-authorized user h =
      (authorize_scoped-Authorized db.directory db.clock user perm org_unit).1 h

  -- A delegation to the actor that covers the request, from a holder.
  pub record DelegatedBy (delegator : ℕ) : Type 0 where
    pub delegation : Delegation
    pub recorded : In delegation db.delegations
    pub covers : IsCovering db actor org_unit definition now delegation
    pub from : delegation.delegator_user_id ≡ delegator
    pub holder : Holds delegator

  abbrev held_by_delegator : Delegation → Bool
  held_by_delegator d = authorize_scoped db.directory db.clock d.delegator_user_id perm org_unit

  abbrev candidates : List Delegation
  candidates = filter (covers_request db actor org_unit definition now) db.delegations

  abbrev resolved : Authority
  resolved = resolve_authority db actor (some perm) org_unit definition now

  direct :
      authorize_scoped db.directory db.clock actor perm org_unit ≡ true
      → (resolved.authorized ≡ true) × (resolved.on_behalf_of ≡ none)
  unfolding resolve_authority
  direct grant = (ground arith, ground arith)

  indirect :
      authorize_scoped db.directory db.clock actor perm org_unit ≡ false
      → resolved ≡ first_delegator (find? held_by_delegator candidates)
  unfolding resolve_authority
  indirect lacks = ground arith

  delegated_from :
      (d : Delegation)
      → find? held_by_delegator candidates ≡ some d
      → DelegatedBy d.delegator_user_id
  delegated_from d found =
      let member =
        filter-In (covers_request db actor org_unit definition now) db.delegations
          (find?-In held_by_delegator candidates found) in
      record {
        delegation = d;
        recorded = member.0;
        covers = covers_request-IsCovering db actor org_unit definition now d member.1;
        from = refl;
        holder = holds d.delegator_user_id (find?-holds held_by_delegator candidates found);
      }

  no_delegator :
      (delegator : ℕ) → find? held_by_delegator candidates ≡ none → DelegatedBy delegator → ⊥
  no_delegator delegator absent by =
      let unheld = find?-none held_by_delegator absent (
        In-filter (covers_request db actor org_unit definition now) by.recorded
          (IsCovering-covers_request db actor org_unit definition now by.delegation by.covers)) in
      let holder = Holds-authorized delegator by.holder in
      let from = by.from in cc (unheld, holder, from)

-- A permission is granted exactly to a direct holder and to a delegate of a holder, by a delegation that
-- runs at the time from its start until before its end, for any definition or this one and for any unit or
-- one on the chain of parents of this one. (A holder has a grant that is valid at the clock and covers the
-- unit.) Where the authority names someone acted for, the actor does not hold the permission and that
-- person has delegated it so to the actor.
pub resolve_authority-Holds :
    (db : Db) (actor : ℕ) (perm : String) (org_unit definition : Option ℕ) (now : ℕ)
    → let a = resolve_authority db actor (some perm) org_unit definition now in
      ((a.authorized ≡ true) ↔ (
        Holds db actor perm org_unit definition now actor
        ⊎ ((b : ℕ) × DelegatedBy db actor perm org_unit definition now b)))
      × ((b : ℕ)
          → a.on_behalf_of ≡ some b
          → (¬ Holds db actor perm org_unit definition now actor)
            × DelegatedBy db actor perm org_unit definition now b)
resolve_authority-Holds db actor perm org_unit definition now =
    elim (Bool-cases (authorize_scoped db.directory db.clock actor perm org_unit)) [
      | inl granted ↦
          let got = direct db actor perm org_unit definition now granted in
          (
            (λ h. inl (holds db actor perm org_unit definition now actor granted), λ h. got.0),
            λ b h. let nobody = got.1 in cc (nobody, h),
          )
      | inr lacks ↦
          let same = indirect db actor perm org_unit definition now lacks in
          elim (Option-cases (
            find? (held_by_delegator db actor perm org_unit definition now)
              (candidates db actor perm org_unit definition now))) [
                | inl absent ↦
                    let refused = same ∙ ap first_delegator absent in
                    (
                      (
                        λ h. cc (h, refused),
                        λ h. elim h [
                          | inl own ↦
                              let granted =
                                Holds-authorized db actor perm org_unit definition now actor own in
                              cc (granted, lacks)
                          | inr (b, by) ↦
                              absurd
                                (no_delegator db actor perm org_unit definition now b absent by)
                        ],
                      ),
                      λ b h. cc (h, refused),
                    )
                | inr (d, found) ↦
                    let by = delegated_from db actor perm org_unit definition now d found in
                    let granted = same ∙ ap first_delegator found in
                    let on = ap (λ (x : Authority). x.authorized) granted in
                    let named = ap (λ (x : Authority). x.on_behalf_of) granted in
                    (
                      (λ h. inr (d.delegator_user_id, by), λ h. on),
                      λ b h.
                          let is : d.delegator_user_id ≡ b = same_some (sym named ∙ h) in
                          (
                            λ own.
                                let granted =
                                  Holds-authorized db actor perm org_unit definition now actor
                                    own in
                                cc (granted, lacks),
                            rw is at by,
                          ),
                    )
              ]
    ]
  where
    same_some : {x y : ℕ} → some x ≡ some y → x ≡ y
    same_some p = cc
