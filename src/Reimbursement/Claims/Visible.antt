-- ===== src/Reimbursement/Claims/Visible.antt =====
-- Who may see a claim (may_see_claim of services/lifecycle.py), stated on the rows.
use office_connect.Base.{
  ℕ, ◌≡◌, ◌≢◌, ◌⊎◌, refl, sym, ap, ◌∙◌, Bool, true, false, Option, none, some, String, inl, inr,
  Bool-cases, Option-cases, any, In, here, there, any-In, In-any, arith, is_id, ◌==◌,
}
use office_connect.OrgUnits.{authorize_scoped}
use office_connect.OrgUnits.Coverage.{Authorized, authorize_scoped-Authorized}
use office_connect.Reimbursement.Claims.{
  is_claim_owner, or_id, unit_of_staff, unit_of_instance, unit_of_claim, oversight_perms,
  may_see_claim,
}
use office_connect.Reimbursement.Records.{Account, Staff, Claim, Store, find_account, find_staff}
use office_connect.Workflow.Transitions.{find_instance}
use office_connect.Workflow.Types.{Instance}

-- The actor has the account of the staff member who claims.
pub record IsOwner (s : Store) (claim : Claim) (actor : ℕ) : Type 0 where
  pub account : Account
  pub found : find_account s actor ≡ some account
  pub staff : account.staff_id ≡ some claim.claimant_id

-- The unit of the instance that the claim is linked to.
pub record InstanceUnit (s : Store) (claim : Claim) (unit : ℕ) : Type 0 where
  pub id : ℕ
  pub link : claim.workflow_instance_id ≡ some id
  pub i : Instance
  pub found : find_instance s.db id ≡ some i
  pub placed : i.org_unit_id ≡ some unit

-- The section of the claimant, or, where there is none or it is 0, the division.
pub record StaffUnit (s : Store) (claim : Claim) (unit : ℕ) : Type 0 where
  pub row : Staff
  pub found : find_staff s claim.claimant_id ≡ some row
  pub placed :
      ((row.section_id ≡ some unit) × (unit ≢ 0))
      ⊎ (((row.section_id ≡ none) ⊎ (row.section_id ≡ some 0)) × (row.division_id ≡ some unit))

-- The unit of the claim: that of its instance, else that of the claimant.
abbrev pub IsUnitOf : Store → Claim → ℕ → Type 0
IsUnitOf s claim unit =
    InstanceUnit s claim unit ⊎ (((u : ℕ) → ¬ InstanceUnit s claim u) × StaffUnit s claim unit)

-- The permissions of those who oversee claims.
abbrev pub IsOversight : String → Type 0
IsOversight perm =
    (perm ≡ "reimb.claim.review")
    ⊎ (perm ≡ "reimb.claim.fms_update")
    ⊎ (perm ≡ "reimb.claim.approve")

-- The actor holds one of them at the unit of the claim.
pub record Oversees (s : Store) (claim : Claim) (actor : ℕ) : Type 0 where
  pub unit : ℕ
  pub placed : IsUnitOf s claim unit
  pub perm : String
  pub oversight : IsOversight perm
  pub grant : Authorized s.db.directory s.db.clock actor perm (some unit)

abbrev pub Sees : Store → Claim → ℕ → Type 0
Sees s claim actor = IsOwner s claim actor ⊎ Oversees s claim actor

same_value {ℓ} : {A : Type ℓ} {p q : A} → some p ≡ some q → p ≡ q
same_value e = cc

same_id-some : (o : Option ℕ) (n : ℕ) → is_id o n ≡ true → o ≡ some n
same_id-some none n h = cc
same_id-some (some m) n h = let same : m ≡ n = ground arith in ap some same

module _ (s : Store) (claim : Claim) (actor : ℕ) where
  pub is_claim_owner-IsOwner : is_claim_owner s claim actor ≡ true → IsOwner s claim actor
  unfolding is_claim_owner
  is_claim_owner-IsOwner h = elim (Option-cases (find_account s actor)) [
    | inl nobody ↦ absurd (let no = rw (nobody, is_claim_owner) at h in cc)
    | inr (a, found) ↦ record {
      account = a;
      found = found;
      staff = same_id-some a.staff_id claim.claimant_id (rw (found, is_claim_owner) at h);
    }
  ]

  IsOwner-owner : IsOwner s claim actor → is_claim_owner s claim actor ≡ true
  unfolding is_claim_owner
  IsOwner-owner o = rw (o.found, is_claim_owner) (rw o.staff (ground arith))

module _ (s : Store) (claim : Claim) where
  instance_unit :
      {unit : ℕ}
      → unit_of_instance s claim.workflow_instance_id ≡ some unit
      → InstanceUnit s claim unit
  instance_unit {unit} h = placed claim.workflow_instance_id refl h
    where
      at_instance :
          (id : ℕ) (o : Option Instance)
          → claim.workflow_instance_id ≡ some id
          → find_instance s.db id ≡ o
          → elim o [ none ↦ none | some i ↦ i.org_unit_id ] ≡ some unit
          → InstanceUnit s claim unit
      at_instance id none link found k = cc
      at_instance id (some i) link found k = record {
        id = id;
        link = link;
        i = i;
        found = found;
        placed = k;
      }

      placed :
          (o : Option ℕ)
          → claim.workflow_instance_id ≡ o
          → unit_of_instance s o ≡ some unit
          → InstanceUnit s claim unit
      placed none link k = cc
      placed (some id) link k = at_instance id (find_instance s.db id) link refl k

  unit_instance :
      {unit : ℕ}
      → InstanceUnit s claim unit
      → unit_of_instance s claim.workflow_instance_id ≡ some unit
  unit_instance p = rw (p.link, unit_of_instance) (rw p.found p.placed)

  staff_unit : {unit : ℕ} → unit_of_staff s claim.claimant_id ≡ some unit → StaffUnit s claim unit
  unfolding unit_of_staff
  staff_unit {unit} h = elim (Option-cases (find_staff s claim.claimant_id)) [
    | inl nobody ↦ absurd (let no = rw (nobody, unit_of_staff) at h in cc)
    | inr (row, found) ↦ record {
      row = row;
      found = found;
      placed = either row.section_id row.division_id (rw (found, unit_of_staff) at h);
    }
  ]
    where
      either :
          (a b : Option ℕ)
          → or_id a b ≡ some unit
          → ((a ≡ some unit) × (unit ≢ 0)) ⊎ (((a ≡ none) ⊎ (a ≡ some 0)) × (b ≡ some unit))
      either none b k = inr (inl refl, k)
      either (some m) b k = elim (Bool-cases (m == 0)) [
        | inl nil ↦ let zero_id : m ≡ 0 = ground arith in inr (inr (ap some zero_id), rw nil at k)
        | inr real ↦ let same = same_value (rw real at k) in inl (ap some same, ground arith)
      ]

  unit_staff : {unit : ℕ} → StaffUnit s claim unit → unit_of_staff s claim.claimant_id ≡ some unit
  unfolding unit_of_staff
  unit_staff {unit} p =
      rw (p.found, unit_of_staff) (either p.row.section_id p.row.division_id p.placed)
    where
      either :
          (a b : Option ℕ)
          → ((a ≡ some unit) × (unit ≢ 0)) ⊎ (((a ≡ none) ⊎ (a ≡ some 0)) × (b ≡ some unit))
          → or_id a b ≡ some unit
      either a b (inl (e, real)) = rw e (ground arith)
      either a b (inr (inl e, k)) = rw e k
      either a b (inr (inr e, k)) = rw e k

  unit_of_claim-IsUnitOf : {unit : ℕ} → unit_of_claim s claim ≡ some unit → IsUnitOf s claim unit
  unfolding unit_of_claim
  unit_of_claim-IsUnitOf {unit} h =
      elim (Option-cases (unit_of_instance s claim.workflow_instance_id)) [
        | inl unplaced ↦ inr (
          λ u p. let known = unit_instance p in cc (known, unplaced),
          staff_unit (rw (unplaced, unit_of_claim) at h),
        )
        | inr (u, known) ↦ inl (instance_unit (known ∙ (rw (known, unit_of_claim) at h)))
      ]

  IsUnitOf-unit_of_claim : {unit : ℕ} → IsUnitOf s claim unit → unit_of_claim s claim ≡ some unit
  unfolding unit_of_claim
  IsUnitOf-unit_of_claim (inl p) = rw (unit_instance p, unit_of_claim) refl
  IsUnitOf-unit_of_claim (inr (unplaced, p)) =
      elim (Option-cases (unit_of_instance s claim.workflow_instance_id)) [
        | inl absent ↦ rw (absent, unit_of_claim) (unit_staff p)
        | inr (u, known) ↦ absurd (unplaced u (instance_unit known))
      ]

listed-IsOversight : {perm : String} → In perm oversight_perms → IsOversight perm
listed-IsOversight (here e) = inl (sym e)
listed-IsOversight (there (here e)) = inr (inl (sym e))
listed-IsOversight (there (there (here e))) = inr (inr (sym e))
listed-IsOversight (there (there (there m))) = elim m [ ]

IsOversight-listed : {perm : String} → IsOversight perm → In perm oversight_perms
IsOversight-listed (inl e) = here (sym e)
IsOversight-listed (inr (inl e)) = there (here (sym e))
IsOversight-listed (inr (inr e)) = there (there (here (sym e)))

module _ (s : Store) (claim : Claim) (actor : ℕ) where
  abbrev holds_at : ℕ → String → Bool
  holds_at unit perm = authorize_scoped s.db.directory s.db.clock actor perm (some unit)

  overseen :
      (unit : ℕ)
      → unit_of_claim s claim ≡ some unit
      → any (holds_at unit) oversight_perms ≡ true
      → Oversees s claim actor
  overseen unit at h =
      let (perm, listed, test) = any-In (holds_at unit) oversight_perms h in
      record {
        unit = unit;
        placed = unit_of_claim-IsUnitOf s claim at;
        perm = perm;
        oversight = listed-IsOversight listed;
        grant =
            (authorize_scoped-Authorized s.db.directory s.db.clock actor perm (some unit)).0 test;
      }

  Oversees-any : (o : Oversees s claim actor) → any (holds_at o.unit) oversight_perms ≡ true
  Oversees-any o =
      In-any (holds_at o.unit) (IsOversight-listed o.oversight) (
        (authorize_scoped-Authorized s.db.directory s.db.clock actor o.perm (some o.unit)).1
          o.grant)

  stranger-Sees :
      is_claim_owner s claim actor ≡ false → may_see_claim s claim actor ≡ true → Sees s claim actor
  unfolding may_see_claim
  stranger-Sees other h = elim (Option-cases (unit_of_claim s claim)) [
    | inl nowhere ↦ absurd (let no = rw (nowhere, may_see_claim) at (rw other at h) in cc)
    | inr (unit, at) ↦ inr (overseen unit at (rw (at, may_see_claim) at (rw other at h)))
  ]

  pub may_see_claim-Sees : may_see_claim s claim actor ≡ true → Sees s claim actor
  may_see_claim-Sees h = elim (Bool-cases (is_claim_owner s claim actor)) [
    | inl owner ↦ inl (is_claim_owner-IsOwner s claim actor owner)
    | inr other ↦ stranger-Sees other h
  ]

  pub Sees-may_see_claim : Sees s claim actor → may_see_claim s claim actor ≡ true
  unfolding may_see_claim
  Sees-may_see_claim (inl o) = rw (IsOwner-owner s claim actor o, may_see_claim) refl
  Sees-may_see_claim (inr o) = elim (Bool-cases (is_claim_owner s claim actor)) [
    | inl owner ↦ rw (owner, may_see_claim) refl
    | inr other ↦
        rw (other, may_see_claim) (rw (IsUnitOf-unit_of_claim s claim o.placed) (Oversees-any o))
  ]
