-- ===== src/Workflow/Delegation/Covering.antt =====
-- The `where` of the candidate delegations of delegation.py, as a statement about the row.
use office_connect.Base.{ℕ, zero, suc, ◌≤◌, ◌<◌, ◌≡◌, refl, true, Option, none, some, arith}
use office_connect.OrgUnits.Coverage.{Covers, Covers-unit, unit-Covers}
use office_connect.Workflow.Types.{Db, Delegation}
use office_connect.Workflow.Delegation.{any_or_same, any_or_in, covering, covers_request}

-- A delegation is for every definition, or for the one asked about.
abbrev pub ForDefinition : Option ℕ → Option ℕ → Type 0
ForDefinition none definition = Unit
ForDefinition (some d) definition = definition ≡ some d

-- A delegation is for every unit, or for one that the unit asked about reaches through at most 64 live
-- parents; no unit and the unit 0 are not reached.
abbrev pub ForUnit : Db → Option ℕ → Option ℕ → Type 0
ForUnit db none target = Unit
ForUnit db (some u) none = ⊥
ForUnit db (some u) (some zero) = ⊥
ForUnit db (some u) (some (suc t)) = Covers db.directory (some u) (some (suc t))

-- The delegation is to the actor, runs at the time from its start until before its end, and is for the
-- definition and the unit.
pub record IsCovering (db : Db) (actor : ℕ) (org_unit definition : Option ℕ) (now : ℕ)
    (d : Delegation) : Type 0 where
  pub delegate : d.delegate_user_id ≡ actor
  pub started : d.starts_at ≤ now
  pub running : now < d.ends_at
  pub same_definition : ForDefinition d.definition_id definition
  pub same_unit : ForUnit db d.org_unit_id org_unit

same-ForDefinition : (d v : Option ℕ) → any_or_same d v ≡ true → ForDefinition d v
same-ForDefinition none v h = tt
same-ForDefinition (some d) none h = cc
same-ForDefinition (some d) (some v) h = let e : d ≡ v = ground arith in rw e refl

ForDefinition-same : (d v : Option ℕ) → ForDefinition d v → any_or_same d v ≡ true
ForDefinition-same none v h = refl
ForDefinition-same (some d) v h = rw h (ground arith)

in-ForUnit : (db : Db) (u v : Option ℕ) → any_or_in u (covering db v) ≡ true → ForUnit db u v
in-ForUnit db none v h = tt
in-ForUnit db (some u) none h = cc
in-ForUnit db (some u) (some zero) h = cc
in-ForUnit db (some u) (some (suc t)) h = Covers-unit db.directory 0 0 "" (some u) (suc t) h

ForUnit-in : (db : Db) (u v : Option ℕ) → ForUnit db u v → any_or_in u (covering db v) ≡ true
ForUnit-in db none v h = refl
ForUnit-in db (some u) none h = absurd h
ForUnit-in db (some u) (some zero) h = absurd h
ForUnit-in db (some u) (some (suc t)) h = unit-Covers db.directory 0 0 "" u (suc t) h

module _ (db : Db) (actor : ℕ) (org_unit definition : Option ℕ) (now : ℕ) (d : Delegation) where
  pub covers_request-IsCovering :
      covers_request db actor org_unit definition now d ≡ true
      → IsCovering db actor org_unit definition now d
  unfolding covers_request
  covers_request-IsCovering h = record {
    delegate = ground arith;
    started = ground arith;
    running = ground arith;
    same_definition = same-ForDefinition d.definition_id definition (ground arith);
    same_unit = in-ForUnit db d.org_unit_id org_unit (ground arith);
  }

  pub IsCovering-covers_request :
      IsCovering db actor org_unit definition now d
      → covers_request db actor org_unit definition now d ≡ true
  unfolding covers_request
  IsCovering-covers_request c =
      let delegate = c.delegate in
      let started = c.started in
      let running = c.running in
      let definition_ok = ForDefinition-same d.definition_id definition c.same_definition in
      let unit_ok = ForUnit-in db d.org_unit_id org_unit c.same_unit in ground arith
