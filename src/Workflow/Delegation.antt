-- ===== src/Workflow/Delegation.antt =====
-- office_connect/core/workflow/delegation.py: a direct grant, or an OIC delegation from a holder.
pub mod Covering
pub mod Holders
use office_connect.Base.{
  ℕ, zero, suc, Bool, true, false, ◌&&◌, Option, none, some, List, [], String, ltb, leb, ◌==◌,
  if◌then◌else◌, filter, find?,
}
use office_connect.OrgUnits.{authorize_scoped, ancestors_or_self, member}
use office_connect.Workflow.Types.{Db, Delegation}

pub record Authority : Type 0 where
  pub authorized : Bool
  pub on_behalf_of : Option ℕ

-- `await ancestors_or_self(session, org_unit_id) if org_unit_id else []`
abbrev pub covering : Db → Option ℕ → List ℕ
covering db none = []
covering db (some zero) = []
covering db (some (suc u)) = ancestors_or_self db.directory (some (suc u))

-- `or_(column.is_(None), column == value)`; a comparison with NULL is not true
abbrev pub any_or_same : Option ℕ → Option ℕ → Bool
any_or_same none value = true
any_or_same (some d) none = false
any_or_same (some d) (some v) = d == v

abbrev pub any_or_in : Option ℕ → List ℕ → Bool
any_or_in none units = true
any_or_in (some u) units = member u units

-- the `where` of the candidate delegations
unfoldable pub covers_request : Db → ℕ → Option ℕ → Option ℕ → ℕ → Delegation → Bool
covers_request db actor org_unit definition now d =
    d.delegate_user_id == actor
    && leb d.starts_at now
    && ltb now d.ends_at
    && any_or_same d.definition_id definition
    && any_or_in d.org_unit_id (covering db org_unit)

-- the `for deleg in ...`: the first delegator who holds the permission
abbrev pub first_delegator : Option Delegation → Authority
first_delegator none = record { authorized = false; on_behalf_of = none }
first_delegator (some d) = record { authorized = true; on_behalf_of = some d.delegator_user_id }

-- `authorize_scoped` takes no time, so it reads the clock and not `now`.
unfoldable pub resolve_authority : Db → ℕ → Option String → Option ℕ → Option ℕ → ℕ → Authority
resolve_authority db actor none org_unit definition now = record {
  authorized = true;
  on_behalf_of = none;
}
resolve_authority db actor (some perm) org_unit definition now =
    if authorize_scoped db.directory db.clock actor perm org_unit
    then record { authorized = true; on_behalf_of = none }
    else first_delegator (
        find? (λ d. authorize_scoped db.directory db.clock d.delegator_user_id perm org_unit)
          (filter (covers_request db actor org_unit definition now) db.delegations))
