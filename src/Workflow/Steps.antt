-- ===== src/Workflow/Steps.antt =====
-- office_connect/core/workflow/steps.py: activation of a gate's steps, and fan-in.
-- A step row is active from its insertion; the row lock of `gate_steps(lock=True)` is not modelled,
-- since one transaction at a time holds the instance.
pub mod Join
use office_connect.Base.{
  ℕ, zero, suc, ◌+◌, ◌*◌, Bool, true, false, ◌&&◌, Option, none, some, List, [], ◌∷◌, ◌++◌, leb,
  ◌==◌, if◌then◌else◌, filter, count, length, max,
}
use office_connect.Workflow.Types.{
  State, Instance, Step, Db, JoinType, StepStatus, is_done, is_live,
}

-- `now + timedelta(hours=state.sla_hours) if state.sla_hours else None`
abbrev pub due_at : Option ℕ → ℕ → Option ℕ
due_at none now = none
due_at (some zero) now = none
due_at (some (suc h)) now = some (now + suc h * 3600)

abbrev pub new_step : Instance → State → ℕ → ℕ → ℕ → Step
new_step i s now id seq = record {
  id = id;
  instance_id = i.id;
  state_id = s.id;
  revision_no = i.revision_no;
  sequence_no = seq;
  join_type = s.join_type;
  quorum_count = s.quorum_count;
  required_permission = s.required_permission;
  org_unit_id = i.org_unit_id;
  status = StepStatus.active;
  acted_by_user_id = none;
  on_behalf_of_user_id = none;
  acted_at = none;
  comment = none;
  sla_due_at = due_at s.sla_hours now;
  escalation_level = 0;
}

-- the `for seq in range(n)`, from `seq` on
pub new_steps : Instance → State → ℕ → ℕ → ℕ → ℕ → List Step
new_steps i s now zero id seq = []
new_steps i s now (suc n) id seq = new_step i s now id seq ∷ new_steps i s now n (id + 1) (seq + 1)

unfoldable pub activate_state_steps : Db → Instance → State → ℕ → Db
unfolding new_steps
activate_state_steps db i s now =
    if s.is_approval_gate
    then record db {
      steps = db.steps ++ new_steps i s now (max 1 s.step_count) db.next_step_id 0;
      next_step_id = db.next_step_id + max 1 s.step_count;
    }
    else db

abbrev pub at_revision : Option ℕ → ℕ → Bool
at_revision none r = true
at_revision (some n) r = r == n

abbrev pub in_gate : ℕ → ℕ → Option ℕ → Step → Bool
in_gate instance_id state_id revision_no s =
    s.instance_id == instance_id && s.state_id == state_id && at_revision revision_no s.revision_no

unfoldable pub gate_steps : List Step → ℕ → ℕ → Option ℕ → List Step
gate_steps steps instance_id state_id revision_no =
    filter (in_gate instance_id state_id revision_no) steps

-- `live[0].quorum_count or total`
abbrev pub quorum_of : Option ℕ → ℕ → ℕ
quorum_of none total = total
quorum_of (some zero) total = total
quorum_of (some (suc n)) total = suc n

abbrev pub join_met : JoinType → Option ℕ → ℕ → ℕ → Bool
join_met JoinType.any q done total = leb 1 done
join_met JoinType.quorum q done total = leb (quorum_of q total) done
join_met JoinType.all q done total = leb total done

abbrev decide_join : List Step → Bool
decide_join [] = false
decide_join (first ∷ rest) =
    join_met first.join_type first.quorum_count (count (λ s. is_done s.status) (first ∷ rest))
      (length (first ∷ rest))

unfoldable pub join_satisfied : List Step → Bool
join_satisfied steps = decide_join (filter (λ s. is_live s.status) steps)
