-- ===== src/Workflow/Sweep.antt =====
-- office_connect/core/workflow/sla.py: the sweep that escalates overdue steps.
-- Rows that another sweep has locked are skipped by the query; here one sweep runs at a time. The
-- callback `_enqueuer` is told the ids that `sweep_due_steps` returns.
pub mod Due
pub mod Progress
use office_connect.Base.{
  ℕ, zero, suc, ◌+◌, Bool, true, false, ◌&&◌, Option, none, some, List, [], ◌∷◌, ◌++◌, leb, ◌==◌,
  get_or, length, map,
}
use office_connect.Workflow.Types.{EventType, Step, Event, Db, is_active}

-- `sla_due_at.is_not(None), sla_due_at <= now`
abbrev pub overdue : Option ℕ → ℕ → Bool
overdue none now = false
overdue (some due) now = leb due now

abbrev pub is_due : ℕ → Step → Bool
is_due now s = is_active s.status && s.escalation_level == 0 && overdue s.sla_due_at now

-- the rows of the query: at most `limit`, in id order
pub due_steps : ℕ → ℕ → List Step → List Step
due_steps zero now ss = []
due_steps (suc limit) now [] = []
due_steps (suc limit) now (s ∷ ss) = elim (is_due now s) [
  | true ↦ s ∷ due_steps limit now ss
  | false ↦ due_steps (suc limit) now ss
]

-- the same rows, raised by one level where they stand
pub escalate_steps : ℕ → ℕ → List Step → List Step
escalate_steps zero now ss = ss
escalate_steps (suc limit) now [] = []
escalate_steps (suc limit) now (s ∷ ss) = elim (is_due now s) [
  | true ↦ record s { escalation_level = s.escalation_level + 1 } ∷ escalate_steps limit now ss
  | false ↦ s ∷ escalate_steps (suc limit) now ss
]

abbrev pub escalation_event : ℕ → Step → Event
escalation_event id s = record {
  id = id;
  instance_id = s.instance_id;
  step_id = some s.id;
  event_type = EventType.escalation;
  action = none;
  from_state_id = none;
  to_state_id = none;
  actor_user_id = none;
  on_behalf_of_user_id = none;
  comment = none;
  idempotency_key = none;
  escalation_level = some (s.escalation_level + 1);
  revision_no = none;
}

unfoldable pub escalation_events : ℕ → List Step → List Event
escalation_events id [] = []
escalation_events id (s ∷ ss) = escalation_event id s ∷ escalation_events (id + 1) ss

-- the count that the sweep reports twice, the ids for the callback, and the database
pub record Swept : Type 0 where
  pub escalated : ℕ
  pub enqueued : List ℕ
  pub db : Db

unfoldable pub sweep_due_steps : Db → Option ℕ → ℕ → Swept
unfolding due_steps escalate_steps escalation_events
sweep_due_steps db now limit =
    let moment = get_or now db.clock in
    let due = due_steps limit moment db.steps in
    record {
      escalated = length due;
      enqueued = map (λ s. s.id) due;
      db = record db {
        steps = escalate_steps limit moment db.steps;
        events = db.events ++ escalation_events db.next_event_id due;
        next_event_id = db.next_event_id + length due;
      };
    }
