-- ===== src/Workflow/Replay.antt =====
-- office_connect/core/workflow/replay.py: folding the append-only events of an instance.
pub mod Consistency
pub mod Reachable
pub mod Transactions
use office_connect.Base.{
  ℕ, Bool, true, false, ◌&&◌, Option, none, some, List, [], ◌∷◌, ◌==◌, filter, is_id,
}
use office_connect.Workflow.Types.{EventType, Event, Db}
use office_connect.Workflow.Transitions.{find_instance}

-- `event.event_type in ("started", "transition")`
abbrev pub moves_state : EventType → Bool
moves_state EventType.started = true
moves_state EventType.transition = true
moves_state _ = false

abbrev pub moved_to : Bool → Option ℕ → Option ℕ → Option ℕ
moved_to true (some to) state = some to
moved_to true none state = state
moved_to false to state = state

-- the loop of `fold_events`, from a state
abbrev pub fold_from : Option ℕ → List Event → Option ℕ
fold_from state [] = state
fold_from state (e ∷ es) = fold_from (moved_to (moves_state e.event_type) e.to_state_id state) es

unfoldable pub fold_events : List Event → Option ℕ
fold_events = fold_from none

abbrev pub of_instance : ℕ → Event → Bool
of_instance id e = e.instance_id == id

unfoldable pub folded_state_id : Db → ℕ → Option ℕ
unfolding fold_events
folded_state_id db id = fold_events (filter (of_instance id) db.events)

unfoldable pub is_consistent : Db → ℕ → Bool
is_consistent db id = elim (find_instance db id) [
  | none ↦ false
  | some i ↦ is_id (folded_state_id db id) i.current_state_id
]
