-- ===== src/Reimbursement/Claims/Engine.antt =====
-- services/lifecycle.py: the calls of the engine.
use office_connect.Base.{
  ℕ, ◌≡◌, false, ◌&&◌, Option, none, some, refl, sym, ◌∙◌, inl, inr, List, [], ◌∷◌, String, ◌==◌,
  any, find?, arith, Bool-cases, truthy,
}
use office_connect.Reimbursement.Claims.Lifecycle.{has_event}
use office_connect.Reimbursement.Claims.Mirror.{Executed, Accepted-Executed}
use office_connect.Reimbursement.Errors.{ok, from_engine, from_engine-eq-ok}
use office_connect.Workflow.Decisions.{Request}
use office_connect.Workflow.Transitions.{same_key, replayed, execute_action}
use office_connect.Workflow.Transitions.Inversion.{execute_action-cases}
use office_connect.Workflow.Types.{Event, Db}

-- A key that no event of the instance has is no replay.
no_replay :
    (key : Option String) (id : ℕ) (events : List Event)
    → any (λ e. e.instance_id == id && same_key e.idempotency_key key) events ≡ false
    → find? (λ e. e.instance_id == id && same_key e.idempotency_key key) events ≡ none
no_replay key id [] h = refl
no_replay key id (e ∷ events) h = ground (arith, no_replay key id events)

pub replayed-none :
    (db : Db) (id : ℕ) (key : String)
    → has_event db id key ≡ false
    → replayed db id (some key) ≡ none
unfolding replayed
replayed-none db id key h = elim (Bool-cases (truthy (some key))) [
  | inl on ↦ rw on (no_replay (some key) id db.events h)
  | inr off ↦ rw off refl
]

-- The engine's answer to a request whose key is new.
pub executed :
    (db : Db) (q : Request) {e : Event} {out : Db}
    → replayed db q.instance_id q.idempotency_key ≡ none
    → from_engine (execute_action db q) ≡ ok (e, out)
    → Executed q e out
executed db q {e} {out} fresh h =
    elim (execute_action-cases db q (from_engine-eq-ok (execute_action db q) h)) [
      | inl (again, same) ↦ let stuck : some e ≡ none = sym again ∙ fresh in cc
      | inr a ↦ Accepted-Executed db q a
    ]
