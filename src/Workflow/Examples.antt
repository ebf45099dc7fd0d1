-- ===== src/Workflow/Examples.antt =====
-- The theorems about the engine at a claim on its way through a gate of two approvers.
use office_connect.Base.{
  here, ◌⊎◌, ℕ, min, ◌+◌, length, ◌≡◌, ◌≢◌, ◌↔◌, refl, ℕ, true, none, some, [], ◌∷◌, ◌++◌, All,
}
use office_connect.Workflow.Types.{Action, JoinType}
use office_connect.Workflow.Result.{ok, err, Error}
use office_connect.Workflow.Guards.{amount_guard_passes, in_order, select_transition}
use office_connect.Workflow.Steps.{activate_state_steps, gate_steps, join_satisfied}
use office_connect.Workflow.Steps.Join.{IsUniform}
use office_connect.Workflow.Segregation.{assert_segregation, Distinct}
use office_connect.Workflow.Delegation.{resolve_authority}
use office_connect.Workflow.Decisions.{
  definition_id, authorize_originator, prior_approvers, check_segregation, approved, decide_approve,
  decide_originator,
}
use office_connect.Workflow.Transitions.{
  find_instance, find_state, enter_state, advance, perform, replayed, execute_action,
}
use office_connect.Workflow.Transitions.Versions.{
  execute_action-retry, execute_action-no_lost_update, execute_action-terminal,
}
use office_connect.Workflow.Transitions.Gate.{gate, approve-four_eyes}
use office_connect.Workflow.Transitions.FanIn.{Moves, approve-Moves}
use office_connect.Workflow.Service.{start_instance}
use office_connect.Workflow.Replay.{is_consistent}
use office_connect.Workflow.Replay.Transactions.{Transaction, Reach, Reach-is_consistent}
use office_connect.Workflow.Sweep.{sweep_due_steps}
use office_connect.Workflow.Sweep.Progress.{Escalated, due_count, sweep_due_steps-progress}
use office_connect.Workflow.Delegation.Holders.{Holds, DelegatedBy, resolve_authority-Holds}
use office_connect.Workflow.Transitions.Available.{
  Routed, available_actions, available_actions-Routed,
}
use office_connect.Workflow.Walkthrough.{
  standing_in, review, paid, approving, installed, claim, asks, event_of, claimed, db1, submit_it,
  db2, first_approval, second_approval, db3, first_event, db4, reviewing, waiting_for_one,
  done_claim, late,
}

start_claim : start_instance installed claim ≡ ok (claimed, db1)
unfolding start_instance
start_claim = refl

submitted : execute_action db1 submit_it ≡ ok (event_of (execute_action db1 submit_it), db2)
unfolding start_instance execute_action replayed perform select_transition in_order
    amount_guard_passes decide_originator authorize_originator advance enter_state
    activate_state_steps
submitted = refl

approved_once : execute_action db2 first_approval ≡ ok (first_event, db3)
unfolding start_instance execute_action replayed perform select_transition in_order
    amount_guard_passes decide_originator authorize_originator advance enter_state
    activate_state_steps decide_approve check_segregation assert_segregation resolve_authority
    definition_id gate_steps approved join_satisfied
approved_once = refl

approved_twice :
    execute_action db3 second_approval ≡ ok (event_of (execute_action db3 second_approval), db4)
unfolding start_instance execute_action replayed perform select_transition in_order
    amount_guard_passes decide_originator authorize_originator advance enter_state
    activate_state_steps decide_approve check_segregation assert_segregation resolve_authority
    definition_id gate_steps approved join_satisfied
approved_twice = refl

found2 : find_instance db2 1 ≡ some reviewing
unfolding start_instance execute_action replayed perform select_transition in_order
    amount_guard_passes decide_originator authorize_originator advance enter_state
    activate_state_steps decide_approve check_segregation assert_segregation resolve_authority
    definition_id gate_steps approved join_satisfied
found2 = refl

found3 : find_instance db3 1 ≡ some waiting_for_one
unfolding start_instance execute_action replayed perform select_transition in_order
    amount_guard_passes decide_originator authorize_originator advance enter_state
    activate_state_steps decide_approve check_segregation assert_segregation resolve_authority
    definition_id gate_steps approved join_satisfied
found3 = refl

found4 : find_instance db4 1 ≡ some done_claim
unfolding start_instance execute_action replayed perform select_transition in_order
    amount_guard_passes decide_originator authorize_originator advance enter_state
    activate_state_steps decide_approve check_segregation assert_segregation resolve_authority
    definition_id gate_steps approved join_satisfied
found4 = refl

state2 : find_state db2 11 ≡ some review
unfolding start_instance execute_action replayed perform select_transition in_order
    amount_guard_passes decide_originator authorize_originator advance enter_state
    activate_state_steps decide_approve check_segregation assert_segregation resolve_authority
    definition_id gate_steps approved join_satisfied
state2 = refl

state3 : find_state db3 11 ≡ some review
unfolding start_instance execute_action replayed perform select_transition in_order
    amount_guard_passes decide_originator authorize_originator advance enter_state
    activate_state_steps decide_approve check_segregation assert_segregation resolve_authority
    definition_id gate_steps approved join_satisfied
state3 = refl

state4 : find_state db4 12 ≡ some paid
unfolding start_instance execute_action replayed perform select_transition in_order
    amount_guard_passes decide_originator authorize_originator advance enter_state
    activate_state_steps decide_approve check_segregation assert_segregation resolve_authority
    definition_id gate_steps approved join_satisfied
state4 = refl

new2 : replayed db2 1 (some "k2") ≡ none
unfolding start_instance execute_action replayed perform select_transition in_order
    amount_guard_passes decide_originator authorize_originator advance enter_state
    activate_state_steps decide_approve check_segregation assert_segregation resolve_authority
    definition_id gate_steps approved join_satisfied
new2 = refl

new3 : replayed db3 1 (some "k3") ≡ none
unfolding start_instance execute_action replayed perform select_transition in_order
    amount_guard_passes decide_originator authorize_originator advance enter_state
    activate_state_steps decide_approve check_segregation assert_segregation resolve_authority
    definition_id gate_steps approved join_satisfied
new3 = refl

routed3 : select_transition db3 waiting_for_one review Action.approve ≡ some approving
unfolding start_instance execute_action replayed perform select_transition in_order
    amount_guard_passes decide_originator authorize_originator advance enter_state
    activate_state_steps decide_approve check_segregation assert_segregation resolve_authority
    definition_id gate_steps approved join_satisfied
routed3 = refl

gate-IsUniform : IsUniform JoinType.all none (gate db3 waiting_for_one review)
unfolding start_instance execute_action replayed perform select_transition in_order
    amount_guard_passes decide_originator authorize_originator advance enter_state
    activate_state_steps decide_approve check_segregation assert_segregation resolve_authority
    definition_id gate_steps approved join_satisfied
gate-IsUniform = ((refl, refl), ((refl, refl), tt))

Reach-is_consistent_example : is_consistent db4 1 ≡ true
Reach-is_consistent_example =
    Reach-is_consistent installed db4 1 done_claim refl refl
      (Reach.next
        (Reach.next
          (Reach.next (Reach.next Reach.here (Transaction.start claim claimed start_claim))
            (Transaction.act submit_it (event_of (execute_action db1 submit_it)) submitted))
          (Transaction.act first_approval first_event approved_once))
        (Transaction.act second_approval (event_of (execute_action db3 second_approval))
          approved_twice))
      found4

approve-four_eyes_example :
    All (λ c. 1 ≢ c) (prior_approvers (gate db3 waiting_for_one review) ++ 3 ∷ [])
    × Distinct (prior_approvers (gate db3 waiting_for_one review) ++ 3 ∷ [])
approve-four_eyes_example =
    approve-four_eyes db3 db4 second_approval waiting_for_one review 1
      (event_of (execute_action db3 second_approval)) refl found3 state3 refl refl new3
      approved_twice

approve-Moves_example :
    Moves db3 db4 second_approval waiting_for_one review approving JoinType.all none
approve-Moves_example =
    approve-Moves db3 db4 second_approval waiting_for_one review approving
      (event_of (execute_action db3 second_approval)) JoinType.all none refl found3 state3 routed3
      gate-IsUniform new3 approved_twice

-- the same key again, with another action, by another person
execute_action-retry_example :
    execute_action db3 (asks Action.reject 9 (some "k2") 7) ≡ ok (first_event, db3)
execute_action-retry_example =
    execute_action-retry db2 first_approval (asks Action.reject 9 (some "k2") 7) {e = first_event}
      {out = db3} refl refl refl approved_once

new_late : replayed db3 1 (some "k4") ≡ none
unfolding start_instance execute_action replayed perform select_transition in_order
    amount_guard_passes decide_originator authorize_originator advance enter_state
    activate_state_steps decide_approve check_segregation assert_segregation resolve_authority
    definition_id gate_steps approved join_satisfied
new_late = refl

execute_action-no_lost_update_example : execute_action db3 late ≡ err Error.stale_version
execute_action-no_lost_update_example =
    execute_action-no_lost_update db2 first_approval late 2 {e = first_event} {out = db3} refl refl
      refl new2 new_late approved_once

-- the second approval again, after it has ended the claim
ended_again :
    execute_action db4 second_approval ≡ ok (event_of (execute_action db3 second_approval), db4)
ended_again =
    execute_action-retry db3 second_approval second_approval
      {e = event_of (execute_action db3 second_approval)} {out = db4} refl refl refl approved_twice

execute_action-terminal_example :
    (replayed db4 1 (some "k3") ≡ some (event_of (execute_action db3 second_approval)))
    × (db4 ≡ db4)
execute_action-terminal_example =
    execute_action-terminal db4 second_approval done_claim paid
      {e = event_of (execute_action db3 second_approval)} {out = db4} found4 state4 refl ended_again

-- the two steps of the gate fall due a day after 1000; a sweep with room for one
sweep_due_steps-progress_example :
    let swept = sweep_due_steps db2 (some 87400) 1 in
    Escalated db2 87400 swept
    × (swept.escalated ≡ min 1 (due_count db2 87400))
    × (due_count swept.db 87400 + swept.escalated ≡ due_count db2 87400)
    × (length swept.db.events ≡ length db2.events + swept.escalated)
sweep_due_steps-progress_example = sweep_due_steps-progress db2 87400 1

resolve_authority-Holds_example :
    let a = resolve_authority standing_in 2 (some "claims.approve") none (some 1) 1000 in
    ((a.authorized ≡ true) ↔ (
      Holds standing_in 2 "claims.approve" none (some 1) 1000 2
      ⊎ ((b : ℕ) × DelegatedBy standing_in 2 "claims.approve" none (some 1) 1000 b)))
    × ((b : ℕ)
        → a.on_behalf_of ≡ some b
        → (¬ Holds standing_in 2 "claims.approve" none (some 1) 1000 2)
          × DelegatedBy standing_in 2 "claims.approve" none (some 1) 1000 b)
resolve_authority-Holds_example =
    resolve_authority-Holds standing_in 2 "claims.approve" none (some 1) 1000

-- Person 3 is offered the approval that person 2 has given already, and person 2 is not.
offered3 : available_actions db3 1 3 none ≡ ok (Action.approve ∷ [])
unfolding start_instance execute_action replayed perform select_transition in_order
    amount_guard_passes decide_originator authorize_originator advance enter_state
    activate_state_steps decide_approve check_segregation assert_segregation resolve_authority
    definition_id gate_steps approved join_satisfied available_actions
offered3 = refl

offered2 : available_actions db3 1 2 none ≡ ok []
unfolding start_instance execute_action replayed perform select_transition in_order
    amount_guard_passes decide_originator authorize_originator advance enter_state
    activate_state_steps decide_approve check_segregation assert_segregation resolve_authority
    definition_id gate_steps approved join_satisfied available_actions
offered2 = refl

available_actions-Routed_example : Routed db3 1 Action.approve
available_actions-Routed_example =
    available_actions-Routed db3 1 3 none Action.approve {actions = Action.approve ∷ []} offered3
      (here refl)
