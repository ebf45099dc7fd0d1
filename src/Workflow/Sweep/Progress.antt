-- ===== src/Workflow/Sweep/Progress.antt =====
-- How far a sweep of sla.py gets: what it takes, what it leaves, and what it records.
use office_connect.Base.{
  ℕ, zero, suc, ◌+◌, ◌≡◌, refl, min, some, List, [], ◌∷◌, ◌++◌, arith, count, length, Bool-cases,
  inl, inr, ◌∙◌, ap, map,
}
use office_connect.Workflow.Types.{Step, Event, Db}
use office_connect.Workflow.Sweep.{
  Swept, is_due, due_steps, escalate_steps, escalation_events, sweep_due_steps,
}
use office_connect.Workflow.Sweep.Due.{Taken, AreNotices, sweep-Taken, Taken-AreNotices}

-- The rows that a sweep at `now` would find without a limit.
abbrev pub due_count : Db → ℕ → ℕ
due_count db now = count (is_due now) db.steps

taken :
    (limit now : ℕ) (ss : List Step)
    → length (due_steps limit now ss) ≡ min limit (count (is_due now) ss)
unfolding due_steps
taken zero now ss = omega arith
taken (suc limit) now [] = omega arith
taken (suc limit) now (s ∷ ss) = elim (Bool-cases (is_due now s)) [
  | inl due ↦ let rest = taken limit now ss in ground arith
  | inr later ↦ let rest = taken (suc limit) now ss in ground arith
]

left :
    (limit now : ℕ) (ss : List Step)
    → count (is_due now) (escalate_steps limit now ss) + length (due_steps limit now ss)
      ≡ count (is_due now) ss
unfolding due_steps escalate_steps
left zero now ss = omega arith
left (suc limit) now [] = omega arith
left (suc limit) now (s ∷ ss) = elim (Bool-cases (is_due now s)) [
  | inl due ↦ let rest = left limit now ss in ground arith
  | inr later ↦ let rest = left (suc limit) now ss in ground arith
]

recorded : (id : ℕ) (ss : List Step) → length (escalation_events id ss) ≡ length ss
unfolding escalation_events
recorded id [] = refl
recorded id (s ∷ ss) = ground (arith, recorded (id + 1) ss)

length-append : {A : Type 0} (xs ys : List A) → length (xs ++ ys) ≡ length xs + length ys
length-append [] ys = omega arith
length-append (x ∷ xs) ys = ground (arith, length-append xs ys)

-- What a sweep leaves and records: the rows that it took are raised where they stand and no row before them
-- that was due is passed over, the events of before are followed by one notice for each row taken, the
-- callback is told their ids, and no instance moves.
pub record Escalated (db : Db) (now : ℕ) (swept : Swept) : Type 0 where
  pub rows : List Step
  pub notices : List Event
  pub taken : Taken now db.steps swept.db.steps rows
  pub log : swept.db.events ≡ db.events ++ notices
  pub noticed : AreNotices rows notices
  pub told : swept.enqueued ≡ map (λ s. s.id) rows
  pub reported : swept.escalated ≡ length rows
  pub unmoved : swept.db.instances ≡ db.instances

-- A sweep takes the first due rows, as many as the limit allows, and raises each to level one; it appends,
-- in their order, one escalation event for each, which names its instance, the row and the level, tells the
-- callback their ids, and moves no instance. Of the rows that were due then, exactly the others are still
-- due after it.
pub sweep_due_steps-progress :
    (db : Db) (now limit : ℕ)
    → let swept = sweep_due_steps db (some now) limit in
      Escalated db now swept
      × (swept.escalated ≡ min limit (due_count db now))
      × (due_count swept.db now + swept.escalated ≡ due_count db now)
      × (length swept.db.events ≡ length db.events + swept.escalated)
unfolding sweep_due_steps
sweep_due_steps-progress db now limit =
    let due = due_steps limit now db.steps in
    let rows_taken = sweep-Taken limit now db.steps in
    (
      record {
        rows = due;
        notices = escalation_events db.next_event_id due;
        taken = rows_taken;
        log = refl;
        noticed = Taken-AreNotices db.next_event_id rows_taken;
        told = refl;
        reported = refl;
        unmoved = refl;
      },
      taken limit now db.steps,
      left limit now db.steps,
      length-append db.events (escalation_events db.next_event_id due)
          ∙ ap (λ n. length db.events + n) (recorded db.next_event_id due),
    )
