-- ===== src/Workflow/Sweep/Due.antt =====
-- What a sweep of sla.py does to each row, and what it records of it.
use office_connect.Base.{
  ℕ, zero, suc, ◌+◌, ◌≤◌, ◌≡◌, ◌⊎◌, refl, true, false, none, some, List, [], ◌∷◌, arith, Bool-cases,
  inl, inr, Option-cases, ap, sym, subst,
}
use office_connect.Workflow.Types.{EventType, StepStatus, Step, Event, is_active}
use office_connect.Workflow.Sweep.{is_due, overdue, due_steps, escalate_steps, escalation_events}

-- The step is active, was never escalated, and its time is up.
pub record IsDue (now : ℕ) (s : Step) : Type 0 where
  pub active : s.status ≡ StepStatus.active
  pub level : s.escalation_level ≡ 0
  pub deadline : ℕ
  pub stamped : s.sla_due_at ≡ some deadline
  pub passed : deadline ≤ now

-- Row by row, the table before and after, and the rows taken: a row taken was due and is at level one, and
-- is else the same; every other row is the same, and if it was due, no later row is taken.
pub data Taken (now : ℕ) : List Step → List Step → List Step → Type 0 where
  nothing : Taken now [] [] []
  left :
      {before after rows : List Step} (s : Step)
      → (¬ IsDue now s) ⊎ (rows ≡ [])
      → Taken now before after rows
      → Taken now (s ∷ before) (s ∷ after) rows
  raised :
      {before after rows : List Step} (s : Step)
      → IsDue now s
      → Taken now before after rows
      → Taken now (s ∷ before) (record s { escalation_level = 1 } ∷ after) (s ∷ rows)

-- The event is the escalation of the step to level one, by nobody and with no move.
pub record IsNotice (s : Step) (e : Event) : Type 0 where
  pub kind : e.event_type ≡ EventType.escalation
  pub instance_of : e.instance_id ≡ s.instance_id
  pub step : e.step_id ≡ some s.id
  pub level : e.escalation_level ≡ some 1
  pub nobody : e.actor_user_id ≡ none
  pub from : e.from_state_id ≡ none
  pub to : e.to_state_id ≡ none

-- One event for each row, in the same order.
abbrev pub AreNotices : List Step → List Event → Type 0
AreNotices [] [] = Unit
AreNotices [] (e ∷ es) = ⊥
AreNotices (s ∷ ss) [] = ⊥
AreNotices (s ∷ ss) (e ∷ es) = IsNotice s e × AreNotices ss es

active-status : (x : StepStatus) → is_active x ≡ true → x ≡ StepStatus.active
active-status x h = ground arith

is_due-IsDue : (now : ℕ) (s : Step) → is_due now s ≡ true → IsDue now s
is_due-IsDue now s h = elim (Option-cases s.sla_due_at) [
  | inl unset ↦ let never = ap (λ o. overdue o now) unset in absurd (ground arith)
  | inr (deadline, stamped) ↦
      let late = ap (λ o. overdue o now) stamped in
      record {
        active = active-status s.status (ground arith);
        level = ground arith;
        deadline = deadline;
        stamped = stamped;
        passed = ground arith;
      }
]

IsDue-due : (now : ℕ) (s : Step) → IsDue now s → is_due now s ≡ true
IsDue-due now s d =
    let active = ap is_active d.active in
    let level = d.level in
    let late = ap (λ o. overdue o now) d.stamped in let passed = d.passed in ground arith

not-IsDue : (now : ℕ) (s : Step) → is_due now s ≡ false → ¬ IsDue now s
not-IsDue now s h d = let due = IsDue-due now s d in cc (due, h)

none_taken : (now : ℕ) (ss : List Step) → Taken now ss ss []
none_taken now [] = Taken.nothing
none_taken now (s ∷ ss) = Taken.left s (inr refl) (none_taken now ss)

sweep_stopped :
    (now : ℕ) (ss : List Step) → (escalate_steps zero now ss ≡ ss) × (due_steps zero now ss ≡ [])
unfolding due_steps escalate_steps
sweep_stopped now ss = (refl, refl)

module _ (limit now : ℕ) (s : Step) (ss : List Step) where
  sweep_due :
      is_due now s ≡ true
      → (escalate_steps (suc limit) now (s ∷ ss)
          ≡ record s { escalation_level = s.escalation_level + 1 } ∷ escalate_steps limit now ss)
        × (due_steps (suc limit) now (s ∷ ss) ≡ s ∷ due_steps limit now ss)
  unfolding due_steps escalate_steps
  sweep_due due = (ground arith, ground arith)

  sweep_other :
      is_due now s ≡ false
      → (escalate_steps (suc limit) now (s ∷ ss) ≡ s ∷ escalate_steps (suc limit) now ss)
        × (due_steps (suc limit) now (s ∷ ss) ≡ due_steps (suc limit) now ss)
  unfolding due_steps escalate_steps
  sweep_other other = (ground arith, ground arith)

to_level_one :
    {now : ℕ} {before after rows : List Step} (s : Step)
    → IsDue now s
    → Taken now before after rows
    → Taken now
        (s ∷ before)
        (record s { escalation_level = s.escalation_level + 1 } ∷ after)
        (s ∷ rows)
to_level_one {now} {before} {after} {rows} s d t =
    subst (λ (n : ℕ). Taken now (s ∷ before) (record s { escalation_level = n } ∷ after) (s ∷ rows))
      (sym (ap (λ n. n + 1) d.level)) (Taken.raised s d t)

pub sweep-Taken :
    (limit now : ℕ) (ss : List Step)
    → Taken now ss (escalate_steps limit now ss) (due_steps limit now ss)
unfolding escalate_steps due_steps
sweep-Taken zero now ss = let stop = sweep_stopped now ss in rw (stop.0, stop.1) (none_taken now ss)
sweep-Taken (suc limit) now [] = Taken.nothing
sweep-Taken (suc limit) now (s ∷ ss) = elim (Bool-cases (is_due now s)) [
  | inl due ↦
      let same = sweep_due limit now s ss due in
      rw (same.0, same.1) (to_level_one s (is_due-IsDue now s due) (sweep-Taken limit now ss))
  | inr other ↦
      let same = sweep_other limit now s ss other in
      rw (same.0, same.1)
        (Taken.left s (inl (not-IsDue now s other)) (sweep-Taken (suc limit) now ss))
]

pub Taken-AreNotices :
    {now : ℕ} {before after rows : List Step} (id : ℕ)
    → Taken now before after rows
    → AreNotices rows (escalation_events id rows)
unfolding escalation_events
Taken-AreNotices id Taken.nothing = tt
Taken-AreNotices id (Taken.left s why t) = Taken-AreNotices id t
Taken-AreNotices id (Taken.raised s d t) = (
  record {
    kind = refl;
    instance_of = refl;
    step = refl;
    level = ap (λ n. some (n + 1)) d.level;
    nobody = refl;
    from = refl;
    to = refl;
  },
  Taken-AreNotices (id + 1) t,
)
