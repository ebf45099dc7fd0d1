-- ===== src/Reimbursement/CashAdvances/Ledger.antt =====
-- services/cash_advance.py: what one call of its writers does to the table of advances.
use office_connect.Base.{
  ℕ, ◌+◌, ◌≡◌, ◌≢◌, ◌⊎◌, Bool, true, false, Option, none, some, refl, ap, subst, inl, inr, [], ◌∷◌,
  ◌++◌, ◌==◌, In, map, get_or, if◌then◌else◌, arith, Bool-cases, Option-cases, find?-In,
}
use office_connect.Reimbursement.CashAdvances.{
  is_mode, get_cash_advance, open_cash_advance_for, resolve_deadline, validate, guard_section_89,
  NewAdvance, new_advance, create_cash_advance, Changes, same_date, clock_moved, changed, reclocked,
  update_cash_advance, may_go_overdue, mark_overdue, is_opened, mark_liquidation_started, Settling,
  settled_row, mark_settled, link_claim, remirror_deadline,
}
use office_connect.Reimbursement.Errors.{
  Error, ok, >>=-eq-ok, guard-eq-ok, raise_if-eq-ok, require-eq-ok, ok-injective,
}
use office_connect.Reimbursement.Records.{
  CashAdvance, Claim, Store, is_settled, put_advance, put_claim, manila_date, find_advance,
}

-- One call of a writer that returned.
pub data Recorded (s : Store) : Store → Type 0 where
  created :
      (n : NewAdvance) (row : CashAdvance) (after : Store)
      → create_cash_advance s n ≡ ok (row, after)
      → Recorded s after
  updated :
      (id : ℕ) (c : Changes) (now : ℕ) (row : CashAdvance) (after : Store)
      → update_cash_advance s id c now ≡ ok (row, after)
      → Recorded s after
  went_overdue :
      (row : CashAdvance) (after : Store)
      → In row s.advances
      → (mark_overdue s row).1 ≡ after
      → Recorded s after
  started :
      (row : CashAdvance) (after : Store)
      → In row s.advances
      → (mark_liquidation_started s row).1 ≡ after
      → Recorded s after
  was_settled :
      (row : CashAdvance) (x : Settling) (b : Bool) (after : Store)
      → In row s.advances
      → mark_settled s row x ≡ ok (b, after)
      → Recorded s after
  linked :
      (claim : Claim) (row : CashAdvance) (after : Store)
      → (link_claim s claim row).1 ≡ after
      → Recorded s after
  mirrored :
      (row : CashAdvance) (after : Store) → (remirror_deadline s row).1 ≡ after → Recorded s after

-- The deadline and its basis are as they were, or the return date is another one.
abbrev pub IsPinned : CashAdvance → CashAdvance → Type 0
IsPinned old new =
    ((new.deadline_date ≡ old.deadline_date) × (new.deadline_basis ≡ old.deadline_basis))
    ⊎ (new.date_return ≢ old.date_return)

abbrev pub replace : CashAdvance → CashAdvance → CashAdvance
replace row a = if a.id == row.id then row else a

-- What a call does to the table.
pub data Effect (s after : Store) : Type 0 where
  kept : after.advances ≡ s.advances → after.next_advance_id ≡ s.next_advance_id → Effect s after
  added :
      (row : CashAdvance)
      → row.id ≡ s.next_advance_id
      → open_cash_advance_for s row.claimant_id ≡ none
      → after.advances ≡ s.advances ++ row ∷ []
      → after.next_advance_id ≡ s.next_advance_id + 1
      → Effect s after
  replaced :
      (old new : CashAdvance)
      → In old s.advances
      → new.id ≡ old.id
      → new.claimant_id ≡ old.claimant_id
      → is_settled old.status ≡ false
      → IsPinned old new
      → after.advances ≡ map (replace new) s.advances
      → after.next_advance_id ≡ s.next_advance_id
      → Effect s after

-- Replacing a row of the table that is not settled.
put_Effect :
    (s : Store) (old new : CashAdvance)
    → In old s.advances
    → new.id ≡ old.id
    → new.claimant_id ≡ old.claimant_id
    → is_settled old.status ≡ false
    → IsPinned old new
    → Effect s (put_advance new s)
unfolding put_advance
put_Effect s old new listed id claimant live pinned =
    Effect.replaced old new listed id claimant live pinned refl refl

guard_section_89-eq-ok :
    (s : Store) (claimant_id : ℕ) {u : Unit {0}}
    → guard_section_89 s claimant_id ≡ ok u
    → open_cash_advance_for s claimant_id ≡ none
unfolding guard_section_89
guard_section_89-eq-ok s claimant_id h = elim (Option-cases (open_cash_advance_for s claimant_id)) [
  | inl e ↦ e
  | inr (blocking, e) ↦ let stuck = rw (guard_section_89, e) at h in cc
]

create_Effect :
    (s : Store) (n : NewAdvance) {row : CashAdvance} {after : Store}
    → create_cash_advance s n ≡ ok (row, after)
    → Effect s after
unfolding create_cash_advance
create_Effect s n h =
    let (u, valid, h1) = >>=-eq-ok (validate n.amount n.dv_date n.date_return) _ h in
    let (v, free, h2) = >>=-eq-ok (guard_section_89 s n.claimant_id) _ h1 in
    let (deadline, resolved, h3) =
      >>=-eq-ok (resolve_deadline s n.date_return (manila_date n.now)) _ h2 in
    let e = ap (λ (x : CashAdvance × Store). x.1) (ok-injective h3) in
    subst (λ (x : Store). Effect s x) e
      (Effect.added (new_advance s n deadline) refl (guard_section_89-eq-ok s n.claimant_id free)
        refl refl)

-- An edit keeps the id and the claimant, and the clock where the return date stays.
record IsEdit (old new : CashAdvance) : Type 0 where
  id : new.id ≡ old.id
  claimant : new.claimant_id ≡ old.claimant_id
  pinned : IsPinned old new

same_date_refl : (d : Option ℕ) → same_date d d ≡ true
same_date_refl none = refl
same_date_refl (some d) = ground arith

reclocked-IsEdit :
    (s : Store) (old : CashAdvance) (c : Changes) (today : ℕ) (moved : Bool) {out : CashAdvance}
    → clock_moved c.date_return old.date_return ≡ moved
    → reclocked s moved (changed old c) today ≡ ok out
    → IsEdit old out
unfolding reclocked
reclocked-IsEdit s old c today false e h =
    subst (λ (x : CashAdvance). IsEdit old x) (ok-injective h)
      (record { id = refl; claimant = refl; pinned = inl (refl, refl) })
reclocked-IsEdit s old c today true {out} e h =
    let (deadline, resolved, h1) =
      >>=-eq-ok (resolve_deadline s (changed old c).date_return today) _ h in
    let apart : get_or c.date_return old.date_return ≢ old.date_return =
      moved_away c.date_return old.date_return e in
    subst (λ (x : CashAdvance). IsEdit old x) (ok-injective h1)
      (record { id = refl; claimant = refl; pinned = inr apart })
  where
    moved_away :
        (sent : Option (Option ℕ)) (current : Option ℕ)
        → clock_moved sent current ≡ true
        → get_or sent current ≢ current
    moved_away none current h same = cc
    moved_away (some d) current h same =
        let reflexive = same_date_refl current in
        let e : clock_moved (some current) current ≡ true =
          subst (λ (x : Option ℕ). clock_moved (some x) current ≡ true) same h in
        ground arith

update_Effect :
    (s : Store) (id : ℕ) (c : Changes) (now : ℕ) {row : CashAdvance} {after : Store}
    → update_cash_advance s id c now ≡ ok (row, after)
    → Effect s after
unfolding update_cash_advance get_cash_advance find_advance
update_Effect s id c now h =
    let (old, found, h1) = require-eq-ok (find_advance s id) Error.cash_advance_not_found _ h in
    let (live, h2) = raise_if-eq-ok (is_settled old.status) Error.cash_advance_settled _ h1 in
    let edited = changed old c in
    let (u, valid, h3) =
      >>=-eq-ok (validate edited.amount edited.dv_date edited.date_return) _ h2 in
    let moved = clock_moved c.date_return old.date_return in
    let (out, clocked, h4) = >>=-eq-ok (reclocked s moved edited (manila_date now)) _ h3 in
    let edit = reclocked-IsEdit s old c (manila_date now) moved refl clocked in
    let e = ap (λ (x : CashAdvance × Store). x.1) (ok-injective h4) in
    subst (λ (x : Store). Effect s x) e
      (put_Effect s old out (find?-In _ s.advances found) edit.id edit.claimant live edit.pinned)

pub Recorded-Effect : {s after : Store} → Recorded s after → Effect s after
unfolding mark_overdue mark_liquidation_started mark_settled link_claim remirror_deadline put_claim
Recorded-Effect {s} (Recorded.created n row after h) = create_Effect s n h
Recorded-Effect {s} (Recorded.updated id c now row after h) = update_Effect s id c now h
Recorded-Effect {s} (Recorded.went_overdue row after listed h) =
    subst (λ (x : Store). Effect s x) h
      (elim (Bool-cases (may_go_overdue row.status)) [
        | inl e ↦ rw e (put_Effect s row _ listed refl refl (ground arith) (inl (refl, refl)))
        | inr e ↦ rw e (Effect.kept refl refl)
      ])
Recorded-Effect {s} (Recorded.started row after listed h) =
    subst (λ (x : Store). Effect s x) h
      (elim (Bool-cases (is_opened row.status)) [
        | inl e ↦ rw e (put_Effect s row _ listed refl refl (ground arith) (inl (refl, refl)))
        | inr e ↦ rw e (Effect.kept refl refl)
      ])
Recorded-Effect {s} (Recorded.was_settled row x b after listed h) =
    let (known, h1) = guard-eq-ok (is_mode x.mode) Error.value_error _ h in
    let e = ap (λ (x : Bool × Store). x.1) (ok-injective h1) in
    subst (λ (x : Store). Effect s x) e
      (elim (Bool-cases (is_settled row.status)) [
        | inl done ↦ rw done (Effect.kept refl refl)
        | inr live ↦
            rw live (put_Effect s row (settled_row row x) listed refl refl live (inl (refl, refl)))
      ])
Recorded-Effect {s} (Recorded.linked claim row after h) =
    subst (λ (x : Store). Effect s x) h (Effect.kept refl refl)
Recorded-Effect {s} (Recorded.mirrored row after h) =
    subst (λ (x : Store). Effect s x) h (Effect.kept refl refl)
