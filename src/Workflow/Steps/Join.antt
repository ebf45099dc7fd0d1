-- ===== src/Workflow/Steps/Join.antt =====
-- Fan-in against its description: what each join type waits for.
use office_connect.Base.{
  ℕ, zero, suc, ◌+◌, ◌≤◌, ◌<◌, ◌≡◌, refl, ◌↔◌, true, Option, none, some, List, [], ◌∷◌, arith, All,
  filter, count, length, Bool-cases, inl, inr,
}
use office_connect.Workflow.Types.{Step, JoinType, is_active, is_done, is_live}
use office_connect.Workflow.Steps.{join_satisfied, join_met, decide_join}

-- What a gate with `done` and `active` steps waits for. A quorum that is absent or 0 asks for all.
abbrev pub Joined : JoinType → Option ℕ → ℕ → ℕ → Type 0
Joined JoinType.any quorum done active = 1 ≤ done
Joined JoinType.all quorum done active = (1 ≤ done) × (active ≡ 0)
Joined JoinType.quorum none done active = (1 ≤ done) × (active ≡ 0)
Joined JoinType.quorum (some zero) done active = (1 ≤ done) × (active ≡ 0)
Joined JoinType.quorum (some (suc n)) done active = suc n ≤ done

-- The rows of one activation carry one join type and one quorum.
abbrev pub IsUniform : JoinType → Option ℕ → List Step → Type 0
IsUniform j q = All (λ s. (s.join_type ≡ j) × (s.quorum_count ≡ q))

abbrev live : List Step → List Step
live = filter (λ s. is_live s.status)

done_live :
    (steps : List Step)
    → count (λ s. is_done s.status) (live steps) ≡ count (λ s. is_done s.status) steps
done_live [] = refl
done_live (s ∷ steps) = ground (arith, done_live steps)

length_live :
    (steps : List Step)
    → length (live steps)
      ≡ count (λ s. is_done s.status) steps + count (λ s. is_active s.status) steps
length_live [] = omega arith
length_live (s ∷ steps) = ground (arith, length_live steps)

IsUniform-live :
    (j : JoinType) (q : Option ℕ) (steps : List Step)
    → IsUniform j q steps
    → IsUniform j q (live steps)
IsUniform-live j q [] h = tt
IsUniform-live j q (s ∷ steps) h = elim (Bool-cases (is_live s.status)) [
  | inl on ↦ rw on (h.0, IsUniform-live j q steps h.1)
  | inr off ↦ rw off (IsUniform-live j q steps h.1)
]

decide_join_iff :
    (j : JoinType) (q : Option ℕ) (steps : List Step)
    → IsUniform j q steps
    → (decide_join steps ≡ true) ↔ (
        (0 < length steps)
        × (join_met j q (count (λ s. is_done s.status) steps) (length steps) ≡ true))
decide_join_iff j q [] h = (λ e. cc, λ e. absurd (omega arith))
decide_join_iff j q (s ∷ steps) h =
    let same_join = h.0.0 in
    let same_quorum = h.0.1 in (λ e. (omega arith, cc), λ e. cc (e.1, same_join, same_quorum))

join_met-Joined :
    (j : JoinType) (q : Option ℕ) (done active : ℕ)
    → ((0 < done + active) × (join_met j q done (done + active) ≡ true)) ↔ Joined j q done active
join_met-Joined JoinType.any q done active = (λ h. ground arith, λ h. ground arith)
join_met-Joined JoinType.all q done active = (λ h. ground arith, λ h. ground arith)
join_met-Joined JoinType.quorum none done active = (λ h. ground arith, λ h. ground arith)
join_met-Joined JoinType.quorum (some zero) done active = (λ h. ground arith, λ h. ground arith)
join_met-Joined JoinType.quorum (some (suc n)) done active = (λ h. ground arith, λ h. ground arith)

-- The gate's fan-in is met exactly when its join type's condition holds of the numbers of done and
-- active rows: one for "any", the quorum for "quorum", and for "all" (and a quorum of none or 0) at
-- least one done and none active. Returned, skipped and pending rows never count.
pub join_satisfied-Joined :
    (j : JoinType) (q : Option ℕ) (steps : List Step)
    → IsUniform j q steps
    → (join_satisfied steps ≡ true)
      ↔ Joined j q (count (λ s. is_done s.status) steps) (count (λ s. is_active s.status) steps)
unfolding join_satisfied
join_satisfied-Joined j q steps h =
    let (forth, back) = decide_join_iff j q (live steps) (IsUniform-live j q steps h) in
    let (met, unmet) =
      join_met-Joined j q (count (λ s. is_done s.status) steps)
        (count (λ s. is_active s.status) steps) in
    (
      λ e. met (rw (← length_live steps, ← done_live steps) (forth e)),
      λ e. back (rw (length_live steps, done_live steps) (unmet e)),
    )
