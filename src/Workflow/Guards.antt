-- ===== src/Workflow/Guards.antt =====
-- office_connect/core/workflow/guards.py and the routing query of transitions.py.
pub mod Order
use office_connect.Base.{
  Bool, true, false, ◌&&◌, ◌||◌, Option, none, some, List, [], ◌∷◌, ltb, ◌==◌, if◌then◌else◌, find?,
  filter,
}
use office_connect.Base.Int.{ℤ, ltb_ℤ}
use office_connect.Workflow.Types.{Action, State, Transition, Instance, Db, action_eq}

-- one bound of the band: `outside amount bound` is the comparison that refuses
abbrev refuses : (ℤ → ℤ → Bool) → Option ℤ → Option ℤ → Bool
refuses outside none amount = false
refuses outside (some bound) none = true
refuses outside (some bound) (some amount) = outside amount bound

unfoldable pub amount_guard_passes : Transition → Instance → Bool
amount_guard_passes t i =
    if refuses (λ a b. ltb_ℤ a b) t.min_amount i.amount
    then false
    else if refuses (λ a b. ltb_ℤ b a) t.max_amount i.amount
    then false
    else true

-- `order_by(sort_order, id)`
abbrev pub before : Transition → Transition → Bool
before a b = ltb a.sort_order b.sort_order || (a.sort_order == b.sort_order && ltb a.id b.id)

pub insert_row : Transition → List Transition → List Transition
insert_row t [] = t ∷ []
insert_row t (u ∷ us) = let rest = insert_row t us in if before t u then t ∷ u ∷ us else u ∷ rest

unfoldable pub in_order : List Transition → List Transition
unfolding insert_row
in_order [] = []
in_order (t ∷ ts) = insert_row t (in_order ts)

abbrev pub leaves : State → Transition → Bool
leaves current t = t.from_state_id == current.id

-- `_select_transition`: the first row of the action whose guard passes
unfoldable pub select_transition : Db → Instance → State → Action → Option Transition
select_transition db i current action =
    find? (λ t. amount_guard_passes t i)
      (in_order (filter (λ t. leaves current t && action_eq t.action action) db.transitions))
