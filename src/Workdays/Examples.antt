-- ===== src/Workdays/Examples.antt =====
-- Runs of the calendar functions, and the theorems at dates of 2026: 739622 is Tuesday 2026-01-06
-- (`date(2026, 1, 6).toordinal()`), and the Wednesday and Thursday after it are taken off.
use office_connect.Base.{◌≡◌, ◌+◌, ◌<◌, true, refl, some, none, List, [], ◌∷◌, ℕ, String, arith}
use office_connect.Base.Int.{pos, negsuc}
use office_connect.Workdays.{
  is_working_day, next_working_day, add_working_days, working_days_between, max_ordinal, weekday,
  next_from, forward, backward,
}
use office_connect.Workdays.Count.{working_days_between-add, working_days_between-add_back}

abbrev tuesday : ℕ
tuesday = 739622

abbrev off : List ℕ
off = (tuesday + 1) ∷ (tuesday + 2) ∷ []

abbrev nearest : String
nearest = "nearest"

weekday-tuesday : weekday tuesday ≡ 1
weekday-tuesday = refl

-- Friday the 9th is the first working day after the Tuesday, Monday the 12th the second.
add-two : add_working_days off tuesday (pos 2) ≡ some (tuesday + 6)
unfolding add_working_days forward is_working_day
add-two = refl

-- From Saturday the 10th two working days back is the Tuesday.
back-two : add_working_days off (tuesday + 4) (negsuc 1) ≡ some tuesday
unfolding add_working_days backward is_working_day
back-two = refl

-- No date is left after `date.max`, a Friday.
add_past_max : add_working_days [] max_ordinal (pos 1) ≡ none
unfolding add_working_days forward
add_past_max = refl

roll-wednesday : next_working_day off (tuesday + 1) ≡ some (tuesday + 3)
unfolding next_working_day next_from is_working_day
roll-wednesday = refl

working_days_between-add_example :
    (working_days_between off tuesday (tuesday + 6) ≡ some (pos 2))
    × (is_working_day (tuesday + 6) off ≡ true)
    × (tuesday < tuesday + 6)
working_days_between-add_example =
    working_days_between-add off tuesday 2 (omega arith) (omega arith) (omega arith) add-two

-- From the Saturday two working days back, the days between count to -1.
working_days_between-add_back_example :
    (working_days_between off (tuesday + 4) tuesday ≡ some (negsuc 0))
    × (is_working_day tuesday off ≡ true)
    × (tuesday < tuesday + 4)
unfolding is_working_day
working_days_between-add_back_example =
    working_days_between-add_back off (tuesday + 4) 1 (omega arith) (omega arith) back-two
