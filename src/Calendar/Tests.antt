-- ===== src/Calendar/Tests.antt =====
-- August 2026, which begins on a Saturday and ends on a Monday, and February 2026, a Sunday to a Saturday.
use collab_notes_ecs.Base.{
  ℕ, ◌+◌, ◌%◌, Text, txt, true, some, List, [], ◌∷◌, ◌≡◌, refl, arith, length, get_elem?,
}
use collab_notes_ecs.Calendar.{
  Month, pos, negsuc, first_day, next_rounds, prev_days, current_days, next_days, days, week_days,
}
use collab_notes_ecs.Calendar.Cells.{IsMonth, days-week_days}

abbrev dated : ℕ → Text
dated i = i ∷ []

abbrev august : Month
august = record {
  first_weekday = 6;
  last_weekday = 1;
  day_in_month = 31;
  prev_month_days = 31;
  date = dated;
}

august-IsMonth : IsMonth august
august-IsMonth = record { weekday = omega arith; some_day = omega arith; last = refl }

abbrev february : Month
february = record {
  first_weekday = 0;
  last_weekday = 6;
  day_in_month = 28;
  prev_month_days = 31;
  date = dated;
}

-- With the week from Saturday on as -1, the last row of the calendar of February has one cell.
length-february : length (days (negsuc 0) february) ≡ 29
unfolding days first_day next_rounds prev_days current_days next_days
length-february = refl

abbrev names : List Text
names = txt "sun" ∷ txt "mon" ∷ txt "tue" ∷ txt "wed" ∷ txt "thu" ∷ txt "fri" ∷ txt "sat" ∷ []

days-week_days_example :
    (get_elem? (days (pos 1) august) (first_day (pos 1) august + 4)
      ≡ some (record { day = 5; is_current_month = true; date = some (dated 5) }))
    × (get_elem? (week_days (pos 1) names) ((first_day (pos 1) august + 4) % 7) ≡ some (txt "wed"))
days-week_days_example =
    days-week_days (pos 1) august names 4 august-IsMonth (omega arith) refl (omega arith)
