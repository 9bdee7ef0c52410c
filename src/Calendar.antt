-- ===== src/Calendar.antt =====
-- app/web/src/components/ActivityCalendar/ActivityCalendar.tsx: the cells of the calendar of a month. What the
-- code asks `Date` is an argument: the weekdays of the first and the last day of the month, Sunday being
-- zero, its days, those of the month before, and the text of a date.
pub mod Cells
pub mod View
pub mod Tests
use collab_notes_ecs.Base.{
  ℕ, zero, suc, ◌+◌, ◌-◌, ◌%◌, Text, Bool, true, false, Option, none, some, List, [], ◌∷◌, ◌++◌,
  take, drop, length,
}

pub record Month : Type 0 where
  pub first_weekday : ℕ
  pub last_weekday : ℕ
  pub day_in_month : ℕ
  pub prev_month_days : ℕ
  pub date : ℕ → Text

pub record CalendarDay : Type 0 where
  pub day : ℕ
  pub is_current_month : Bool
  pub date : Option Text

-- The offset of the week's start: `pos k` is `k`, and `negsuc k` is `-(k + 1)`.
pub data ℤ : Type 0 where
  pos : ℕ → ℤ
  negsuc : ℕ → ℤ

-- `firstDay`: the weekday less the offset, brought into the range of a week
unfoldable pub first_day : ℤ → Month → ℕ
first_day (pos k) m = (m.first_weekday + 7 - k % 7) % 7
first_day (negsuc k) m = (m.first_weekday + k + 1) % 7

-- The rounds of a loop from 1 while `i < 7 - lastDay`, where `lastDay` is the last weekday less the offset,
-- and may be negative.
unfoldable pub next_rounds : ℤ → Month → ℕ
next_rounds (pos k) m = 7 + k - m.last_weekday - 1
next_rounds (negsuc k) m = 7 - (m.last_weekday + k + 1) - 1

-- the loop that counts `i` down from `firstDay - 1`
unfoldable pub prev_days : ℕ → ℕ → List CalendarDay
prev_days prev_month_days zero = []
prev_days prev_month_days (suc i) =
    record { day = prev_month_days - i; is_current_month = false; date = none }
    ∷ prev_days prev_month_days i

-- the loops that count `i` up, for as many rounds
unfoldable pub current_days : (ℕ → Text) → ℕ → ℕ → List CalendarDay
current_days date i zero = []
current_days date i (suc rounds) =
    record { day = i; is_current_month = true; date = some (date i) }
    ∷ current_days date (i + 1) rounds

unfoldable pub next_days : ℕ → ℕ → List CalendarDay
next_days i zero = []
next_days i (suc rounds) =
    record { day = i; is_current_month = false; date = none } ∷ next_days (i + 1) rounds

-- `days`
unfoldable pub days : ℤ → Month → List CalendarDay
days week_start_day_offset m =
    prev_days m.prev_month_days (first_day week_start_day_offset m)
    ++ (current_days m.date 1 m.day_in_month ++ next_days 1 (next_rounds week_start_day_offset m))

-- `weekDays`, the names of the weekdays from the start of the week on; a negative index counts from the end
unfoldable pub week_days : ℤ → List Text → List Text
week_days (pos k) names = drop k names ++ take k names
week_days (negsuc k) names =
    drop (length names - (k + 1)) names ++ take (length names - (k + 1)) names
