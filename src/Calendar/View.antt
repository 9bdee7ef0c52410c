-- ===== src/Calendar/View.antt =====
-- app/web/src/components/ActivityCalendar/ActivityCalendar.tsx: what a cell of the month shows. `count / maxCount`
-- is compared with quarters by multiplication: both are whole numbers and the largest count is at least
-- one. `cn` keeps the class names that are truthy; the translated text of a tooltip is an argument.
use collab_notes_ecs.Base.{
  ℕ, ◌*◌, ◌≤◌, ◌≡◌, Text, txt, truthy, ◌==◌, Bool, false, not, ◌&&◌, Option, none, some, List, [],
  ◌∷◌, ◌++◌, eqb, ltb, max, if◌then◌else◌, get_or, is_some, arith,
}
use collab_notes_ecs.Base.Dict.{Dict, get, values}
use collab_notes_ecs.Calendar.{CalendarDay}

unfoldable pub get_cell_opacity : ℕ → ℕ → Text
get_cell_opacity count max_count =
    if eqb count 0
    then []
    else if ltb (3 * max_count) (4 * count)
    then txt "bg-destructive text-destructive-foreground"
    else if ltb max_count (2 * count)
    then txt "bg-destructive/70 text-destructive-foreground"
    else if ltb max_count (4 * count)
    then txt "bg-destructive/50 text-destructive-foreground"
    else txt "bg-destructive/30 text-destructive-foreground"

-- `Math.max(...counts, 1)`
unfoldable pub max_of : List ℕ → ℕ
max_of [] = 1
max_of (count ∷ counts) = max count (max_of counts)

unfoldable pub max_count : Dict ℕ → ℕ
max_count data_by_date = max_of (values data_by_date)

-- The properties of `CalendarCell`; `on_click` is the date that a click passes on.
pub record Cell : Type 0 where
  pub day_info : CalendarDay
  pub count : ℕ
  pub is_today : Bool
  pub is_selected : Bool
  pub on_click : Option Text
  pub tooltip_text : Text

unfoldable pub cell : Dict ℕ → Text → Text → (ℕ → Text → Text) → CalendarDay → Cell
cell data_by_date today selected count_text day_info =
    let date : Text = get_or day_info.date [] in
    let count : ℕ = get_or (get data_by_date date) 0 in
    if not day_info.is_current_month
    then record {
      day_info = day_info;
      count = 0;
      is_today = false;
      is_selected = false;
      on_click = none;
      tooltip_text = [];
    }
    else record {
      day_info = day_info;
      count = count;
      is_today = today == date;
      is_selected = selected == date;
      on_click = some date;
      tooltip_text = if eqb count 0 then date else count_text count date;
    }

-- the argument of `cn`, where it is not false
abbrev when : Bool → Text → List Text
when b name = if b && truthy name then name ∷ [] else []

abbrev join_names : List (List Text) → List Text
join_names [] = []
join_names (names ∷ more) = names ++ join_names more

-- The class names that depend on the day, of a cell of the month; another cell has none of them.
unfoldable pub class_names : ℕ → Cell → List Text
class_names most c =
    let current : Bool = c.day_info.is_current_month in
    join_names (
      when current (get_cell_opacity c.count most)
      ∷ when (current && c.is_today) (txt "border-border")
      ∷ when (current && c.is_selected) (txt "font-medium border-border")
      ∷ when (current && not c.is_today && not c.is_selected) (txt "border-transparent")
      ∷ when (ltb 0 c.count) (txt "cursor-pointer hover:scale-110")
      ∷ [])

-- What a click on the cell passes on: nothing on a day without memos
unfoldable pub click : Cell → Option Text
click c = if ltb 0 c.count then c.on_click else none

count-max_of :
    (data_by_date : Dict ℕ) (date : Text)
    → get_or (get data_by_date date) 0 ≤ max_of (values data_by_date)
unfolding get values max_of
count-max_of [] date = omega arith
count-max_of ((k, count) ∷ data_by_date) date = ground (arith, count-max_of data_by_date date)

-- No cell counts more memos than the largest count, so the ratio that picks the colour is at most one; and
-- a cell has a colour exactly when a click on it passes something on.
cell_lem :
    (data_by_date : Dict ℕ) (today selected : Text) (count_text : ℕ → Text → Text) (d : CalendarDay)
    → ((cell data_by_date today selected count_text d).count ≤ max_count data_by_date)
      × (truthy (
            get_cell_opacity
              (cell data_by_date today selected count_text d).count
              (max_count data_by_date))
          ≡ is_some (click (cell data_by_date today selected count_text d)))
unfolding cell click get_cell_opacity max_count
cell_lem data_by_date today selected count_text d =
    let bound : get_or (get data_by_date (get_or d.date [])) 0 ≤ max_of (values data_by_date) =
      count-max_of data_by_date (get_or d.date []) in
    ground arith
