-- ===== src/Pages.antt =====
-- app/web/src/pages/Home.tsx, Archived.tsx, Explore.tsx and UserProfile.tsx: which memos a page asks for, and in which
-- order it shows those of the store. `dayjs(t).unix()` and what `Date` makes of a text are arguments.
pub mod Order
pub mod Conditions
pub mod Attachments
pub mod Tests
use collab_notes_ecs.Base.{
  ℕ, zero, suc, ◌+◌, ◌*◌, Text, txt, ◌==◌, truthy, starts_with, includes, Bool, true, false, Option,
  none, some, List, [], ◌∷◌, ◌++◌, if◌then◌else◌, eqb, leb, length, drop, get_or, get_elem?, select,
  find,
}
use collab_notes_ecs.Base.Split.{split, join}
use collab_notes_ecs.Api.{Memo, State, normal, archived}
use collab_notes_ecs.Store.MemoFilter.{
  FilterFactor, factor_text, tag_search, content_search, display_time, pinned, has_link,
  has_task_list, has_code, MemoFilter,
}

abbrev pub same_state : State → State → Bool
same_state State.unspecified State.unspecified = true
same_state normal normal = true
same_state archived archived = true
same_state State.unrecognized State.unrecognized = true
same_state a b = false

-- The comparison gives at most zero: the first time does not come after the second.
abbrev pub in_order : Bool → ℕ → ℕ → Bool
in_order order_by_time_asc a b = if order_by_time_asc then leb a b else leb b a

-- `Array.prototype.sort`, which is stable
module _ {A : Type 0} where
  unfoldable pub insert : (A → A → Bool) → A → List A → List A
  insert before x [] = x ∷ []
  insert before x (y ∷ ys) =
      let rest = insert before x ys in if before x y then x ∷ y ∷ ys else y ∷ rest

  unfoldable pub sort : (A → A → Bool) → List A → List A
  sort before [] = []
  sort before (x ∷ xs) = insert before x (sort before xs)

-- `listSort` of the pages, of which `Archived` lists the archived memos and the others the normal ones
unfoldable pub list_sort : (Option ℕ → ℕ) → State → Bool → List Memo → List Memo
list_sort unix state order_by_time_asc memos =
    sort
      (λ (a : Memo) (b : Memo).
        in_order order_by_time_asc (unix a.display_time) (unix b.display_time))
      (select (λ (m : Memo). same_state m.state state) memos)

unfoldable pub order_by : Bool → Text
order_by order_by_time_asc =
    if order_by_time_asc then txt "display_time asc" else txt "display_time desc"

unfoldable pub get_shortcut_id : Text → Text
get_shortcut_id name =
    let parts = split b'/' name in
    if eqb (length parts) 4 then get_or (get_elem? parts 3) [] else []

-- `s.split(separator).pop()`, for a separator that does not overlap itself
unfoldable pub last_part : Text → Text → Text
last_part separator [] = []
last_part separator (c ∷ s) =
    let rest = last_part separator s in
    if includes s separator
    then rest
    else if starts_with (c ∷ s) separator
    then drop (length separator) (c ∷ s)
    else c ∷ s

unfoldable pub extract_user_id_from_name : Text → Text
extract_user_id_from_name name = last_part (txt "users/") name

abbrev pub creator_condition : Text → Text
creator_condition name = txt "creator_id == " ++ extract_user_id_from_name name

abbrev pub content_condition : Text → Text
content_condition value = txt "content.contains(\"" ++ (value ++ txt "\")")

abbrev pub tag_condition : Text → Text
tag_condition value = txt "tag in [\"" ++ (value ++ txt "\"]")

-- What the code asks `Date` and the printing of numbers: the seconds of the day that a text names, less
-- the time zone, and the text of a number.
pub record Clock : Type 0 where
  pub timestamp_after : Text → ℕ
  pub print : ℕ → Text

abbrev pub time_condition : Clock → Bool → Text → Text
time_condition clock display_with_update_time value =
    let factor = if display_with_update_time then txt "updated_ts" else txt "created_ts" in
    let after = clock.timestamp_after value in
    factor
    ++ (txt " >= "
        ++ (clock.print after
            ++ (txt " && " ++ (factor ++ (txt " < " ++ clock.print (after + 60 * 60 * 24))))))

-- The conditions that a filter adds on the home page, and on the pages of the archive and of a user.
unfoldable pub home_condition : Clock → Bool → MemoFilter → List Text
home_condition clock display_with_update_time filter =
    if filter.factor == factor_text content_search
    then content_condition filter.value ∷ []
    else if filter.factor == factor_text tag_search
    then tag_condition filter.value ∷ []
    else if filter.factor == factor_text pinned
    then txt "pinned" ∷ []
    else if filter.factor == factor_text has_link
    then txt "has_link" ∷ []
    else if filter.factor == factor_text has_task_list
    then txt "has_task_list" ∷ []
    else if filter.factor == factor_text has_code
    then txt "has_code" ∷ []
    else if filter.factor == factor_text display_time
    then time_condition clock display_with_update_time filter.value ∷ []
    else []

unfoldable pub page_condition : MemoFilter → List Text
page_condition filter =
    if filter.factor == factor_text content_search
    then content_condition filter.value ∷ []
    else if filter.factor == factor_text tag_search
    then tag_condition filter.value ∷ []
    else []

abbrev pub push_each : (MemoFilter → List Text) → List MemoFilter → List Text
push_each condition [] = []
push_each condition (filter ∷ filters) = condition filter ++ push_each condition filters

-- `conditions.join(" && ")`
abbrev pub join_conditions : List Text → Text
join_conditions [] = []
join_conditions (condition ∷ []) = condition
join_conditions (condition ∷ next ∷ rest) =
    condition ++ (txt " && " ++ join_conditions (next ∷ rest))

abbrev pub shortcut_condition : Option Text → List Text
shortcut_condition none = []
shortcut_condition (some filter) = if truthy filter then filter ∷ [] else []

-- `memoFilter`; the list of conditions is never empty
unfoldable pub home_filter : Clock → Bool → Text → Option Text → List MemoFilter → Text
home_filter clock display_with_update_time name shortcut filters = join_conditions (
    creator_condition name
    ∷ (shortcut_condition shortcut
        ++ push_each (home_condition clock display_with_update_time) filters))

unfoldable pub page_filter : Text → List MemoFilter → Text
page_filter name filters =
    join_conditions (creator_condition name ∷ push_each page_condition filters)
