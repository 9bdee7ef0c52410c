-- ===== src/Store/MemoFilter.antt =====
-- app/web/src/store/memoFilter.ts: the filters of the memo list, their form in the URL's query, and the
-- click on a tag of components/TagTree.tsx that toggles one. `encodeURIComponent` and
-- `decodeURIComponent` throw on malformed input, which is `none` here.
pub mod Query
pub mod Toggle
pub mod Tests
use collab_notes_ecs.Base.{
  ℕ, Text, txt, ◌==◌, truthy, Bool, true, false, not, ◌&&◌, Option, none, some, List, [], ◌∷◌, ◌++◌,
  ◌≡◌, map, if◌then◌else◌, any, select, get_or, All, ◌≢◌,
}
use collab_notes_ecs.Base.Split.{split, join, Without}
use collab_notes_ecs.Base.UniqBy.{UniqBy}

pub data FilterFactor : Type 0 where
  tag_search visibility content_search display_time pinned has_link has_task_list has_code :
      FilterFactor

abbrev pub factor_text : FilterFactor → Text
factor_text tag_search = txt "tagSearch"
factor_text visibility = txt "visibility"
factor_text content_search = txt "contentSearch"
factor_text display_time = txt "displayTime"
factor_text pinned = txt "pinned"
factor_text has_link = txt "property.hasLink"
factor_text has_task_list = txt "property.hasTaskList"
factor_text has_code = txt "property.hasCode"

-- The factor is a text: what `parseFilterQuery` reads is cast, not checked.
pub record MemoFilter : Type 0 where
  pub factor : Text
  pub value : Text

unfoldable pub get_memo_filter_key : MemoFilter → Text
get_memo_filter_key filter = filter.factor ++ (b':' ∷ filter.value)

-- The two functions of the language's library.
pub record UriCodec : Type 0 where
  pub encode : Text → Option Text
  pub decode : Text → Option Text

-- `const [factor, value] = filterStr.split(":")`; a missing value is decoded as the text "undefined"
unfoldable pub parse_parts : UriCodec → List Text → Option MemoFilter
parse_parts uri [] = none
parse_parts uri (factor ∷ []) = elim (uri.decode (txt "undefined")) [
  | none ↦ none
  | some value ↦ some (record { factor = factor; value = value })
]
parse_parts uri (factor ∷ value ∷ more) = elim (uri.decode value) [
  | none ↦ none
  | some value' ↦ some (record { factor = factor; value = value' })
]

-- the callback of `map`; if one throws, all is lost
unfoldable pub parse_filters : UriCodec → List Text → Option (List MemoFilter)
parse_filters uri [] = some []
parse_filters uri (s ∷ ss) =
    let rest = parse_filters uri ss in
    elim (parse_parts uri (split b':' s)) [
      | none ↦ none
      | some filter ↦ elim rest [ none ↦ none | some filters ↦ some (filter ∷ filters) ]
    ]

unfoldable pub parse_filter_query : UriCodec → Option Text → List MemoFilter
parse_filter_query uri none = []
parse_filter_query uri (some query) =
    if truthy query then get_or (parse_filters uri (split b',' query)) [] else []

unfoldable pub stringify_filter : UriCodec → MemoFilter → Option Text
stringify_filter uri filter = elim (uri.encode filter.value) [
  | none ↦ none
  | some value ↦ some (filter.factor ++ (b':' ∷ value))
]

unfoldable pub stringify_each : UriCodec → List MemoFilter → Option (List Text)
stringify_each uri [] = some []
stringify_each uri (filter ∷ filters) =
    let rest = stringify_each uri filters in
    elim (stringify_filter uri filter) [
      | none ↦ none
      | some s ↦ elim rest [ none ↦ none | some ss ↦ some (s ∷ ss) ]
    ]

unfoldable pub stringify_filters : UriCodec → List MemoFilter → Option Text
stringify_filters uri filters = elim (stringify_each uri filters) [
  | none ↦ none
  | some ss ↦ some (join b',' ss)
]

pub record MemoFilterState : Type 0 where
  pub filters : List MemoFilter
  pub shortcut : Option Text

-- the constructor and `init`, on the `filter` parameter of the location
unfoldable pub init : UriCodec → Option Text → MemoFilterState
init uri query = record { filters = parse_filter_query uri query; shortcut = none }

unfoldable pub get_filters_by_factor : FilterFactor → MemoFilterState → List MemoFilter
get_filters_by_factor factor s =
    select (λ (f : MemoFilter). f.factor == factor_text factor) s.filters

unfoldable pub add_filter : UniqBy MemoFilter → MemoFilter → MemoFilterState → MemoFilterState
add_filter lodash filter s = record s {
  filters = lodash.uniq_by get_memo_filter_key (s.filters ++ filter ∷ []);
}

unfoldable pub remove_filter : (MemoFilter → Bool) → MemoFilterState → MemoFilterState
remove_filter filter_fn s = record s { filters = select (λ f. not (filter_fn f)) s.filters }

unfoldable pub set_shortcut : Option Text → MemoFilterState → MemoFilterState
set_shortcut shortcut s = record s { shortcut = shortcut }

-- `isActive` of a tag item, and its `handleTagClick`
unfoldable pub is_active : Text → MemoFilterState → Bool
unfolding get_filters_by_factor
is_active text s = any (λ (f : MemoFilter). f.value == text) (get_filters_by_factor tag_search s)

unfoldable pub handle_tag_click : UniqBy MemoFilter → Text → MemoFilterState → MemoFilterState
handle_tag_click lodash text s =
    if is_active text s
    then remove_filter (λ f. (f.factor == factor_text tag_search) && (f.value == text)) s
    else add_filter lodash (record { factor = factor_text tag_search; value = text }) s
