-- ===== src/Store/MemoFilter/Tests.antt =====
-- The filter store on concrete filters, and instances of its theorems.
use collab_notes_ecs.Base.{
  Text, txt, Bool, true, not, ◌&&◌, none, some, List, [], ◌∷◌, ◌≡◌, refl, arith, All, if◌then◌else◌,
  eqb,
}
use collab_notes_ecs.Base.Split.{split, join, Without}
use collab_notes_ecs.Base.UniqBy.{keeps_first}
use collab_notes_ecs.Store.MemoFilter.{
  MemoFilter, MemoFilterState, UriCodec, parse_parts, parse_filters, parse_filter_query,
  stringify_filter, stringify_each, stringify_filters, is_active, handle_tag_click,
}
use collab_notes_ecs.Store.MemoFilter.Query.{IsUriCodec, IsPlain, parse-stringify}
use collab_notes_ecs.Store.MemoFilter.Toggle.{
  holds, same_filter, tag_filter, holds-handle_tag_click,
}

-- A codec that encodes only what needs no escape.
needs_none : Text → Bool
needs_none [] = true
needs_none (c ∷ s) = not (eqb c b',') && not (eqb c b':') && needs_none s

plain_uri : UriCodec
unfolding needs_none
plain_uri = record { encode = λ s. if needs_none s then some s else none; decode = some }

needs_none-Without : (s : Text) → needs_none s ≡ true → Without b',' s × Without b':' s
unfolding needs_none
needs_none-Without [] h = (tt, tt)
needs_none-Without (c ∷ s) h = ground (arith, needs_none-Without s)

plain_uri-IsUriCodec : IsUriCodec plain_uri
unfolding plain_uri
plain_uri-IsUriCodec = record {
  decode-encode = λ s e h. ground arith;
  encode_comma = λ s e h. ground (arith, needs_none-Without s);
  encode_colon = λ s e h. ground (arith, needs_none-Without s);
}

abbrev two_filters : List MemoFilter
two_filters =
    record { factor = txt "tagSearch"; value = txt "work" }
    ∷ record { factor = txt "pinned"; value = [] }
    ∷ []

two_filters_query : stringify_filters plain_uri two_filters ≡ some (txt "tagSearch:work,pinned:")
unfolding stringify_filters stringify_each stringify_filter join plain_uri
two_filters_query = refl

two_filters-IsPlain : All IsPlain two_filters
two_filters-IsPlain = omega arith

parse-stringify_example :
    parse_filter_query plain_uri (some (txt "tagSearch:work,pinned:")) ≡ two_filters
parse-stringify_example =
    parse-stringify plain_uri plain_uri-IsUriCodec two_filters (txt "tagSearch:work,pinned:")
      two_filters-IsPlain two_filters_query

missing_value :
    parse_filter_query plain_uri (some (txt "pinned"))
    ≡ record { factor = txt "pinned"; value = txt "undefined" } ∷ []
unfolding parse_filter_query parse_filters parse_parts split plain_uri
missing_value = refl

abbrev filtered : MemoFilterState
filtered = record { filters = two_filters; shortcut = none }

holds-handle_tag_click_example :
    (is_active (txt "work") (handle_tag_click keeps_first (txt "work") filtered)
      ≡ not (is_active (txt "work") filtered))
    × (holds (tag_filter (txt "home")) (handle_tag_click keeps_first (txt "work") filtered).filters
        ≡ (if same_filter (tag_filter (txt "work")) (tag_filter (txt "home"))
            then not (holds (tag_filter (txt "home")) two_filters)
            else holds (tag_filter (txt "home")) two_filters))
holds-handle_tag_click_example =
    holds-handle_tag_click keeps_first (txt "work") (tag_filter (txt "home")) filtered (omega arith)
      two_filters-IsPlain
