-- ===== src/Store/MemoFilter/Toggle.antt =====
-- Adding, removing and toggling filters.
use collab_notes_ecs.Base.{
  Text, ◌==◌, ==_iff, ==_refl, Bool, true, false, not, ◌&&◌, ◌||◌, List, [], ◌∷◌, ◌++◌, ◌≡◌, refl,
  arith, All, if◌then◌else◌, any, select, inl, inr, Bool-cases, sym, ◌∙◌, All-append,
}
use collab_notes_ecs.Base.Split.{Without}
use collab_notes_ecs.Base.UniqBy.{
  UniqBy, IsUnique, has_key, has_key-uniq_by, has_key-concat, uniq_by-IsUnique, All-uniq_by,
}
use collab_notes_ecs.Store.MemoFilter.{
  tag_search, factor_text, MemoFilter, MemoFilterState, get_memo_filter_key, add_filter,
  remove_filter, is_active, handle_tag_click,
}
use collab_notes_ecs.Store.MemoFilter.Query.{IsPlain, factor_text-IsPlain}

colon_split :
    (p q s t : Text)
    → Without b':' p
    → Without b':' q
    → p ++ (b':' ∷ s) ≡ q ++ (b':' ∷ t)
    → (p ≡ q) × (s ≡ t)
colon_split [] [] s t hp hq e = ground arith
colon_split [] (d ∷ q) s t hp hq e = ground arith
colon_split (c ∷ p) [] s t hp hq e = ground arith
colon_split (c ∷ p) (d ∷ q) s t hp hq e = ground (arith, colon_split p q s t hp.1 hq.1)

abbrev pub same_filter : MemoFilter → MemoFilter → Bool
same_filter f g = (f.factor == g.factor) && (f.value == g.value)

-- Filters with plain factors have the same key only if they are the same.
key-==-key :
    (f g : MemoFilter)
    → IsPlain f
    → IsPlain g
    → (get_memo_filter_key f == get_memo_filter_key g) ≡ same_filter f g
unfolding get_memo_filter_key
key-==-key f g hf hg = ground (
  arith,
  ==_iff (f.factor ++ (b':' ∷ f.value)) (g.factor ++ (b':' ∷ g.value)),
  ==_iff f.factor g.factor,
  ==_iff f.value g.value,
  colon_split f.factor g.factor f.value g.value hf.1 hg.1,
)

-- Is the filter in the list?
abbrev pub holds : MemoFilter → List MemoFilter → Bool
holds g fs = any (λ (f : MemoFilter). same_filter f g) fs

holds-has_key :
    (g : MemoFilter) (fs : List MemoFilter)
    → IsPlain g
    → All IsPlain fs
    → has_key get_memo_filter_key (get_memo_filter_key g) fs ≡ holds g fs
holds-has_key g [] hg h = refl
holds-has_key g (f ∷ fs) hg h = ground (arith, key-==-key f g h.0 hg, holds-has_key g fs hg h.1)

abbrev pub tag_filter : Text → MemoFilter
tag_filter text = record { factor = factor_text tag_search; value = text }

any-select_tag :
    (text : Text) (fs : List MemoFilter)
    → any
        (λ (f : MemoFilter). f.value == text)
        (select (λ (f : MemoFilter). f.factor == factor_text tag_search) fs)
      ≡ holds (tag_filter text) fs
any-select_tag text [] = refl
any-select_tag text (f ∷ fs) = ground (arith, any-select_tag text fs)

is_active-holds :
    (text : Text) (s : MemoFilterState) → is_active text s ≡ holds (tag_filter text) s.filters
unfolding is_active
is_active-holds text s = any-select_tag text s.filters

-- Removing one filter by its factor and value.
holds-remove :
    (t g : MemoFilter) (fs : List MemoFilter)
    → holds g (select (λ f. not (same_filter f t)) fs)
      ≡ (if same_filter t g then false else holds g fs)
holds-remove t g [] = ground arith
holds-remove t g (f ∷ fs) = ground (
  arith,
  holds-remove t g fs,
  ==_iff t.factor g.factor,
  ==_iff t.value g.value,
  ==_iff f.factor t.factor,
  ==_iff f.value t.value,
  ==_iff f.factor g.factor,
  ==_iff f.value g.value,
)

same_filter_value :
    (f g : MemoFilter) (fs : List MemoFilter) → same_filter f g ≡ true → holds f fs ≡ holds g fs
same_filter_value f g [] e = refl
same_filter_value f g (x ∷ fs) e =
    ground (arith, same_filter_value f g fs, ==_iff f.factor g.factor, ==_iff f.value g.value)

module _ (lodash : UniqBy MemoFilter) where
  add_filter-IsPlain :
      (f : MemoFilter) (s : MemoFilterState)
      → IsPlain f
      → All IsPlain s.filters
      → All IsPlain (add_filter lodash f s).filters
  unfolding add_filter
  add_filter-IsPlain f s hf h =
      All-uniq_by get_memo_filter_key lodash IsPlain _
        (All-append IsPlain s.filters (f ∷ []) h (hf, tt))

  -- After adding a filter to filters with plain factors, no two filters have the same key, and a
  -- filter is in the list exactly if it was or is the new one.
  pub holds-add_filter :
      (f g : MemoFilter) (s : MemoFilterState)
      → IsPlain f
      → IsPlain g
      → All IsPlain s.filters
      → IsUnique get_memo_filter_key (add_filter lodash f s).filters
        × (holds g (add_filter lodash f s).filters ≡ (same_filter f g || holds g s.filters))
  unfolding add_filter
  holds-add_filter f g s hf hg h =
      let key = get_memo_filter_key in
      let all = s.filters ++ f ∷ [] in
      let new = lodash.uniq_by key all in
      let plain : All IsPlain new = add_filter-IsPlain f s hf h in
      (
        uniq_by-IsUnique key lodash all,
        sym (holds-has_key g new hg plain)
            ∙ has_key-uniq_by key lodash (key g) all
            ∙ has_key-concat key (key g) s.filters f
            ∙ ground (arith, key-==-key f g hf hg, holds-has_key g s.filters hg h),
      )

  click-holds :
      (text : Text) (g : MemoFilter) (s : MemoFilterState)
      → IsPlain g
      → All IsPlain s.filters
      → holds g (handle_tag_click lodash text s).filters
        ≡ (if same_filter (tag_filter text) g then not (holds g s.filters) else holds g s.filters)
  unfolding handle_tag_click remove_filter
  click-holds text g s hg h =
      let t = tag_filter text in
      elim (Bool-cases (is_active text s)) [
        | inl on ↦ rw on (
            holds-remove t g s.filters
            ∙ ground (arith, same_filter_value t g s.filters, is_active-holds text s))
        | inr off ↦ rw off (
            (holds-add_filter t g s (factor_text-IsPlain tag_search text) hg h).1
            ∙ ground (arith, same_filter_value t g s.filters, is_active-holds text s))
      ]

  -- A click on a tag turns its filter on if it was off and off if it was on, and leaves every other
  -- filter as it was.
  pub holds-handle_tag_click :
      (text : Text) (g : MemoFilter) (s : MemoFilterState)
      → IsPlain g
      → All IsPlain s.filters
      → (is_active text (handle_tag_click lodash text s) ≡ not (is_active text s))
        × (holds g (handle_tag_click lodash text s).filters ≡ (
            if same_filter (tag_filter text) g then not (holds g s.filters) else holds g s.filters))
  holds-handle_tag_click text g s hg h =
      let t = tag_filter text in
      let tag_plain = factor_text-IsPlain tag_search text in
      let after = handle_tag_click lodash text s in
      (
        is_active-holds text after
            ∙ click-holds text t s tag_plain h
            ∙ ground
                (arith, is_active-holds text s, ==_refl text, ==_refl (factor_text tag_search)),
        click-holds text g s hg h,
      )
