-- ===== src/Store/MemoFilter/Query.antt =====
-- The filters survive the way through the URL.
use collab_notes_ecs.Base.{
  ℕ, Text, truthy, true, some, List, [], ◌∷◌, ◌++◌, ◌≡◌, refl, arith, All, ◌≢◌, Option-cases, inl,
  inr, All-append, ap, ◌∙◌, some_inj,
}
use collab_notes_ecs.Base.Split.{split, join, Without, split-join, split-append, split_plain}
use collab_notes_ecs.Store.MemoFilter.{
  FilterFactor, tag_search, visibility, content_search, display_time, pinned, has_link,
  has_task_list, has_code, factor_text, MemoFilter, UriCodec, parse_parts, parse_filters,
  parse_filter_query, stringify_filter, stringify_each, stringify_filters,
}

-- What the language says of the two functions: decoding undoes encoding, and an encoded text holds
-- no comma and no colon.
pub record IsUriCodec (uri : UriCodec) : Type 0 where
  pub decode-encode : (s e : Text) → uri.encode s ≡ some e → uri.decode e ≡ some s
  pub encode_comma : (s e : Text) → uri.encode s ≡ some e → Without b',' e
  pub encode_colon : (s e : Text) → uri.encode s ≡ some e → Without b':' e

-- A factor without comma or colon, as every factor of the type is.
abbrev pub IsPlain : MemoFilter → Type 0
IsPlain f = Without b',' f.factor × Without b':' f.factor

colon-ne-comma : ◌≢◌ {A = ℕ} b':' b','
colon-ne-comma e = omega arith

truthy-append : (s : Text) (c : ℕ) (t : Text) → truthy (s ++ (c ∷ t)) ≡ true
truthy-append [] c t = refl
truthy-append (d ∷ s) c t = refl

truthy-join :
    (sep : ℕ) (s : Text) (ss : List Text) → truthy s ≡ true → truthy (join sep (s ∷ ss)) ≡ true
unfolding join
truthy-join sep (c ∷ s) [] h = refl
truthy-join sep (c ∷ s) (t ∷ ss) h = refl
truthy-join sep [] ss h = cc

Without-of_parts :
    (ss : List Text) → All (λ s. Without b',' s × (truthy s ≡ true)) ss → All (Without b',') ss
Without-of_parts [] h = tt
Without-of_parts (s ∷ ss) h = (h.0.0, Without-of_parts ss h.1)

module _ (uri : UriCodec) (laws : IsUriCodec uri) where
  parse-stringify_filter :
      (f : MemoFilter) (s : Text)
      → IsPlain f
      → stringify_filter uri f ≡ some s
      → (parse_parts uri (split b':' s) ≡ some f) × Without b',' s × (truthy s ≡ true)
  unfolding stringify_filter parse_parts
  parse-stringify_filter f s plain h = elim (Option-cases (uri.encode f.value)) [
    | inl missing ↦ cc (rw (missing, stringify_filter) at h)
    | inr (e, encoded) ↦
        let is : f.factor ++ (b':' ∷ e) ≡ s = some_inj (rw (encoded, stringify_filter) at h) in
        let parts =
          split-append b':' f.factor e plain.1
          ∙ ap (λ l. f.factor ∷ l) (split_plain b':' e (laws.encode_colon f.value e encoded)) in
        rw (← is) (
          rw parts (rw (laws.decode-encode f.value e encoded, parse_parts)),
          All-append _ f.factor (b':' ∷ e) plain.0
              (colon-ne-comma, laws.encode_comma f.value e encoded),
          truthy-append f.factor b':' e,
        )
  ]

  parse-stringify_each :
      (fs : List MemoFilter) (ss : List Text)
      → All IsPlain fs
      → stringify_each uri fs ≡ some ss
      → (parse_filters uri ss ≡ some fs) × All (λ s. Without b',' s × (truthy s ≡ true)) ss
  unfolding stringify_each parse_filters
  parse-stringify_each [] ss plain h = rw (← (some_inj h)) (refl, tt)
  parse-stringify_each (f ∷ fs) ss plain h = elim (Option-cases (stringify_filter uri f)) [
    | inl missing ↦ cc (rw (missing, stringify_each) at h)
    | inr (s, this) ↦ elim (Option-cases (stringify_each uri fs)) [
      | inl missing ↦ cc (rw (this, missing, stringify_each) at h)
      | inr (rest, more) ↦
          let is : s ∷ rest ≡ ss = some_inj (rw (this, more, stringify_each) at h) in
          let (first, plain_s, some_char) = parse-stringify_filter f s plain.0 this in
          let (later, plain_rest) = parse-stringify_each fs rest plain.1 more in
          rw (← is) (rw (first, later, parse_filters), ((plain_s, some_char), plain_rest))
    ]
  ]

  parse-join :
      (fs : List MemoFilter) (ss : List Text)
      → parse_filters uri ss ≡ some fs
      → All (λ s. Without b',' s × (truthy s ≡ true)) ss
      → parse_filter_query uri (some (join b',' ss)) ≡ fs
  unfolding parse_filter_query
  parse-join fs [] e h = unfold parse_filters join in some_inj e
  parse-join fs (s ∷ ss) e h =
      rw (truthy-join b',' s ss h.0.1)
        (rw (split-join b',' s ss (Without-of_parts (s ∷ ss) h)) (rw e))

  -- If no factor holds a comma or a colon and the values can be encoded, the query made of the
  -- filters is read back as the same filters in the same order.
  pub parse-stringify :
      (fs : List MemoFilter) (query : Text)
      → All IsPlain fs
      → stringify_filters uri fs ≡ some query
      → parse_filter_query uri (some query) ≡ fs
  unfolding stringify_filters
  parse-stringify fs query plain h = elim (Option-cases (stringify_each uri fs)) [
    | inl missing ↦ cc (rw (missing, stringify_filters) at h)
    | inr (ss, all) ↦
        let is : join b',' ss ≡ query = some_inj (rw (all, stringify_filters) at h) in
        let (read, parts) = parse-stringify_each fs ss plain all in
        rw (← is) (parse-join fs ss read parts)
  ]

pub factor_text-IsPlain :
    (factor : FilterFactor) (value : Text)
    → IsPlain (record { factor = factor_text factor; value = value })
factor_text-IsPlain tag_search value = omega arith
factor_text-IsPlain visibility value = omega arith
factor_text-IsPlain content_search value = omega arith
factor_text-IsPlain display_time value = omega arith
factor_text-IsPlain pinned value = omega arith
factor_text-IsPlain has_link value = omega arith
factor_text-IsPlain has_task_list value = omega arith
factor_text-IsPlain has_code value = omega arith
