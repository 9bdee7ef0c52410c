-- ===== src/Utils/Language.antt =====
-- The languages of the client: app/web/src/i18n.ts and app/web/src/utils/i18n.ts. lodash's `orderBy`, which
-- sorts the list of locales, is a parameter.
use collab_notes_ecs.Base.{
  Text, txt, ◌==◌, ==_iff, ==_refl, truthy, contains, Bool, true, ◌&&◌, Option, none, some, List,
  [], ◌∷◌, ◌≡◌, ◌⊎◌, inl, inr, refl, arith, if◌then◌else◌, Bool-cases, find, take, All, get_or, sym,
  ◌∙◌,
}

-- `orderBy(xs)` has the elements of the list.
pub record OrderBy : Type 0 where
  pub order_by : List Text → List Text
  pub contains-order_by : (xs : List Text) (t : Text) → contains (order_by xs) t ≡ contains xs t

-- A function that behaves so: the list is almost sorted as it is written.
unfoldable pub as_written : OrderBy
as_written = record { order_by = λ xs. xs; contains-order_by = λ xs t. refl }

unfoldable pub translations : List Text
translations =
    txt "ar"
    ∷ txt "cs"
    ∷ txt "de"
    ∷ txt "en"
    ∷ txt "en-GB"
    ∷ txt "es"
    ∷ txt "fa"
    ∷ txt "fr"
    ∷ txt "hi"
    ∷ txt "hr"
    ∷ txt "hu"
    ∷ txt "id"
    ∷ txt "it"
    ∷ txt "ja"
    ∷ txt "ka-GE"
    ∷ txt "ko"
    ∷ txt "mr"
    ∷ txt "nb"
    ∷ txt "nl"
    ∷ txt "pl"
    ∷ txt "pt-PT"
    ∷ txt "pt-BR"
    ∷ txt "ru"
    ∷ txt "sl"
    ∷ txt "sv"
    ∷ txt "th"
    ∷ txt "tr"
    ∷ txt "uk"
    ∷ txt "vi"
    ∷ txt "zh-Hans"
    ∷ txt "zh-Hant"
    ∷ []

unfoldable pub locales : OrderBy → List Text
unfolding translations
locales lodash = lodash.order_by translations

-- A language, and what replaces it: the first choice, and others.
pub record Fallback : Type 0 where
  pub main : Text
  pub first : Text
  pub others : List Text

abbrev pub default_language : Text
default_language = txt "en"

abbrev pub fallback_lng : List Fallback
fallback_lng =
    record { main = txt "zh-HK"; first = txt "zh-Hant"; others = txt "en" ∷ [] }
    ∷ record { main = txt "zh-TW"; first = txt "zh-Hant"; others = txt "en" ∷ [] }
    ∷ record { main = txt "zh"; first = txt "zh-Hans"; others = txt "en" ∷ [] }
    ∷ record { main = txt "default"; first = default_language; others = [] }
    ∷ []

-- the first loop: `fallbacks[0]` of the first entry for the language
unfoldable pub find_fallback : Text → List Fallback → Option Text
find_fallback language [] = none
find_fallback language (f ∷ fs) =
    if language == f.main then some f.first else find_fallback language fs

unfoldable pub short_code : Text → Text
short_code language = take 2 language

-- the code behind the first loop
unfoldable pub find_by_short_code : List Text → Text → Text
find_by_short_code locales code =
    if contains locales code
    then code
    else get_or (find (λ existing. code == short_code existing) locales) default_language

unfoldable pub find_nearest_matched_language : OrderBy → Text → Text
find_nearest_matched_language lodash language =
    if contains (locales lodash) language
    then language
    else get_or (find_fallback language fallback_lng)
        (find_by_short_code (locales lodash) (short_code language))

unfoldable pub is_validate_locale : OrderBy → Text → Bool
is_validate_locale lodash locale = truthy locale && contains (locales lodash) locale

find_fallback-All {κ} :
    (P : Text → Text → Type κ) (language : Text) (fs : List Fallback)
    → All (λ (f : Fallback). P f.main f.first) fs
    → (find_fallback language fs ≡ none)
      ⊎ ((l : Text) × (find_fallback language fs ≡ some l) × P language l)
unfolding find_fallback
find_fallback-All P language [] h = inl refl
find_fallback-All P language (f ∷ fs) h = elim (Bool-cases (language == f.main)) [
  | inl same ↦ rw same (inr (f.first, refl, rw ((==_iff language f.main).0 same) h.0))
  | inr other ↦ rw other (find_fallback-All P language fs h.1)
]

find-contains :
    (p : Text → Bool) (xs : List Text)
    → (find p xs ≡ none)
      ⊎ ((x : Text) × (find p xs ≡ some x) × (p x ≡ true) × (contains xs x ≡ true))
find-contains p [] = inl refl
find-contains p (x ∷ xs) = elim (Bool-cases (p x)) [
  | inl here ↦ rw here (inr (x, refl, here, rw (==_refl x)))
  | inr other ↦ rw other (elim (find-contains p xs) [
    | inl missing ↦ inl missing
    | inr (y, found, py, there) ↦ inr (y, found, py, ground (arith, there))
  ])
]

-- The language code is the same, or the language is the default one.
abbrev pub IsNear : Text → Text → Type 0
IsNear asked given = (short_code given ≡ short_code asked) ⊎ (given ≡ default_language)

-- A translation for the language that was asked for.
abbrev IsMatch : Text → Text → Type 0
IsMatch asked given = (contains translations given ≡ true) × IsNear asked given

fallback_lng-IsMatch : All (λ (f : Fallback). IsMatch f.main f.first) fallback_lng
unfolding ◌==◌ short_code translations
fallback_lng-IsMatch =
    ((refl, inl refl), ((refl, inl refl), ((refl, inl refl), ((refl, inr refl), tt))))

short_code_twice : (language : Text) → short_code (short_code language) ≡ short_code language
unfolding short_code
short_code_twice [] = refl
short_code_twice (a ∷ []) = refl
short_code_twice (a ∷ b ∷ rest) = refl

pub default_language-contains : contains translations default_language ≡ true
unfolding translations ◌==◌
default_language-contains = refl

truthy-contains : (t : Text) → contains translations t ≡ true → truthy t ≡ true
unfolding translations ◌==◌
truthy-contains [] h = h
truthy-contains (c ∷ t) h = refl

module _ (lodash : OrderBy) where
  contains-locales : (t : Text) → contains (locales lodash) t ≡ contains translations t
  unfolding locales
  contains-locales t = lodash.contains-order_by translations t

  find_by_short_code-IsMatch :
      (language : Text)
      → IsMatch language (find_by_short_code (locales lodash) (short_code language))
  unfolding find_by_short_code
  find_by_short_code-IsMatch language =
      let code = short_code language in
      elim (Bool-cases (contains (locales lodash) code)) [
        | inl there ↦
            rw there (sym (contains-locales code) ∙ there, inl (short_code_twice language))
        | inr other ↦
            rw other
              (elim (find-contains (λ existing. code == short_code existing) (locales lodash)) [
                | inl missing ↦ rw missing (default_language-contains, inr refl)
                | inr (x, found, same, there) ↦ rw found (
                  sym (contains-locales x) ∙ there,
                  inl (sym ((==_iff code (short_code x)).0 same)),
                )
              ])
      ]

  find_nearest-IsMatch :
      (language : Text) → IsMatch language (find_nearest_matched_language lodash language)
  unfolding find_nearest_matched_language
  find_nearest-IsMatch language = elim (Bool-cases (contains (locales lodash) language)) [
    | inl there ↦ rw there (sym (contains-locales language) ∙ there, inl refl)
    | inr other ↦
        rw other (elim (find_fallback-All IsMatch language fallback_lng fallback_lng-IsMatch) [
          | inl missing ↦ rw missing (find_by_short_code-IsMatch language)
          | inr (l, found, match) ↦ rw found match
        ])
  ]

  pub contains-is_validate_locale :
      (t : Text) → contains translations t ≡ true → is_validate_locale lodash t ≡ true
  unfolding is_validate_locale
  contains-is_validate_locale t there = ground (arith, contains-locales t, truthy-contains t there)

  find_nearest_kept :
      (language : Text)
      → find_nearest_matched_language lodash language ≡ (
          if is_validate_locale lodash language
          then language
          else find_nearest_matched_language lodash language)
  unfolding is_validate_locale find_nearest_matched_language
  find_nearest_kept language = elim (Bool-cases (contains (locales lodash) language)) [
    | inl there ↦ rw there (ground arith)
    | inr other ↦ rw other (ground arith)
  ]

  -- The language that is found is a valid locale, and it has the code of the language that was asked
  -- for or is the default language; a language that is a valid locale is found itself.
  pub find_nearest_matched_language_lem :
      (language : Text)
      → let nearest = find_nearest_matched_language lodash language in
        (is_validate_locale lodash nearest ≡ true)
        × IsNear language nearest
        × (nearest ≡ (if is_validate_locale lodash language then language else nearest))
  unfolding is_validate_locale
  find_nearest_matched_language_lem language =
      let (there, near) = find_nearest-IsMatch language in
      (contains-is_validate_locale _ there, near, find_nearest_kept language)
