-- ===== src/Store/Workspace/Valid.antt =====
-- The workspace store always has a valid locale, a valid theme and one setting per name.
use collab_notes_ecs.Base.{
  Text, txt, ◌==◌, ==_refl, contains, true, Bool-cases, inl, inr, some, List, [], ◌∷◌, ◌≡◌, refl,
  arith, if◌then◌else◌, get_or,
}
use collab_notes_ecs.Base.UniqBy.{UniqBy, IsUnique, uniq_by-IsUnique, with_key-uniq_by}
use collab_notes_ecs.Utils.Language.{
  OrderBy, is_validate_locale, default_language, default_language-contains,
  contains-is_validate_locale,
}
use collab_notes_ecs.Store.Workspace.{
  WorkspaceSetting, LocalState, Partial, nothing, initial, SettingKey, general, themes,
  valid_locale, valid_theme, set_partial, setting_name, find_setting, no_custom_profile,
  general_setting, get_workspace_setting_by_key, end_fetch_setting, end_upsert_setting,
  theme_setting, begin_set_theme, end_initial, Event, fetched, upserted, theme_set, initialized,
  set, step, run,
}

abbrev pub name_of : WorkspaceSetting → Text
name_of setting = setting.name

pub record IsValid (lodash : OrderBy) (s : LocalState) : Type 0 where
  pub some_locale : is_validate_locale lodash s.locale ≡ true
  pub some_theme : contains themes s.theme ≡ true
  pub unique : IsUnique name_of s.settings

contains-valid_theme : (theme : Text) → contains themes (valid_theme theme) ≡ true
unfolding valid_theme ◌==◌
contains-valid_theme theme = elim (Bool-cases (contains themes theme)) [
  | inl there ↦ rw there there
  | inr other ↦ rw other refl
]

valid_theme_kept : (theme : Text) → contains themes theme ≡ true → valid_theme theme ≡ theme
unfolding valid_theme
valid_theme_kept theme there = rw there

module _ (lodash : OrderBy) (uniq : UniqBy WorkspaceSetting) where
  is_validate_locale-valid_locale :
      (locale : Text) → is_validate_locale lodash (valid_locale lodash locale) ≡ true
  unfolding valid_locale
  is_validate_locale-valid_locale locale = elim (Bool-cases (is_validate_locale lodash locale)) [
    | inl there ↦ rw there there
    | inr other ↦ rw other (contains-is_validate_locale lodash (txt "en") default_language-contains)
  ]

  set_partial-IsValid :
      (partial : Partial) (s : LocalState)
      → IsUnique name_of (get_or partial.settings s.settings)
      → IsValid lodash (set_partial lodash partial s)
  unfolding set_partial
  set_partial-IsValid partial s unique = record {
    some_locale = is_validate_locale-valid_locale (get_or partial.locale s.locale);
    some_theme = contains-valid_theme (get_or partial.theme s.theme);
    unique = unique;
  }

  initial-IsValid : IsValid lodash initial
  unfolding ◌==◌
  initial-IsValid = record {
    some_locale = contains-is_validate_locale lodash default_language default_language-contains;
    some_theme = refl;
    unique = tt;
  }

  step-IsValid :
      (e : Event) (s : LocalState) → IsValid lodash s → IsValid lodash (step lodash uniq e s)
  unfolding step end_fetch_setting end_upsert_setting begin_set_theme end_initial
  step-IsValid (fetched setting) s h =
      set_partial-IsValid _ s (uniq_by-IsUnique name_of uniq (setting ∷ s.settings))
  step-IsValid (upserted setting) s h =
      set_partial-IsValid _ s (uniq_by-IsUnique name_of uniq (setting ∷ s.settings))
  step-IsValid (theme_set theme) s h = set_partial-IsValid _ s h.unique
  step-IsValid (initialized profile) s h = set_partial-IsValid _ s h.unique
  step-IsValid (set locale theme) s h = set_partial-IsValid _ s h.unique

  run_from :
      (es : List Event) (s : LocalState) → IsValid lodash s → IsValid lodash (run lodash uniq es s)
  unfolding run
  run_from [] s h = h
  run_from (e ∷ es) s h = run_from es (step lodash uniq e s) (step-IsValid e s h)

  -- Whatever is fetched, stored and set, the store has a locale that has a translation, one of the four
  -- themes, and no two settings of one name.
  pub run-IsValid : (es : List Event) → IsValid lodash (run lodash uniq es initial)
  run-IsValid es = run_from es initial initial-IsValid

  find_setting-end_upsert_setting :
      (setting : WorkspaceSetting) (key : SettingKey) (s : LocalState)
      → find_setting key (end_upsert_setting lodash uniq setting s)
        ≡ (if setting.name == setting_name key then some setting else find_setting key s)
  unfolding end_upsert_setting set_partial
  find_setting-end_upsert_setting setting key s =
      with_key-uniq_by name_of uniq (setting_name key) (setting ∷ s.settings)

  -- A setting that was stored is found under its key, and every other key has the setting it had.
  pub get_workspace_setting_by_key-end_upsert_setting :
      (setting : WorkspaceSetting) (key : SettingKey) (s : LocalState)
      → get_workspace_setting_by_key key (end_upsert_setting lodash uniq setting s)
        ≡ (if setting.name == setting_name key then setting else get_workspace_setting_by_key key s)
  unfolding get_workspace_setting_by_key
  get_workspace_setting_by_key-end_upsert_setting setting key s =
      rw (find_setting-end_upsert_setting setting key s) (ground arith)

  theme-end_upsert_setting :
      (setting : WorkspaceSetting) (theme : Text) (s : LocalState)
      → (end_upsert_setting lodash uniq setting
          (set_partial lodash (record nothing { theme = some theme }) s)).theme
        ≡ valid_theme theme
  unfolding end_upsert_setting set_partial
  theme-end_upsert_setting setting theme s =
      valid_theme_kept (valid_theme theme) (contains-valid_theme theme)

  general_setting-theme_setting :
      (s : LocalState)
      → general_setting (end_upsert_setting lodash uniq (theme_setting s) s)
        ≡ record (general_setting s) {
          custom_profile = some (get_or (general_setting s).custom_profile no_custom_profile);
        }
  unfolding general_setting theme_setting
  general_setting-theme_setting s =
      rw (find_setting-end_upsert_setting (theme_setting s) general s)
        (rw (==_refl (setting_name general)))

  -- After setTheme and its request, the theme is the one that was asked for, or "default" if that is no
  -- theme; and the stored general setting, its theme too, is what it was, but for a custom profile
  -- that is there in any case.
  pub set_theme_lem :
      (theme : Text) (s : LocalState)
      → let (begun, setting) = begin_set_theme lodash theme s in
        let after = end_upsert_setting lodash uniq setting begun in
        (after.theme ≡ valid_theme theme)
        × (general_setting after ≡ record (general_setting s) {
          custom_profile = some (get_or (general_setting s).custom_profile no_custom_profile);
        })
  unfolding begin_set_theme set_partial general_setting
  set_theme_lem theme s =
      let begun = set_partial lodash (record nothing { theme = some theme }) s in
      (theme-end_upsert_setting (theme_setting begun) theme s, general_setting-theme_setting begun)
