-- ===== src/Store/Workspace/Tests.antt =====
-- The workspace store on concrete settings, and instances of its theorems.
use collab_notes_ecs.Base.{txt, ◌==◌, true, none, some, List, [], ◌∷◌, ◌≡◌, refl}
use collab_notes_ecs.Base.UniqBy.{keeps_first}
use collab_notes_ecs.Utils.Language.{as_written, is_validate_locale, locales, translations}
use collab_notes_ecs.Store.Workspace.{
  WorkspaceSetting, initial, valid_theme, no_general_setting, end_upsert_setting, begin_set_theme,
  Event, fetched, upserted, theme_set, set, step, run, set_partial, valid_locale, end_fetch_setting,
}
use collab_notes_ecs.Store.Workspace.Valid.{IsValid, run-IsValid}

abbrev closed : WorkspaceSetting
closed = record {
  name = txt "workspace/settings/GENERAL";
  general_setting =
      some (record no_general_setting { theme = txt "paper"; disallow_user_registration = true });
  memo_related_setting = none;
}

abbrev events : List Event
events =
    fetched closed ∷ set (some (txt "xx")) none ∷ upserted closed ∷ theme_set (txt "whitewall") ∷ []

final_state :
    run as_written keeps_first events initial
    ≡ record initial { theme = txt "whitewall"; settings = closed ∷ [] }
unfolding run step set_partial valid_locale valid_theme end_fetch_setting end_upsert_setting
    begin_set_theme as_written keeps_first is_validate_locale locales translations ◌==◌
final_state = refl

run-IsValid_example : IsValid as_written (run as_written keeps_first events initial)
run-IsValid_example = run-IsValid as_written keeps_first events
