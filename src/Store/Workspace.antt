-- ===== src/Store/Workspace.antt =====
-- app/web/src/store/workspace.ts: the settings of the workspace, and the locale and the theme of the
-- client. A call that awaits is what follows the `await`, with the reply as an argument; where the
-- service fails, the call throws there and the state stays. A setting's storage part is not read here
-- and is left out.
pub mod Valid
pub mod Tests
use collab_notes_ecs.Base.{
  ℕ, Text, txt, ◌==◌, contains, Bool, true, false, Option, none, some, List, [], ◌∷◌, ◌++◌,
  if◌then◌else◌, get_or, find,
}
use collab_notes_ecs.Base.UniqBy.{UniqBy}
use collab_notes_ecs.Utils.Language.{OrderBy, is_validate_locale, default_language}

pub record Profile : Type 0 where
  pub owner : Text
  pub version : Text
  pub mode : Text
  pub instance_url : Text

pub record CustomProfile : Type 0 where
  pub title : Text
  pub description : Text
  pub logo_url : Text
  pub locale : Text

-- The offset is an int32, given by its 32 bits.
pub record GeneralSetting : Type 0 where
  pub theme : Text
  pub disallow_user_registration : Bool
  pub disallow_password_auth : Bool
  pub additional_script : Text
  pub additional_style : Text
  pub custom_profile : Option CustomProfile
  pub week_start_day_offset : ℕ
  pub disallow_change_username : Bool
  pub disallow_change_nickname : Bool

pub record MemoRelatedSetting : Type 0 where
  pub disallow_public_visibility : Bool
  pub display_with_update_time : Bool
  pub content_length_limit : ℕ
  pub enable_double_click_edit : Bool
  pub enable_link_preview : Bool
  pub reactions : List Text
  pub disable_markdown_shortcuts : Bool
  pub enable_blur_nsfw_content : Bool
  pub nsfw_tags : List Text

pub record WorkspaceSetting : Type 0 where
  pub name : Text
  pub general_setting : Option GeneralSetting
  pub memo_related_setting : Option MemoRelatedSetting

pub data SettingKey : Type 0 where
  key_unspecified general storage memo_related unrecognized : SettingKey

abbrev pub key_text : SettingKey → Text
key_text key_unspecified = txt "KEY_UNSPECIFIED"
key_text general = txt "GENERAL"
key_text storage = txt "STORAGE"
key_text memo_related = txt "MEMO_RELATED"
key_text unrecognized = txt "UNRECOGNIZED"

unfoldable pub setting_name : SettingKey → Text
setting_name key = txt "workspace/settings/" ++ key_text key

-- The messages that `fromPartial({})` makes.
abbrev pub no_profile : Profile
no_profile = record { owner = []; version = []; mode = []; instance_url = [] }

abbrev pub no_custom_profile : CustomProfile
no_custom_profile = record { title = []; description = []; logo_url = []; locale = [] }

abbrev pub no_general_setting : GeneralSetting
no_general_setting = record {
  theme = [];
  disallow_user_registration = false;
  disallow_password_auth = false;
  additional_script = [];
  additional_style = [];
  custom_profile = none;
  week_start_day_offset = 0;
  disallow_change_username = false;
  disallow_change_nickname = false;
}

abbrev pub no_memo_related_setting : MemoRelatedSetting
no_memo_related_setting = record {
  disallow_public_visibility = false;
  display_with_update_time = false;
  content_length_limit = 0;
  enable_double_click_edit = false;
  enable_link_preview = false;
  reactions = [];
  disable_markdown_shortcuts = false;
  enable_blur_nsfw_content = false;
  nsfw_tags = [];
}

abbrev pub no_setting : WorkspaceSetting
no_setting = record { name = []; general_setting = none; memo_related_setting = none }

pub record LocalState : Type 0 where
  pub locale : Text
  pub theme : Text
  pub profile : Profile
  pub settings : List WorkspaceSetting

abbrev pub initial : LocalState
initial = record {
  locale = default_language;
  theme = txt "default";
  profile = no_profile;
  settings = [];
}

-- `Partial<LocalState>`; a field that is there and undefined is the empty text
pub record Partial : Type 0 where
  pub locale : Option Text
  pub theme : Option Text
  pub profile : Option Profile
  pub settings : Option (List WorkspaceSetting)

abbrev pub nothing : Partial
nothing = record { locale = none; theme = none; profile = none; settings = none }

abbrev pub themes : List Text
themes = txt "default" ∷ txt "default-dark" ∷ txt "paper" ∷ txt "whitewall" ∷ []

unfoldable pub valid_locale : OrderBy → Text → Text
valid_locale lodash locale = if is_validate_locale lodash locale then locale else txt "en"

unfoldable pub valid_theme : Text → Text
valid_theme theme = if contains themes theme then theme else txt "default"

unfoldable pub set_partial : OrderBy → Partial → LocalState → LocalState
set_partial lodash partial s = record {
  locale = valid_locale lodash (get_or partial.locale s.locale);
  theme = valid_theme (get_or partial.theme s.theme);
  profile = get_or partial.profile s.profile;
  settings = get_or partial.settings s.settings;
}

-- `get generalSetting()` and `get memoRelatedSetting()`
abbrev pub general_of : Option WorkspaceSetting → GeneralSetting
general_of none = no_general_setting
general_of (some setting) = get_or setting.general_setting no_general_setting

abbrev pub memo_related_of : Option WorkspaceSetting → MemoRelatedSetting
memo_related_of none = no_memo_related_setting
memo_related_of (some setting) = get_or setting.memo_related_setting no_memo_related_setting

abbrev pub find_setting : SettingKey → LocalState → Option WorkspaceSetting
find_setting key s = find (λ (x : WorkspaceSetting). x.name == setting_name key) s.settings

unfoldable pub general_setting : LocalState → GeneralSetting
general_setting s = general_of (find_setting general s)

unfoldable pub memo_related_setting : LocalState → MemoRelatedSetting
memo_related_setting s = memo_related_of (find_setting memo_related s)

unfoldable pub get_workspace_setting_by_key : SettingKey → LocalState → WorkspaceSetting
get_workspace_setting_by_key key s = get_or (find_setting key s) no_setting

module _ (lodash : OrderBy) (uniq : UniqBy WorkspaceSetting) where
  abbrev pub with_setting : WorkspaceSetting → LocalState → LocalState
  with_setting setting s =
      set_partial lodash
        (record nothing {
          settings = some (uniq.uniq_by (λ (x : WorkspaceSetting). x.name) (setting ∷ s.settings));
        })
        s

  -- `fetchWorkspaceSetting` and `upsertWorkspaceSetting` after the `await`
  unfoldable pub end_fetch_setting : WorkspaceSetting → LocalState → LocalState
  end_fetch_setting setting s = with_setting setting s

  unfoldable pub end_upsert_setting : WorkspaceSetting → LocalState → LocalState
  end_upsert_setting setting s = with_setting setting s

-- `setTheme` up to the `await`: the new state, and the setting that is sent
unfoldable pub theme_setting : LocalState → WorkspaceSetting
theme_setting s =
    let setting = general_setting s in
    record {
      name = setting_name general;
      general_setting = some (record setting {
        custom_profile = some (get_or setting.custom_profile no_custom_profile);
      });
      memo_related_setting = none;
    }

unfoldable pub begin_set_theme : OrderBy → Text → LocalState → LocalState × WorkspaceSetting
begin_set_theme lodash theme s =
    let s' = set_partial lodash (record nothing { theme = some theme }) s in (s', theme_setting s')

abbrev pub locale_of : Option CustomProfile → Text
locale_of none = []
locale_of (some profile) = profile.locale

-- the end of `initialWorkspaceStore`, when the profile and the two settings are there
unfoldable pub end_initial : OrderBy → Profile → LocalState → LocalState
end_initial lodash profile s =
    set_partial lodash
      (record nothing {
        locale = some (locale_of (general_setting s).custom_profile);
        theme = some (txt "default");
        profile = some profile;
      })
      s

-- What happens to the store, other components' calls of `setPartial` with a locale and a theme too.
pub data Event : Type 0 where
  fetched upserted : WorkspaceSetting → Event
  theme_set : Text → Event
  initialized : Profile → Event
  set : Option Text → Option Text → Event

unfoldable pub step : OrderBy → UniqBy WorkspaceSetting → Event → LocalState → LocalState
step lodash uniq (fetched setting) s = end_fetch_setting lodash uniq setting s
step lodash uniq (upserted setting) s = end_upsert_setting lodash uniq setting s
step lodash uniq (theme_set theme) s = (begin_set_theme lodash theme s).0
step lodash uniq (initialized profile) s = end_initial lodash profile s
step lodash uniq (set locale theme) s =
    set_partial lodash (record nothing { locale = locale; theme = theme }) s

unfoldable pub run : OrderBy → UniqBy WorkspaceSetting → List Event → LocalState → LocalState
run lodash uniq [] s = s
run lodash uniq (e ∷ es) s = run lodash uniq es (step lodash uniq e s)
