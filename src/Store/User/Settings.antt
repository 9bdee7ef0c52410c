-- ===== src/Store/User/Settings.antt =====
-- The settings of the user store, and initialUserStore. A method that throws without a user, or where the
-- service fails, leaves the state as it is.
use collab_notes_ecs.Base.{
  Text, txt, truthy, ◌==◌, Bool-cases, inl, inr, true, Option, none, some, List, [], ◌∷◌, ◌++◌, ◌≡◌,
  refl, if◌then◌else◌, or_else, ◌∙◌,
}
use collab_notes_ecs.Base.Dict.{get, put, get-put}
use collab_notes_ecs.Utils.Language.{
  OrderBy, find_nearest_matched_language, find_nearest_matched_language_lem,
}
use collab_notes_ecs.Store.User.{
  User, GeneralSetting, UserSetting, Shortcut, LocalState, object_at, user_map, replace_user_map,
  get_user_by_name,
}
use collab_notes_ecs.Store.User.Cache.{user_map-replace_user_map}
use collab_notes_ecs.Store.Workspace
use collab_notes_ecs.Store.Workspace.{nothing, set_partial, valid_locale, valid_theme}

-- The name in the request of the two methods for the general setting: `none` for the error
unfoldable pub general_setting_name : LocalState → Option Text
general_setting_name s =
    if truthy s.current_user then some (s.current_user ++ txt "/settings/GENERAL") else none

-- `updateUserGeneralSetting` and `getUserGeneralSetting` after the `await`
unfoldable pub end_update_general_setting : UserSetting → LocalState → LocalState
end_update_general_setting setting s = record s { user_general_setting = setting.general_setting }

unfoldable pub end_get_general_setting :
    UserSetting → LocalState → LocalState × Option GeneralSetting
end_get_general_setting setting s =
    (record s { user_general_setting = setting.general_setting }, setting.general_setting)

-- `settings.find((s) => s.part)?.part`
abbrev pub first_part {ℓ} : {A : Type ℓ} → (UserSetting → Option A) → List UserSetting → Option A
first_part part [] = none
first_part part (s ∷ settings) = or_else (part s) (first_part part settings)

-- `fetchUserSettings`, with what the two requests answer
unfoldable pub fetch_user_settings : List UserSetting → List Shortcut → LocalState → LocalState
fetch_user_settings settings shortcuts s =
    if truthy s.current_user
    then record s {
      user_general_setting = first_part (λ (x : UserSetting). x.general_setting) settings;
      user_sessions_setting = first_part (λ (x : UserSetting). x.sessions_setting) settings;
      user_access_tokens_setting =
          first_part (λ (x : UserSetting). x.access_tokens_setting) settings;
      user_webhooks_setting = first_part (λ (x : UserSetting). x.webhooks_setting) settings;
      shortcuts = shortcuts;
    }
    else s

-- The two `setPartial`s on the session's user
unfoldable pub sign_out : LocalState → LocalState
sign_out s = replace_user_map [] (record s { current_user = []; user_general_setting = none })

unfoldable pub sign_in : User → LocalState → LocalState
sign_in user s = replace_user_map (put [] user.name user) (record s { current_user = user.name })

unfoldable pub apply_general_setting :
    OrderBy → Option GeneralSetting → Workspace.LocalState → Workspace.LocalState
apply_general_setting lodash none w = w
apply_general_setting lodash (some setting) w =
    set_partial lodash
      (record nothing {
        locale = some setting.locale;
        theme = some (if truthy setting.theme then setting.theme else txt "default");
      })
      w

-- the `catch`
unfoldable pub apply_navigator_language :
    OrderBy → Text → Workspace.LocalState → Workspace.LocalState
apply_navigator_language lodash language w =
    set_partial lodash
      (record nothing { locale = some (find_nearest_matched_language lodash language) }) w

-- What the services answer: an error, no user, or a user with the settings and the shortcuts or an error
pub data Session : Type 0 where
  failed : Session
  no_user : Session
  settings_failed : User → Session
  complete : User → List UserSetting → List Shortcut → Session

unfoldable pub initial_user_store :
    OrderBy → Text → Session → LocalState → Workspace.LocalState → LocalState × Workspace.LocalState
unfolding apply_general_setting apply_navigator_language
initial_user_store lodash language failed s w = (s, apply_navigator_language lodash language w)
initial_user_store lodash language no_user s w = (sign_out s, w)
initial_user_store lodash language (settings_failed user) s w =
    if truthy user.name
    then (sign_in user s, apply_navigator_language lodash language w)
    else (sign_in user s, apply_general_setting lodash (sign_in user s).user_general_setting w)
initial_user_store lodash language (complete user settings shortcuts) s w =
    let s' = fetch_user_settings settings shortcuts (sign_in user s) in
    (s', apply_general_setting lodash s'.user_general_setting w)

get_user_by_name-sign_in :
    (user : User) (s : LocalState) (k : Text)
    → get_user_by_name k (sign_in user s) ≡ (if user.name == k then some user else none)
unfolding get_user_by_name sign_in get
get_user_by_name-sign_in user s k =
    rw (user_map-replace_user_map (put [] user.name user) (record s { current_user = user.name }))
      (get-put [] user.name k user)

get_user_by_name-fetch_user_settings :
    (settings : List UserSetting) (shortcuts : List Shortcut) (s : LocalState) (k : Text)
    → get_user_by_name k (fetch_user_settings settings shortcuts s) ≡ get_user_by_name k s
unfolding get_user_by_name user_map object_at fetch_user_settings
get_user_by_name-fetch_user_settings settings shortcuts s k =
    elim (Bool-cases (truthy s.current_user)) [
      | inl signed_in ↦ rw signed_in refl
      | inr signed_out ↦ rw signed_out refl
    ]

fetch_signed_in :
    (settings : List UserSetting) (shortcuts : List Shortcut) (user : User) (s : LocalState)
    → truthy user.name ≡ true
    → let u = fetch_user_settings settings shortcuts (sign_in user s) in
      (u.current_user ≡ user.name)
      × (u.user_general_setting ≡ first_part (λ (x : UserSetting). x.general_setting) settings)
unfolding fetch_user_settings sign_in replace_user_map
fetch_signed_in settings shortcuts user s named = rw named (refl, refl)

locale-apply_navigator_language :
    (lodash : OrderBy) (language : Text) (w : Workspace.LocalState)
    → (apply_navigator_language lodash language w).locale
      ≡ find_nearest_matched_language lodash language
unfolding apply_navigator_language set_partial valid_locale
locale-apply_navigator_language lodash language w =
    rw ((find_nearest_matched_language_lem lodash language).0) refl

-- If the session has a user with a name, and the settings arrive, then this user is the current one and
-- the only one that the store has, the general setting is the first that the settings hold, and it is
-- what is applied to the workspace. If there is no answer about the session, the user
-- store stays as it is, and the workspace gets the locale that is nearest to the browser's language.
initial_user_store_lem :
    (lodash : OrderBy) (language k : Text) (user : User) (settings : List UserSetting)
    (shortcuts : List Shortcut) (s : LocalState) (w : Workspace.LocalState)
    → truthy user.name ≡ true
    → let (u, w₁) = initial_user_store lodash language (complete user settings shortcuts) s w in
      let (u₂, w₂) = initial_user_store lodash language failed s w in
      (get_user_by_name k u ≡ (if user.name == k then some user else none))
      × (u.current_user ≡ user.name)
      × (u.user_general_setting ≡ first_part (λ (x : UserSetting). x.general_setting) settings)
      × (w₁ ≡ apply_general_setting lodash u.user_general_setting w)
      × (u₂ ≡ s)
      × (w₂.locale ≡ find_nearest_matched_language lodash language)
unfolding initial_user_store
initial_user_store_lem lodash language k user settings shortcuts s w named = (
  get_user_by_name-fetch_user_settings settings shortcuts (sign_in user s) k
      ∙ get_user_by_name-sign_in user s k,
  (fetch_signed_in settings shortcuts user s named).0,
  (fetch_signed_in settings shortcuts user s named).1,
  refl,
  refl,
  locale-apply_navigator_language lodash language w,
)
