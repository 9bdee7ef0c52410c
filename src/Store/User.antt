-- ===== src/Store/User.antt =====
-- app/web/src/store/user.ts: the users by name, the inboxes and the statistics. The user map is an object
-- that some methods replace and others write to, and that a call which awaits may have kept from before,
-- so the objects made so far are a heap and the state refers to one of them. MobX keeps an object that
-- it observes already, so that `setPartial({ userMapByName: userMap })` after such a write refers to
-- the same one. The settings are in Store/User/Settings.
pub mod Cache
pub mod Lost
pub mod Stats
pub mod Settings
pub mod Tests
use collab_notes_ecs.Base.{
  ℕ, ◌+◌, Text, txt, truthy, ◌==◌, Bool, true, false, not, Option, none, some, List, [], ◌∷◌, ◌++◌,
  if◌then◌else◌, get_or, find, select, map, length, get_elem?, set,
}
use collab_notes_ecs.Base.Dict.{Dict, get, put, remove, put_all, values, spread}

-- The role, the state, the password and the dates are left out.
pub record User : Type 0 where
  pub name : Text
  pub username : Text
  pub email : Text
  pub display_name : Text
  pub avatar_url : Text
  pub description : Text

pub record UserStats : Type 0 where
  pub name : Text
  pub tag_count : Dict ℕ
  pub pinned_memos : List Text
  pub total_memo_count : ℕ

pub data InboxStatus : Type 0 where
  unspecified unread archived unrecognized : InboxStatus

pub record Inbox : Type 0 where
  pub name : Text
  pub sender : Text
  pub receiver : Text
  pub status : InboxStatus

pub record GeneralSetting : Type 0 where
  pub locale : Text
  pub memo_visibility : Text
  pub theme : Text

-- The sessions, access tokens and webhooks are lists of messages, of which the store reads nothing: here
-- they are lists of names.
pub record UserSetting : Type 0 where
  pub name : Text
  pub general_setting : Option GeneralSetting
  pub sessions_setting : Option (List Text)
  pub access_tokens_setting : Option (List Text)
  pub webhooks_setting : Option (List Text)

pub record Shortcut : Type 0 where
  pub name : Text
  pub title : Text
  pub filter : Text

pub record LocalState : Type 0 where
  pub current_user : Text
  pub user_general_setting : Option GeneralSetting
  pub user_sessions_setting : Option (List Text)
  pub user_access_tokens_setting : Option (List Text)
  pub user_webhooks_setting : Option (List Text)
  pub shortcuts : List Shortcut
  pub inboxes : List Inbox
  pub objects : List (Dict User)
  pub user_map_by_name : ℕ
  pub user_stats_by_name : Dict UserStats
  pub stats_state_id : Text

abbrev pub initial : Text → LocalState
initial id = record {
  current_user = [];
  user_general_setting = none;
  user_sessions_setting = none;
  user_access_tokens_setting = none;
  user_webhooks_setting = none;
  shortcuts = [];
  inboxes = [];
  objects = [] ∷ [];
  user_map_by_name = 0;
  user_stats_by_name = [];
  stats_state_id = id;
}

-- The entries of an object.
unfoldable pub object_at : LocalState → ℕ → Dict User
object_at s r = get_or (get_elem? s.objects r) []

unfoldable pub user_map : LocalState → Dict User
unfolding object_at
user_map s = object_at s s.user_map_by_name

-- `setPartial({ userMapByName: m })` of a new object, and a write to the object that is there
unfoldable pub replace_user_map : Dict User → LocalState → LocalState
replace_user_map m s = record s {
  objects = s.objects ++ m ∷ [];
  user_map_by_name = length s.objects;
}

unfoldable pub mutate_user_map : Dict User → LocalState → LocalState
mutate_user_map m s = record s { objects = set s.objects s.user_map_by_name m }

unfoldable pub get_user_by_name : Text → LocalState → Option User
get_user_by_name name s = get (user_map s) name

-- `getOrFetchUserByName`: up to the `await` it keeps the object that the state refers to
abbrev pub begin_get_user : LocalState → ℕ
begin_get_user s = s.user_map_by_name

unfoldable pub end_get_user : ℕ → Text → User → LocalState → LocalState
end_get_user kept name user s = replace_user_map (put (object_at s kept) name user) s

-- the whole call, where nothing else happens in between; what the service answers is an argument
unfoldable pub get_or_fetch_user_by_name : Text → User → LocalState → LocalState × User
unfolding end_get_user
get_or_fetch_user_by_name name answer s = elim (get_user_by_name name s) [
  | some user ↦ (s, user)
  | none ↦ (end_get_user (begin_get_user s) name answer s, answer)
]

-- `getOrFetchUserByUsername`: what the cache has; after the `await`, `none` for the error
unfoldable pub cached_username : Text → LocalState → Option User
cached_username username s = find (λ (u : User). u.username == username) (values (user_map s))

unfoldable pub end_get_by_username : ℕ → Text → List User → LocalState → LocalState × Option User
end_get_by_username kept username users s =
    elim (find (λ (u : User). u.username == username) users) [
      | none ↦ (s, none)
      | some user ↦ (end_get_user kept user.name user s, some user)
    ]

unfoldable pub end_fetch_users : List User → LocalState → LocalState
end_fetch_users users s = mutate_user_map (put_all (λ (u : User). u.name) (user_map s) users) s

unfoldable pub end_update_user : User → LocalState → LocalState
end_update_user user s = replace_user_map (put (user_map s) user.name user) s

unfoldable pub end_delete_user : Text → LocalState → LocalState
end_delete_user name s = mutate_user_map (remove (user_map s) name) s

-- `fetchInboxes`: the error without a user, and what follows the `await`
unfoldable pub may_fetch_inboxes : LocalState → Bool
may_fetch_inboxes s = truthy s.current_user

unfoldable pub end_fetch_inboxes : List Inbox → LocalState → LocalState
end_fetch_inboxes inboxes s = record s { inboxes = inboxes }

unfoldable pub end_update_inbox : Inbox → LocalState → LocalState
end_update_inbox inbox s = record s {
  inboxes = map (λ (i : Inbox). if i.name == inbox.name then inbox else i) s.inboxes;
}

unfoldable pub end_delete_inbox : Text → LocalState → LocalState
end_delete_inbox name s = record s {
  inboxes = select (λ (i : Inbox). not (i.name == name)) s.inboxes;
}

-- `fetchUserStats`: of all users, or of one, under the name that was asked for
unfoldable pub end_fetch_all_stats : List UserStats → LocalState → LocalState
end_fetch_all_stats stats s = record s {
  user_stats_by_name = spread s.user_stats_by_name (put_all (λ (x : UserStats). x.name) [] stats);
}

unfoldable pub end_fetch_stats : Text → UserStats → LocalState → LocalState
end_fetch_stats user stats s = record s {
  user_stats_by_name = spread s.user_stats_by_name (put [] user stats);
}

unfoldable pub set_stats_state_id : Text → LocalState → LocalState
set_stats_state_id id s = record s { stats_state_id = id }

-- `get tagCount()`: the inner loop, over one user's tags, and the outer one
unfoldable pub count_tags : Dict ℕ → Dict ℕ → Dict ℕ
count_tags [] counted = counted
count_tags ((tag, n) ∷ tags) counted =
    count_tags tags (put counted tag (get_or (get counted tag) 0 + n))

unfoldable pub count_each : List UserStats → Dict ℕ → Dict ℕ
count_each [] counted = counted
count_each (stats ∷ rest) counted = count_each rest (count_tags stats.tag_count counted)

unfoldable pub tag_count : LocalState → Dict ℕ
tag_count s = count_each (values s.user_stats_by_name) []

unfoldable pub current_user_stats : LocalState → Option UserStats
current_user_stats s =
    if truthy s.current_user then get s.user_stats_by_name s.current_user else none
