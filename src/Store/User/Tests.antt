-- ===== src/Store/User/Tests.antt =====
-- The user store on concrete users, and instances of its theorems.
use collab_notes_ecs.Base.{
  ◌≢◌, Text, txt, ◌==◌, ==_iff, true, none, some, List, [], ◌∷◌, ◌≡◌, refl, arith,
}
use collab_notes_ecs.Base.Dict.{Dict, get, put, put_all, values}
use collab_notes_ecs.Store.User.{UserSetting}
use collab_notes_ecs.Store.User.{
  User, UserStats, InboxStatus, unread, Inbox, LocalState, initial, object_at, user_map,
  get_user_by_name, begin_get_user, end_get_user, replace_user_map, end_fetch_users,
  end_delete_user, mutate_user_map, tag_count, count_each, count_tags,
}
use collab_notes_ecs.Store.User.Cache.{
  Call, get_user, fetch_users, delete_user, run, cache_run, run-Refines_cache,
}
use collab_notes_ecs.Store.User.Lost.{first_reply_lost}
use collab_notes_ecs.Store.User.Stats.{amount}

abbrev user_named : Text → User
user_named name = record {
  name = name;
  username = name;
  email = [];
  display_name = [];
  avatar_url = [];
  description = [];
}

abbrev a_name : Text
a_name = txt "users/1"

abbrev b_name : Text
b_name = txt "users/2"

names_differ : a_name ≢ b_name
unfolding ◌==◌
names_differ e = let h : (a_name == b_name) ≡ true = (==_iff a_name b_name).1 e in cc

abbrev calls : List Call
calls =
    get_user a_name (user_named a_name)
    ∷ fetch_users (user_named b_name ∷ [])
    ∷ delete_user a_name
    ∷ []

run-Refines_cache_example :
    get_user_by_name b_name (run calls (initial []))
    ≡ cache_run calls (λ j. get_user_by_name j (initial [])) b_name
run-Refines_cache_example = run-Refines_cache calls (initial []) (omega arith) b_name

first_reply_lost_example :
    let s = initial [] in
    let after =
      end_get_user
        (begin_get_user s)
        b_name
        (user_named b_name)
        (end_get_user (begin_get_user s) a_name (user_named a_name) s) in
    (get_user_by_name b_name after ≡ some (user_named b_name))
    × (get_user_by_name a_name after ≡ none)
unfolding get_user_by_name user_map object_at get
first_reply_lost_example =
    first_reply_lost a_name b_name (user_named a_name) (user_named b_name) (initial [])
      (omega arith) names_differ refl

-- A user that is deleted while the answer about another is under way comes back, if a third call has
-- replaced the map in between.
deleted_user_returns :
    let s = end_fetch_users (user_named a_name ∷ []) (initial []) in
    let kept = begin_get_user s in
    let replaced = end_get_user (begin_get_user s) (txt "users/3") (user_named (txt "users/3")) s in
    get_user_by_name a_name
      (end_get_user kept b_name (user_named b_name) (end_delete_user a_name replaced))
    ≡ some (user_named a_name)
unfolding get_user_by_name end_fetch_users end_get_user end_delete_user replace_user_map
    mutate_user_map user_map object_at get put put_all ◌==◌
deleted_user_returns = refl

abbrev two_stats : Dict UserStats
two_stats =
    (
      a_name,
      record {
        name = a_name;
        tag_count = (txt "work", 2) ∷ (txt "home", 1) ∷ [];
        pinned_memos = [];
        total_memo_count = 3;
      },
    )
    ∷ (
      b_name,
      record {
        name = b_name;
        tag_count = (txt "work", 5) ∷ [];
        pinned_memos = [];
        total_memo_count = 5;
      },
    )
    ∷ []

abbrev counted : LocalState
counted = record (initial []) { user_stats_by_name = two_stats }

seven_uses : amount (txt "work") (tag_count counted) ≡ 7
unfolding tag_count count_each count_tags values get put ◌==◌
seven_uses = refl

abbrev message : InboxStatus → Inbox
message status = record {
  name = txt "inboxes/1";
  sender = a_name;
  receiver = b_name;
  status = status;
}

abbrev one_message : LocalState
one_message = record (initial []) { inboxes = message unread ∷ [] }

abbrev with_theme : UserSetting
with_theme = record {
  name = txt "users/1/settings/GENERAL";
  general_setting = some (record { locale = txt "fr"; memo_visibility = []; theme = txt "paper" });
  sessions_setting = none;
  access_tokens_setting = none;
  webhooks_setting = none;
}
