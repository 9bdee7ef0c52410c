-- ===== src/Proto/Tests.antt =====
-- Tests of the codecs, with the writer and the reader of Proto/Sample.
use collab_notes_ecs.Base.{
  ◌≡◌, refl, true, txt, Text, none, some, [], ◌∷◌, ◌++◌, arith, inr, ◌==◌, ◌%◌,
}
use collab_notes_ecs.Proto.Sample.{wire, text}
use collab_notes_ecs.Proto.Integers.{pos, negsuc}
use collab_notes_ecs.Proto.Wire.{Bytes}
use collab_notes_ecs.Proto.MemoService.Memo.{Memo, base, Valid, encode, decode}
use collab_notes_ecs.Proto.MemoService.Visibility.{Visibility}
use collab_notes_ecs.Proto.Fields.{field}
use collab_notes_ecs.Proto.Settings.{decode-encode_setting}
use collab_notes_ecs.Proto.Stats.{decode-encode_stats}
use collab_notes_ecs.Proto.UserService.UserStats.{UserStats}
use collab_notes_ecs.Proto.UserService.UserStats as Stats
use collab_notes_ecs.Proto.UserService.UserStatsTagCountEntry as Entry
use collab_notes_ecs.Base.Dict.{get}
use collab_notes_ecs.Proto.WorkspaceService.WorkspaceSetting.{WorkspaceSetting}
use collab_notes_ecs.Proto.WorkspaceService.WorkspaceSetting as Setting
use collab_notes_ecs.Proto.WorkspaceService.WorkspaceSettingGeneralSetting as General
use collab_notes_ecs.Proto.WorkspaceService.WorkspaceSettingGeneralSettingCustomProfile as Profile
use collab_notes_ecs.Proto.Google.Dates.{
  from_timestamp, to_timestamp, from_timestamp-to_timestamp, date,
}
use collab_notes_ecs.Proto.Google.Timestamp.{timestamp}
use collab_notes_ecs.Proto.Google.Timestamp
use collab_notes_ecs.Proto.MemoDecoding.{
  decode-encode, decode-unknown_field, decode-later_field, decode-cut_field, decode-end_tag,
}

abbrev hello : Memo Text
hello = record base {
  name = txt "memos/1";
  create_time = some (pos 1500);
  content = txt "hi";
  visibility = Visibility.public;
  tags = txt "a" ∷ [];
  pinned = true;
}

hello-Valid : Valid wire text hello
unfolding date timestamp to_timestamp Timestamp.encode
hello-Valid = (
  tt,
  tt,
  ((omega arith, omega arith), omega arith),
  tt,
  tt,
  tt,
  tt,
  (tt, tt),
  tt,
  tt,
  tt,
  tt,
  tt,
  tt,
  tt,
)

encoded :
    encode wire text (record base { content = txt "hi"; pinned = true })
    ≡ 58 ∷ 2 ∷ 104 ∷ 105 ∷ 88 ∷ 1 ∷ []
unfolding encode ◌==◌
encoded = refl

decode-encode_example : decode wire text (encode wire text hello) ≡ some hello
decode-encode_example = decode-encode wire text hello hello-Valid

skip_number : (rest : Bytes) → wire.skip (152 % 8) ((7 ∷ []) ++ rest) ≡ some rest
skip_number rest = refl

decode-unknown_field_example :
    (decode wire text (encode wire text hello ++ (152 ∷ 7 ∷ [])) ≡ some hello)
    × (decode wire text ((152 ∷ 7 ∷ []) ++ encode wire text hello) ≡ some hello)
decode-unknown_field_example =
    decode-unknown_field wire text hello 152 (7 ∷ []) hello-Valid (omega arith) (omega arith)
      (omega arith) skip_number

decode-later_field_example :
    (decode wire text (encode wire text hello ++ field wire 58 text (txt "new"))
      ≡ some (record hello { content = txt "new" }))
    × (decode wire text (encode wire text hello ++ field wire 82 text (txt "new"))
        ≡ some (record hello { tags = txt "a" ∷ txt "new" ∷ [] }))
decode-later_field_example = decode-later_field wire text hello (txt "new") hello-Valid tt

decode-cut_field_example : decode wire text (encode wire text hello ++ (58 ∷ [])) ≡ none
decode-cut_field_example = decode-cut_field wire text hello [] hello-Valid refl

-- What follows the tag is a field that is cut off.
decode-end_tag_example : decode wire text (encode wire text hello ++ (12 ∷ 58 ∷ [])) ≡ some hello
decode-end_tag_example =
    decode-end_tag wire text hello 12 (58 ∷ []) hello-Valid (omega arith) (inr (omega arith))

-- one and a half seconds before 1970
early : to_timestamp (negsuc 1499) ≡ record { seconds = negsuc 0; nanos = negsuc 499999999 }
unfolding to_timestamp
early = refl

from_timestamp-to_timestamp_example : from_timestamp (to_timestamp (negsuc 1499)) ≡ negsuc 1499
from_timestamp-to_timestamp_example = from_timestamp-to_timestamp (negsuc 1499)

abbrev general : WorkspaceSetting
general = record Setting.base {
  name = txt "workspace/settings/GENERAL";
  general_setting = some (record General.base {
    additional_script = txt "x";
    custom_profile = some (record Profile.base { title = txt "Notes" });
  });
}

general-Valid : Setting.Valid wire general
unfolding General.workspace_setting_general_setting General.encode
    Profile.workspace_setting_general_setting_custom_profile Profile.encode ◌==◌
general-Valid =
    (tt, ((tt, tt, tt, ((tt, tt, tt, tt), omega arith), omega arith), omega arith), tt, tt)

decode-encode_setting_example : Setting.decode wire (Setting.encode wire general) ≡ some general
decode-encode_setting_example = decode-encode_setting wire general general-Valid

abbrev two_tags : UserStats
two_tags = record Stats.base {
  name = txt "users/1";
  memo_display_timestamps = pos 1000 ∷ [];
  tag_count = (txt "work", pos 2) ∷ (txt "home", pos 1) ∷ [];
  total_memo_count = pos 3;
}

two_tags-Valid : Stats.Valid wire two_tags
unfolding date timestamp to_timestamp Timestamp.encode Entry.user_stats_tag_count_entry Entry.encode
    get ◌==◌
two_tags-Valid = (
  tt,
  (((omega arith, omega arith), omega arith), tt),
  tt,
  (refl, (refl, tt)),
  (((tt, omega arith), omega arith), (((tt, omega arith), omega arith), tt)),
  tt,
  omega arith,
)

decode-encode_stats_example : Stats.decode wire (Stats.encode wire two_tags) ≡ some two_tags
decode-encode_stats_example = decode-encode_stats wire two_tags two_tags-Valid
