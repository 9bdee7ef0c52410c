-- ===== src/Proto/WorkspaceService/WorkspaceSettingMemoRelatedSetting.antt =====
-- The message `WorkspaceSetting_MemoRelatedSetting` of app/web/src/types/proto/api/v1/workspace_service.ts.
use collab_notes_ecs.Proto.Codec.{
  All, Bool, Bytes, IsInt32, Kind, List, Read, Runs, Text, Wire, [], bool_field, eqb, eqz, false,
  field, if◌then◌else◌, int32, message, not, number_field, on, pos, refl, repeated, repeated-Runs,
  unknown, unless, ℕ, ℤ, ◌++◌, ◌>>◌, ◌∷◌,
}

pub record WorkspaceSettingMemoRelatedSetting : Type 0 where
  pub disallow_public_visibility : Bool
  pub display_with_update_time : Bool
  pub content_length_limit : ℤ
  pub enable_double_click_edit : Bool
  pub enable_link_preview : Bool
  pub reactions : List Text
  pub disable_markdown_shortcuts : Bool
  pub enable_blur_nsfw_content : Bool
  pub nsfw_tags : List Text

abbrev pub base : WorkspaceSettingMemoRelatedSetting
base = record {
  disallow_public_visibility = false;
  display_with_update_time = false;
  content_length_limit = pos 0;
  enable_double_click_edit = false;
  enable_link_preview = false;
  reactions = [];
  disable_markdown_shortcuts = false;
  enable_blur_nsfw_content = false;
  nsfw_tags = [];
}

module _ (wire : Wire) where
  unfoldable pub encode : WorkspaceSettingMemoRelatedSetting → Bytes
  encode m =
      unless wire (not m.disallow_public_visibility)
        (field wire 8 wire.bool m.disallow_public_visibility)
      ++ unless wire (not m.display_with_update_time)
          (field wire 16 wire.bool m.display_with_update_time)
      ++ unless wire (eqz m.content_length_limit (pos 0))
          (field wire 24 (int32 wire) m.content_length_limit)
      ++ unless wire (not m.enable_double_click_edit)
          (field wire 32 wire.bool m.enable_double_click_edit)
      ++ unless wire (not m.enable_link_preview) (field wire 40 wire.bool m.enable_link_preview)
      ++ repeated wire 58 wire.string m.reactions
      ++ unless wire (not m.disable_markdown_shortcuts)
          (field wire 64 wire.bool m.disable_markdown_shortcuts)
      ++ unless wire (not m.enable_blur_nsfw_content)
          (field wire 72 wire.bool m.enable_blur_nsfw_content)
      ++ repeated wire 82 wire.string m.nsfw_tags

  unfoldable pub switch :
      ℕ → WorkspaceSettingMemoRelatedSetting → Bytes → Read WorkspaceSettingMemoRelatedSetting
  switch tag m bytes =
      if eqb tag 8
      then on (wire.bool.get bytes) (λ v. record m { disallow_public_visibility = v })
      else if eqb tag 16
      then on (wire.bool.get bytes) (λ v. record m { display_with_update_time = v })
      else if eqb tag 24
      then on ((int32 wire).get bytes) (λ v. record m { content_length_limit = v })
      else if eqb tag 32
      then on (wire.bool.get bytes) (λ v. record m { enable_double_click_edit = v })
      else if eqb tag 40
      then on (wire.bool.get bytes) (λ v. record m { enable_link_preview = v })
      else if eqb tag 58
      then on (wire.string.get bytes) (λ v. record m { reactions = m.reactions ++ (v ∷ []) })
      else if eqb tag 64
      then on (wire.bool.get bytes) (λ v. record m { disable_markdown_shortcuts = v })
      else if eqb tag 72
      then on (wire.bool.get bytes) (λ v. record m { enable_blur_nsfw_content = v })
      else if eqb tag 82
      then on (wire.string.get bytes) (λ v. record m { nsfw_tags = m.nsfw_tags ++ (v ∷ []) })
      else unknown

  abbrev pub Valid : WorkspaceSettingMemoRelatedSetting → Type 0
  Valid m =
      IsInt32 m.content_length_limit
      × All wire.string.Valid m.reactions
      × All wire.string.Valid m.nsfw_tags

  pub encode-Runs :
      (m : WorkspaceSettingMemoRelatedSetting) → Valid m → Runs wire switch base (encode m) m
  unfolding encode switch
  encode-Runs m valid =
      let m5 : WorkspaceSettingMemoRelatedSetting = record base {
        disallow_public_visibility = m.disallow_public_visibility;
        display_with_update_time = m.display_with_update_time;
        content_length_limit = m.content_length_limit;
        enable_double_click_edit = m.enable_double_click_edit;
        enable_link_preview = m.enable_link_preview;
      } in
      let m8 : WorkspaceSettingMemoRelatedSetting = record m5 {
        reactions = m.reactions;
        disable_markdown_shortcuts = m.disable_markdown_shortcuts;
        enable_blur_nsfw_content = m.enable_blur_nsfw_content;
      } in
      bool_field wire switch 8 refl _ (λ bytes. refl) refl m.disallow_public_visibility
      >> bool_field wire switch 16 refl _ (λ bytes. refl) refl m.display_with_update_time
      >> number_field wire switch 24 refl (int32 wire) _ (λ bytes. refl) refl m.content_length_limit
          valid.0
      >> bool_field wire switch 32 refl _ (λ bytes. refl) refl m.enable_double_click_edit
      >> bool_field wire switch 40 refl _ (λ bytes. refl) refl m.enable_link_preview
      >> repeated-Runs wire switch 58 refl wire.string (λ v. record m5 { reactions = v })
          (λ vs bytes. refl) refl m.reactions valid.1
      >> bool_field wire switch 64 refl _ (λ bytes. refl) refl m.disable_markdown_shortcuts
      >> bool_field wire switch 72 refl _ (λ bytes. refl) refl m.enable_blur_nsfw_content
      >> repeated-Runs wire switch 82 refl wire.string (λ v. record m8 { nsfw_tags = v })
          (λ vs bytes. refl) refl m.nsfw_tags valid.2

  unfoldable pub workspace_setting_memo_related_setting : Kind WorkspaceSettingMemoRelatedSetting
  workspace_setting_memo_related_setting = message wire switch base encode Valid encode-Runs
