-- ===== src/Utils/Visibility.antt =====
-- app/web/src/utils/memo.ts: visibilities and texts; and the visibility that the memo editor starts with, an
-- effect of app/web/src/components/MemoEditor/index.tsx. The enum's values are texts themselves, so that the
-- editor converts one twice.
use collab_notes_ecs.Base.{
  Text, txt, ◌==◌, truthy, Bool, true, false, Option, none, some, ◌≡◌, ◌≢◌, refl, if◌then◌else◌,
  get_or,
}
use collab_notes_ecs.Api.{
  Visibility, unspecified, private_memo, protected_memo, public_memo, unrecognized,
}

unfoldable pub convert_visibility_from_string : Text → Visibility
convert_visibility_from_string visibility =
    if visibility == txt "PUBLIC"
    then public_memo
    else if visibility == txt "PROTECTED"
    then protected_memo
    else if visibility == txt "PRIVATE"
    then private_memo
    else public_memo

unfoldable pub convert_visibility_to_string : Visibility → Text
convert_visibility_to_string public_memo = txt "PUBLIC"
convert_visibility_to_string protected_memo = txt "PROTECTED"
convert_visibility_to_string private_memo = txt "PRIVATE"
convert_visibility_to_string _ = txt "PRIVATE"

-- The values of the enum
unfoldable pub enum_text : Visibility → Text
enum_text unspecified = txt "VISIBILITY_UNSPECIFIED"
enum_text private_memo = txt "PRIVATE"
enum_text protected_memo = txt "PROTECTED"
enum_text public_memo = txt "PUBLIC"
enum_text unrecognized = txt "UNRECOGNIZED"

abbrev restrict : Bool → Visibility → Visibility
restrict true public_memo = protected_memo
restrict disallow_public visibility = visibility

-- The user's setting, empty if there is none; whether public memos are disallowed; and the parent of a
-- comment.
unfoldable pub start_visibility : Text → Bool → Option Visibility → Visibility
unfolding convert_visibility_from_string enum_text
start_visibility setting disallow_public parent =
    let own = convert_visibility_from_string (if truthy setting then setting else txt "PRIVATE") in
    convert_visibility_from_string (enum_text (get_or parent (restrict disallow_public own)))

abbrev pub is_known : Visibility → Bool
is_known unspecified = false
is_known unrecognized = false
is_known visibility = true

-- A visibility that is written as a text and read back is the same; one that the client does not know is
-- read back as private.
convert_visibility_lem :
    (v : Visibility)
    → convert_visibility_from_string (convert_visibility_to_string v)
      ≡ (if is_known v then v else private_memo)
unfolding convert_visibility_from_string convert_visibility_to_string ◌==◌
convert_visibility_lem unspecified = refl
convert_visibility_lem private_memo = refl
convert_visibility_lem protected_memo = refl
convert_visibility_lem public_memo = refl
convert_visibility_lem unrecognized = refl

if_known :
    (b : Bool) (v w : Visibility)
    → is_known v ≡ true
    → is_known w ≡ true
    → is_known (if b then v else w) ≡ true
if_known true v w hv hw = hv
if_known false v w hv hw = hw

is_known-convert_visibility_from_string :
    (t : Text) → is_known (convert_visibility_from_string t) ≡ true
unfolding convert_visibility_from_string
is_known-convert_visibility_from_string t = if_known (t == txt "PUBLIC") public_memo _ refl (
    if_known (t == txt "PROTECTED") protected_memo _ refl
      (if_known (t == txt "PRIVATE") private_memo public_memo refl refl))

restrict_lem :
    (v : Visibility)
    → is_known v ≡ true
    → convert_visibility_from_string (enum_text (restrict true v)) ≢ public_memo
unfolding convert_visibility_from_string enum_text ◌==◌
restrict_lem unspecified h e = cc
restrict_lem private_memo h e = cc
restrict_lem protected_memo h e = cc
restrict_lem public_memo h e = cc
restrict_lem unrecognized h e = cc

from_enum_text :
    (v : Visibility)
    → convert_visibility_from_string (enum_text v) ≡ (if is_known v then v else public_memo)
unfolding convert_visibility_from_string enum_text ◌==◌
from_enum_text unspecified = refl
from_enum_text private_memo = refl
from_enum_text protected_memo = refl
from_enum_text public_memo = refl
from_enum_text unrecognized = refl

-- Where public memos are disallowed, a memo that is no comment does not start as a public one, whatever
-- the user's setting; a comment starts with the visibility of its parent, or as public if that is one
-- that the client does not know.
pub start_visibility_lem :
    (setting : Text) (disallow_public : Bool) (parent : Visibility)
    → (start_visibility setting true none ≢ public_memo)
      × (start_visibility setting disallow_public (some parent)
          ≡ (if is_known parent then parent else public_memo))
unfolding start_visibility
start_visibility_lem setting disallow_public parent =
    (restrict_lem _ (is_known-convert_visibility_from_string _), from_enum_text parent)
