-- ===== src/Pages/Attachments/Tests.antt =====
-- Two unused attachments, of which the search matches one.
use collab_notes_ecs.Base.{
  ℕ, Text, txt, ◌==◌, starts_with, includes, Option, none, some, [], ◌∷◌, ◌≡◌, refl, false, not,
  get_or, select,
}
use collab_notes_ecs.Base.Dict.{get}
use collab_notes_ecs.Base.UniqBy.{IsUnique}
use collab_notes_ecs.Api.{Attachment}
use collab_notes_ecs.Pages.Order.{IsOrdered, at_time}
use collab_notes_ecs.Pages.Attachments.{
  State, is_used, newest_first, group_attachments_by_date, handle_delete_unused_attachments,
}
use collab_notes_ecs.Pages.Attachments.Groups.{of_month, get-group_attachments_by_date}
use collab_notes_ecs.Pages.Attachments.Unused.{
  name_of, kept, hidden, kept-handle_delete_unused_attachments,
}

abbrev attached : Text → Option Text → Attachment
attached name memo = record {
  name = name;
  create_time = some 3;
  filename = name;
  external_link = [];
  mime_type = [];
  size = 0;
  memo = memo;
}

abbrev searched : State
searched = record {
  search_query = txt "a";
  attachments =
      attached (txt "a") none
      ∷ attached (txt "b") none
      ∷ attached (txt "c") (some (txt "memos/1"))
      ∷ [];
}

searched-IsUnique : IsUnique name_of searched.attachments
unfolding ◌==◌
searched-IsUnique = (refl, (refl, (refl, tt)))

still_there : hidden includes searched ≡ attached (txt "b") none ∷ []
unfolding includes starts_with
still_there = refl

kept-handle_delete_unused_attachments_example :
    (select
        (λ a. not (is_used a))
        (kept (handle_delete_unused_attachments includes searched).0 searched.attachments)
      ≡ hidden includes searched)
    × (select
          (λ a. not (is_used a))
          (handle_delete_unused_attachments includes searched).1.attachments
        ≡ [])
kept-handle_delete_unused_attachments_example =
    kept-handle_delete_unused_attachments includes searched searched-IsUnique

abbrev seconds : Option ℕ → ℕ
seconds time = get_or time 0

abbrev a_month : Option ℕ → Text
a_month time = txt "2026-08"

get-group_attachments_by_date_example :
    ((m : Text)
      → get_or (get (group_attachments_by_date seconds a_month searched.attachments) m) []
        ≡ of_month a_month m (newest_first seconds searched.attachments))
    × IsOrdered
        (λ (a : Attachment). seconds a.create_time)
        false
        (newest_first seconds searched.attachments)
    × ((t : ℕ)
        → at_time
            (λ (a : Attachment). seconds a.create_time)
            t
            (newest_first seconds searched.attachments)
          ≡ at_time (λ (a : Attachment). seconds a.create_time) t searched.attachments)
get-group_attachments_by_date_example =
    get-group_attachments_by_date seconds a_month searched.attachments
