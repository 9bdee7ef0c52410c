-- ===== src/Pages/Attachments.antt =====
-- app/web/src/pages/Attachments.tsx: the groups of attachments, and the deletion of those that no memo uses.
-- `dayjs` and lodash's `includes` are arguments.
pub mod Groups
pub mod Unused
pub mod Tests
use collab_notes_ecs.Base.{
  ℕ, Text, ◌==◌, truthy, Bool, true, false, not, Option, none, some, List, [], ◌∷◌, ◌++◌, map, leb,
  select, get_or,
}
use collab_notes_ecs.Base.Dict.{Dict, get, put}
use collab_notes_ecs.Api.{Attachment}
use collab_notes_ecs.Pages.{sort}

-- the newest first
abbrev pub newest_first : (Option ℕ → ℕ) → List Attachment → List Attachment
newest_first unix =
    sort (λ (a : Attachment) (b : Attachment). leb (unix b.create_time) (unix a.create_time))

-- the body of `forEach`: an attachment joins the others of its month
unfoldable pub group_each :
    (Option ℕ → Text) → Dict (List Attachment) → List Attachment → Dict (List Attachment)
group_each month grouped [] = grouped
group_each month grouped (item ∷ attachments) =
    let key = month item.create_time in
    group_each month (put grouped key (get_or (get grouped key) [] ++ (item ∷ []))) attachments

unfoldable pub group_attachments_by_date :
    (Option ℕ → ℕ) → (Option ℕ → Text) → List Attachment → Dict (List Attachment)
group_attachments_by_date unix month attachments =
    group_each month [] (newest_first unix attachments)

pub record State : Type 0 where
  pub search_query : Text
  pub attachments : List Attachment

abbrev pub is_used : Attachment → Bool
is_used a = truthy (get_or a.memo [])

module _ (includes : Text → Text → Bool) where
  unfoldable pub filtered_attachments : State → List Attachment
  filtered_attachments s =
      select (λ (a : Attachment). includes a.filename s.search_query) s.attachments

  unfoldable pub unused_attachments : State → List Attachment
  unused_attachments s = select (λ a. not (is_used a)) (filtered_attachments s)

  -- The names whose deletion is asked for, one after the other, and the page afterwards, when the user
  -- confirms and no call fails.
  unfoldable pub handle_delete_unused_attachments : State → List Text × State
  handle_delete_unused_attachments s = (
    map (λ (a : Attachment). a.name) (unused_attachments s),
    record s { attachments = select is_used s.attachments },
  )
