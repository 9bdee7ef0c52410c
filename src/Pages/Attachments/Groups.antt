-- ===== src/Pages/Attachments/Groups.antt =====
-- app/web/src/pages/Attachments.tsx: the groups hold all attachments, each in the group of its month.
use collab_notes_ecs.Base.{
  ℕ, Text, ◌==◌, ==_iff, false, Option, List, [], ◌∷◌, ◌++◌, ◌≡◌, refl, ap, ◌∙◌, sym, inl, inr,
  Bool-cases, select, get_or, append-nil, append_assoc,
}
use collab_notes_ecs.Base.Dict.{Dict, get, put, get-put}
use collab_notes_ecs.Api.{Attachment}
use collab_notes_ecs.Pages.Order.{IsOrdered, at_time, sort-IsOrdered, at_time-sort}
use collab_notes_ecs.Pages.Attachments.{newest_first, group_each, group_attachments_by_date}

abbrev pub of_month : (Option ℕ → Text) → Text → List Attachment → List Attachment
of_month month m = select (λ (a : Attachment). month a.create_time == m)

get-group_each :
    (month : Option ℕ → Text) (grouped : Dict (List Attachment)) (attachments : List Attachment)
    (m : Text)
    → get_or (get (group_each month grouped attachments) m) []
      ≡ get_or (get grouped m) [] ++ of_month month m attachments
unfolding group_each
get-group_each month grouped [] m = sym (append-nil (get_or (get grouped m) []))
get-group_each month grouped (item ∷ attachments) m =
    let key = month item.create_time in
    let added = get_or (get grouped key) [] ++ (item ∷ []) in
    get-group_each month (put grouped key added) attachments m
    ∙ (ap (λ o. get_or o [] ++ of_month month m attachments) (get-put grouped key m added)
        ∙ elim (Bool-cases (key == m)) [
          | inl same ↦
              let at : get_or (get grouped key) [] ≡ get_or (get grouped m) [] =
                ap (λ k. get_or (get grouped k) []) ((==_iff key m).0 same) in
              rw same (
                ap (λ l. (l ++ (item ∷ [])) ++ of_month month m attachments) at
                ∙ append_assoc (get_or (get grouped m) []) (item ∷ [])
                    (of_month month m attachments))
          | inr other ↦ rw other refl
        ])

-- The group of a month holds the attachments of that month, each of them once, in the order in which all
-- of them are sorted: the newest first, and those of one time as they were listed.
pub get-group_attachments_by_date :
    (unix : Option ℕ → ℕ) (month : Option ℕ → Text) (attachments : List Attachment)
    → ((m : Text)
        → get_or (get (group_attachments_by_date unix month attachments) m) []
          ≡ of_month month m (newest_first unix attachments))
      × IsOrdered (λ (a : Attachment). unix a.create_time) false (newest_first unix attachments)
      × ((t : ℕ)
          → at_time (λ (a : Attachment). unix a.create_time) t (newest_first unix attachments)
            ≡ at_time (λ (a : Attachment). unix a.create_time) t attachments)
unfolding group_attachments_by_date get
get-group_attachments_by_date unix month attachments = (
  λ m. get-group_each month [] (newest_first unix attachments) m,
  sort-IsOrdered (λ (a : Attachment). unix a.create_time) false attachments,
  λ t. at_time-sort (λ (a : Attachment). unix a.create_time) false t attachments,
)
