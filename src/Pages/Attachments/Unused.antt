-- ===== src/Pages/Attachments/Unused.antt =====
-- app/web/src/pages/Attachments.tsx: what the deletion of the unused attachments leaves.
use collab_notes_ecs.Base.{
  Text, ==_refl, Bool, false, not, ◌&&◌, List, [], ◌∷◌, ◌≡◌, refl, arith, ap, ◌∙◌, if◌then◌else◌,
  map, select, contains, inl, inr, Bool-cases, ==_comm,
}
use collab_notes_ecs.Base.UniqBy.{has_key, IsUnique}
use collab_notes_ecs.Api.{Attachment}
use collab_notes_ecs.Pages.Attachments.{
  State, is_used, filtered_attachments, unused_attachments, handle_delete_unused_attachments,
}

abbrev pub name_of : Attachment → Text
name_of a = a.name

-- What the server keeps of a list when these names are deleted.
abbrev pub kept : List Text → List Attachment → List Attachment
kept names = select (λ (a : Attachment). not (contains names a.name))

-- The attachments that the page does not show although the server keeps them.
abbrev pub hidden : (Text → Text → Bool) → State → List Attachment
hidden includes s =
    select (λ (a : Attachment). not (is_used a) && not (includes a.filename s.search_query))
      s.attachments

select-select :
    (p q : Attachment → Bool) (xs : List Attachment)
    → select p (select q xs) ≡ select (λ a. p a && q a) xs
select-select p q [] = refl
select-select p q (x ∷ xs) = ground (arith, select-select p q xs)

contains-map :
    (q : Attachment → Bool) (k : Text) (xs : List Attachment)
    → has_key name_of k xs ≡ false
    → contains (map name_of (select q xs)) k ≡ false
contains-map q k [] h = refl
contains-map q k (x ∷ xs) h = ground (arith, contains-map q k xs)

kept-cons :
    (k : Text) (names : List Text) (xs : List Attachment)
    → has_key name_of k xs ≡ false
    → kept (k ∷ names) xs ≡ kept names xs
kept-cons k names [] h = refl
kept-cons k names (x ∷ xs) h = ground (arith, kept-cons k names xs, ==_comm k x.name)

-- Of a list without two of one name, the deletion of the names of some keeps the others.
kept-select :
    (q : Attachment → Bool) (xs : List Attachment)
    → IsUnique name_of xs
    → kept (map name_of (select q xs)) xs ≡ select (λ a. not (q a)) xs
kept-select q [] h = refl
kept-select q (x ∷ xs) h = elim (Bool-cases (q x)) [
  | inl taken ↦
      let names : map name_of (select q (x ∷ xs)) ≡ x.name ∷ map name_of (select q xs) =
        rw taken refl in
      ap (λ ns. kept ns (x ∷ xs)) names
      ∙ rw taken (
          rw (==_refl x.name)
            (kept-cons x.name (map name_of (select q xs)) xs h.0 ∙ kept-select q xs h.1))
  | inr left ↦
      let names : map name_of (select q (x ∷ xs)) ≡ map name_of (select q xs) = rw left refl in
      ap (λ ns. kept ns (x ∷ xs)) names
      ∙ rw left (rw (contains-map q x.name xs h.0) (ap (λ l. x ∷ l) (kept-select q xs h.1)))
]

pointwise :
    (includes : Text → Text → Bool) (query : Text) (xs : List Attachment)
    → select
        (λ (a : Attachment). not (is_used a) && not (not (is_used a) && includes a.filename query))
        xs
      ≡ select (λ (a : Attachment). not (is_used a) && not (includes a.filename query)) xs
pointwise includes query [] = refl
pointwise includes query (x ∷ xs) = elim (Bool-cases (is_used x)) [
  | inl used ↦ rw used (pointwise includes query xs)
  | inr unused ↦
      rw unused (
        ap (λ l. if not (includes x.filename query) then x ∷ l else l)
          (pointwise includes query xs))
]

none_unused : (xs : List Attachment) → select (λ a. not (is_used a)) (select is_used xs) ≡ []
none_unused [] = refl
none_unused (x ∷ xs) = elim (Bool-cases (is_used x)) [
  | inl used ↦ rw used (rw used (none_unused xs))
  | inr unused ↦ rw unused (none_unused xs)
]

-- When the unused attachments are deleted, those of them whose file name does not match the search stay on
-- the server, and the page shows them no longer; no two attachments have one name.
pub kept-handle_delete_unused_attachments :
    (includes : Text → Text → Bool) (s : State)
    → IsUnique name_of s.attachments
    → (select
          (λ a. not (is_used a))
          (kept (handle_delete_unused_attachments includes s).0 s.attachments)
        ≡ hidden includes s)
      × (select (λ a. not (is_used a)) (handle_delete_unused_attachments includes s).1.attachments
          ≡ [])
unfolding handle_delete_unused_attachments unused_attachments filtered_attachments
kept-handle_delete_unused_attachments includes s h =
    let q = λ (a : Attachment). not (is_used a) && includes a.filename s.search_query in
    let names : map name_of (
          select (λ a. not (is_used a))
            (select (λ (a : Attachment). includes a.filename s.search_query) s.attachments))
        ≡ map name_of (select q s.attachments) =
      ap (map name_of) (
        select-select (λ a. not (is_used a))
          (λ (a : Attachment). includes a.filename s.search_query) s.attachments) in
    (
      ap (λ ns. select (λ a. not (is_used a)) (kept ns s.attachments)) names
          ∙ (ap (select (λ a. not (is_used a))) (kept-select q s.attachments h)
              ∙ (select-select (λ a. not (is_used a)) (λ a. not (q a)) s.attachments
                  ∙ pointwise includes s.search_query s.attachments)),
      none_unused s.attachments,
    )
