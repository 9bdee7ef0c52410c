-- ===== src/Store/Attachment/Lookup.antt =====
-- The search through all attachments finds the last reply of that name.
use collab_notes_ecs.Base.{
  Text, ◌==◌, Option, none, some, List, [], ◌∷◌, ◌≡◌, refl, if◌then◌else◌, find, ◌∙◌,
}
use collab_notes_ecs.Base.Dict.{Dict, get, values, get-put, Each, Each-put}
use collab_notes_ecs.Api.{Attachment}
use collab_notes_ecs.Store.Attachment.{
  LocalState, initial, get_attachment_by_name, end_fetch_attachment, end_create_attachment,
  end_update_attachment, Event, fetched, created, updated, step, run,
}

abbrev IsKeyed : Dict Attachment → Type 0
IsKeyed m = Each (λ (k : Text) (a : Attachment). a.name ≡ k) m

find-values :
    (m : Dict Attachment) (name : Text)
    → IsKeyed m
    → find (λ (a : Attachment). a.name == name) (values m) ≡ get m name
unfolding values get
find-values [] name h = refl
find-values ((k, a) ∷ m) name h = rw (h.0, find-values m name h.1)

abbrev pub attachment_of : Event → Attachment
attachment_of (fetched attachment) = attachment
attachment_of (created attachment) = attachment
attachment_of (updated attachment) = attachment

-- The attachment of the last reply with that name, or else the given one
abbrev pub last_reply : List Event → Text → Option Attachment → Option Attachment
last_reply [] name before = before
last_reply (e ∷ es) name before =
    last_reply es name (if (attachment_of e).name == name then some (attachment_of e) else before)

step-IsKeyed :
    (e : Event) (s : LocalState)
    → IsKeyed s.attachment_map_by_name
    → IsKeyed (step e s).attachment_map_by_name
unfolding step end_fetch_attachment end_create_attachment end_update_attachment
step-IsKeyed (fetched a) s h = Each-put _ s.attachment_map_by_name a.name a h refl
step-IsKeyed (created a) s h = Each-put _ s.attachment_map_by_name a.name a h refl
step-IsKeyed (updated a) s h = Each-put _ s.attachment_map_by_name a.name a h refl

get-step :
    (e : Event) (s : LocalState) (name : Text)
    → get (step e s).attachment_map_by_name name ≡ (
        if (attachment_of e).name == name
        then some (attachment_of e)
        else get s.attachment_map_by_name name)
unfolding step end_fetch_attachment end_create_attachment end_update_attachment
get-step (fetched a) s name = get-put s.attachment_map_by_name a.name name a
get-step (created a) s name = get-put s.attachment_map_by_name a.name name a
get-step (updated a) s name = get-put s.attachment_map_by_name a.name name a

get_attachment_by_name-run_from :
    (es : List Event) (s : LocalState) (name : Text)
    → IsKeyed s.attachment_map_by_name
    → get_attachment_by_name name (run es s)
      ≡ last_reply es name (get s.attachment_map_by_name name)
unfolding run get_attachment_by_name
get_attachment_by_name-run_from [] s name h = find-values s.attachment_map_by_name name h
get_attachment_by_name-run_from (e ∷ es) s name h =
    get_attachment_by_name-run_from es (step e s) name (step-IsKeyed e s h) ∙ rw (get-step e s name)

-- After any replies to fetching, creating and updating, an attachment is found under a name if a reply
-- had that name, and it is the one of the last such reply.
get_attachment_by_name-run :
    (es : List Event) (name : Text)
    → get_attachment_by_name name (run es initial) ≡ last_reply es name none
unfolding get
get_attachment_by_name-run es name = get_attachment_by_name-run_from es initial name tt
