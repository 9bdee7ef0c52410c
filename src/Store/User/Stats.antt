-- ===== src/Store/User/Stats.antt =====
-- The tag counts of the user store, and its statistics and inboxes after a reply.
use collab_notes_ecs.Base.{
  ℕ, ◌+◌, Text, ◌==◌, ==_iff, Option, none, some, List, [], ◌∷◌, ◌≡◌, arith, if◌then◌else◌, is_some,
  get_or, find, All, map,
}
use collab_notes_ecs.Base.Dict.{Dict, get, put, values, get-put}
use collab_notes_ecs.Store.User.{
  UserStats, Inbox, LocalState, count_tags, count_each, tag_count, end_update_inbox,
}

-- The keys of an object are distinct.
abbrev pub Distinct {ℓ} : {V : Type ℓ} → Dict V → Type ℓ
Distinct [] = Unit
Distinct ((k, v) ∷ m) = (get m k ≡ none) × Distinct m

abbrev pub amount : Text → Dict ℕ → ℕ
amount tag m = get_or (get m tag) 0

-- The uses of a tag by all of these users.
abbrev pub total : Text → List UserStats → ℕ
total tag [] = 0
total tag (stats ∷ rest) = amount tag stats.tag_count + total tag rest

amount-count_tags :
    (tag : Text) (tags counted : Dict ℕ)
    → Distinct tags
    → amount tag (count_tags tags counted) ≡ amount tag counted + amount tag tags
unfolding count_tags get
amount-count_tags tag [] counted h = omega arith
amount-count_tags tag ((k, n) ∷ tags) counted h = ground (
  arith,
  amount-count_tags tag tags (put counted k (amount k counted + n)) h.1,
  get-put counted k tag (amount k counted + n),
  ==_iff k tag,
)

amount-count_each :
    (tag : Text) (stats : List UserStats) (counted : Dict ℕ)
    → All (λ (x : UserStats). Distinct x.tag_count) stats
    → amount tag (count_each stats counted) ≡ amount tag counted + total tag stats
unfolding count_each
amount-count_each tag [] counted h = omega arith
amount-count_each tag (x ∷ stats) counted h = omega (
  arith,
  amount-count_each tag stats (count_tags x.tag_count counted) h.1,
  amount-count_tags tag x.tag_count counted h.0,
)

-- The count of every tag is the sum of its counts in the statistics of all users, where each of those
-- names a tag once.
amount-tag_count :
    (tag : Text) (s : LocalState)
    → All (λ (x : UserStats). Distinct x.tag_count) (values s.user_stats_by_name)
    → amount tag (tag_count s) ≡ total tag (values s.user_stats_by_name)
unfolding tag_count get
amount-tag_count tag s h = omega (arith, amount-count_each tag (values s.user_stats_by_name) [] h)

abbrev pub inbox_named : Text → List Inbox → Option Inbox
inbox_named name inboxes = find (λ (i : Inbox). i.name == name) inboxes

inbox_named-map :
    (inbox : Inbox) (name : Text) (inboxes : List Inbox)
    → inbox_named name (map (λ (i : Inbox). if i.name == inbox.name then inbox else i) inboxes) ≡ (
        if inbox.name == name
        then (if is_some (inbox_named name inboxes) then some inbox else none)
        else inbox_named name inboxes)
inbox_named-map inbox name [] = ground arith
inbox_named-map inbox name (i ∷ inboxes) = ground (
  arith,
  inbox_named-map inbox name inboxes,
  ==_iff i.name inbox.name,
  ==_iff i.name name,
  ==_iff inbox.name name,
)

-- An inbox that was updated is found under its name if there was one of that name, and nothing new is
-- found under any other name.
inbox_named-end_update_inbox :
    (inbox : Inbox) (name : Text) (s : LocalState)
    → inbox_named name (end_update_inbox inbox s).inboxes ≡ (
        if inbox.name == name
        then (if is_some (inbox_named name s.inboxes) then some inbox else none)
        else inbox_named name s.inboxes)
unfolding end_update_inbox
inbox_named-end_update_inbox inbox name s = inbox_named-map inbox name s.inboxes
