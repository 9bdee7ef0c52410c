-- ===== src/TagTree/Nodes.antt =====
-- Which nodes the tree has.
use mathlib.Core.Bool.{or-false, or_assoc}
use collab_notes_ecs.Base.{
  ℕ, Text, ◌==◌, ==_iff, ==_comm, Bool, true, false, ◌||◌, Bool-cases, inl, inr, Option, none, some,
  List, [], ◌∷◌, ◌≡◌, refl, arith, any, contains, sym, ◌∙◌,
}
use collab_notes_ecs.Base.Split.{split}
use collab_notes_ecs.TagTree.{
  tag, Tags, no_tags, tags, extend_text, enter, add_keys, add_tags, build_tags,
}

-- Is there a node with that text, and among the nodes of the first level?
abbrev pub has_node : Text → Tags → Bool
has_node text no_tags = false
has_node text (tags (tag k t a subs) rest) = (t == text) || has_node text subs || has_node text rest

abbrev pub has_child : Text → Tags → Bool
has_child text no_tags = false
has_child text (tags (tag k t a subs) rest) = (t == text) || has_child text rest

-- No two siblings have one text, on all levels.
abbrev pub HasDistinctSiblings : Tags → Type 0
HasDistinctSiblings no_tags = Unit
HasDistinctSiblings (tags (tag k t a subs) rest) =
    (has_child t rest ≡ false) × HasDistinctSiblings subs × HasDistinctSiblings rest

-- The texts on the way to a tag: its first key, the first two, and so on up to the tag.
abbrev pub texts_from : Option Text → List Text → List Text
texts_from before [] = []
texts_from before (key ∷ keys) =
    extend_text before key ∷ texts_from (some (extend_text before key)) keys

abbrev pub texts_to : Text → List Text
texts_to text = texts_from none (split b'/' text)

or_absorb : (x a c p : Bool) → ((x || (a || p)) || c) ≡ (((x || a) || c) || (x || p))
or_absorb true a c p = refl
or_absorb false true c p = refl
or_absorb false false true true = refl
or_absorb false false true false = refl
or_absorb false false false p = rw (or-false p)

has_node-enter :
    (key text t : Text) (amount : ℕ) (inside : Tags → Tags) (below : Bool) (subs : Tags)
    → ((s : Tags) → has_node t (inside s) ≡ (has_node t s || below))
    → has_node t (enter key text amount inside subs) ≡ (has_node t subs || ((text == t) || below))
unfolding enter
has_node-enter key text t amount inside below no_tags h =
    rw (h no_tags) (or-false ((text == t) || below))
has_node-enter key text t amount inside below (tags (tag k u a subs) rest) h =
    elim (Bool-cases (u == text)) [
      | inl same ↦
          rw (same, h subs, ← (==_iff u text).0 same)
            (or_absorb (u == t) (has_node t subs) (has_node t rest) below)
      | inr other ↦
          rw (other, has_node-enter key text t amount inside below rest h)
            (sym (or_assoc ((u == t) || has_node t subs) (has_node t rest) ((text == t) || below)))
    ]

has_node-add_keys :
    (tag_amounts : List (Text × ℕ)) (n : ℕ) (before : Option Text) (keys : List Text) (t : Text)
    (subs : Tags)
    → has_node t (add_keys tag_amounts n before keys subs)
      ≡ (has_node t subs || contains (texts_from before keys) t)
unfolding add_keys
has_node-add_keys tag_amounts n before [] t subs = sym (or-false (has_node t subs))
has_node-add_keys tag_amounts n before (key ∷ keys) t subs =
    has_node-enter key (extend_text before key) t _ _
      (contains (texts_from (some (extend_text before key)) keys) t) subs
      (has_node-add_keys tag_amounts n (some (extend_text before key)) keys t)

has_node-add_tags :
    (tag_amounts rest : List (Text × ℕ)) (t : Text) (root : Tags)
    → has_node t (add_tags tag_amounts rest root)
      ≡ (has_node t root || any (λ (x : Text × ℕ). contains (texts_to x.0) t) rest)
unfolding add_tags
has_node-add_tags tag_amounts [] t root = sym (or-false (has_node t root))
has_node-add_tags tag_amounts ((text, n) ∷ rest) t root =
    has_node-add_tags tag_amounts rest t (add_keys tag_amounts n none (split b'/' text) root)
    ∙ rw (has_node-add_keys tag_amounts n none (split b'/' text) t root)
        (or_assoc (has_node t root) (contains (texts_to text) t) _)

pub has_node-texts :
    (tag_amounts : List (Text × ℕ)) (t : Text)
    → has_node t (build_tags tag_amounts)
      ≡ any (λ (x : Text × ℕ). contains (texts_to x.0) t) tag_amounts
unfolding build_tags
has_node-texts tag_amounts t = has_node-add_tags tag_amounts tag_amounts t no_tags

has_child-enter :
    (key text t : Text) (amount : ℕ) (inside : Tags → Tags) (subs : Tags)
    → has_child t (enter key text amount inside subs) ≡ (has_child t subs || (text == t))
unfolding enter
has_child-enter key text t amount inside no_tags = ground arith
has_child-enter key text t amount inside (tags (tag k u a subs) rest) =
    ground (arith, has_child-enter key text t amount inside rest, ==_iff u text)

enter-HasDistinctSiblings :
    (key text : Text) (amount : ℕ) (inside : Tags → Tags) (subs : Tags)
    → ((s : Tags) → HasDistinctSiblings s → HasDistinctSiblings (inside s))
    → HasDistinctSiblings subs
    → HasDistinctSiblings (enter key text amount inside subs)
unfolding enter
enter-HasDistinctSiblings key text amount inside no_tags h d = (refl, h no_tags tt, tt)
enter-HasDistinctSiblings key text amount inside (tags (tag k u a subs) rest) h d =
    elim (Bool-cases (u == text)) [
      | inl same ↦ rw same (d.0, h subs d.1, d.2)
      | inr other ↦ rw other (
        has_child-enter key text u amount inside rest ∙ rw (d.0, ==_comm text u, other) refl,
        d.1,
        enter-HasDistinctSiblings key text amount inside rest h d.2,
      )
    ]

add_keys-HasDistinctSiblings :
    (tag_amounts : List (Text × ℕ)) (n : ℕ) (before : Option Text) (keys : List Text) (subs : Tags)
    → HasDistinctSiblings subs
    → HasDistinctSiblings (add_keys tag_amounts n before keys subs)
unfolding add_keys
add_keys-HasDistinctSiblings tag_amounts n before [] subs d = d
add_keys-HasDistinctSiblings tag_amounts n before (key ∷ keys) subs d =
    enter-HasDistinctSiblings key (extend_text before key) _ _ subs
      (add_keys-HasDistinctSiblings tag_amounts n (some (extend_text before key)) keys) d

add_tags-HasDistinctSiblings :
    (tag_amounts rest : List (Text × ℕ)) (root : Tags)
    → HasDistinctSiblings root
    → HasDistinctSiblings (add_tags tag_amounts rest root)
unfolding add_tags
add_tags-HasDistinctSiblings tag_amounts [] root d = d
add_tags-HasDistinctSiblings tag_amounts ((text, n) ∷ rest) root d =
    add_tags-HasDistinctSiblings tag_amounts rest _
      (add_keys-HasDistinctSiblings tag_amounts n none (split b'/' text) root d)

-- On no level of the tree do two siblings have the same text.
pub build_tags-HasDistinctSiblings :
    (tag_amounts : List (Text × ℕ)) → HasDistinctSiblings (build_tags tag_amounts)
unfolding build_tags
build_tags-HasDistinctSiblings tag_amounts =
    add_tags-HasDistinctSiblings tag_amounts tag_amounts no_tags tt
