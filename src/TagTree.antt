-- ===== src/TagTree.antt =====
-- app/web/src/components/TagTree.tsx: the tree that the effect builds from the tags and their amounts. The
-- sorted list is the argument: which order it has does not matter to the theorems. The source descends
-- by reference to the node it has found or pushed; here the node is rebuilt on the way back.
pub mod Nodes
pub mod Ancestors
pub mod Tests
use collab_notes_ecs.Base.{
  ℕ, ltb, Text, ◌==◌, Bool, true, false, ◌&&◌, ◌||◌, Option, none, some, List, [], ◌∷◌, ◌++◌,
  if◌then◌else◌, any,
}
use collab_notes_ecs.Base.Split.{split}

mutual
  -- `Tag`: key, text, amount and sub-tags
  pub data Tag : Type 0 where
    tag : Text → Text → ℕ → Tags → Tag

  pub data Tags : Type 0 where
    no_tags : Tags
    tags : Tag → Tags → Tags

-- `tagText += i === 0 ? key : "/" + key`; there is no text before the first key
unfoldable pub extend_text : Option Text → Text → Text
extend_text none key = key
extend_text (some text) key = text ++ (b'/' ∷ key)

-- the amount of the tag that is put in, where the text is a tag that is used more than once
unfoldable pub amount_for : List (Text × ℕ) → ℕ → Text → ℕ
amount_for tag_amounts n text =
    if any (λ (x : Text × ℕ). (x.0 == text) && ltb 1 x.1) tag_amounts then n else 0

-- The search among the sub-tags: go into the first with the text, or push a new one and go into it.
unfoldable pub enter : Text → Text → ℕ → (Tags → Tags) → Tags → Tags
enter key text amount inside no_tags = tags (tag key text amount (inside no_tags)) no_tags
enter key text amount inside (tags (tag k t a subs) rest) =
    let after = enter key text amount inside rest in
    if t == text then tags (tag k t a (inside subs)) rest else tags (tag k t a subs) after

-- the inner loop, over the keys of one tag
unfoldable pub add_keys : List (Text × ℕ) → ℕ → Option Text → List Text → Tags → Tags
add_keys tag_amounts n before [] subs = subs
add_keys tag_amounts n before (key ∷ keys) subs =
    let text = extend_text before key in
    enter key text (amount_for tag_amounts n text) (add_keys tag_amounts n (some text) keys) subs

-- the outer loop
unfoldable pub add_tags : List (Text × ℕ) → List (Text × ℕ) → Tags → Tags
add_tags tag_amounts [] root = root
add_tags tag_amounts ((text, n) ∷ rest) root =
    add_tags tag_amounts rest (add_keys tag_amounts n none (split b'/' text) root)

unfoldable pub build_tags : List (Text × ℕ) → Tags
build_tags sorted_tag_amounts = add_tags sorted_tag_amounts sorted_tag_amounts no_tags
