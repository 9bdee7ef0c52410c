-- ===== src/TagTree/Tests.antt =====
-- The tree of three tags, and instances of the theorems.
use collab_notes_ecs.Base.{ℕ, Text, txt, ◌==◌, List, [], ◌∷◌, ◌≡◌, refl, any}
use collab_notes_ecs.Base.Split.{split}
use collab_notes_ecs.TagTree.{
  tag, no_tags, tags, extend_text, amount_for, enter, add_keys, add_tags, build_tags,
}
use collab_notes_ecs.TagTree.Nodes.{has_node, HasDistinctSiblings, build_tags-HasDistinctSiblings}
use collab_notes_ecs.TagTree.Ancestors.{leads_to, has_node-build_tags}

abbrev three_tags : List (Text × ℕ)
three_tags = (txt "a", 2) ∷ (txt "a/b", 1) ∷ (txt "c/d", 3) ∷ []

three_tags_tree :
    build_tags three_tags
    ≡ tags (tag (txt "a") (txt "a") 2 (tags (tag (txt "b") (txt "a/b") 0 no_tags) no_tags)) (
        tags
          (tag (txt "c") (txt "c") 0 (tags (tag (txt "d") (txt "c/d") 3 no_tags) no_tags))
          no_tags)
unfolding build_tags add_tags add_keys enter amount_for extend_text split ◌==◌
three_tags_tree = refl

has_node-build_tags_example :
    has_node (txt "c") (build_tags three_tags)
    ≡ any (λ (x : Text × ℕ). leads_to (txt "c") x.0) three_tags
has_node-build_tags_example = has_node-build_tags three_tags (txt "c")

build_tags-HasDistinctSiblings_example : HasDistinctSiblings (build_tags three_tags)
build_tags-HasDistinctSiblings_example = build_tags-HasDistinctSiblings three_tags
