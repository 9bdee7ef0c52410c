-- ===== src/TagTree/Ancestors.antt =====
-- The texts on the way to a tag are the tag and what stands in it before a slash.
use collab_notes_ecs.Base.{
  ℕ, eqb, eqb_iff, Text, ◌==◌, starts_with, contains, Bool, false, ◌&&◌, ◌||◌, Bool-cases, inl, inr,
  none, some, List, [], ◌∷◌, ◌++◌, ◌≡◌, ◌≢◌, refl, arith, any, ◌∙◌, ap,
}
use collab_notes_ecs.Base.Split.{split, cons_head, split-ne-nil}
use collab_notes_ecs.TagTree.{extend_text, build_tags}
use collab_notes_ecs.TagTree.Nodes.{texts_from, texts_to, has_node, has_node-texts}

-- A text leads to a tag if it is the tag, or the tag goes on behind it with a slash.
abbrev pub leads_to : Text → Text → Bool
leads_to t text = (t == text) || starts_with text (t ++ (b'/' ∷ []))

-- Each text with the character in front
abbrev each_with : ℕ → List Text → List Text
each_with x [] = []
each_with x (t ∷ l) = (x ∷ t) ∷ each_with x l

texts_from-cons :
    (x : ℕ) (before : Text) (keys : List Text)
    → texts_from (some (x ∷ before)) keys ≡ each_with x (texts_from (some before) keys)
unfolding extend_text
texts_from-cons x before [] = refl
texts_from-cons x before (key ∷ keys) =
    ap (λ l. (x ∷ (before ++ (b'/' ∷ key))) ∷ l) (texts_from-cons x (before ++ (b'/' ∷ key)) keys)

texts_from-cons_head :
    (x : ℕ) (keys : List Text)
    → keys ≢ []
    → texts_from none (cons_head x keys) ≡ each_with x (texts_from none keys)
unfolding extend_text
texts_from-cons_head x [] h = absurd (h refl)
texts_from-cons_head x (key ∷ keys) h = ap (λ l. (x ∷ key) ∷ l) (texts_from-cons x key keys)

texts_from-slash :
    (keys : List Text)
    → keys ≢ []
    → texts_from (some []) keys ≡ each_with b'/' (texts_from none keys)
unfolding extend_text
texts_from-slash [] h = absurd (h refl)
texts_from-slash (key ∷ keys) h = ap (λ l. (b'/' ∷ key) ∷ l) (texts_from-cons b'/' key keys)

contains-each_with_nil : (x : ℕ) (l : List Text) → contains (each_with x l) [] ≡ false
unfolding ◌==◌
contains-each_with_nil x [] = refl
contains-each_with_nil x (t ∷ l) = contains-each_with_nil x l

contains-each_with_cons :
    (x y : ℕ) (l : List Text) (t : Text)
    → contains (each_with x l) (y ∷ t) ≡ (eqb x y && contains l t)
unfolding ◌==◌
contains-each_with_cons x y [] t = ground arith
contains-each_with_cons x y (s ∷ l) t = ground (arith, contains-each_with_cons x y l t)

texts_to-slash : (text : Text) → texts_to (b'/' ∷ text) ≡ [] ∷ each_with b'/' (texts_to text)
unfolding split extend_text
texts_to-slash text = ap (λ l. [] ∷ l) (texts_from-slash (split b'/' text) (split-ne-nil b'/' text))

texts_to-other :
    (x : ℕ) (text : Text) → eqb x b'/' ≡ false → texts_to (x ∷ text) ≡ each_with x (texts_to text)
unfolding split
texts_to-other x text h =
    rw (h, split) (texts_from-cons_head x (split b'/' text) (split-ne-nil b'/' text))

contains-texts_to_nil : (x : ℕ) (text : Text) → contains (texts_to (x ∷ text)) [] ≡ eqb x b'/'
unfolding ◌==◌
contains-texts_to_nil x text = elim (Bool-cases (eqb x b'/')) [
  | inl slash ↦ rw (slash, (eqb_iff x b'/').0 slash, texts_to-slash text) refl
  | inr other ↦ rw (other, texts_to-other x text other) (contains-each_with_nil x (texts_to text))
]

contains-texts_to_cons :
    (x y : ℕ) (text t : Text)
    → contains (texts_to (x ∷ text)) (y ∷ t) ≡ (eqb x y && contains (texts_to text) t)
unfolding ◌==◌
contains-texts_to_cons x y text t = elim (Bool-cases (eqb x b'/')) [
  | inl slash ↦
      rw ((eqb_iff x b'/').0 slash, texts_to-slash text)
        (contains-each_with_cons b'/' y (texts_to text) t)
  | inr other ↦ rw (texts_to-other x text other) (contains-each_with_cons x y (texts_to text) t)
]

contains-texts_to : (text t : Text) → contains (texts_to text) t ≡ leads_to t text
unfolding ◌==◌ starts_with split extend_text
contains-texts_to [] [] = refl
contains-texts_to [] (y ∷ t) = refl
contains-texts_to (x ∷ text) [] = contains-texts_to_nil x text ∙ ground arith
contains-texts_to (x ∷ text) (y ∷ t) =
    contains-texts_to_cons x y text t ∙ rw (contains-texts_to text t) (ground arith)

any-leads_to :
    (tag_amounts : List (Text × ℕ)) (t : Text)
    → any (λ (x : Text × ℕ). contains (texts_to x.0) t) tag_amounts
      ≡ any (λ (x : Text × ℕ). leads_to t x.0) tag_amounts
any-leads_to [] t = refl
any-leads_to (x ∷ tag_amounts) t = rw (contains-texts_to x.0 t, any-leads_to tag_amounts t)

-- The tree has a node for a text exactly if the text is one of the tags, or one of the tags goes on
-- behind it with a slash.
pub has_node-build_tags :
    (tag_amounts : List (Text × ℕ)) (t : Text)
    → has_node t (build_tags tag_amounts) ≡ any (λ (x : Text × ℕ). leads_to t x.0) tag_amounts
has_node-build_tags tag_amounts t = has_node-texts tag_amounts t ∙ any-leads_to tag_amounts t
