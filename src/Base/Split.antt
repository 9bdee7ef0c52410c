-- ===== src/Base/Split.antt =====
-- `s.split(sep)` and `parts.join(sep)` for a separator of one character.
use Prim.Native.Nat.{ℕ}
use mathlib.Core.Path.{◌≡◌, refl, ap, sym, ◌∙◌}
use mathlib.Core.Logic.{◌≢◌, inl, inr}
use mathlib.Core.Bool.{true, false}
use mathlib.Core.List.{List, [], ◌∷◌, ◌++◌}
use native.Mathlib.Omega.{arith}
use collab_notes_ecs.Base.Tests.{if◌then◌else◌, eqb, eqb_iff, eqb_refl, Bool-cases}
use collab_notes_ecs.Base.Lists.{All}
use collab_notes_ecs.Base.Strings.{Text}

abbrev pub cons_head : ℕ → List Text → List Text
cons_head x [] = (x ∷ []) ∷ []
cons_head x (p ∷ ps) = (x ∷ p) ∷ ps

unfoldable pub split : ℕ → Text → List Text
split sep [] = [] ∷ []
split sep (x ∷ s) = let rest = split sep s in if eqb x sep then [] ∷ rest else cons_head x rest

unfoldable pub join : ℕ → List Text → Text
join sep [] = []
join sep (p ∷ []) = p
join sep (p ∷ q ∷ ps) = p ++ (sep ∷ join sep (q ∷ ps))

-- No character of the text is the separator.
abbrev pub Without : ℕ → Text → Type 0
Without sep s = All (λ c. c ≢ sep) s

pub split-ne-nil : (sep : ℕ) (s : Text) → split sep s ≢ []
unfolding split
split-ne-nil sep [] e = cc
split-ne-nil sep (x ∷ s) e = ground arith

pub split_plain : (sep : ℕ) (p : Text) → Without sep p → split sep p ≡ p ∷ []
unfolding split
split_plain sep [] h = refl
split_plain sep (x ∷ p) h = ground (arith, split_plain sep p h.1)

pub split-append :
    (sep : ℕ) (p s : Text) → Without sep p → split sep (p ++ (sep ∷ s)) ≡ p ∷ split sep s
unfolding split
split-append sep [] s h = rw (eqb_refl sep)
split-append sep (x ∷ p) s h = ground (arith, split-append sep p s h.1)

pub split-join :
    (sep : ℕ) (p : Text) (ps : List Text)
    → All (Without sep) (p ∷ ps)
    → split sep (join sep (p ∷ ps)) ≡ p ∷ ps
unfolding join
split-join sep p [] h = split_plain sep p h.0
split-join sep p (q ∷ ps) h =
    split-append sep p (join sep (q ∷ ps)) h.0 ∙ ap (λ l. p ∷ l) (split-join sep q ps h.1)

join-cons_head : (sep x : ℕ) (ps : List Text) → join sep (cons_head x ps) ≡ x ∷ join sep ps
unfolding join
join-cons_head sep x [] = refl
join-cons_head sep x (p ∷ []) = refl
join-cons_head sep x (p ∷ q ∷ ps) = refl

join-nil_cons : (sep : ℕ) (ps : List Text) → ps ≢ [] → join sep ([] ∷ ps) ≡ sep ∷ join sep ps
unfolding join
join-nil_cons sep [] h = absurd (h refl)
join-nil_cons sep (p ∷ ps) h = refl

split_sep : (sep x : ℕ) (s : Text) → eqb x sep ≡ true → split sep (x ∷ s) ≡ [] ∷ split sep s
unfolding split
split_sep sep x s h = rw h

split_other :
    (sep x : ℕ) (s : Text) → eqb x sep ≡ false → split sep (x ∷ s) ≡ cons_head x (split sep s)
unfolding split
split_other sep x s h = rw h

join-split_nil : (sep : ℕ) → join sep (split sep []) ≡ []
unfolding split join
join-split_nil sep = refl

-- Joining the parts of a split gives the text back.
pub join-split : (sep : ℕ) (s : Text) → join sep (split sep s) ≡ s
join-split sep [] = join-split_nil sep
join-split sep (x ∷ s) = elim (Bool-cases (eqb x sep)) [
  | inl same ↦ rw (split_sep sep x s same) (
      join-nil_cons sep (split sep s) (split-ne-nil sep s)
      ∙ ap (λ (t : Text). sep ∷ t) (join-split sep s)
      ∙ ap (λ c. c ∷ s) (sym ((eqb_iff x sep).0 same)))
  | inr other ↦
      rw (split_other sep x s other)
        (join-cons_head sep x (split sep s) ∙ ap (λ (t : Text). x ∷ t) (join-split sep s))
]

Without-cons_head :
    (sep x : ℕ) (ps : List Text)
    → x ≢ sep
    → All (Without sep) ps
    → All (Without sep) (cons_head x ps)
Without-cons_head sep x [] ne h = ((ne, tt), tt)
Without-cons_head sep x (p ∷ ps) ne h = ((ne, h.0), h.1)

-- The parts of a split hold no separator.
pub split-Without : (sep : ℕ) (s : Text) → All (Without sep) (split sep s)
unfolding split
split-Without sep [] = (tt, tt)
split-Without sep (x ∷ s) = elim (Bool-cases (eqb x sep)) [
  | inl same ↦ rw same (tt, split-Without sep s)
  | inr other ↦
      rw other (Without-cons_head sep x (split sep s) (λ e. ground arith) (split-Without sep s))
]
