-- ===== src/Base/Strings.antt =====
-- JavaScript strings: sequences of UTF-16 code units, with the methods that the client calls.
use Prim.Native.Nat.{ℕ}
use Prim.Native.Char.{code}
use Prim.Native.String.{String}
use mathlib.Core.Path.{◌≡◌, refl}
use mathlib.Core.Logic.{◌≢◌, ◌↔◌}
use mathlib.Core.Bool.{Bool, true, false, ◌&&◌, ◌||◌}
use mathlib.Core.List.{List, [], ◌∷◌}
use native.Mathlib.Omega.{arith}
use collab_notes_ecs.Base.Tests.{eqb}

abbrev pub Text : Type 0
Text = List ℕ

-- A literal of the source; every literal used is ASCII.
abbrev pub txt : String → Text
txt String.[] = []
txt (String.◌∷◌ c s) = code c ∷ txt s

-- `a === b`
infix 50 ◌==◌
unfoldable pub ◌==◌ : Text → Text → Bool
[] == [] = true
(x ∷ xs) == (y ∷ ys) = eqb x y && (xs == ys)
_ == _ = false

pub eq_of_== : (a b : Text) → (a == b) ≡ true → a ≡ b
unfolding ◌==◌
eq_of_== [] [] h = refl
eq_of_== (x ∷ xs) (y ∷ ys) h = ground (arith, eq_of_== xs ys)
eq_of_== [] (y ∷ ys) h = cc
eq_of_== (x ∷ xs) [] h = cc

pub ==_refl : (a : Text) → (a == a) ≡ true
unfolding ◌==◌
==_refl [] = refl
==_refl (x ∷ xs) = ground (arith, ==_refl xs)

pub ==_iff : (a b : Text) → ((a == b) ≡ true) ↔ (a ≡ b)
==_iff a b = (eq_of_== a b, λ e. rw e (==_refl b))

pub ==_of_ne : (a b : Text) → a ≢ b → (a == b) ≡ false
==_of_ne a b h = ground (arith, ==_iff a b)

pub ==_comm : (a b : Text) → (a == b) ≡ (b == a)
==_comm a b = ground (arith, ==_iff a b, ==_iff b a)

-- A text is truthy when it is not empty.
abbrev pub truthy : Text → Bool
truthy [] = false
truthy (c ∷ s) = true

-- `s.startsWith(p)`
unfoldable pub starts_with : Text → Text → Bool
starts_with s [] = true
starts_with [] (c ∷ p) = false
starts_with (d ∷ s) (c ∷ p) = eqb d c && starts_with s p

-- `s.includes(p)`
unfoldable pub includes : Text → Text → Bool
unfolding starts_with
includes [] p = starts_with [] p
includes (c ∷ s) p = starts_with (c ∷ s) p || includes s p

-- `list.includes(t)` on a list of texts
abbrev pub contains : List Text → Text → Bool
contains [] t = false
contains (s ∷ l) t = (s == t) || contains l t
