-- ===== src/Base/Slices.antt =====
-- `slice` and `substring` of texts and lists, and what they cut out of a concatenation.
use Prim.Native.Nat.{ℕ, ◌+◌, ◌-◌}
use mathlib.Core.Path.{◌≡◌, refl, ap}
use mathlib.Core.List.{List, [], ◌∷◌, ◌++◌, append_assoc}
use native.Mathlib.Omega.{arith}
use collab_notes_ecs.Base.Lists.{length, take, drop, length-append}

module _ {ℓ} {A : Type ℓ} where
  -- `xs.slice(start, end)` for indices from the front
  abbrev pub slice : ℕ → ℕ → List A → List A
  slice start end xs = take (end - start) (drop start xs)

  pub take-append : (xs ys : List A) → take (length xs) (xs ++ ys) ≡ xs
  take-append [] ys = refl
  take-append (x ∷ xs) ys = ap (λ l. x ∷ l) (take-append xs ys)

  pub drop-append : (xs ys : List A) → drop (length xs) (xs ++ ys) ≡ ys
  drop-append [] ys = refl
  drop-append (x ∷ xs) ys = drop-append xs ys

  pub drop-append-append :
      (xs ys zs : List A) → drop (length xs + length ys) (xs ++ (ys ++ zs)) ≡ zs
  drop-append-append xs ys zs =
      rw (← length-append xs ys) (rw (← append_assoc xs ys zs) (drop-append (xs ++ ys) zs))

  pub slice-append :
      (xs ys zs : List A) → slice (length xs) (length xs + length ys) (xs ++ (ys ++ zs)) ≡ ys
  slice-append xs ys zs =
      let n : length xs + length ys - length xs ≡ length ys = omega arith in
      rw (n, drop-append xs (ys ++ zs)) (take-append ys zs)
