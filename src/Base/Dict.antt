-- ===== src/Base/Dict.antt =====
-- A plain object used as a dictionary, `Record<string, V>`: its own properties in the order of
-- `Object.values`. An assignment to a key that is there keeps its place, a new key comes last. (The
-- order of integer-like keys, and keys that name a member of `Object.prototype`, are left out.)
use mathlib.Core.Path.{◌≡◌, refl}
use mathlib.Core.Option.{Option, none, some}
use mathlib.Core.List.{List, [], ◌∷◌}
use native.Mathlib.Omega.{arith}
use collab_notes_ecs.Base.Tests.{if◌then◌else◌, or_else}
use collab_notes_ecs.Base.Strings.{Text, ◌==◌, ==_iff, ==_refl}

abbrev pub Dict {ℓ} : Type ℓ → Type ℓ
Dict V = List (Text × V)

module _ {ℓ} {V : Type ℓ} where
  -- `m[k]`
  unfoldable pub get : Dict V → Text → Option V
  get [] k = none
  get ((j, v) ∷ m) k = if j == k then some v else get m k

  -- `m[k] = v`
  unfoldable pub put : Dict V → Text → V → Dict V
  put [] k v = (k, v) ∷ []
  put ((j, w) ∷ m) k v = if j == k then (j, v) ∷ m else (j, w) ∷ put m k v

  -- `delete m[k]`
  unfoldable pub remove : Dict V → Text → Dict V
  remove [] k = []
  remove ((j, v) ∷ m) k = let rest = remove m k in if j == k then rest else (j, v) ∷ rest

  -- `Object.values(m)`
  unfoldable pub values : Dict V → List V
  values [] = []
  values ((k, v) ∷ m) = v ∷ values m

  -- `{ ...m, ...n }`
  unfoldable pub spread : Dict V → Dict V → Dict V
  spread m [] = m
  spread m ((k, v) ∷ n) = spread (put m k v) n

  -- `for (const x of xs) m[key(x)] = x`
  unfoldable pub put_all : (V → Text) → Dict V → List V → Dict V
  put_all key m [] = m
  put_all key m (x ∷ xs) = put_all key (put m (key x) x) xs

  pub get-put :
      (m : Dict V) (k j : Text) (v : V) → get (put m k v) j ≡ (if k == j then some v else get m j)
  unfolding get put
  get-put [] k j v = refl
  get-put ((i, w) ∷ m) k j v = ground (arith, ==_iff i k, ==_iff i j, ==_iff k j, get-put m k j v)

  pub get-remove :
      (m : Dict V) (k j : Text) → get (remove m k) j ≡ (if k == j then none else get m j)
  unfolding get remove
  get-remove [] k j = ground arith
  get-remove ((i, w) ∷ m) k j = ground (arith, ==_iff i k, ==_iff i j, ==_iff k j, get-remove m k j)

  pub get-put_self : (m : Dict V) (k : Text) (v : V) → get (put m k v) k ≡ some v
  get-put_self m k v = rw get-put (rw ==_refl)

  -- The last element of that key.
  abbrev pub find_last : (V → Text) → Text → List V → Option V
  find_last key k [] = none
  find_last key k (x ∷ xs) = or_else (find_last key k xs) (if key x == k then some x else none)

  pub get-put_all :
      (key : V → Text) (m : Dict V) (xs : List V) (k : Text)
      → get (put_all key m xs) k ≡ or_else (find_last key k xs) (get m k)
  unfolding put_all
  get-put_all key m [] k = refl
  get-put_all key m (x ∷ xs) k =
      ground (arith, get-put_all key (put m (key x) x) xs k, get-put m (key x) k x)

  pub ruleset dict_laws = (get-put, get-remove)

  -- Every entry satisfies `P`.
  abbrev pub Each {κ} : (Text → V → Type κ) → Dict V → Type κ
  Each P [] = Unit
  Each P ((k, v) ∷ m) = P k v × Each P m

  module _ {κ} (P : Text → V → Type κ) where
    pub Each-put : (m : Dict V) (k : Text) (v : V) → Each P m → P k v → Each P (put m k v)
    unfolding put
    Each-put [] k v h p = (p, tt)
    Each-put ((j, w) ∷ m) k v h p = ground (arith, ==_iff j k, Each-put m k v h.1 p)

    pub Each-remove : (m : Dict V) (k : Text) → Each P m → Each P (remove m k)
    unfolding remove
    Each-remove [] k h = tt
    Each-remove ((j, w) ∷ m) k h = ground (arith, Each-remove m k h.1)

    pub Each-put_all :
        (key : V → Text) (m : Dict V) (xs : List V)
        → ((x : V) → P (key x) x)
        → Each P m
        → Each P (put_all key m xs)
    unfolding put_all
    Each-put_all key m [] p h = h
    Each-put_all key m (x ∷ xs) p h =
        Each-put_all key (put m (key x) x) xs p (Each-put m (key x) x h (p x))

    pub Each-get : (m : Dict V) (k : Text) (v : V) → Each P m → get m k ≡ some v → P k v
    unfolding get
    Each-get [] k v h e = cc
    Each-get ((j, w) ∷ m) k v h e = ground (arith, ==_iff j k, Each-get m k v h.1)
