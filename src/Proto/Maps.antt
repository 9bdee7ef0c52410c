-- ===== src/Proto/Maps.antt =====
-- Fields that hold an object with string keys: `Object.entries(m).forEach` writes an entry message for each
-- property, and each entry that is read is assigned to its key.
use collab_notes_ecs.Base.{
  ℕ, ◌≡◌, refl, ap, Text, ==_iff, none, [], ◌∷◌, ◌++◌, map, append-nil, append_assoc, All, ltb,
  true, arith,
}
use collab_notes_ecs.Base.Dict.{Dict, get, put}
use collab_notes_ecs.Proto.Wire.{Bytes, Wire, Kind}
use collab_notes_ecs.Proto.Loop.{Read, on}
use collab_notes_ecs.Proto.Fields.{Runs, ◌>>◌, nil-Runs, repeated, field-Runs}

-- None of the entries has a key of those before it, as in every object.
abbrev pub IsFresh : {V : Type 0} → Dict V → Dict V → Type 0
IsFresh before [] = Unit
IsFresh before ((k, v) ∷ m) = (get before k ≡ none) × IsFresh (before ++ ((k, v) ∷ [])) m

put_new :
    {V : Type 0} (m : Dict V) (k : Text) (v : V) → get m k ≡ none → put m k v ≡ m ++ ((k, v) ∷ [])
unfolding get put
put_new [] k v h = refl
put_new ((j, w) ∷ m) k v h = ground (arith, ==_iff j k, put_new m k v)

module _ {M Entry V : Type 0} (wire : Wire) (switch : ℕ → M → Bytes → Read M) (tag : ℕ)
    (fits : ltb tag 4294967296 ≡ true) (kind : Kind Entry) (to_entry : (Text × V) → Entry)
    (key : Entry → Text) (value : Entry → V) (key_back : (e : Text × V) → key (to_entry e) ≡ e.0)
    (value_back : (e : Text × V) → value (to_entry e) ≡ e.1) (f : Dict V → M)
    (reads : (m : Dict V) (bytes : Bytes)
      → switch tag (f m) bytes ≡ on (kind.get bytes) (λ e. f (put m (key e) (value e)))) where
  entry-Runs :
      (before : Dict V) (k : Text) (v : V)
      → get before k ≡ none
      → kind.Valid (to_entry (k, v))
      → Runs wire switch
          (f before)
          (wire.put_uint32 tag ++ kind.put (to_entry (k, v)))
          (f (before ++ ((k, v) ∷ [])))
  entry-Runs before k v new valid =
      let assigned : f (put before (key (to_entry (k, v))) (value (to_entry (k, v))))
          ≡ f (before ++ ((k, v) ∷ [])) =
        rw (key_back (k, v), value_back (k, v)) (ap f (put_new before k v new)) in
      rw (← assigned) (
        field-Runs wire switch tag fits kind (λ e. f (put before (key e) (value e))) (reads before)
          (to_entry (k, v)) valid)

  pub entries-Runs :
      (before m : Dict V)
      → IsFresh before m
      → All kind.Valid (map to_entry m)
      → Runs wire switch (f before) (repeated wire tag kind (map to_entry m)) (f (before ++ m))
  entries-Runs before [] fresh valid = rw (append-nil before) (nil-Runs wire switch (f before))
  entries-Runs before ((k, v) ∷ m) fresh valid =
      entry-Runs before k v fresh.0 valid.0
      >> (rw (← append_assoc before ((k, v) ∷ []) m)
          (entries-Runs (before ++ ((k, v) ∷ [])) m fresh.1 valid.1))
