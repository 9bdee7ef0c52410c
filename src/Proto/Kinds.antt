-- ===== src/Proto/Kinds.antt =====
-- The kinds of value that the generated codecs write and read: messages within messages, enums by their
-- numbers, and 64-bit integers as JavaScript's numbers (`longToNumber` of
-- app/web/src/types/proto/google/protobuf/timestamp.ts).
use collab_notes_ecs.Base.{
  ℕ, ◌+◌, ◌≤◌, ◌<◌, ◌≡◌, refl, sym, ap, ◌∙◌, Bool, false, Option, none, some, [], ◌++◌, Text, ◌==◌,
  ltb, eqb, ◌||◌, ◌≢◌, length, length-append, append_assoc, append-nil, if◌then◌else◌, arith,
}
use collab_notes_ecs.Proto.Integers.{ℤ, pos, negsuc, eqz, IsInt32, IsInt64}
use collab_notes_ecs.Proto.Wire.{Bytes, Wire, Kind, IsUint32}
use collab_notes_ecs.Proto.Loop.{Read, run, loop}
use collab_notes_ecs.Proto.Fields.{Runs}

-- What JSON gives for an enum: a number, a name, or something else.
pub data Json : Type 0 where
  json_number : ℤ → Json
  json_string : Text → Json
  json_other : Json

-- `case n: case "NAME":`
unfoldable pub is_case : Json → ℤ → Text → Bool
is_case (json_number i) n name = eqz i n
is_case (json_string s) n name = s == name
is_case json_other n name = false

unfoldable pub mapped : {A B : Type 0} → (A → B) → Option (A × Bytes) → Option (B × Bytes)
mapped f none = none
mapped f (some (a, rest)) = some (f a, rest)

pub mapped-get-put :
    {A B : Type 0} (to : A → B) (from : B → A)
    → ((a : A) → from (to a) ≡ a)
    → (kind : Kind B) (a : A) (rest : Bytes) → kind.Valid (to a)
    → mapped from (kind.get (kind.put (to a) ++ rest)) ≡ some (a, rest)
unfolding mapped
mapped-get-put to from back kind a rest h = rw (kind.get-put (to a) rest h, back a) refl

-- Values that stand on the wire as values of another kind
abbrev pub convert :
    {A B : Type 0} (to : A → B) (from : B → A) → ((a : A) → from (to a) ≡ a) → Kind B → Kind A
convert to from back kind = record {
  put = λ a. kind.put (to a);
  get = λ bytes. mapped from (kind.get bytes);
  Valid = λ a. kind.Valid (to a);
  get-put = mapped-get-put to from back kind;
}

-- `Number.MAX_SAFE_INTEGER` bounds what `longToNumber` lets through.
abbrev pub IsSafe : ℤ → Type 0
IsSafe (pos n) = n ≤ 9007199254740991
IsSafe (negsuc n) = n < 9007199254740991

unfoldable pub long_to_number : Option (ℤ × Bytes) → Option (ℤ × Bytes)
long_to_number none = none
long_to_number (some (pos n, rest)) = if ltb 9007199254740991 n then none else some (pos n, rest)
long_to_number (some (negsuc n, rest)) =
    if ltb n 9007199254740991 then some (negsuc n, rest) else none

pub long_to_number-some :
    (i : ℤ) (rest : Bytes) → IsSafe i → long_to_number (some (i, rest)) ≡ some (i, rest)
unfolding long_to_number
long_to_number-some (pos n) rest h = ground arith
long_to_number-some (negsuc n) rest h = ground arith

pub IsInt64-IsSafe : (i : ℤ) → IsSafe i → IsInt64 i
IsInt64-IsSafe (pos n) h = omega arith
IsInt64-IsSafe (negsuc n) h = omega arith

-- A double is the number that its 64 bits spell, and `d !== 0` takes both zeros for zero.
unfoldable pub is_zero : ℕ → Bool
is_zero d = eqb d 0 || eqb d 9223372036854775808

abbrev pub IsNotNegativeZero : ℕ → Type 0
IsNotNegativeZero d = d ≢ 9223372036854775808

unfoldable pub sized :
    {M : Type 0}
    → (wire : Wire) → (ℕ → M → Bytes → Read M)
    → M
    → Option (ℕ × Bytes)
    → Option (M × Bytes)
sized wire switch base none = none
sized wire switch base (some (size, bytes)) = run wire switch size base bytes

unfoldable pub message_of : {M : Type 0} → Option (M × Bytes) → Option M
message_of none = none
message_of (some (m, rest)) = some m

module _ (wire : Wire) where
  abbrev pub int32 : Kind ℤ
  int32 = record {
    put = wire.put_int32;
    get = wire.get_int32;
    Valid = IsInt32;
    get-put = wire.get-put_int32;
  }

  -- `longToNumber(reader.int64())`
  abbrev pub int64 : Kind ℤ
  int64 = record {
    put = wire.put_int64;
    get = λ bytes. long_to_number (wire.get_int64 bytes);
    Valid = IsSafe;
    get-put = λ i rest h.
        ap long_to_number (wire.get-put_int64 i rest (IsInt64-IsSafe i h))
        ∙ long_to_number-some i rest h;
  }

  -- `eToNumber` and `eFromJSON` around an `int32`
  abbrev pub enum :
      {E : Type 0}
      → (to_number : E → ℤ) → (from_json : Json → E)
      → ((e : E) → from_json (json_number (to_number e)) ≡ e)
      → Kind E
  enum to_number from_json back = convert to_number (λ i. from_json (json_number i)) back int32

  module _ {M : Type 0} (switch : ℕ → M → Bytes → Read M) (base : M) where
    -- `M.decode(input)` on a whole array
    unfoldable pub decode_with : Bytes → Option M
    decode_with bytes = message_of (run wire switch (length bytes) base bytes)

    -- What a run leaves to be read is read into its message.
    pub decode_with-append :
        (bytes rest : Bytes) (m : M)
        → Runs wire switch base bytes m
        → decode_with (bytes ++ rest) ≡ message_of (run wire switch (length rest) m rest)
    unfolding decode_with
    decode_with-append bytes rest m runs =
        rw (length-append bytes rest) (ap message_of (runs.resumes rest (length rest)))

    pub decode_with-Runs :
        (bytes : Bytes) (m : M) → Runs wire switch base bytes m → decode_with bytes ≡ some m
    unfolding run loop message_of
    decode_with-Runs bytes m runs =
        ap decode_with (sym (append-nil bytes)) ∙ decode_with-append bytes [] m runs

    module _ (encode : M → Bytes) (Valid : M → Type 0)
        (encode-Runs : (m : M) → Valid m → Runs wire switch base (encode m) m) where
      run-encode :
          (m : M) (rest : Bytes)
          → Valid m
          → run wire switch (length (encode m)) base (encode m ++ rest) ≡ some (m, rest)
      unfolding run loop
      run-encode m rest valid =
          let size : length (encode m) ≡ length (encode m) + 0 = omega arith in
          rw size ((encode-Runs m valid).resumes rest 0)

      pub sized-put :
          (m : M) (rest : Bytes)
          → Valid m
          → IsUint32 (length (encode m))
          → sized wire switch base
              (wire.get_uint32 ((wire.put_uint32 (length (encode m)) ++ encode m) ++ rest))
            ≡ some (m, rest)
      unfolding sized
      sized-put m rest valid fits =
          rw
            (
              append_assoc (wire.put_uint32 (length (encode m))) (encode m) rest,
              wire.get-put_uint32 (length (encode m)) (encode m ++ rest) fits,
            )
            (run-encode m rest valid)

      -- `M.encode(m, writer.fork()).join()` and `M.decode(reader, reader.uint32())`
      abbrev pub message : Kind M
      message = record {
        put = λ m. wire.put_uint32 (length (encode m)) ++ encode m;
        get = λ bytes. sized wire switch base (wire.get_uint32 bytes);
        Valid = λ m. Valid m × IsUint32 (length (encode m));
        get-put = λ m rest h. sized-put m rest h.0 h.1;
      }
