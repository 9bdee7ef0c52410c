-- ===== src/Proto/Wire.antt =====
-- What the codecs of app/web/src/types/proto take from the writer and the reader of @bufbuild/protobuf, a
-- package: the bytes that the writer puts for one value, and how the reader takes them off again.
-- A message that fails to decode throws there; here the reader returns nothing.
use collab_notes_ecs.Base.{ℕ, ◌<◌, Bool, Option, some, List, ◌++◌, ◌≡◌, Text, length}
use collab_notes_ecs.Proto.Integers.{ℤ, IsInt32, IsInt64}

abbrev pub Bytes : Type 0
Bytes = List ℕ

-- How one kind of value stands on the wire. The law is the round trip for the values that the kind can hold.
pub record Kind (A : Type 0) : Type 1 where
  pub put : A → Bytes
  pub get : Bytes → Option (A × Bytes)
  pub Valid : A → Type 0
  pub get-put : (a : A) (rest : Bytes) → Valid a → get (put a ++ rest) ≡ some (a, rest)

-- An unsigned 32-bit number
abbrev pub IsUint32 : ℕ → Type 0
IsUint32 n = n < 4294967296

-- `BinaryWriter` and `BinaryReader`. A text is valid when UTF-8 can hold it, and a double is
-- the number that its 64 bits spell. `skip w` is
-- `reader.skip(w)`, for a field of that wire type whose tag is already read.
pub record Wire : Type 1 where
  pub put_uint32 : ℕ → Bytes
  pub get_uint32 : Bytes → Option (ℕ × Bytes)
  pub get-put_uint32 :
      (n : ℕ) (rest : Bytes) → IsUint32 n → get_uint32 (put_uint32 n ++ rest) ≡ some (n, rest)
  pub get_uint32_shrinks :
      (bytes : Bytes) (n : ℕ) (rest : Bytes)
      → get_uint32 bytes ≡ some (n, rest)
      → length rest < length bytes
  pub put_int32 : ℤ → Bytes
  pub get_int32 : Bytes → Option (ℤ × Bytes)
  pub get-put_int32 :
      (i : ℤ) (rest : Bytes) → IsInt32 i → get_int32 (put_int32 i ++ rest) ≡ some (i, rest)
  pub put_int64 : ℤ → Bytes
  pub get_int64 : Bytes → Option (ℤ × Bytes)
  pub get-put_int64 :
      (i : ℤ) (rest : Bytes) → IsInt64 i → get_int64 (put_int64 i ++ rest) ≡ some (i, rest)
  pub bool : Kind Bool
  pub bool_Valid : (b : Bool) → bool.Valid b
  pub string : Kind Text
  pub double : Kind ℕ
  pub bytes : Kind Bytes
  pub skip : ℕ → Bytes → Option Bytes
