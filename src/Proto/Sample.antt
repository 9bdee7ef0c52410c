-- ===== src/Proto/Sample.antt =====
-- A writer and a reader for the tests of the codecs. Their bytes hold whole numbers: a number is one byte, a
-- text stands behind its length, and each field is skipped as one byte.
use collab_notes_ecs.Base.{
  ℕ, zero, suc, ◌≡◌, refl, ◌<◌, Bool, true, false, Text, Option, none, some, [], ◌∷◌, ◌++◌, length,
  drop, take, eqb, if◌then◌else◌, arith,
}
use collab_notes_ecs.Base.Slices.{take-append, drop-append}
use collab_notes_ecs.Proto.Integers.{ℤ, pos, negsuc}
use collab_notes_ecs.Proto.Wire.{Bytes, Wire, Kind}

abbrev pub get_number : Bytes → Option (ℕ × Bytes)
get_number [] = none
get_number (n ∷ rest) = some (n, rest)

pub get_number_shrinks :
    (bytes : Bytes) (n : ℕ) (rest : Bytes)
    → get_number bytes ≡ some (n, rest)
    → length rest < length bytes
get_number_shrinks [] n rest h = cc
get_number_shrinks (k ∷ bytes) n rest h = ground arith

abbrev pub put_integer : ℤ → Bytes
put_integer (pos n) = 0 ∷ n ∷ []
put_integer (negsuc n) = 1 ∷ n ∷ []

abbrev pub get_integer : Bytes → Option (ℤ × Bytes)
get_integer (zero ∷ n ∷ rest) = some (pos n, rest)
get_integer (suc k ∷ n ∷ rest) = some (negsuc n, rest)
get_integer _ = none

pub get-put_integer : (i : ℤ) (rest : Bytes) → get_integer (put_integer i ++ rest) ≡ some (i, rest)
get-put_integer (pos n) rest = refl
get-put_integer (negsuc n) rest = refl

abbrev pub get_bool : Bytes → Option (Bool × Bytes)
get_bool [] = none
get_bool (n ∷ rest) = some (eqb n 1, rest)

abbrev pub put_bool : Bool → Bytes
put_bool b = if b then 1 ∷ [] else 0 ∷ []

pub get-put_bool : (b : Bool) (rest : Bytes) → get_bool (put_bool b ++ rest) ≡ some (b, rest)
get-put_bool true rest = refl
get-put_bool false rest = refl

abbrev pub get_text : Bytes → Option (Text × Bytes)
get_text [] = none
get_text (n ∷ rest) = some (take n rest, drop n rest)

pub get-put_text : (s : Text) (rest : Bytes) → get_text ((length s ∷ s) ++ rest) ≡ some (s, rest)
get-put_text s rest = rw (take-append s rest, drop-append s rest) refl

abbrev pub text : Kind Text
text = record {
  put = λ s. length s ∷ s;
  get = get_text;
  Valid = λ s. Unit;
  get-put = λ s rest h. get-put_text s rest;
}

abbrev pub wire : Wire
wire = record {
  put_uint32 = λ n. n ∷ [];
  get_uint32 = get_number;
  get-put_uint32 = λ n rest h. refl;
  get_uint32_shrinks = get_number_shrinks;
  put_int32 = put_integer;
  get_int32 = get_integer;
  get-put_int32 = λ i rest h. get-put_integer i rest;
  put_int64 = put_integer;
  get_int64 = get_integer;
  get-put_int64 = λ i rest h. get-put_integer i rest;
  bool = record {
    put = put_bool;
    get = get_bool;
    Valid = λ b. Unit;
    get-put = λ b rest h. get-put_bool b rest;
  };
  bool_Valid = λ b. tt;
  string = text;
  double = record {
    put = λ d. d ∷ [];
    get = get_number;
    Valid = λ d. Unit;
    get-put = λ d rest h. refl;
  };
  bytes = text;
  skip = λ w bytes. some (drop 1 bytes);
}
