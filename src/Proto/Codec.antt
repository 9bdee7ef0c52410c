-- ===== src/Proto/Codec.antt =====
-- The names that the codecs of the messages share.
pub use collab_notes_ecs.Base.{
  All, Bool, List, Option, Text, [], arith, eqb, false, true, if◌then◌else◌, none, some, not, refl,
  txt, ℕ, length, ◌++◌, ◌==◌, ◌∷◌, ◌≡◌,
}
pub use collab_notes_ecs.Proto.Integers.{ℤ, pos, negsuc, eqz, IsInt32}
pub use collab_notes_ecs.Proto.Wire.{Bytes, Wire, Kind}
pub use collab_notes_ecs.Proto.Loop.{Read, unknown, on}
pub use collab_notes_ecs.Proto.Fields.{
  OptionAll, Runs, ◌>>◌, nil-Runs, field, unless, optional, repeated, scalar-Runs, optional-Runs,
  repeated-Runs,
}
unfoldable pub use collab_notes_ecs.Proto.Kinds.{is_case}
pub use collab_notes_ecs.Proto.Kinds.{
  Json, json_number, enum, message, decode_with, IsSafe, IsNotNegativeZero, is_zero, int32, int64,
}
pub use collab_notes_ecs.Proto.Defaults.{
  text_field, bytes_field, bool_field, number_field, double_field, enum_field,
}
