-- ===== src/Proto/Stats.antt =====
-- `UserStats.encode` and `decode` of app/web/src/types/proto/api/v1/user_service.ts.
use collab_notes_ecs.Base.{◌≡◌, some}
use collab_notes_ecs.Proto.Wire.{Wire}
use collab_notes_ecs.Proto.Kinds.{decode_with-Runs}
use collab_notes_ecs.Proto.UserService.UserStats.{
  UserStats, base, encode, decode, switch, Valid, encode-Runs,
}

-- Decoding what `encode` writes gives the statistics back, with the counts of the tags as an object in the
-- same order, if no tag has two counts, the texts can be written, the numbers fit 32 bits, the seconds of
-- the dates are safe integers, and each message in it encodes to less than 2^32 bytes.
pub decode-encode_stats :
    (wire : Wire) (stats : UserStats)
    → Valid wire stats
    → decode wire (encode wire stats) ≡ some stats
unfolding decode
decode-encode_stats wire stats valid =
    decode_with-Runs wire (switch wire) base (encode wire stats) stats
      (encode-Runs wire stats valid)
