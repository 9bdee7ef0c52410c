-- ===== src/Proto/Google/Dates.antt =====
-- `toTimestamp` and `fromTimestamp`, which stand in every file of app/web/src/types/proto/api/v1 that has
-- dates. A date is its number of milliseconds; the limit of 8.64e15, beyond which JavaScript has no date,
-- and the rounding of the sum to a double, are left out.
use collab_notes_ecs.Base.{ℕ, suc, ◌+◌, ◌*◌, ◌/◌, ◌%◌, ◌≡◌, ap, ◌∙◌, arith}
use collab_notes_ecs.Proto.Integers.{
  ℤ, pos, negsuc, neg, ◌+ℤ◌, times, trunc_div, rem, times-neg, trunc_div-neg, neg-+ℤ,
}
use collab_notes_ecs.Proto.Wire.{Wire, Kind}
use collab_notes_ecs.Proto.Kinds.{convert}
use collab_notes_ecs.Proto.Google.Timestamp.{Timestamp, timestamp}

abbrev pub Date : Type 0
Date = ℤ

unfoldable pub to_timestamp : Date → Timestamp
to_timestamp date = record { seconds = trunc_div date 1000; nanos = times (rem date 1000) 1000000 }

-- `millis` in millionths, which `new Date(millis)` rounds to whole milliseconds
unfoldable pub from_timestamp : Timestamp → Date
from_timestamp t = trunc_div (times t.seconds 1000000000 +ℤ t.nanos) 1000000

from-to_pos : (n : ℕ) → from_timestamp (to_timestamp (pos n)) ≡ pos n
unfolding to_timestamp from_timestamp
from-to_pos n =
    let e : (n / 1000 * 1000000000 + n % 1000 * 1000000) / 1000000 ≡ n = omega arith in ap pos e

from-to_negsuc : (n : ℕ) → from_timestamp (to_timestamp (negsuc n)) ≡ negsuc n
unfolding to_timestamp from_timestamp
from-to_negsuc n =
    let e : (suc n / 1000 * 1000000000 + suc n % 1000 * 1000000) / 1000000 ≡ suc n = omega arith in
    rw
      (
        times-neg (suc n / 1000) 1000000000,
        times-neg (suc n % 1000) 1000000,
        neg-+ℤ (suc n / 1000 * 1000000000) (suc n % 1000 * 1000000),
      )
      (trunc_div-neg (suc n / 1000 * 1000000000 + suc n % 1000 * 1000000) 999999 ∙ ap neg e)

-- Every date comes back from its timestamp, also one before 1970.
pub from_timestamp-to_timestamp : (date : Date) → from_timestamp (to_timestamp date) ≡ date
from_timestamp-to_timestamp (pos n) = from-to_pos n
from_timestamp-to_timestamp (negsuc n) = from-to_negsuc n

unfoldable pub date : Wire → Kind Date
date wire = convert to_timestamp from_timestamp from_timestamp-to_timestamp (timestamp wire)
