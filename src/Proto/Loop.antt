-- ===== src/Proto/Loop.antt =====
-- The loop of every generated `decode`, which all messages of app/web/src/types/proto share but for the
-- `switch`: `while (reader.pos < end)`. The budget is `end - reader.pos`.
use collab_notes_ecs.Base.{
  ℕ, zero, suc, ◌-◌, ◌%◌, ◌<◌, ◌≤◌, ◌≡◌, refl, Option, none, some, ◌||◌, eqb, length, ltb, true,
  if◌then◌else◌, arith,
}
use collab_notes_ecs.Proto.Wire.{Bytes, Wire}

-- What the `switch` on a tag comes to: a field is read and the loop continues, no case fits the tag, or
-- the reader throws.
pub data Read (M : Type 0) : Type 0 where
  read : M → Bytes → Read M
  unknown : Read M
  failed : Read M

-- A case of the switch: what is read, put into the message
abbrev pub on : {M A : Type 0} → Option (A × Bytes) → (A → M) → Read M
on none f = failed
on (some (a, rest)) f = read (f a) rest

-- The budget after a read that leaves `after` of `before`
abbrev pub left : ℕ → Bytes → Bytes → ℕ
left budget before after = budget - (length before - length after)

module _ {M : Type 0} (wire : Wire) (switch : ℕ → M → Bytes → Read M) where
  -- What follows the switch, for the bytes after the tag. `next` is the next round.
  unfoldable pub skipped :
      (ℕ → M → Bytes → Option (M × Bytes)) → ℕ → M → Bytes → Option Bytes → Option (M × Bytes)
  skipped next budget m bytes none = none
  skipped next budget m bytes (some rest) = next (left budget bytes rest) m rest

  unfoldable pub finish :
      (ℕ → M → Bytes → Option (M × Bytes)) → ℕ → ℕ → M → Bytes → Read M → Option (M × Bytes)
  finish next budget tag m bytes (read m' rest) = next (left budget bytes rest) m' rest
  finish next budget tag m bytes unknown =
      if eqb (tag % 8) 4 || eqb tag 0
      then some (m, bytes)
      else skipped next budget m bytes (wire.skip (tag % 8) bytes)
  finish next budget tag m bytes failed = none

  unfoldable pub tagged :
      (ℕ → M → Bytes → Option (M × Bytes)) → ℕ → M → Bytes → Option (ℕ × Bytes) → Option (M × Bytes)
  tagged next budget m before none = none
  tagged next budget m before (some (tag, bytes)) =
      finish next (left budget before bytes) tag m bytes (switch tag m bytes)

  -- One round of the loop
  unfoldable pub round : (ℕ → M → Bytes → Option (M × Bytes)) → ℕ → M → Bytes → Option (M × Bytes)
  round next budget m bytes = tagged next budget m bytes (wire.get_uint32 bytes)

  -- The loop, by recursion on the rounds that it may take.
  unfoldable pub loop : ℕ → ℕ → M → Bytes → Option (M × Bytes)
  loop fuel zero m bytes = some (m, bytes)
  loop zero (suc budget) m bytes = none
  loop (suc fuel) (suc budget) m bytes = round (loop fuel) (suc budget) m bytes

  -- A round takes at least one byte, so the budget bounds the rounds.
  unfoldable pub run : ℕ → M → Bytes → Option (M × Bytes)
  run budget = loop budget budget

  module _ (next next' : ℕ → M → Bytes → Option (M × Bytes)) (bound : ℕ)
      (agree : (b : ℕ) (m : M) (bytes : Bytes) → b ≤ bound → next b m bytes ≡ next' b m bytes) where
    skipped-agree :
        (b : ℕ) (m : M) (bytes : Bytes) (o : Option Bytes)
        → b ≤ bound
        → skipped next b m bytes o ≡ skipped next' b m bytes o
    unfolding skipped
    skipped-agree b m bytes none h = refl
    skipped-agree b m bytes (some rest) h = agree (left b bytes rest) m rest (omega arith)

    finish-agree :
        (b tag : ℕ) (m : M) (bytes : Bytes) (r : Read M)
        → b ≤ bound
        → finish next b tag m bytes r ≡ finish next' b tag m bytes r
    unfolding finish
    finish-agree b tag m bytes (read m' rest) h = agree (left b bytes rest) m' rest (omega arith)
    finish-agree b tag m bytes unknown h =
        rw (skipped-agree b m bytes (wire.skip (tag % 8) bytes) h) refl
    finish-agree b tag m bytes failed h = refl

    tagged-agree :
        (b : ℕ) (m : M) (before : Bytes) (o : Option (ℕ × Bytes))
        → b ≤ suc bound
        → ((tag : ℕ) (bytes : Bytes) → o ≡ some (tag, bytes) → length bytes < length before)
        → tagged next b m before o ≡ tagged next' b m before o
    unfolding tagged
    tagged-agree b m before none h shrinks = refl
    tagged-agree b m before (some (tag, bytes)) h shrinks =
        let less : length bytes < length before = shrinks tag bytes refl in
        finish-agree (left b before bytes) tag m bytes (switch tag m bytes) (omega arith)

    round-agree :
        (b : ℕ) (m : M) (bytes : Bytes)
        → b ≤ suc bound
        → round next b m bytes ≡ round next' b m bytes
    unfolding round
    round-agree b m bytes h =
        tagged-agree b m bytes (wire.get_uint32 bytes) h (wire.get_uint32_shrinks bytes)

  -- Any two fuels that reach the budget give the same result.
  loop-agree :
      (fuel fuel' b : ℕ) (m : M) (bytes : Bytes)
      → b ≤ fuel
      → b ≤ fuel'
      → loop fuel b m bytes ≡ loop fuel' b m bytes
  unfolding loop
  loop-agree fuel fuel' zero m bytes h h' = refl
  loop-agree zero fuel' (suc b) m bytes h h' = absurd (omega arith)
  loop-agree (suc fuel) zero (suc b) m bytes h h' = absurd (omega arith)
  loop-agree (suc fuel) (suc fuel') (suc b) m bytes h h' =
      round-agree (loop fuel) (loop fuel') b
        (λ c m' rest less.
          let low : c ≤ fuel = omega arith in
          let low' : c ≤ fuel' = omega arith in loop-agree fuel fuel' c m' rest low low')
        (suc b) m bytes (omega arith)

  -- More fuel than the budget changes nothing.
  pub loop-run :
      (fuel b : ℕ) (m : M) (bytes : Bytes) → b ≤ fuel → loop fuel b m bytes ≡ run b m bytes
  unfolding run
  loop-run fuel b m bytes h = loop-agree fuel b b m bytes h (omega arith)

  -- `run` is never stopped by its fuel: at the end it returns, and else it does a round and goes on.
  pub run-round :
      (b : ℕ) (m : M) (bytes : Bytes)
      → run b m bytes ≡ (if ltb 0 b then round run b m bytes else some (m, bytes))
  unfolding run loop
  run-round zero m bytes = refl
  run-round (suc b) m bytes =
      let more : ltb 0 (suc b) ≡ true = ground arith in
      rw more (
        round-agree (loop b) run b (λ c m' rest less. loop-run b c m' rest less) (suc b) m bytes
          (omega arith))
