-- ===== src/Calendar/Cells.antt =====
-- app/web/src/components/ActivityCalendar/ActivityCalendar.tsx: where the days of the month stand.
use collab_notes_ecs.Base.{
  ℕ, zero, suc, ◌+◌, ◌-◌, ◌*◌, ◌/◌, ◌%◌, ◌<◌, ◌≤◌, Text, true, some, List, [], ◌∷◌, ◌++◌, ◌≡◌, refl,
  sym, ap, ◌∙◌, arith, if◌then◌else◌, ltb, eqb, inl, inr, Bool-cases, length-drop, length,
  get_elem?, take, drop, length-append,
}
use collab_notes_ecs.Calendar.{
  Month, ℤ, pos, negsuc, CalendarDay, next_rounds, first_day, prev_days, current_days, next_days,
  days, week_days,
}

-- The last weekday follows from the first.
pub record IsMonth (m : Month) : Type 0 where
  pub weekday : m.first_weekday < 7
  pub some_day : 0 < m.day_in_month
  pub last : m.last_weekday ≡ (m.first_weekday + m.day_in_month - 1) % 7

length-prev_days : (p n : ℕ) → length (prev_days p n) ≡ n
unfolding prev_days
length-prev_days p zero = refl
length-prev_days p (suc n) = ap suc (length-prev_days p n)

length-current_days : (date : ℕ → Text) (i n : ℕ) → length (current_days date i n) ≡ n
unfolding current_days
length-current_days date i zero = refl
length-current_days date i (suc n) = ap suc (length-current_days date (i + 1) n)

length-next_days : (i n : ℕ) → length (next_days i n) ≡ n
unfolding next_days
length-next_days i zero = refl
length-next_days i (suc n) = ap suc (length-next_days (i + 1) n)

length_parts :
    (offset : ℤ) (m : Month)
    → length (days offset m) ≡ first_day offset m + m.day_in_month + next_rounds offset m
unfolding days
length_parts offset m =
    let p = first_day offset m in
    let k = next_rounds offset m in
    omega (
      arith,
      length-append (prev_days m.prev_month_days p)
          (current_days m.date 1 m.day_in_month ++ next_days 1 k),
      length-append (current_days m.date 1 m.day_in_month) (next_days 1 k),
      length-prev_days m.prev_month_days p,
      length-current_days m.date 1 m.day_in_month,
      length-next_days 1 k,
    )

-- The weeks that a month reaches into.
abbrev pub weeks : ℤ → Month → ℕ
weeks offset m = (first_day offset m + m.day_in_month + 6) / 7

-- In a month whose weekdays are consistent: for a start of the week from Sunday to Saturday as the
-- offsets 0 to 6, the cells fill the weeks that the month reaches into, and one more, of the next
-- month alone, when the month ends on a weekday before that start. For Saturday as the offset -1, they
-- fill those weeks, except that six cells are missing when the month ends on a Saturday.
pub length-days :
    (k : ℕ) (m : Month)
    → IsMonth m
    → k < 7
    → (length (days (pos k) m) ≡ 7 * (weeks (pos k) m + (if ltb m.last_weekday k then 1 else 0)))
      × (length (days (negsuc 0) m) + (if eqb m.last_weekday 6 then 6 else 0)
          ≡ 7 * weeks (negsuc 0) m)
unfolding first_day next_rounds
length-days k m h week = (
  ground (arith, length_parts (pos k) m, h.last, h.weekday, h.some_day),
  ground (arith, length_parts (negsuc 0) m, h.last, h.weekday, h.some_day),
)

module _ {ℓ} {A : Type ℓ} where
  get_elem?-append :
      (xs ys : List A) (i : ℕ)
      → get_elem? (xs ++ ys) i
        ≡ (if ltb i (length xs) then get_elem? xs i else get_elem? ys (i - length xs))
  get_elem?-append [] ys i = ground arith
  get_elem?-append (x ∷ xs) ys zero = ground arith
  get_elem?-append (x ∷ xs) ys (suc i) = ground (arith, get_elem?-append xs ys i)

  get_elem?-drop : (j : ℕ) (xs : List A) (i : ℕ) → get_elem? (drop j xs) i ≡ get_elem? xs (j + i)
  get_elem?-drop zero xs i = ground arith
  get_elem?-drop (suc j) [] i = refl
  get_elem?-drop (suc j) (x ∷ xs) i = ground (arith, get_elem?-drop j xs i)

  get_elem?-take : (j : ℕ) (xs : List A) (i : ℕ) → i < j → get_elem? (take j xs) i ≡ get_elem? xs i
  get_elem?-take zero xs i h = absurd (omega (arith, h))
  get_elem?-take (suc j) [] i h = refl
  get_elem?-take (suc j) (x ∷ xs) zero h = refl
  get_elem?-take (suc j) (x ∷ xs) (suc i) h = ground (arith, get_elem?-take j xs i)

  -- A week that starts with another day.
  get_elem?-rotate :
      (j : ℕ) (names : List A) (c : ℕ)
      → length names ≡ 7
      → j ≤ 7
      → c < 7
      → get_elem? (drop j names ++ take j names) c ≡ get_elem? names ((c + j) % 7)
  get_elem?-rotate j names c seven hj hc =
      let size : length (drop j names) ≡ 7 - j = length-drop j names ∙ ap (λ n. n - j) seven in
      get_elem?-append (drop j names) (take j names) c ∙ elim (Bool-cases (ltb c (7 - j))) [
        | inl in_front ↦
            let place : j + c ≡ (c + j) % 7 = ground arith in
            rw (size, in_front) (get_elem?-drop j names c ∙ ap (get_elem? names) place)
        | inr behind ↦
            let place : c - (7 - j) ≡ (c + j) % 7 = ground arith in
            let past : 7 - j ≤ c = ground arith in
            rw (size, behind)
              (get_elem?-take j names (c - (7 - j)) (omega (arith, hc, past))
                ∙ ap (get_elem? names) place)
      ]

get_elem?-current_days :
    (date : ℕ → Text) (i n k : ℕ) (rest : List CalendarDay)
    → k < n
    → get_elem? (current_days date i n ++ rest) k
      ≡ some (record { day = i + k; is_current_month = true; date = some (date (i + k)) })
unfolding current_days
get_elem?-current_days date i zero k rest h = absurd (omega (arith, h))
get_elem?-current_days date i (suc n) zero rest h = ground arith
get_elem?-current_days date i (suc n) (suc k) rest h =
    let e : i + 1 + k ≡ i + suc k = omega arith in
    get_elem?-current_days date (i + 1) n k rest (omega (arith, h)) ∙ rw e refl

get_elem?-behind :
    {A : Type 0} (xs ys : List A) (i : ℕ) → get_elem? (xs ++ ys) (length xs + i) ≡ get_elem? ys i
get_elem?-behind xs ys i =
    let e : length xs + i - length xs ≡ i = omega arith in
    get_elem?-append xs ys (length xs + i) ∙ ground arith

-- A weekday, or a weekday before the week, as the offset.
abbrev pub IsOffset : ℤ → Type 0
IsOffset (pos k) = k < 7
IsOffset (negsuc k) = k < 7

week_days_lem :
    (offset : ℤ) (m : Month) (names : List Text) (i : ℕ)
    → IsMonth m
    → IsOffset offset
    → length names ≡ 7
    → get_elem? (week_days offset names) ((first_day offset m + i) % 7)
      ≡ get_elem? names ((m.first_weekday + i) % 7)
unfolding first_day week_days
week_days_lem (pos k) m names i h week seven =
    let place : ((m.first_weekday + 7 - k % 7) % 7 + i) % 7 < 7 = omega arith in
    let turn : (((m.first_weekday + 7 - k % 7) % 7 + i) % 7 + k) % 7 ≡ (m.first_weekday + i) % 7 =
      omega (arith, week, h.weekday) in
    get_elem?-rotate k names _ seven (omega (arith, week)) place ∙ ap (get_elem? names) turn
week_days_lem (negsuc k) m names i h week seven =
    let cut : length names - (k + 1) ≡ 6 - k = omega (arith, seven) in
    let place : ((m.first_weekday + k + 1) % 7 + i) % 7 < 7 = omega arith in
    let turn : (((m.first_weekday + k + 1) % 7 + i) % 7 + (6 - k)) % 7 ≡ (m.first_weekday + i) % 7 =
      omega (arith, week, h.weekday) in
    rw cut (get_elem?-rotate (6 - k) names _ seven (omega arith) place ∙ ap (get_elem? names) turn)

-- In a month whose weekdays are consistent, each day has a cell, in the column that is headed by the
-- name of its weekday, for an offset of the start of the week from -7 to 6 and seven names.
pub days-week_days :
    (offset : ℤ) (m : Month) (names : List Text) (i : ℕ)
    → IsMonth m
    → IsOffset offset
    → length names ≡ 7
    → i < m.day_in_month
    → (get_elem? (days offset m) (first_day offset m + i)
        ≡ some (record { day = 1 + i; is_current_month = true; date = some (m.date (1 + i)) }))
      × (get_elem? (week_days offset names) ((first_day offset m + i) % 7)
          ≡ get_elem? names ((m.first_weekday + i) % 7))
unfolding days
days-week_days offset m names i h week seven fits =
    let front = prev_days m.prev_month_days (first_day offset m) in
    let rest = current_days m.date 1 m.day_in_month ++ next_days 1 (next_rounds offset m) in
    let place : first_day offset m ≡ length front =
      sym (length-prev_days m.prev_month_days (first_day offset m)) in
    (
      ap (λ p. get_elem? (front ++ rest) (p + i)) place
          ∙ (get_elem?-behind front rest i
              ∙ get_elem?-current_days m.date 1 m.day_in_month i
                  (next_days 1 (next_rounds offset m)) fits),
      week_days_lem offset m names i h week seven,
    )
