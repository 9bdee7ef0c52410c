-- ===== src/Textarea/Words.antt =====
-- app/web/src/components/MemoEditor/Editor/TagSuggestions.tsx and CommandSuggestions.tsx: the word around
-- the caret, and `removeText` of it.
use collab_notes_ecs.Base.{
  ℕ, ◌-◌, Text, true, false, [], ◌∷◌, ◌++◌, ◌≡◌, ◌⊎◌, inl, inr, refl, arith, ◌∙◌, if◌then◌else◌,
  any, length, take, drop, length-append, append_assoc,
}
use collab_notes_ecs.Base.Slices.{take-append, drop-append}
use collab_notes_ecs.Textarea.{Area, Editor}
use collab_notes_ecs.Textarea.Shortcuts.{is_space}
use collab_notes_ecs.Textarea.Views.{Shows}

-- The match of `/\S*$/`, which starts as far to the left as it can.
unfoldable pub last_word : Text → Text
last_word [] = []
last_word (c ∷ s) = let rest = last_word s in if any is_space (c ∷ s) then rest else c ∷ s

-- The match of `/^\S*/`.
unfoldable pub first_word : Text → Text
first_word [] = []
first_word (c ∷ s) = let rest = first_word s in if is_space c then [] else c ∷ rest

unfoldable pub get_current_word : Area → Text × ℕ
get_current_word a =
    let cursor_pos = a.selection_end in
    let before = last_word (take cursor_pos a.value) in
    let after = first_word (drop cursor_pos a.value) in
    (before ++ after, length (take cursor_pos a.value) - length before)

-- A text without white space.
abbrev pub IsWord : Text → Type 0
IsWord w = any is_space w ≡ false

-- A text that a word can follow, and one that can follow a word.
abbrev pub IsBefore : Text → Type 0
IsBefore x = (x ≡ []) ⊎ ((x' : Text) × (c : ℕ) × (x ≡ x' ++ (c ∷ [])) × (is_space c ≡ true))

abbrev pub IsBehind : Text → Type 0
IsBehind y = (y ≡ []) ⊎ ((c : ℕ) × (y' : Text) × (y ≡ c ∷ y') × (is_space c ≡ true))

any-space : (x w : Text) (c : ℕ) → is_space c ≡ true → any is_space (x ++ (c ∷ w)) ≡ true
any-space [] w c h = rw h refl
any-space (d ∷ x) w c h = ground (arith, any-space x w c h)

last_word_whole : (w : Text) → IsWord w → last_word w ≡ w
unfolding last_word
last_word_whole [] h = refl
last_word_whole (c ∷ w) h = rw h refl

last_word_spaced :
    (x w : Text) (c : ℕ) → is_space c ≡ true → IsWord w → last_word (x ++ (c ∷ w)) ≡ w
unfolding last_word
last_word_spaced [] w c h word = rw (any-space [] w c h) (last_word_whole w word)
last_word_spaced (d ∷ x) w c h word = rw (any-space (d ∷ x) w c h) (last_word_spaced x w c h word)

last_word_lem : (x w : Text) → IsBefore x → IsWord w → last_word (x ++ w) ≡ w
last_word_lem x w (inl e) word = rw e (last_word_whole w word)
last_word_lem x w (inr (x', c, e, h)) word =
    rw (e, append_assoc x' (c ∷ []) w) (last_word_spaced x' w c h word)

first_word_lem : (w y : Text) → IsBehind y → IsWord w → first_word (w ++ y) ≡ w
unfolding first_word
first_word_lem [] y (inl e) word = rw e refl
first_word_lem [] y (inr (c, y', e, h)) word = rw (e, h) refl
first_word_lem (d ∷ w) y behind word = ground (arith, first_word_lem w y behind)

module _ (x left right y : Text) (e : Editor) (h : Shows (x ++ left) [] (right ++ y) e.area)
    (before : IsBefore x) (behind : IsBehind y) (left_word : IsWord left)
    (right_word : IsWord right) where
  -- The word around the caret is found, with the place where it starts.
  pub get_current_word_lem : get_current_word e.area ≡ (left ++ right, length x)
  unfolding get_current_word
  get_current_word_lem =
      let place : e.area.selection_end ≡ length (x ++ left) = h.end ∙ omega arith in
      let front : take e.area.selection_end e.area.value ≡ x ++ left =
        rw (place, h.value) (take-append (x ++ left) (right ++ y)) in
      let back : drop e.area.selection_end e.area.value ≡ right ++ y =
        rw (place, h.value) (drop-append (x ++ left) (right ++ y)) in
      let n : length (x ++ left) - length left ≡ length x = omega (arith, length-append x left) in
      rw
        (
          front,
          back,
          last_word_lem x left before left_word,
          first_word_lem right y behind right_word,
        )
        (rw n refl)
