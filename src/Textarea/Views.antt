-- ===== src/Textarea/Views.antt =====
-- A textarea as three parts: what stands before the selection, the selection, and what stands behind.
use collab_notes_ecs.Base.{
  ℕ, ◌+◌, ◌≤◌, Text, [], ◌++◌, ◌≡◌, ◌≢◌, arith, ap, ◌∙◌, length, length-append,
}
use collab_notes_ecs.Base.Slices.{slice-append}
use collab_notes_ecs.Textarea.{
  Area, IsClean, Dom, Editor, get_selected_content, get_cursor_position, write, write_selection_end,
}

-- The textarea shows these parts, the middle one selected.
pub record Shows (before selected after : Text) (a : Area) : Type 0 where
  pub value : a.value ≡ before ++ (selected ++ after)
  pub start : a.selection_start ≡ length before
  pub end : a.selection_end ≡ length before + length selected

-- The area that shows them.
abbrev pub showing : Text → Text → Text → Area
showing before selected after = record {
  value = before ++ (selected ++ after);
  selection_start = length before;
  selection_end = length before + length selected;
}

pub length_parts : (x y z : Text) → length (x ++ (y ++ z)) ≡ length x + length y + length z
length_parts x y z = omega (arith, length-append x (y ++ z), length-append y z)

module _ (before selected after : Text) (e : Editor) (h : Shows before selected after e.area) where
  pub get_selected_content_lem : get_selected_content e ≡ selected
  unfolding get_selected_content
  get_selected_content_lem = rw (h.value, h.start, h.end) (slice-append before selected after)

  pub get_cursor_position_lem : get_cursor_position e ≡ length before
  unfolding get_cursor_position
  get_cursor_position_lem = h.start

module _ (dom : Dom) where
  pub write_value : (t : Text) (e : Editor) → IsClean t → (write dom t e).area.value ≡ t
  unfolding write
  write_value t e clean = dom.value-set_value t e.area clean

  pub write_selection_end_value :
      (p : ℕ) (e : Editor) → (write_selection_end dom p e).area.value ≡ e.area.value
  unfolding write_selection_end
  write_selection_end_value p e = ap (λ (a : Area). a.value) (dom.set_selection_range_lem _ _ _)

  -- A new value puts the caret at its end, so that a new end of the selection moves both.
  pub write_caret :
      (t : Text) (p : ℕ) (e : Editor)
      → IsClean t
      → t ≢ e.area.value
      → p ≤ length t
      → ((write_selection_end dom p (write dom t e)).area.selection_start ≡ p)
        × ((write_selection_end dom p (write dom t e)).area.selection_end ≡ p)
  unfolding write write_selection_end
  write_caret t p e clean changed fits =
      let range =
        dom.set_selection_range_lem (dom.set_value t e.area).selection_start p
          (dom.set_value t e.area) in
      let value = ap (length {0}) (dom.value-set_value t e.area clean) in
      let caret = dom.caret-set_value t e.area clean changed in
      (
        ap (λ (a : Area). a.selection_start) range ∙ omega (arith, value, caret.0),
        ap (λ (a : Area). a.selection_end) range ∙ omega (arith, value),
      )

  -- A range inside the text is selected as it is given.
  pub select_range :
      (x y z : Text) (e : Editor)
      → e.area.value ≡ x ++ (y ++ z)
      → Shows x y z (dom.set_selection_range (length x) (length x + length y) e.area)
  select_range x y z e value =
      let fits : length e.area.value ≡ length x + length y + length z =
        ap (length {0}) value ∙ length_parts x y z in
      let range = dom.set_selection_range_lem (length x) (length x + length y) e.area in
      record {
        value = ap (λ (a : Area). a.value) range ∙ value;
        start = ap (λ (a : Area). a.selection_start) range ∙ omega (arith, fits);
        end = ap (λ (a : Area). a.selection_end) range ∙ omega (arith, fits);
      }

  -- So is the empty range.
  pub select_caret :
      (p : ℕ) (x z : Text) (e : Editor)
      → p ≡ length x
      → e.area.value ≡ x ++ z
      → Shows x [] z (dom.set_selection_range p p e.area)
  select_caret p x z e place value =
      let range = dom.set_selection_range_lem p p e.area in
      let sizes : length e.area.value ≡ length x + length z =
        ap (length {0}) value ∙ length-append x z in
      record {
        value = ap (λ (a : Area). a.value) range ∙ value;
        start = ap (λ (a : Area). a.selection_start) range ∙ omega (arith, sizes, place);
        end = ap (λ (a : Area). a.selection_end) range ∙ omega (arith, sizes, place);
      }
