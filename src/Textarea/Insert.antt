-- ===== src/Textarea/Insert.antt =====
-- app/web/src/components/MemoEditor/Editor/index.tsx: `insertText` and `removeText` on a view.
use collab_notes_ecs.Base.{
  ◌+◌, ◌<◌, ◌≤◌, Text, truthy, [], ◌∷◌, ◌++◌, ◌≡◌, ◌≢◌, refl, arith, sym, ap, ◌∙◌, if◌then◌else◌,
  length, take, drop, length-append, append_assoc, take-append-drop, length-take,
}
use collab_notes_ecs.Base.Slices.{slice, take-append, drop-append, drop-append-append, slice-append}
use collab_notes_ecs.Textarea.{
  IsClean, Dom, Editor, report, insert_text, write, write_selection_end,
}
use collab_notes_ecs.Textarea.Views.{
  Shows, length_parts, write_value, write_selection_end_value, write_caret,
}

-- The text that `insertText` puts between its prefix and its suffix.
abbrev pub inserted : Text → Text → Text
inserted content selected = if truthy content then content else selected

-- The value after `insertText` on a view.
abbrev pub value_after : Text → Text → Text → Text → Text → Text → Text
value_after content prefix suffix before selected after =
    before ++ (prefix ++ (inserted content selected ++ (suffix ++ after)))

module _ (dom : Dom) (before selected after content prefix suffix : Text) (e : Editor)
    (h : Shows before selected after e.area) where
  new_value_lem :
      take e.area.selection_start e.area.value
        ++ (prefix
            ++ ((if truthy content
                  then content
                  else slice e.area.selection_start e.area.selection_end e.area.value)
                ++ (suffix ++ drop e.area.selection_end e.area.value)))
      ≡ value_after content prefix suffix before selected after
  new_value_lem =
      rw (h.value, h.start, h.end)
        (rw
          (
            take-append before (selected ++ after),
            drop-append-append before selected after,
            slice-append before selected after,
          )
          refl)

  insert_text_steps :
      insert_text dom content prefix suffix e
      ≡ report (
          write_selection_end dom
            (length before + length selected + length prefix + length content)
            (write dom (value_after content prefix suffix before selected after) e))
  unfolding insert_text
  insert_text_steps = rw (← new_value_lem) (rw (← h.end) refl)

  pub insert_text_value :
      IsClean (value_after content prefix suffix before selected after)
      → (insert_text dom content prefix suffix e).area.value
        ≡ value_after content prefix suffix before selected after
  insert_text_value clean =
      rw insert_text_steps (write_selection_end_value dom _ _ ∙ write_value dom _ e clean)

  -- The caret moves by what the selection, the prefix and the content measure, within the text.
  insert_text_caret :
      IsClean (value_after content prefix suffix before selected after)
      → value_after content prefix suffix before selected after ≢ e.area.value
      → length before + length selected + length prefix + length content
        ≤ length (value_after content prefix suffix before selected after)
      → ((insert_text dom content prefix suffix e).area.selection_start
          ≡ length before + length selected + length prefix + length content)
        × ((insert_text dom content prefix suffix e).area.selection_end
            ≡ length before + length selected + length prefix + length content)
  insert_text_caret clean changed fits =
      rw insert_text_steps (write_caret dom _ _ e clean changed fits)

length-value_after :
    (content prefix suffix before selected after : Text)
    → length (value_after content prefix suffix before selected after)
      ≡ length before
        + length prefix
        + length (inserted content selected)
        + length suffix
        + length after
length-value_after content prefix suffix before selected after = omega (
  arith,
  length-append before (prefix ++ (inserted content selected ++ (suffix ++ after))),
  length-append prefix (inserted content selected ++ (suffix ++ after)),
  length-append (inserted content selected) (suffix ++ after),
  length-append suffix after,
)

pub inserted_truthy :
    (content selected : Text) → 0 < length content → inserted content selected ≡ content
inserted_truthy [] selected h = absurd (omega (arith, h))
inserted_truthy (c ∷ content) selected h = refl

regroup : (x y z w : Text) → x ++ (y ++ (z ++ w)) ≡ (x ++ (y ++ z)) ++ w
regroup x y z w = simp append_assoc

-- Texts that stand between the same texts are the same.
middle_inj : (x y y' z : Text) → x ++ (y ++ z) ≡ x ++ (y' ++ z) → y ≡ y'
middle_inj x y y' z e =
    let sizes = ap (length {0}) e in
    let same : length y ≡ length y' =
      omega (arith, sizes, length_parts x y z, length_parts x y' z) in
    let tails : y ++ z ≡ y' ++ z =
      sym (drop-append x (y ++ z)) ∙ (ap (drop (length x)) e ∙ drop-append x (y' ++ z)) in
    sym (take-append y z)
    ∙ (ap (take (length y)) tails ∙ (ap (λ n. take n (y' ++ z)) same ∙ take-append y' z))

-- Text that is not empty, put in at a caret, stands there between its prefix and its suffix, nothing
-- else changes, and the caret moves behind the text, in front of the suffix; the new value has no
-- carriage return.
pub insert_text_lem :
    (dom : Dom) (before after content prefix suffix : Text) (e : Editor)
    → Shows before [] after e.area
    → 0 < length content
    → IsClean (before ++ (prefix ++ (content ++ (suffix ++ after))))
    → Shows
        (before ++ (prefix ++ content))
        []
        (suffix ++ after)
        (insert_text dom content prefix suffix e).area
insert_text_lem dom before after content prefix suffix e h some_text clean =
    let same = inserted_truthy content [] some_text in
    let value : value_after content prefix suffix before [] after
        ≡ before ++ (prefix ++ (content ++ (suffix ++ after))) =
      rw same refl in
    let size = ap (length {0}) same in
    let sizes = length-value_after content prefix suffix before [] after in
    let old = ap (length {0}) h.value in
    let changed : value_after content prefix suffix before [] after ≢ e.area.value = λ same_value.
      omega (
        arith,
        ap (length {0}) same_value,
        sizes,
        size,
        old,
        length_parts before [] after,
        some_text,
      ) in
    let caret =
      insert_text_caret dom before [] after content prefix suffix e h (rw value clean) changed
        (omega (arith, sizes, size)) in
    let joined : length (before ++ (prefix ++ content))
        ≡ length before + length prefix + length content =
      omega (arith, length-append before (prefix ++ content), length-append prefix content) in
    record {
      value =
          insert_text_value dom before [] after content prefix suffix e h (rw value clean)
          ∙ (value ∙ regroup before prefix content (suffix ++ after));
      start = caret.0 ∙ omega (arith, joined);
      end = caret.1 ∙ omega (arith, joined);
    }

-- Text that replaces a selection, and is neither empty nor the selected text: the caret is set behind
-- it by the length of the selection, where so much text follows; the new value has no carriage return.
pub insert_text_over_selection :
    (dom : Dom) (before selected after content : Text) (e : Editor)
    → Shows before selected after e.area
    → 0 < length content
    → content ≢ selected
    → length selected ≤ length after
    → IsClean (before ++ (content ++ after))
    → Shows
        (before ++ (content ++ take (length selected) after))
        []
        (drop (length selected) after)
        (insert_text dom content [] [] e).area
insert_text_over_selection dom before selected after content e h some_text new fits clean =
    let same = inserted_truthy content selected some_text in
    let value : value_after content [] [] before selected after ≡ before ++ (content ++ after) =
      rw same refl in
    let size = ap (length {0}) same in
    let sizes = length-value_after content [] [] before selected after in
    let changed : value_after content [] [] before selected after ≢ e.area.value = λ same_value.
      new (middle_inj before content selected after (sym value ∙ (same_value ∙ h.value))) in
    let caret =
      insert_text_caret dom before selected after content [] [] e h (rw value clean) changed
        (omega (arith, sizes, size, fits)) in
    let cut : take (length selected) after ++ drop (length selected) after ≡ after =
      take-append-drop (length selected) after in
    let cut_size = length-take (length selected) after in
    let joined : length (before ++ (content ++ take (length selected) after))
        ≡ length before + length selected + length content =
      omega (arith, length_parts before content (take (length selected) after), cut_size, fits) in
    record {
      value =
          insert_text_value dom before selected after content [] [] e h (rw value clean)
          ∙ (value
              ∙ (ap (λ t. before ++ (content ++ t)) (sym cut)
                  ∙ regroup before content (take (length selected) after)
                      (drop (length selected) after)));
      start = caret.0 ∙ omega (arith, joined);
      end = caret.1 ∙ omega (arith, joined);
    }
