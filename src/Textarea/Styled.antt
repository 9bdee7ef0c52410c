-- ===== src/Textarea/Styled.antt =====
-- app/web/src/components/MemoEditor/handlers.ts: what the shortcuts do to a view.
use collab_notes_ecs.Base.{
  ◌+◌, ◌-◌, ◌*◌, ◌<◌, Text, txt, ◌==◌, ==_refl, starts_with, true, false, none, some, [], ◌∷◌, ◌++◌,
  ◌≡◌, refl, ◌∙◌, arith, leb, ltb, length, length-append, append_assoc,
}
use collab_notes_ecs.Base.Slices.{slice, drop-append, slice-append}
use collab_notes_ecs.Textarea.{IsClean, Dom, Editor, insert_text, set_cursor_position}
use collab_notes_ecs.Textarea.Views.{
  Shows, length_parts, select_range, get_selected_content_lem, get_cursor_position_lem,
}
use collab_notes_ecs.Textarea.Insert.{insert_text_value, value_after, inserted_truthy}
use collab_notes_ecs.Textarea.Shortcuts.{
  ends_with, is_url, trim, uint32_sub, delimited, hyperlink_highlighted_text,
  style_highlighted_text,
}

starts_with-append : (p s : Text) → starts_with (p ++ s) p ≡ true
unfolding starts_with
starts_with-append [] [] = refl
starts_with-append [] (c ∷ s) = refl
starts_with-append (c ∷ p) s = ground (arith, starts_with-append p s)

ends_with-append : (s p : Text) → ends_with (s ++ p) p ≡ true
unfolding ends_with
ends_with-append s p =
    let n : length (s ++ p) - length p ≡ length s = omega (arith, length-append s p) in
    let fits : leb (length p) (length (s ++ p)) ≡ true = ground (arith, length-append s p) in
    rw (fits, n, drop-append s p) (==_refl p)

delimited_lem : (d m : Text) → delimited d (d ++ (m ++ d)) ≡ true
unfolding delimited
delimited_lem d m =
    rw (starts_with-append d (m ++ d)) (rw (← append_assoc d m d) (ends_with-append (d ++ m) d))

module _ (dom : Dom) (before selected after : Text) (e : Editor)
    (h : Shows before selected after e.area) where
  -- Where the inserted text ends up, and a range of it selected.
  select_inserted :
      (x y z content : Text)
      → 0 < length content
      → IsClean (before ++ (content ++ after))
      → before ++ (content ++ after) ≡ x ++ (y ++ z)
      → Shows x y z
          (set_cursor_position dom
            (length x)
            (some (length x + length y))
            (insert_text dom content [] [] e)).area
  unfolding set_cursor_position
  select_inserted x y z content some_text clean value =
      let same : value_after content [] [] before selected after ≡ before ++ (content ++ after) =
        rw (inserted_truthy content selected some_text) refl in
      select_range dom x y z (insert_text dom content [] [] e) (
        insert_text_value dom before selected after content [] [] e h (rw same clean)
        ∙ (same ∙ value))

  pub style_bare :
      (d : Text)
      → 0 < length d
      → delimited d selected ≡ false
      → IsClean (before ++ ((d ++ (selected ++ d)) ++ after))
      → Shows (before ++ d) selected (d ++ after) (style_highlighted_text dom d e).area
  unfolding style_highlighted_text
  style_bare d some_d bare clean =
      let moved : length (before ++ d) ≡ length before + length d = length-append before d in
      let shown =
        select_inserted (before ++ d) selected (d ++ after) (d ++ (selected ++ d))
          (omega (arith, length-append d (selected ++ d), some_d)) clean (simp append_assoc) in
      rw
        (
          get_cursor_position_lem before selected after e h,
          get_selected_content_lem before selected after e h,
        )
        (rw bare (rw (← moved) shown))

module _ (dom : Dom) (before inner after d : Text) (e : Editor)
    (h : Shows before (d ++ (inner ++ d)) after e.area) where
  pub style_delimited :
      0 < length inner
      → IsClean (before ++ (inner ++ after))
      → Shows before inner after (style_highlighted_text dom d e).area
  unfolding style_highlighted_text uint32_sub
  style_delimited some_inner clean =
      let size : length (d ++ (inner ++ d)) ≡ length d + length inner + length d =
        length_parts d inner d in
      let stripped : slice (length d) (length (d ++ (inner ++ d)) - length d) (d ++ (inner ++ d))
          ≡ inner =
        let n : length (d ++ (inner ++ d)) - length d ≡ length d + length inner =
          omega (arith, size) in
        rw n (slice-append d inner d) in
      let enough : ltb (length before + length (d ++ (inner ++ d))) (length d * 2) ≡ false =
        ground (arith, size) in
      let end : length before + length (d ++ (inner ++ d)) - length d * 2
          ≡ length before + length inner =
        omega (arith, size) in
      rw
        (
          get_cursor_position_lem before (d ++ (inner ++ d)) after e h,
          get_selected_content_lem before (d ++ (inner ++ d)) after e h,
        )
        (rw (delimited_lem d inner, stripped, enough, end)
          (select_inserted dom before (d ++ (inner ++ d)) after e h before inner after inner
            some_inner clean refl))

-- A selection that carries the delimiter at both ends loses it and stays selected without it, and the
-- shortcut pressed again gives the delimiters back. The text between is not empty and does not carry
-- the delimiter itself, the delimiter is not empty, and both values have no carriage return.
pub style-style :
    (dom : Dom) (before inner after d : Text) (e : Editor)
    → Shows before (d ++ (inner ++ d)) after e.area
    → 0 < length d
    → 0 < length inner
    → delimited d inner ≡ false
    → IsClean (before ++ ((d ++ (inner ++ d)) ++ after))
    → IsClean (before ++ (inner ++ after))
    → Shows before inner after (style_highlighted_text dom d e).area
      × Shows
          (before ++ d)
          inner
          (d ++ after)
          (style_highlighted_text dom d (style_highlighted_text dom d e)).area
style-style dom before inner after d e h some_d some_inner bare clean clean' =
    let once = style_delimited dom before inner after d e h some_inner clean' in
    (
      once,
      style_bare dom before inner after (style_highlighted_text dom d e) once d some_d bare clean,
    )

-- The link shortcut on a selection that is no URL makes it the text of a link, and selects the
-- placeholder of the address.
hyperlink_highlighted_text_lem :
    (dom : Dom) (before selected after : Text) (e : Editor)
    → Shows before selected after e.area
    → is_url (trim selected) ≡ false
    → IsClean (before ++ ((txt "[" ++ (selected ++ (txt "](" ++ (txt "url" ++ txt ")")))) ++ after))
    → Shows
        (before ++ (txt "[" ++ (selected ++ txt "](")))
        (txt "url")
        (txt ")" ++ after)
        (hyperlink_highlighted_text dom none e).area
unfolding hyperlink_highlighted_text ◌==◌
hyperlink_highlighted_text_lem dom before selected after e h plain clean =
    let label = txt "[" ++ (selected ++ txt "](") in
    let moved : length (before ++ (txt "[" ++ (selected ++ txt "](")))
        ≡ length before + length selected + 3 =
      omega (
        arith,
        length-append before (txt "[" ++ (selected ++ txt "](")),
        length-append selected (txt "]("),
      ) in
    let shown =
      select_inserted dom before selected after e h (before ++ label) (txt "url") (txt ")" ++ after)
        (txt "[" ++ (selected ++ (txt "](" ++ (txt "url" ++ txt ")")))) (omega arith) clean
        (simp append_assoc) in
    rw
      (
        get_cursor_position_lem before selected after e h,
        get_selected_content_lem before selected after e h,
      )
      (rw plain (rw (← moved) shown))
