-- ===== src/Textarea/Tests.antt =====
-- Runs of the editor on a textarea that keeps every value as it is.
use collab_notes_ecs.Base.{
  min, Text, txt, ◌==◌, ==_refl, ==_of_ne, starts_with, true, false, none, some, List, [], ◌∷◌,
  ◌++◌, ◌≡◌, ◌≢◌, inl, inr, refl, arith, if◌then◌else◌, eq_of_==, Bool-cases, any, sym, length,
}
use collab_notes_ecs.Textarea.{Area, IsClean, Dom, Editor, insert_text, mount}
use collab_notes_ecs.Textarea.Views.{Shows, showing}
use collab_notes_ecs.Textarea.Insert.{insert_text_lem}
use collab_notes_ecs.Textarea.Reported.{Action, IsReported, run, run-IsReported}
use collab_notes_ecs.Textarea.Shortcuts.{is_space, ends_with, delimited, style_highlighted_text}
use collab_notes_ecs.Textarea.Styled.{style-style}
use collab_notes_ecs.Textarea.Suggestions.{Popup, Command, complete_tag}
use collab_notes_ecs.Textarea.Menu.{
  has_checkbox, digits, number_marker, dash_marker, change_line, handle_checkbox_click,
}
use collab_notes_ecs.Textarea.Checkbox.{handle_checkbox_click-handle_checkbox_click}
use collab_notes_ecs.Textarea.Enter.{Nodes, Node}
use collab_notes_ecs.Textarea.Completed.{complete_tag_lem}

abbrev set_plain : Text → Area → Area
set_plain t a =
    if t == a.value
    then a
    else record { value = t; selection_start = length t; selection_end = length t }

set_plain_value : (t : Text) (a : Area) → IsClean t → (set_plain t a).value ≡ t
set_plain_value t a clean = elim (Bool-cases (t == a.value)) [
  | inl same ↦ rw same (sym (eq_of_== t a.value same))
  | inr other ↦ rw other refl
]

set_plain_same : (a : Area) → set_plain a.value a ≡ a
set_plain_same a = rw (==_refl a.value) refl

set_plain_caret :
    (t : Text) (a : Area)
    → IsClean t
    → t ≢ a.value
    → ((set_plain t a).selection_start ≡ length t) × ((set_plain t a).selection_end ≡ length t)
set_plain_caret t a clean ne = rw (==_of_ne t a.value ne) (refl, refl)

abbrev plain : Dom
plain = record {
  set_value = set_plain;
  set_selection_range = λ start end a. record a {
    selection_start = min start (min end (length a.value));
    selection_end = min end (length a.value);
  };
  value-set_value = set_plain_value;
  set_value_same = set_plain_same;
  caret-set_value = set_plain_caret;
  set_selection_range_lem = λ start end a. refl;
}

abbrev editing : Text → Text → Text → Editor
editing before selected after = record { area = showing before selected after; reported = [] }

abbrev shown :
    (before selected after : Text) → Shows before selected after (showing before selected after)
shown before selected after = record { value = refl; start = refl; end = refl }

insert_text_lem_example :
    Shows
      (txt "ab" ++ (txt "[" ++ txt "x"))
      []
      (txt "]" ++ txt "c")
      (insert_text plain (txt "x") (txt "[") (txt "]") (editing (txt "ab") [] (txt "c"))).area
insert_text_lem_example =
    insert_text_lem plain (txt "ab") (txt "c") (txt "x") (txt "[") (txt "]")
      (editing (txt "ab") [] (txt "c")) (shown (txt "ab") [] (txt "c")) (omega arith) (omega arith)

run-IsReported_example : IsReported (
    run plain
      (Action.insert (txt "b") [] [] ∷ Action.move_caret 1 none ∷ Action.remove 0 1 ∷ [])
      (mount plain (txt "a") (editing [] [] [])))
run-IsReported_example =
    run-IsReported plain (txt "a")
      (Action.insert (txt "b") [] [] ∷ Action.move_caret 1 none ∷ Action.remove 0 1 ∷ [])
      (editing [] [] []) refl (omega arith)

bare_word : delimited (txt "*") (txt "b") ≡ false
unfolding delimited starts_with ends_with ◌==◌
bare_word = refl

style-style_example :
    Shows
      (txt "a")
      (txt "b")
      (txt "c")
      (style_highlighted_text plain (txt "*") (editing (txt "a") (txt "*b*") (txt "c"))).area
    × Shows
        (txt "a*")
        (txt "b")
        (txt "*c")
        (style_highlighted_text plain
          (txt "*")
          (style_highlighted_text plain (txt "*") (editing (txt "a") (txt "*b*") (txt "c")))).area
style-style_example =
    style-style plain (txt "a") (txt "b") (txt "c") (txt "*")
      (editing (txt "a") (txt "*b*") (txt "c")) (shown (txt "a") (txt "*b*") (txt "c"))
      (omega arith) (omega arith) bare_word (omega arith) (omega arith)

no_space_wo : any is_space (txt "#wo") ≡ false
unfolding is_space
no_space_wo = refl

no_space_rd : any is_space (txt "rd") ≡ false
unfolding is_space
no_space_rd = refl

space_is_space : is_space b' ' ≡ true
unfolding is_space
space_is_space = refl

complete_tag_lem_example :
    Shows
      (txt "a #work")
      []
      (txt " b")
      (complete_tag plain (txt "work") (editing (txt "a #wo") [] (txt "rd b"))).area
complete_tag_lem_example =
    complete_tag_lem plain (txt "a ") (txt "#wo") (txt "rd") (txt " b")
      (editing (txt "a #wo") [] (txt "rd b")) (shown (txt "a #wo") [] (txt "rd b"))
      (inr (txt "a", b' ', refl, space_is_space)) (inr (b' ', txt "b", refl, space_is_space))
      no_space_wo no_space_rd (omega arith) (txt "work") (omega arith)

abbrev highlight : Command
highlight = record {
  name = txt "highlight";
  description = none;
  run = txt "==text==";
  cursor_offset = some 2;
}

abbrev at_first : Popup
at_first = record { shown = true; selected = 0 }

abbrev two_tags : List Text
two_tags = txt "work" ∷ txt "home" ∷ []

abbrev two_lines : Editor
two_lines = editing (b'\n' ∷ txt "he") [] (txt "re")

bare_line : has_checkbox (txt "here") ≡ false
unfolding has_checkbox starts_with
bare_line = refl

no_number : number_marker (txt "here") ≡ none
unfolding number_marker digits
no_number = refl

no_dash : dash_marker (txt "here") ≡ none
unfolding dash_marker starts_with
no_dash = refl

handle_checkbox_click-handle_checkbox_click_example :
    Shows (b'\n' ∷ txt "- [ ] he") [] (txt "re") (handle_checkbox_click plain two_lines).area
    × Shows
        (b'\n' ∷ txt "he")
        []
        (txt "re")
        (handle_checkbox_click plain (handle_checkbox_click plain two_lines)).area
handle_checkbox_click-handle_checkbox_click_example =
    handle_checkbox_click-handle_checkbox_click plain ([] ∷ []) (txt "he") (txt "re") none two_lines
      (shown (b'\n' ∷ txt "he") [] (txt "re")) (omega arith) (omega arith) (omega arith)
      (omega arith) (omega arith) bare_line no_number no_dash

-- A dash in the middle of a line is taken for a marker.
dash_inside : (change_line (txt "a - b")).new_line ≡ txt "a - [ ] b"
unfolding change_line has_checkbox number_marker dash_marker digits starts_with
dash_inside = refl

abbrev an_item : Nodes
an_item = Nodes.cons (Node.list (Nodes.cons (Node.task_list_item (txt "-")) Nodes.nil)) Nodes.nil

-- Enter behind an indented task; the browser has put in the line feed.
abbrev a_line : Text
a_line = txt "  " ++ txt "- [x] a"
