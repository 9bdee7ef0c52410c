-- ===== src/Textarea/Reported.antt =====
-- app/web/src/components/MemoEditor/Editor/index.tsx and its callers: what the editor tells its parent.
use collab_notes_ecs.Base.{ℕ, Text, Option, List, [], ◌∷◌, ◌≡◌, refl, sym, ap, ◌∙◌, get_or}
use collab_notes_ecs.Textarea.{
  Area, IsClean, Dom, Editor, insert_text, remove_text, set_content, set_cursor_position, set_line,
  handle_editor_input, mount,
}
use collab_notes_ecs.Textarea.Views.{write_value}

-- What the parent was told is what the textarea holds.
abbrev pub IsReported : Editor → Type 0
IsReported e = e.reported ≡ e.area.value

-- What can happen to the editor: input of the browser, and its actions, which the toolbar, the shortcuts
-- and the completions call.
pub data Action : Type 0 where
  input : Area → Action
  insert : Text → Text → Text → Action
  remove : ℕ → ℕ → Action
  replace : Text → Action
  move_caret : ℕ → Option ℕ → Action
  replace_line : ℕ → Text → Action

unfoldable pub act : Dom → Action → Editor → Editor
act dom (input area) e = handle_editor_input area e
act dom (insert content prefix suffix) e = insert_text dom content prefix suffix e
act dom (remove start length) e = remove_text dom start length e
act dom (replace text) e = set_content dom text e
act dom (move_caret start end) e = set_cursor_position dom start end e
act dom (replace_line line_number text) e = set_line dom line_number text e

unfoldable pub run : Dom → List Action → Editor → Editor
run dom [] e = e
run dom (a ∷ actions) e = run dom actions (act dom a e)

act-IsReported : (dom : Dom) (a : Action) (e : Editor) → IsReported e → IsReported (act dom a e)
unfolding act handle_editor_input insert_text remove_text set_content set_cursor_position set_line
act-IsReported dom (input area) e h = refl
act-IsReported dom (insert content prefix suffix) e h = refl
act-IsReported dom (remove start length) e h = refl
act-IsReported dom (replace text) e h = refl
act-IsReported dom (move_caret start end) e h =
    h
    ∙ sym (ap (λ (a : Area). a.value) (dom.set_selection_range_lem start (get_or end start) e.area))
act-IsReported dom (replace_line line_number text) e h = refl

run_keeps :
    (dom : Dom) (actions : List Action) (e : Editor) → IsReported e → IsReported (run dom actions e)
unfolding run
run_keeps dom [] e h = h
run_keeps dom (a ∷ actions) e h = run_keeps dom actions (act dom a e) (act-IsReported dom a e h)

mount-IsReported :
    (dom : Dom) (initial : Text) (e : Editor)
    → IsClean initial
    → IsReported e
    → IsReported (mount dom initial e)
unfolding mount
mount-IsReported dom [] e clean h = h
mount-IsReported dom (c ∷ t) e clean h = sym (write_value dom (c ∷ t) e clean)

-- From an editor that its parent knows, and an initial text without carriage returns, whatever is typed
-- and whatever actions run, the parent was last told what the textarea holds.
pub run-IsReported :
    (dom : Dom) (initial : Text) (actions : List Action) (e : Editor)
    → IsReported e
    → IsClean initial
    → IsReported (run dom actions (mount dom initial e))
run-IsReported dom initial actions e h clean =
    run_keeps dom actions (mount dom initial e) (mount-IsReported dom initial e clean h)
