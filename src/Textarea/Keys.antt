-- ===== src/Textarea/Keys.antt =====
-- app/web/src/components/MemoEditor/Editor/TagSuggestions.tsx and CommandSuggestions.tsx: how the keys move
-- through the list.
use collab_notes_ecs.Base.{
  ℕ, ◌+◌, ◌-◌, ◌<◌, ◌%◌, Text, txt, ◌==◌, true, List, ◌≡◌, arith, ap, ◌∙◌, length,
}
use collab_notes_ecs.Textarea.{Dom, Editor}
use collab_notes_ecs.Textarea.Suggestions.{Popup, Handled, autocomplete_tag, handle_key_down}

-- The selected suggestion is one of the list, and stays so whatever key is pressed.
handle_key_down-selected :
    (dom : Dom) (suggestions : List Text) (code : Text) (p : Popup) (e : Editor)
    → p.selected < length suggestions
    → (handle_key_down (autocomplete_tag dom) suggestions code p e).popup.selected
      < length suggestions
unfolding handle_key_down autocomplete_tag
handle_key_down-selected dom suggestions code p e h = ground arith

down_then_up : (n k : ℕ) → k < n → ((k + 1) % n + n - 1) % n ≡ k
down_then_up n k h = grind arith

up_then_down : (n k : ℕ) → k < n → ((k + n - 1) % n + 1) % n ≡ k
up_then_down n k h = grind arith

-- What an arrow key leaves.
abbrev turned : Popup → Editor → ℕ → Handled
turned p e k = record { popup = record p { selected = k }; editor = e; prevented = true }

module _ (dom : Dom) (suggestions : List Text) (p : Popup) (e : Editor) (shown : p.shown ≡ true)
    (h : 0 < length suggestions) where
  arrow_down :
      handle_key_down (autocomplete_tag dom) suggestions (txt "ArrowDown") p e
      ≡ turned p e ((p.selected + 1) % length suggestions)
  unfolding handle_key_down ◌==◌
  arrow_down = ground arith

  arrow_up :
      handle_key_down (autocomplete_tag dom) suggestions (txt "ArrowUp") p e
      ≡ turned p e ((p.selected + length suggestions - 1) % length suggestions)
  unfolding handle_key_down ◌==◌
  arrow_up = ground arith

-- While the list is shown, the arrow keys undo each other.
handle_key_down-handle_key_down :
    (dom : Dom) (suggestions : List Text) (p : Popup) (e : Editor)
    → p.shown ≡ true
    → p.selected < length suggestions
    → (handle_key_down
          (autocomplete_tag dom)
          suggestions
          (txt "ArrowUp")
          (handle_key_down (autocomplete_tag dom) suggestions (txt "ArrowDown") p e).popup
          e
        ≡ record { popup = p; editor = e; prevented = true })
      × (handle_key_down
            (autocomplete_tag dom)
            suggestions
            (txt "ArrowDown")
            (handle_key_down (autocomplete_tag dom) suggestions (txt "ArrowUp") p e).popup
            e
          ≡ record { popup = p; editor = e; prevented = true })
handle_key_down-handle_key_down dom suggestions p e shown h =
    let n = length suggestions in
    let some_suggestion : 0 < n = omega (arith, h) in
    (
      rw (arrow_down dom suggestions p e shown some_suggestion) (
          arrow_up dom suggestions (record p { selected = (p.selected + 1) % n }) e shown
            some_suggestion
          ∙ ap (turned p e) (down_then_up n p.selected h)),
      rw (arrow_up dom suggestions p e shown some_suggestion) (
          arrow_down dom suggestions (record p { selected = (p.selected + n - 1) % n }) e shown
            some_suggestion
          ∙ ap (turned p e) (up_then_down n p.selected h)),
    )
