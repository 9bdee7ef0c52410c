-- ===== src/Pages/Conditions.antt =====
-- The filters of the pages under app/web/src/pages, as the server's filter language reads them.
use collab_notes_ecs.Base.{Text, txt, [], ◌∷◌, ◌++◌, ◌≡◌, ap, ◌∙◌, arith}
use collab_notes_ecs.Base.Split.{split, Without, split-append, split_plain}
use collab_notes_ecs.Pages.{content_condition, tag_condition}

-- A value without a quotation mark stands whole in the one literal of its condition.
split-content_condition :
    (value : Text)
    → Without b'"' value
    → split b'"' (content_condition value) ≡ txt "content.contains(" ∷ value ∷ txt ")" ∷ []
split-content_condition value h =
    split-append b'"' (txt "content.contains(") (value ++ txt "\")") (omega arith)
    ∙ ap (λ l. txt "content.contains(" ∷ l)
        (split-append b'"' value (txt ")") h
          ∙ ap (λ l. value ∷ l) (split_plain b'"' (txt ")") (omega arith)))

split-tag_condition :
    (value : Text)
    → Without b'"' value
    → split b'"' (tag_condition value) ≡ txt "tag in [" ∷ value ∷ txt "]" ∷ []
split-tag_condition value h =
    split-append b'"' (txt "tag in [") (value ++ txt "\"]") (omega arith)
    ∙ ap (λ l. txt "tag in [" ∷ l)
        (split-append b'"' value (txt "]") h
          ∙ ap (λ l. value ∷ l) (split_plain b'"' (txt "]") (omega arith)))

-- A condition that searches a value without a quotation mark has exactly one literal, which is the value:
-- cut at its quotation marks, it has three parts, and the value is the second.
split-condition :
    (value : Text)
    → Without b'"' value
    → (split b'"' (content_condition value) ≡ txt "content.contains(" ∷ value ∷ txt ")" ∷ [])
      × (split b'"' (tag_condition value) ≡ txt "tag in [" ∷ value ∷ txt "]" ∷ [])
split-condition value h = (split-content_condition value h, split-tag_condition value h)
