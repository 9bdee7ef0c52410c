-- ===== src/Hooks/Tests.antt =====
-- Two dialogs through a run of clicks.
use collab_notes_ecs.Base.{txt, List, [], ◌∷◌, ◌≡◌, ◌==◌, refl}
use collab_notes_ecs.Hooks.Dialogs.{
  Event, opened, closed, toggled, run, step, toggle_dialog, open_dialog, close_dialog,
}

abbrev clicks : List Event
clicks = opened (txt "edit") ∷ toggled (txt "create") ∷ closed (txt "edit") ∷ []

one_dialog : run clicks [] ≡ txt "create" ∷ []
unfolding run step toggle_dialog open_dialog close_dialog ◌==◌
one_dialog = refl
