-- ===== src/Hooks/Dialogs.antt =====
-- app/web/src/hooks/useDialog.ts: one dialog, and several with names. A `Set` is the list of its elements in
-- the order in which they were put in.
use collab_notes_ecs.Base.{
  Text, ◌==◌, ==_iff, Bool, true, false, not, List, [], ◌∷◌, ◌++◌, ◌≡◌, refl, arith, if◌then◌else◌,
  select, contains, Bool-cases, inl, inr, ◌∙◌,
}

-- `useDialog`: its state is whether it is open
unfoldable pub open_one : Bool → Bool
open_one is_open = true

unfoldable pub close_one : Bool → Bool
close_one is_open = false

unfoldable pub toggle_one : Bool → Bool
toggle_one is_open = not is_open

-- `useDialogs`: the names of the open dialogs
abbrev pub OpenDialogs : Type 0
OpenDialogs = List Text

unfoldable pub is_open : Text → OpenDialogs → Bool
is_open key open_dialogs = contains open_dialogs key

-- `new Set([...prev, key])`, and `delete`
unfoldable pub open_dialog : Text → OpenDialogs → OpenDialogs
open_dialog key open_dialogs =
    if contains open_dialogs key then open_dialogs else open_dialogs ++ key ∷ []

unfoldable pub close_dialog : Text → OpenDialogs → OpenDialogs
close_dialog key open_dialogs = select (λ k. not (k == key)) open_dialogs

unfoldable pub toggle_dialog : Text → OpenDialogs → OpenDialogs
unfolding open_dialog close_dialog
toggle_dialog key open_dialogs =
    if contains open_dialogs key
    then close_dialog key open_dialogs
    else open_dialog key open_dialogs

unfoldable pub set_open : Text → Bool → OpenDialogs → OpenDialogs
unfolding open_dialog close_dialog
set_open key true open_dialogs = open_dialog key open_dialogs
set_open key false open_dialogs = close_dialog key open_dialogs

unfoldable pub close_all : OpenDialogs → OpenDialogs
close_all open_dialogs = []

pub data Event : Type 0 where
  opened closed toggled : Text → Event
  set_to : Text → Bool → Event
  all_closed : Event

unfoldable pub step : Event → OpenDialogs → OpenDialogs
step (opened key) s = open_dialog key s
step (closed key) s = close_dialog key s
step (toggled key) s = toggle_dialog key s
step (set_to key b) s = set_open key b s
step all_closed s = close_all s

unfoldable pub run : List Event → OpenDialogs → OpenDialogs
run [] s = s
run (e ∷ es) s = run es (step e s)

-- What an event means for the dialog of one name that was open or not.
abbrev pub state_after : Event → Text → Bool → Bool
state_after (opened key) k b = if key == k then true else b
state_after (closed key) k b = if key == k then false else b
state_after (toggled key) k b = if key == k then not b else b
state_after (set_to key to) k b = if key == k then to else b
state_after all_closed k b = false

abbrev pub state_after_all : List Event → Text → Bool → Bool
state_after_all [] k b = b
state_after_all (e ∷ es) k b = state_after_all es k (state_after e k b)

contains-concat :
    (s : OpenDialogs) (key k : Text)
    → contains (s ++ key ∷ []) k ≡ (if key == k then true else contains s k)
contains-concat [] key k = ground arith
contains-concat (j ∷ s) key k = ground (arith, contains-concat s key k)

contains-open_dialog :
    (key k : Text) (s : OpenDialogs)
    → contains (open_dialog key s) k ≡ (if key == k then true else contains s k)
unfolding open_dialog
contains-open_dialog key k s = elim (Bool-cases (contains s key)) [
  | inl there ↦ rw there (ground (arith, ==_iff key k, there))
  | inr new ↦ rw new (contains-concat s key k)
]

contains-close_dialog :
    (key k : Text) (s : OpenDialogs)
    → contains (close_dialog key s) k ≡ (if key == k then false else contains s k)
unfolding close_dialog
contains-close_dialog key k [] = ground arith
contains-close_dialog key k (j ∷ s) =
    ground (arith, contains-close_dialog key k s, ==_iff j key, ==_iff j k, ==_iff key k)

contains-toggle_dialog :
    (key k : Text) (s : OpenDialogs)
    → contains (toggle_dialog key s) k ≡ (if key == k then not (contains s k) else contains s k)
unfolding toggle_dialog
contains-toggle_dialog key k s = elim (Bool-cases (contains s key)) [
  | inl there ↦ rw there (contains-close_dialog key k s ∙ ground (arith, ==_iff key k, there))
  | inr new ↦ rw new (contains-concat s key k ∙ ground (arith, ==_iff key k, new))
]

is_open-step :
    (e : Event) (k : Text) (s : OpenDialogs) → is_open k (step e s) ≡ state_after e k (is_open k s)
unfolding is_open step set_open close_all
is_open-step (opened key) k s = contains-open_dialog key k s
is_open-step (closed key) k s = contains-close_dialog key k s
is_open-step (toggled key) k s = contains-toggle_dialog key k s
is_open-step (set_to key true) k s = contains-open_dialog key k s
is_open-step (set_to key false) k s = contains-close_dialog key k s
is_open-step all_closed k s = refl

-- After any operations on named dialogs, each dialog is as if it were a switch of its own that only
-- the operations on its name, and the closing of all, have set.
pub is_open-run :
    (es : List Event) (k : Text) (s : OpenDialogs)
    → is_open k (run es s) ≡ state_after_all es k (is_open k s)
unfolding run
is_open-run [] k s = refl
is_open-run (e ∷ es) k s = is_open-run es k (step e s) ∙ rw (is_open-step e k s)
