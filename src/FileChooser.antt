-- ===== src/FileChooser.antt =====
-- The dialog that asks for a configuration file to save or to load: `f_showFileChooserDialog` and
-- `f_getFileChooserDialogInput` of src/client/Vyatta/js/vyatta-panels.js. The texts of its inputs are
-- arguments.
use vyatta_webgui.Base.{
  ◌≡◌, refl, Bool, true, false, not, ◌&&◌, Option, none, some, List, [], ◌∷◌, ◌++◌, ltb, ◌==◌,
  if◌then◌else◌, length,
}
use vyatta_webgui.Text.{Text, codes, text_eq, contains, split}

-- `w[w.length-1]`
abbrev pub last_of : List Text → Text
last_of [] = []
last_of (w ∷ []) = w
last_of (w ∷ (v ∷ words)) = last_of (v ∷ words)

-- The loop over the lines of a listing: the names of the files.
unfoldable pub listed_files : List Text → List Text
listed_files [] = []
listed_files (line ∷ lines) =
    let rest = listed_files lines in
    if contains (codes "-r") line then last_of (split (codes " ") line) ∷ rest else rest

unfoldable pub file_choices : Option Text → List Text
file_choices none = codes "select filename" ∷ []
file_choices (some values) = codes "select filename" ∷ listed_files (split (codes "\n") values)

-- What the combobox holds: what was typed last, else what was chosen.
unfoldable pub chosen_file : (last_query : Option Text) → (value : Text) → Text
chosen_file none value = value
chosen_file (some query) value = if length query == 0 then value else query

unfoldable pub get_file_chooser_dialog_input : (first_radio : Bool) → (chosen typed : Text) → Text
get_file_chooser_dialog_input first_radio chosen typed =
    if first_radio && not (text_eq chosen (codes "select filename"))
    then codes " '" ++ (codes "/opt/vyatta/etc/config/" ++ (chosen ++ codes "' "))
    else if not first_radio && ltb 0 (length typed)
    then codes " '" ++ (typed ++ codes "'")
    else []

-- What the button OK does.
pub data OkClick : Type 0 where
  asks_first : (title text : Text) → OkClick
  sends : Text → OkClick
  complains : (title text : Text) → OkClick

unfoldable pub ok_click : (command input : Text) → OkClick
ok_click command input =
    if not (length input == 0)
    then (if text_eq command (codes "load")
        then asks_first (codes "Re-load Configuration") (
            codes "Are you sure you wish to load the selected configuration file: "
            ++ (input ++ codes "?"))
        else sends (command ++ input))
    else complains (command ++ codes " configuration")
        (codes "Please select or enter a configuration filename.")

-- The answer to the question: the command that is sent, if it is yes or there was none.
unfoldable pub answer_click : Option Text → (command input : Text) → Option Text
answer_click none command input = some (command ++ input)
answer_click (some btn) command input =
    if text_eq btn (codes "yes") then some (command ++ input) else none

-- With nothing chosen and nothing typed the button only complains.
nothing_chosen :
    (first_radio : Bool) (command : Text)
    → ok_click command (get_file_chooser_dialog_input first_radio (codes "select filename") [])
      ≡ complains
          (command ++ codes " configuration")
          (codes "Please select or enter a configuration filename.")
unfolding ok_click get_file_chooser_dialog_input text_eq
nothing_chosen true command = refl
nothing_chosen false command = refl
