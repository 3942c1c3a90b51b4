-- ===== src/Form.antt =====
-- The form of a configuration node: what `f_sendConfFormCommand` of
-- src/client/Vyatta/utils/vyatta-cli-command.js sends for each field, one request after the other, and
-- how the responses are noted (`f_saveConfFormCommandSentError`, `f_handleConfFormCommandDone`).
pub mod Answers
pub mod Running
pub mod Skipping
pub mod Bounds
use vyatta_webgui.Replace.{replace}
use vyatta_webgui.Values.{Value, loosely_equal, shown}
use vyatta_webgui.Base.{
  ℕ, zero, suc, ◌+◌, ◌-◌, ◌*◌, ◌≤◌, ◌<◌, ◌≡◌, refl, sym, ap, ◌∙◌, ◌≢◌, ◌↔◌, ◌⊎◌, inl, inr, Bool,
  true, false, not, ◌&&◌, ◌||◌, Option, none, some, List, [], ◌∷◌, ◌++◌, map, append_assoc,
  append-nil, arith, ltb, leb, ◌==◌, if◌then◌else◌, Bool-cases, Option-cases, is_some, length,
  get_elem?, drop, take, any, all, All, All-append, length-append, ==_iff, ==_refl, lt→ltb, ltb→lt,
}
use vyatta_webgui.Text.{Text, codes, text_eq, count, contains, index_of, replace_first, split}
use vyatta_webgui.Text.Equality.{text_eq_iff, text_eq_refl}
use vyatta_webgui.Grid.{
  GridStore, is_edit_grid_dirty, get_edit_grid_checker_values, get_edit_grid_values,
}

-- A field by its type in the toolkit, with the value it shows and its original value. A grid has the
-- values of its node.
pub data Field : Type 0 where
  text_field : (original value : Text) → Field
  number_field : (original value : Value) → Field
  combo : (original value : Text) → Field
  editor_grid : (store : GridStore) (values : Option (List Text)) → Field
  checkbox : (original value : Bool) → Field
  other_field : Field

-- An item of the form: the panel of a field with the markup of its label, or the submit button.
pub data Item : Type 0 where
  field_panel : (label : Text) (field : Field) → Item
  submit_button : Item

-- A text with a space that is not its first character is put in quotes.
abbrev pub has_inner_space : Text → Bool
has_inner_space value = elim (index_of (codes " ") value) [ none ↦ false | some i ↦ ltb 0 i ]

unfoldable pub quoted : Text → Text
quoted value = if has_inner_space value then codes "'" ++ (value ++ codes "'") else value

abbrev pub required_img : Text
required_img = codes " <img title=\"required field\" src=\"images/ico_required.PNG\"/>"

-- The name of the field, from the markup of its label; no name for a node with many values.
unfoldable pub field_name : Bool → Text → Text
field_name multi label =
    replace_first required_img []
      (if multi then [] else replace_first (codes ":") (codes " ") label)

-- The path of the selected node, with the space in front that separates it from the verb.
unfoldable pub sel_path : Text → Text
sel_path path = replace_first (codes " Configuration") [] path

-- The only command of a field with one value.
unfoldable pub value_command : Text → Text → Text → Text
value_command path label value =
    if length value == 0
    then codes "delete" ++ (path ++ (codes " " ++ (label ++ value)))
    else codes "set" ++ (path ++ (codes " " ++ (label ++ value)))

-- The commands of a grid with boxes to check.
unfoldable pub checker_commands : Text → Text → List (Text × Bool) → List Text
checker_commands path label [] = []
checker_commands path label ((val, checked) ∷ changes) =
    (if checked
      then codes "set " ++ (path ++ (codes " " ++ (label ++ val)))
      else codes "delete " ++ (path ++ (codes " " ++ (label ++ val))))
    ∷ checker_commands path label changes

unfoldable pub set_commands : Text → Text → List Text → List Text
set_commands path label [] = []
set_commands path label (val ∷ values) =
    (codes "set " ++ (path ++ (codes " " ++ (label ++ val)))) ∷ set_commands path label values

abbrev pub enabled : Bool → Text
enabled true = codes "enable"
enabled false = codes "disable"

abbrev pub bool_eq : Bool → Bool → Bool
bool_eq true b = b
bool_eq false b = not b

-- The `switch` on the type: the commands with the field as it is left, or `none` where the field is
-- skipped.
unfoldable pub field_commands : Text → Text → Field → Option (List Text × Field)
field_commands path label (text_field original value) =
    if text_eq original (quoted value)
    then none
    else some (value_command path label (quoted value) ∷ [], text_field (quoted value) value)
field_commands path label (number_field original value) =
    if loosely_equal original value
    then none
    else some (value_command path label (shown value) ∷ [], number_field value value)
field_commands path label (combo original value) =
    if text_eq original value
    then none
    else some (value_command path label value ∷ [], combo value value)
field_commands path label (editor_grid store values) =
    if not (is_edit_grid_dirty store)
    then none
    else some (
      if store.is_checker
          then checker_commands path label (get_edit_grid_checker_values values store.rows)
          else (codes "delete " ++ (path ++ (codes " " ++ label)))
            ∷ set_commands path label (get_edit_grid_values store.rows),
      editor_grid store values,
    )
field_commands path label (checkbox original value) =
    if bool_eq original value
    then none
    else some (
      (codes "set" ++ (path ++ (codes " " ++ (label ++ enabled value)))) ∷ [],
      checkbox original value,
    )
field_commands path label other_field = some ([], other_field)

-- The document of a request.
unfoldable pub statements : List Text → Text
statements [] = []
statements (c ∷ cmds) =
    codes "<statement mode='conf'>" ++ (c ++ (codes "</statement>\n" ++ statements cmds))

unfoldable pub conf_xml : Text → List Text → Text
conf_xml sid cmds =
    codes "<?xml version=\"1.0\" encoding=\"utf-8\"?>\n"
    ++ (codes "<vyatta><command><id>"
        ++ (sid ++ (codes "</id>\n" ++ (statements cmds ++ codes "</command></vyatta>\n"))))

-- The counters of a submission, and what was sent: `sent` holds the index of each panel in
-- `m_fdSent`, and an error its text with an index.
pub record Submission : Type 0 where
  pub index : ℕ
  pub num_sent : ℕ
  pub sent : List ℕ
  pub errors : List (Text × ℕ)

-- `f_prepareConfFormCommandSend`
abbrev pub prepared : Submission
prepared = record { index = 1; num_sent = 0; sent = []; errors = [] }

-- What one call of `f_sendConfFormCommand` does: it sends the commands of a field, with the items
-- that are left, or it meets the submit button, or it runs past the form and fails.
pub data Step : Type 0 where
  request : (cmds : List Text) (field : Field) (rest : List Item) (next : Submission) → Step
  done : Submission → Step
  crashed : Step

-- One call, on the items from the index on. A field that is skipped leads to the next.
unfoldable pub send_conf_form_command : Text → Bool → List Item → Submission → Step
send_conf_form_command path multi [] s = crashed
send_conf_form_command path multi (submit_button ∷ rest) s = done (record s { index = suc s.index })
send_conf_form_command path multi (field_panel label field ∷ rest) s =
    let skipped = send_conf_form_command path multi rest (record s { index = suc s.index }) in
    elim (field_commands path (field_name multi label) field) [
      | none ↦ skipped
      | some (cmds, field') ↦ request cmds field' rest (record s {
        index = suc s.index;
        num_sent = suc s.num_sent;
        sent = s.sent ++ (s.index ∷ []);
      })
    ]

-- What a response was read as: `none` where the request itself failed, else whether the command
-- succeeded, and the message.
abbrev pub Answer : Type 0
Answer = Option (Bool × Text)

unfoldable pub save_conf_form_command_sent_error : Answer → Submission → Option Submission
save_conf_form_command_sent_error none s = some s
save_conf_form_command_sent_error (some (true, msg)) s = some s
save_conf_form_command_sent_error (some (false, msg)) s = elim (replace msg (codes "\r\n") []) [
  | none ↦ none
  | some text ↦ some (record s { errors = s.errors ++ ((text ++ codes "<br>", s.index - 1) ∷ []) })
]

-- The requests of a submission in order, and its end.
abbrev pub Sent : Type 0
Sent = List (List Text) × Submission

abbrev pub then_sent : List Text → Option Sent → Option Sent
then_sent cmds none = none
then_sent cmds (some (requests, s)) = some (cmds ∷ requests, s)

-- A whole submission, where each response leads to the next call. The fuel counts the calls that
-- send; the answers are a function of what is sent.
unfoldable pub submit :
    ℕ → (List Text → Answer) → Text → Bool → List Item → Submission → Option Sent
submit zero answer path multi items s = none
submit (suc fuel) answer path multi items s = elim (send_conf_form_command path multi items s) [
  | crashed ↦ none
  | done s' ↦ some ([], s')
  | request cmds field rest next ↦ elim (save_conf_form_command_sent_error (answer cmds) next) [
    | none ↦ none
    | some s' ↦ then_sent cmds (submit fuel answer path multi rest s')
  ]
]
