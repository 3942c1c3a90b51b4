-- ===== src/Indicators.antt =====
-- The indicators beside the fields of the editor, and the labels: `f_createFlagIndicator`,
-- `f_updateDirtyIndicatorPanel`, `f_handleConfFieldOffFocus`, `f_handleFormIndicators` and
-- `f_createLabel` of src/client/Vyatta/js/vyatta-panels.js.
pub mod Ending
pub mod Marked
pub mod Reset
use vyatta_webgui.Base.{
  ℕ, zero, suc, ◌+◌, ◌-◌, ◌*◌, ◌≤◌, ◌<◌, ◌≡◌, refl, sym, ap, ◌∙◌, ◌≢◌, ◌↔◌, ◌⊎◌, inl, inr, Bool,
  true, false, not, ◌&&◌, ◌||◌, Option, none, some, List, [], ◌∷◌, ◌++◌, map, append_assoc,
  append-nil, arith, ltb, leb, ◌==◌, if◌then◌else◌, Bool-cases, Option-cases, is_some, length,
  get_elem?, drop, take, any, all, All, All-append, length-append, ==_iff, ==_refl, lt→ltb, ltb→lt,
}
use vyatta_webgui.Text.{Text, codes, text_eq, count, contains, index_of, replace_first, split}
use vyatta_webgui.Text.Equality.{text_eq_iff, text_eq_refl}
use vyatta_webgui.Replace.{replace}
use vyatta_webgui.Values.{Value, loosely_equal}
use vyatta_webgui.Tree.{Flag, Attributes, dirty, error, empty, image, get_node_indicator_flag}

-- The names that stand in the images of the marks.
pub data FlagName : Type 0 where
  status_down status_unknown status_plus status_minus no_flag : FlagName

abbrev pub flag_text : FlagName → Text
flag_text status_down = codes "statusDown"
flag_text status_unknown = codes "statusUnknown"
flag_text status_plus = codes "statusPlus"
flag_text status_minus = codes "statusMinus"
flag_text no_flag = codes "empty"

-- `s.indexOf(p) > 0`
abbrev pub behind_start : Text → Text → Bool
behind_start p s = elim (index_of p s) [ none ↦ false | some i ↦ ltb 0 i ]

-- Whether the markup shows a mark that is another one than `flag`.
abbrev pub shows_other : Text → Text → FlagName → Bool
shows_other html flag old = behind_start (flag_text old) html && not (text_eq flag (flag_text old))

unfoldable pub create_flag_indicator : Text → Text → Option Text
create_flag_indicator html flag =
    if shows_other html flag no_flag
    then replace html (flag_text no_flag) flag
    else if shows_other html flag status_unknown
    then replace html (flag_text status_unknown) flag
    else if shows_other html flag status_plus
    then replace html (flag_text status_plus) flag
    else if shows_other html flag status_minus
    then replace html (flag_text status_minus) flag
    else if shows_other html flag status_down
    then replace html (flag_text status_down) flag
    else some html

-- The ladder of `f_updateDirtyIndicatorPanel` on the markup of a mark; `none` where no case fits.
unfoldable pub error_type : Text → Option FlagName
error_type err_type =
    if behind_start (codes "statusDown") err_type
    then some status_down
    else if behind_start (codes "statusUnknown") err_type
    then some status_unknown
    else if behind_start (codes "statusPlus") err_type
    then some status_plus
    else if behind_start (codes "statusMinus") err_type
    then some status_minus
    else if behind_start (codes "empty") err_type
    then some no_flag
    else none

-- The markup of the indicator, where the element is there.
unfoldable pub update_dirty_indicator_panel : Option Text → Text → Option (Option Text)
update_dirty_indicator_panel none err_type = some none
update_dirty_indicator_panel (some html) err_type = elim (error_type err_type) [
  | none ↦ some (some html)
  | some f ↦ elim (create_flag_indicator html (flag_text f)) [
    | none ↦ none
    | some html' ↦ some (some html')
  ]
]

-- A field that loses the focus: a text, number or choice with the class of its element, or a box.
pub data FocusField : Type 0 where
  text_like : (class_name : Text) (original value : Value) → FocusField
  check_box : (class_name : Text) (original value : Bool) → FocusField
  no_field : FocusField

-- The class a field has then; the outer `none` is a call that does not return.
unfoldable pub handle_conf_field_off_focus : FocusField → Option (Option Text)
handle_conf_field_off_focus no_field = some none
handle_conf_field_off_focus (text_like class_name original value) =
    elim (replace class_name (codes "v-textfield-unsubmit") []) [
      | none ↦ none
      | some cn ↦ elim (replace cn (codes "v-textfield-submit") []) [
        | none ↦ none
        | some base ↦ some (
            some (
              if not (loosely_equal original value)
              then base ++ codes " v-textfield-unsubmit"
              else base ++ codes " v-textfield-submit"))
      ]
    ]
handle_conf_field_off_focus (check_box class_name original value) =
    let changed = if original then not value else value in
    elim (if changed
      then replace class_name (codes "v-bg-white") (codes "v-bg-yellow")
      else replace class_name (codes "v-bg-yellow") (codes "v-bg-white")) [
        | none ↦ none
        | some cn ↦ some (some cn)
      ]

-- The field of a node's panel as `f_handleFormIndicators` meets it: a text, number or choice that is
-- rendered or not, or another one.
pub data FormField : Type 0 where
  value_field : (rendered : Bool) (value : Text) → FormField
  other_type : FormField

-- The flag of the panel after a submission; `attr_value` is the attribute `value` of the node.
unfoldable pub panel_flag : Option Attributes → Option Text → FormField → Flag
panel_flag attributes attr_value field =
    let flag : Flag = elim (get_node_indicator_flag attributes true) [ empty ↦ dirty | f ↦ f ] in
    elim field [
      | other_type ↦ flag
      | value_field rendered value ↦ if not rendered then flag else elim attr_value [
        | some v ↦ if text_eq value v then empty else flag
        | none ↦ if length value == 0 then empty else flag
      ]
    ]

-- The texts of `f_createLabel`.
pub data LabelFor : Type 0 where
  label_help label_label label_other : LabelFor

unfoldable pub create_label : Option Text → LabelFor → Bool → Option Text
create_label none label_help mandatory = some []
create_label (some value) label_help mandatory = elim (replace value (codes "<") (codes "&#60;")) [
  | none ↦ none
  | some t ↦ replace t (codes ">") (codes "&#62;")
]
create_label value label_label mandatory =
    let v : Text = elim value [ none ↦ codes "undefined" | some t ↦ t ] in
    some (
      if mandatory
      then v ++ codes ": <img title=\"required field\" src=\"images/ico_required.PNG\"/> "
      else v ++ codes ": ")
create_label value label_other mandatory = value
