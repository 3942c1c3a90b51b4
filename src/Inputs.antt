-- ===== src/Inputs.antt =====
-- The input fields of a node as they are made: `f_createTextField`, `f_createNumberField`,
-- `f_createCombobox` and `f_createCheckbox` of src/client/Vyatta/js/vyatta-panels.js, and the handlers
-- `f_leafSingleTxtHandler` to `f_leafSingleBoolHandler` of src/client/Vyatta/js/vyatta-tree.js that
-- call them. A text or a choice shows the value that it is made with. What number the toolkit's field for
-- numbers reads in such a text is a parameter, `parse`: `none` where it reads none and the field is blank.
pub mod Fresh
use vyatta_webgui.Base.{
  ℕ, zero, suc, ◌+◌, ◌-◌, ◌*◌, ◌≤◌, ◌<◌, ◌≡◌, refl, sym, ap, ◌∙◌, ◌≢◌, ◌↔◌, ◌⊎◌, inl, inr, Bool,
  true, false, not, ◌&&◌, ◌||◌, Option, none, some, List, [], ◌∷◌, ◌++◌, map, append_assoc,
  append-nil, arith, ltb, leb, ◌==◌, if◌then◌else◌, Bool-cases, Option-cases, is_some, length,
  get_elem?, drop, take, any, all, All, All-append, length-append, ==_iff, ==_refl, lt→ltb, ltb→lt,
}
use vyatta_webgui.Text.{Text, codes, text_eq, count, contains, index_of, replace_first, split}
use vyatta_webgui.Text.Equality.{text_eq_iff, text_eq_refl}
use vyatta_webgui.Tree.{Attributes}
use vyatta_webgui.Leaf.{
  EditorItem, single_enum, single_bool, single_u32, single_text, multi_enum, multi_u32, multi_text,
  set_button,
}
use vyatta_webgui.Toolbar.{filter_wildcard}
use vyatta_webgui.Grid.{Row, GridStore, create_edit_grid}
use vyatta_webgui.Values.{Value, text, number}
use vyatta_webgui.Form.{Field, text_field, number_field, combo, checkbox, editor_grid}
use vyatta_webgui.Indicators.{create_label, label_label, label_help}

-- The value that a field is made with, else the default of the node; `none` is undefined.
abbrev pub initial : Option Text → Option Text → Option Text
initial none default_val = default_val
initial (some value) default_val = some value

abbrev pub or_empty : Option Text → Text
or_empty none = []
or_empty (some value) = value

-- `values[0]` of the attributes.
abbrev pub first_value : Option (List Text) → Option Text
first_value none = none
first_value (some values) = get_elem? values 0

-- The text to which an array is converted where it is compared or shown.
abbrev pub join_values : List Text → Text
join_values [] = []
join_values (v ∷ []) = v
join_values (v ∷ (w ∷ values)) = v ++ (44 ∷ join_values (w ∷ values))

abbrev pub joined : Option (List Text) → Option Text
joined none = none
joined (some values) = some (join_values values)

unfoldable pub create_text_field : Option Text → Option Text → Field
create_text_field value default_val =
    text_field (or_empty (initial value default_val)) (or_empty (initial value default_val))

-- What `getValue` of the toolkit's field for numbers gives: a number, or an empty text.
abbrev pub number_shown : (Text → Option ℕ) → Option Text → Value
number_shown parse none = text []
number_shown parse (some t) = elim (parse t) [ none ↦ text [] | some n ↦ number n ]

unfoldable pub create_number_field : (Text → Option ℕ) → Option Text → Option Text → Field
create_number_field parse value default_val =
    number_field (text (or_empty (initial value default_val)))
      (number_shown parse (initial value default_val))

unfoldable pub create_combobox : Option Text → Option Text → Field
create_combobox value default_val =
    combo (or_empty (initial value default_val)) (or_empty (initial value default_val))

-- Whether the text of a choice can be edited.
unfoldable pub combobox_editable : Text → Bool → Bool
combobox_editable label is_editable =
    if text_eq label (codes "inbound-interface") || text_eq label (codes "outbound-interface")
    then true
    else is_editable

unfoldable pub get_value_for_checkbox : Option Text → Bool
get_value_for_checkbox none = false
get_value_for_checkbox (some value) = text_eq value (codes "enable") || text_eq value (codes "true")

unfoldable pub create_checkbox : Option Text → Option Text → Field
create_checkbox value default_val =
    let checked = get_value_for_checkbox (initial value default_val) in checkbox checked checked

-- `onClickHandler` of a box.
unfoldable pub click_checkbox : Field → Field
click_checkbox (checkbox original value) = checkbox original (not value)
click_checkbox f = f

-- The handlers for one value.
unfoldable pub leaf_single_txt_handler : Attributes → Field
leaf_single_txt_handler a = create_text_field (first_value a.values) a.default_val

unfoldable pub leaf_single_u32_handler : (Text → Option ℕ) → Attributes → Field
leaf_single_u32_handler parse a = create_number_field parse (first_value a.values) a.default_val

abbrev pub is_enable : Text → Bool
is_enable v = text_eq v (codes "enable") || text_eq v (codes "disable")

-- Two values, of which the first is to enable or disable.
unfoldable pub is_switch : List Text → Bool
is_switch (v ∷ (w ∷ [])) = is_enable v
is_switch _ = false

-- A field with the values to choose from, where there are any, and whether others can be typed.
pub record EnumField : Type 0 where
  pub field : Field
  pub choices : List Text
  pub editable : Bool

unfoldable pub leaf_single_enum_handler : Text → Attributes → List Text → Bool → EnumField
leaf_single_enum_handler label a values is_editable =
    let narr = filter_wildcard values in
    let choices : List Text = elim narr [ none ↦ values | some clean ↦ clean ] in
    if is_switch choices
    then record {
      field = create_checkbox (joined a.values) a.default_val;
      choices = [];
      editable = false;
    }
    else record {
      field = create_combobox (joined a.values) a.default_val;
      choices = choices;
      editable = combobox_editable label (if is_some narr then true else is_editable);
    }

unfoldable pub leaf_single_bool_handler : Text → Attributes → EnumField
leaf_single_bool_handler label a =
    leaf_single_enum_handler label a (codes "true" ∷ (codes "false" ∷ [])) false

abbrev pub or_none : Option (List Text) → List Text
or_none none = []
or_none (some values) = values

-- The handlers for many values make a grid.
unfoldable pub leaf_multi_enum_handler : Row → Attributes → Field
leaf_multi_enum_handler blank a =
    editor_grid (create_edit_grid blank (or_none a.values) (or_none a.enums)) a.values

unfoldable pub leaf_multi_u32_handler : Row → Attributes → Field
leaf_multi_u32_handler blank a =
    editor_grid (create_edit_grid blank (or_none a.values) (or_none a.enums)) a.values

unfoldable pub leaf_multi_txt_handler : Row → Attributes → Field
leaf_multi_txt_handler blank a =
    editor_grid (create_edit_grid blank (or_none a.values) (or_none a.enums)) a.values

-- The help beside a text, a number or a grid: with the type of the node.
unfoldable pub help_with_type : Text → Option Text → Text
help_with_type help none = help
help_with_type help (some type) = help ++ (codes " (" ++ (type ++ codes ")"))

-- A leaf whose fields a click adds: its text, whether it must have a value, its attributes, and what
-- the click on it adds.
pub record Leaf : Type 0 where
  pub text : Text
  pub mandatory : Bool
  pub attributes : Attributes
  pub item : EditorItem

-- The field that the handler of the leaf makes; `blank` is the row that the toolkit appends to a grid.
unfoldable pub make_field : (Text → Option ℕ) → Row → Text → Attributes → EditorItem → Option Field
make_field parse blank label a (single_enum values) =
    some (leaf_single_enum_handler label a values false).field
make_field parse blank label a single_bool = some (leaf_single_bool_handler label a).field
make_field parse blank label a single_u32 = some (leaf_single_u32_handler parse a)
make_field parse blank label a single_text = some (leaf_single_txt_handler a)
make_field parse blank label a (multi_enum values) = some (leaf_multi_enum_handler blank a)
make_field parse blank label a multi_u32 = some (leaf_multi_u32_handler blank a)
make_field parse blank label a multi_text = some (leaf_multi_txt_handler blank a)
make_field parse blank label a set_button = none

-- The markup of the label of a leaf.
abbrev pub label_of : Leaf → Text
label_of l = or_empty (create_label (some l.text) label_label l.mandatory)

-- The labels and the fields of the leaves, in order.
unfoldable pub opened_fields : (Text → Option ℕ) → Row → List Leaf → List (Text × Field)
opened_fields parse blank [] = []
opened_fields parse blank (l ∷ leaves) =
    let rest = opened_fields parse blank leaves in
    elim (make_field parse blank l.text l.attributes l.item) [
      | none ↦ rest
      | some field ↦ (label_of l, field) ∷ rest
    ]
