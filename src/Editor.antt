-- ===== src/Editor.antt =====
-- The editor panel that holds the fields of a node: `f_addField2Panel`, `f_updateFieldValues2Panel`,
-- `f_addConfiSetButton` and `f_linkFormField` of src/client/Vyatta/js/vyatta-panels.js, and the methods
-- of VYATTA_panels that empty it and ask for its title.
pub mod Unique
pub mod Adding
pub mod Sound
pub mod Reached
pub mod Twice
use vyatta_webgui.Base.{
  ℕ, zero, suc, ◌+◌, ◌-◌, ◌*◌, ◌≤◌, ◌<◌, ◌≡◌, refl, sym, ap, ◌∙◌, ◌≢◌, ◌↔◌, ◌⊎◌, inl, inr, Bool,
  true, false, not, ◌&&◌, ◌||◌, Option, none, some, List, [], ◌∷◌, ◌++◌, map, append_assoc,
  append-nil, arith, ltb, leb, ◌==◌, if◌then◌else◌, Bool-cases, Option-cases, is_some, length,
  get_elem?, drop, take, any, all, All, All-append, length-append, ==_iff, ==_refl, lt→ltb, ltb→lt,
}
use vyatta_webgui.Text.{Text, codes, text_eq, count, contains, index_of, replace_first, split}
use vyatta_webgui.Text.Equality.{text_eq_iff, text_eq_refl}

-- The type of a part of a field in the toolkit, as far as it is asked for.
pub data XType : Type 0 where
  label_type button_type other_type : XType

-- A part of a field's panel; `none` is undefined.
pub record Part : Type 0 where
  pub xtype : XType
  pub html : Option Text
  pub text : Option Text

-- What is added to the editor. `parts` are its items: label, input, indicator and tip, where it is a
-- panel with items. `has_buttons` tells whether `m_buttons` is defined and `is_submit_btn` is
-- `m_isSubmitBtn`. The tab index and the focus are those of the input.
pub record Fields : Type 0 where
  pub parts : Option (List Part)
  pub m_title : Text
  pub has_buttons : Bool
  pub is_submit_btn : Bool
  pub has_help_label : Bool
  pub tab_index : Option ℕ
  pub focused : Bool
  pub tip_hidden : Bool

-- The form in the editor. The first item of a form of the configuration is a dummy.
pub record Form : Type 0 where
  pub items : List Fields
  pub m_title : Text
  pub m_fd_index : ℕ
  pub m_sub_btn : Bool
  pub m_count : ℕ

-- The editor: the last form that was made, and whether the panel still has it as its item.
pub record Editor : Type 0 where
  pub m_form_panel : Option Form
  pub has_item : Bool

-- The modes in which a field is added.
pub data Mode : Type 0 where
  config oper : Mode

abbrev pub opt_eq : Option Text → Option Text → Bool
opt_eq none none = true
opt_eq none (some t) = false
opt_eq (some s) none = false
opt_eq (some s) (some t) = text_eq s t

-- What the walk of `f_updateFieldValues2Panel` concludes from one item of the form.
pub data Match : Type 0 where
  present replaced differs raises : Match

unfoldable pub match_label : XType → Part → List Part → Match
match_label other_type label cs = differs
match_label label_type label [] = raises
match_label label_type label (c ∷ cs) = if opt_eq label.html c.html then present else differs
match_label button_type label [] = raises
match_label button_type label (c ∷ cs) =
    if opt_eq label.text c.text then present else if is_some c.text then replaced else differs

-- Two panels by their parts; `both_buttons` where both have buttons of their own.
unfoldable pub match_parts : Bool → Option (List Part) → Option (List Part) → Match
match_parts both_buttons none cs = differs
match_parts both_buttons (some fs) none = differs
match_parts true (some fs) (some cs) = present
match_parts false (some []) (some cs) = differs
match_parts false (some (label ∷ more)) (some cs) = match_label label.xtype label cs

unfoldable pub match_item : Fields → Fields → Match
match_item f fields = match_parts (fields.has_buttons && f.has_buttons) f.parts fields.parts

-- `f_updateFieldValues2Panel` on the items: whether the field is to be added, and the items then;
-- `none` is an exception.
abbrev pub Walked : Type 0
Walked = Option (Bool × List Fields)

abbrev pub after_item : Fields → Walked → Walked
after_item f none = none
after_item f (some (fresh, items)) = some (fresh, f ∷ items)

abbrev pub walk_on : Match → Fields → Fields → List Fields → Walked → Walked
walk_on present fields f items rest = some (false, f ∷ items)
walk_on replaced fields f items rest = after_item fields rest
walk_on differs fields f items rest = after_item f rest
walk_on raises fields f items rest = none

unfoldable pub update_field_values2_panel : Fields → List Fields → Walked
update_field_values2_panel fields [] = some (true, [])
update_field_values2_panel fields (f ∷ items) =
    walk_on (match_item f fields) fields f items (update_field_values2_panel fields items)

-- A field goes to the end of the form, one with a button right after the first item.
abbrev pub insert_second : Fields → List Fields → List Fields
insert_second f [] = f ∷ []
insert_second f (x ∷ items) = x ∷ (f ∷ items)

abbrev pub is_button : XType → Bool
is_button button_type = true
is_button label_type = false
is_button other_type = false

abbrev pub begins_with_button : Option (List Part) → Bool
begins_with_button none = false
begins_with_button (some []) = false
begins_with_button (some (p ∷ more)) = is_button p.xtype

-- Whether the panel has a part at the place.
abbrev pub has_part : ℕ → Option (List Part) → Bool
has_part i none = false
has_part i (some parts) = ltb i (length parts)

-- Whether the input of a field with `count` items in the form gets a tab index. Both modes are known.
abbrev pub gets_index : Fields → ℕ → Bool
gets_index f count = has_part 1 f.parts && ltb 1 count

-- The field with its tab index, its focus and its tip, once the form has `count` items.
abbrev pub dressed : Bool → ℕ → ℕ → Fields → Fields
dressed help_on index count f = record f {
  tab_index = if gets_index f count then some index else f.tab_index;
  focused = f.focused || (has_part 1 f.parts && count == 2);
  tip_hidden = f.tip_hidden || (help_on && (f.has_help_label || has_part 3 f.parts));
}

abbrev pub insert_field : Fields → List Fields → List Fields
insert_field f items =
    if begins_with_button f.parts then insert_second f items else items ++ (f ∷ [])

abbrev pub insert_placed : Fields → ℕ → Form → Walked → Option Form
insert_placed placed index form none = none
insert_placed placed index form (some (fresh, items)) =
    some (record form { items = insert_field placed items; m_fd_index = index })

abbrev pub next_index : Fields → ℕ → ℕ → ℕ
next_index f index count = if gets_index f count then suc index else index

-- The form with a field, once the walk is over. A field that took the place of a button is the same
-- object as the one that is added.
unfoldable pub add_walked : Bool → Fields → Form → Walked → Option Form
add_walked help_on fields form none = none
add_walked help_on fields form (some (false, items)) = some (record form { items = items })
add_walked help_on fields form (some (true, items)) =
    let count = suc (length items) in
    let placed = dressed help_on form.m_fd_index count fields in
    insert_placed placed (next_index fields form.m_fd_index count) form
      (update_field_values2_panel placed form.items)

abbrev pub dummy : Fields
dummy = record {
  parts = none;
  m_title = [];
  has_buttons = false;
  is_submit_btn = false;
  has_help_label = false;
  tab_index = none;
  focused = false;
  tip_hidden = false;
}

-- The form that is made for the first fields, which become its toolbar.
unfoldable pub new_form : Mode → Fields → Form
new_form mode fields = record {
  items = elim mode [ oper ↦ [] | config ↦ dummy ∷ [] ];
  m_title = fields.m_title;
  m_fd_index = 0;
  m_sub_btn = false;
  m_count = 0;
}

abbrev pub show_form : Option Form → Option Editor
show_form none = none
show_form (some form) = some (record { m_form_panel = some form; has_item = true })

-- `f_isPanelEmpty` decides between the form that is there and a new one.
abbrev pub shown_form : Editor → Option Form
shown_form ed = if ed.has_item then ed.m_form_panel else none

abbrev pub add_to_form : Bool → Mode → Fields → Option Form → Option Editor
add_to_form help_on mode fields none = show_form (some (new_form mode fields))
add_to_form help_on mode fields (some form) =
    show_form (add_walked help_on fields form (update_field_values2_panel fields form.items))

unfoldable pub add_field2_panel : Bool → Mode → Editor → Fields → Option Editor
add_field2_panel help_on mode ed fields = add_to_form help_on mode fields (shown_form ed)

-- What `f_createConfSubButton` makes: a panel without items.
abbrev pub conf_sub_button : Fields
conf_sub_button = record dummy { has_buttons = true; is_submit_btn = true }

-- The count of the items, once and for all, where the fields are linked.
abbrev pub counted : Form → Form
counted form = if form.m_count == 0 then record form { m_count = length form.items } else form

abbrev pub with_button : Form → Form
with_button form = record form { m_sub_btn = true }

abbrev pub map_form : (Form → Form) → Option Form → Option Form
map_form f none = none
map_form f (some form) = some (f form)

-- A change of the form that the editor had before a field was added. If the field made a new one, the
-- change is lost with the old form.
abbrev pub change_form : (Form → Form) → Bool → Editor → Editor
change_form f same ed = record ed {
  m_form_panel = if same then map_form f ed.m_form_panel else ed.m_form_panel;
}

abbrev pub with_new_button : Bool → Option Editor → Option Editor
with_new_button same none = none
with_new_button same (some ed) = some (change_form counted same (change_form with_button same ed))

-- The submit button is added once, behind the first field; `none` is an exception. The form is the one
-- that was made last, even if the editor does not show it any more.
unfoldable pub add_confi_set_button : Bool → Editor → Option Editor
add_confi_set_button help_on ed = elim ed.m_form_panel [
  | none ↦ none
  | some form ↦
      if not form.m_sub_btn && ltb 1 (length form.items)
      then with_new_button ed.has_item (add_field2_panel help_on config ed conf_sub_button)
      else some (change_form counted true ed)
]

-- `f_cleanEditorPanel`; `m_formPanel` stays what it was.
unfoldable pub clean_editor_panel : Editor → Editor
clean_editor_panel ed = record ed { has_item = false }

unfoldable pub get_editor_item_count : Editor → ℕ
get_editor_item_count ed = elim (shown_form ed) [ none ↦ 0 | some form ↦ length form.items ]

unfoldable pub get_editor_title : Editor → Text
get_editor_title ed =
    if ltb 0 (get_editor_item_count ed)
    then elim ed.m_form_panel [ none ↦ [] | some form ↦ form.m_title ]
    else []

-- `f_linkFormField`: the place of the input that follows each input of the form, from the place `i` on.
unfoldable pub link_form_field : ℕ → List Fields → List (ℕ × ℕ)
link_form_field i [] = []
link_form_field i (f ∷ []) = []
link_form_field i (f ∷ (g ∷ items)) =
    let rest = link_form_field (suc i) (g ∷ items) in
    if has_part 1 f.parts && has_part 1 g.parts then (i, suc i) ∷ rest else rest
