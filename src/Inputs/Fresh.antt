-- ===== src/Inputs/Fresh.antt =====
-- A form as it is opened has nothing to send.
use vyatta_webgui.Base.{
  ℕ, zero, suc, ◌+◌, ◌≡◌, refl, ap, ◌∙◌, inl, inr, Bool, true, false, Option, none, some, List, [],
  ◌∷◌, arith, ◌==◌, if◌then◌else◌, Option-cases, length, drop, any, All, All-append,
}
use vyatta_webgui.Text.{Text}
use vyatta_webgui.Text.Equality.{text_eq_refl}
use vyatta_webgui.Grid.{Row, create_edit_grid, is_edit_grid_dirty, value_rows, copies, filled_rows}
use vyatta_webgui.Values.{Value, text, loosely_equal}
use vyatta_webgui.Form.{
  Field, text_field, number_field, combo, checkbox, editor_grid, Item, submit_button,
  has_inner_space, quoted, field_name, field_commands, prepared, Answer, submit,
}
use vyatta_webgui.Form.Answers.{Panel, panels}
use vyatta_webgui.Form.Running.{failures, sent_panels, outcome, submit_form}
use vyatta_webgui.Leaf.{
  EditorItem, single_enum, single_bool, single_u32, single_text, multi_enum, multi_u32, multi_text,
  set_button,
}
use vyatta_webgui.Tree.{Attributes}
use vyatta_webgui.Inputs.{
  number_shown, joined, EnumField, initial, or_empty, first_value, create_text_field,
  create_number_field, create_combobox, create_checkbox, get_value_for_checkbox,
  leaf_single_txt_handler, leaf_single_u32_handler, leaf_single_enum_handler,
  leaf_single_bool_handler, leaf_multi_enum_handler, leaf_multi_u32_handler, leaf_multi_txt_handler,
  is_switch, Leaf, make_field, label_of, opened_fields,
}

-- The field of a leaf shows its value as JavaScript compares it: a text has no space behind its first
-- character, and a number is equal to the text that it was read from.
abbrev pub ShownAsIs : (Text → Option ℕ) → Leaf → Type 0
ShownAsIs parse l = elim l.item [
  | single_u32 ↦
      loosely_equal
        (text (or_empty (initial (first_value l.attributes.values) l.attributes.default_val)))
        (number_shown parse (initial (first_value l.attributes.values) l.attributes.default_val))
      ≡ true
  | single_text ↦
      has_inner_space
        (or_empty (initial (first_value l.attributes.values) l.attributes.default_val))
      ≡ false
  | _ ↦ Unit
]

-- The field is skipped by a submission.
abbrev Skipped : Text → Text → Option Field → Type 0
Skipped path label none = Unit
Skipped path label (some field) = field_commands path label field ≡ none

text_skipped :
    (path label t : Text)
    → has_inner_space t ≡ false
    → field_commands path label (text_field t t) ≡ none
unfolding field_commands quoted
text_skipped path label t h = rw (h, text_eq_refl t) refl

number_skipped :
    (path label : Text) (original value : Value)
    → loosely_equal original value ≡ true
    → field_commands path label (number_field original value) ≡ none
unfolding field_commands
number_skipped path label original value h = rw h refl

combo_skipped : (path label t : Text) → field_commands path label (combo t t) ≡ none
unfolding field_commands
combo_skipped path label t = rw (text_eq_refl t) refl

checkbox_skipped : (path label : Text) (b : Bool) → field_commands path label (checkbox b b) ≡ none
unfolding field_commands
checkbox_skipped path label true = refl
checkbox_skipped path label false = refl

any_clean : (rows : List Row) → All (λ r. r.dirty ≡ false) rows → any (λ r. r.dirty) rows ≡ false
any_clean [] h = refl
any_clean (r ∷ rows) h = rw (h.0) (any_clean rows h.1)

value_rows-clean : (values : List Text) → All (λ r. r.dirty ≡ false) (value_rows values)
unfolding value_rows
value_rows-clean [] = tt
value_rows-clean (v ∷ values) = (refl, value_rows-clean values)

copies-clean :
    (n : ℕ) (blank : Row) → blank.dirty ≡ false → All (λ r. r.dirty ≡ false) (copies n blank)
copies-clean zero blank h = tt
copies-clean (suc n) blank h = (h, copies-clean n blank h)

suc_not_zero : (n : ℕ) → (suc n == 0) ≡ false
suc_not_zero n = ground arith

grid_unchanged :
    (blank : Row) (values enums : List Text)
    → blank.dirty ≡ false
    → is_edit_grid_dirty (create_edit_grid blank values enums) ≡ false
unfolding is_edit_grid_dirty create_edit_grid filled_rows
grid_unchanged blank values [] h = any_clean _ (
    All-append (λ r. r.dirty ≡ false) (value_rows values) _ (value_rows-clean values)
      (copies-clean _ blank h))
grid_unchanged blank values (e ∷ enums) h = rw (suc_not_zero (length enums)) refl

grid_skipped :
    (path label : Text) (blank : Row) (values enums : List Text) (of_node : Option (List Text))
    → blank.dirty ≡ false
    → field_commands path label (editor_grid (create_edit_grid blank values enums) of_node) ≡ none
unfolding field_commands
grid_skipped path label blank values enums of_node h = rw (grid_unchanged blank values enums h) refl

either :
    (path label : Text) (b : Bool) (x y : EnumField)
    → field_commands path label x.field ≡ none
    → field_commands path label y.field ≡ none
    → field_commands path label (if b then x else y).field ≡ none
either path label true x y h k = h
either path label false x y h k = k

enum_skipped :
    (path label name : Text) (a : Attributes) (values : List Text) (editable : Bool)
    → field_commands path label (leaf_single_enum_handler name a values editable).field ≡ none
unfolding leaf_single_enum_handler create_checkbox create_combobox
enum_skipped path label name a values editable =
    either path label (is_switch _) _ _
      (checkbox_skipped path label
        (get_value_for_checkbox (initial (joined a.values) a.default_val)))
      (combo_skipped path label (or_empty (initial (joined a.values) a.default_val)))

make_field-Skipped :
    (parse : Text → Option ℕ) (path label name : Text) (blank : Row) (a : Attributes)
    (item : EditorItem) (mandatory : Bool)
    → blank.dirty ≡ false
    → ShownAsIs parse (record { text = name; mandatory = mandatory; attributes = a; item = item })
    → Skipped path label (make_field parse blank name a item)
unfolding make_field leaf_single_txt_handler leaf_single_u32_handler leaf_single_bool_handler
    create_text_field create_number_field leaf_multi_enum_handler leaf_multi_u32_handler
    leaf_multi_txt_handler
make_field-Skipped parse path label name blank a (single_enum values) m hb h =
    enum_skipped path label name a values false
make_field-Skipped parse path label name blank a single_bool m hb h =
    enum_skipped path label name a _ false
make_field-Skipped parse path label name blank a single_u32 m hb h = number_skipped path label _ _ h
make_field-Skipped parse path label name blank a single_text m hb h = text_skipped path label _ h
make_field-Skipped parse path label name blank a (multi_enum values) m hb h =
    grid_skipped path label blank _ _ a.values hb
make_field-Skipped parse path label name blank a multi_u32 m hb h =
    grid_skipped path label blank _ _ a.values hb
make_field-Skipped parse path label name blank a multi_text m hb h =
    grid_skipped path label blank _ _ a.values hb
make_field-Skipped parse path label name blank a set_button m hb h = tt

sent_none :
    (answer : List Text → Answer) (path : Text) (multi : Bool) (i : ℕ) (label : Text)
    (field : Field) (fields : List Panel)
    → field_commands path (field_name multi label) field ≡ none
    → sent_panels answer path multi i ((label, field) ∷ fields)
      ≡ sent_panels answer path multi (suc i) fields
unfolding sent_panels
sent_none answer path multi i label field fields e = rw (e, sent_panels)

opened_cons :
    (parse : Text → Option ℕ) (blank : Row) (l : Leaf) (leaves : List Leaf) (o : Option Field)
    → make_field parse blank l.text l.attributes l.item ≡ o
    → opened_fields parse blank (l ∷ leaves) ≡ elim o [
      | none ↦ opened_fields parse blank leaves
      | some f ↦ (label_of l, f) ∷ opened_fields parse blank leaves
    ]
unfolding opened_fields
opened_cons parse blank l leaves o e = rw (e, opened_fields)

quiet :
    (answer : List Text → Answer) (parse : Text → Option ℕ) (path : Text) (multi : Bool)
    (blank : Row) (i : ℕ) (leaves : List Leaf)
    → blank.dirty ≡ false
    → All (ShownAsIs parse) leaves
    → sent_panels answer path multi i (opened_fields parse blank leaves) ≡ []
unfolding opened_fields sent_panels
quiet answer parse path multi blank i [] hb h = refl
quiet answer parse path multi blank i (l ∷ leaves) hb h =
    let skipped =
      make_field-Skipped parse path (field_name multi (label_of l)) l.text blank l.attributes l.item
        l.mandatory hb h.0 in
    elim (Option-cases (make_field parse blank l.text l.attributes l.item)) [
      | inl e ↦
          ap (sent_panels answer path multi i) (opened_cons parse blank l leaves none e)
          ∙ quiet answer parse path multi blank i leaves hb h.1
      | inr (f, e) ↦
          ap (sent_panels answer path multi i) (opened_cons parse blank l leaves (some f) e)
          ∙ sent_none answer path multi i (label_of l) f (opened_fields parse blank leaves)
              (rw e at skipped)
          ∙ quiet answer parse path multi blank (suc i) leaves hb h.1
    ]

-- A form as it is opened sends nothing: for leaves of which no text shows a value with a space behind its
-- first character and every number shows one that JavaScript takes for equal to the text of the node,
-- and if the row that the toolkit appends to a grid does not count as edited, a submission without an
-- edit ends with no request, nothing sent and no error.
pub submit-opened_fields :
    (answer : List Text → Answer) (parse : Text → Option ℕ) (path : Text) (multi : Bool)
    (blank : Row) (leaves : List Leaf) (first : Item) (rest : List Item)
    → blank.dirty ≡ false
    → All (ShownAsIs parse) leaves
    → submit
        (suc (length (opened_fields parse blank leaves)))
        answer
        path
        multi
        (drop prepared.index
          (first ∷ panels (opened_fields parse blank leaves) (submit_button ∷ rest)))
        prepared
      ≡ some (
        [],
        record {
          index = suc (length (opened_fields parse blank leaves) + 1);
          num_sent = 0;
          sent = [];
          errors = [];
        },
      )
unfolding failures
submit-opened_fields answer parse path multi blank leaves first rest hb h =
    submit_form answer path multi first (opened_fields parse blank leaves) rest
    ∙ ap
        (λ c.
          some (outcome answer path multi prepared (length (opened_fields parse blank leaves)) c))
        (quiet answer parse path multi blank 1 leaves hb h)
