-- ===== src/Completion.antt =====
-- The end of a submission: `f_handleConfFormCommandDone` of
-- src/client/Vyatta/utils/vyatta-cli-command.js, with `f_handleFormIndicators` and `f_handleFieldError` of
-- src/client/Vyatta/js/vyatta-panels.js and the rows of a grid, `f_setGridViewClear` and
-- `f_setGridViewError` of src/client/Vyatta/js/vyatta-gridview.js.
pub mod Fields
pub mod Looks
pub mod Marks
pub mod Whole
use vyatta_webgui.Base.{
  ℕ, zero, suc, ◌+◌, ◌-◌, ◌*◌, ◌≤◌, ◌<◌, ◌≡◌, refl, sym, ap, ◌∙◌, ◌≢◌, ◌↔◌, ◌⊎◌, inl, inr, Bool,
  true, false, not, ◌&&◌, ◌||◌, Option, none, some, List, [], ◌∷◌, ◌++◌, map, append_assoc,
  append-nil, arith, ltb, leb, ◌==◌, if◌then◌else◌, Bool-cases, Option-cases, is_some, length,
  get_elem?, drop, take, any, all, All, All-append, length-append, ==_iff, ==_refl, lt→ltb, ltb→lt,
}
use vyatta_webgui.Text.{Text, codes, text_eq, count, contains, index_of, replace_first, split}
use vyatta_webgui.Text.Equality.{text_eq_iff, text_eq_refl}
use mathlib.Core.Option
use vyatta_webgui.Escape.{◌>>=◌}
use vyatta_webgui.Replace.{replace}
use vyatta_webgui.CommitErrors.{update_commit_errors}
use vyatta_webgui.Login.{Effect, error_message, hide_wait}
use vyatta_webgui.Tree.{Flag, Attributes, image, error}
use vyatta_webgui.Indicators.{
  FormField, value_field, other_type, panel_flag, update_dirty_indicator_panel,
}
use vyatta_webgui.Form.{Submission}

-- The input of a field: a text, number or choice with the class of its element, where it is rendered;
-- a grid with the markup of its rows and the row that was edited last; a box; or another one.
pub data Input : Type 0 where
  value_input : (class_name : Option Text) (value : Text) → Input
  grid_input : (rows : List Text) (m_row : Option ℕ) → Input
  check_input : (class_name : Text) (original value : Bool) → Input
  other_input : Input

-- The panel that a later click on the node made while the form was shown: the form keeps the first one
-- (`f_updateFieldValues2Panel`), but `node.m_inputPanel` is this one, which is never rendered. By the type
-- of its input; for a grid with whether the toolkit lets the rows of an unrendered grid be asked for.
pub data Behind : Type 0 where
  value_behind check_behind other_behind : Behind
  grid_behind : (has_rows : Bool) → Behind

-- The panel of a node in the form, and what `node.m_inputPanel` is: `behind` is `none` where it is this
-- panel. The node is given with it: its text and its parent's, its attributes with `value`, and the
-- markup of the indicator where that is rendered.
pub record Panel : Type 0 where
  pub text : Text
  pub parent_text : Option Text
  pub attributes : Attributes
  pub attr_value : Option Text
  pub input : Input
  pub dirty_html : Option Text
  pub behind : Option Behind

-- An item of the form; `none` has no node.
abbrev pub Item : Type 0
Item = Option Panel

abbrev pub Errors : Type 0
Errors = Option (List (List Text))

-- `f_setGridViewClear`, on the first rows.
unfoldable pub clear_rows : ℕ → List Text → Option (List Text)
clear_rows zero rows = some rows
clear_rows (suc n) [] = some []
clear_rows (suc n) (html ∷ rows) = do
  modified ← replace html (codes "x-grid3-modify-cell") []
  cleared ← replace modified (codes "x-grid3-error-cell") []
  rest ← clear_rows n rows
  some (cleared ∷ rest)

-- A change of one element; `none` where there is none.
abbrev pub change_at {ℓ} : {A : Type ℓ} → (A → Option A) → ℕ → List A → Option (List A)
change_at f i [] = none
change_at f zero (x ∷ xs) = Option.map (λ y. y ∷ xs) (f x)
change_at f (suc i) (x ∷ xs) = Option.map (λ ys. x ∷ ys) (change_at f i xs)

-- `f_setGridViewError`
unfoldable pub set_grid_view_error : List Text → Option ℕ → Option (List Text)
set_grid_view_error rows none = none
set_grid_view_error rows (some r) =
    change_at (λ html. replace html (codes "x-grid3-modify-cell") (codes "x-grid3-error-cell")) r
      rows

-- The switch of `f_handleFormIndicators` on the type, as far as it changes the field.
unfoldable pub clear_input : Input → Option Input
clear_input (value_input none value) = some (value_input none value)
clear_input (value_input (some cn) value) =
    Option.map (λ c. value_input (some c) value) (replace cn (codes "v-textfield-unsubmit") [])
clear_input (grid_input rows m_row) = Option.map (λ rs. grid_input rs m_row) (clear_rows 50 rows)
clear_input (check_input cn original value) =
    Option.map (λ c. check_input c value value)
      (replace cn (codes "v-bg-yellow") (codes "v-bg-white"))
clear_input other_input = some other_input

-- The field as the mark of the panel depends on it.
abbrev pub form_field : Input → FormField
form_field (value_input class_name value) = value_field (is_some class_name) value
form_field (grid_input rows m_row) = other_type
form_field (check_input class_name original value) = other_type
form_field other_input = other_type

unfoldable pub panel_mark : Panel → Flag
panel_mark p = panel_flag (some p.attributes) p.attr_value (form_field p.input)

-- The field and the mark of a panel after `f_handleFormIndicators`.
unfoldable pub clear_panel : Panel → Option Panel
clear_panel p = do
  input ← clear_input p.input
  html ← update_dirty_indicator_panel p.dirty_html (image (panel_mark p))
  some (record p { input = input; dirty_html = html })

-- A handler changes the panel in the form if it is the node's, and else one that is not shown, where
-- `returns` says whether it returns.
abbrev pub by_panel : (Behind → Bool) → Panel → Option Item → Option Behind → Option Item
by_panel returns p shown none = shown
by_panel returns p shown (some b) = if returns b then some (some p) else none

-- A handler on `node.m_inputPanel` of the node of an item.
abbrev pub on_node : (Panel → Option Panel) → (Behind → Bool) → Item → Option Item
on_node f returns none = some none
on_node f returns (some p) = by_panel returns p (Option.map some (f p)) p.behind

-- `f_handleFormIndicators` of a panel that is not rendered: a box has no element.
abbrev pub clears_behind : Behind → Bool
clears_behind value_behind = true
clears_behind check_behind = false
clears_behind other_behind = true
clears_behind (grid_behind has_rows) = has_rows

-- `f_handleFieldError` of such a panel: a grid has no row to change.
abbrev pub errs_behind : Behind → Bool
errs_behind (grid_behind has_rows) = false
errs_behind _ = true

-- `f_updateCommitErrors` on the node of an item.
abbrev pub forget_errors : Item → Errors → Errors
forget_errors none errs = errs
forget_errors (some p) errs = update_commit_errors (some p.text) p.parent_text errs

-- The items of the form and the buffer after a handler.
abbrev pub Marked : Type 0
Marked = Option (List Item × Errors)

abbrev pub forget_at : ℕ → List Item → Errors → Errors
forget_at i items errs = elim (get_elem? items i) [
  | none ↦ errs
  | some item ↦ forget_errors item errs
]

-- `f_handleFormIndicators` for the item of the form at an index.
unfoldable pub handle_form_indicators : ℕ → List Item → Errors → Marked
handle_form_indicators i items errs =
    Option.map (λ changed. (changed, forget_at i items errs))
      (change_at (on_node clear_panel clears_behind) i items)

unfoldable pub error_input : Input → Option Input
error_input (grid_input rows m_row) =
    Option.map (λ rs. grid_input rs m_row) (set_grid_view_error rows m_row)
error_input (value_input class_name value) = some (value_input class_name value)
error_input (check_input class_name original value) = some (check_input class_name original value)
error_input other_input = some other_input

unfoldable pub error_panel : Panel → Option Panel
error_panel p = do
  input ← error_input p.input
  html ← update_dirty_indicator_panel p.dirty_html (image error)
  some (record p { input = input; dirty_html = html })

unfoldable pub handle_field_error : Item → Option Item
handle_field_error item = on_node error_panel errs_behind item

-- The loop over the panels that were sent, by their indices in the form.
unfoldable pub mark_sent : List ℕ → List Item → Errors → Marked
mark_sent [] items errs = some (items, errs)
mark_sent (i ∷ sent) items errs = do r ← handle_form_indicators i items errs; mark_sent sent r.0 r.1

-- The loop over the errors: their text, and the items with their marks.
unfoldable pub mark_errors : List (Text × ℕ) → List Item → Option (Text × List Item)
mark_errors [] items = some ([], items)
mark_errors ((text, i) ∷ errors) items = do
  marked ← change_at handle_field_error i items
  rest ← mark_errors errors marked
  some (text ++ rest.0, rest.1)

-- What the end of a submission leaves: the items, the buffer of commit errors, whether the commit is
-- available and the node reloads, and what is shown.
pub record Completion : Type 0 where
  pub items : List Item
  pub errors : Errors
  pub commit_available : Bool
  pub reloads : Bool
  pub shown : List Effect

abbrev pub prompt : List (Text × ℕ) → Text → List Effect
prompt [] err = []
prompt (e ∷ errors) err = error_message (codes "Changing configuration...") err ∷ []

unfoldable pub handle_conf_form_command_done :
    Submission → List Item → Errors → Bool → Option Completion
handle_conf_form_command_done s items errs available =
    if ltb 0 s.num_sent
    then (do
      sent ← mark_sent s.sent items errs
      told ← mark_errors s.errors sent.0
      some (record {
        items = told.1;
        errors = sent.1;
        commit_available = true;
        reloads = true;
        shown = hide_wait ∷ prompt s.errors told.0;
      }))
    else some (record {
      items = items;
      errors = errs;
      commit_available = available;
      reloads = false;
      shown = [];
    })

-- What the load of the node then does (`onReloadHandler`), in order.
pub data ReloadAct : Type 0 where
  set_configured click_node load_child_node propagate_parents offer_commit render_toolbar
        forget_handler :
      ReloadAct

unfoldable pub on_reload_handler : Bool → List ReloadAct
on_reload_handler multi =
    set_configured
    ∷ (click_node
        ∷ ((if multi then load_child_node ∷ [] else [])
            ++ (propagate_parents ∷ (offer_commit ∷ (render_toolbar ∷ (forget_handler ∷ []))))))
