-- ===== src/Leaf.antt =====
-- Which fields a click on a node of the configuration tree puts into the editor
-- (`f_HandleNodeConfigClick` and the handlers it calls, src/client/Vyatta/js/vyatta-tree.js).
pub mod SetButton
use vyatta_webgui.Base.{
  ℕ, zero, suc, ◌+◌, ◌-◌, ◌*◌, ◌≤◌, ◌<◌, ◌≡◌, refl, sym, ap, ◌∙◌, ◌≢◌, ◌↔◌, ◌⊎◌, inl, inr, Bool,
  true, false, not, ◌&&◌, ◌||◌, Option, none, some, List, [], ◌∷◌, ◌++◌, map, append_assoc,
  append-nil, arith, ltb, leb, ◌==◌, if◌then◌else◌, Bool-cases, Option-cases, is_some, length,
  get_elem?, drop, take, any, all, All, All-append, length-append, ==_iff, ==_refl, lt→ltb, ltb→lt,
}
use vyatta_webgui.Text.{Text, codes, text_eq, count, contains, index_of, replace_first, split}
use vyatta_webgui.Text.Equality.{text_eq_iff, text_eq_refl}
use vyatta_webgui.Tree.{Attributes}

-- What is added to the editor.
pub data EditorItem : Type 0 where
  single_enum : List Text → EditorItem
  single_bool : EditorItem
  single_u32 : EditorItem
  single_text : EditorItem
  multi_enum : List Text → EditorItem
  multi_u32 : EditorItem
  multi_text : EditorItem
  set_button : EditorItem

-- `f_leafSingleHandler`; a node without a type gets no field.
unfoldable pub leaf_single_handler : Attributes → List EditorItem
leaf_single_handler a = elim a.enums [
  | some enums ↦ single_enum enums ∷ []
  | none ↦ elim a.type [
    | none ↦ []
    | some t ↦
        if text_eq t (codes "bool")
        then single_bool ∷ []
        else if text_eq t (codes "u32")
        then single_u32 ∷ []
        else single_text ∷ []
  ]
]

abbrev pub is_u32 : Option Text → Bool
is_u32 none = false
is_u32 (some t) = text_eq t (codes "u32")

unfoldable pub leaf_multi_handler : Attributes → List EditorItem
leaf_multi_handler a = elim a.enums [
  | some enums ↦ multi_enum enums ∷ []
  | none ↦ if is_u32 a.type then multi_u32 ∷ [] else multi_text ∷ []
]

-- `f_interMultiHandler`
unfoldable pub inter_multi_handler : Attributes → List EditorItem
inter_multi_handler a = elim a.enums [
  | some enums ↦ single_text ∷ []
  | none ↦ if is_u32 a.type then single_u32 ∷ [] else single_text ∷ []
]

-- A child of a node, as far as the editor of the node is concerned.
pub data Child : Type 0 where
  leaf_child : Attributes → Child
  inner_child : Child

-- The form of the editor as far as the button `Set` depends on it: how many items it has, the title
-- included, and whether it has that button. No field with the label of a new one is in it.
pub record FormState : Type 0 where
  pub count : ℕ
  pub has_button : Bool

-- `f_addConfiSetButton`, once `added` items were added.
abbrev pub set_button_after : FormState → List EditorItem → List EditorItem
set_button_after form added =
    if not form.has_button && ltb 1 (form.count + length added) then set_button ∷ [] else []

-- The click on a leaf: its field where `m_showLeaf` is set, and the button after the last of its
-- siblings.
unfoldable pub click_leaf :
    (show_leaf : Bool) → FormState → (is_last : Bool) → Attributes → List EditorItem
click_leaf show_leaf form is_last a =
    let field =
      if show_leaf
      then (if not a.multi then leaf_single_handler a else leaf_multi_handler a)
      else [] in
    field ++ (if is_last then set_button_after form field else [])

abbrev pub is_empty {ℓ} : {A : Type ℓ} → List A → Bool
is_empty [] = true
is_empty (x ∷ xs) = false

abbrev pub is_set_button : EditorItem → Bool
is_set_button set_button = true
is_set_button _ = false

-- The form with what was added.
abbrev pub grown : FormState → List EditorItem → FormState
grown form added = record {
  count = form.count + length added;
  has_button = form.has_button || any is_set_button added;
}

-- The loop of `f_interHandler` over the children.
unfoldable pub click_children : (show_leaf : Bool) → FormState → List Child → List EditorItem
click_children show_leaf form [] = []
click_children show_leaf form (leaf_child a ∷ children) =
    let added = click_leaf show_leaf form (is_empty children) a in
    added ++ click_children show_leaf (grown form added) children
click_children show_leaf form (inner_child ∷ children) = click_children show_leaf form children

unfoldable pub inter_handler : Bool → FormState → Text → List Child → List EditorItem
inter_handler show_leaf form path children =
    if text_eq path (codes " Configuration") then [] else click_children show_leaf form children

-- The click on a node that is not a leaf, once it is expanded.
unfoldable pub click_inner : Bool → FormState → Text → Attributes → List Child → List EditorItem
click_inner show_leaf form path a children =
    let fields =
      if not a.multi
      then inter_handler show_leaf form path children
      else if show_leaf
      then inter_multi_handler a
      else [] in
    fields ++ (if a.multi then set_button_after (grown form fields) [] else [])

-- Whether a click empties the editor: not for a child, and not for the node that is shown already.
unfoldable pub cleans_editor : Option Bool → Text → Text → Bool
cleans_editor (some true) shown title = false
cleans_editor (some false) shown title = not (text_eq shown title)
cleans_editor none shown title = not (text_eq shown title)
