-- ===== src/Leaf/SetButton.antt =====
-- The button `Set` of a form.
use vyatta_webgui.Base.{
  ℕ, ◌+◌, ◌≡◌, refl, sym, ap, ◌∙◌, inl, inr, Bool, true, false, not, ◌&&◌, ◌||◌, List, [], ◌∷◌,
  ◌++◌, arith, if◌then◌else◌, ltb, length, any, is_some, Bool-cases, append-nil,
}
use vyatta_webgui.Tree.{Attributes}
use vyatta_webgui.Leaf.{
  EditorItem, set_button, is_set_button, FormState, grown, leaf_single_handler, leaf_multi_handler,
  Child, leaf_child, inner_child, click_leaf, click_children,
}

abbrev pub is_leaf_child : Child → Bool
is_leaf_child (leaf_child a) = true
is_leaf_child inner_child = false

abbrev pub last_is_leaf : List Child → Bool
last_is_leaf [] = false
last_is_leaf (c ∷ []) = is_leaf_child c
last_is_leaf (c ∷ (d ∷ children)) = last_is_leaf (d ∷ children)

-- How many buttons there are.
abbrev pub buttons : List EditorItem → ℕ
buttons [] = 0
buttons (i ∷ items) = (if is_set_button i then 1 else 0) + buttons items

-- A leaf has a field if it has many values, values to choose from, or a type.
abbrev pub has_field : Attributes → Bool
has_field a = a.multi || (is_some a.enums || is_some a.type)

-- How many children have a field.
abbrev pub field_count : List Child → ℕ
field_count [] = 0
field_count (leaf_child a ∷ children) = (if has_field a then 1 else 0) + field_count children
field_count (inner_child ∷ children) = field_count children

buttons-append : (xs ys : List EditorItem) → buttons (xs ++ ys) ≡ buttons xs + buttons ys
buttons-append [] ys = omega arith
buttons-append (x ∷ xs) ys = omega (arith, buttons-append xs ys)

-- The field of a leaf.
abbrev field_of : Attributes → List EditorItem
field_of a = if not a.multi then leaf_single_handler a else leaf_multi_handler a

field_of-length : (a : Attributes) → length (field_of a) ≡ (if has_field a then 1 else 0)
unfolding leaf_single_handler leaf_multi_handler
field_of-length a = ground arith

field_of-buttons : (a : Attributes) → buttons (field_of a) ≡ 0
unfolding leaf_single_handler leaf_multi_handler
field_of-buttons a = ground arith

field_of-any : (a : Attributes) → any is_set_button (field_of a) ≡ false
unfolding leaf_single_handler leaf_multi_handler
field_of-any a = ground arith

-- A form with `n` items and no button.
abbrev pub fresh : ℕ → FormState
fresh n = record { count = n; has_button = false }

-- The fields of a leaf where `m_showLeaf` is as given.
abbrev made : Bool → Attributes → List EditorItem
made show_leaf a = if show_leaf then field_of a else []

abbrev pub shown_count : Bool → List Child → ℕ
shown_count show_leaf children = if show_leaf then field_count children else 0

shown_count-cons :
    (show_leaf : Bool) (a : Attributes) (children : List Child)
    → shown_count show_leaf (leaf_child a ∷ children)
      ≡ length (made show_leaf a) + shown_count show_leaf children
shown_count-cons true a children = omega (arith, field_of-length a)
shown_count-cons false a children = refl

made-buttons : (show_leaf : Bool) (a : Attributes) → buttons (made show_leaf a) ≡ 0
made-buttons true a = field_of-buttons a
made-buttons false a = refl

made-any : (show_leaf : Bool) (a : Attributes) → any is_set_button (made show_leaf a) ≡ false
made-any true a = field_of-any a
made-any false a = refl

last_leaf :
    (show_leaf : Bool) (n : ℕ) (a : Attributes)
    → buttons (click_leaf show_leaf (fresh n) true a)
      ≡ (if ltb 1 (n + length (made show_leaf a)) then 1 else 0)
unfolding click_leaf
last_leaf show_leaf n a = elim (Bool-cases (ltb 1 (n + length (made show_leaf a)))) [
  | inl e ↦ rw e (
      buttons-append (made show_leaf a) (set_button ∷ [])
      ∙ ap (λ (k : ℕ). k + 1) (made-buttons show_leaf a))
  | inr e ↦
      rw e (buttons-append (made show_leaf a) [] ∙ ap (λ (k : ℕ). k + 0) (made-buttons show_leaf a))
]

inner_leaf :
    (show_leaf : Bool) (n : ℕ) (a : Attributes)
    → click_leaf show_leaf (fresh n) false a ≡ made show_leaf a
unfolding click_leaf
inner_leaf show_leaf n a = append-nil (made show_leaf a)

grown-fresh :
    (show_leaf : Bool) (n : ℕ) (a : Attributes)
    → grown (fresh n) (made show_leaf a) ≡ fresh (n + length (made show_leaf a))
grown-fresh show_leaf n a = rw (made-any show_leaf a) refl

-- The fields of the children go to a form with `n` items, of which none is the button: it gets one
-- button `Set` if the last child is a leaf and the form then has more than one item, where a leaf adds
-- an item if `m_showLeaf` is set and the leaf has many values, values to choose from or a type, and no
-- button otherwise.
pub click_children_buttons :
    (show_leaf : Bool) (n : ℕ) (children : List Child)
    → buttons (click_children show_leaf (fresh n) children)
      ≡ (if last_is_leaf children && ltb 1 (n + shown_count show_leaf children) then 1 else 0)
unfolding click_children
click_children_buttons show_leaf n [] = refl
click_children_buttons show_leaf n (inner_child ∷ []) = refl
click_children_buttons show_leaf n (leaf_child a ∷ []) =
    buttons-append (click_leaf show_leaf (fresh n) true a) []
    ∙ ap (λ (k : ℕ). k + 0) (last_leaf show_leaf n a)
    ∙ ground (arith, shown_count-cons show_leaf a [])
click_children_buttons show_leaf n (inner_child ∷ (d ∷ children)) =
    click_children_buttons show_leaf n (d ∷ children)
click_children_buttons show_leaf n (leaf_child a ∷ (d ∷ children)) =
    let k = n + length (made show_leaf a) in
    let more = λ (added : List EditorItem).
      buttons (added ++ click_children show_leaf (grown (fresh n) added) (d ∷ children)) in
    let total : n + shown_count show_leaf (leaf_child a ∷ (d ∷ children))
        ≡ k + shown_count show_leaf (d ∷ children) =
      omega (arith, shown_count-cons show_leaf a (d ∷ children)) in
    ap more (inner_leaf show_leaf n a)
    ∙ buttons-append (made show_leaf a)
        (click_children show_leaf (grown (fresh n) (made show_leaf a)) (d ∷ children))
    ∙ ap
        (λ (b : ℕ).
          b
          + buttons (click_children show_leaf (grown (fresh n) (made show_leaf a)) (d ∷ children)))
        (made-buttons show_leaf a)
    ∙ ap (λ form. 0 + buttons (click_children show_leaf form (d ∷ children)))
        (grown-fresh show_leaf n a)
    ∙ ap (λ (b : ℕ). 0 + b) (click_children_buttons show_leaf k (d ∷ children))
    ∙ ap (λ (t : ℕ). 0 + (if last_is_leaf (d ∷ children) && ltb 1 t then 1 else 0)) (sym total)
    ∙ omega arith
