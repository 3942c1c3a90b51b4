-- ===== src/Editor/Adding.antt =====
-- What `f_addField2Panel` makes of a form: it stays, or the field is new and stands at its end.
use vyatta_webgui.Base.{
  ℕ, suc, ◌≡◌, refl, sym, ap, ◌∙◌, ◌⊎◌, inl, inr, Bool, true, false, none, some, List, [], ◌∷◌,
  ◌++◌, length, All,
}
use vyatta_webgui.Editor.{
  insert_placed, next_index, Fields, Form, Walked, update_field_values2_panel, dressed,
  insert_field, add_walked,
}
use vyatta_webgui.Editor.Unique.{Differ, NotButton, walk-Kept}

-- The form with a new field at its end.
abbrev pub grown : Bool → Form → Fields → Form
grown help_on form f = record form {
  items = form.items ++ (dressed help_on form.m_fd_index (suc (length form.items)) f ∷ []);
  m_fd_index = next_index f form.m_fd_index (suc (length form.items));
}

-- The form stays, or the label of the field was not there and the field is added.
abbrev pub Added : Bool → Fields → Form → Form → Type 0
Added help_on f form form' =
    (form' ≡ form) ⊎ (All (Differ f) form.items × (form' ≡ grown help_on form f))

insert-NotButton :
    (f : Fields) (items : List Fields) → NotButton f → insert_field f items ≡ items ++ (f ∷ [])
insert-NotButton f items h = rw h

-- The state of a form by its items and the index of the next input.
abbrev with_items : Form → List Fields → ℕ → Form
with_items form items index = record form { items = items; m_fd_index = index }

-- The form with a field that was placed when the form had `items`.
abbrev placed_at : Bool → Form → Fields → List Fields → List Fields → Form
placed_at help_on form f kept items =
    with_items form (kept ++ (dressed help_on form.m_fd_index (suc (length items)) f ∷ []))
      (next_index f form.m_fd_index (suc (length items)))

insert_placed-grown :
    (placed : Fields) (index : ℕ) (form form' : Form) (w : Walked)
    → All NotButton form.items
    → NotButton placed
    → update_field_values2_panel placed form.items ≡ w
    → insert_placed placed index form w ≡ some form'
    → form' ≡ with_items form (form.items ++ (placed ∷ [])) index
insert_placed-grown placed index form form' none plain hf e h = absurd (cc)
insert_placed-grown placed index form form' (some (fresh, kept)) plain hf e h =
    let (same, seen) = walk-Kept placed form.items (fresh, kept) plain e in
    let whole : with_items form (insert_field placed kept) index ≡ form' = cc in
    sym whole
    ∙ ap (λ l. with_items form l index)
        (insert-NotButton placed kept hf ∙ ap (λ l. l ++ (placed ∷ [])) same)

-- A field that the walk found to be new.
pub add_walked-grown :
    (help_on : Bool) (f : Fields) (form form' : Form) (items : List Fields)
    → All NotButton form.items
    → NotButton f
    → update_field_values2_panel f form.items ≡ some (true, items)
    → add_walked help_on f form (some (true, items)) ≡ some form'
    → All (Differ f) form.items × (form' ≡ grown help_on form f)
unfolding add_walked
add_walked-grown help_on f form form' items plain hf e h =
    let (same, seen) = walk-Kept f form.items (true, items) plain e in
    (
      seen refl,
      insert_placed-grown (dressed help_on form.m_fd_index (suc (length items)) f)
            (next_index f form.m_fd_index (suc (length items))) form form' _ plain hf refl h
          ∙ ap (placed_at help_on form f form.items) same,
    )

pub add_walked-Added :
    (help_on : Bool) (f : Fields) (form form' : Form) (w : Walked)
    → All NotButton form.items
    → NotButton f
    → update_field_values2_panel f form.items ≡ w
    → add_walked help_on f form w ≡ some form'
    → Added help_on f form form'
unfolding add_walked
add_walked-Added help_on f form form' none plain hf e h = absurd (cc)
add_walked-Added help_on f form form' (some (false, items)) plain hf e h =
    let (same, seen) = walk-Kept f form.items (false, items) plain e in
    let whole : with_items form items form.m_fd_index ≡ form' = cc in
    inl (sym whole ∙ ap (λ l. with_items form l form.m_fd_index) same)
add_walked-Added help_on f form form' (some (true, items)) plain hf e h =
    inr (add_walked-grown help_on f form form' items plain hf e h)
