-- ===== src/Grid/Filling.antt =====
-- A grid that was filled and not edited.
use mathlib.Core.Path.{subst}
use vyatta_webgui.Base.{
  ℕ, zero, suc, ◌≡◌, refl, ◌∙◌, inl, inr, Bool, true, false, some, List, [], ◌∷◌, ◌++◌, arith, ◌==◌,
  Bool-cases, length, All, All-append,
}
use vyatta_webgui.Text.{Text}
use vyatta_webgui.Text.Equality.{text_eq_refl}
use vyatta_webgui.Grid.{
  Row, is_read, row_changes, get_edit_grid_checker_values, is_edit_grid_value_check,
  is_edit_grid_value_new_added, enum_rows, extra_rows, filled_rows, new_row, copies,
  create_edit_grid, is_edit_grid_dirty,
}
use vyatta_webgui.Grid.Changes.{row_changes_lem, needed}

-- The row asks for no change of the values `olds`.
abbrev AsSet : List Text → Row → Type 0
AsSet olds r = row_changes (some olds) r ≡ []

needed_same : (val : Text) (b : Bool) → needed val b b ≡ []
needed_same val true = refl
needed_same val false = refl

not_read : (olds : List Text) (r : Row) → is_read r ≡ false → AsSet olds r
unfolding row_changes
not_read olds r e = simp e refl

new_row-AsSet :
    (olds : List Text) (val : Text) → AsSet olds (new_row val (is_edit_grid_value_check val olds))
new_row-AsSet olds val =
    let r = new_row val (is_edit_grid_value_check val olds) in
    elim (Bool-cases (is_read r)) [
      | inl e ↦ row_changes_lem olds r e ∙ needed_same val (is_edit_grid_value_check val olds)
      | inr e ↦ not_read olds r e
    ]

no_changes :
    (olds : List Text) (rows : List Row)
    → All (AsSet olds) rows
    → get_edit_grid_checker_values (some olds) rows ≡ []
unfolding get_edit_grid_checker_values
no_changes olds [] h = refl
no_changes olds (r ∷ rows) (hr, h) = rw (hr, no_changes olds rows h) refl

blank-AsSet : (olds : List Text) (blank : Row) → blank.value ≡ [] → AsSet olds blank
unfolding row_changes
blank-AsSet olds blank h = simp h refl

copies-AsSet :
    (olds : List Text) (blank : Row) (n : ℕ) → AsSet olds blank → All (AsSet olds) (copies n blank)
copies-AsSet olds blank zero h = tt
copies-AsSet olds blank (suc n) h = (h, copies-AsSet olds blank n h)

enum_rows-AsSet : (olds enums : List Text) → All (AsSet olds) (enum_rows olds enums)
unfolding enum_rows
enum_rows-AsSet olds [] = tt
enum_rows-AsSet olds (e ∷ enums) = (new_row-AsSet olds e, enum_rows-AsSet olds enums)

-- All values are among `olds`.
abbrev Members : List Text → List Text → Type 0
Members olds = All (λ v. is_edit_grid_value_check v olds ≡ true)

extra_rows-AsSet :
    (olds enums values : List Text)
    → Members olds values
    → All (AsSet olds) (extra_rows enums values)
unfolding extra_rows
extra_rows-AsSet olds enums [] h = tt
extra_rows-AsSet olds enums (v ∷ values) (hv, h) =
    let row : AsSet olds (new_row v true) =
      subst (λ b. AsSet olds (new_row v b)) hv (new_row-AsSet olds v) in
    elim (Bool-cases (is_edit_grid_value_new_added (some enums) v)) [
      | inl e ↦ rw e (row, extra_rows-AsSet olds enums values h)
      | inr e ↦ rw e (extra_rows-AsSet olds enums values h)
    ]

member_cons :
    (v w : Text) (olds : List Text)
    → is_edit_grid_value_check v olds ≡ true
    → is_edit_grid_value_check v (w ∷ olds) ≡ true
unfolding is_edit_grid_value_check
member_cons v w olds h = ground arith

Members-cons :
    (w : Text) (olds values : List Text) → Members olds values → Members (w ∷ olds) values
Members-cons w olds [] h = tt
Members-cons w olds (v ∷ values) (hv, h) = (member_cons v w olds hv, Members-cons w olds values h)

Members-self : (values : List Text) → Members values values
unfolding is_edit_grid_value_check
Members-self [] = tt
Members-self (v ∷ values) =
    (rw (text_eq_refl v) refl, Members-cons v values values (Members-self values))

suc-eqb-zero : (n : ℕ) → (suc n == 0) ≡ false
suc-eqb-zero n = ground arith

-- A grid with boxes, filled from the values of a node and left as it is, counts as unchanged and
-- gives no change for these values, whatever the values and the choices are, if the row appended for
-- an empty text has an empty value.
pub create_edit_grid-unchanged :
    (blank : Row) (values : List Text) (enum : Text) (enums : List Text)
    → blank.value ≡ []
    → (is_edit_grid_dirty (create_edit_grid blank values (enum ∷ enums)) ≡ false)
      × (get_edit_grid_checker_values
            (some values)
            (create_edit_grid blank values (enum ∷ enums)).rows
          ≡ [])
unfolding create_edit_grid filled_rows is_edit_grid_dirty
create_edit_grid-unchanged blank values enum enums h = (
  rw (suc-eqb-zero (length enums)) refl,
  no_changes values _ (
      All-append (AsSet values)
        (enum_rows values (enum ∷ enums) ++ extra_rows (enum ∷ enums) values) (copies _ blank)
        (All-append (AsSet values) (enum_rows values (enum ∷ enums))
          (extra_rows (enum ∷ enums) values) (enum_rows-AsSet values (enum ∷ enums))
          (extra_rows-AsSet values (enum ∷ enums) values (Members-self values)))
        (copies-AsSet values blank _ (blank-AsSet values blank h))),
)
