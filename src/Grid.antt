-- ===== src/Grid.antt =====
-- The grids of a field with many values: `f_createEditGrid` and what reads a grid back, in
-- src/client/Vyatta/js/vyatta-panels.js, and the radio column of
-- src/client/Vyatta/utils/vyatta_grid_checkColumn.js.
pub mod Changes
pub mod Filling
use vyatta_webgui.Base.{
  ℕ, zero, suc, ◌+◌, ◌-◌, ◌*◌, ◌≤◌, ◌<◌, ◌≡◌, refl, sym, ap, ◌∙◌, ◌≢◌, ◌↔◌, ◌⊎◌, inl, inr, Bool,
  true, false, not, ◌&&◌, ◌||◌, Option, none, some, List, [], ◌∷◌, ◌++◌, map, append_assoc,
  append-nil, arith, ltb, leb, ◌==◌, if◌then◌else◌, Bool-cases, Option-cases, is_some, length,
  get_elem?, drop, take, any, all, All, All-append, length-append, ==_iff, ==_refl, lt→ltb, ltb→lt,
}
use vyatta_webgui.Text.{Text, codes, text_eq, count, contains, index_of, replace_first, split}
use vyatta_webgui.Text.Equality.{text_eq_iff, text_eq_refl}

-- A record of a grid's store. `failed` is the mark `error`, which a value the server refused has.
pub record Row : Type 0 where
  pub value : Text
  pub checker : Bool
  pub dirty : Bool
  pub failed : Bool

pub record GridStore : Type 0 where
  pub is_checker : Bool
  pub checker_dirty : Bool
  pub rows : List Row

unfoldable pub is_edit_grid_dirty : GridStore → Bool
is_edit_grid_dirty store =
    if store.is_checker then store.checker_dirty else any (λ r. r.dirty) store.rows

-- `val.length > 0 && !rec.error`
abbrev pub is_read : Row → Bool
is_read r = ltb 0 (length r.value) && not r.failed

unfoldable pub get_edit_grid_values : List Row → List Text
get_edit_grid_values [] = []
get_edit_grid_values (r ∷ rows) =
    let rest = get_edit_grid_values rows in if is_read r then r.value ∷ rest else rest

-- The inner loop of `f_getEditGridCheckerValues` on the values the node had: whether `[val, false]`
-- is pushed, and the flag `add` after the loop.
unfoldable pub compare_values : Text → Bool → List Text → Bool × Bool
compare_values val checker [] = (false, true)
compare_values val checker (old ∷ olds) =
    let rest = compare_values val checker olds in
    if text_eq val old && not checker
    then (true, true)
    else if text_eq val old && checker
    then (false, false)
    else rest

-- The changes of a row.
unfoldable pub row_changes : Option (List Text) → Row → List (Text × Bool)
row_changes values r =
    let found : Bool × Bool = elim values [
      | none ↦ (false, true)
      | some olds ↦ compare_values r.value r.checker olds
    ] in
    if is_read r
    then (if found.0 then (r.value, r.checker) ∷ [] else [])
      ++ (if r.checker && found.1 then (r.value, r.checker) ∷ [] else [])
    else []

unfoldable pub get_edit_grid_checker_values : Option (List Text) → List Row → List (Text × Bool)
get_edit_grid_checker_values values [] = []
get_edit_grid_checker_values values (r ∷ rows) =
    row_changes values r ++ get_edit_grid_checker_values values rows

unfoldable pub is_edit_grid_value_check : Text → List Text → Bool
is_edit_grid_value_check val [] = false
is_edit_grid_value_check val (v ∷ values) =
    let rest = is_edit_grid_value_check val values in if text_eq v val then true else rest

-- The loop of `f_isEditGridValueNewAdded`, with the flag it carries.
abbrev pub new_added_loop : Bool → List Text → Text → Bool
new_added_loop is_new [] val = is_new
new_added_loop is_new (e ∷ enums) val =
    new_added_loop (if text_eq e val then false else is_new) enums val

unfoldable pub is_edit_grid_value_new_added : Option (List Text) → Text → Bool
is_edit_grid_value_new_added none val = true
is_edit_grid_value_new_added (some []) val = true
is_edit_grid_value_new_added (some (e ∷ enums)) val = new_added_loop true (e ∷ enums) val

abbrev pub new_row : Text → Bool → Row
new_row value checker = record { value = value; checker = checker; dirty = false; failed = false }

-- The rows of the values to choose from, each checked if it is set.
unfoldable pub enum_rows : List Text → List Text → List Row
enum_rows values [] = []
enum_rows values (e ∷ enums) =
    new_row e (is_edit_grid_value_check e values) ∷ enum_rows values enums

-- The rows of the values that are set and not among those to choose from.
unfoldable pub extra_rows : List Text → List Text → List Row
extra_rows enums [] = []
extra_rows enums (v ∷ values) =
    let rest = extra_rows enums values in
    if is_edit_grid_value_new_added (some enums) v then new_row v true ∷ rest else rest

unfoldable pub value_rows : List Text → List Row
value_rows [] = []
value_rows (v ∷ values) = new_row v false ∷ value_rows values

unfoldable pub filled_rows : List Text → List Text → List Row
filled_rows values [] = value_rows values
filled_rows values (e ∷ enums) = enum_rows values (e ∷ enums) ++ extra_rows (e ∷ enums) values

abbrev pub copies {ℓ} : {A : Type ℓ} → ℕ → A → List A
copies zero x = []
copies (suc n) x = x ∷ copies n x

-- The store as `f_createEditGrid` fills it. `blank` is the row that the toolkit's `loadData` appends
-- for an empty text.
unfoldable pub create_edit_grid : Row → List Text → List Text → GridStore
create_edit_grid blank values enums =
    let rows = filled_rows values enums in
    record {
      is_checker = not (length enums == 0);
      checker_dirty = false;
      rows = rows ++ copies (50 - length rows) blank;
    }
