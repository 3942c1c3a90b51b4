-- ===== src/Grid/Changes.antt =====
-- The changes that a grid with boxes gives are those that lead from the values of the node to the
-- boxes that are checked.
use vyatta_webgui.Base.{
  ◌≡◌, refl, sym, ap, ◌∙◌, inl, inr, Bool, true, false, not, ◌&&◌, ◌||◌, some, List, [], ◌∷◌, ◌++◌,
  arith, if◌then◌else◌, Bool-cases,
}
use vyatta_webgui.Text.{Text, text_eq}
use vyatta_webgui.Text.Equality.{text_eq_iff, text_eq_refl}
use vyatta_webgui.Grid.{
  Row, is_read, compare_values, row_changes, get_edit_grid_checker_values, is_edit_grid_value_check,
}

-- Whether a value is set after the changes, where `set` says whether it was.
unfoldable pub after_changes : List (Text × Bool) → Bool → Text → Bool
after_changes [] set v = set
after_changes ((val, checked) ∷ changes) set v =
    after_changes changes (if text_eq val v then checked else set) v

-- Whether the grid shows a value as set: by the box of its row, or as before where it has none.
unfoldable pub shown_as_set : List Row → Bool → Text → Bool
shown_as_set [] set v = set
shown_as_set (r ∷ rows) set v =
    let rest = shown_as_set rows set v in if is_read r && text_eq r.value v then r.checker else rest

-- Whether a row that is read has the value.
unfoldable pub has_row : Text → List Row → Bool
has_row v [] = false
has_row v (r ∷ rows) = (is_read r && text_eq r.value v) || has_row v rows

-- No value has two rows that are read.
abbrev pub DistinctRows : List Row → Type 0
DistinctRows [] = Unit
DistinctRows (r ∷ rows) = ((is_read r ≡ true) → has_row r.value rows ≡ false) × DistinctRows rows

after_changes-append :
    (xs ys : List (Text × Bool)) (set : Bool) (v : Text)
    → after_changes (xs ++ ys) set v ≡ after_changes ys (after_changes xs set v) v
unfolding after_changes
after_changes-append [] ys set v = refl
after_changes-append ((val, checked) ∷ xs) ys set v =
    after_changes-append xs ys (if text_eq val v then checked else set) v

-- The change that the values of the node ask for.
abbrev pub needed : Text → Bool → Bool → List (Text × Bool)
needed val true true = []
needed val true false = (val, false) ∷ []
needed val false true = (val, true) ∷ []
needed val false false = []

text_eq_comm : (s t : Text) → text_eq s t ≡ text_eq t s
unfolding text_eq
text_eq_comm [] [] = refl
text_eq_comm [] (b ∷ t) = refl
text_eq_comm (a ∷ s) [] = refl
text_eq_comm (a ∷ s) (b ∷ t) = ground (arith, text_eq_comm s t)

found_value :
    (checker : Bool) (rest : Bool × Bool)
    → if◌then◌else◌ (not checker) (true, true) (if◌then◌else◌ checker (false, false) rest)
      ≡ (not checker, not checker)
found_value true rest = refl
found_value false rest = refl

needed_lem :
    (val : Text) (found checker : Bool)
    → if◌then◌else◌ (found && not checker) ((val, checker) ∷ []) []
        ++ if◌then◌else◌ (checker && not (found && checker)) ((val, checker) ∷ []) []
      ≡ needed val found checker
needed_lem val true true = refl
needed_lem val true false = refl
needed_lem val false true = refl
needed_lem val false false = refl

compare_values_lem :
    (val : Text) (checker : Bool) (olds : List Text)
    → compare_values val checker olds ≡ (
      is_edit_grid_value_check val olds && not checker,
      not (is_edit_grid_value_check val olds && checker),
    )
unfolding compare_values is_edit_grid_value_check
compare_values_lem val checker [] = refl
compare_values_lem val checker (old ∷ olds) = elim (Bool-cases (text_eq old val)) [
  | inl e ↦ rw (text_eq_comm val old, e) (found_value checker (compare_values val checker olds))
  | inr e ↦ rw (text_eq_comm val old, e) (compare_values_lem val checker olds)
]

pub row_changes_lem :
    (olds : List Text) (r : Row)
    → is_read r ≡ true
    → row_changes (some olds) r ≡ needed r.value (is_edit_grid_value_check r.value olds) r.checker
unfolding row_changes
row_changes_lem olds r h =
    simp (h, compare_values_lem r.value r.checker olds)
      (needed_lem r.value (is_edit_grid_value_check r.value olds) r.checker)

module _ (v : Text) (olds : List Text) where
  row_changes_other :
      (r : Row) (set : Bool)
      → (is_read r && text_eq r.value v) ≡ false
      → after_changes (row_changes (some olds) r) set v ≡ set
  unfolding row_changes after_changes
  row_changes_other r set h = ground arith

  changes_without_row :
      (rows : List Row) (set : Bool)
      → has_row v rows ≡ false
      → after_changes (get_edit_grid_checker_values (some olds) rows) set v ≡ set
  unfolding get_edit_grid_checker_values has_row after_changes
  changes_without_row [] set h = refl
  changes_without_row (r ∷ rows) set h =
      after_changes-append (row_changes (some olds) r)
        (get_edit_grid_checker_values (some olds) rows) set v
      ∙ ap (λ b. after_changes (get_edit_grid_checker_values (some olds) rows) b v)
          (row_changes_other r set (ground arith))
      ∙ changes_without_row rows set (ground arith)

  text_eq_value : (r : Row) → text_eq r.value v ≡ true → r.value ≡ v
  text_eq_value r h = (text_eq_iff r.value v).0 h

  after_needed : (found checker : Bool) → after_changes (needed v found checker) found v ≡ checker
  unfolding after_changes
  after_needed true true = refl
  after_needed true false = rw (text_eq_refl v) refl
  after_needed false true = rw (text_eq_refl v) refl
  after_needed false false = refl

  row_changes_own :
      (r : Row)
      → is_read r ≡ true
      → text_eq r.value v ≡ true
      → after_changes (row_changes (some olds) r) (is_edit_grid_value_check v olds) v ≡ r.checker
  row_changes_own r read e =
      ap (λ cs. after_changes cs (is_edit_grid_value_check v olds) v) (row_changes_lem olds r read)
      ∙ ap
          (λ w.
            after_changes (needed w (is_edit_grid_value_check w olds) r.checker)
              (is_edit_grid_value_check v olds) v)
          (text_eq_value r e)
      ∙ after_needed (is_edit_grid_value_check v olds) r.checker

  -- Where no value has two rows, the changes that the grid gives turn the values of the node into
  -- what the grid shows: after them a value is set exactly if its row is checked, and a value without
  -- a row stays as it was.
  pub checker_values-shown_as_set :
      (rows : List Row)
      → DistinctRows rows
      → after_changes
          (get_edit_grid_checker_values (some olds) rows)
          (is_edit_grid_value_check v olds)
          v
        ≡ shown_as_set rows (is_edit_grid_value_check v olds) v
  unfolding get_edit_grid_checker_values shown_as_set after_changes
  checker_values-shown_as_set [] distinct = refl
  checker_values-shown_as_set (r ∷ rows) (own, distinct) =
      after_changes-append (row_changes (some olds) r)
        (get_edit_grid_checker_values (some olds) rows) (is_edit_grid_value_check v olds) v
      ∙ elim (Bool-cases (is_read r && text_eq r.value v)) [
        | inl e ↦
            let read : is_read r ≡ true = ground arith in
            let same : text_eq r.value v ≡ true = ground arith in
            ap (λ b. after_changes (get_edit_grid_checker_values (some olds) rows) b v)
              (row_changes_own r read same)
            ∙ changes_without_row rows r.checker
                (sym (ap (λ w. has_row w rows) (text_eq_value r same)) ∙ own read)
            ∙ rw e refl
        | inr e ↦
            ap (λ b. after_changes (get_edit_grid_checker_values (some olds) rows) b v)
              (row_changes_other r (is_edit_grid_value_check v olds) e)
            ∙ checker_values-shown_as_set rows distinct
            ∙ rw e refl
      ]
