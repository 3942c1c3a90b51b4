-- ===== src/Completion/Looks.antt =====
-- An input at the end of a submission: only its looks change, and the changes return.
use vyatta_webgui.Base.{
  ℕ, zero, suc, ◌<◌, ◌≡◌, refl, sym, ap, ◌∙◌, Bool, true, false, Option, none, some, List, [], ◌∷◌,
  arith, ltb, length, get_elem?, ltb→lt,
}
use vyatta_webgui.Text.{Text, codes, count}
use mathlib.Core.Option
use vyatta_webgui.Replace.{is_literal, replace}
use vyatta_webgui.Replace.Termination.{Replaced, replace-Replaced}
use vyatta_webgui.Completion.{
  Input, value_input, grid_input, check_input, other_input, clear_rows, change_at,
  set_grid_view_error, clear_input, form_field, error_input,
}
use vyatta_webgui.Completion.Fields.{change_at-returns}

-- Whether an error can be shown in the input: a grid has a row that was edited.
abbrev pub can_show_error : Input → Bool
can_show_error (grid_input rows none) = false
can_show_error (grid_input rows (some r)) = ltb r (length rows)
can_show_error (value_input class_name value) = true
can_show_error (check_input class_name original value) = true
can_show_error other_input = true

-- An input after a change that only concerns its looks.
pub record Alike (old : Input) (result : Option Input) : Type 0 where
  pub input : Input
  pub returns : result ≡ some input
  pub same_field : form_field input ≡ form_field old
  pub same_rows : can_show_error input ≡ can_show_error old

fewer :
    (0 < count 45 (codes "x-grid3-modify-cell"))
    × (0 < count 45 (codes "x-grid3-error-cell"))
    × (0 < count 45 (codes "v-textfield-unsubmit"))
    × (count 121 (codes "v-bg-white") < count 121 (codes "v-bg-yellow"))
    × (count 121 (codes "x-grid3-error-cell") < count 121 (codes "x-grid3-modify-cell"))
unfolding count
fewer = (omega arith, omega arith, omega arith, omega arith, omega arith)

erased :
    (html mark : Text)
    → 0 < count 45 mark
    → is_literal mark ≡ true
    → Replaced mark (replace html mark [])
unfolding count
erased html mark h plain = replace-Replaced mark [] 45 h html plain refl

clear_rows-returns :
    (n : ℕ) (rows : List Text)
    → (rs : List Text) × (clear_rows n rows ≡ some rs) × (length rs ≡ length rows)
unfolding clear_rows
clear_rows-returns zero rows = (rows, refl, refl)
clear_rows-returns (suc n) [] = ([], refl, refl)
clear_rows-returns (suc n) (html ∷ rows) =
    let one = erased html (codes "x-grid3-modify-cell") fewer.0 refl in
    let two = erased one.value (codes "x-grid3-error-cell") fewer.1 refl in
    let (rs, e, same) = clear_rows-returns n rows in
    (two.value ∷ rs, rw (one.returns, two.returns, e) refl, ap suc same)

same_length :
    (rows rs : List Text) (m_row : Option ℕ)
    → length rs ≡ length rows
    → can_show_error (grid_input rs m_row) ≡ can_show_error (grid_input rows m_row)
same_length rows rs none same = refl
same_length rows rs (some r) same = ap (ltb r) same

pub clear_input-Alike : (i : Input) → Alike i (clear_input i)
unfolding clear_input
clear_input-Alike (value_input none value) = record {
  input = value_input none value;
  returns = refl;
  same_field = refl;
  same_rows = refl;
}
clear_input-Alike (value_input (some cn) value) =
    let r = erased cn (codes "v-textfield-unsubmit") fewer.2 refl in
    record {
      input = value_input (some r.value) value;
      returns = ap (Option.map (λ c. value_input (some c) value)) r.returns;
      same_field = refl;
      same_rows = refl;
    }
clear_input-Alike (grid_input rows m_row) =
    let (rs, e, same) = clear_rows-returns 50 rows in
    record {
      input = grid_input rs m_row;
      returns = ap (Option.map (λ r. grid_input r m_row)) e;
      same_field = refl;
      same_rows = same_length rows rs m_row same;
    }
clear_input-Alike (check_input cn original value) =
    let r = replace-Replaced (codes "v-bg-yellow") (codes "v-bg-white") 121 fewer.3 cn refl refl in
    record {
      input = check_input r.value value value;
      returns = ap (Option.map (λ c. check_input c value value)) r.returns;
      same_field = refl;
      same_rows = refl;
    }
clear_input-Alike other_input = record {
  input = other_input;
  returns = refl;
  same_field = refl;
  same_rows = refl;
}

get_elem?-below {ℓ} :
    {A : Type ℓ} (i : ℕ) (xs : List A) → i < length xs → (x : A) × (get_elem? xs i ≡ some x)
get_elem?-below i [] h = absurd (omega (arith, h))
get_elem?-below zero (x ∷ xs) h = (x, refl)
get_elem?-below (suc i) (x ∷ xs) h = get_elem?-below i xs (omega (arith, h))

pub map_inverse {ℓ κ} :
    {A : Type ℓ} {B : Type κ} (g : A → B) (o : Option A) (b : B)
    → Option.map g o ≡ some b
    → (a : A) × (o ≡ some a) × (g a ≡ b)
map_inverse g none b h = absurd (cc)
map_inverse g (some a) b h = (a, refl, cc)

length-change_at :
    (f : Text → Option Text) (i : ℕ) (xs ys : List Text)
    → change_at f i xs ≡ some ys
    → length ys ≡ length xs
length-change_at f i [] ys e = absurd (cc)
length-change_at f zero (x ∷ xs) ys e =
    let (y, s, whole) = map_inverse (λ z. z ∷ xs) (f x) ys e in sym (ap length whole)
length-change_at f (suc i) (x ∷ xs) ys e =
    let (zs, s, whole) = map_inverse (λ l. x ∷ l) (change_at f i xs) ys e in
    sym (ap length whole) ∙ ap suc (length-change_at f i xs zs s)

pub error_input-Alike : (i : Input) → can_show_error i ≡ true → Alike i (error_input i)
unfolding error_input set_grid_view_error
error_input-Alike (value_input class_name value) h = record {
  input = value_input class_name value;
  returns = refl;
  same_field = refl;
  same_rows = refl;
}
error_input-Alike (grid_input rows none) h = absurd (cc)
error_input-Alike (grid_input rows (some r)) h =
    let (html, at) = get_elem?-below r rows (ltb→lt r (length rows) h) in
    let new =
      replace-Replaced (codes "x-grid3-modify-cell") (codes "x-grid3-error-cell") 121 fewer.4 html
        refl refl in
    let (rs, e) =
      change_at-returns (λ t. replace t (codes "x-grid3-modify-cell") (codes "x-grid3-error-cell"))
        r rows html new.value at new.returns in
    record {
      input = grid_input rs (some r);
      returns = ap (Option.map (λ l. grid_input l (some r))) e;
      same_field = refl;
      same_rows = ap (ltb r) (length-change_at _ r rows rs e);
    }
error_input-Alike (check_input class_name original value) h = record {
  input = check_input class_name original value;
  returns = refl;
  same_field = refl;
  same_rows = refl;
}
error_input-Alike other_input h = record {
  input = other_input;
  returns = refl;
  same_field = refl;
  same_rows = refl;
}

-- Where showing an error returned, only the looks changed.
pub error_returned : (i j : Input) → error_input i ≡ some j → Alike i (error_input i)
unfolding error_input set_grid_view_error
error_returned (value_input class_name value) j h =
    error_input-Alike (value_input class_name value) refl
error_returned (check_input class_name original value) j h =
    error_input-Alike (check_input class_name original value) refl
error_returned other_input j h = error_input-Alike other_input refl
error_returned (grid_input rows none) j h = absurd (cc)
error_returned (grid_input rows (some r)) j h =
    let (rs, e, same) = map_inverse (λ l. grid_input l (some r)) _ j h in
    record {
      input = grid_input rs (some r);
      returns = ap (Option.map (λ l. grid_input l (some r))) e;
      same_field = refl;
      same_rows = ap (ltb r) (length-change_at _ r rows rs e);
    }
