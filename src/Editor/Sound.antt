-- ===== src/Editor/Sound.antt =====
-- What a form should be, and that a new form and a new field leave it so.
use vyatta_webgui.Base.{
  ℕ, suc, ◌<◌, ◌≡◌, refl, sym, ap, ◌∙◌, ◌≢◌, inl, inr, Bool, true, false, Option, none, some, List,
  [], ◌∷◌, ◌++◌, arith, if◌then◌else◌, length, All, All-append,
}
use vyatta_webgui.Text.{count}
use mathlib.Core.Path.{subst}
use vyatta_webgui.Editor.{
  Fields, Form, Editor, Mode, config, oper, dressed, gets_index, next_index, show_form, new_form,
}
use vyatta_webgui.Editor.Unique.{label_html, Differ, NotButton}
use vyatta_webgui.Editor.Adding.{grown, Added}

-- The relation holds between each element and every later one.
module _ {ℓ κ} {A : Type ℓ} (R : A → A → Type κ) where
  abbrev pub Apart : List A → Type (ℓ ⊔ κ)
  Apart [] = Unit
  Apart (x ∷ xs) = All (R x) xs × Apart xs

-- What two fields of a form do not share: the markup of the label, and the tab index.
abbrev pub OwnLabelAndIndex : Fields → Fields → Type 0
OwnLabelAndIndex f g = Differ g f × ((i : ℕ) → g.tab_index ≡ some i → f.tab_index ≢ some i)

-- The tab index of a field is one that was given already.
abbrev pub Given : ℕ → Fields → Type 0
Given index f = (i : ℕ) → f.tab_index ≡ some i → i < index

abbrev pub submits : List Fields → ℕ
submits [] = 0
submits (f ∷ items) = if f.is_submit_btn then suc (submits items) else submits items

-- A form as it should be.
pub record Sound (form : Form) : Type 0 where
  pub plain : All NotButton form.items
  pub apart : Apart OwnLabelAndIndex form.items
  pub given : All (Given form.m_fd_index) form.items
  pub one_button : submits form.items ≡ (if form.m_sub_btn then 1 else 0)

abbrev pub SoundForm : Option Form → Type 0
SoundForm none = Unit
SoundForm (some form) = Sound form

-- A field that was just made: it has no index, and is neither a button nor the submit button.
abbrev pub NewField : Fields → Type 0
NewField f = NotButton f × (f.tab_index ≡ none) × (f.is_submit_btn ≡ false)

module _ {ℓ κ} {A : Type ℓ} (R : A → A → Type κ) where
  Apart-append : (xs : List A) (y : A) → Apart R xs → All (λ x. R x y) xs → Apart R (xs ++ (y ∷ []))
  Apart-append [] y h k = (tt, tt)
  Apart-append (x ∷ xs) y h k =
      (All-append (R x) xs (y ∷ []) h.0 (k.0, tt), Apart-append xs y h.1 k.1)

module _ {ℓ κ} {A : Type ℓ} {P Q : A → Type κ} where
  All-map : ((x : A) → P x → Q x) → (xs : List A) → All P xs → All Q xs
  All-map f [] h = tt
  All-map f (x ∷ xs) h = (f x h.0, All-map f xs h.1)

module _ {ℓ κ} {A : Type ℓ} {P Q S : A → Type κ} where
  All-zip : ((x : A) → P x → Q x → S x) → (xs : List A) → All P xs → All Q xs → All S xs
  All-zip f [] h k = tt
  All-zip f (x ∷ xs) h k = (f x h.0 k.0, All-zip f xs h.1 k.1)

-- The index of an input that had none before.
fresh_index :
    (b : Bool) (t : Option ℕ) (index i : ℕ)
    → t ≡ none
    → (if b then some index else t) ≡ some i
    → (b ≡ true) × (i ≡ index)
fresh_index true t index i e h = (refl, ground (arith, h))
fresh_index false t index i e h = absurd (cc)

next_index_le : (f : Fields) (index count i : ℕ) → i < index → i < next_index f index count
next_index_le f index count i h = ground arith

submits-append :
    (items : List Fields) (f : Fields)
    → submits (items ++ (f ∷ [])) ≡ (if f.is_submit_btn then suc (submits items) else submits items)
submits-append [] f = refl
submits-append (g ∷ items) f = ground (arith, submits-append items f)

-- A new field in a form.
module _ (help_on : Bool) (form : Form) (f : Fields) (sound : Sound form) (plain : NotButton f)
    (unplaced : f.tab_index ≡ none) (new : All (Differ f) form.items) where
  placed_index :
      (i : ℕ)
      → (dressed help_on form.m_fd_index (suc (length form.items)) f).tab_index ≡ some i
      → (gets_index f (suc (length form.items)) ≡ true) × (i ≡ form.m_fd_index)
  placed_index i h =
      fresh_index (gets_index f (suc (length form.items))) f.tab_index form.m_fd_index i unplaced h

  placed-own :
      (g : Fields)
      → Differ f g
      → Given form.m_fd_index g
      → OwnLabelAndIndex g (dressed help_on form.m_fd_index (suc (length form.items)) f)
  unfolding label_html
  placed-own g own before =
      (own, λ i h k. let same = (placed_index i h).1 in omega (arith, before i k, same))

  pub grown-Sound :
      (has_button : Bool)
      → (if f.is_submit_btn then suc (submits form.items) else submits form.items)
        ≡ (if has_button then 1 else 0)
      → Sound (record (grown help_on form f) { m_sub_btn = has_button })
  grown-Sound has_button h = record {
    plain = All-append NotButton form.items _ sound.plain (plain, tt);
    apart =
        Apart-append OwnLabelAndIndex form.items _ sound.apart
          (All-zip placed-own form.items new sound.given);
    given =
        All-append (Given _) form.items _
          (All-map
            (λ g before i e.
              next_index_le f form.m_fd_index (suc (length form.items)) i (before i e))
            form.items sound.given)
          (λ i e. let (gets, same) = placed_index i e in ground (arith, gets, same), tt);
    one_button = submits-append form.items _ ∙ h;
  }

pub new_form-Sound : (mode : Mode) (f : Fields) → Sound (new_form mode f)
unfolding new_form label_html
new_form-Sound config f = record {
  plain = (refl, tt);
  apart = (tt, tt);
  given = (λ i h. absurd (cc), tt);
  one_button = refl;
}
new_form-Sound oper f = record { plain = tt; apart = tt; given = tt; one_button = refl }

-- A new field of another kind than the submit button.
pub Added-Sound :
    (help_on : Bool) (f : Fields) (form form' : Form)
    → Sound form
    → NewField f
    → Added help_on f form form'
    → Sound form'
Added-Sound help_on f form form' sound h (inl e) = subst Sound (sym e) sound
Added-Sound help_on f form form' sound (plain, unplaced, other) (inr (new, e)) =
    subst Sound (sym e) (
      grown-Sound help_on form f sound plain unplaced new form.m_sub_btn (
        ap (λ b. if b then suc (submits form.items) else submits form.items) other
        ∙ sound.one_button))

-- What an editor becomes that shows the form.
pub shown-Sound :
    (o : Option Form) (ed : Editor)
    → ((form : Form) → o ≡ some form → Sound form)
    → show_form o ≡ some ed
    → SoundForm ed.m_form_panel
shown-Sound none ed h e = absurd (cc)
shown-Sound (some form) ed h e =
    let whole : record { m_form_panel = some form; has_item = true } ≡ ed = cc in
    subst (λ d. SoundForm d.m_form_panel) whole (h form refl)
