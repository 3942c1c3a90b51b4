-- ===== src/Editor/Twice.antt =====
-- A field is added once: adding it again changes nothing.
use vyatta_webgui.Base.{
  suc, ◌≡◌, refl, sym, ap, ◌∙◌, ◌≢◌, inl, inr, Bool, true, false, ◌&&◌, Option, none, some, List,
  [], ◌∷◌, ◌++◌, arith, length, All, All-append,
}
use vyatta_webgui.Text.{Text}
use mathlib.Core.Path.{subst}
use vyatta_webgui.Editor.{
  next_index, insert_placed, dressed, is_button, begins_with_button, XType, Part, Fields, Form,
  Editor, Mode, Match, present, replaced, differs, raises, match_label, match_parts, match_item,
  Walked, after_item, walk_on, update_field_values2_panel, add_walked, show_form, add_field2_panel,
}
use vyatta_webgui.Editor.Unique.{kind_label, parts_label, label_html, Differ, NotButton, walk-Kept}
use vyatta_webgui.Editor.Adding.{grown, Added, add_walked-Added}
use vyatta_webgui.Editor.Reached.{Reached, Reached-Sound}
use vyatta_webgui.Editor.Sound.{}

-- A panel that begins with a label.
pub record Labelled (f : Fields) : Type 0 where
  pub html : Option Text
  pub label : label_html f ≡ some html

label_not_raises : (x : XType) (l c : Part) (cs : List Part) → match_label x l (c ∷ cs) ≢ raises
unfolding match_label
label_not_raises x l c cs = grind arith

parts_not_raises :
    (both : Bool) (fs cs : Option (List Part)) (k : Option Text)
    → parts_label cs ≡ some k
    → match_parts both fs cs ≢ raises
unfolding match_parts
parts_not_raises both none cs k h e = cc
parts_not_raises both (some fs) none k h e = cc
parts_not_raises true (some fs) (some cs) k h e = cc
parts_not_raises false (some []) (some cs) k h e = cc
parts_not_raises false (some (l ∷ ls)) (some []) k h e = cc
parts_not_raises false (some (l ∷ ls)) (some (c ∷ cs)) k h e = label_not_raises l.xtype l c cs e

kind_label-button :
    (x : XType) (html k : Option Text) → kind_label x html ≡ some k → is_button x ≡ false
kind_label-button x html k h = grind arith

parts_label-button :
    (cs : Option (List Part)) (k : Option Text)
    → parts_label cs ≡ some k
    → begins_with_button cs ≡ false
parts_label-button none k h = refl
parts_label-button (some []) k h = refl
parts_label-button (some (c ∷ cs)) k h = kind_label-button c.xtype c.html k h

walk_on_total :
    (m : Match) (f g : Fields) (items : List Fields) (w : Walked)
    → m ≢ raises
    → ((r : Bool × List Fields) × (w ≡ some r))
    → (r : Bool × List Fields) × (walk_on m f g items w ≡ some r)
walk_on_total present f g items w h k = ((false, g ∷ items), refl)
walk_on_total replaced f g items w h (r, e) = ((r.0, f ∷ r.1), ap (after_item f) e)
walk_on_total differs f g items w h (r, e) = ((r.0, g ∷ r.1), ap (after_item g) e)
walk_on_total raises f g items w h k = absurd (h refl)

walk_total :
    (f : Fields) (items : List Fields) (k : Option Text)
    → label_html f ≡ some k
    → (r : Bool × List Fields) × (update_field_values2_panel f items ≡ some r)
unfolding update_field_values2_panel match_item label_html
walk_total f [] k h = ((true, []), refl)
walk_total f (g ∷ items) k h =
    walk_on_total (match_item g f) f g items (update_field_values2_panel f items)
      (parts_not_raises (f.has_buttons && g.has_buttons) g.parts f.parts k h)
      (walk_total f items k h)

All-last : (P : Fields → Type 0) (xs : List Fields) (y : Fields) → All P (xs ++ (y ∷ [])) → P y
All-last P [] y h = h.0
All-last P (x ∷ xs) y h = All-last P xs y h.1

-- A form with its items, and whether the walk found the field there.
abbrev added_to : Bool → Fields → Form → Option Form
added_to help_on f form = add_walked help_on f form (update_field_values2_panel f form.items)

walked_total :
    (help_on : Bool) (f : Fields) (form : Form) (k : Option Text) (w : Walked)
    → label_html f ≡ some k
    → ((r : Bool × List Fields) × (w ≡ some r))
    → (form' : Form) × (add_walked help_on f form w ≡ some form')
unfolding add_walked label_html
walked_total help_on f form k none h (r, e) = absurd (cc)
walked_total help_on f form k (some (false, items)) h e = (record form { items = items }, refl)
walked_total help_on f form k (some (true, items)) h e =
    let placed = dressed help_on form.m_fd_index (suc (length items)) f in
    let (r, walked) = walk_total placed form.items k h in
    (_, ap (insert_placed placed (next_index f form.m_fd_index (suc (length items))) form) walked)

found_again :
    (help_on : Bool) (f : Fields) (form : Form) (w : Walked) (fresh : Bool) (items : List Fields)
    → w ≡ some (fresh, items)
    → (items ≡ form.items)
    → (fresh ≢ true)
    → add_walked help_on f form w ≡ some form
unfolding add_walked
found_again help_on f form w true items e same h = absurd (h refl)
found_again help_on f form w false items e same h =
    ap (add_walked help_on f form) e ∙ ap (λ l. some (record form { items = l })) same

grown-again :
    (help_on : Bool) (f : Fields) (form : Form)
    → All NotButton form.items
    → Labelled f
    → added_to help_on f (grown help_on form f) ≡ some (grown help_on form f)
unfolding label_html
grown-again help_on f form plain h =
    let again = grown help_on form f in
    let (r, walked) = walk_total f again.items h.html h.label in
    let (same, seen) =
      walk-Kept f again.items r
        (All-append NotButton form.items _ plain (parts_label-button f.parts h.html h.label, tt))
        walked in
    found_again help_on f again (update_field_values2_panel f again.items) r.0 r.1 walked same
      (λ e. All-last (Differ f) form.items _ (seen e) h.html h.label h.label)

Added-again :
    (help_on : Bool) (f : Fields) (form form' : Form)
    → All NotButton form.items
    → Labelled f
    → added_to help_on f form ≡ some form'
    → Added help_on f form form'
    → added_to help_on f form' ≡ some form'
Added-again help_on f form form' plain h e (inl same) =
    subst (λ t. added_to help_on f t ≡ some t) (sym same) (e ∙ ap some same)
Added-again help_on f form form' plain h e (inr (new, same)) =
    subst (λ t. added_to help_on f t ≡ some t) (sym same) (grown-again help_on f form plain h)

-- What adding a field twice comes to: both calls return, the second changes nothing.
pub record AddedOnce (help_on : Bool) (mode : Mode) (ed : Editor) (f : Fields) : Type 0 where
  pub after : Editor
  pub returns : add_field2_panel help_on mode ed f ≡ some after
  pub again : add_field2_panel help_on mode after f ≡ some after

once :
    (help_on : Bool) (mode : Mode) (form : Form) (f : Fields)
    → All NotButton form.items
    → Labelled f
    → AddedOnce help_on mode (record { m_form_panel = some form; has_item = true }) f
unfolding add_field2_panel label_html
once help_on mode form f plain h =
    let (form', e) =
      walked_total help_on f form h.html (update_field_values2_panel f form.items) h.label
        (walk_total f form.items h.html h.label) in
    let added =
      add_walked-Added help_on f form form' _ plain (parts_label-button f.parts h.html h.label) refl
        e in
    record {
      after = record { m_form_panel = some form'; has_item = true };
      returns = ap show_form e;
      again = ap show_form (Added-again help_on f form form' plain h e added);
    }

-- In an editor that shows a form, adding a field with a label always returns, and adding the same
-- field once more changes nothing.
pub add_field2_panel-AddedOnce :
    (form : Form)
    → Reached (record { m_form_panel = some form; has_item = true })
    → (help_on : Bool) (mode : Mode) (f : Fields) → Labelled f
    → AddedOnce help_on mode (record { m_form_panel = some form; has_item = true }) f
add_field2_panel-AddedOnce form reached help_on mode f h =
    once help_on mode form f (Reached-Sound reached).plain h
