-- ===== src/Editor/Unique.antt =====
-- The fields of an editor are never there twice: what the walk over the form keeps.
use vyatta_webgui.Base.{
  ◌≡◌, refl, ap, ◌≢◌, Bool, true, false, ◌&&◌, Option, none, some, List, [], ◌∷◌, arith, All,
}
use vyatta_webgui.Text.{Text}
use vyatta_webgui.Text.Equality.{text_eq_refl}
use mathlib.Core.Path.{subst}
use vyatta_webgui.Editor.{
  is_button, XType, label_type, button_type, other_type, Part, Fields, Match, present, replaced,
  differs, raises, opt_eq, match_label, match_parts, match_item, Walked, walk_on,
  update_field_values2_panel, begins_with_button,
}

abbrev pub kind_label : XType → Option Text → Option (Option Text)
kind_label label_type html = some html
kind_label button_type html = none
kind_label other_type html = none

-- The markup of the label of a field; `none` where it has no label.
abbrev pub parts_label : Option (List Part) → Option (Option Text)
parts_label none = none
parts_label (some []) = none
parts_label (some (p ∷ more)) = kind_label p.xtype p.html

unfoldable pub label_html : Fields → Option (Option Text)
label_html f = parts_label f.parts

opt_eq_refl : (o : Option Text) → opt_eq o o ≡ true
opt_eq_refl none = refl
opt_eq_refl (some t) = text_eq_refl t

-- The labels of two fields are not the same.
abbrev pub Differ : Fields → Fields → Type 0
Differ f g = (k : Option Text) → label_html g ≡ some k → label_html f ≢ some k

-- A field's parts that do not begin with a button.
abbrev pub NotButton : Fields → Type 0
NotButton f = begins_with_button f.parts ≡ false

label_not_replaced :
    (x : XType) (label : Part) (cs : List Part)
    → is_button x ≡ false
    → match_label x label cs ≢ replaced
unfolding match_label
label_not_replaced x label [] h = grind arith
label_not_replaced x label (c ∷ cs) h = grind arith

parts_not_replaced :
    (both : Bool) (fs cs : Option (List Part))
    → begins_with_button fs ≡ false
    → match_parts both fs cs ≢ replaced
unfolding match_parts
parts_not_replaced both none cs h = cc
parts_not_replaced both (some fs) none h = cc
parts_not_replaced true (some fs) (some cs) h = cc
parts_not_replaced false (some []) (some cs) h = cc
parts_not_replaced false (some (p ∷ fs)) (some cs) h = label_not_replaced p.xtype p cs h

not_replaced : (g f : Fields) → NotButton g → match_item g f ≢ replaced
unfolding match_item
not_replaced g f h = parts_not_replaced (f.has_buttons && g.has_buttons) g.parts f.parts h

same_label :
    (x y : XType) (l c : Part) (cs : List Part) (k : Option Text)
    → match_label x l (c ∷ cs) ≡ differs
    → kind_label x l.html ≡ some k
    → kind_label y c.html ≢ some k
unfolding match_label
same_label label_type label_type l c cs k h hl hc =
    let same : l.html ≡ c.html = grind arith in
    absurd (cc (h, ap (opt_eq l.html) same, opt_eq_refl l.html))
same_label label_type button_type l c cs k h hl hc = cc
same_label label_type other_type l c cs k h hl hc = cc
same_label button_type y l c cs k h hl hc = cc
same_label other_type y l c cs k h hl hc = cc

differs_parts :
    (both : Bool) (fs cs : Option (List Part)) (k : Option Text)
    → match_parts both fs cs ≡ differs
    → parts_label fs ≡ some k
    → parts_label cs ≢ some k
unfolding match_parts
differs_parts both none cs k h hl hc = cc
differs_parts both (some fs) none k h hl hc = cc
differs_parts both (some fs) (some []) k h hl hc = cc
differs_parts true (some fs) (some cs) k h hl hc = absurd (cc)
differs_parts false (some []) (some cs) k h hl hc = cc
differs_parts false (some (l ∷ ls)) (some (c ∷ cs)) k h hl hc =
    same_label l.xtype c.xtype l c cs k h hl hc

differs-Differ : (f g : Fields) → match_item g f ≡ differs → Differ f g
unfolding match_item label_html
differs-Differ f g h k hg hf =
    differs_parts (f.has_buttons && g.has_buttons) g.parts f.parts k h hg hf

-- What a walk over items without buttons leaves, and what it has seen if the field is new.
abbrev pub Kept : Fields → List Fields → Bool × List Fields → Type 0
Kept f items r = (r.1 ≡ items) × (r.0 ≡ true → All (Differ f) items)

walk_on-Kept :
    (m : Match) (f g : Fields) (items : List Fields) (w : Walked) (r : Bool × List Fields)
    → match_item g f ≡ m
    → NotButton g
    → ((t : Bool × List Fields) → w ≡ some t → Kept f items t)
    → walk_on m f g items w ≡ some r
    → Kept f (g ∷ items) r
walk_on-Kept present f g items w r e plain ih h =
    let whole : (false, g ∷ items) ≡ r = cc in
    subst (Kept f (g ∷ items)) whole (refl, λ k. absurd (cc))
walk_on-Kept replaced f g items w r e plain ih h = absurd (not_replaced g f plain e)
walk_on-Kept differs f g items none r e plain ih h = absurd (cc)
walk_on-Kept differs f g items (some (fresh, kept)) r e plain ih h =
    let (same, seen) = ih (fresh, kept) refl in
    let whole : (fresh, g ∷ kept) ≡ r = cc in
    subst (Kept f (g ∷ items)) whole (ap (λ t. g ∷ t) same, λ k. (differs-Differ f g e, seen k))
walk_on-Kept raises f g items w r e plain ih h = absurd (cc)

pub walk-Kept :
    (f : Fields) (items : List Fields) (r : Bool × List Fields)
    → All NotButton items
    → update_field_values2_panel f items ≡ some r
    → Kept f items r
unfolding update_field_values2_panel
walk-Kept f [] r plain h =
    let whole : (true, []) ≡ r = cc in subst (Kept f []) whole (refl, λ k. tt)
walk-Kept f (g ∷ items) r plain h =
    walk_on-Kept (match_item g f) f g items (update_field_values2_panel f items) r refl plain.0
      (λ t. walk-Kept f items t plain.1) h
