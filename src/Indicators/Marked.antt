-- ===== src/Indicators/Marked.antt =====
-- The markup of an indicator, and how a new mark exchanges the image in it.
use vyatta_webgui.Base.{
  ◌≡◌, refl, ap, Bool, true, false, Option, none, some, List, [], ◌∷◌, ◌++◌, arith, all, All,
}
use vyatta_webgui.Text.{Text, codes, text_eq, index_of}
use vyatta_webgui.Text.Equality.{text_eq_iff}
use vyatta_webgui.Tree.{Flag, dirty, dirty_add, dirty_del, error, empty, image}
use vyatta_webgui.Indicators.{
  FlagName, status_down, status_unknown, status_plus, status_minus, no_flag, flag_text,
  update_dirty_indicator_panel,
}

-- The name in the image of a mark.
abbrev pub flag_name : Flag → FlagName
flag_name dirty = status_unknown
flag_name dirty_add = status_plus
flag_name dirty_del = status_minus
flag_name error = status_down
flag_name empty = no_flag

-- The markup of the marks around the name, as `f_createFieldDirtyIndicatorPanel` puts it there.
abbrev tail_of : Flag → Text
tail_of empty = codes ".gif\" width=\"13\"/>"
tail_of _ = codes ".gif\" />"

abbrev head_of : Flag → Text
head_of dirty = codes "<img title=\"node has been modified\" src=\"images/"
head_of dirty_add = codes "<img title=\"node has been created\" src=\"images/"
head_of dirty_del = codes "<img title=\"node has been deleted\" src=\"images/"
head_of error = codes "<img title=\"error node\" src=\"images/"
head_of empty = codes "<img src=\"images/"

-- The markup of the mark `t`, in whose image the name of `f` has come.
abbrev pub marked : Flag → FlagName → Text
marked t f = head_of t ++ (flag_text f ++ tail_of t)

abbrev pub every_flag : List Flag
every_flag = dirty ∷ (dirty_add ∷ (dirty_del ∷ (error ∷ (empty ∷ []))))

abbrev pub every_name : List FlagName
every_name = no_flag ∷ (status_unknown ∷ (status_plus ∷ (status_minus ∷ (status_down ∷ []))))

-- A property of the marks or of the names is shown by going through them.
pub flag_of_all : (P : Flag → Type 0) → All P every_flag → (t : Flag) → P t
flag_of_all P h dirty = h.0
flag_of_all P h dirty_add = h.1.0
flag_of_all P h dirty_del = h.1.1.0
flag_of_all P h error = h.1.1.1.0
flag_of_all P h empty = h.1.1.1.1.0

pub name_of_all : (P : FlagName → Type 0) → All P every_name → (f : FlagName) → P f
name_of_all P h no_flag = h.0
name_of_all P h status_unknown = h.1.0
name_of_all P h status_plus = h.1.1.0
name_of_all P h status_minus = h.1.1.1.0
name_of_all P h status_down = h.1.1.1.1.0

pub all-All {ℓ} :
    {A : Type ℓ} (p : A → Bool) (xs : List A) → all p xs ≡ true → All (λ x. p x ≡ true) xs
all-All p [] h = tt
all-All p (x ∷ xs) h = (ground (arith, h), all-All p xs (ground (arith, h)))

abbrev opt_is : Option (Option Text) → Text → Bool
opt_is none t = false
opt_is (some none) t = false
opt_is (some (some s)) t = text_eq s t

opt_is_eq : (o : Option (Option Text)) (t : Text) → opt_is o t ≡ true → o ≡ some (some t)
opt_is_eq none t h = cc
opt_is_eq (some none) t h = cc
opt_is_eq (some (some s)) t h = ap (λ x. some (some x)) ((text_eq_iff s t).0 h)

abbrev becomes : Flag → FlagName → Flag → Bool
becomes t f g =
    opt_is (update_dirty_indicator_panel (some (marked t f)) (image g)) (marked t (flag_name g))

exchanged_all : all (λ t. all (λ f. all (becomes t f) every_flag) every_name) every_flag ≡ true
unfolding vyatta_webgui.Indicators.update_dirty_indicator_panel vyatta_webgui.Indicators.error_type
    index_of vyatta_webgui.Indicators.create_flag_indicator text_eq vyatta_webgui.Replace.replace
exchanged_all = refl

pub update_marked :
    (t : Flag) (f : FlagName) (g : Flag)
    → update_dirty_indicator_panel (some (marked t f)) (image g)
      ≡ some (some (marked t (flag_name g)))
update_marked t f g =
    let by_flag =
      all-All (λ t. all (λ f. all (becomes t f) every_flag) every_name) every_flag exchanged_all in
    let by_name =
      all-All (λ f. all (becomes t f) every_flag) every_name
        (flag_of_all (λ x. all (λ k. all (becomes x k) every_flag) every_name ≡ true) by_flag t) in
    let last =
      all-All (becomes t f) every_flag
        (name_of_all (λ x. all (becomes t x) every_flag ≡ true) by_name f) in
    opt_is_eq _ (marked t (flag_name g)) (flag_of_all (λ x. becomes t f x ≡ true) last g)
