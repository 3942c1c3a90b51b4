-- ===== src/Text/Laws.antt =====
-- What the searches and replacements of strings do.
use vyatta_webgui.Base.{
  ◌≡◌, refl, ap, ◌∙◌, ◌⊎◌, inl, inr, ◌+◌, ℕ, true, false, [], ◌∷◌, ◌++◌, some, none, arith,
  Option-cases, ==_refl,
}
use vyatta_webgui.Text.{Text, strip_prefix, index_of, contains, replace_first, count}

pub strip_prefix-append : (p r : Text) → strip_prefix p (p ++ r) ≡ some r
unfolding strip_prefix
strip_prefix-append [] r = refl
strip_prefix-append (a ∷ p) r = rw (==_refl a) (strip_prefix-append p r)

pub strip_prefix_sound : (p s : Text) {r : Text} → strip_prefix p s ≡ some r → s ≡ p ++ r
unfolding strip_prefix
strip_prefix_sound [] s h = cc
strip_prefix_sound (_ ∷ _) [] h = cc
strip_prefix_sound (a ∷ p) (b ∷ s) {r} h = ground (arith, strip_prefix_sound p s {r = r})

pub count-append : (x : ℕ) (s t : Text) → count x (s ++ t) ≡ count x s + count x t
unfolding count
count-append x [] t = ground arith
count-append x (c ∷ s) t = ground (arith, count-append x s t)

module _ (p : Text) where
  contains_here : (s : Text) {r : Text} → strip_prefix p s ≡ some r → contains p s ≡ true
  unfolding contains
  contains_here [] h = ground arith
  contains_here (c ∷ s) h = ground arith

  contains_later :
      (c : ℕ) (s : Text) → strip_prefix p (c ∷ s) ≡ none → contains p (c ∷ s) ≡ contains p s
  unfolding contains
  contains_later c s h = elim (Option-cases (index_of p s)) [
    | inl e ↦ rw (h, e)
    | inr (n, e) ↦ rw (h, e)
  ]

  replace_first_here :
      (q s : Text) {r : Text} → strip_prefix p s ≡ some r → replace_first p q s ≡ q ++ r
  unfolding replace_first
  replace_first_here q [] h = ground arith
  replace_first_here q (c ∷ s) h = ground arith

  replace_first_later :
      (q : Text) (c : ℕ) (s : Text)
      → strip_prefix p (c ∷ s) ≡ none
      → replace_first p q (c ∷ s) ≡ c ∷ replace_first p q s
  unfolding replace_first
  replace_first_later q c s h = ground arith

  -- Nothing is found, and a replacement changes nothing.
  pub record Miss (s : Text) : Type 0 where
    pub absent : contains p s ≡ false
    pub same : (q : Text) → replace_first p q s ≡ s

  -- The first occurrence, and the replacement of it.
  pub record Hit (s : Text) : Type 0 where
    pub present : contains p s ≡ true
    pub before : Text
    pub after : Text
    pub here : s ≡ before ++ (p ++ after)
    pub there : (q : Text) → replace_first p q s ≡ before ++ (q ++ after)

  Hit-here : (s : Text) {r : Text} → strip_prefix p s ≡ some r → Hit s
  Hit-here s {r} h = record {
    present = contains_here s h;
    before = [];
    after = r;
    here = strip_prefix_sound p s h;
    there = λ q. replace_first_here q s h;
  }

  Hit-later : (c : ℕ) (s : Text) → strip_prefix p (c ∷ s) ≡ none → Hit s → Hit (c ∷ s)
  Hit-later c s e h = record {
    present = contains_later c s e ∙ h.present;
    before = c ∷ h.before;
    after = h.after;
    here = ap (c ∷◌) h.here;
    there = λ q. replace_first_later q c s e ∙ ap (c ∷◌) (h.there q);
  }

  pub search_cases : (s : Text) → Miss s ⊎ Hit s
  search_cases [] = elim (Option-cases (strip_prefix p [])) [
    | inl e ↦ inl (record { absent = unfold contains in rw e; same = λ q. miss_nil q e })
    | inr (r, e) ↦ inr (Hit-here [] e)
  ]
    where
      miss_nil : (q : Text) → strip_prefix p [] ≡ none → replace_first p q [] ≡ []
      miss_nil q e = unfold replace_first in ground arith
  search_cases (c ∷ s) = elim (Option-cases (strip_prefix p (c ∷ s))) [
    | inl e ↦ elim (search_cases s) [
      | inl m ↦ inl (record {
        absent = contains_later c s e ∙ m.absent;
        same = λ q. replace_first_later q c s e ∙ ap (c ∷◌) (m.same q);
      })
      | inr h ↦ inr (Hit-later c s e h)
    ]
    | inr (r, e) ↦ inr (Hit-here (c ∷ s) e)
  ]

-- A pattern that stands in a text is found.
pub contains-append : (p a b : Text) → contains p (a ++ (p ++ b)) ≡ true
contains-append p [] b = contains_here p (p ++ b) (strip_prefix-append p b)
contains-append p (c ∷ a) b = elim (Option-cases (strip_prefix p (c ∷ (a ++ (p ++ b))))) [
  | inl e ↦ contains_later p c (a ++ (p ++ b)) e ∙ contains-append p a b
  | inr (r, e) ↦ contains_here p (c ∷ (a ++ (p ++ b))) e
]
