-- ===== src/Text/Chars.antt =====
-- Searching and replacing one character.
use vyatta_webgui.Base.{
  ◌≡◌, refl, ap, ◌⊎◌, inl, inr, ◌+◌, ◌≤◌, suc, ℕ, Bool-cases, [], ◌∷◌, ◌++◌, some, none, arith,
  append_assoc, ==_refl, ◌==◌, ==_iff, if◌then◌else◌, length,
}
use vyatta_webgui.Text.{Text, index_of, replace_first, count}
use vyatta_webgui.Text.Laws.{count-append}

-- Every `c` becomes `q`.
unfoldable pub subst_char : ℕ → Text → Text → Text
subst_char c q [] = []
subst_char c q (d ∷ s) = if d == c then q ++ subst_char c q s else d ∷ subst_char c q s

module _ (c : ℕ) where
  pub count-le-length : (s : Text) → count c s ≤ length s
  unfolding count
  count-le-length [] = omega arith
  count-le-length (d ∷ s) = ground (arith, count-le-length s)

  -- A text up to its first `c`.
  pub record FirstChar (s : Text) : Type 0 where
    pub before : Text
    pub after : Text
    pub split : s ≡ before ++ (c ∷ after)
    pub absent : count c before ≡ 0

  pub first_char : (s : Text) → (count c s ≡ 0) ⊎ FirstChar s
  unfolding count
  first_char [] = inl refl
  first_char (d ∷ s) = elim (Bool-cases (d == c)) [
    | inl e ↦ inr (record {
      before = [];
      after = s;
      split = ap (λ x. x ∷ s) ((==_iff d c).0 e);
      absent = refl;
    })
    | inr e ↦ elim (first_char s) [
      | inl no_c ↦ inl (rw e no_c)
      | inr f ↦ inr (record {
        before = d ∷ f.before;
        after = f.after;
        split = ap (d ∷◌) f.split;
        absent = rw e f.absent;
      })
    ]
  ]

  pub index_of_absent : (s : Text) → count c s ≡ 0 → index_of (c ∷ []) s ≡ none
  unfolding index_of count
  index_of_absent [] h = refl
  index_of_absent (d ∷ s) h = ground (arith, index_of_absent s)

  pub index_of_first :
      (a b : Text) → count c a ≡ 0 → index_of (c ∷ []) (a ++ (c ∷ b)) ≡ some (length a)
  unfolding index_of count
  index_of_first [] b h = rw (==_refl c)
  index_of_first (d ∷ a) b h = ground (arith, index_of_first a b)

  pub replace_first_of_first :
      (q a b : Text) → count c a ≡ 0 → replace_first (c ∷ []) q (a ++ (c ∷ b)) ≡ a ++ (q ++ b)
  unfolding replace_first count
  replace_first_of_first q [] b h = ground arith
  replace_first_of_first q (d ∷ a) b h = ground (arith, replace_first_of_first q a b)

  pub subst_char_absent : (q s : Text) → count c s ≡ 0 → subst_char c q s ≡ s
  unfolding subst_char count
  subst_char_absent q [] h = refl
  subst_char_absent q (d ∷ s) h = ground (arith, subst_char_absent q s)

  pub subst_char-append :
      (q s t : Text) → subst_char c q (s ++ t) ≡ subst_char c q s ++ subst_char c q t
  unfolding subst_char
  subst_char-append q [] t = refl
  subst_char-append q (d ∷ s) t = elim (Bool-cases (d == c)) [
    | inl e ↦ rw (e, subst_char-append q s t, append_assoc)
    | inr e ↦ rw (e, subst_char-append q s t)
  ]

  pub subst_char_self : (q s : Text) → subst_char c q (c ∷ s) ≡ q ++ subst_char c q s
  unfolding subst_char
  subst_char_self q s = rw (==_refl c)

  pub count-subst_char :
      (x : ℕ) (q s : Text) → count x q ≡ 0 → count x s ≡ 0 → count x (subst_char c q s) ≡ 0
  unfolding subst_char count
  count-subst_char x q [] hq h = refl
  count-subst_char x q (d ∷ s) hq h =
      ground (arith, count-subst_char x q s hq, count-append x q (subst_char c q s))

  pub count-subst_char_self : (q s : Text) → count c q ≡ 0 → count c (subst_char c q s) ≡ 0
  unfolding subst_char count
  count-subst_char_self q [] hq = refl
  count-subst_char_self q (d ∷ s) hq =
      ground (arith, count-subst_char_self q s hq, count-append c q (subst_char c q s))

  pub count-first : (a b : Text) → count c (a ++ (c ∷ b)) ≡ count c a + suc (count c b)
  unfolding count
  count-first a b = ground (arith, count-append c a (c ∷ b))

  -- One replacement more or less makes no difference to the final text.
  pub subst_char_once :
      (q a b : Text)
      → count c q ≡ 0
      → subst_char c q (a ++ (q ++ b)) ≡ subst_char c q (a ++ (c ∷ b))
  subst_char_once q a b h = simp (subst_char-append, subst_char_self, subst_char_absent q q h)
