-- ===== src/Text/Split.antt =====
-- Splitting at a separator loses nothing: joining the pieces gives the text back.
use vyatta_webgui.Base.{
  ℕ, zero, suc, ◌-◌, ◌≡◌, refl, ◌∙◌, sym, ap, inl, inr, false, [], ◌∷◌, ◌++◌, ◌≢◌, List, arith,
  Bool-cases, ◌==◌, length, drop, drop-append, Option-cases,
}
use vyatta_webgui.Text.{Text, strip_prefix, split_skip, split, cons_head, count}
use vyatta_webgui.Text.Laws.{strip_prefix_sound}

-- `ws.join(p)`
unfoldable pub join : Text → List Text → Text
join p [] = []
join p (w ∷ []) = w
join p (w ∷ (v ∷ ws)) = w ++ (p ++ join p (v ∷ ws))

module _ (a : ℕ) (p : Text) where
  abbrev sep : Text
  sep = a ∷ p

  join-cons_head : (c : ℕ) (ws : List Text) → join sep (cons_head c ws) ≡ c ∷ join sep ws
  unfolding join
  join-cons_head c [] = refl
  join-cons_head c (w ∷ []) = refl
  join-cons_head c (w ∷ (v ∷ ws)) = refl

  join_empty : (ws : List Text) → ws ≢ [] → join sep ([] ∷ ws) ≡ sep ++ join sep ws
  unfolding join
  join_empty [] h = absurd (h refl)
  join_empty (w ∷ ws) h = refl

  cons_head-ne-nil : (c : ℕ) (ws : List Text) → cons_head c ws ≢ []
  cons_head-ne-nil c [] e = cc
  cons_head-ne-nil c (w ∷ ws) e = cc

  split_skip-ne-nil : (k : ℕ) (s : Text) → split_skip sep k s ≢ []
  unfolding split_skip
  split_skip-ne-nil k [] e = cc
  split_skip-ne-nil (suc k) (c ∷ s) e = split_skip-ne-nil k s e
  split_skip-ne-nil zero (c ∷ s) e = elim (Option-cases (strip_prefix sep (c ∷ s))) [
    | inl miss ↦ cons_head-ne-nil c (split_skip sep 0 s) (rw miss at e)
    | inr (r, hit) ↦ cc (rw hit at e)
  ]

  join-split_skip : (k : ℕ) (s : Text) → join sep (split_skip sep k s) ≡ drop k s
  unfolding split_skip
  join-split_skip zero [] = unfold join in refl
  join-split_skip (suc k) [] = unfold join in refl
  join-split_skip (suc k) (c ∷ s) = join-split_skip k s
  join-split_skip zero (c ∷ s) = elim (Option-cases (strip_prefix sep (c ∷ s))) [
    | inl miss ↦ rw (miss, join-cons_head, join-split_skip 0 s)
    | inr (r, hit) ↦
        let whole = strip_prefix_sound sep (c ∷ s) hit in
        let k = length sep - 1 in
        let rest : drop k s ≡ r =
          ap (λ n. drop n s) (omega arith) ∙ ap (drop (length p)) (cc whole) ∙ drop-append p r in
        rw hit (
          join_empty (split_skip sep k s) (split_skip-ne-nil k s)
          ∙ ap (sep ++◌) (join-split_skip k s ∙ rest)
          ∙ sym whole)
  ]

  pub join-split : (s : Text) → join sep (split sep s) ≡ s
  unfolding split
  join-split s = join-split_skip 0 s

module _ (c : ℕ) where
  split_skip_char :
      (d : ℕ) (s : Text)
      → (d == c) ≡ false
      → split (c ∷ []) (d ∷ s) ≡ cons_head d (split (c ∷ []) s)
  unfolding split
  split_skip_char d s h = ground arith

  pub split_char :
      (w s : Text) → count c w ≡ 0 → split (c ∷ []) (w ++ (c ∷ s)) ≡ w ∷ split (c ∷ []) s
  unfolding split count
  split_char [] s h = ground arith
  split_char (d ∷ w) s h = elim (Bool-cases (d == c)) [
    | inl e ↦ absurd (ground arith)
    | inr e ↦ split_skip_char d (w ++ (c ∷ s)) e ∙ ap (cons_head d) (split_char w s (ground arith))
  ]

  pub split_char_absent : (w : Text) → count c w ≡ 0 → split (c ∷ []) w ≡ w ∷ []
  unfolding split count
  split_char_absent [] h = refl
  split_char_absent (d ∷ w) h = elim (Bool-cases (d == c)) [
    | inl e ↦ absurd (ground arith)
    | inr e ↦ split_skip_char d w e ∙ ap (cons_head d) (split_char_absent w (ground arith))
  ]
