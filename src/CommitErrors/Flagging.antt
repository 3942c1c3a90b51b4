-- ===== src/CommitErrors/Flagging.antt =====
-- Which nodes are marked as erroneous.
use vyatta_webgui.Base.{
  Bool, ap, ℕ, zero, suc, ◌≤◌, ◌+◌, ◌≡◌, refl, ◌∙◌, ◌↔◌, ◌⊎◌, inl, inr, true, ◌||◌, ◌&&◌, [], ◌∷◌,
  none, some, leb, Option, List, arith, Bool-cases, any, get_elem?,
}
use vyatta_webgui.Text.{Text, text_eq}
use vyatta_webgui.Text.Equality.{text_eq_iff}
use vyatta_webgui.CommitErrors.{flags, is_commit_error, same_parent}

-- `err[i-1]`, where `prev` stands in front of the entry.
abbrev pub before? : Option Text → List Text → ℕ → Option Text
before? prev ws zero = prev
before? prev ws (suc i) = get_elem? ws i

-- Place `i` is one of the first two, or stands right behind the parent. Places count from `j`.
abbrev pub Fits : Option Text → ℕ → Option Text → List Text → ℕ → Type 0
Fits parent j prev ws i =
    (i + j ≤ 1) ⊎ ((p : Text) × (parent ≡ some p) × (before? prev ws i ≡ some p))

-- The entry names the node: at one of its first two places, or right behind the node's parent.
-- Places are counted from `j`.
pub record NamedAt (node : Text) (parent : Option Text) (j : ℕ) (prev : Option Text)
    (ws : List Text) : Type 0 where
  pub place : ℕ
  pub word : get_elem? ws place ≡ some node
  pub fits : Fits parent j prev ws place

same_parent_iff :
    (parent prev : Option Text)
    → (same_parent parent prev ≡ true) ↔ ((p : Text) × (parent ≡ some p) × (prev ≡ some p))
same_parent_iff none prev = (λ h. cc, λ (p, e, f). cc)
same_parent_iff (some q) none = (λ h. cc, λ (p, e, f). cc)
same_parent_iff (some q) (some r) =
    (λ h. (q, refl, ap some ((text_eq_iff r q).0 h)), λ (p, e, f). (text_eq_iff r q).1 (cc))

Fits-suc :
    (parent : Option Text) (j : ℕ) (prev : Option Text) (w : Text) (ws : List Text) (i : ℕ)
    → Fits parent (suc j) (some w) ws i ↔ Fits parent j prev (w ∷ ws) (suc i)
Fits-suc parent j prev w ws zero = (
  elim [ inl low ↦ inl (omega arith) | inr b ↦ inr b ],
  elim [ inl low ↦ inl (omega arith) | inr b ↦ inr b ],
)
Fits-suc parent j prev w ws (suc i) = (
  elim [ inl low ↦ inl (omega arith) | inr b ↦ inr b ],
  elim [ inl low ↦ inl (omega arith) | inr b ↦ inr b ],
)

module _ (node : Text) (parent : Option Text) where
  abbrev here : ℕ → Option Text → Text → Bool
  here j prev w = text_eq w node && (leb j 1 || same_parent parent prev)

  here_sound :
      (j : ℕ) (prev : Option Text) (w : Text) (ws : List Text)
      → here j prev w ≡ true
      → (w ≡ node) × Fits parent j prev (w ∷ ws) 0
  here_sound j prev w ws h = (
    (text_eq_iff w node).0 (ground arith),
    elim (Bool-cases (leb j 1)) [
      | inl low ↦ inl (ground arith)
      | inr high ↦ inr ((same_parent_iff parent prev).0 (ground arith))
    ],
  )

  here_complete :
      (j : ℕ) (prev : Option Text) (w : Text) (ws : List Text)
      → w ≡ node
      → Fits parent j prev (w ∷ ws) 0
      → here j prev w ≡ true
  here_complete j prev w ws e (inl low) = ground (arith, (text_eq_iff w node).1 e)
  here_complete j prev w ws e (inr b) =
      ground (arith, (text_eq_iff w node).1 e, (same_parent_iff parent prev).1 b)

  flags_sound :
      (j : ℕ) (prev : Option Text) (ws : List Text)
      → flags node parent j prev ws ≡ true
      → NamedAt node parent j prev ws
  unfolding flags
  flags_sound j prev [] h = absurd (cc)
  flags_sound j prev (w ∷ ws) h = elim (Bool-cases (here j prev w)) [
    | inl e ↦
        let (same, fits) = here_sound j prev w ws e in
        record { place = 0; word = ap some same; fits = fits }
    | inr e ↦
        let ih = flags_sound (suc j) (some w) ws (rw e at h) in
        record {
          place = suc ih.place;
          word = ih.word;
          fits = (Fits-suc parent j prev w ws ih.place).0 ih.fits;
        }
  ]

  flags_at :
      (j : ℕ) (prev : Option Text) (ws : List Text) (i : ℕ)
      → get_elem? ws i ≡ some node
      → Fits parent j prev ws i
      → flags node parent j prev ws ≡ true
  unfolding flags
  flags_at j prev [] i e f = absurd (cc)
  flags_at j prev (w ∷ ws) zero e f = rw (here_complete j prev w ws (cc) f)
  flags_at j prev (w ∷ ws) (suc i) e f = elim (Bool-cases (here j prev w)) [
    | inl h ↦ rw h
    | inr h ↦ rw h (flags_at (suc j) (some w) ws i e ((Fits-suc parent j prev w ws i).1 f))
  ]

  -- A line of the commit error flags a node exactly when it names it.
  pub flags_iff :
      (ws : List Text) → (flags node parent 0 none ws ≡ true) ↔ NamedAt node parent 0 none ws
  flags_iff ws = (flags_sound 0 none ws, λ n. flags_at 0 none ws n.place n.word n.fits)

-- Some entry of the buffer names the node.
pub data Blamed (node : Text) (parent : Option Text) (errs : List (List Text)) : Type 0 where
  blamed :
      (line : ℕ) (err : List Text)
      → get_elem? errs line ≡ some err
      → NamedAt node parent 0 none err
      → Blamed node parent errs

module _ (node : Text) (parent : Option Text) where
  any_sound :
      (errs : List (List Text))
      → any (flags node parent 0 none) errs ≡ true
      → Blamed node parent errs
  any_sound [] h = absurd (cc)
  any_sound (err ∷ errs) h = elim (Bool-cases (flags node parent 0 none err)) [
    | inl e ↦ blamed 0 err refl ((flags_iff node parent err).0 e)
    | inr e ↦ later (any_sound errs (rw e at h))
  ]
    where
      later : Blamed node parent errs → Blamed node parent (err ∷ errs)
      later (blamed i e at n) = blamed (suc i) e at n

  any_complete :
      (errs : List (List Text)) (i : ℕ) (err : List Text)
      → get_elem? errs i ≡ some err
      → flags node parent 0 none err ≡ true
      → any (flags node parent 0 none) errs ≡ true
  any_complete [] i err at h = absurd (cc)
  any_complete (e ∷ errs) zero err at h =
      let same : e ≡ err = cc in rw (ap (flags node parent 0 none) same ∙ h)
  any_complete (e ∷ errs) (suc i) err at h = ground (arith, any_complete errs i err at h)

  -- A node counts as one where the commit failed exactly if some entry of the buffer names it: at
  -- one of the entry's first two places, or right behind the text of the node's parent.
  pub is_commit_error_iff :
      (errs : List (List Text))
      → (is_commit_error (some errs) node parent ≡ true) ↔ Blamed node parent errs
  unfolding is_commit_error
  is_commit_error_iff errs = (any_sound errs, complete)
    where
      complete : Blamed node parent errs → any (flags node parent 0 none) errs ≡ true
      complete (blamed i err at n) = any_complete errs i err at ((flags_iff node parent err).1 n)
