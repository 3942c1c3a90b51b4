-- ===== src/CommitErrors/Clearing.antt =====
-- What `f_updateCommitErrors` does to the buffer.
use vyatta_webgui.Base.{
  sym, ℕ, zero, suc, ◌≡◌, refl, ap, ◌↔◌, ◌⊎◌, inl, inr, ◌≢◌, Bool, true, false, ◌||◌, ◌&&◌, [], ◌∷◌,
  ◌++◌, none, some, All, Option, List, arith, Bool-cases, any, get_elem?,
}
use vyatta_webgui.Text.{Text, text_eq}
use vyatta_webgui.Text.Equality.{text_eq_iff, text_eq_refl}
use vyatta_webgui.CommitErrors.{
  names, clear_first, is_text, update_commit_errors, flags, is_commit_error,
}
use vyatta_webgui.CommitErrors.Flagging.{before?}

-- The entry holds the parent's name with the node's name right behind it.
pub record NamesPair (node parent : Text) (prev : Option Text) (ws : List Text) : Type 0 where
  pub place : ℕ
  pub word : get_elem? ws place ≡ some node
  pub behind : before? prev ws place ≡ some parent

is_text_iff : (o : Option Text) (t : Text) → (is_text o t ≡ true) ↔ (o ≡ some t)
is_text_iff none t = (λ h. cc, λ h. cc)
is_text_iff (some s) t = (λ h. ap some ((text_eq_iff s t).0 h), λ h. (text_eq_iff s t).1 (cc))

module _ (node parent : Text) where
  names_sound :
      (prev : Option Text) (ws : List Text)
      → names node parent prev ws ≡ true
      → NamesPair node parent prev ws
  unfolding names
  names_sound prev [] h = absurd (cc)
  names_sound prev (w ∷ ws) h = elim (Bool-cases (text_eq node w && is_text prev parent)) [
    | inl e ↦
        let same : node ≡ w = (text_eq_iff node w).0 (ground arith) in
        record { place = 0; word = cc; behind = (is_text_iff prev parent).0 (ground arith) }
    | inr e ↦
        let ih = names_sound (some w) ws (rw e at h) in
        record { place = suc ih.place; word = ih.word; behind = shift w ws ih.place ih.behind }
  ]
    where
      shift :
          (w : Text) (ws : List Text) (i : ℕ)
          → before? (some w) ws i ≡ some parent
          → get_elem? (w ∷ ws) i ≡ some parent
      shift w ws zero b = b
      shift w ws (suc i) b = b

  names_at :
      (prev : Option Text) (ws : List Text) (i : ℕ)
      → get_elem? ws i ≡ some node
      → before? prev ws i ≡ some parent
      → names node parent prev ws ≡ true
  unfolding names
  names_at prev [] i e f = absurd (cc)
  names_at prev (w ∷ ws) zero e f =
      let same : node ≡ w = cc in
      ground (arith, (text_eq_iff node w).1 same, (is_text_iff prev parent).1 f)
  names_at prev (w ∷ ws) (suc zero) e f = ground (arith, names_at (some w) ws zero e f)
  names_at prev (w ∷ ws) (suc (suc i)) e f = ground (arith, names_at (some w) ws (suc i) e f)

  -- An entry is cleared exactly when it holds the parent's name and then the node's.
  pub names_iff :
      (ws : List Text) → (names node parent none ws ≡ true) ↔ NamesPair node parent none ws
  names_iff ws = (names_sound none ws, λ n. names_at none ws n.place n.word n.behind)

  abbrev pub IsOther : List Text → Type 0
  IsOther err = names node parent none err ≡ false

  -- The buffer before and after: the first entry that names the pair is emptied.
  pub record ClearedOne (errs after : List (List Text)) : Type 0 where
    pub front : List (List Text)
    pub entry : List Text
    pub back : List (List Text)
    pub was : errs ≡ front ++ (entry ∷ back)
    pub is : after ≡ front ++ ([] ∷ back)
    pub named : NamesPair node parent none entry
    pub others : All IsOther front

  -- An update of the buffer for a node and its parent either finds no entry that names the pair
  -- and changes nothing, or empties exactly one entry, the first that names it.
  pub clear_first_cases :
      (errs : List (List Text))
      → (All IsOther errs × (clear_first node parent errs ≡ errs))
        ⊎ ClearedOne errs (clear_first node parent errs)
  unfolding clear_first
  clear_first_cases [] = inl (tt, refl)
  clear_first_cases (err ∷ errs) = elim (Bool-cases (names node parent none err)) [
    | inl e ↦ inr (record {
      front = [];
      entry = err;
      back = errs;
      was = refl;
      is = rw e;
      named = (names_iff err).0 e;
      others = tt;
    })
    | inr e ↦ elim (clear_first_cases errs) [
      | inl (no_one, same) ↦ inl ((e, no_one), rw e (ap (err ∷◌) same))
      | inr c ↦ inr (record {
        front = err ∷ c.front;
        entry = c.entry;
        back = c.back;
        was = ap (err ∷◌) c.was;
        is = rw e (ap (err ∷◌) c.is);
        named = c.named;
        others = (e, c.others);
      })
    ]
  ]

  names_free :
      (prev : Option Text) (ws : List Text)
      → All (λ v. v ≢ node) ws
      → names node parent prev ws ≡ false
  unfolding names
  names_free prev [] free = refl
  names_free prev (v ∷ ws) (ne, free) =
      ground
        (arith, names_free (some v) ws free, (text_eq_iff node v).0, λ (e : node ≡ v). ne (sym e))

  -- An entry that flags the node and does not name the pair keeps flagging it.
  any_later : (b : Bool) {c : Bool} → c ≡ true → (b || c) ≡ true
  any_later true h = refl
  any_later false h = h

  any_behind :
      (p : List Text → Bool) (front : List (List Text)) (err : List Text) (back : List (List Text))
      → p err ≡ true
      → any p (front ++ (err ∷ back)) ≡ true
  any_behind p [] err back h = rw h
  any_behind p (x ∷ front) err back h = any_later (p x) (any_behind p front err back h)

  flag_stays :
      (front back : List (List Text)) (err : List Text)
      → IsOther err
      → flags node (some parent) 0 none err ≡ true
      → any (flags node (some parent) 0 none) (clear_first node parent (front ++ (err ∷ back)))
        ≡ true
  unfolding clear_first
  flag_stays [] back err other flagged = rw (other, flagged)
  flag_stays (e ∷ front) back err other flagged = elim (Bool-cases (names node parent none e)) [
    | inl h ↦ rw h (
        any_later (flags node (some parent) 0 none [])
          (any_behind (flags node (some parent) 0 none) front err back flagged))
    | inr h ↦
        rw h
          (any_later (flags node (some parent) 0 none e) (flag_stays front back err other flagged))
  ]

  -- A node that an entry names in second place, behind something else than the text of its
  -- parent, and at no later place, is still marked as one where the commit failed after the
  -- buffer was updated for it, whatever entries stand before and behind.
  pub top_level_stays :
      (w : Text) (ws : List Text) (front back : List (List Text))
      → w ≢ parent
      → All (λ v. v ≢ node) ws
      → is_commit_error
          (update_commit_errors
            (some node)
            (some parent)
            (some (front ++ ((w ∷ (node ∷ ws)) ∷ back))))
          node
          (some parent)
        ≡ true
  unfolding is_commit_error update_commit_errors flags names
  top_level_stays w ws front back h free =
      flag_stays front back (w ∷ (node ∷ ws))
        (ground (arith, names_free (some node) ws free, text_eq_iff w parent, text_eq_refl node))
        (ground (arith, text_eq_refl node))
