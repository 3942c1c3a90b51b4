-- ===== src/Escape/Laws.antt =====
-- What the escaping returns, for every text.
use vyatta_webgui.Base.{
  ℕ, zero, suc, ◌+◌, ◌<◌, ◌≡◌, refl, ◌∙◌, sym, ap, inl, inr, true, false, [], ◌∷◌, ◌++◌, none, some,
  Option, arith, append_assoc, length, length-append, lt→ltb,
}
use vyatta_webgui.Text.{Text, codes, count}
use vyatta_webgui.Text.Laws.{count-append}
use vyatta_webgui.Text.Chars.{
  subst_char, first_char, replace_first_of_first, subst_char_absent, subst_char-append,
  subst_char_self, count-le-length, count-first, index_of_absent, index_of_first, count-subst_char,
  count-subst_char_self,
}
use vyatta_webgui.Escape.{
  is_after, conver_loop, conver_xml_special_char, convert_xml_special_characters,
}

-- The last position that was found lies in the part that is done.
abbrev IsBelow : Option ℕ → ℕ → Type 0
IsBelow none k = Unit
IsBelow (some p) k = p < k

is_after_of_IsBelow :
    (pos : Option ℕ) (k n : ℕ) → IsBelow pos k → is_after (some (k + n)) pos ≡ true
is_after_of_IsBelow none k n h = refl
is_after_of_IsBelow (some p) k n h = lt→ltb p (k + n) (omega arith)

module _ (c : ℕ) where
  count-append_absent : (s t : Text) → count c s ≡ 0 → count c t ≡ 0 → count c (s ++ t) ≡ 0
  count-append_absent s t hs ht = omega (arith, count-append c s t)

  -- One round: the first `c` is replaced.
  conver_loop_step :
      (n a b : Text) (fuel : ℕ) (pos : Option ℕ)
      → count c a ≡ 0
      → is_after (some (length a)) pos ≡ true
      → conver_loop (suc fuel) pos (c ∷ []) n (a ++ (c ∷ b))
        ≡ conver_loop fuel (some (length a)) (c ∷ []) n (a ++ (n ++ b))
  unfolding conver_loop
  conver_loop_step n a b fuel pos h after =
      rw (index_of_first c a b h, replace_first_of_first c n a b h, after)

  -- The first `c` lies no further than the last one that was found.
  conver_loop_stop :
      (n a b : Text) (fuel : ℕ) (pos : Option ℕ)
      → count c a ≡ 0
      → is_after (some (length a)) pos ≡ false
      → conver_loop (suc fuel) pos (c ∷ []) n (a ++ (c ∷ b)) ≡ some (a ++ (c ∷ b))
  unfolding conver_loop
  conver_loop_stop n a b fuel pos h after = rw (index_of_first c a b h, after)

  conver_loop_absent :
      (n s : Text) (fuel : ℕ) (pos : Option ℕ)
      → count c s ≡ 0
      → conver_loop (suc fuel) pos (c ∷ []) n s ≡ some s
  unfolding conver_loop
  conver_loop_absent n s fuel pos h = rw (index_of_absent c s h)

  module _ (d : ℕ) (n : Text) (fresh : count c (d ∷ n) ≡ 0) where
    regroup :
        (pre a b : Text)
        → count c a ≡ 0
        → ((pre ++ a) ++ (d ∷ n)) ++ subst_char c (d ∷ n) b
          ≡ pre ++ subst_char c (d ∷ n) (a ++ (c ∷ b))
    regroup pre a b h =
        simp (subst_char-append, subst_char_self, subst_char_absent c (d ∷ n) a h, append_assoc)

    conver_loop_fresh :
        (fuel : ℕ) (pos : Option ℕ) (pre s : Text)
        → count c pre ≡ 0
        → IsBelow pos (length pre)
        → count c s < fuel
        → conver_loop fuel pos (c ∷ []) (d ∷ n) (pre ++ s) ≡ some (pre ++ subst_char c (d ∷ n) s)
    conver_loop_fresh zero pos pre s done below enough = absurd (omega arith)
    conver_loop_fresh (suc fuel) pos pre s done below enough = elim (first_char c s) [
      | inl no_c ↦
          rw (subst_char_absent c (d ∷ n) s no_c)
            (conver_loop_absent (d ∷ n) (pre ++ s) fuel pos (count-append_absent pre s done no_c))
      | inr f ↦
          let a = f.before in
          let b = f.after in
          let head = pre ++ a in
          let no_c : count c head ≡ 0 = count-append_absent pre a done f.absent in
          let reach : is_after (some (length head)) pos ≡ true =
            rw (length-append pre a) (is_after_of_IsBelow pos (length pre) (length a) below) in
          let len : length head < length (head ++ (d ∷ n)) =
            omega (arith, length-append head (d ∷ n)) in
          let fewer : count c b < fuel = omega (arith, ap (count c) f.split, count-first c a b) in
          let ih =
            conver_loop_fresh fuel (some (length head)) (head ++ (d ∷ n)) b
              (count-append_absent head (d ∷ n) no_c fresh) len fewer in
          rw f.split (
            ap (conver_loop (suc fuel) pos (c ∷ []) (d ∷ n)) (sym (append_assoc pre a (c ∷ b)))
            ∙ conver_loop_step (d ∷ n) head b fuel pos no_c reach
            ∙ ap (conver_loop fuel (some (length head)) (c ∷ []) (d ∷ n))
                (sym (append_assoc head (d ∷ n) b))
            ∙ ih
            ∙ ap some (regroup pre a b f.absent))
    ]

    -- A replacement without the character: every occurrence is replaced, in one pass.
    pub conver_fresh :
        (s : Text) → conver_xml_special_char s (c ∷ []) (d ∷ n) ≡ some (subst_char c (d ∷ n) s)
    unfolding conver_xml_special_char count
    conver_fresh s =
        conver_loop_fresh (suc (suc (length s))) none [] s refl tt
          (omega (arith, count-le-length c s))

  pub conver_absent : (n s : Text) → count c s ≡ 0 → conver_xml_special_char s (c ∷ []) n ≡ some s
  unfolding conver_xml_special_char
  conver_absent n s h = conver_loop_absent n s (suc (length s)) none h

  -- A replacement that begins with the character: only the first occurrence is replaced.
  pub conver_self :
      (n a b : Text)
      → count c a ≡ 0
      → conver_xml_special_char (a ++ (c ∷ b)) (c ∷ []) (c ∷ n) ≡ some (a ++ (c ∷ (n ++ b)))
  unfolding conver_xml_special_char
  conver_self n a b h =
      conver_loop_step (c ∷ n) a b (suc (length (a ++ (c ∷ b)))) none h refl
      ∙ conver_loop_stop (c ∷ n) a (n ++ b) (length (a ++ (c ∷ b))) (some (length a)) h
          (ground arith)

-- What the last three passes do to a text: the quote and the angle brackets are escaped.
abbrev pub escape_rest : Text → Text
escape_rest s =
    subst_char b'<' (codes "&lt;")
      (subst_char b'>' (codes "&gt;") (subst_char b'\'' (codes "&apos;") s))

convert_after_amp :
    (s t : Text)
    → conver_xml_special_char s (codes "&") (codes "&amp;") ≡ some t
    → convert_xml_special_characters s ≡ some (escape_rest t)
unfolding convert_xml_special_characters count
convert_after_amp s t h =
    rw
      (
        h,
        conver_fresh b'\'' b'&' (codes "apos;") refl t,
        conver_fresh b'>' b'&' (codes "gt;") refl (subst_char b'\'' (codes "&apos;") t),
      )
      (conver_fresh b'<' b'&' (codes "lt;") refl _)

amp_cases :
    (s : Text) → (t : Text) × (conver_xml_special_char s (codes "&") (codes "&amp;") ≡ some t)
amp_cases s = elim (first_char b'&' s) [
  | inl e ↦ (s, conver_absent b'&' (codes "&amp;") s e)
  | inr f ↦ (
    _,
    ap (λ x. conver_xml_special_char x (codes "&") (codes "&amp;")) f.split
        ∙ conver_self b'&' (codes "amp;") f.before f.after f.absent,
  )
]

-- A text that the markup cannot be broken with.
pub record IsEscaped (result : Option Text) : Type 0 where
  pub value : Text
  pub returns : result ≡ some value
  pub no_open : count b'<' value ≡ 0
  pub no_close : count b'>' value ≡ 0
  pub no_quote : count b'\'' value ≡ 0

-- Every text is converted: the call returns, and its result has no angle bracket and no
-- apostrophe.
pub convert-IsEscaped : (s : Text) → IsEscaped (convert_xml_special_characters s)
unfolding count
convert-IsEscaped s =
    let (t, e) = amp_cases s in
    record {
      value = escape_rest t;
      returns = convert_after_amp s t e;
      no_open = count-subst_char_self b'<' _ _ refl;
      no_close = count-subst_char b'<' b'>' _ _ refl (count-subst_char_self b'>' _ _ refl);
      no_quote =
          count-subst_char b'<' b'\'' _ _ refl
            (count-subst_char b'>' b'\'' _ _ refl (count-subst_char_self b'\'' _ _ refl));
    }

pub convert_no_amp :
    (s : Text) → count b'&' s ≡ 0 → convert_xml_special_characters s ≡ some (escape_rest s)
convert_no_amp s h = convert_after_amp s s (conver_absent b'&' (codes "&amp;") s h)

-- Only the first `&` of a text is escaped: what stands in front of it and behind it is converted
-- as if it held no `&`, so that every later `&` stays as it is.
pub convert_first_amp :
    (a b : Text)
    → count b'&' a ≡ 0
    → convert_xml_special_characters (a ++ (b'&' ∷ b))
      ≡ some (escape_rest a ++ (codes "&amp;" ++ escape_rest b))
unfolding subst_char
convert_first_amp a b h =
    convert_after_amp (a ++ (b'&' ∷ b)) _ (conver_self b'&' (codes "amp;") a b h)
    ∙ ap some (simp subst_char-append)
