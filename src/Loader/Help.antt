-- ===== src/Loader/Help.antt =====
-- The characters of the help once it is cleaned (`clean_help` in Loader).
use vyatta_webgui.Base.{
  ℕ, zero, suc, ◌-◌, ◌≡◌, refl, ◌≢◌, inl, inr, Bool, true, false, not, ◌||◌, none, some, [], ◌∷◌,
  arith, ◌==◌, Option-cases, length, all, All, All-append,
}
use vyatta_webgui.Text.{Text, codes, strip_prefix}
use vyatta_webgui.Loader.{help_tokens, token_at, clean_help, replace_char_of}

-- No apostrophe, no angle bracket, no tabulator and no end of line.
abbrev pub Plain : ℕ → Type 0
Plain c = (c ≢ 39) × (c ≢ 60) × (c ≢ 62) × (c ≢ 9) × (c ≢ 10)

is_bad : ℕ → Bool
is_bad c = c == 39 || (c == 60 || (c == 62 || (c == 9 || c == 10)))

Plain-of : (c : ℕ) → is_bad c ≡ false → Plain c
unfolding is_bad
Plain-of c h = ground arith

abbrev is_plain : Text → Bool
is_plain = all (λ c. not (is_bad c))

All-Plain : (s : Text) → is_plain s ≡ true → All Plain s
All-Plain [] h = tt
All-Plain (c ∷ s) h = (Plain-of c (ground arith), All-Plain s (ground arith))

replace_char_of-Plain : (m : Text) → All Plain (replace_char_of m)
unfolding replace_char_of is_bad
replace_char_of-Plain m =
    let checked : is_plain (replace_char_of m) ≡ true = ground arith in
    All-Plain (replace_char_of m) checked

token_at-Plain : (c : ℕ) (s : Text) → token_at help_tokens (c ∷ s) ≡ none → Plain c
unfolding token_at strip_prefix
token_at-Plain c s h =
    let apos : token_at help_tokens (39 ∷ s) ≡ some (codes "'") = refl in
    let lt : token_at help_tokens (60 ∷ s) ≡ some (codes "<") = refl in
    let gt : token_at help_tokens (62 ∷ s) ≡ some (codes ">") = refl in
    let tab : token_at help_tokens (9 ∷ s) ≡ some (codes "\t") = refl in
    let eol : token_at help_tokens (10 ∷ s) ≡ some (codes "\n") = refl in
    (
      λ e. absurd (cc (e, h, apos)),
      λ e. absurd (cc (e, h, lt)),
      λ e. absurd (cc (e, h, gt)),
      λ e. absurd (cc (e, h, tab)),
      λ e. absurd (cc (e, h, eol)),
    )

-- The help of completion, once it is cleaned, has no apostrophe, no angle bracket, no tabulator
-- and no end of line, whatever the server sent.
pub clean_help-Plain : (k : ℕ) (s : Text) → All Plain (clean_help k s)
unfolding clean_help
clean_help-Plain k [] = tt
clean_help-Plain (suc k) (c ∷ s) = clean_help-Plain k s
clean_help-Plain zero (c ∷ s) = elim (Option-cases (token_at help_tokens (c ∷ s))) [
  | inl e ↦ rw (e, clean_help) (token_at-Plain c s e, clean_help-Plain zero s)
  | inr (t, e) ↦
      rw (e, clean_help)
        (All-append Plain (replace_char_of t) (clean_help (length t - 1) s)
          (replace_char_of-Plain t) (clean_help-Plain (length t - 1) s))
]
