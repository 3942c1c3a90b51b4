-- ===== src/Response/Prefix.antt =====
-- The search for the start of a long message in the text content.
use vyatta_webgui.Base.{
  ℕ, zero, suc, ◌+◌, ◌≤◌, ◌≡◌, refl, sym, ◌∙◌, ◌⊎◌, inl, inr, arith, ltb, Bool-cases, drop, take,
}
use vyatta_webgui.Text.{Text, text_eq}
use vyatta_webgui.Text.Equality.{text_eq_iff}
use vyatta_webgui.Response.{Text, ℕ, find_start}

-- The loop answers 0, or a place within the first five where the message begins.
pub find_start_lem :
    (fuel i : ℕ) (whole f5 s5 : Text)
    → s5 ≡ take 5 (drop i whole)
    → i ≤ 5
    → (find_start fuel i whole f5 s5 ≡ 0)
      ⊎ ((find_start fuel i whole f5 s5 ≤ 5)
          × (take 5 (drop (find_start fuel i whole f5 s5) whole) ≡ f5))
unfolding find_start
find_start_lem zero i whole f5 s5 e h = inl refl
find_start_lem (suc fuel) i whole f5 s5 e h = elim (Bool-cases (text_eq f5 s5)) [
  | inl same ↦ rw same (inr (h, sym e ∙ sym ((text_eq_iff f5 s5).0 same)))
  | inr other ↦ elim (Bool-cases (ltb 5 (i + 1))) [
    | inl over ↦ inl (rw (other, over))
    | inr more ↦
        rw (other, more)
          (find_start_lem fuel (i + 1) whole f5 (take 5 (drop (i + 1) whole)) refl (ground arith))
  ]
]
