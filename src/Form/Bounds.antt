-- ===== src/Form/Bounds.antt =====
-- The indices that a submission notes are those of panels of the form.
use vyatta_webgui.Base.{
  ℕ, zero, suc, ◌+◌, ◌≤◌, ◌<◌, ◌≡◌, refl, ◌⊎◌, inl, inr, Bool, some, List, [], ◌∷◌, map, arith,
  Option-cases, length, get_elem?, drop, All,
}
use vyatta_webgui.Text.{Text}
use vyatta_webgui.Form.{Field, Item, field_panel, submit_button, prepared, Answer, submit, Sent}
use vyatta_webgui.Form.Answers.{Panel, panels, error_text}
use vyatta_webgui.Form.Running.{sent_commands, sent_panels, failures, outcome, submit_form}

-- The place is one of `n` places from `i` on.
abbrev Within : ℕ → ℕ → ℕ → Type 0
Within i n j = (i ≤ j) × (j < i + n)

-- At the place of the form stands a panel with a field.
pub record PanelThere (items : List Item) (i : ℕ) : Type 0 where
  pub label : Text
  pub field : Field
  pub there : get_elem? items i ≡ some (field_panel label field)

module _ (answer : List Text → Answer) (path : Text) (multi : Bool) where
  sent_panels-cases :
      (i : ℕ) (p : Panel) (fields : List Panel)
      → (sent_panels answer path multi i (p ∷ fields)
          ≡ sent_panels answer path multi (suc i) fields)
        ⊎ ((cmds : List Text) × (sent_panels answer path multi i (p ∷ fields)
              ≡ (i, cmds) ∷ sent_panels answer path multi (suc i) fields))
  unfolding sent_panels
  sent_panels-cases i p fields = elim (Option-cases (sent_commands answer path multi p)) [
    | inl e ↦ inl (rw (e, sent_panels))
    | inr (cmds, e) ↦ inr (cmds, rw (e, sent_panels))
  ]

  wider :
      (i n : ℕ) (sent : List (ℕ × List Text))
      → All (λ c. Within (suc i) n c.0) sent
      → All (λ c. Within i (suc n) c.0) sent
  wider i n [] h = tt
  wider i n (c ∷ sent) h = ((omega (arith, h.0.0), omega (arith, h.0.1)), wider i n sent h.1)

  sent_panels-Within :
      (i : ℕ) (fields : List Panel)
      → All (λ c. Within i (length fields) c.0) (sent_panels answer path multi i fields)
  unfolding sent_panels
  sent_panels-Within i [] = tt
  sent_panels-Within i (p ∷ fields) =
      let rest =
        wider i (length fields) (sent_panels answer path multi (suc i) fields)
          (sent_panels-Within (suc i) fields) in
      elim (sent_panels-cases i p fields) [
        | inl e ↦ rw e rest
        | inr (cmds, e) ↦ rw e ((omega arith, omega arith), rest)
      ]

  -- A property of the indices that were sent is one of those that failed.
  failures-All :
      (P : ℕ → Type 0) (sent : List (ℕ × List Text))
      → All (λ c. P c.0) sent
      → All (λ e. P e.1) (failures answer path multi sent)
  unfolding failures
  failures-All P [] h = tt
  failures-All P ((i, cmds) ∷ sent) h = elim (Option-cases (error_text (answer cmds))) [
    | inl e ↦ rw (e, failures) (failures-All P sent h.1)
    | inr (t, e) ↦ rw (e, failures) (h.0, failures-All P sent h.1)
  ]

panel_at :
    (fields : List Panel) (rest : List Item) (k : ℕ)
    → k < length fields
    → PanelThere (panels fields rest) k
unfolding panels
panel_at [] rest k h = absurd (omega (arith, h))
panel_at ((label, field) ∷ fields) rest zero h = record {
  label = label;
  field = field;
  there = refl;
}
panel_at ((label, field) ∷ fields) rest (suc k) h =
    let r = panel_at fields rest k (omega (arith, h)) in
    record { label = r.label; field = r.field; there = r.there }

-- The place of a panel in a form whose first item is its title.
panel_there :
    (first : Item) (fields : List Panel) (rest : List Item) (i : ℕ)
    → Within 1 (length fields) i
    → PanelThere (first ∷ panels fields rest) i
panel_there first fields rest zero h = absurd (omega (arith, h.0))
panel_there first fields rest (suc k) h =
    let r = panel_at fields rest k (omega (arith, h.1)) in
    record { label = r.label; field = r.field; there = r.there }

All_mono :
    {A : Type 0} (P Q : A → Type 0) (xs : List A) → ((x : A) → P x → Q x) → All P xs → All Q xs
All_mono P Q [] f h = tt
All_mono P Q (x ∷ xs) f h = (f x h.0, All_mono P Q xs f h.1)

All_indices :
    (P : ℕ → Type 0) (sent : List (ℕ × List Text))
    → All (λ c. P c.0) sent
    → All P (map (λ c. c.0) sent)
All_indices P [] h = tt
All_indices P (c ∷ sent) h = (h.0, All_indices P sent h.1)

-- The indices of a submission are in bounds: for panels in front of a submit button the submission
-- ends, and at each index that it noted as sent, and at the index of each error, the form has a
-- panel with a field.
pub submit-PanelThere :
    (answer : List Text → Answer) (path : Text) (multi : Bool) (first : Item) (fields : List Panel)
    (rest : List Item)
    → (s : Sent) × (submit
          (suc (length fields))
          answer
          path
          multi
          (drop prepared.index (first ∷ panels fields (submit_button ∷ rest)))
          prepared
        ≡ some s)
      × All (PanelThere (first ∷ panels fields (submit_button ∷ rest))) s.1.sent
      × All (λ e. PanelThere (first ∷ panels fields (submit_button ∷ rest)) e.1) s.1.errors
submit-PanelThere answer path multi first fields rest =
    let there = PanelThere (first ∷ panels fields (submit_button ∷ rest)) in
    let sent = sent_panels answer path multi 1 fields in
    let h =
      All_mono (λ c. Within 1 (length fields) c.0) (λ c. there c.0) sent
        (λ c. panel_there first fields (submit_button ∷ rest) c.0)
        (sent_panels-Within answer path multi 1 fields) in
    (
      outcome answer path multi prepared (length fields) sent,
      submit_form answer path multi first fields rest,
      All_indices there sent h,
      failures-All answer path multi there sent h,
    )
