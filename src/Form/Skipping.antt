-- ===== src/Form/Skipping.antt =====
-- Which fields of a form are skipped.
use vyatta_webgui.Base.{
  ◌≡◌, refl, ap, ◌∙◌, ◌↔◌, inl, inr, Bool, true, false, none, some, List, [], ◌∷◌, ◌++◌, arith,
  Bool-cases, length, length-append,
}
use vyatta_webgui.Text.{Text, codes, text_eq}
use vyatta_webgui.Text.Equality.{text_eq_iff, text_eq_refl}
use vyatta_webgui.Values.{loosely_equal, loosely_equal_refl, shown}
use vyatta_webgui.Form.{
  Field, text_field, number_field, combo, editor_grid, checkbox, other_field, field_commands,
  has_inner_space, quoted, bool_eq, value_command,
}
use vyatta_webgui.Grid.{is_edit_grid_dirty}

-- The field shows its original value.
abbrev pub Untouched : Field → Type 0
Untouched (text_field original value) = original ≡ value
Untouched (number_field original value) = original ≡ value
Untouched (combo original value) = original ≡ value
Untouched (editor_grid store values) = is_edit_grid_dirty store ≡ false
Untouched (checkbox original value) = original ≡ value
Untouched other_field = ⊥

-- A text that the code puts in quotes.
abbrev pub is_quoted_text : Field → Bool
is_quoted_text (text_field original value) = has_inner_space value
is_quoted_text _ = false

quoted_differs : (v : Text) → has_inner_space v ≡ true → text_eq v (quoted v) ≡ false
unfolding quoted
quoted_differs v h = elim (Bool-cases (text_eq v (quoted v))) [
  | inl e ↦
      let same : v ≡ codes "'" ++ (v ++ codes "'") =
        (text_eq_iff v (quoted v)).0 e ∙ rw (h, quoted) in
      absurd (
        omega (
          arith,
          ap length same,
          length-append (codes "'") (v ++ codes "'"),
          length-append v (codes "'"),
        ))
  | inr e ↦ e
]

quoted_same : (v : Text) → has_inner_space v ≡ false → quoted v ≡ v
unfolding quoted
quoted_same v h = rw (h, quoted)

bool_eq_refl : (b : Bool) → bool_eq b b ≡ true
bool_eq_refl true = refl
bool_eq_refl false = refl

-- A field that shows its original value is skipped exactly if it is not a text with a space
-- behind its first character: such a text is sent although it did not change.
pub Untouched-skipped_iff :
    (path label : Text) (f : Field)
    → Untouched f
    → (field_commands path label f ≡ none) ↔ (is_quoted_text f ≡ false)
unfolding field_commands
Untouched-skipped_iff path label (text_field o v) h = elim (Bool-cases (has_inner_space v)) [
  | inl e ↦
      let differs : text_eq o (quoted v) ≡ false = rw h (quoted_differs v e) in
      let sent : field_commands path label (text_field o v)
          ≡ some (value_command path label (quoted v) ∷ [], text_field (quoted v) v) =
        rw (differs, field_commands) in
      (λ skip. absurd (cc (skip, sent)), λ no. absurd (cc (e, no)))
  | inr e ↦ (λ _. e, λ _. rw (h, quoted_same v e, text_eq_refl v, field_commands))
]
Untouched-skipped_iff path label (number_field o v) h =
    (λ _. refl, λ _. rw (h, loosely_equal_refl v, field_commands))
Untouched-skipped_iff path label (combo o v) h =
    (λ _. refl, λ _. rw (h, text_eq_refl v, field_commands))
Untouched-skipped_iff path label (editor_grid store values) h =
    (λ _. refl, λ _. rw (h, field_commands))
Untouched-skipped_iff path label (checkbox o v) h =
    (λ _. refl, λ _. rw (h, bool_eq_refl v, field_commands))
Untouched-skipped_iff path label other_field h = elim h [ ]

-- The fields that keep what was sent as their original value.
abbrev pub keeps_sent : Field → Bool
keeps_sent (text_field original value) = true
keeps_sent (number_field original value) = true
keeps_sent (combo original value) = true
keeps_sent _ = false

-- A text, number or choice that was sent is skipped when the form is submitted again.
pub sent_once :
    (path label : Text) (f f' : Field) (cmds : List Text)
    → keeps_sent f ≡ true
    → field_commands path label f ≡ some (cmds, f')
    → field_commands path label f' ≡ none
unfolding field_commands
sent_once path label (text_field o v) f' cmds k h = elim (Bool-cases (text_eq o (quoted v))) [
  | inl e ↦
      let skip : field_commands path label (text_field o v) ≡ none = rw (e, field_commands) in
      absurd (cc (skip, h))
  | inr e ↦
      let sent : field_commands path label (text_field o v)
          ≡ some (value_command path label (quoted v) ∷ [], text_field (quoted v) v) =
        rw (e, field_commands) in
      let same : f' ≡ text_field (quoted v) v = cc (sent, h) in
      rw (same, text_eq_refl (quoted v), field_commands)
]
sent_once path label (number_field o v) f' cmds k h = elim (Bool-cases (loosely_equal o v)) [
  | inl e ↦
      let skip : field_commands path label (number_field o v) ≡ none = rw (e, field_commands) in
      absurd (cc (skip, h))
  | inr e ↦
      let sent : field_commands path label (number_field o v)
          ≡ some (value_command path label (shown v) ∷ [], number_field v v) =
        rw (e, field_commands) in
      let same : f' ≡ number_field v v = cc (sent, h) in
      rw (same, loosely_equal_refl v, field_commands)
]
sent_once path label (combo o v) f' cmds k h = elim (Bool-cases (text_eq o v)) [
  | inl e ↦
      let skip : field_commands path label (combo o v) ≡ none = rw (e, field_commands) in
      absurd (cc (skip, h))
  | inr e ↦
      let sent : field_commands path label (combo o v)
          ≡ some (value_command path label v ∷ [], combo v v) =
        rw (e, field_commands) in
      let same : f' ≡ combo v v = cc (sent, h) in rw (same, text_eq_refl v, field_commands)
]
sent_once path label (editor_grid store values) f' cmds k h = absurd (cc k)
sent_once path label (checkbox o v) f' cmds k h = absurd (cc k)
sent_once path label other_field f' cmds k h = absurd (cc k)
