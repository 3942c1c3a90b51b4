-- ===== src/Form/Running.antt =====
-- A whole submission of a form: each field that is not skipped is sent once, in order, and each error
-- is noted with the index of its field.
use vyatta_webgui.Base.{
  ℕ, zero, suc, ◌+◌, ◌<◌, ◌≡◌, refl, sym, ap, ◌∙◌, inl, inr, Bool, Option, none, some, List, [],
  ◌∷◌, ◌++◌, map, append_assoc, append-nil, arith, Option-cases, length, drop,
}
use vyatta_webgui.Text.{Text}
use vyatta_webgui.Form.{
  Field, Item, field_panel, submit_button, field_name, field_commands, Submission, prepared, Step,
  request, done, crashed, send_conf_form_command, Answer, save_conf_form_command_sent_error, Sent,
  then_sent, submit,
}
use vyatta_webgui.Form.Answers.{Panel, panels, error_text, noted, save_error}

submission_eq :
    {i j n m : ℕ} {xs ys : List ℕ} {es fs : List (Text × ℕ)}
    → i ≡ j
    → n ≡ m
    → xs ≡ ys
    → es ≡ fs
    → ◌≡◌ {A = Submission}
        (record { index = i; num_sent = n; sent = xs; errors = es })
        (record { index = j; num_sent = m; sent = ys; errors = fs })
submission_eq hi hn hx he = rw (hi, hn, hx, he) refl

module _ (answer : List Text → Answer) (path : Text) (multi : Bool) where
  -- The commands of a panel, if its field is not skipped.
  abbrev pub sent_commands : Panel → Option (List Text)
  sent_commands (label, field) = elim (field_commands path (field_name multi label) field) [
    | none ↦ none
    | some (cmds, field') ↦ some cmds
  ]

  -- The commands of each field that is not skipped with its index, where `i` is that of the first.
  unfoldable pub sent_panels : ℕ → List Panel → List (ℕ × List Text)
  sent_panels i [] = []
  sent_panels i (p ∷ fields) =
      let rest = sent_panels (suc i) fields in
      elim (sent_commands p) [ none ↦ rest | some cmds ↦ (i, cmds) ∷ rest ]

  -- The errors of the requests.
  unfoldable pub failures : List (ℕ × List Text) → List (Text × ℕ)
  failures [] = []
  failures ((i, cmds) ∷ sent) =
      let rest = failures sent in
      elim (error_text (answer cmds)) [ none ↦ rest | some text ↦ (text, i) ∷ rest ]

  -- The end of a submission that began as `s`.
  abbrev pub finished : Submission → ℕ → List (ℕ × List Text) → Submission
  finished s n sent = record {
    index = suc (n + s.index);
    num_sent = length sent + s.num_sent;
    sent = s.sent ++ map (λ c. c.0) sent;
    errors = s.errors ++ failures sent;
  }

  -- What a submission does after a step.
  abbrev on_step : ℕ → Step → Option Sent
  on_step fuel crashed = none
  on_step fuel (done s) = some ([], s)
  on_step fuel (request cmds field rest next) =
      elim (save_conf_form_command_sent_error (answer cmds) next) [
        | none ↦ none
        | some s' ↦ then_sent cmds (submit fuel answer path multi rest s')
      ]

  submit_step :
      (fuel : ℕ) (items : List Item) (s : Submission)
      → submit (suc fuel) answer path multi items s
        ≡ on_step fuel (send_conf_form_command path multi items s)
  unfolding submit
  submit_step fuel items s = elim (send_conf_form_command path multi items s) [
    | crashed ↦ refl
    | done s' ↦ refl
    | request cmds field rest next ↦ refl
  ]

  submit_done :
      (fuel : ℕ) (rest : List Item) (s : Submission)
      → submit (suc fuel) answer path multi (submit_button ∷ rest) s ≡ some ([], finished s 0 [])
  unfolding submit send_conf_form_command failures
  submit_done fuel rest s =
      ap (λ t. some ([], t))
        (submission_eq (omega arith) (omega arith) (sym (append-nil s.sent))
          (sym (append-nil s.errors)))

  -- The state once the commands of a field are sent.
  abbrev counted : Submission → Submission
  counted s = record s {
    index = suc s.index;
    num_sent = suc s.num_sent;
    sent = s.sent ++ (s.index ∷ []);
  }

  send_panel_skipped :
      (label : Text) (field : Field) (rest : List Item) (s : Submission)
      → field_commands path (field_name multi label) field ≡ none
      → send_conf_form_command path multi (field_panel label field ∷ rest) s
        ≡ send_conf_form_command path multi rest (record s { index = suc s.index })
  unfolding send_conf_form_command
  send_panel_skipped label field rest s e = rw (e, send_conf_form_command)

  send_panel_sent :
      (label : Text) (field : Field) (rest : List Item) (s : Submission) (cmds : List Text)
      (field' : Field)
      → field_commands path (field_name multi label) field ≡ some (cmds, field')
      → send_conf_form_command path multi (field_panel label field ∷ rest) s
        ≡ request cmds field' rest (counted s)
  unfolding send_conf_form_command
  send_panel_sent label field rest s cmds field' e = rw (e, send_conf_form_command)

  sent_panels_skipped :
      (i : ℕ) (label : Text) (field : Field) (fields : List Panel)
      → field_commands path (field_name multi label) field ≡ none
      → sent_panels i ((label, field) ∷ fields) ≡ sent_panels (suc i) fields
  unfolding sent_panels
  sent_panels_skipped i label field fields e = rw (e, sent_panels)

  sent_panels_sent :
      (i : ℕ) (label : Text) (field : Field) (fields : List Panel) (cmds : List Text)
      (field' : Field)
      → field_commands path (field_name multi label) field ≡ some (cmds, field')
      → sent_panels i ((label, field) ∷ fields) ≡ (i, cmds) ∷ sent_panels (suc i) fields
  unfolding sent_panels
  sent_panels_sent i label field fields cmds field' e = rw (e, sent_panels)

  -- The requests of the panels that are not skipped, and the state at the end.
  abbrev pub outcome : Submission → ℕ → List (ℕ × List Text) → Sent
  outcome s n sent = (map (λ c. c.1) sent, finished s n sent)

  failures_cons :
      (i : ℕ) (cmds : List Text) (sent : List (ℕ × List Text))
      → failures ((i, cmds) ∷ sent) ≡ noted (error_text (answer cmds)) i ++ failures sent
  unfolding failures
  failures_cons i cmds sent = elim (Option-cases (error_text (answer cmds))) [
    | inl e ↦ rw (e, failures)
    | inr (t, e) ↦ rw (e, failures)
  ]

  -- The state after the answer to the request of a field.
  abbrev answered : Submission → List Text → Submission
  answered s cmds = record (counted s) {
    errors = s.errors ++ noted (error_text (answer cmds)) s.index;
  }

  request_step :
      (fuel : ℕ) (cmds : List Text) (field : Field) (rest : List Item) (s : Submission)
      → on_step fuel (request cmds field rest (counted s))
        ≡ then_sent cmds (submit fuel answer path multi rest (answered s cmds))
  request_step fuel cmds field rest s =
      rw (save_error (answer cmds) (counted s) s.index refl, on_step)

  outcome_sent :
      (s : Submission) (n : ℕ) (cmds : List Text) (sent : List (ℕ × List Text))
      → finished (answered s cmds) n sent ≡ finished s (suc n) ((s.index, cmds) ∷ sent)
  outcome_sent s n cmds sent =
      submission_eq (omega arith) (omega arith)
        (append_assoc s.sent (s.index ∷ []) (map (λ c. c.0) sent))
        (append_assoc s.errors (noted (error_text (answer cmds)) s.index) (failures sent)
          ∙ ap (λ fs. s.errors ++ fs) (sym (failures_cons s.index cmds sent)))

  submit-panels :
      (fuel : ℕ) (fields : List Panel) (rest : List Item) (s : Submission)
      → length fields < fuel
      → submit fuel answer path multi (panels fields (submit_button ∷ rest)) s
        ≡ some (outcome s (length fields) (sent_panels s.index fields))
  unfolding panels sent_panels
  submit-panels zero fields rest s enough = absurd (omega (arith, enough))
  submit-panels (suc fuel) [] rest s enough = submit_done fuel rest s
  submit-panels (suc fuel) ((label, field) ∷ fields) rest s enough =
      let items = panels fields (submit_button ∷ rest) in
      elim (Option-cases (field_commands path (field_name multi label) field)) [
        | inl e ↦
            let s1 = record s { index = suc s.index } in
            submit_step fuel (field_panel label field ∷ items) s
            ∙ ap (on_step fuel) (send_panel_skipped label field items s e)
            ∙ sym (submit_step fuel items s1)
            ∙ submit-panels (suc fuel) fields rest s1 (omega (arith, enough))
            ∙ ap (λ t. some (map (λ c. c.1) (sent_panels (suc s.index) fields), t))
                (submission_eq (omega arith) refl refl refl)
            ∙ ap (λ c. some (outcome s (suc (length fields)) c))
                (sym (sent_panels_skipped s.index label field fields e))
        | inr ((cmds, field'), e) ↦
            submit_step fuel (field_panel label field ∷ items) s
            ∙ ap (on_step fuel) (send_panel_sent label field items s cmds field' e)
            ∙ request_step fuel cmds field' items s
            ∙ ap (then_sent cmds)
                (submit-panels fuel fields rest (answered s cmds) (omega (arith, enough)))
            ∙ ap (λ t. some (cmds ∷ map (λ c. c.1) (sent_panels (suc s.index) fields), t))
                (outcome_sent s (length fields) cmds (sent_panels (suc s.index) fields))
            ∙ ap (λ c. some (outcome s (suc (length fields)) c))
                (sym (sent_panels_sent s.index label field fields cmds field' e))
      ]

  -- A form is sent whole: for panels in front of a submit button, the calls send the commands that
  -- each field gives unless it is skipped, one field per request and in the order of the form, and then
  -- end; the indices of these fields are noted, and every answer that is a failure is noted as an error
  -- with the index of the field whose commands it answers. One call more than there are panels is
  -- enough.
  pub submit_form :
      (first : Item) (fields : List Panel) (rest : List Item)
      → submit
          (suc (length fields))
          answer
          path
          multi
          (drop prepared.index (first ∷ panels fields (submit_button ∷ rest)))
          prepared
        ≡ some (outcome prepared (length fields) (sent_panels 1 fields))
  submit_form first fields rest =
      submit-panels (suc (length fields)) fields rest prepared (omega arith)
