-- ===== src/Form/Answers.antt =====
-- The panels of a form, and what the answer to the request of a panel adds to a submission.
use vyatta_webgui.Base.{
  ℕ, suc, ◌-◌, ◌≡◌, refl, true, false, Option, none, some, List, [], ◌∷◌, ◌++◌, append-nil, arith,
}
use vyatta_webgui.Text.{Text, codes, count}
use vyatta_webgui.Replace.{replace}
use vyatta_webgui.Replace.Termination.{Replaced, replace-Replaced}
use vyatta_webgui.Form.{
  Field, Item, field_panel, Submission, Answer, save_conf_form_command_sent_error,
}

-- A field of the form with its label.
abbrev pub Panel : Type 0
Panel = Text × Field

unfoldable pub panels : List Panel → List Item → List Item
panels [] rest = rest
panels ((label, field) ∷ fields) rest = field_panel label field ∷ panels fields rest

-- The text of an error, by the answer to a request.
unfoldable pub error_text : Answer → Option Text
error_text none = none
error_text (some (true, msg)) = none
error_text (some (false, msg)) = elim (replace msg (codes "\r\n") []) [
  | none ↦ none
  | some text ↦ some (text ++ codes "<br>")
]

-- The error that an answer adds for the field `i`.
abbrev pub noted : Option Text → ℕ → List (Text × ℕ)
noted none i = []
noted (some text) i = (text, i) ∷ []

message-Replaced : (msg : Text) → Replaced (codes "\r\n") (replace msg (codes "\r\n") [])
unfolding count
message-Replaced msg = replace-Replaced (codes "\r\n") [] 13 (omega arith) msg refl refl

pub save_error :
    (a : Answer) (s : Submission) (i : ℕ)
    → s.index ≡ suc i
    → save_conf_form_command_sent_error a s
      ≡ some (record s { errors = s.errors ++ noted (error_text a) i })
unfolding save_conf_form_command_sent_error error_text
save_error none s i h = rw (append-nil s.errors) refl
save_error (some (true, msg)) s i h = rw (append-nil s.errors) refl
save_error (some (false, msg)) s i h =
    let r = message-Replaced msg in
    let e : s.index - 1 ≡ i = omega (arith, h) in
    rw (save_conf_form_command_sent_error, error_text, r.returns, e)
