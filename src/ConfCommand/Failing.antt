-- ===== src/ConfCommand/Failing.antt =====
-- When the callback of a command of the configuration ends in an exception.
use vyatta_webgui.Base.{
  ◌≡◌, refl, sym, ◌∙◌, ◌≢◌, ◌↔◌, inl, inr, Bool, true, false, Option, none, some, List, [], ◌∷◌,
  not, if◌then◌else◌, arith, Bool-cases,
}
use vyatta_webgui.Text.{Text, codes, text_eq, count}
use vyatta_webgui.Replace.{replace}
use vyatta_webgui.Replace.Termination.{Replaced, replace-Replaced}
use vyatta_webgui.Response.{Parsed}
use vyatta_webgui.Login.{Effect}
use vyatta_webgui.ConfCommand.{
  PageAct, message_box, field_error, mentions, refresh, take_config_reply, with_acts, Errors,
}

-- No branch of the callback is about the command.
abbrev pub Unhandled : Text → Type 0
Unhandled cmd =
    (mentions (codes "save") cmd ≡ false)
    × (mentions (codes "discard") cmd ≡ false)
    × (mentions (codes "commit") cmd ≡ false)
    × (text_eq cmd (codes "show session") ≡ false)

message_lines : (msg : Text) → Replaced (codes "\r\n") (replace msg (codes "\r\n") (codes "<br>"))
unfolding count
message_lines msg = replace-Replaced (codes "\r\n") (codes "<br>") 13 (omega arith) msg refl refl

refresh-none_iff :
    (cmd msg : Text) (parent : Option Bool) (errors : Errors)
    → (refresh cmd msg parent errors ≡ none) ↔ (Unhandled cmd × (parent ≡ none))
unfolding refresh
refresh-none_iff cmd msg none errors = (λ h. ground arith, λ h. ground arith)
refresh-none_iff cmd msg (some true) errors = (λ h. ground arith, λ h. ground arith)
refresh-none_iff cmd msg (some false) errors = (λ h. ground arith, λ h. ground arith)

with_acts-none_iff :
    (before : List PageAct) (shown : List Effect) (o : Option (List PageAct × Errors))
    → (with_acts before shown o ≡ none) ↔ (o ≡ none)
with_acts-none_iff before shown none = (λ h. refl, λ h. refl)
with_acts-none_iff before shown (some (acts, errors)) = (λ h. absurd (cc h), λ h. absurd (cc h))

-- The box and the mark of the field for a message.
abbrev told : Text → List PageAct
told err = message_box (codes "Changing configuration...") err ∷ (field_error ∷ [])

module _ (cmd : Text) (p : Parsed) (parent : Option Bool) (shown : List Effect) where
  succeeds :
      p.success ≡ true
      → take_config_reply cmd p parent shown
        ≡ with_acts [] shown (refresh cmd p.msg parent p.commit_errs)
  unfolding take_config_reply
  succeeds ok = rw (ok, take_config_reply)

  refused :
      p.success ≡ false
      → (err : Text) → replace p.msg (codes "\r\n") (codes "<br>") ≡ some err
      → take_config_reply cmd p parent shown ≡ (
          if not (mentions (codes "commit") cmd)
          then some (record { acts = told err; errors = p.commit_errs; shown = shown })
          else with_acts (told err) shown (refresh cmd p.msg parent p.commit_errs))
  unfolding take_config_reply
  refused fails err h = rw (fails, h, take_config_reply)

  -- A refused command is always handled.
  refused_returns : p.success ≡ false → take_config_reply cmd p parent shown ≢ none
  refused_returns fails h =
      let m = message_lines p.msg in
      let acts = with_acts-none_iff (told m.value) shown (refresh cmd p.msg parent p.commit_errs) in
      let branches = refresh-none_iff cmd p.msg parent p.commit_errs in
      let same = sym (refused fails m.value m.returns) ∙ h in
      elim (Bool-cases (mentions (codes "commit") cmd)) [
        | inl e ↦ absurd (cc (e, (branches.0 (acts.0 (rw e at same))).0.2))
        | inr e ↦ absurd (cc (rw e at same))
      ]

  pub take_config_reply-raises_iff :
      (take_config_reply cmd p parent shown ≡ none)
      ↔ ((p.success ≡ true) × Unhandled cmd × (parent ≡ none))
  take_config_reply-raises_iff =
      let acts = with_acts-none_iff [] shown (refresh cmd p.msg parent p.commit_errs) in
      let branches = refresh-none_iff cmd p.msg parent p.commit_errs in
      elim (Bool-cases p.success) [
        | inl ok ↦ (
          λ h. let k = branches.0 (acts.0 (sym (succeeds ok) ∙ h)) in (ok, k.0, k.1),
          λ q. succeeds ok ∙ acts.1 (branches.1 (q.1, q.2)),
        )
        | inr fails ↦ (λ h. absurd (refused_returns fails h), λ q. absurd (cc (fails, q.0)))
      ]
