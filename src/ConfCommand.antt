-- ===== src/ConfCommand.antt =====
-- The commands of the configuration: `f_sendConfigCLICommand` of
-- src/client/Vyatta/utils/vyatta-cli-command.js, up to the request and after the response.
pub mod Failing
use vyatta_webgui.Base.{
  ℕ, zero, suc, ◌+◌, ◌-◌, ◌*◌, ◌≤◌, ◌<◌, ◌≡◌, refl, sym, ap, ◌∙◌, ◌≢◌, ◌↔◌, ◌⊎◌, inl, inr, Bool,
  true, false, not, ◌&&◌, ◌||◌, Option, none, some, List, [], ◌∷◌, ◌++◌, map, append_assoc,
  append-nil, arith, ltb, leb, ◌==◌, if◌then◌else◌, Bool-cases, Option-cases, is_some, length,
  get_elem?, drop, take, any, all, All, All-append, length-append, ==_iff, ==_refl, lt→ltb, ltb→lt,
}
use vyatta_webgui.Text.{Text, codes, text_eq, count, contains, index_of, replace_first, split}
use vyatta_webgui.Text.Equality.{text_eq_iff, text_eq_refl}
use vyatta_webgui.Replace.{replace}
use vyatta_webgui.CommitErrors.{update_commit_errors}
use vyatta_webgui.Form.{conf_xml}
use vyatta_webgui.Login.{Effect}
use vyatta_webgui.Response.{
  Browser, HttpResponse, Reply, Parsed, TreeMode, config, oper, is_response_ok,
  parse_server_callback,
}

-- The buffer of commit errors.
abbrev pub Errors : Type 0
Errors = Option (List (List Text))

-- Whether the text of a command holds a word.
abbrev pub mentions : Text → Text → Bool
mentions word cmd = contains word cmd

-- The title of the box that waits for the response.
unfoldable pub wait_message : Text → Text
wait_message cmd =
    if mentions (codes "set ") cmd
      || (mentions (codes "delete ") cmd
          || (mentions (codes "discard") cmd || mentions (codes "commit") cmd))
    then codes "Changing configuration..."
    else codes "Configuration..."

-- What is sent, with the state: the segment of a running command is forgotten.
pub record Sending : Type 0 where
  pub message : Text
  pub xml : Text
  pub errors : Errors
  pub segment_id : Option Text

-- The call up to the request; the node is `none` where there is none, else its text with its
-- parent's.
unfoldable pub send_config_cli_command :
    Text → Text → List Text → Option (Text × Option Text) → Errors → Sending
send_config_cli_command sid cmd more node errors =
    let cleared : Errors = if mentions (codes "commit") cmd then some [] else errors in
    record {
      message = wait_message cmd;
      xml = conf_xml sid (cmd ∷ more);
      errors = elim node [ none ↦ cleared | some n ↦ update_commit_errors (some n.0) n.1 cleared ];
      segment_id = none;
    }

-- What the callback does to the page.
pub data PageAct : Type 0 where
  message_box : (title text : Text) → PageAct
  field_error : PageAct
  reload_root : PageAct
  clean_editor : PageAct
  reset_editor : PageAct
  expand_after_load : Text → PageAct
  propagate_now : PageAct
  propagate_after_load : PageAct
  show_session : Text → PageAct
  expand_parent : PageAct

pub record PageChange : Type 0 where
  pub acts : List PageAct
  pub errors : Errors
  pub shown : List Effect

-- The last branches on the command, for a tree with a selected node; `none` where the node is
-- undefined and is asked for its parent. `parent` says whether the node or the selected node has a
-- parent.
unfoldable pub refresh : Text → Text → Option Bool → Errors → Option (List PageAct × Errors)
refresh cmd msg parent errors =
    let loads : List PageAct = elim (index_of (codes "load") cmd) [
      | some zero ↦ reload_root ∷ (clean_editor ∷ [])
      | some (suc i) ↦ []
      | none ↦ []
    ] in
    if mentions (codes "save") cmd
    then some (loads ++ (message_box (codes "Save configuration") msg ∷ []), errors)
    else if mentions (codes "discard") cmd
    then some (loads ++ (expand_after_load cmd ∷ (reload_root ∷ (propagate_now ∷ []))), some [])
    else if mentions (codes "commit") cmd
    then some (
      loads
          ++ (reset_editor ∷ (expand_after_load cmd ∷ (propagate_after_load ∷ (reload_root ∷ [])))),
      errors,
    )
    else if text_eq cmd (codes "show session")
    then some (loads ++ (show_session msg ∷ []), errors)
    else elim parent [
      | none ↦ none
      | some true ↦ some (loads ++ (expand_parent ∷ []), errors)
      | some false ↦ some (loads, errors)
    ]

abbrev pub reply_mode : Text → TreeMode
reply_mode cmd = if text_eq cmd (codes "show session") then oper else config

abbrev pub with_acts :
    List PageAct → List Effect → Option (List PageAct × Errors) → Option PageChange
with_acts before shown none = none
with_acts before shown (some (acts, errors)) =
    some (record { acts = before ++ acts; errors = errors; shown = shown })

-- The rest of the callback, on what the reply was read as.
unfoldable pub take_config_reply : Text → Parsed → Option Bool → List Effect → Option PageChange
take_config_reply cmd p parent shown =
    if p.success
    then with_acts [] shown (refresh cmd p.msg parent p.commit_errs)
    else elim (replace p.msg (codes "\r\n") (codes "<br>")) [
      | none ↦ none
      | some err ↦
          let told = message_box (codes "Changing configuration...") err ∷ (field_error ∷ []) in
          if not (mentions (codes "commit") cmd)
          then some (record { acts = told; errors = p.commit_errs; shown = shown })
          else with_acts told shown (refresh cmd p.msg parent p.commit_errs)
    ]

-- `sendCommandCliCb`
unfoldable pub send_command_cli_cb :
    Browser → Text → HttpResponse → Reply → Option Bool → Errors → Option PageChange
send_command_cli_cb b cmd response reply parent errors =
    let (taken, shown) = is_response_ok b.session response in
    if not taken
    then some (record { acts = []; errors = errors; shown = shown })
    else elim (parse_server_callback b (reply_mode cmd) reply errors) [
      | none ↦ none
      | some p ↦ take_config_reply cmd p parent (shown ++ p.effects)
    ]
