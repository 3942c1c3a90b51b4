-- ===== src/Segment/Reply.antt =====
-- The callback of `f_sendOperationCliCommand` in src/client/Vyatta/utils/vyatta-cli-command.js, and
-- `f_resetOperButton` of src/client/Vyatta/js/vyatta-panels.js.
use vyatta_webgui.Base.{ℕ, Bool, false, not, if◌then◌else◌, Option, none, some, List, ◌++◌}
use vyatta_webgui.Text.{Text, codes, text_eq, contains}
use vyatta_webgui.Login.{Effect}
use vyatta_webgui.Response.{
  Browser, HttpResponse, Reply, Parsed, oper, is_response_ok, parse_server_callback,
}
use vyatta_webgui.Segment.{
  CliCmd, WildCard, undefined, files, button, stop, wait_css, update, segment_end, idle_button,
}
use vyatta_webgui.Segment.Command.{Request}

-- The state after a response, and what is shown: the text for the editor's view, the dialog with the
-- list of files, and the messages.
pub record Handled : Type 0 where
  pub state : CliCmd
  pub commit_errs : Option (List (List Text))
  pub view : Option (Text × Text)
  pub dialog : Option (Text × Option Text)
  pub effects : List Effect

abbrev pub quiet : CliCmd → Option (List (List Text)) → List Effect → Handled
quiet st errs effects = record {
  state = st;
  commit_errs = errs;
  view = none;
  dialog = none;
  effects = effects;
}

abbrev pub is_end : Text → Bool
is_end sid = contains (codes "_end") sid

abbrev pub reboot_msg : Text
reboot_msg =
    codes
      "System is rebooting. Please wait for reboot to complete\nthen refresh the browser to log in again."

-- The branch of the command `show files`, for the save and load dialogs.
unfoldable pub list_files : CliCmd → Parsed → Text → Text → ℕ → Text → Option Handled
list_files st p name command key msg =
    let st' = record st { wild_card = files name command key; node = none } in
    elim p.segment [
      | none ↦ none
      | some sid ↦ some (
          if is_end sid
          then record {
            state = record st' { waits = false };
            commit_errs = p.commit_errs;
            view = none;
            dialog = some (command, st.outputs key);
            effects = p.effects;
          }
          else elim (st.outputs key) [
            | none ↦
                quiet (record st' { outputs = update st.outputs key (some msg) }) p.commit_errs
                  p.effects
            | some text ↦
                quiet
                  (record st' {
                    outputs = update st.outputs key (some (text ++ (msg ++ codes "\n")));
                  })
                  p.commit_errs p.effects
          ])
    ]

-- While segments come, the button Run shows Stop.
abbrev pub show_stop : WildCard → CliCmd → CliCmd
show_stop (button k) st = record st {
  buttons = update st.buttons k (record (st.buttons k) { style = wait_css; text = stop });
}
show_stop _ st = st

-- `f_resetOperButton(g_cliCmdObj.m_wildCard)`, if both that and the argument are buttons.
abbrev pub reset_oper_button : WildCard → WildCard → CliCmd → CliCmd
reset_oper_button (button k) (button _) st = record st { buttons = update st.buttons k idle_button }
reset_oper_button _ _ st = st

-- The buttons and the saved argument, by the segment of the reply.
unfoldable pub mark_progress : Parsed → WildCard → CliCmd → CliCmd
mark_progress p wild st = elim p.segment [
  | none ↦ st
  | some sid ↦
      if is_end sid
      then reset_oper_button st.wild_card wild st
      else if p.success
      then record (if st.seg_pause then st else show_stop wild st) { wild_card = wild }
      else st
]

-- The rest of the callback: the text goes to the editor, which fails where there is no object to
-- call.
unfoldable pub show_reply : Request → Parsed → Text → CliCmd → Option Handled
show_reply req p msg st =
    if req.has_cb
    then some (record {
      state = record (mark_progress p req.wild_card st) { waits = false };
      commit_errs = p.commit_errs;
      view = some (req.header, msg);
      dialog = none;
      effects = p.effects;
    })
    else none

-- The callback once the reply is read.
unfoldable pub take_reply : Request → Parsed → CliCmd → Option Handled
take_reply req p st =
    let st' = record st { segment_id = p.segment } in
    let msg = if text_eq req.statement (codes "reboot ") then reboot_msg else p.msg in
    elim req.wild_card [
      | files name command key ↦
          if contains (codes "show files ") name
          then list_files st' p name command key msg
          else show_reply req p msg st'
      | undefined ↦ show_reply req p msg st'
      | button k ↦ show_reply req p msg st'
    ]

abbrev pub is_stopped : Option Text → Bool
is_stopped none = false
is_stopped (some sid) = text_eq sid segment_end

-- `opCmdCb`; `none` where the browser raises an exception.
unfoldable pub op_cmd_cb :
    Browser → Request → HttpResponse → Reply → CliCmd → Option (List (List Text)) → Option Handled
op_cmd_cb b req response reply st errs =
    let (taken, shown) = is_response_ok b.session response in
    if not taken
    then some (quiet (record st { waits = false }) errs shown)
    else if is_stopped st.segment_id
    then some (quiet st errs shown)
    else elim (parse_server_callback b oper reply errs) [
      | none ↦ none
      | some p ↦ take_reply req (record p { effects = shown ++ p.effects }) st
    ]
