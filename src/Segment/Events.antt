-- ===== src/Segment/Events.antt =====
-- The timer of `f_startSegmentCommand` (src/client/Vyatta/utils/vyatta-cli-command.js), the clicks on
-- Run, Stop and Pause (src/client/Vyatta/js/vyatta-panels.js), and the choice of another node or tab.
use vyatta_webgui.Base.{
  ℕ, Bool, true, false, not, ◌&&◌, ◌||◌, if◌then◌else◌, Option, none, some, List, ◌∷◌,
}
use vyatta_webgui.Text.{Text, codes, text_eq}
use vyatta_webgui.Segment.{
  CliCmd, OpNode, button, run, stop, wait_css, pause_css, pause, resume, update, segment_end,
  idle_button,
}
use vyatta_webgui.Segment.Command.{Call, Sent, skipped, send_operation_cli_command}
use vyatta_webgui.Segment.Reply.{is_end}

-- The first test of the timer: a command that has ended, or was stopped, is forgotten.
unfoldable pub end_run : CliCmd → CliCmd
end_run st = elim st.segment_id [
  | none ↦ st
  | some sid ↦
      if is_end sid || text_eq sid segment_end
      then record st { segment_id = none; seg_pause = false }
      else st
]

-- The call that asks for the next segment.
abbrev pub next_call : CliCmd → Text → Call
next_call st sid = record {
  node = st.node;
  has_cb = st.has_cb;
  clear = false;
  prev_xml = none;
  force = true;
  segment = some sid;
  wild_card = st.wild_card;
}

-- `run` of the timer.
unfoldable pub tick : Bool → Text → CliCmd → Sent
tick is_ie sid st =
    let st' = end_run st in
    elim st'.segment_id [
      | none ↦ skipped st' false
      | some segment ↦
          if not st'.seg_pause
          then send_operation_cli_command is_ie sid (next_call st' segment) st'
          else skipped st' false
    ]

-- What a click on the button Run or Stop does.
pub data Clicked : Type 0 where
  stopped : CliCmd → Clicked
  asks_reboot : Clicked
  started : Sent → Clicked

abbrev pub run_call : List OpNode → ℕ → Call
run_call node k = record {
  node = some node;
  has_cb = true;
  clear = false;
  prev_xml = none;
  force = true;
  segment = none;
  wild_card = button k;
}

-- `node.text == 'reboot'`, with a parent whose text is not `show`.
abbrev pub is_reboot : List OpNode → Bool
is_reboot (n ∷ (p ∷ above)) = text_eq n.text (codes "reboot") && not (text_eq p.text (codes "show"))
is_reboot _ = false

unfoldable pub stop_button : ℕ → CliCmd → CliCmd
stop_button k st = record st {
  buttons = update st.buttons k idle_button;
  segment_id = some segment_end;
}

unfoldable pub handle_oper_btn_click : Bool → Text → ℕ → List OpNode → CliCmd → Clicked
handle_oper_btn_click is_ie sid k node st = elim (st.buttons k).text [
  | stop ↦ stopped (stop_button k st)
  | run ↦
      if is_reboot node
      then asks_reboot
      else started (send_operation_cli_command is_ie sid (run_call node k) st)
]

-- The handler of the button Pause.
unfoldable pub pause_click : ℕ → CliCmd → CliCmd
pause_click k st = elim (st.buttons k).pause_text [
  | pause ↦ record st {
    buttons =
        update st.buttons k (record (st.buttons k) { style = pause_css; pause_text = resume });
    seg_pause = true;
  }
  | resume ↦ record st {
    buttons = update st.buttons k (record (st.buttons k) { style = wait_css; pause_text = pause });
    seg_pause = false;
  }
]

-- The first statement of the handlers of a click on a node of either tree.
unfoldable pub click_node : CliCmd → CliCmd
click_node st = record st { segment_id = none }

-- The part of `f_showPanel` that ends a command, with the panel's button if it has one.
unfoldable pub show_panel : Option ℕ → CliCmd → CliCmd
show_panel none st = record st { segment_id = some segment_end }
show_panel (some k) st = record st {
  segment_id = some segment_end;
  buttons = update st.buttons k idle_button;
}
