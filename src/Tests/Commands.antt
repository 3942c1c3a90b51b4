-- ===== src/Tests/Commands.antt =====
-- Runs of operational commands.
use vyatta_webgui.Base.{◌≡◌, refl, true, false, none, some, [], ◌∷◌, ◌++◌, map}
use vyatta_webgui.Text.{codes, text_eq, contains}
use mathlib.Core.List.{reverse}
use vyatta_webgui.Response.{
  Browser, HttpResponse, ErrorNode, Reply, Parsed, oper, is_response_ok, parse_server_callback,
}
use vyatta_webgui.Segment.{
  OpNode, CliCmd, WildCard, button, files, undefined, Button, run, stop, wait_css, pause,
  idle_button,
}
use vyatta_webgui.Segment.Command.{Request, Sent, sent, skipped, walk, words, refused}
use vyatta_webgui.Segment.Reply.{list_files}
use vyatta_webgui.Segment.Events.{tick, stop_button}
use vyatta_webgui.Segment.Building.{word, IsFilled, IsBlank, walk_filled}
use vyatta_webgui.Segment.Stopping.{late_reply-Resumed, Resumed}
use vyatta_webgui.Segment.Listing.{show_files_collected, feed, segment_reply, shown, lines_of}
use vyatta_webgui.Segment.Polling.{tick_once}
use vyatta_webgui.Tests.Replies.{firefox}

abbrev show : OpNode
show = record { text = codes "show"; get_val = none }

abbrev version : OpNode
version = record { text = codes "version"; get_val = none }

abbrev root : OpNode
root = record { text = codes "Operation"; get_val = none }

abbrev no_value : OpNode
no_value = record { text = codes "&lt;value&gt;"; get_val = some (codes "''") }

filled :
    (n : OpNode)
    → text_eq n.text (codes "Operation") ≡ false
    → text_eq n.text (codes "&lt;value&gt;") ≡ false
    → IsFilled n
filled n h k = record { below = h; filled = λ e. absurd (cc (e, k)) }

show-IsFilled : IsFilled show
unfolding text_eq
show-IsFilled = filled show refl refl

version-IsFilled : IsFilled version
unfolding text_eq
version-IsFilled = filled version refl refl

walk_filled_example :
    walk true [] ((version ∷ (show ∷ [])) ++ (root ∷ []))
    ≡ words (map word (reverse (version ∷ (show ∷ []))))
walk_filled_example =
    walk_filled (version ∷ (show ∷ [])) root [] (version-IsFilled, (show-IsFilled, tt)) refl

no_value-IsBlank : IsBlank no_value
unfolding text_eq
no_value-IsBlank = record {
  below = refl;
  value = refl;
  val = codes "''";
  entered = refl;
  blank = refl;
}

-- A command that runs, with its buttons.
abbrev running : CliCmd
running = record {
  segment_id = some (codes "1_2_3");
  seg_pause = false;
  node = some (version ∷ (show ∷ (root ∷ [])));
  has_cb = true;
  wild_card = button 0;
  waits = false;
  outputs = λ k. none;
  buttons = λ k. record { text = stop; style = wait_css; pause_text = pause; pause_visible = true };
}

abbrev asked : Request
asked = record {
  statement = codes "1_2_3";
  header = codes "show";
  wild_card = button 0;
  has_cb = true;
  clear = false;
}

abbrev response : HttpResponse
response = record { has_xml = true; status = 200 }

abbrev segment_node : ErrorNode
segment_node = record {
  code = codes "0";
  msg = codes "text";
  segment = some (some (codes "1_2_4"));
}

abbrev reply : Reply
reply = record { error = some segment_node; text_content = none }

taken : (is_response_ok firefox.session response).0 ≡ true
unfolding is_response_ok vyatta_webgui.Login.is_logined vyatta_webgui.Login.is_user_logined text_eq
taken = refl

abbrev understood : Parsed
understood = record {
  success = true;
  msg = codes "text";
  segment = some (codes "1_2_4");
  commit_errs = none;
  effects = [];
}

parsed : parse_server_callback firefox oper reply none ≡ some understood
unfolding parse_server_callback vyatta_webgui.Response.judge vyatta_webgui.Response.code_of text_eq
    vyatta_webgui.Response.whole_message vyatta_webgui.Response.warn
parsed = refl

more_follows : contains (codes "_end") (codes "1_2_4") ≡ false
unfolding contains
more_follows = refl

version_path :
    walk true [] (version ∷ (show ∷ (root ∷ []))) ≡ words (codes "show" ∷ (codes "version" ∷ []))
unfolding walk text_eq
version_path = refl

late_reply-Resumed_example :
    Resumed firefox asked response reply none false
      (codes "7")
      (stop_button 0 running)
      (codes "1_2_4")
late_reply-Resumed_example =
    late_reply-Resumed firefox asked response reply running none 0 0 false (codes "7")
      (codes "1_2_4") understood (version ∷ (show ∷ (root ∷ [])))
      (codes "show" ∷ (codes "version" ∷ [])) taken parsed refl more_follows refl refl refl
      version_path

ends : contains (codes "_end") (codes "1_end") ≡ true
unfolding contains
ends = refl

show_files_collected_example :
    (st' : CliCmd) × (feed
        (codes "show files ")
        (codes "Save")
        0
        ((codes "1_2_4", codes "a") ∷ ((codes "1_2_4", codes "b") ∷ []))
        running
      ≡ some st')
    × (list_files st' (segment_reply (codes "1_end", [])) (codes "show files ") (codes "Save") 0 []
        ≡ some (
            shown
              (codes "show files ")
              (codes "Save")
              0
              st'
              (codes "a" ++ lines_of ((codes "1_2_4", codes "b") ∷ []))))
show_files_collected_example =
    show_files_collected (codes "show files ") (codes "Save") 0 running (codes "1_2_4") (codes "a")
      (codes "1_end") [] ((codes "1_2_4", codes "b") ∷ []) refl more_follows (more_follows, tt) ends

abbrev polled : CliCmd
polled = record running { segment_id = none }

abbrev next_request : Request
next_request = record {
  statement = codes "1_2_3";
  header = codes "show&nbsp;&rArr;&nbsp;version";
  wild_card = button 0;
  has_cb = true;
  clear = false;
}

polls : tick false (codes "7") running ≡ sent polled next_request
unfolding tick vyatta_webgui.Segment.Events.end_run contains text_eq
    vyatta_webgui.Segment.Command.send_operation_cli_command
    vyatta_webgui.Segment.Command.send_words walk vyatta_webgui.Segment.Command.request_unless_same
    vyatta_webgui.Segment.Command.header_str
polls = refl

tick_once_example :
    (polled.segment_id ≡ none) × (tick false (codes "7") polled ≡ skipped polled false)
tick_once_example = tick_once false (codes "7") running polled next_request polls
