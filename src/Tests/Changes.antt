-- ===== src/Tests/Changes.antt =====
-- Runs of the commands of the configuration and of the indicators.
use vyatta_webgui.Base.{◌≡◌, refl, true, false, none, some, [], ◌++◌}
use vyatta_webgui.Text.{Text, codes, text_eq, contains, count}
use vyatta_webgui.Response.{Parsed}
use vyatta_webgui.ConfCommand.{take_config_reply}
use vyatta_webgui.ConfCommand.Failing.{Unhandled, take_config_reply-raises_iff}
use vyatta_webgui.Values.{text, number}
use vyatta_webgui.Indicators.{handle_conf_field_off_focus, text_like}
use vyatta_webgui.Indicators.Ending.{submit, mark_text, mark_of, handle_conf_field_off_focus-Marked}

abbrev refusal : Parsed
refusal = record {
  success = false;
  msg = codes "interfaces/eth0\r\nfailed";
  segment = none;
  commit_errs = some [];
  effects = [];
}

abbrev success : Parsed
success = record refusal { success = true }

abbrev load_cmd : Text
load_cmd = codes "load config.boot"

load_cmd-Unhandled : Unhandled load_cmd
unfolding contains text_eq
load_cmd-Unhandled = (refl, refl, refl, refl)

-- The command `load` that the dialog for files sends.
load_without_node : take_config_reply load_cmd success none [] ≡ none
load_without_node =
    (take_config_reply-raises_iff load_cmd success none []).1 (refl, load_cmd-Unhandled, refl)

no_v : count 118 (codes "x") ≡ 0
unfolding count
no_v = refl

handle_conf_field_off_focus-Marked_example :
    handle_conf_field_off_focus
      (text_like (codes "x" ++ mark_text submit) (text (codes "1")) (number 2))
    ≡ some (some ((codes "x" ++ codes " ") ++ mark_text (mark_of (text (codes "1")) (number 2))))
handle_conf_field_off_focus-Marked_example =
    handle_conf_field_off_focus-Marked (codes "x") (text (codes "1")) (number 2) no_v submit
