-- ===== src/Tests/Runs.antt =====
-- A run of an operational command to its end.
use vyatta_webgui.Base.{ℕ, ◌≡◌, refl, true, false, Option, none, some, List, [], ◌∷◌, ◌++◌}
use vyatta_webgui.Text.{Text, codes, text_eq, contains}
use vyatta_webgui.Response.{Parsed}
use vyatta_webgui.Segment.{CliCmd, OpNode, Button, idle_button}
use vyatta_webgui.Segment.Command.{walk, words}
use mathlib.Core.List.{map, reverse}
use vyatta_webgui.Segment.Command.{refused}
use vyatta_webgui.Segment.Building.{word, IsFilled}
use vyatta_webgui.Segment.Events.{click_node}
use vyatta_webgui.OperEditor.{handle_node_oper_click}
use vyatta_webgui.OperEditor.Silence.{OnlyLoads, oper_click-OnlyLoads}
use vyatta_webgui.OperEditor.Untouched.{value_node, untouched_choice_sent}
use vyatta_webgui.Segment.Ending.{GoesOn, Ends, Ended, running_at, rounds, rounds-Ended}

abbrev plain_node : Text → OpNode
plain_node t = record { text = t; get_val = none }

abbrev show_version : List OpNode
show_version =
    plain_node (codes "version")
    ∷ (plain_node (codes "show") ∷ (plain_node (codes "Operation") ∷ []))

abbrev with_segment : Text → Parsed
with_segment sid = record {
  success = true;
  msg = codes "text";
  segment = some sid;
  commit_errs = none;
  effects = [];
}

abbrev no_outputs : ℕ → Option Text
no_outputs k = none

abbrev idle_buttons : ℕ → Button
idle_buttons k = idle_button

known_path : walk true [] show_version ≡ words (codes "show" ∷ (codes "version" ∷ []))
unfolding walk text_eq
known_path = refl

middle-GoesOn : GoesOn (with_segment (codes "1_2_4"))
unfolding contains
middle-GoesOn = record { sid = codes "1_2_4"; segment = refl; live = refl; success = refl }

last-Ends : Ends (with_segment (codes "1_end"))
unfolding contains
last-Ends = record { sid = codes "1_end"; segment = refl; over = refl }

begins : contains (codes "_end") (codes "1_2_3") ≡ false
unfolding contains
begins = refl

rounds-Ended_example :
    (st : CliCmd) × (rounds false
        (codes "7")
        (running_at 0 show_version (codes "1_2_3") true no_outputs idle_buttons)
        ((with_segment (codes "1_2_4") ∷ []) ++ (with_segment (codes "1_end") ∷ []))
      ≡ some st)
    × Ended false (codes "7") 0 show_version (codes "show" ∷ (codes "version" ∷ [])) known_path st
rounds-Ended_example =
    rounds-Ended false (codes "7") 0 show_version (codes "show" ∷ (codes "version" ∷ [])) known_path
      (with_segment (codes "1_2_4") ∷ []) (with_segment (codes "1_end")) (codes "1_2_3") true
      no_outputs idle_buttons begins (middle-GoesOn, tt) last-Ends

abbrev choice : OpNode
choice = value_node (some (codes "show")) (record { enums = some (codes "eth0" ∷ []); help = none })

abbrev operation : OpNode
operation = plain_node (codes "Operation")

oper_click-OnlyLoads_example :
    OnlyLoads true
      (click_node (running_at 0 show_version (codes "1_2_3") true no_outputs idle_buttons))
      (handle_node_oper_click false
        (codes "7")
        (choice ∷ show_version)
        true
        false
        false
        (running_at 0 show_version (codes "1_2_3") true no_outputs idle_buttons))
oper_click-OnlyLoads_example =
    oper_click-OnlyLoads false (codes "7") (choice ∷ show_version) true false false
      (running_at 0 show_version (codes "1_2_3") true no_outputs idle_buttons)

show-IsFilled : IsFilled (plain_node (codes "show"))
unfolding text_eq
show-IsFilled = record { below = refl; filled = λ h. absurd (cc (h)) }

untouched_choice_sent_example :
    (walk true [] ((choice ∷ (plain_node (codes "show") ∷ [])) ++ (operation ∷ []))
      ≡ words (map word (reverse (choice ∷ (plain_node (codes "show") ∷ [])))))
    × (word choice ≡ codes "'Select a valid value...'")
    × (walk true [] (
          value_node (some (codes "show")) (record { enums = none; help = none })
          ∷ ((plain_node (codes "show") ∷ []) ++ (operation ∷ [])))
        ≡ refused true)
untouched_choice_sent_example =
    untouched_choice_sent (some (codes "show")) (codes "eth0" ∷ []) none
      (plain_node (codes "show") ∷ []) operation [] (show-IsFilled, tt) refl
