-- ===== src/Tests/Replies.antt =====
-- Runs on the responses of the server.
use vyatta_webgui.Base.{◌≡◌, refl, true, false, none, some}
use vyatta_webgui.Text.{codes}
use vyatta_webgui.Login.{Session}
use vyatta_webgui.Response.{
  HttpResponse, Browser, ErrorNode, Parsed, config, whole_message, parse_server_callback,
}
use vyatta_webgui.Response.Verdict.{Judged, parse_server_callback-Judged}

abbrev pub user : Session
user = record { login_cookie = codes "yes"; has_demo = false }

abbrev pub firefox : Browser
firefox = record { is_ie = false; is_gecko3 = true; session = user }

abbrev unavailable : HttpResponse
unavailable = record { has_xml = false; status = 503 }

abbrev failure : ErrorNode
failure = record {
  code = codes "1";
  msg = codes "\ninterfaces/eth0\r\nfailed";
  segment = some none;
}

parse_server_callback-Judged_example :
    (p : Parsed) × (parse_server_callback firefox config
        (record { error = some failure; text_content = none })
        none
      ≡ some p)
    × Judged firefox
        (codes "1")
        (whole_message firefox (record { error = some failure; text_content = none }) failure.msg)
        none
        none
        p
parse_server_callback-Judged_example =
    parse_server_callback-Judged firefox config failure none none none refl
