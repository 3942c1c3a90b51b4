-- ===== src/Hostname.antt =====
-- The name of the host: `f_sendSpecialCliCommand` of src/client/Vyatta/utils/vyatta-cli-command.js,
-- which asks for it segment by segment, and `f_updateHostname` of src/client/Vyatta/js/vyatta-main.js.
use vyatta_webgui.Base.{
  ◌≡◌, refl, Bool, true, false, not, ◌&&◌, Bool-cases, inl, inr, Option, none, some, List, [], ◌∷◌,
  ◌++◌, map, All, if◌then◌else◌, ltb, length,
}
use vyatta_webgui.Text.{Text, codes, contains, index_of}
use vyatta_webgui.Login.{Effect}
use vyatta_webgui.Response.{
  Browser, HttpResponse, Reply, Parsed, oper, is_response_ok, parse_server_callback,
}

-- What the callback does next.
pub data SpecialNext : Type 0 where
  send_again : (segment : Text) → SpecialNext
  host_is : (hostname : Text) → SpecialNext
  finished : SpecialNext

-- The test `cmd.indexOf('host name') > 0`.
unfoldable pub asks_host_name : Text → Bool
asks_host_name cmd = elim (index_of (codes "host name") cmd) [ none ↦ false | some i ↦ ltb 0 i ]

-- Once the reply is read; a reply without a segment ends in an exception.
unfoldable pub next_of : Text → Parsed → Option SpecialNext
next_of cmd p = elim p.segment [
  | none ↦ none
  | some segment ↦
      if contains (codes "_end") segment
      then some finished
      else some
          (if asks_host_name cmd && ltb 1 (length p.msg) then host_is p.msg else send_again segment)
]

pub record SpecialHandled : Type 0 where
  pub next : SpecialNext
  pub commit_errs : Option (List (List Text))
  pub effects : List Effect

-- `opCmdCb`; `none` where the browser raises an exception, as it does without XML to read.
unfoldable pub special_cmd_cb :
    Browser → Text → HttpResponse → Reply → Option (List (List Text)) → Option SpecialHandled
special_cmd_cb b cmd response reply errs =
    let (taken, shown) = is_response_ok b.session response in
    if not taken
    then some (record { next = finished; commit_errs = errs; effects = shown })
    else if not response.has_xml
    then none
    else elim (parse_server_callback b oper reply errs) [
      | none ↦ none
      | some p ↦ elim (next_of cmd p) [
        | none ↦ none
        | some next ↦
            some (record { next = next; commit_errs = p.commit_errs; effects = shown ++ p.effects })
      ]
    ]

unfoldable pub special_statement : Text → Option Text → Text
special_statement cmd none = cmd
special_statement cmd (some segment) = segment

unfoldable pub special_xml : Text → Text → Option Text → Text
special_xml sid cmd segment =
    codes "<?xml version=\"1.0\" encoding=\"utf-8\"?>\n<vyatta><command><id>"
    ++ (sid
        ++ (codes "</id>\n<statement mode='op'>"
            ++ (special_statement cmd segment ++ codes "</statement>\n</command></vyatta>\n")))

-- `f_updateHostname`: the text of the header, with the name of the user.
unfoldable pub update_hostname : Text → Text → Text
update_hostname user hostname =
    codes "Hostname:&nbsp; "
    ++ (hostname
        ++ (codes ",&nbsp;&nbsp;Username:&nbsp; "
            ++ (user
                ++ codes
                    ",&nbsp;&nbsp;&nbsp;<a class=\"anchor-test\" valign=\"top\" href=\"#\" onclick=\"f_handleLogout()\">Log Out</a>")))

-- The statements that were sent and the host name, if one was read, for the replies in order.
unfoldable pub special_run : Text → Option Text → List Parsed → List Text × Option Text
special_run cmd segment [] = (special_statement cmd segment ∷ [], none)
special_run cmd segment (p ∷ replies) =
    let (sent, name) = special_run cmd p.segment replies in
    elim (next_of cmd p) [
      | none ↦ (special_statement cmd segment ∷ [], none)
      | some finished ↦ (special_statement cmd segment ∷ [], none)
      | some (host_is hostname) ↦ (special_statement cmd segment ∷ [], some hostname)
      | some (send_again s) ↦ (special_statement cmd segment ∷ sent, name)
    ]

-- A reply that is not the last, by its segment and its message.
record Waiting (p : Parsed) (segment : Text) : Type 0 where
  here : p.segment ≡ some segment
  goes_on : contains (codes "_end") segment ≡ false

abbrev AllEmpty : List (Text × Parsed) → Type 0
AllEmpty replies = All (λ r. Waiting r.1 r.0 × (ltb 1 (length r.1.msg) ≡ false)) replies

next_of_empty :
    (cmd : Text) (p : Parsed) (segment : Text)
    → Waiting p segment
    → ltb 1 (length p.msg) ≡ false
    → next_of cmd p ≡ some (send_again segment)
unfolding next_of
next_of_empty cmd p segment w e = elim (Bool-cases (asks_host_name cmd)) [
  | inl a ↦ rw (w.here, w.goes_on, a, e, next_of)
  | inr a ↦ rw (w.here, w.goes_on, a, next_of)
]

next_of_named :
    (cmd : Text) (p : Parsed) (segment : Text)
    → Waiting p segment
    → asks_host_name cmd ≡ true
    → ltb 1 (length p.msg) ≡ true
    → next_of cmd p ≡ some (host_is p.msg)
unfolding next_of
next_of_named cmd p segment w a e = rw (w.here, w.goes_on, a, e, next_of)

-- The name of the host is read from the first reply with a message of more than one character,
-- if no segment before it, and not its own, is the last: until then each segment is sent back
-- once and in order, and after it nothing is sent.
special_run-named :
    (cmd : Text) (segment : Option Text) (replies : List (Text × Parsed)) (p : Parsed) (own : Text)
    (later : List Parsed)
    → asks_host_name cmd ≡ true
    → AllEmpty replies
    → Waiting p own
    → ltb 1 (length p.msg) ≡ true
    → special_run cmd segment (map (λ r. r.1) replies ++ (p ∷ later))
      ≡ (special_statement cmd segment ∷ map (λ r. r.0) replies, some p.msg)
unfolding special_run special_statement
special_run-named cmd segment [] p own later a h w e =
    rw (next_of_named cmd p own w a e, special_run)
special_run-named cmd segment ((s, q) ∷ replies) p own later a h w e = rw (
  next_of_empty cmd q s h.0.0 h.0.1,
  h.0.0.here,
  special_run,
  special_run-named cmd (some s) replies p own later a h.1 w e,
)

-- The command that `f_showTab` sends asks for the name.
show_host_name : asks_host_name (codes "show host name ") ≡ true
unfolding asks_host_name index_of
show_host_name = refl
