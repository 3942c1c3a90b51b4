-- ===== src/Access.antt =====
-- Logging in and out with the cookies: src/client/Vyatta/utils/vyatta-utils.js, and `f_startRebooting` of
-- src/client/Vyatta/js/vyatta-main.js. The `Browser` is that of Cookies.antt.
pub mod Cycle
use vyatta_webgui.Base.{
  ℕ, zero, suc, ◌+◌, ◌-◌, ◌*◌, ◌≤◌, ◌<◌, ◌≡◌, refl, sym, ap, ◌∙◌, ◌≢◌, ◌↔◌, ◌⊎◌, inl, inr, Bool,
  true, false, not, ◌&&◌, ◌||◌, Option, none, some, List, [], ◌∷◌, ◌++◌, map, append_assoc,
  append-nil, arith, ltb, leb, ◌==◌, if◌then◌else◌, Bool-cases, Option-cases, is_some, length,
  get_elem?, drop, take, any, all, All, All-append, length-append, ==_iff, ==_refl, lt→ltb, ltb→lt,
}
use vyatta_webgui.Text.{Text, codes, text_eq, count, contains, index_of, replace_first, split}
use vyatta_webgui.Text.Equality.{text_eq_iff, text_eq_refl}
use vyatta_webgui.Login.{Session, not_found, Effect, error_message, hide_wait}
use vyatta_webgui.Cookies.{
  Jar, Lifetime, later, Browser, user_name, user_id, is_login, f_get, f_set, f_remove,
}

-- `m_userNameExpire`, in milliseconds.
abbrev pub user_name_expire : Lifetime
user_name_expire = later 18000000

unfoldable pub save_user_login_name : Browser → Text → Jar → Jar
save_user_login_name b name jar = f_set b user_name name (some user_name_expire) jar

unfoldable pub get_user_logined_id : Browser → Jar → Text
get_user_logined_id b jar = f_get b user_id jar

-- Without an id the one that is there is saved anew.
unfoldable pub save_user_login_id : Browser → Option Text → Jar → Jar
save_user_login_id b id jar =
    let sid : Text = elim id [ none ↦ get_user_logined_id b jar | some i ↦ i ] in
    f_set b user_id sid (some user_name_expire) jar

-- Where the window goes.
pub data Move : Type 0 where
  reload_page : Move
  open_page : Text → Move

-- `redirect` is `isRedirectToHomePage`, `chrome` whether the browser is Chrome.
unfoldable pub user_logout : Browser → (redirect chrome : Bool) → Text → Jar → Jar × List Move
user_logout b redirect chrome to_page jar =
    let removed : Jar = (f_remove b user_id jar).0 in
    if redirect
    then (
      f_set b is_login (codes "no") (some user_name_expire) removed,
      (if chrome then reload_page else open_page to_page) ∷ [],
    )
    else (removed, [])

-- What the callback of the login does: the cookies, what it shows, and where the window goes.
pub record AuthChange : Type 0 where
  pub jar : Jar
  pub shown : List Effect
  pub moves : List Move

abbrev pub login_failed : Effect
login_failed =
    error_message (codes "Login Failed") (codes "Invalid username or password. Please try again.")

-- `f_authCb`; the response is `none` without a document, else the id in it, which is `V_NOT_FOUND`
-- where it has none.
unfoldable pub auth_cb : Browser → Option Text → (name url : Text) → Jar → AuthChange
auth_cb b none name url jar = record { jar = jar; shown = hide_wait ∷ []; moves = [] }
auth_cb b (some id) name url jar =
    let saved : Jar = save_user_login_name b name (save_user_login_id b (some id) jar) in
    if text_eq id not_found
    then record { jar = saved; shown = hide_wait ∷ (login_failed ∷ []); moves = [] }
    else record {
      jar = f_set b is_login (codes "yes") (some user_name_expire) saved;
      shown = hide_wait ∷ [];
      moves = open_page url ∷ [];
    }

-- What `f_loginHandler` does: it refuses, or sends a document while a box waits.
pub data LoginStep : Type 0 where
  refused : Effect → LoginStep
  login_request : (wait_title wait_text xml : Text) → LoginStep

unfoldable pub login_xml : Text → Text → Text
login_xml user password =
    codes "<?xml version=\"1.0\" encoding=\"utf-8\"?>\n<vyatta><auth><user>"
    ++ (user
        ++ (codes "</user>\n<pswd><![CDATA[" ++ (password ++ codes "]]></pswd></auth></vyatta>\n")))

unfoldable pub login_handler : Text → Text → LoginStep
login_handler user password =
    if text_eq user (codes "root")
    then refused (
        error_message (codes "Login Failed") (
          codes
            "Root user only can be accessed throught the CLI. It does not have access via Web-GUI."))
    else login_request (codes "Log in") (codes "Login in process...") (login_xml user password)

unfoldable pub is_login_fields_dirty : (user_dirty password_dirty : Bool) → Bool
is_login_fields_dirty u p = if u && p then true else false

-- A key in a field of the login: what it starts, and whether the button is enabled then.
unfoldable pub login_key_press_handler :
    ℕ → (user_dirty password_dirty : Bool) → (user password : Text) → Option LoginStep × Bool
login_key_press_handler key u p user password =
    let dirty = is_login_fields_dirty u p in
    (if key == 13 && dirty then some (login_handler user password) else none, dirty)

-- The cookies as `f_startRebooting` leaves them; it then shows the page that reboots.
unfoldable pub start_rebooting : Browser → Jar → Jar
start_rebooting b jar =
    f_set b is_login (codes "no") (some user_name_expire) (f_remove b user_id jar).0

-- What the start of the page learns from the cookies.
abbrev pub session_of : Browser → Bool → Jar → Session
session_of b demo jar = record { login_cookie = f_get b is_login jar; has_demo = demo }
