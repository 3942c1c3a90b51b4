-- ===== src/Access/Cycle.antt =====
-- From the login to the logout.
use vyatta_webgui.Base.{◌≡◌, refl, sym, ap, ◌∙◌, ◌≢◌, arith, Bool, true, false, some}
use vyatta_webgui.Text.{Text, codes, text_eq}
use vyatta_webgui.Text.Equality.{text_neq}
use vyatta_webgui.Login.{
  not_found, is_user_logined, is_logined, on_ready, show_configuration, start_login,
}
use vyatta_webgui.Cookies.{
  CookieName, user_name, user_id, is_login, Jar, Browser, f_get, f_set, f_remove,
}
use vyatta_webgui.Cookies.Keeping.{Laws, Kept, CleanJar, f_set-Kept, f_remove-Kept}
use vyatta_webgui.Access.{
  get_user_logined_id, user_name_expire, save_user_login_name, save_user_login_id, user_logout,
  auth_cb, start_rebooting, session_of,
}

yes_opens :
    (b : Browser) (demo : Bool) (jar : Jar)
    → f_get b is_login jar ≡ codes "yes"
    → on_ready (session_of b demo jar) ≡ show_configuration
unfolding on_ready is_logined is_user_logined text_eq
yes_opens b demo jar h = rw h refl

no_asks :
    (b : Browser) (jar : Jar)
    → f_get b is_login jar ≡ codes "no"
    → on_ready (session_of b false jar) ≡ start_login
unfolding on_ready is_logined is_user_logined text_eq
no_asks b jar h = rw h refl

names_apart : (user_id ≢ is_login) × (user_name ≢ is_login) × (user_id ≢ user_name)
names_apart = (cc, cc, cc)

-- The page after a login as `name` with the session `id`, and after the logout that follows.
pub record Cycle (b : Browser) (jar : Jar) (id name : Text) : Type 0 where
  pub opens : (demo : Bool) → on_ready (session_of b demo jar) ≡ show_configuration
  pub id_read : get_user_logined_id b jar ≡ id
  pub name_read : f_get b user_name jar ≡ name
  pub closes :
      (chrome : Bool) (page : Text)
      → on_ready (session_of b false (user_logout b true chrome page jar).0) ≡ start_login
  pub forgets :
      (chrome : Bool) (page : Text)
      → get_user_logined_id b (user_logout b true chrome page jar).0 ≡ not_found

module _ (b : Browser) (laws : Laws b) where
  set_at :
      (name : CookieName) (value : Text) (jar : Jar)
      → CleanJar jar
      → Kept b jar (f_set b name value (some user_name_expire) jar) name value
  set_at name value jar clean = f_set-Kept b laws jar clean name value 18000000 (omega arith)

  -- The cookies once the session is closed.
  closed_at :
      (jar : Jar)
      → CleanJar jar
      → (f_get b is_login (start_rebooting b jar) ≡ codes "no")
        × (get_user_logined_id b (start_rebooting b jar) ≡ not_found)
  unfolding start_rebooting get_user_logined_id
  closed_at jar clean =
      let removed = f_remove-Kept b laws jar clean user_id in
      let answered = set_at is_login (codes "no") (f_remove b user_id jar).0 removed.clean in
      (answered.reads, answered.others user_id names_apart.0 ∙ removed.reads)

  logout_closes :
      (jar : Jar) (chrome : Bool) (page : Text)
      → (user_logout b true chrome page jar).0 ≡ start_rebooting b jar
  unfolding user_logout start_rebooting
  logout_closes jar chrome page = refl

  -- The cookies after any answer to a login.
  saved_at :
      (id name : Text) (jar : Jar)
      → CleanJar jar
      → (f_get b user_id (save_user_login_name b name (save_user_login_id b (some id) jar)) ≡ id)
        × (f_get b user_name (save_user_login_name b name (save_user_login_id b (some id) jar))
            ≡ name)
        × (f_get b is_login (save_user_login_name b name (save_user_login_id b (some id) jar))
            ≡ f_get b is_login jar)
        × CleanJar (save_user_login_name b name (save_user_login_id b (some id) jar))
  unfolding save_user_login_name save_user_login_id
  saved_at id name jar clean =
      let one = set_at user_id id jar clean in
      let two = set_at user_name name (f_set b user_id id (some user_name_expire) jar) one.clean in
      (
        two.others user_id names_apart.2 ∙ one.reads,
        two.reads,
        two.others is_login (λ e. names_apart.1 (sym e))
            ∙ one.others is_login (λ e. names_apart.0 (sym e)),
        two.clean,
      )

  from_yes :
      (id name : Text) (jar : Jar)
      → CleanJar jar
      → f_get b is_login jar ≡ codes "yes"
      → f_get b user_id jar ≡ id
      → f_get b user_name jar ≡ name
      → Cycle b jar id name
  unfolding get_user_logined_id
  from_yes id name jar clean yes_read id_read name_read =
      let (no_read, forgotten) = closed_at jar clean in
      record {
        opens = λ demo. yes_opens b demo jar yes_read;
        id_read = id_read;
        name_read = name_read;
        closes = λ chrome page.
            ap (λ j. on_ready (session_of b false j)) (logout_closes jar chrome page)
            ∙ no_asks b (start_rebooting b jar) no_read;
        forgets = λ chrome page. ap (f_get b user_id) (logout_closes jar chrome page) ∙ forgotten;
      }

  -- If the server answers a login with a session, the page opens the configuration, and the session
  -- and the user read as they were given; after the logout that leads to the home page the session is
  -- forgotten, and a page without the demo asks for a login again.
  pub auth_cb-Cycle :
      (id name url : Text) (jar : Jar)
      → CleanJar jar
      → id ≢ not_found
      → Cycle b (auth_cb b (some id) name url jar).jar id name
  unfolding auth_cb
  auth_cb-Cycle id name url jar clean h =
      let (id_read, name_read, unchanged, clean') = saved_at id name jar clean in
      let saved = save_user_login_name b name (save_user_login_id b (some id) jar) in
      let yes = set_at is_login (codes "yes") saved clean' in
      rw (text_neq id not_found h) (
        from_yes id name _ yes.clean yes.reads (yes.others user_id names_apart.0 ∙ id_read)
          (yes.others user_name names_apart.1 ∙ name_read))

  -- If the server answers without a session, the page starts as it did before the login.
  pub auth_cb_refused :
      (name url : Text) (demo : Bool) (jar : Jar)
      → CleanJar jar
      → on_ready (session_of b demo (auth_cb b (some not_found) name url jar).jar)
        ≡ on_ready (session_of b demo jar)
  unfolding auth_cb text_eq
  auth_cb_refused name url demo jar clean =
      let (id_read, name_read, unchanged, clean') = saved_at not_found name jar clean in
      ap (λ c. on_ready (record { login_cookie = c; has_demo = demo })) unchanged
