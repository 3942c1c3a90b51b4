-- ===== src/Login/Cases.antt =====
-- Which page opens for which cookie.
use vyatta_webgui.Base.{
  ◌≡◌, refl, ◌≢◌, ◌↔◌, ◌⊎◌, inl, inr, Bool, true, false, ◌||◌, arith, Bool-cases,
}
use vyatta_webgui.Text.{Text, codes, text_eq}
use vyatta_webgui.Text.Equality.{text_eq_iff}
use vyatta_webgui.Login.{
  Session, Start, start_auto_login, start_login, start_rebooting, show_configuration, not_found,
  is_user_logined, is_logined, on_ready,
}

abbrev reboot : Text
reboot = codes "reboot"

-- The cookie `isLogin` of a user who is logged in: none of the three values that say otherwise.
pub record IsLoginCookie (login : Text) : Type 0 where
  pub found : login ≢ not_found
  pub not_no : login ≢ codes "no"
  pub not_reboot : login ≢ codes "reboot"

-- A user counts as logged in exactly if the cookie is none of the three values for one that was
-- not found, for a logout and for a reboot.
is_user_logined_iff : (login : Text) → (is_user_logined login ≡ true) ↔ IsLoginCookie login
unfolding is_user_logined
is_user_logined_iff login = (
  λ h. record {
    found = λ e. ground (arith, (text_eq_iff login not_found).1 e);
    not_no = λ e. ground (arith, (text_eq_iff login (codes "no")).1 e);
    not_reboot = λ e. ground (arith, (text_eq_iff login (codes "reboot")).1 e);
  },
  λ c. ground (
    arith,
    text_eq_iff login not_found,
    text_eq_iff login (codes "no"),
    text_eq_iff login (codes "reboot"),
    c.found,
    c.not_no,
    c.not_reboot,
  ),
)

or_true : (b : Bool) → (b || true) ≡ true
or_true true = refl
or_true false = refl

not_text : (s t : Text) → text_eq s t ≡ false → s ≢ t
not_text s t h e = cc ((text_eq_iff s t).1 e)

-- The page that a session opens.
abbrev Page : Session → Start → Type 0
Page s start_auto_login = ⊥
Page s start_login =
    (is_user_logined s.login_cookie ≡ false) × (s.has_demo ≡ false) × (s.login_cookie ≢ reboot)
Page s start_rebooting = s.login_cookie ≡ reboot
Page s show_configuration =
    (s.login_cookie ≢ reboot) × ((is_user_logined s.login_cookie ≡ true) ⊎ (s.has_demo ≡ true))

-- The page that opens, for every cookie, with and without the demo login.
on_ready_lem : (s : Session) → Page s (on_ready s)
unfolding on_ready is_logined is_user_logined
on_ready_lem s = elim (Bool-cases (text_eq s.login_cookie reboot)) [
  | inl r ↦ elim (Bool-cases s.has_demo) [
    | inl d ↦ simp (r, d, or_true) ((text_eq_iff s.login_cookie reboot).0 r)
    | inr d ↦ simp (r, d, or_true) ((text_eq_iff s.login_cookie reboot).0 r)
  ]
  | inr r ↦
      let ne = not_text s.login_cookie reboot r in
      elim (Bool-cases (text_eq s.login_cookie not_found)) [
        | inl n ↦ elim (Bool-cases s.has_demo) [
          | inl d ↦ simp (r, n, d) (ne, inr refl)
          | inr d ↦ simp (r, n, d) (refl, refl, ne)
        ]
        | inr n ↦ elim (Bool-cases (text_eq s.login_cookie (codes "no"))) [
          | inl o ↦ elim (Bool-cases s.has_demo) [
            | inl d ↦ simp (r, n, o, d) (ne, inr refl)
            | inr d ↦ simp (r, n, o, d) (refl, refl, ne)
          ]
          | inr o ↦ simp (r, n, o) (ne, inl refl)
        ]
      ]
]
