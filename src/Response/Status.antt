-- ===== src/Response/Status.antt =====
-- When a response is taken, and what the user is told where it is not.
use vyatta_webgui.Base.{
  ◌+◌, ◌≡◌, refl, ◌↔◌, ◌⊎◌, true, false, List, arith, if◌then◌else◌, length, length-append,
}
use vyatta_webgui.Text.{Text}
use vyatta_webgui.Login.{Session, is_logined, Effect}
use vyatta_webgui.Response.{is_logined, Effect, List, Session, HttpResponse, refuse, is_response_ok}

refuse_lem :
    (started : List Effect) (title text : Text)
    → ((refuse started title text).0 ≡ false)
      × (length (refuse started title text).1 ≡ length started + 1)
unfolding refuse
refuse_lem started title text = (refl, length-append started _)

-- A response is taken exactly if nobody is logged in, or if it has a document and the status 200;
-- one that is refused adds one message to those of the login test, and one that is taken none.
is_response_ok_lem :
    (s : Session) (r : HttpResponse)
    → (((is_response_ok s r).0 ≡ true)
        ↔ (((is_logined s).0 ≡ false) ⊎ ((r.has_xml ≡ true) × (r.status ≡ 200))))
      × (length (is_response_ok s r).1
          ≡ length (is_logined s).1 + (if (is_response_ok s r).0 then 0 else 1))
unfolding is_response_ok
is_response_ok_lem s r = grind (arith, refuse_lem)
