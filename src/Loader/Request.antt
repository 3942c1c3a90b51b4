-- ===== src/Loader/Request.antt =====
-- The request for the children of a node (`requestData` in src/client/Vyatta/js/vyatta-tree.js), where
-- no listener cancels the load.
use vyatta_webgui.Base.{arith, ◌≡◌, ap, Bool, none, ◌++◌, if◌then◌else◌}
use vyatta_webgui.Text.{Text, codes}
use vyatta_webgui.Cookies.{user_id, Jar, Browser, f_get}
use vyatta_webgui.Cookies.Keeping.{Laws, CleanJar, f_set-Kept}
use vyatta_webgui.Access.{save_user_login_id, get_user_logined_id}

unfoldable pub node_xml : Text → (oper : Bool) → Text → Text
node_xml sid oper path =
    codes "<?xml version=\"1.0\" encoding=\"utf-8\"?>\n<vyatta><configuration><id>"
    ++ (sid
        ++ (codes "</id>\n"
            ++ ((if oper then codes "<node mode='op'>" else codes "<node mode='conf'>")
                ++ (path ++ codes "</node>\n</configuration></vyatta>\n"))))

-- The cookies, with the session saved anew, and the document that is sent.
unfoldable pub request_data : Browser → (oper : Bool) → Text → Jar → Jar × Text
request_data b oper path jar =
    let jar' = save_user_login_id b none jar in
    (jar', node_xml (get_user_logined_id b jar') oper path)

-- The document carries the session that the cookies had, in a browser that keeps cookies as documented.
request_data-node_xml :
    (b : Browser)
    → Laws b
    → (oper : Bool) (path : Text) (jar : Jar) → CleanJar jar
    → (request_data b oper path jar).1 ≡ node_xml (get_user_logined_id b jar) oper path
unfolding request_data save_user_login_id get_user_logined_id
request_data-node_xml b laws oper path jar clean =
    ap (λ s. node_xml s oper path)
      (f_set-Kept b laws jar clean user_id (f_get b user_id jar) 18000000 (omega arith)).reads
