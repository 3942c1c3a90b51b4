-- ===== src/Escape.antt =====
-- The XML escaping of src/client/Vyatta/utils/vyatta-utils.js. The fuel counts the rounds of the loop;
-- a result `none` stands for a call that has not returned within them.
pub mod Laws
use vyatta_webgui.Base.{
  ℕ, zero, suc, Bool, true, false, if◌then◌else◌, ltb, Option, none, some, length, ◌∷◌, [],
}
use vyatta_webgui.Text.{Text, codes, index_of, replace_first}

-- `newPos > pos`, where `none` is -1.
abbrev pub is_after : Option ℕ → Option ℕ → Bool
is_after none pos = false
is_after (some new_pos) none = true
is_after (some new_pos) (some pos) = ltb pos new_pos

-- The `while` loop of `f_converXMLSpecialChar`.
conver_loop : ℕ → Option ℕ → Text → Text → Text → Option Text
unfolding index_of replace_first
conver_loop zero pos o n xml = none
conver_loop (suc fuel) pos o n xml =
    let rest = conver_loop fuel (index_of o xml) o n (replace_first o n xml) in
    if is_after (index_of o xml) pos then rest else some xml

unfoldable pub conver_xml_special_char : Text → Text → Text → Option Text
unfolding conver_loop
conver_xml_special_char val o n = conver_loop (suc (suc (length val))) none o n val

infixl 5 ◌>>=◌
abbrev pub ◌>>=◌ {ℓ κ} : {A : Type ℓ} {B : Type κ} → Option A → (A → Option B) → Option B
none >>= k = none
some a >>= k = k a

unfoldable pub convert_xml_special_characters : Text → Option Text
unfolding conver_xml_special_char
convert_xml_special_characters val = do
  xml ← conver_xml_special_char val (codes "&") (codes "&amp;")
  xml ← conver_xml_special_char xml (codes "'") (codes "&apos;")
  xml ← conver_xml_special_char xml (codes ">") (codes "&gt;")
  conver_xml_special_char xml (codes "<") (codes "&lt;")

-- A password is escaped whole only where a user is created.
unfoldable pub filter_password : Text → Bool → Option Text
unfolding conver_xml_special_char
filter_password val true = do
  xml ← conver_xml_special_char val (codes "&") (codes "&amp;")
  xml ← conver_xml_special_char xml (codes "'") (codes "&apos;")
  xml ← conver_xml_special_char xml (codes ">") (codes "&gt;")
  conver_xml_special_char xml (codes "<") (codes "&lt;")
filter_password val false = conver_xml_special_char val (codes "<") (codes "&lt;")
