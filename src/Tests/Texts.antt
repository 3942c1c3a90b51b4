-- ===== src/Tests/Texts.antt =====
-- Runs on texts: the replacement loop and the escapes.
use vyatta_webgui.Base.{◌<◌, ◌≡◌, refl, true, none, some, [], ◌++◌, arith}
use vyatta_webgui.Text.{Text, codes, count, contains}
use vyatta_webgui.Replace.{replace, replace_loop}
use vyatta_webgui.Replace.Termination.{Replaced, replace-Replaced, replace_loop_diverges}
use vyatta_webgui.Escape.{convert_xml_special_characters}
use vyatta_webgui.Escape.Laws.{IsEscaped, convert-IsEscaped, convert_first_amp, escape_rest}

abbrev class_name : Text
class_name = codes "x v-textfield-unsubmit"

fewer_dashes : count 45 [] < count 45 (codes "v-textfield-unsubmit")
unfolding count
fewer_dashes = omega arith

replace-Replaced_example :
    Replaced (codes "v-textfield-unsubmit") (replace class_name (codes "v-textfield-unsubmit") [])
replace-Replaced_example =
    replace-Replaced (codes "v-textfield-unsubmit") [] 45 fewer_dashes class_name refl refl

new_has_old : contains (codes "a") (codes "ba") ≡ true
unfolding contains
new_has_old = refl

replace_loop_diverges_example : replace_loop 9 (codes "a") (codes "ba") (codes "ba") ≡ none
replace_loop_diverges_example =
    replace_loop_diverges (codes "a") (codes "ba") (codes "ba") 9 new_has_old new_has_old

convert-IsEscaped_example : IsEscaped (convert_xml_special_characters (codes "<a>'b'&c&"))
convert-IsEscaped_example = convert-IsEscaped (codes "<a>'b'&c&")

no_amp : count 38 (codes "a") ≡ 0
unfolding count
no_amp = refl

convert_first_amp_example :
    convert_xml_special_characters (codes "a&b&c")
    ≡ some (escape_rest (codes "a") ++ (codes "&amp;" ++ escape_rest (codes "b&c")))
convert_first_amp_example = convert_first_amp (codes "a") (codes "b&c") no_amp
