-- ===== src/CommitErrors.antt =====
-- The buffer of commit errors, `g_cliCmdObj.m_commitErrs`, of
-- src/client/Vyatta/utils/vyatta-cli-command.js: one entry for each line of the server's message, split
-- at its slashes. `undefined` and `null` are `none`. An entry that is cleared is the empty list, or
-- the empty string where the browser is Internet Explorer, which a loop over its length and its
-- elements does not tell apart.
pub mod Flagging
pub mod Clearing
use vyatta_webgui.Base.{
  ℕ, suc, Bool, true, false, ◌&&◌, ◌||◌, if◌then◌else◌, leb, Option, none, some, List, [], ◌∷◌, map,
  any,
}
use vyatta_webgui.Text.{Text, codes, text_eq, split}

-- `reg`: what ends a line.
abbrev pub line_end : Bool → Text
line_end true = 10 ∷ []
line_end false = 13 ∷ 10 ∷ []

unfoldable pub parse_commit_errors : Bool → Text → List (List Text)
parse_commit_errors is_ie err = map (split (codes "/")) (split (line_end is_ie) err)

-- `x == y` where `x` may be undefined and `y` is a string.
abbrev pub is_text : Option Text → Text → Bool
is_text none t = false
is_text (some s) t = text_eq s t

-- The inner loop of `f_updateCommitErrors` on one entry; `prev` is `err[j-1]`.
unfoldable pub names : Text → Text → Option Text → List Text → Bool
names node parent prev [] = false
names node parent prev (w ∷ ws) =
    (text_eq node w && is_text prev parent) || names node parent (some w) ws

-- The outer loop: the first entry that names the node is cleared.
unfoldable pub clear_first : Text → Text → List (List Text) → List (List Text)
unfolding names
clear_first node parent [] = []
clear_first node parent (err ∷ errs) =
    if names node parent none err then [] ∷ errs else err ∷ clear_first node parent errs

-- The texts of the node and of its parent, `none` where there is no such node.
unfoldable pub update_commit_errors :
    Option Text → Option Text → Option (List (List Text)) → Option (List (List Text))
unfolding clear_first
update_commit_errors (some node) (some parent) (some errs) = some (clear_first node parent errs)
update_commit_errors none parent errs = errs
update_commit_errors (some node) none errs = errs
update_commit_errors (some node) (some parent) none = none

-- `node.parentNode != null` and `node.parentNode.text == errs[j-1]`.
abbrev pub same_parent : Option Text → Option Text → Bool
same_parent none prev = false
same_parent (some p) prev = is_text prev p

-- The inner loop of `f_isCommitError` on one entry, at index `j`.
unfoldable pub flags : Text → Option Text → ℕ → Option Text → List Text → Bool
flags node parent j prev [] = false
flags node parent j prev (w ∷ ws) =
    (text_eq w node && (leb j 1 || same_parent parent prev))
    || flags node parent (suc j) (some w) ws

unfoldable pub is_commit_error : Option (List (List Text)) → Text → Option Text → Bool
unfolding flags
is_commit_error none node parent = false
is_commit_error (some errs) node parent = any (flags node parent 0 none) errs
