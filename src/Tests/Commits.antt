-- ===== src/Tests/Commits.antt =====
-- Runs on the buffer of commit errors.
use vyatta_webgui.Base.{◌≡◌, ◌↔◌, ◌⊎◌, true, some, List, [], ◌∷◌, All}
use vyatta_webgui.Text.{Text, codes}
use vyatta_webgui.CommitErrors.{is_commit_error, update_commit_errors, clear_first}
use vyatta_webgui.CommitErrors.Flagging.{Blamed, is_commit_error_iff}
use vyatta_webgui.CommitErrors.Clearing.{top_level_stays, clear_first_cases, ClearedOne, IsOther}

abbrev errors : List (List Text)
errors = ([] ∷ (codes "interfaces" ∷ (codes "eth0" ∷ []))) ∷ []

is_commit_error_iff_example :
    (is_commit_error (some errors) (codes "eth0") (some (codes "interfaces")) ≡ true)
    ↔ Blamed (codes "eth0") (some (codes "interfaces")) errors
is_commit_error_iff_example = is_commit_error_iff (codes "eth0") (some (codes "interfaces")) errors

top_level_stays_example :
    is_commit_error
      (update_commit_errors
        (some (codes "interfaces"))
        (some (codes "Configuration"))
        (some (([] ∷ (codes "interfaces" ∷ [])) ∷ [])))
      (codes "interfaces")
      (some (codes "Configuration"))
    ≡ true
top_level_stays_example =
    top_level_stays (codes "interfaces") (codes "Configuration") [] [] [] [] (λ e. cc) tt

clear_first_cases_example :
    (All (IsOther (codes "eth0") (codes "interfaces")) errors
      × (clear_first (codes "eth0") (codes "interfaces") errors ≡ errors))
    ⊎ ClearedOne
        (codes "eth0")
        (codes "interfaces")
        errors
        (clear_first (codes "eth0") (codes "interfaces") errors)
clear_first_cases_example = clear_first_cases (codes "eth0") (codes "interfaces") errors
