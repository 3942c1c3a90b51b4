-- ===== src/Tests.antt =====
-- Runs of the theorems on concrete inputs.
pub mod Texts
pub mod Commits
pub mod Marks
pub mod Replies
pub mod Commands
pub mod Forms
pub mod Views
pub mod Changes
pub mod Editors
pub mod Cookies
pub mod Completions
pub mod Openings
pub mod Runs
