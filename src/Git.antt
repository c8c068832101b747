-- ===== src/Git.antt =====
-- The git command and what is read from its history: src/patchharbor/git_commands.py and
-- src/patchharbor/archive_git.py.
pub mod History
pub mod Original
pub mod HistoryLaws
pub mod Tree
pub mod TreeText
pub mod TreeLines
pub mod TreeLaws
pub mod Obsolete
pub mod Evidence
pub mod ObsoleteLaws
pub mod ObsoleteAll
