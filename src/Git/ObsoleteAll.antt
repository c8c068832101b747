-- ===== src/Git/ObsoleteAll.antt =====
-- src/patchharbor/archive_git.py: a bundle is proven to be obsolete exactly when it is.
use patch_harbor.Base.{option_eq}
use patch_harbor.Models.{repository_id_eq, git_object_id_eq}
use patch_harbor.ExchangeState.Record.{apply_status_eq, selection_eq}
use patch_harbor.Bundle.Member.{text_eq}
