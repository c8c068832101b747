-- ===== src/Tests/Zip.antt =====
-- Runs on an archive and on modes: src/patchharbor/zip_payloads.py and payload_modes.py, and on names:
-- archive_policy.py.
use patch_harbor.Base.{
  ℕ, ◌≡◌, refl, ◌≤◌, false, some, List, [], ◌∷◌, codes, ok, err, Answers, nat_eq, length,
}
use patch_harbor.Models.{value_error}
use patch_harbor.Bundle.Member.{
  Text, text_eq, normalize_bundle_path, is_safe_path_segment, is_reserved,
}
use patch_harbor.Bundle.Names.{validate_archive_directory}
use patch_harbor.Package.Handoff.{BundlePayload}
use patch_harbor.Zip.Policy.{ResourcePolicy}
use patch_harbor.Zip.Modes.{select_payload_mode, IsGranted, IsChosen, select_payload_mode-IsChosen}
use patch_harbor.Zip.Members.{ZipInfo, zip_resource_limit}
use patch_harbor.Zip.Read.{Chunks, done, chunk, Opened, archive, read_zip_payload_bytes}
use patch_harbor.Zip.Limits.{IsWithin, read_zip_payload_bytes-IsWithin}

abbrev policy : ResourcePolicy
policy = record {
  warning_bytes = 2;
  max_input_artifact_bytes = 8;
  max_content_bytes = 4;
  max_zip_total_bytes = 5;
  max_zip_entries = 2;
}

abbrev fold : Text → Text
fold t = t

-- A Unix file with the mode 0o755.
abbrev entry : ZipInfo
entry = record {
  orig_filename = codes "run.sh";
  file_size = 3;
  create_system = 3;
  external_attr = 2179792896;
  is_dir = false;
}

abbrev opened : Chunks → List ℕ → Opened
opened stream _ = archive (entry ∷ []) (λ _. stream)

abbrev content : List ℕ
content = 80 ∷ 75 ∷ []

abbrev honest : List ℕ → Opened
honest = opened (chunk (1 ∷ 2 ∷ []) (chunk (3 ∷ []) done))

abbrev payload : BundlePayload
payload = record { relative_path = codes "run.sh"; content = 1 ∷ 2 ∷ 3 ∷ []; unix_mode = some 493 }

reads : read_zip_payload_bytes fold normalize_bundle_path honest policy content ≡ ok (payload ∷ [])
unfolding read_zip_payload_bytes normalize_bundle_path text_eq nat_eq is_safe_path_segment
    is_reserved
reads = refl

-- A stream that goes on beyond the declared size.
bomb :
    read_zip_payload_bytes fold normalize_bundle_path
      (opened (chunk (1 ∷ 2 ∷ 3 ∷ []) (chunk (4 ∷ 5 ∷ []) done)))
      policy
      content
    ≡ err zip_resource_limit
unfolding read_zip_payload_bytes normalize_bundle_path text_eq nat_eq is_safe_path_segment
    is_reserved
bomb = refl

read_zip_payload_bytes-IsWithin_example :
    Answers
      (λ bs. (length content ≤ policy.max_input_artifact_bytes) × IsWithin policy bs)
      (read_zip_payload_bytes fold normalize_bundle_path honest policy content)
read_zip_payload_bytes-IsWithin_example =
    read_zip_payload_bytes-IsWithin fold normalize_bundle_path policy honest content

preserves : select_payload_mode (some 493) (some 436) ≡ ok 436
unfolding select_payload_mode
preserves = refl

select_payload_mode-IsChosen_example : IsGranted (some 493) × IsChosen (some 493) (some 436) 436
select_payload_mode-IsChosen_example =
    select_payload_mode-IsChosen (some 493) (some 436) 436 preserves

refuses_shared_write : select_payload_mode (some 511) (some 420) ≡ err value_error
unfolding select_payload_mode
refuses_shared_write = refl

refuses_device : validate_archive_directory (codes "nul.x") ≡ err value_error
unfolding validate_archive_directory text_eq nat_eq
refuses_device = refl
