-- ===== src/Tests/Ledger.antt =====
-- The Exchange ledger of src/patchharbor/exchange_state.py on concrete entries.
use patch_harbor.Base.{
  String, ◌≡◌, ◌≢◌, refl, true, false, none, some, [], ◌∷◌, ok, err, inl, inr, string_eq, option_eq,
}
use patch_harbor.Models.{
  sha1, GitObjectId, git_object_id, repository_id, git_object_id_eq, repository_id_eq,
  git_object_format_eq,
}
use patch_harbor.Paths.{path_text}
use patch_harbor.ExchangeState.Record.{
  ExchangeFileIdentity, file_identity, ExchangePatchSelection, patch_selection, ExchangeStateRecord,
  attempted, failed, succeeded, checked, is_valid, identity_eq, selection_eq, record_eq,
  apply_status_eq,
}
use patch_harbor.ExchangeState.Snapshot.{record_for, has_distinct_identities}
use patch_harbor.ExchangeState.Parse.{parse_state}
use patch_harbor.ExchangeState.Print.{
  encoded_state, sort_records, insert_sorted, key_before_or_equal,
}
use patch_harbor.ExchangeState.RoundTrip.{
  IsStorable, IsSelection, IsCommit, parse_state-encoded_state,
}
use patch_harbor.ExchangeState.File.{
  Disk, Action, pure, free, directory, missing, regular_file, undecodable, document, stable,
  already_attempted,
}
use patch_harbor.ExchangeState.Holds.{Holds, Runs}
use patch_harbor.ExchangeState.Merge.{merge_exchange_classifications}
use patch_harbor.ExchangeState.Attempt.{
  mark_exchange_apply_started, mark_exchange_apply_finished, is_package_for, admits_start,
}
use patch_harbor.ExchangeState.Receipt.{
  record_exchange_result_digest, recover_exchange_apply_finished,
}
use patch_harbor.ExchangeState.MergeLaws.{Merges, merge_exchange_classifications-Runs}
use patch_harbor.ExchangeState.AttemptLaws.{Starts, mark_exchange_apply_started-Runs}
use patch_harbor.ExchangeState.FinishLaws.{Finishes, mark_exchange_apply_finished-Runs}
use patch_harbor.ExchangeState.ReceiptLaws.{
  Pins, Recovers, record_exchange_result_digest-Runs, recover_exchange_apply_finished-Runs,
}
use patch_harbor.ExchangeState.Replay.{
  Reach, Automatic, Attempted, Succeeded, Leaves, merge, finish, started_once, Automatic-Succeeded,
}
use patch_harbor.ExchangeState.Replies.{start_answer}

abbrev digest : String
digest = "00112233445566778899aabbccddeeff00112233445566778899aabbccddeeff"

abbrev commit : GitObjectId
commit = record { value = "0123456789012345678901234567890123456789"; object_format = sha1 }

abbrev next_commit : GitObjectId
next_commit = record { value = "1123456789012345678901234567890123456789"; object_format = sha1 }

abbrev run_id : String
run_id = "6f1c0d4e-9a3b-4c2d-8e5f-0123456789ab"

abbrev selection : ExchangePatchSelection
selection = record {
  repo_id = record { value = "0f1c0d4e-9a3b-4c2d-8e5f-0123456789ab" };
  base_commit = commit;
  state_fingerprint = "0123456789abcdef";
  fingerprint_algorithm = "patchharbor-state-v1";
}

abbrev package_identity : ExchangeFileIdentity
package_identity = record { path = "/exchange/patch.zip"; sha256 = digest }

abbrev candidate : ExchangeStateRecord
candidate = record {
  identity = package_identity;
  kind = "patch_package";
  manifest = some selection;
  apply_status = none;
  completed_commit = none;
  attempt_run_id = none;
  result_sha256 = none;
}

abbrev active : ExchangeStateRecord
active = record candidate { apply_status = some attempted; attempt_run_id = some run_id }

abbrev receipted : ExchangeStateRecord
receipted = record active { result_sha256 = some digest }

abbrev done : ExchangeStateRecord
done = record receipted { apply_status = some succeeded; completed_commit = some next_commit }

abbrev other_file : ExchangeStateRecord
other_file = record {
  identity = record { path = "/exchange/notes"; sha256 = digest };
  kind = "other";
  manifest = none;
  apply_status = none;
  completed_commit = none;
  attempt_run_id = none;
  result_sha256 = none;
}

selection-IsSelection : IsSelection selection
unfolding repository_id git_object_id patch_selection string_eq
selection-IsSelection = record { repo_id = refl; base_commit = refl; fields = refl }

candidate-IsStorable : IsStorable candidate
unfolding path_text file_identity checked is_valid string_eq
candidate-IsStorable = record {
  path = refl;
  identity = refl;
  manifest = selection-IsSelection;
  completed_commit = tt;
  valid = refl;
}

active-IsStorable : IsStorable active
unfolding path_text file_identity checked is_valid string_eq
active-IsStorable = record {
  path = refl;
  identity = refl;
  manifest = selection-IsSelection;
  completed_commit = tt;
  valid = refl;
}

receipted-IsStorable : IsStorable receipted
unfolding path_text file_identity checked is_valid string_eq apply_status_eq option_eq
receipted-IsStorable = record {
  path = refl;
  identity = refl;
  manifest = selection-IsSelection;
  completed_commit = tt;
  valid = refl;
}

next_commit-IsCommit : IsCommit next_commit
unfolding git_object_id
next_commit-IsCommit = refl

done-IsStorable : IsStorable done
unfolding path_text file_identity checked is_valid string_eq apply_status_eq git_object_id_eq
    git_object_format_eq option_eq
done-IsStorable = record {
  path = refl;
  identity = refl;
  manifest = selection-IsSelection;
  completed_commit = next_commit-IsCommit;
  valid = refl;
}

other_file-IsStorable : IsStorable other_file
unfolding path_text file_identity checked is_valid string_eq
other_file-IsStorable = record {
  path = refl;
  identity = refl;
  manifest = tt;
  completed_commit = tt;
  valid = refl;
}

abbrev fresh_disk : Disk
fresh_disk = record {
  lock = free;
  directory_kind = missing;
  mkdir_works = true;
  file_kind = missing;
  content = undecodable;
  reading = stable;
  writing_works = true;
}

fresh_disk-Holds : Holds fresh_disk []
unfolding has_distinct_identities
fresh_disk-Holds = record { storable = tt; distinct = refl; stored = inl (refl, refl) }

-- A disk whose ledger holds one entry.
abbrev holding : ExchangeStateRecord → Disk
holding r = record fresh_disk {
  directory_kind = directory;
  file_kind = regular_file;
  content = document (encoded_state (r ∷ []));
}

holding-Holds : (r : ExchangeStateRecord) → IsStorable r → Holds (holding r) (r ∷ [])
unfolding has_distinct_identities sort_records insert_sorted
holding-Holds r h = record {
  storable = (h, tt);
  distinct = refl;
  stored = inr (refl, (_, refl, parse_state-encoded_state (r ∷ []) (h, tt) refl));
}

abbrev verified : Action (Unit {0})
verified = pure tt

parse_state-encoded_state_example :
    parse_state (encoded_state (done ∷ other_file ∷ []))
    ≡ ok (sort_records (done ∷ other_file ∷ []))
unfolding has_distinct_identities identity_eq
parse_state-encoded_state_example =
    parse_state-encoded_state (done ∷ other_file ∷ [])
      (done-IsStorable, (other_file-IsStorable, tt)) refl

sorted_by_path : sort_records (done ∷ other_file ∷ []) ≡ other_file ∷ done ∷ []
unfolding sort_records insert_sorted key_before_or_equal string_eq
sorted_by_path = refl

merge_exchange_classifications-Runs_example :
    Runs
      (Merges (candidate ∷ other_file ∷ []) (active ∷ []))
      (active ∷ [])
      (merge_exchange_classifications (candidate ∷ other_file ∷ []) (holding active))
merge_exchange_classifications-Runs_example =
    merge_exchange_classifications-Runs (candidate ∷ other_file ∷ []) (active ∷ []) (holding active)
      (holding-Holds active active-IsStorable) (candidate-IsStorable, (other_file-IsStorable, tt))

mark_exchange_apply_started-Runs_example :
    Runs
      (λ _ t. Starts package_identity selection false false (some run_id) (candidate ∷ []) t)
      (candidate ∷ [])
      (mark_exchange_apply_started package_identity selection verified false false
        (some run_id)
        (holding candidate))
mark_exchange_apply_started-Runs_example =
    mark_exchange_apply_started-Runs package_identity selection false false (some run_id)
      (candidate ∷ []) verified (holding candidate) (λ _. refl)
      (holding-Holds candidate candidate-IsStorable)

mark_exchange_apply_finished-Runs_example :
    Runs
      (λ _ t.
        Finishes package_identity selection succeeded
          (some next_commit)
          (some run_id)
          (receipted ∷ [])
          t)
      (receipted ∷ [])
      (mark_exchange_apply_finished package_identity selection succeeded
        (some next_commit)
        (some run_id)
        (holding receipted))
mark_exchange_apply_finished-Runs_example =
    mark_exchange_apply_finished-Runs package_identity selection succeeded (some next_commit)
      (some run_id) (receipted ∷ []) (holding receipted) next_commit-IsCommit
      (holding-Holds receipted receipted-IsStorable)

record_exchange_result_digest-Runs_example :
    Runs
      (λ _ t. Pins package_identity selection run_id digest (active ∷ []) t)
      (active ∷ [])
      (record_exchange_result_digest package_identity selection run_id digest (holding active))
record_exchange_result_digest-Runs_example =
    record_exchange_result_digest-Runs package_identity selection run_id digest (active ∷ [])
      (holding active) (holding-Holds active active-IsStorable)

recover_exchange_apply_finished-Runs_example :
    Runs
      (λ _ t. Recovers receipted next_commit (receipted ∷ []) t)
      (receipted ∷ [])
      (recover_exchange_apply_finished receipted next_commit verified (holding receipted))
recover_exchange_apply_finished-Runs_example =
    recover_exchange_apply_finished-Runs receipted next_commit next_commit-IsCommit (receipted ∷ [])
      verified (holding receipted) (λ _. refl) (holding-Holds receipted receipted-IsStorable)

-- The attempt fails, and the package is found again.
abbrev later_disk : Disk
later_disk =
    (merge_exchange_classifications (candidate ∷ [])
      (mark_exchange_apply_finished package_identity selection failed none (some run_id)
        (holding active)).1).1

later : Reach (holding active) later_disk
later =
    Reach.next
      (Reach.next Reach.here (finish package_identity selection failed none (some run_id) tt))
      (merge (candidate ∷ []) (candidate-IsStorable, tt))

active-Attempted : Attempted package_identity (active ∷ [])
unfolding record_for identity_eq string_eq
active-Attempted = record { entry = active; found = refl; crossed = refl }

started_once_example :
    (mark_exchange_apply_started package_identity selection verified false false
      (some run_id)
      later_disk).0
    ≢ ok tt
started_once_example =
    started_once package_identity (active ∷ []) (holding active) later_disk selection verified
      (some run_id) (holding-Holds active active-IsStorable) active-Attempted later (λ _. refl)

done-Succeeded : Succeeded package_identity done (done ∷ [])
unfolding record_for identity_eq string_eq
done-Succeeded = record { found = refl; done = refl }

Automatic-Succeeded_example :
    Leaves
      (Succeeded package_identity done)
      (merge_exchange_classifications (candidate ∷ []) (holding done)).1
Automatic-Succeeded_example =
    Automatic-Succeeded package_identity done (done ∷ []) (holding done)
      (merge_exchange_classifications (candidate ∷ []) (holding done)).1
      (Automatic.next Automatic.here (merge (candidate ∷ []) (candidate-IsStorable, tt)))
      (holding-Holds done done-IsStorable) done-Succeeded

-- A retry is for a failed attempt only.
answer_already_attempted :
    start_answer selection true false (record_for package_identity (active ∷ []))
    ≡ err already_attempted
unfolding record_for identity_eq string_eq is_package_for selection_eq option_eq repository_id_eq
    git_object_id_eq git_object_format_eq admits_start apply_status_eq
answer_already_attempted = refl
