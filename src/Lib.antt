-- ===== src/Lib.antt =====
-- PatchHarbor: applying patch packages from exchange directories to registered repositories.
--
-- The program. A registry maps repository IDs to local paths. Each repository may name an exchange
-- directory into which patch packages are put. A scan classifies the files there and a ledger, the
-- exchange state, remembers what each file was and how far its package got, so that a package is
-- applied once. A watcher waits for changes of the exchange directories and starts one worker at a
-- time, which applies what is eligible and says how it ended. A fingerprint of a repository's state
-- is the digest of a stream of framed records. A result can carry binary deltas, which are decoded
-- within a budget.
--
-- The files.
-- Base: Python's equality, dict, list and exceptions, and the tests on numbers. Dict is a dict in
--   the order of insertion and Entries the predicates over its entries.
-- Models: src/patchharbor/models.py, the identifiers that are checked when they are made.
-- Json: the documents of json.loads and json.dumps. Their text and UTF-8 are not modelled.
-- Paths: pathlib.PurePosixPath, the text of a path in normal form. Windows paths are not modelled.
-- ExchangeState: src/patchharbor/exchange_state.py. Record and Snapshot are the dataclasses and
--   their checks, Parse and Print are _parse_state and _encoded_state, File is the disk with
--   _state_lock, _load_unlocked and _write_unlocked, and Merge, Attempt and Receipt are the public
--   operations by their names. An operation takes the disk and gives an answer or an exception and
--   the disk after it; what was written before a raise stays written. Fields of the disk say which
--   fault the operating system gives, and atomic_replace_bytes is all or nothing. RoundTrip, Sorted,
--   Holds, ReviseLaws, MergeLaws, AttemptLaws, FinishLaws and ReceiptLaws carry the laws of one
--   operation, Replies its answers, and Replay those of sequences of operations.
-- Watcher: Schedule is src/patchharbor_watcher/scheduling.py, Protocol the types of
--   src/patchharbor_watcher/protocol.py and src/patchharbor/watch_contract.py, Messages what a
--   worker reports by protocol.py and src/patchharbor_watcher/apply_boundary.py, and Loop the actions
--   of run_repository_watcher of src/patchharbor_watcher/loop.py as a step relation. Times are
--   milliseconds. Roots, Soundness, Finish and Launch carry the invariant of the roots, Faults,
--   Kept, Idle and Wake what follows from it for runs of the loop, and
--   MessageLaws, Documents, Reading and Told how a report is read. Contract is the rest of
--   watch_contract.py, and Outcome _shared_poll_outcome and SharedWatcherEventState of
--   loop.py, at any type of signatures.
-- Fingerprint: src/patchharbor/state_fingerprint.py. Stream holds the encoders, Frames and Injective
--   how they are read back. SHA-256 is a parameter.
-- Registry: src/patchharbor/registry.py. Mapping is the snapshots, Document the document and File
--   the file with its faults; Entries and MappingLaws say what a snapshot maps, Rollback what a
--   restoration gives back.
-- Delta: Budget is src/patchharbor/snapshot_budget.py and Binary the functions _integer and
--   apply_delta of src/patchharbor/snapshot_binary.py; read_block is not modelled, since zlib and
--   base85 are the standard library. Grammar is the format of the instructions, BinaryLaws, Loop and Applied say what a delta gives, and Integer
--   how its numbers are read.
-- Bundle: src/patchharbor/bundle_paths.py. Member is normalize_bundle_path and Tree is
--   validate_bundle_member_paths, whose normalizer and case folding are parameters; MemberLaws and
--   TreeLaws say what is accepted.
--   Names is src/patchharbor/bundle_names.py and src/patchharbor/archive_policy.py.
-- Zip: Policy is src/patchharbor/resource_policy.py, Modes src/patchharbor/payload_modes.py, and
--   Members and Read are src/patchharbor/zip_payloads.py for an archive in memory: the entries that
--   zipfile lists and the chunks that a stream gives are data, an error of zipfile ends the chunks.
--   Limits says what is within the policy.
-- Package: Manifest is src/patchharbor/patch_manifest.py, Handoff split_patch_handoff of
--   src/patchharbor/bundle_handoff.py, Resolve resolve_patch_payloads of
--   src/patchharbor/patch_package.py, and Script src/patchharbor/parser.py as a state machine over
--   the lines. json.loads and the decoding of UTF-8 are parameters. Reserved describes the members
--   that have no role.
-- Exchange: Artifact, Classify, Files, Scan and Reopen are src/patchharbor/exchange.py with the
--   choice between result and package of src/patchharbor/result_reader.py. A file is what its path
--   resolves to before and after a stable read, and what was read. The scan reads and writes the
--   ledger of ExchangeState. Targets, Select and Discover are discover_exchange_patch of
--   src/patchharbor/application_exchange.py, with the archiving off, and Publish the methods of
--   DiscoveredExchangePatch on the ledger. The capture of a repository's context, what the platform
--   says of a directory and of the files in it, and the outcome of the second check of registry and
--   configurations are arguments. The laws are in ClassifyLaws, ReopenLaws, Materialized,
--   ScanLaws, ScanLedger, Listing, ScanComplete, Newest, DiscoverLaws and Discovered; Once follows
--   an identity from its published attempt through the ledger to later discoveries.
-- Git: History and Obsolete are src/patchharbor/archive_git.py, with run_git_bytes of
--   src/patchharbor/git_commands.py; Tree is src/patchharbor/repository_paths.py and
--   parse_base_tree_entries of src/patchharbor/git_objects.py. How a git command ends, the decoding
--   of UTF-8, case folding and the presence of a path are parameters. Original, HistoryLaws, TreeText,
--   TreeLines, TreeLaws, Evidence, ObsoleteLaws and ObsoleteAll say what the proofs show, from what git documents of merge-base.
-- Status: src/patchharbor/exit_status.py with the reasons of src/patchharbor/errors.py.
-- Tests: runs on concrete inputs.
--
-- Bounds. A byte and a code point are natural numbers. The length of a field is written on eight
-- bytes, and a longer field raises as int.to_bytes does. All loops are structural but the one over
-- the instructions of a delta, whose fuel is the number of its bytes: an instruction takes at least
-- one. A cache of the operating system, the release of a lock and a crash between two system calls
-- are not modelled.
--
-- Not modelled. The command line, its texts and the run reports are for people. The platform
-- modules, the git command, the capture of a repository's state, the processes of the watcher and the
-- building of archives are the operating system and other programs. The loops that move obsolete
-- files and recover attempts, the configuration, the registration and the gates of an apply are left
-- out as well, and so are the readers of result bundles.
pub mod Base
pub mod Models
pub mod Json
pub mod Paths
pub mod ExchangeState
pub mod Watcher
pub mod Fingerprint
pub mod Registry
pub mod Delta
pub mod Bundle
pub mod Status
pub mod Package
pub mod Zip
pub mod Exchange
pub mod Git
mod Tests
