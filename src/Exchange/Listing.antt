-- ===== src/Exchange/Listing.antt =====
-- src/patchharbor/exchange.py: which files of the directory a scan goes through, in which order, and
-- what it takes for a file that can be read.
use mathlib.Core.List.{Perm}
use mathlib.Core.List.Perm
use patch_harbor.Base.{
  ℕ, String, ◌≡◌, ◌≢◌, refl, ap, ◌∙◌, ◌⊎◌, inl, inr, Bool, true, false, ◌&&◌, Option, none, some,
  List, [], ◌∷◌, arith, codes, before_or_equal, All, if◌then◌else◌, Result, ok, err, ◌>>=◌, reraise,
  Answers, Answers-after, Answers-require, Answers-then, Answers-reraise, Bool-cases, ◌==◌,
  same-key, same-key_refl, equal_test, string_eq,
}
use patch_harbor.Models.{ValueError, value_error}
use patch_harbor.Paths.{parent, name, child, is_absolute}
use patch_harbor.ExchangeState.Record.{ExchangeFileIdentity, file_identity, is_sha256}
use patch_harbor.Exchange.Files.{
  or_raise, ExchangeError, scan_error, value_raised, FileView, StableFile, ExchangeFileSnapshot,
  read_exchange_file, DirectoryEntry, is_true, regular_paths, insert_path, sort_paths,
  top_level_regular_paths,
}
use patch_harbor.Exchange.Newest.{before_or_equal_total, before_or_equal_trans}

-- The paths of the entries that are regular files and have no temporary name.
pub data Selects (is_temporary : String → Bool) (directory : String)
    : List DirectoryEntry → List String → Type 0 where
  no_entry : Selects is_temporary directory [] []
  taken :
      {e : DirectoryEntry} {es : List DirectoryEntry} {ps : List String}
      → is_temporary e.entry_name ≡ false
      → e.is_regular ≡ some true
      → Selects is_temporary directory es ps
      → Selects is_temporary directory (e ∷ es) (child directory e.entry_name ∷ ps)
  skipped :
      {e : DirectoryEntry} {es : List DirectoryEntry} {ps : List String}
      → (is_temporary e.entry_name ≡ true) ⊎ (e.is_regular ≢ some true)
      → Selects is_temporary directory es ps
      → Selects is_temporary directory (e ∷ es) ps

is_true-eq : (o : Option Bool) → is_true o ≡ true → o ≡ some true
unfolding is_true
is_true-eq none h = cc
is_true-eq (some true) h = refl
is_true-eq (some false) h = cc

is_true-ne : (o : Option Bool) → is_true o ≡ false → o ≢ some true
unfolding is_true
is_true-ne o h is = ground (arith, h, ap is_true is)

regular_paths-Selects :
    (is_temporary : String → Bool) (directory : String) (es : List DirectoryEntry)
    → Selects is_temporary directory es (regular_paths is_temporary directory es)
unfolding regular_paths
regular_paths-Selects is_temporary directory [] = no_entry
regular_paths-Selects is_temporary directory (e ∷ es) =
    let rest = regular_paths-Selects is_temporary directory es in
    elim (Bool-cases (is_temporary e.entry_name)) [
      | inl temporary ↦ rw (temporary, regular_paths) (skipped (inl temporary) rest)
      | inr lasting ↦ elim (Bool-cases (is_true e.is_regular)) [
        | inl regular ↦
            rw (lasting, regular, regular_paths)
              (taken lasting (is_true-eq e.is_regular regular) rest)
        | inr other ↦
            rw (lasting, other, regular_paths) (skipped (inr (is_true-ne e.is_regular other)) rest)
      ]
    ]

-- The name of the first path is not behind that of the second.
abbrev pub Precedes : String → String → Type 0
Precedes p q = before_or_equal (codes (name p)) (codes (name q)) ≡ true

abbrev pub AreSorted : List String → Type 0
AreSorted [] = Unit
AreSorted (p ∷ ps) = All (Precedes p) ps × AreSorted ps

Precedes-trans : (p q r : String) → Precedes p q → Precedes q r → Precedes p r
Precedes-trans p q r = before_or_equal_trans (codes (name p)) (codes (name q)) (codes (name r))

All-Precedes :
    (p q : String) (qs : List String) → Precedes p q → All (Precedes q) qs → All (Precedes p) qs
All-Precedes p q [] h hs = tt
All-Precedes p q (r ∷ qs) h hs = (Precedes-trans p q r h hs.0, All-Precedes p q qs h hs.1)

insert_path-Perm : (p : String) (qs : List String) → Perm (insert_path p qs) (p ∷ qs)
unfolding insert_path
insert_path-Perm p [] = Perm.rfl
insert_path-Perm p (q ∷ qs) =
    elim (before_or_equal (codes (name p)) (codes (name q)))
      as (λ b. Perm (if b then p ∷ q ∷ qs else q ∷ insert_path p qs) (p ∷ q ∷ qs)) [
        | true ↦ Perm.rfl
        | false ↦ Perm.trans (Perm.cons q (insert_path-Perm p qs)) (Perm.swap p q qs)
      ]

pub sort_paths-Perm : (ps : List String) → Perm (sort_paths ps) ps
unfolding sort_paths
sort_paths-Perm [] = Perm.rfl
sort_paths-Perm (p ∷ ps) =
    Perm.trans (insert_path-Perm p (sort_paths ps)) (Perm.cons p (sort_paths-Perm ps))

All-insert_path :
    (P : String → Type 0) (p : String) (qs : List String)
    → P p
    → All P qs
    → All P (insert_path p qs)
unfolding insert_path
All-insert_path P p [] h hs = (h, tt)
All-insert_path P p (q ∷ qs) h hs =
    elim (before_or_equal (codes (name p)) (codes (name q)))
      as (λ b. All P (if b then p ∷ q ∷ qs else q ∷ insert_path p qs)) [
        | true ↦ (h, hs)
        | false ↦ (hs.0, All-insert_path P p qs h hs.1)
      ]

insert_path-AreSorted :
    (p : String) (qs : List String) → AreSorted qs → AreSorted (insert_path p qs)
unfolding insert_path
insert_path-AreSorted p [] hs = (tt, tt)
insert_path-AreSorted p (q ∷ qs) hs =
    elim (Bool-cases (before_or_equal (codes (name p)) (codes (name q)))) [
      | inl before ↦ rw (before, insert_path) ((before, All-Precedes p q qs before hs.0), hs)
      | inr behind ↦
          rw (behind, insert_path)
            (
              All-insert_path (Precedes q) p qs
                  (before_or_equal_total (codes (name p)) (codes (name q)) behind) hs.0,
              insert_path-AreSorted p qs hs.1,
            )
    ]

sort_paths-AreSorted : (ps : List String) → AreSorted (sort_paths ps)
unfolding sort_paths
sort_paths-AreSorted [] = tt
sort_paths-AreSorted (p ∷ ps) = insert_path-AreSorted p (sort_paths ps) (sort_paths-AreSorted ps)

-- The paths of a directory that was listed.
pub record IsListing (is_temporary : String → Bool) (directory : String)
    (entries : Option (List DirectoryEntry)) (paths : List String) : Type 0 where
  pub found : List DirectoryEntry
  pub listed : entries ≡ some found
  pub regular : List String
  pub selected : Selects is_temporary directory found regular
  pub same_paths : Perm paths regular
  pub sorted : AreSorted paths

pub top_level_regular_paths-IsListing :
    (is_temporary : String → Bool) (directory : String) (entries : Option (List DirectoryEntry))
    → Answers
        (IsListing is_temporary directory entries)
        (top_level_regular_paths is_temporary directory entries)
unfolding top_level_regular_paths
top_level_regular_paths-IsListing is_temporary directory none = tt
top_level_regular_paths-IsListing is_temporary directory (some entries) = record {
  found = entries;
  listed = refl;
  regular = regular_paths is_temporary directory entries;
  selected = regular_paths-Selects is_temporary directory entries;
  same_paths = sort_paths-Perm (regular_paths is_temporary directory entries);
  sorted = sort_paths-AreSorted (regular_paths is_temporary directory entries);
}

second_test : (p q : Bool) → (p && q) ≡ true → q ≡ true
second_test p q h = ground (arith, h)

or_raise-some :
    {A : Type 0} (e : ExchangeError) (o : Option A) (a : A) → or_raise e o ≡ ok a → o ≡ some a
or_raise-some e none a h = cc
or_raise-some e (some b) a h = ground (arith, h)

abbrev captured : StableFile → ExchangeFileIdentity → ExchangeFileSnapshot
captured file i = record { identity = i; mtime_ns = file.mtime_ns; content = file.content }

-- What follows the stable read raises no error of the scan.
not_scan_error :
    (m : Result ValueError ExchangeFileIdentity) (file : StableFile)
    → (reraise value_raised m >>= λ i. ok (captured file i)) ≢ err scan_error
not_scan_error (ok i) file h = cc
not_scan_error (err e) file h = ground (arith, h)

module _ (files : String → FileView) (directory : String) (limit : ℕ) where
  -- A file is read under its own path, directly in the directory, before and after the stable read,
  -- whose digest is that of its identity.
  pub record IsRead (path : String) (i : ExchangeFileIdentity) : Type 0 where
    pub inside : parent path ≡ directory
    pub before : (files path).canonical_before ≡ some path
    pub file : StableFile
    pub stable : (files path).stable limit ≡ some file
    pub after : (files path).canonical_after ≡ some path
    pub same_path : i.path ≡ path
    pub same_digest : i.sha256 ≡ file.sha256

  -- The identities of the files that can be read; each of the others has none.
  pub data Reads : List String → List ExchangeFileIdentity → Type 0 where
    no_path : Reads [] []
    readable :
        {p : String} {i : ExchangeFileIdentity} {ps : List String} {is : List ExchangeFileIdentity}
        → IsRead p i
        → Reads ps is
        → Reads (p ∷ ps) (i ∷ is)
    unreadable :
        {p : String} {ps : List String} {is : List ExchangeFileIdentity}
        → ((i : ExchangeFileIdentity) → ¬ IsRead p i)
        → Reads ps is
        → Reads (p ∷ ps) is

  abbrev HasFields : String → String → ExchangeFileIdentity → Type 0
  HasFields path sha256 i = (i.path ≡ path) × (i.sha256 ≡ sha256)

  identity-fields :
      (path sha256 : String) → Answers (HasFields path sha256) (file_identity path sha256)
  unfolding file_identity
  identity-fields path sha256 =
      let i : ExchangeFileIdentity = record { path = path; sha256 = sha256 } in
      Answers-require (HasFields path sha256) (is_absolute path) value_error _ λ _.
        Answers-require (HasFields path sha256) (is_sha256 sha256) value_error (ok i)
          λ _. (refl, refl)

  -- A file that was read has such an identity.
  pub read_exchange_file-IsRead :
      (path : String)
      → Answers (λ s. IsRead path s.identity) (read_exchange_file files path directory limit)
  unfolding read_exchange_file
  read_exchange_file-IsRead path =
      let P = λ (s : ExchangeFileSnapshot). IsRead path s.identity in
      Answers-require P (parent path == directory) scan_error _ λ inside.
        Answers-after P (or_raise scan_error (files path).canonical_before) _ λ before is_before.
          Answers-require P (parent before == directory && before == path) scan_error _ λ own.
            Answers-after P (or_raise scan_error ((files path).stable limit)) _ λ file stable.
              Answers-after P (or_raise scan_error (files path).canonical_after) _ λ after is_after.
                Answers-require P (after == before) scan_error _ λ same.
                  Answers-then (HasFields after file.sha256) P
                    (reraise value_raised (file_identity after file.sha256)) _
                    (Answers-reraise (HasFields after file.sha256) value_raised
                      (file_identity after file.sha256) (identity-fields after file.sha256))
                    λ i fields.
                      let own_path = same-key before path (second_test _ _ own) in
                      let after_path = same-key after before same ∙ own_path in
                      record {
                        inside = same-key (parent path) directory inside;
                        before = or_raise-some scan_error _ before is_before ∙ ap some own_path;
                        file = file;
                        stable = or_raise-some scan_error _ file stable;
                        after = or_raise-some scan_error _ after is_after ∙ ap some after_path;
                        same_path = fields.0 ∙ after_path;
                        same_digest = fields.1;
                      }

  -- A file that could be read is not passed over.
  pub IsRead-read_exchange_file :
      (path : String) (i : ExchangeFileIdentity)
      → IsRead path i
      → read_exchange_file files path directory limit ≢ err scan_error
  unfolding read_exchange_file
  IsRead-read_exchange_file path i h =
      rw
        (
          equal_test (parent path) directory h.inside,
          h.before,
          equal_test (parent path) directory h.inside,
          same-key_refl path,
          h.stable,
          h.after,
          same-key_refl path,
        )
        (not_scan_error (file_identity path h.file.sha256) h.file)
