-- ===== src/Zip/Limits.antt =====
-- src/patchharbor/zip_payloads.py: what is read keeps within the limits, whatever the archive declares
-- and whatever its streams give.
use mathlib.Core.Path.{subst}
use patch_harbor.Base.{
  ℕ, ◌+◌, ◌≤◌, ◌≡◌, refl, Bool, true, Option, List, [], ◌∷◌, arith, length, length-append, leb,
  leb→le, All, Result, ok, require, reraise, Result-cases, inl, inr, Bool-cases, ◌/◌, ◌%◌, Answers,
  Answers-all, Answers-bind, Answers-after, Answers-then, Answers-implies, require-ok,
}
use patch_harbor.Bundle.Member.{Text, BundlePathError}
use patch_harbor.Bundle.Tree.{validate_bundle_member_paths}
use patch_harbor.Package.Handoff.{BundlePayload}
use patch_harbor.Zip.Policy.{ResourcePolicy}
use patch_harbor.Zip.Modes.{IsGranted, validate_payload_mode, validate_payload_mode-IsPrivate}
use patch_harbor.Zip.Members.{
  invalid_zip_archive, zip_resource_limit, validate_sizes, ZipInfo, ValidatedZipMember,
  validate_declared_entries, member_unix_mode, some_mode, member_kinds, members_of,
  validate_members,
}
use patch_harbor.Zip.Read.{
  Chunks, done, broken, chunk, Opened, not_zip, unreadable, archive, Progress, extended, unread,
  read_chunks, read_member, read_members, read_open_archive, read_zip_payload_bytes,
}

abbrev pub total_size : List BundlePayload → ℕ
total_size [] = 0
total_size (b ∷ bs) = length b.content + total_size bs

-- The counts are those of the content.
record IsCounted (p : ResourcePolicy) (before : ℕ) (s : Progress) : Type 0 where
  content : length s.content ≡ s.entry_bytes_read
  total : s.total_bytes_read ≡ before + s.entry_bytes_read
  content_fits : s.entry_bytes_read ≤ p.max_content_bytes
  total_fits : s.total_bytes_read ≤ p.max_zip_total_bytes

module _ (p : ResourcePolicy) where
  read_chunks-IsCounted :
      (before : ℕ) (c : Chunks) (s t : Progress)
      → IsCounted p before s
      → read_chunks p c s ≡ ok t
      → IsCounted p before t
  unfolding read_chunks extended
  read_chunks-IsCounted before done s t h is = ground arith
  read_chunks-IsCounted before broken s t h is = cc
  read_chunks-IsCounted before (chunk bytes rest) s t h is = ground (
    arith,
    read_chunks-IsCounted before rest (extended s bytes) t,
    length-append s.content bytes,
    h.content,
    h.total,
  )

  read_member-IsCounted :
      (m : ValidatedZipMember) (c : Chunks) (before : ℕ) (t : Progress)
      → before ≤ p.max_zip_total_bytes
      → read_member p m c before ≡ ok t
      → IsCounted p before t
  unfolding read_member
  read_member-IsCounted m c before t h is = elim (Result-cases (read_chunks p c (unread before))) [
    | inl (s, reads) ↦ ground (
      arith,
      is,
      reads,
      read_chunks-IsCounted before c (unread before) s
          (record {
            content = refl;
            total = omega arith;
            content_fits = omega arith;
            total_fits = h;
          })
          reads,
    )
    | inr (e, fails) ↦ ground (arith, is, fails)
  ]

  -- The payloads read behind `before` bytes.
  record AreRead (ms : List ValidatedZipMember) (before : ℕ) (bs : List BundlePayload)
      : Type 0 where
    count : length bs ≤ length ms
    contents : All (λ b. length b.content ≤ p.max_content_bytes) bs
    total : before + total_size bs ≤ p.max_zip_total_bytes
    modes : All (λ b. IsGranted b.unix_mode) bs

  AreRead-directory :
      (m : ValidatedZipMember) (ms : List ValidatedZipMember) (before : ℕ) (bs : List BundlePayload)
      → AreRead ms before bs
      → AreRead (m ∷ ms) before bs
  AreRead-directory m ms before bs h = record {
    count = omega (arith, h.count);
    contents = h.contents;
    total = h.total;
    modes = h.modes;
  }

  AreRead-file :
      (m : ValidatedZipMember) (ms : List ValidatedZipMember) (before : ℕ) (s : Progress)
      (bs : List BundlePayload)
      → IsCounted p before s
      → IsGranted m.unix_mode
      → AreRead ms s.total_bytes_read bs
      → AreRead (m ∷ ms) before (
          (record { relative_path = m.relative_path; content = s.content; unix_mode = m.unix_mode })
          ∷ bs)
  AreRead-file m ms before s bs c granted h = record {
    count = omega (arith, h.count);
    contents = (omega (arith, c.content, c.content_fits), h.contents);
    total = omega (arith, c.content, c.total, h.total);
    modes = (granted, h.modes);
  }

  read_members-AreRead :
      (streams : ZipInfo → Chunks) (ms : List ValidatedZipMember) (before : ℕ)
      (bs : List BundlePayload)
      → before ≤ p.max_zip_total_bytes
      → All (λ m. IsGranted m.unix_mode) ms
      → read_members p streams ms before ≡ ok bs
      → AreRead ms before bs
  unfolding read_members
  read_members-AreRead streams [] before bs h granted is =
      let empty : [] ≡ bs = cc in
      subst (AreRead [] before) empty
        (record { count = omega arith; contents = tt; total = omega arith; modes = tt })
  read_members-AreRead streams (m ∷ ms) before bs h granted is = elim (Bool-cases m.is_directory) [
    | inl directory ↦
        AreRead-directory m ms before bs (
          read_members-AreRead streams ms before bs h granted.1
            (rw (directory, read_members) at is))
    | inr file ↦ elim (Result-cases (read_member p m (streams m.entry) before)) [
      | inr (e, fails) ↦ cc (rw (file, fails, read_members) at is)
      | inl (s, reads) ↦
          let c = read_member-IsCounted m (streams m.entry) before s h reads in
          elim (Result-cases (read_members p streams ms s.total_bytes_read)) [
            | inr (e, fails) ↦ cc (rw (file, reads, fails, read_members) at is)
            | inl (rest, later) ↦
                subst (AreRead (m ∷ ms) before) (cc (rw (file, reads, later, read_members) at is)) (
                  AreRead-file m ms before s rest c granted.0 (
                    read_members-AreRead streams ms s.total_bytes_read rest c.total_fits granted.1
                      later))
          ]
    ]
  ]

member_unix_mode-IsGranted :
    (e : ZipInfo) (d : Bool) (mode : Option ℕ) → member_unix_mode e d ≡ ok mode → IsGranted mode
unfolding member_unix_mode some_mode
member_unix_mode-IsGranted e d mode h =
    elim (Result-cases (validate_payload_mode (e.external_attr / 65536 % 4096))) [
      | inl (m, is) ↦
          ground
            (arith, h, is, validate_payload_mode-IsPrivate (e.external_attr / 65536 % 4096) m is)
      | inr (x, is) ↦ ground (arith, h, is)
    ]

-- The members that are checked: no more than the entries, each with a mode that may be granted.
record AreMembers (es : List ZipInfo) (ms : List ValidatedZipMember) : Type 0 where
  count : length ms ≤ length es
  modes : All (λ m. IsGranted m.unix_mode) ms

no_members : (es : List ZipInfo) → AreMembers es []
no_members es = record { count = omega arith; modes = tt }

members_of-AreMembers :
    (es : List ZipInfo) (kinds : List (Text × Bool)) (paths : List Text)
    → Answers (AreMembers es) (members_of es kinds paths)
unfolding members_of
members_of-AreMembers (e ∷ es) ((name, d) ∷ kinds) (path ∷ paths) =
    Answers-then IsGranted (AreMembers (e ∷ es)) (member_unix_mode e d) _
      (Answers-all IsGranted (member_unix_mode e d) (member_unix_mode-IsGranted e d))
      λ mode granted.
        Answers-then (AreMembers es) (AreMembers (e ∷ es)) (members_of es kinds paths) _
          (members_of-AreMembers es kinds paths)
          λ rest ih. record { count = omega (arith, ih.count); modes = (granted, ih.modes) }
members_of-AreMembers [] _ _ = no_members []
members_of-AreMembers (e ∷ es) [] _ = no_members (e ∷ es)
members_of-AreMembers (e ∷ es) (k ∷ ks) [] = no_members (e ∷ es)

-- What the payloads of an archive keep to.
pub record IsWithin (p : ResourcePolicy) (bs : List BundlePayload) : Type 0 where
  pub count : length bs ≤ p.max_zip_entries
  pub contents : All (λ b. length b.content ≤ p.max_content_bytes) bs
  pub total : total_size bs ≤ p.max_zip_total_bytes
  pub modes : All (λ b. IsGranted b.unix_mode) bs

module _ (casefold : Text → Text) (normalizer : Text → Bool → Result BundlePathError Text)
    (p : ResourcePolicy) where
  validate_members-AreMembers :
      (es : List ZipInfo) → Answers (AreMembers es) (validate_members casefold normalizer es)
  unfolding validate_members
  validate_members-AreMembers es = Answers-bind (AreMembers es) (member_kinds es) _ λ kinds.
      Answers-bind (AreMembers es)
        (reraise invalid_zip_archive (validate_bundle_member_paths casefold normalizer kinds)) _
        λ paths. members_of-AreMembers es kinds paths

  open_archive-AreRead :
      (es : List ZipInfo) (streams : ZipInfo → Chunks) (ms : List ValidatedZipMember)
      → leb (length es) p.max_zip_entries ≡ true
      → AreMembers es ms
      → Answers (IsWithin p) (read_members p streams ms 0)
  open_archive-AreRead es streams ms few m =
      Answers-all (IsWithin p) (read_members p streams ms 0) λ bs is.
        let read = read_members-AreRead p streams ms 0 bs (omega arith) m.modes is in
        record {
          count = omega (arith, leb→le (length es) p.max_zip_entries few, read.count, m.count);
          contents = read.contents;
          total = omega (arith, read.total);
          modes = read.modes;
        }

  read_open_archive-IsWithin :
      (o : Opened) → Answers (IsWithin p) (read_open_archive casefold normalizer p o)
  unfolding read_open_archive validate_declared_entries
  read_open_archive-IsWithin not_zip = tt
  read_open_archive-IsWithin unreadable = tt
  read_open_archive-IsWithin (archive es streams) =
      let few = leb (length es) p.max_zip_entries in
      Answers-then (λ _. few ≡ true) (IsWithin p) (validate_declared_entries p es) _
        (Answers-after (λ _. few ≡ true) (require few zip_resource_limit) _
          λ u is.
            Answers-all (λ _. few ≡ true) (validate_sizes p es 0)
              λ _ _. require-ok few zip_resource_limit u is)
        λ _ is.
          Answers-then (AreMembers es) (IsWithin p) (validate_members casefold normalizer es) _
            (validate_members-AreMembers es) λ ms m. open_archive-AreRead es streams ms is m

  -- Whatever an archive declares and whatever its streams give, the payloads that are read from bytes
  -- keep within the policy: the bytes within the limit of an artifact, the payloads within that of the
  -- entries, each content and all contents together within theirs; and a payload that asks for
  -- permissions asks for plain ones that do not let group or others write.
  pub read_zip_payload_bytes-IsWithin :
      (open_archive : List ℕ → Opened) (content : List ℕ)
      → Answers
          (λ bs. (length content ≤ p.max_input_artifact_bytes) × IsWithin p bs)
          (read_zip_payload_bytes casefold normalizer open_archive p content)
  unfolding read_zip_payload_bytes
  read_zip_payload_bytes-IsWithin open_archive content =
      let fits = leb (length content) p.max_input_artifact_bytes in
      Answers-after _ (require fits zip_resource_limit) _ λ u is.
        Answers-implies (IsWithin p) _
          (read_open_archive casefold normalizer p (open_archive content))
          (read_open_archive-IsWithin (open_archive content))
          λ bs h. (
            leb→le (length content) p.max_input_artifact_bytes
                (require-ok fits zip_resource_limit u is),
            h,
          )
