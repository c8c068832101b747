-- ===== src/Fingerprint/Stream.antt =====
-- src/patchharbor/state_fingerprint.py: frames, records and the stream of a state. A byte is a number.
use patch_harbor.Base.{
  ℕ, String, suc, zero, ◌/◌, ◌%◌, ◌^◌, List, [], ◌∷◌, ◌++◌, ltb, length, codes, Result, ok, err,
  ◌>>=◌, ◌>>◌, require,
}

pub data EncodingError : Type 0 where
  overflow_error value_error : EncodingError

abbrev pub Bytes : Type 0
Bytes = List ℕ

-- `n.to_bytes(width, "big")` of a number that fits.
unfoldable pub big_endian : ℕ → ℕ → Bytes
big_endian zero n = []
big_endian (suc width) n = big_endian width (n / 256) ++ n % 256 ∷ []

unfoldable pub to_bytes : ℕ → Result EncodingError Bytes
unfolding big_endian
to_bytes n = do require (ltb n (2 ^ 64)) overflow_error; ok (big_endian 8 n)

-- `_framed_field`
unfoldable pub framed_field : Bytes → Bytes → Result EncodingError Bytes
unfolding to_bytes
framed_field name payload = do size ← to_bytes (length payload); ok (name ++ 0 ∷ (size ++ payload))

-- The fields of a record, joined; `zip` is strict.
unfoldable pub framed_fields : List Bytes → List Bytes → Result EncodingError Bytes
unfolding framed_field
framed_fields [] [] = ok []
framed_fields (name ∷ names) (payload ∷ payloads) = do
  field ← framed_field name payload
  rest ← framed_fields names payloads
  ok (field ++ rest)
framed_fields _ _ = err value_error

abbrev pub staged_field_names : List Bytes
staged_field_names =
    codes "staged-path"
    ∷ codes "staged-head-mode"
    ∷ codes "staged-head-object"
    ∷ codes "staged-index-mode"
    ∷ codes "staged-index-object"
    ∷ []

abbrev pub unstaged_field_names : List Bytes
unstaged_field_names =
    codes "unstaged-path"
    ∷ codes "unstaged-status"
    ∷ codes "unstaged-index-mode"
    ∷ codes "unstaged-index-object"
    ∷ codes "unstaged-worktree-kind"
    ∷ codes "unstaged-worktree-mode"
    ∷ codes "unstaged-worktree-content"
    ∷ []

abbrev pub untracked_field_names : List Bytes
untracked_field_names =
    codes "untracked-path"
    ∷ codes "untracked-mode"
    ∷ codes "untracked-size"
    ∷ codes "untracked-content"
    ∷ []

-- The keyword arguments of the three encoders.
pub record StagedRecord : Type 0 where
  pub path : Bytes
  pub head_mode : Bytes
  pub head_object : Bytes
  pub index_mode : Bytes
  pub index_object : Bytes

pub record UnstagedRecord : Type 0 where
  pub path : Bytes
  pub status : Bytes
  pub index_mode : Bytes
  pub index_object : Bytes
  pub worktree_kind : Bytes
  pub worktree_mode : Bytes
  pub worktree_content : Bytes

pub record UntrackedRecord : Type 0 where
  pub path : Bytes
  pub mode : Bytes
  pub content : Bytes

abbrev pub staged_payloads : StagedRecord → List Bytes
staged_payloads r = r.path ∷ r.head_mode ∷ r.head_object ∷ r.index_mode ∷ r.index_object ∷ []

abbrev pub unstaged_payloads : UnstagedRecord → List Bytes
unstaged_payloads r =
    r.path ∷ r.status ∷ r.index_mode ∷ r.index_object ∷ r.worktree_kind ∷ r.worktree_mode
    ∷ r.worktree_content ∷ []

unfoldable pub encode_staged_record : StagedRecord → Result EncodingError Bytes
unfolding framed_fields
encode_staged_record r = framed_fields staged_field_names (staged_payloads r)

unfoldable pub encode_unstaged_record : UnstagedRecord → Result EncodingError Bytes
unfolding framed_fields
encode_unstaged_record r = framed_fields unstaged_field_names (unstaged_payloads r)

unfoldable pub encode_untracked_record : UntrackedRecord → Result EncodingError Bytes
unfolding framed_fields to_bytes
encode_untracked_record r = do
  size ← to_bytes (length r.content)
  framed_fields untracked_field_names (r.path ∷ r.mode ∷ size ∷ r.content ∷ [])

-- `b"PATCHHARBOR_STATE_FINGERPRINT\0" + b"1\0"`
abbrev pub fingerprint_header : Bytes
fingerprint_header = codes "PATCHHARBOR_STATE_FINGERPRINT" ++ 0 ∷ (codes "1" ++ 0 ∷ [])

unfoldable pub joined : List Bytes → Bytes
joined [] = []
joined (b ∷ bs) = b ++ joined bs

-- One group of records behind their number.
unfoldable pub counted : Bytes → List Bytes → Result EncodingError Bytes
unfolding to_bytes framed_field joined
counted count_name records = do
  size ← to_bytes (length records)
  field ← framed_field count_name size
  ok (field ++ joined records)

-- What `state_fingerprint_digest` hands to SHA-256.
unfoldable pub state_stream : List Bytes → List Bytes → List Bytes → Result EncodingError Bytes
unfolding counted
state_stream staged unstaged untracked = do
  first ← counted (codes "staged-count") staged
  second ← counted (codes "unstaged-count") unstaged
  third ← counted (codes "untracked-count") untracked
  ok (fingerprint_header ++ (first ++ (second ++ third)))

-- The function `sha256` of the standard library gives the digest.
unfoldable pub state_fingerprint_digest :
    (sha256 : Bytes → String) (staged unstaged untracked : List Bytes) → Result EncodingError String
unfolding state_stream
state_fingerprint_digest sha256 staged unstaged untracked = do
  stream ← state_stream staged unstaged untracked
  ok (sha256 stream)
