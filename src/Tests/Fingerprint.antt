-- ===== src/Tests/Fingerprint.antt =====
-- Runs of the fingerprint's stream: src/patchharbor/state_fingerprint.py.
use patch_harbor.Base.{◌≡◌, refl, [], ◌∷◌, ok, codes, Result}
use patch_harbor.Fingerprint.Stream.{Bytes, EncodingError, framed_field, encode_untracked_record}
use patch_harbor.Fingerprint.Injective.{RecordedState, recorded_stream, recorded_stream-injective}

framed_name :
    framed_field (codes "a") (codes "bc")
    ≡ ok (97 ∷ 0 ∷ 0 ∷ 0 ∷ 0 ∷ 0 ∷ 0 ∷ 0 ∷ 0 ∷ 2 ∷ 98 ∷ 99 ∷ [])
unfolding framed_field
framed_name = refl

abbrev one_file : RecordedState
one_file = record {
  staged = [];
  unstaged = [];
  untracked = record { path = codes "new"; mode = codes "100644"; content = codes "x" } ∷ [];
}

abbrev taken_stream : Result EncodingError Bytes → Bytes
taken_stream (ok b) = b
taken_stream _ = []

abbrev one_stream : Bytes
unfolding recorded_stream
one_stream = taken_stream (recorded_stream one_file)

is_stream : recorded_stream one_file ≡ ok one_stream
unfolding recorded_stream one_stream encode_untracked_record
is_stream = refl

recorded_stream-injective_example : one_file ≡ one_file
recorded_stream-injective_example =
    recorded_stream-injective one_file one_file one_stream is_stream is_stream
