-- ===== src/Tests/Delta.antt =====
-- Runs of binary deltas: src/patchharbor/snapshot_binary.py.
use patch_harbor.Base.{◌≡◌, refl, ◌++◌, [], ◌∷◌, ok, err, arith}
use patch_harbor.Delta.Budget.{SnapshotBudget, invalid_patch}
use patch_harbor.Delta.Binary.{Bytes, delta_integer, apply_delta}
use patch_harbor.Delta.Applied.{Applied, apply_delta-Applied, apply_delta-settled}
use patch_harbor.Delta.Integer.{encode_integer, delta_integer-encode_integer}
use patch_harbor.Delta.Budget.{exhausted}
use patch_harbor.Base.{◌≢◌}

abbrev original : Bytes
original = 1 ∷ 2 ∷ 3 ∷ 4 ∷ 5 ∷ []

-- A copy of three bytes from the second on, and one byte inserted.
abbrev delta : Bytes
delta = 5 ∷ 4 ∷ 145 ∷ 1 ∷ 3 ∷ 1 ∷ 9 ∷ []

abbrev budget : SnapshotBudget
budget = record { max_content_bytes = 10; max_zip_total_bytes = 100; allocated = 90 }

abbrev spent : SnapshotBudget
spent = record { max_content_bytes = 10; max_zip_total_bytes = 100; allocated = 94 }

applied_once : apply_delta delta original budget ≡ ok (2 ∷ 3 ∷ 4 ∷ 9 ∷ [], spent)
unfolding apply_delta
applied_once = refl

apply_delta-Applied_example : Applied delta original budget (2 ∷ 3 ∷ 4 ∷ 9 ∷ [], spent)
apply_delta-Applied_example =
    apply_delta-Applied delta original budget (2 ∷ 3 ∷ 4 ∷ 9 ∷ [], spent) applied_once

apply_delta-settled_example : apply_delta delta original budget ≢ err exhausted
apply_delta-settled_example = apply_delta-settled delta original budget

beyond_source : apply_delta (5 ∷ 4 ∷ 145 ∷ 3 ∷ 4 ∷ []) original budget ≡ err invalid_patch
unfolding apply_delta
beyond_source = refl

within_budget :
    apply_delta delta original spent ≡ ok (2 ∷ 3 ∷ 4 ∷ 9 ∷ [], record spent { allocated = 98 })
unfolding apply_delta
within_budget = refl

superfluous_zero : delta_integer (128 ∷ 0 ∷ []) ≡ err invalid_patch
unfolding delta_integer
superfluous_zero = refl

delta_integer-encode_integer_example :
    delta_integer (encode_integer 300 ++ 7 ∷ []) ≡ ok (300, 7 ∷ [])
delta_integer-encode_integer_example = delta_integer-encode_integer 300 (7 ∷ []) (omega arith)
