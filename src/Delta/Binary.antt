-- ===== src/Delta/Binary.antt =====
-- src/patchharbor/snapshot_binary.py: the integers and the instructions of a binary delta. A byte is a
-- number below 256, and an offset into the data is the data behind it.
use patch_harbor.Base.{
  ℕ, suc, zero, ◌+◌, ◌-◌, ◌*◌, ◌/◌, ◌%◌, ◌^◌, Bool, ◌&&◌, not, List, [], ◌∷◌, ◌++◌, ltb, leb, ◌=ℕ◌,
  if◌then◌else◌, length, take, drop, Result, ok, err, ◌>>=◌, ◌>>◌, require,
}
use patch_harbor.Delta.Budget.{
  SnapshotError, invalid_patch, exhausted, SnapshotBudget, require_size, take_size,
}

abbrev pub Bytes : Type 0
Bytes = List ℕ

-- A byte without the continuation bit ends an integer: it may not be a superfluous zero, and the value
-- must fit into 64 bits.
unfoldable pub last_byte : ℕ → ℕ → ℕ → Bytes → Result SnapshotError (ℕ × Bytes)
last_byte shift byte value rest = do
  require (not (ltb 0 shift && byte =ℕ 0)) invalid_patch
  require (ltb value (2 ^ 64)) invalid_patch
  ok (value, rest)

-- `for shift in range(0, 64, 7)`; the bits that `|=` adds are above those of the value.
unfoldable pub integer_loop : ℕ → ℕ → ℕ → Bytes → Result SnapshotError (ℕ × Bytes)
unfolding last_byte
integer_loop zero shift value data_ = err invalid_patch
integer_loop (suc rounds) shift value [] = err invalid_patch
integer_loop (suc rounds) shift value (byte ∷ rest) =
    let more = integer_loop rounds (shift + 7) (value + byte % 128 * 2 ^ shift) rest in
    if ltb byte 128 then last_byte shift byte (value + byte % 128 * 2 ^ shift) rest else more

-- `_integer`
unfoldable pub delta_integer : Bytes → Result SnapshotError (ℕ × Bytes)
unfolding integer_loop
delta_integer data_ = integer_loop 10 0 0 data_

-- `instruction & (1 << bit)`
abbrev pub has_bit : ℕ → ℕ → Bool
has_bit instruction bit = instruction / 2 ^ bit % 2 =ℕ 1

-- The operands of a copy, four bytes of position and three of count, each there if its bit is set.
unfoldable pub operands :
    (left bit instruction position count : ℕ) → Bytes → Result SnapshotError ((ℕ × ℕ) × Bytes)
operands zero bit instruction position count data_ = ok ((position, count), data_)
operands (suc left) bit instruction position count [] =
    let others = operands left (suc bit) instruction position count [] in
    if has_bit instruction bit then err invalid_patch else others
operands (suc left) bit instruction position count (byte ∷ rest) =
    operands left (suc bit) instruction
      (if has_bit instruction bit && ltb bit 4 then position + byte * 2 ^ (8 * bit) else position)
      (if has_bit instruction bit && leb 4 bit then count + byte * 2 ^ (8 * (bit - 4)) else count)
      (if has_bit instruction bit then rest else byte ∷ rest)

-- `count or 0x10000`
abbrev pub or_default : ℕ → ℕ
or_default count = if count =ℕ 0 then 65536 else count

-- `memoryview(original)[position:position + count]`
abbrev pub slice : ℕ → ℕ → Bytes → Bytes
slice position count original = take count (drop position original)

unfoldable pub copy :
    (original : Bytes) (target : ℕ) (out : Bytes) (position count : ℕ) → Result SnapshotError Bytes
copy original target out position count = do
  require (leb (position + count) (length original)) invalid_patch
  require (leb (length out + count) target) invalid_patch
  ok (out ++ slice position count original)

-- One instruction; `out` is what has been written.
unfoldable pub instruct :
    (original : Bytes) (target : ℕ) (out : Bytes) (instruction : ℕ)
    → Bytes
    → Result SnapshotError (Bytes × Bytes)
unfolding operands copy
instruct original target out instruction rest =
    if leb 128 instruction
    then operands 7 0 instruction 0 0 rest >>= (λ o.
      copy original target out o.0.0 (or_default o.0.1) >>= (λ written. ok (written, o.1)))
    else (if instruction =ℕ 0
        then err invalid_patch
        else require (leb instruction (length rest) && leb (length out + instruction) target)
            invalid_patch
          >>= (λ _. ok (out ++ take instruction rest, drop instruction rest)))

-- `while offset < len(data)`
unfoldable pub delta_loop :
    (fuel : ℕ) (original : Bytes) (target : ℕ) (out : Bytes) → Bytes → Result SnapshotError Bytes
unfolding instruct
delta_loop fuel original target out [] = ok out
delta_loop zero original target out (instruction ∷ rest) = err exhausted
delta_loop (suc fuel) original target out (instruction ∷ rest) =
    instruct original target out instruction rest
    >>= (λ step. delta_loop fuel original target step.0 step.1)

-- What follows the loop of `apply_delta`.
unfoldable pub close_delta :
    ℕ → SnapshotBudget → Bytes → Result SnapshotError (Bytes × SnapshotBudget)
unfolding take_size
close_delta target budget out = do
  require (length out =ℕ target) invalid_patch
  after ← take_size target budget
  ok (out, after)

-- `apply_delta` behind the check of the source's size; `data_` holds the instructions.
unfoldable pub apply_sized :
    (target : ℕ) (data_ original : Bytes)
    → SnapshotBudget
    → Result SnapshotError (Bytes × SnapshotBudget)
unfolding delta_loop require_size close_delta
apply_sized target data_ original budget = do
  require_size target budget
  out ← delta_loop (length data_) original target [] data_
  close_delta target budget out

-- `apply_delta`
unfoldable pub apply_delta :
    Bytes → Bytes → SnapshotBudget → Result SnapshotError (Bytes × SnapshotBudget)
unfolding delta_integer apply_sized
apply_delta data_ original budget = do
  source ← delta_integer data_
  target ← delta_integer source.1
  require (source.0 =ℕ length original) invalid_patch
  apply_sized target.0 target.1 original budget
