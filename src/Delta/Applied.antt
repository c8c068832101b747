-- ===== src/Delta/Applied.antt =====
-- src/patchharbor/snapshot_binary.py, apply_delta: the loop ends, and what it gives is built from the
-- source and the delta.
use mathlib.Core.Path.{subst, subst⁻¹}
use patch_harbor.Base.{
  ap, ◌∙◌, ◌≢◌, ◌≡◌, sym, ℕ, [], ◌=ℕ◌, length, Result, ok, err, ◌>>=◌, require, Result-cases,
  Bool-cases, arith, inl, inr,
}
use patch_harbor.Delta.Budget.{
  SnapshotError, invalid_patch, exhausted, SnapshotBudget, require_size, require_file, take_size,
  Taken, take_size-Taken,
}
use patch_harbor.Delta.Binary.{
  Bytes, delta_integer, delta_loop, close_delta, apply_sized, apply_delta,
}
use patch_harbor.Delta.Loop.{delta_loop-Built, delta_loop-settled, delta_integer-settled, Built}

-- A delta that was applied.
pub record Applied (data_ original : Bytes) (b : SnapshotBudget) (r : Bytes × SnapshotBudget)
    : Type 0 where
  pub behind_source : Bytes
  pub behind_target : Bytes
  pub source_size : delta_integer data_ ≡ ok (length original, behind_source)
  pub target_size : delta_integer behind_source ≡ ok (length r.0, behind_target)
  pub built : Built original [] behind_target r.0
  pub taken : Taken (length r.0) b r.1

close_delta-shape :
    (target : ℕ) (b : SnapshotBudget) (out : Bytes) (r : Bytes × SnapshotBudget)
    → close_delta target b out ≡ ok r
    → (length out ≡ target) × (Taken target b r.1 × (r ≡ (out, r.1)))
unfolding close_delta
close_delta-shape target b out r h = elim (Result-cases (take_size target b)) [
  | inl (after, took) ↦
      let same : after ≡ r.1 = ground (arith, h, took) in
      (
        ground (arith, h),
        (
          subst (Taken target b) same (take_size-Taken target b after took),
          ground (arith, h, took),
        ),
      )
  | inr (e, took) ↦ ground (arith, h, took)
]

-- What the sizes and the instructions of a delta give.
record IsSized (target : ℕ) (data_ original : Bytes) (b : SnapshotBudget)
    (r : Bytes × SnapshotBudget) : Type 0 where
  size : length r.0 ≡ target
  built : Built original [] data_ r.0
  taken : Taken target b r.1

apply_sized-IsSized :
    (target : ℕ) (data_ original : Bytes) (b : SnapshotBudget) (r : Bytes × SnapshotBudget)
    → apply_sized target data_ original b ≡ ok r
    → IsSized target data_ original b r
unfolding apply_sized
apply_sized-IsSized target data_ original b r h = elim (Result-cases (require_size target b)) [
  | inr (e, fits) ↦ ground (arith, h, fits)
  | inl (u, fits) ↦ elim (Result-cases (delta_loop (length data_) original target [] data_)) [
    | inr (e, loop) ↦ ground (arith, h, fits, loop)
    | inl (out, loop) ↦
        let (size, (took, result)) =
          close_delta-shape target b out r (ground (arith, h, fits, loop)) in
        subst⁻¹ (IsSized target data_ original b) result (record {
          size = size;
          built = delta_loop-Built (length data_) original target [] data_ out loop;
          taken = took;
        })
  ]
]

apply_delta-sizes :
    (data_ original : Bytes) (b : SnapshotBudget) (source target : ℕ × Bytes)
    → delta_integer data_ ≡ ok source
    → delta_integer source.1 ≡ ok target
    → apply_delta data_ original b ≡ (
        require (source.0 =ℕ length original) invalid_patch
        >>= (λ _. apply_sized target.0 target.1 original b))
unfolding apply_delta
apply_delta-sizes data_ original b source target is has =
    ap
      (λ o. o >>= (λ s. delta_integer s.1 >>= (λ t.
        require (s.0 =ℕ length original) invalid_patch >>= (λ _. apply_sized t.0 t.1 original b))))
      is
    ∙ ap
        (λ o. o >>= (λ t.
          require (source.0 =ℕ length original) invalid_patch
          >>= (λ _. apply_sized t.0 t.1 original b)))
        has

require-passed :
    (m n : ℕ) {A : Type 0} (k : Result SnapshotError A) (a : A)
    → (require (m =ℕ n) invalid_patch >>= (λ _. k)) ≡ ok a
    → (m ≡ n) × (k ≡ ok a)
require-passed m n k a h = elim (Bool-cases (m =ℕ n)) [
  | inl same ↦ (ground (arith, same), ground (arith, h, same))
  | inr differ ↦ ground (arith, h, differ)
]

-- A delta that is applied names the size of the source and the size of what it gives. What it gives are
-- the pieces that the instructions behind the sizes spell, in their order: for each copy the slice of the
-- source at the position and of the count that its operands have, inside the source, and for each
-- insertion its own bytes. It is no larger than a file may be, and is counted in the budget, which is not
-- exceeded.
pub apply_delta-Applied :
    (data_ original : Bytes) (b : SnapshotBudget) (r : Bytes × SnapshotBudget)
    → apply_delta data_ original b ≡ ok r
    → Applied data_ original b r
unfolding apply_delta
apply_delta-Applied data_ original b r h = elim (Result-cases (delta_integer data_)) [
  | inr (e, is) ↦ ground (arith, h, is)
  | inl (source, is) ↦ elim (Result-cases (delta_integer source.1)) [
    | inr (e, has) ↦ ground (arith, h, is, has)
    | inl (target, has) ↦
        let (same, rest) =
          require-passed source.0 (length original) (apply_sized target.0 target.1 original b) r
            (sym (apply_delta-sizes data_ original b source target is has) ∙ h) in
        let sized = apply_sized-IsSized target.0 target.1 original b r rest in
        record {
          behind_source = source.1;
          behind_target = target.1;
          source_size = is ∙ ap (λ n. ok (n, source.1)) same;
          target_size = has ∙ ap (λ n. ok (n, target.1)) (sym sized.size);
          built = sized.built;
          taken = subst⁻¹ (λ n. Taken n b r.1) sized.size sized.taken;
        }
  ]
]

require_size-settled : (size : ℕ) (b : SnapshotBudget) → require_size size b ≢ err exhausted
unfolding require_size require_file
require_size-settled size b h = ground (arith, h)

take_size-settled : (size : ℕ) (b : SnapshotBudget) → take_size size b ≢ err exhausted
unfolding take_size require_size require_file
take_size-settled size b h = ground (arith, h)

close_delta-settled :
    (target : ℕ) (b : SnapshotBudget) (out : Bytes) → close_delta target b out ≢ err exhausted
unfolding close_delta
close_delta-settled target b out h = ground (arith, h, take_size-settled target b)

apply_sized-settled :
    (target : ℕ) (data_ original : Bytes) (b : SnapshotBudget)
    → apply_sized target data_ original b ≢ err exhausted
unfolding apply_sized
apply_sized-settled target data_ original b h = elim (Result-cases (require_size target b)) [
  | inr (e, fits) ↦ ground (arith, h, fits, require_size-settled target b)
  | inl (u, fits) ↦ elim (Result-cases (delta_loop (length data_) original target [] data_)) [
    | inr (e, loop) ↦ ground (
      arith,
      h,
      fits,
      loop,
      delta_loop-settled (length data_) original target [] data_ (omega arith),
    )
    | inl (out, loop) ↦ close_delta-settled target b out (ground (arith, h, fits, loop))
  ]
]

-- Whatever the delta, as many rounds of the loop as it has bytes are enough: applying it never ends for
-- want of fuel.
pub apply_delta-settled :
    (data_ original : Bytes) (b : SnapshotBudget) → apply_delta data_ original b ≢ err exhausted
unfolding apply_delta
apply_delta-settled data_ original b h = elim (Result-cases (delta_integer data_)) [
  | inr (e, is) ↦ ground (arith, h, is, delta_integer-settled data_)
  | inl (source, is) ↦ elim (Result-cases (delta_integer source.1)) [
    | inr (e, has) ↦ ground (arith, h, is, has, delta_integer-settled source.1)
    | inl (target, has) ↦
        ground (arith, h, is, has, apply_sized-settled target.0 target.1 original b)
  ]
]
