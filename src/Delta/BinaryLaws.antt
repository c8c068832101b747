-- ===== src/Delta/BinaryLaws.antt =====
-- src/patchharbor/snapshot_binary.py: a delta that is applied has the size that it names, within the
-- budget.
use mathlib.Core.Path.{subst, subst₂}
use mathlib.Core.List.{append-nil}
use patch_harbor.Base.{
  ap, ◌∙◌, ◌≢◌, ◌≡◌, sym, ℕ, suc, zero, ◌+◌, ◌≤◌, Bool, true, false, List, [], ◌∷◌, ◌++◌, leb,
  if◌then◌else◌, length, take, drop, length-drop, length-take, length-append, Result, ok, err,
  Result-cases, Bool-cases, Answers-answer, refl, arith, inl, inr,
}
use patch_harbor.Delta.Budget.{SnapshotError, invalid_patch, exhausted}
use patch_harbor.Delta.Binary.{Bytes, operands, or_default, slice, copy, instruct, has_bit}
use patch_harbor.Delta.Grammar.{
  Piece, sliced, inserted, Operands, Spelled, copied, literal, or_default-count,
  operands-AreOperands,
}

-- No operand gives back more bytes than there are, and none runs out of fuel.
pub record IsOperands (data_ : Bytes) (o : Result SnapshotError ((ℕ × ℕ) × Bytes)) : Type 0 where
  pub shorter : (r : (ℕ × ℕ) × Bytes) → o ≡ ok r → length r.1 ≤ length data_
  pub settled : o ≢ err exhausted

pub operands-IsOperands :
    (left bit instruction position count : ℕ) (data_ : Bytes)
    → IsOperands data_ (operands left bit instruction position count data_)
unfolding operands
operands-IsOperands zero bit i position count data_ = record {
  shorter = λ r is. ground (arith, is);
  settled = λ is. ground (arith, is);
}
operands-IsOperands (suc left) bit i position count [] =
    let others = operands-IsOperands left (suc bit) i position count [] in
    (elim (has_bit i bit)
      as (λ b.
        IsOperands []
          (if b then err invalid_patch else operands left (suc bit) i position count [])) [
            | true ↦ record {
              shorter = λ r is. ground (arith, is);
              settled = λ is. ground (arith, is);
            }
            | false ↦ others
          ])
operands-IsOperands (suc left) bit i position count (byte ∷ rest) =
    let others =
      operands-IsOperands left (suc bit) i _ _ (if has_bit i bit then rest else byte ∷ rest) in
    record {
      shorter = λ r is. omega (arith, others.shorter r is, shrink (has_bit i bit));
      settled = others.settled;
    }
  where
    shrink : (b : Bool) → length (if b then rest else byte ∷ rest) ≤ suc (length rest)
    shrink true = omega arith
    shrink false = omega arith

abbrev pub IsInside : Bytes → Piece → Type 0
IsInside original (sliced position count) = position + count ≤ length original
IsInside original (inserted bytes) = Unit

abbrev pub written : Bytes → List Piece → Bytes
written original [] = []
written original (sliced position count ∷ pieces) =
    take count (drop position original) ++ written original pieces
written original (inserted bytes ∷ pieces) = bytes ++ written original pieces

-- What one instruction does: it writes the piece that it spells, within the target, and reads on.
pub record IsStep (original : Bytes) (target : ℕ) (out : Bytes) (i : ℕ) (rest : Bytes)
    (step : Bytes × Bytes) : Type 0 where
  pub piece : Piece
  pub inside : IsInside original piece
  pub spelled : (pieces : List Piece) → Spelled step.1 pieces → Spelled (i ∷ rest) (piece ∷ pieces)
  pub result : step.0 ≡ out ++ written original (piece ∷ [])
  pub size : length step.0 ≤ target
  pub shorter : length step.1 ≤ length rest

length-slice :
    (position count : ℕ) (original : Bytes)
    → position + count ≤ length original
    → length (slice position count original) ≡ count
length-slice position count original fits =
    omega (arith, fits, length-take count (drop position original), length-drop position original)

copy-IsStep :
    (original : Bytes) (target : ℕ) (out : Bytes) (i : ℕ) (rest rest' : Bytes) (position count : ℕ)
    (o : Bytes)
    → copy original target out position count ≡ ok o
    → ((pieces : List Piece)
        → Spelled rest' pieces
        → Spelled (i ∷ rest) (sliced position count ∷ pieces))
    → length rest' ≤ length rest
    → IsStep original target out i rest (o, rest')
unfolding copy
copy-IsStep original target out i rest rest' position count o h spelled shorter =
    let inside : position + count ≤ length original = ground (arith, h) in
    let fits : length out + count ≤ target = ground (arith, h) in
    let is : o ≡ out ++ slice position count original = ground (arith, h) in
    record {
      piece = sliced position count;
      inside = inside;
      spelled = spelled;
      result = is ∙ ap (λ z. out ++ z) (sym (append-nil (slice position count original)));
      size = omega (
        arith,
        fits,
        ap length is,
        length-append out (slice position count original),
        length-slice position count original inside,
      );
      shorter = shorter;
    }

take-drop : (n : ℕ) (xs : Bytes) → xs ≡ take n xs ++ drop n xs
take-drop zero xs = refl
take-drop (suc n) [] = refl
take-drop (suc n) (x ∷ xs) = ap (λ ys. x ∷ ys) (take-drop n xs)

-- The instruction of a copy spells the slice with the operands that were read.
copied_pieces :
    (i : ℕ) (rest : Bytes) (o : (ℕ × ℕ) × Bytes)
    → 128 ≤ i
    → operands 7 0 i 0 0 rest ≡ ok o
    → (pieces : List Piece) → Spelled o.1 pieces
    → Spelled (i ∷ rest) (sliced o.0.0 (or_default o.0.1) ∷ pieces)
copied_pieces i rest o copies is pieces behind =
    let read =
      Answers-answer _ (operands 7 0 i 0 0 rest) o (operands-AreOperands 7 0 i 0 0 rest) is in
    copied copies
      (subst₂ (λ p c. Operands i 0 7 rest p c o.1)
        (sym (read.position_is ∙ no_more read.more_position))
        (sym (read.count_is ∙ no_more read.more_count)) read.spelled)
      (or_default-count o.0.1) behind
  where
    no_more : (n : ℕ) → 0 + n ≡ n
    no_more n = omega arith

pub instruct-IsStep :
    (original : Bytes) (target : ℕ) (out : Bytes) (instruction : ℕ) (rest : Bytes)
    (step : Bytes × Bytes)
    → instruct original target out instruction rest ≡ ok step
    → IsStep original target out instruction rest step
unfolding instruct
instruct-IsStep original target out i rest step h = elim (Bool-cases (leb 128 i)) [
  | inl copies ↦ elim (Result-cases (operands 7 0 i 0 0 rest)) [
    | inl (o, is) ↦ elim (Result-cases (copy original target out o.0.0 (or_default o.0.1))) [
      | inl (z, made) ↦
          subst (IsStep original target out i rest) {x = (z, o.1)}
            (ground (arith, h, copies, is, made))
            (copy-IsStep original target out i rest o.1 o.0.0 (or_default o.0.1) z made
              (copied_pieces i rest o (ground (arith, copies)) is)
              ((operands-IsOperands 7 0 i 0 0 rest).shorter o is))
      | inr (e, made) ↦ ground (arith, h, copies, is, made)
    ]
    | inr (e, is) ↦ ground (arith, h, copies, is)
  ]
  | inr inserts ↦
      let fits : (i ≤ length rest) × (length out + i ≤ target) = ground (arith, h, inserts) in
      subst (IsStep original target out i rest) {x = (out ++ take i rest, drop i rest)}
        (ground (arith, h, inserts))
        (record {
          piece = inserted (take i rest);
          inside = tt;
          spelled = λ pieces.
              literal (ground (arith, h, inserts)) (ground (arith, inserts))
                (omega (arith, fits.0, length-take i rest)) (take-drop i rest);
          result = ap (λ z. out ++ z) (sym (append-nil (take i rest)));
          size = omega (arith, fits.0, fits.1, length-append out (take i rest), length-take i rest);
          shorter = omega (arith, length-drop i rest);
        })
]
