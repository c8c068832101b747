-- ===== src/Delta/Loop.antt =====
-- src/patchharbor/snapshot_binary.py: the loops of a binary delta end, and write pieces.
use mathlib.Core.List.{append-nil, append_assoc}
use patch_harbor.Base.{
  ap, ◌∙◌, ◌≢◌, ◌≡◌, sym, ℕ, suc, zero, ◌+◌, ◌≤◌, ◌*◌, ◌%◌, ◌^◌, List, [], ◌∷◌, ◌++◌, leb, length,
  All, ok, err, Result-cases, Bool-cases, arith, inl, inr,
}
use patch_harbor.Delta.Budget.{exhausted}
use patch_harbor.Delta.Binary.{
  Bytes, last_byte, integer_loop, delta_integer, operands, or_default, copy, instruct, delta_loop,
}
use patch_harbor.Delta.Grammar.{Piece, Spelled, no_instruction}
use patch_harbor.Delta.BinaryLaws.{IsInside, written, IsStep, instruct-IsStep, operands-IsOperands}

-- The pieces that the instructions spell, each inside the source, follow what was written before.
pub record Built (original before data_ out : Bytes) : Type 0 where
  pub pieces : List Piece
  pub spelled : Spelled data_ pieces
  pub inside : All (IsInside original) pieces
  pub result : out ≡ before ++ written original pieces

written-cons :
    (original : Bytes) (p : Piece) (ps : List Piece)
    → written original (p ∷ ps) ≡ written original (p ∷ []) ++ written original ps
written-cons original (Piece.sliced position count) ps =
    ap (λ z. z ++ written original ps) (sym (append-nil _))
written-cons original (Piece.inserted bytes) ps =
    ap (λ z. z ++ written original ps) (sym (append-nil bytes))

Built-step :
    (original : Bytes) (target : ℕ) (before : Bytes) (i : ℕ) (rest out : Bytes)
    (step : Bytes × Bytes)
    → IsStep original target before i rest step
    → Built original step.0 step.1 out
    → Built original before (i ∷ rest) out
Built-step original target before i rest out step s b = record {
  pieces = s.piece ∷ b.pieces;
  spelled = s.spelled b.pieces b.spelled;
  inside = (s.inside, b.inside);
  result =
      b.result
      ∙ (ap (λ z. z ++ written original b.pieces) s.result
          ∙ (append_assoc before (written original (s.piece ∷ [])) (written original b.pieces)
              ∙ ap (λ z. before ++ z) (sym (written-cons original s.piece b.pieces))));
}

pub delta_loop-Built :
    (fuel : ℕ) (original : Bytes) (target : ℕ) (before data_ out : Bytes)
    → delta_loop fuel original target before data_ ≡ ok out
    → Built original before data_ out
unfolding delta_loop
delta_loop-Built fuel original target before [] out h = record {
  pieces = [];
  spelled = no_instruction;
  inside = tt;
  result = ground (arith, h, append-nil before);
}
delta_loop-Built zero original target before (i ∷ rest) out h = ground (arith, h)
delta_loop-Built (suc fuel) original target before (i ∷ rest) out h =
    elim (Result-cases (instruct original target before i rest)) [
      | inl (step, is) ↦
          Built-step original target before i rest out step
            (instruct-IsStep original target before i rest step is)
            (delta_loop-Built fuel original target step.0 step.1 out (ground (arith, h, is)))
      | inr (e, is) ↦ ground (arith, h, is)
    ]

copy-settled :
    (original : Bytes) (target : ℕ) (out : Bytes) (position count : ℕ)
    → copy original target out position count ≢ err exhausted
unfolding copy
copy-settled original target out position count is = ground (arith, is)

instruct-settled :
    (original : Bytes) (target : ℕ) (out : Bytes) (i : ℕ) (rest : Bytes)
    → instruct original target out i rest ≢ err exhausted
unfolding instruct
instruct-settled original target out i rest h = elim (Bool-cases (leb 128 i)) [
  | inl copies ↦ elim (Result-cases (operands 7 0 i 0 0 rest)) [
    | inl (o, is) ↦ elim (Result-cases (copy original target out o.0.0 (or_default o.0.1))) [
      | inl (z, made) ↦ ground (arith, h, copies, is, made)
      | inr (e, made) ↦
          ground
            (arith, h, copies, is, made, copy-settled original target out o.0.0 (or_default o.0.1))
    ]
    | inr (e, is) ↦ ground (arith, h, copies, is, (operands-IsOperands 7 0 i 0 0 rest).settled)
  ]
  | inr inserts ↦ ground (arith, h, inserts)
]

pub delta_loop-settled :
    (fuel : ℕ) (original : Bytes) (target : ℕ) (out data_ : Bytes)
    → length data_ ≤ fuel
    → delta_loop fuel original target out data_ ≢ err exhausted
unfolding delta_loop
delta_loop-settled fuel original target out [] enough h = ground (arith, h)
delta_loop-settled zero original target out (i ∷ rest) enough h = omega (arith, enough)
delta_loop-settled (suc fuel) original target out (i ∷ rest) enough h =
    elim (Result-cases (instruct original target out i rest)) [
      | inl (step, is) ↦
          let s = instruct-IsStep original target out i rest step is in
          delta_loop-settled fuel original target step.0 step.1 (omega (arith, enough, s.shorter))
            (ground (arith, h, is))
      | inr (e, is) ↦ ground (arith, h, is, instruct-settled original target out i rest)
    ]

integer_loop-settled :
    (rounds shift value : ℕ) (data_ : Bytes) → integer_loop rounds shift value data_ ≢ err exhausted
unfolding integer_loop last_byte
integer_loop-settled zero shift value data_ h = ground (arith, h)
integer_loop-settled (suc rounds) shift value [] h = ground (arith, h)
integer_loop-settled (suc rounds) shift value (byte ∷ rest) h =
    ground (arith, h, integer_loop-settled rounds (shift + 7) (value + byte % 128 * 2 ^ shift) rest)

pub delta_integer-settled : (data_ : Bytes) → delta_integer data_ ≢ err exhausted
unfolding delta_integer
delta_integer-settled data_ = integer_loop-settled 10 0 0 data_
