-- ===== src/Delta/Grammar.antt =====
-- The instructions of a binary delta, as the format of git has them, and the operands of a copy:
-- src/patchharbor/snapshot_binary.py.
use patch_harbor.Base.{
  ◌∙◌, ◌≢◌, ◌≡◌, ◌⊎◌, inl, inr, ℕ, suc, zero, ◌+◌, ◌-◌, ◌*◌, ◌/◌, ◌%◌, ◌^◌, ◌≤◌, ◌<◌, true, false,
  List, [], ◌∷◌, ◌++◌, ltb, leb, ◌=ℕ◌, length, Bool-cases, arith, Answers, Answers-implies,
}
use patch_harbor.Delta.Binary.{Bytes, has_bit, operands, or_default}

-- What an instruction writes: a slice of the source, or bytes of the delta.
pub data Piece : Type 0 where
  sliced : (position count : ℕ) → Piece
  inserted : Bytes → Piece

-- The operand bytes of a copy from a bit of the instruction on: each bit that is set stands for a byte,
-- of the position for the first four bits, of the count for the others.
pub data Operands (i : ℕ) : (bit left : ℕ) → Bytes → (position count : ℕ) → Bytes → Type 0 where
  no_bit : {bit : ℕ} {rest : Bytes} → Operands i bit 0 rest 0 0 rest
  absent :
      {bit left position count : ℕ} {data_ rest : Bytes}
      → i / 2 ^ bit % 2 ≢ 1
      → Operands i (suc bit) left data_ position count rest
      → Operands i bit (suc left) data_ position count rest
  of_position :
      {bit left position count byte : ℕ} {data_ rest : Bytes}
      → i / 2 ^ bit % 2 ≡ 1
      → bit < 4
      → Operands i (suc bit) left data_ position count rest
      → Operands i bit (suc left) (byte ∷ data_) (byte * 2 ^ (8 * bit) + position) count rest
  of_count :
      {bit left position count byte : ℕ} {data_ rest : Bytes}
      → i / 2 ^ bit % 2 ≡ 1
      → 4 ≤ bit
      → Operands i (suc bit) left data_ position count rest
      → Operands i bit (suc left) (byte ∷ data_) position (byte * 2 ^ (8 * (bit - 4)) + count) rest

-- The pieces that the instructions spell. A count of 0 stands for 65536.
pub data Spelled : Bytes → List Piece → Type 0 where
  no_instruction : Spelled [] []
  copied :
      {i position count n : ℕ} {operand_bytes rest : Bytes} {pieces : List Piece}
      → 128 ≤ i
      → Operands i 0 7 operand_bytes position count rest
      → ((count ≡ 0) × (n ≡ 65536)) ⊎ ((count ≢ 0) × (n ≡ count))
      → Spelled rest pieces
      → Spelled (i ∷ operand_bytes) (sliced position n ∷ pieces)
  literal :
      {i : ℕ} {behind bytes rest : Bytes} {pieces : List Piece}
      → 0 < i
      → i < 128
      → length bytes ≡ i
      → behind ≡ bytes ++ rest
      → Spelled rest pieces
      → Spelled (i ∷ behind) (inserted bytes ∷ pieces)

pub or_default-count :
    (count : ℕ)
    → ((count ≡ 0) × (or_default count ≡ 65536)) ⊎ ((count ≢ 0) × (or_default count ≡ count))
or_default-count count = elim (Bool-cases (count =ℕ 0)) [
  | inl none_given ↦ inl (ground (arith, none_given), ground (arith, none_given))
  | inr given ↦ inr ((λ h. ground (arith, given, h)), ground (arith, given))
]

-- The operands that were read add to what there was before.
pub record AreOperands (i bit left position count : ℕ) (data_ : Bytes) (r : (ℕ × ℕ) × Bytes)
    : Type 0 where
  pub more_position : ℕ
  pub more_count : ℕ
  pub spelled : Operands i bit left data_ more_position more_count r.1
  pub position_is : r.0.0 ≡ position + more_position
  pub count_is : r.0.1 ≡ count + more_count

has_bit-eq : (i bit : ℕ) → has_bit i bit ≡ true → i / 2 ^ bit % 2 ≡ 1
has_bit-eq i bit h = eq_true (i / 2 ^ bit % 2) h
  where
    eq_true : (n : ℕ) → n =ℕ 1 ≡ true → n ≡ 1
    eq_true n h = ground (arith, h)

has_bit-ne : (i bit : ℕ) → has_bit i bit ≡ false → i / 2 ^ bit % 2 ≢ 1
has_bit-ne i bit h = ne_false (i / 2 ^ bit % 2) h
  where
    ne_false : (n : ℕ) → n =ℕ 1 ≡ false → n ≢ 1
    ne_false n h e = ground (arith, h, e)

shift : (a b c : ℕ) → a + b + c ≡ a + (b + c)
shift a b c = omega arith

skip_bit :
    (i bit left position count : ℕ) (data_ : Bytes) (r : (ℕ × ℕ) × Bytes)
    → i / 2 ^ bit % 2 ≢ 1
    → AreOperands i (suc bit) left position count data_ r
    → AreOperands i bit (suc left) position count data_ r
skip_bit i bit left position count data_ r clear h = record {
  more_position = h.more_position;
  more_count = h.more_count;
  spelled = absent clear h.spelled;
  position_is = h.position_is;
  count_is = h.count_is;
}

pub operands-AreOperands :
    (left bit i position count : ℕ) (data_ : Bytes)
    → Answers
        (AreOperands i bit left position count data_)
        (operands left bit i position count data_)
unfolding operands
operands-AreOperands zero bit i position count data_ = record {
  more_position = 0;
  more_count = 0;
  spelled = no_bit;
  position_is = omega arith;
  count_is = omega arith;
}
operands-AreOperands (suc left) bit i position count [] = elim (Bool-cases (has_bit i bit)) [
  | inl set ↦ rw (set, operands) tt
  | inr clear ↦
      rw (clear, operands)
        (Answers-implies (AreOperands i (suc bit) left position count [])
          (AreOperands i bit (suc left) position count [])
          (operands left (suc bit) i position count [])
          (operands-AreOperands left (suc bit) i position count [])
          (λ r. skip_bit i bit left position count [] r (has_bit-ne i bit clear)))
]
operands-AreOperands (suc left) bit i position count (byte ∷ rest) =
    elim (Bool-cases (has_bit i bit)) [
      | inr clear ↦
          rw (clear, operands)
            (Answers-implies (AreOperands i (suc bit) left position count (byte ∷ rest))
              (AreOperands i bit (suc left) position count (byte ∷ rest))
              (operands left (suc bit) i position count (byte ∷ rest))
              (operands-AreOperands left (suc bit) i position count (byte ∷ rest))
              (λ r. skip_bit i bit left position count (byte ∷ rest) r (has_bit-ne i bit clear)))
      | inl set ↦ elim (Bool-cases (ltb bit 4)) [
        | inl low ↦
            let is_low : bit < 4 = ground (arith, low) in
            let not_high : leb 4 bit ≡ false = ground (arith, low) in
            rw (set, low, not_high, operands)
              (Answers-implies
                (AreOperands i (suc bit) left (position + byte * 2 ^ (8 * bit)) count rest)
                (AreOperands i bit (suc left) position count (byte ∷ rest))
                (operands left (suc bit) i (position + byte * 2 ^ (8 * bit)) count rest)
                (operands-AreOperands left (suc bit) i (position + byte * 2 ^ (8 * bit)) count rest)
                λ r h. record {
                  more_position = byte * 2 ^ (8 * bit) + h.more_position;
                  more_count = h.more_count;
                  spelled = of_position (has_bit-eq i bit set) is_low h.spelled;
                  position_is =
                      h.position_is ∙ shift position (byte * 2 ^ (8 * bit)) h.more_position;
                  count_is = h.count_is;
                })
        | inr high ↦
            let is_high : 4 ≤ bit = ground (arith, high) in
            let high_test : leb 4 bit ≡ true = ground (arith, high) in
            rw (set, high, high_test, operands)
              (Answers-implies
                (AreOperands i (suc bit) left position (count + byte * 2 ^ (8 * (bit - 4))) rest)
                (AreOperands i bit (suc left) position count (byte ∷ rest))
                (operands left (suc bit) i position (count + byte * 2 ^ (8 * (bit - 4))) rest)
                (operands-AreOperands left (suc bit) i position (count + byte * 2 ^ (8 * (bit - 4)))
                  rest)
                λ r h. record {
                  more_position = h.more_position;
                  more_count = byte * 2 ^ (8 * (bit - 4)) + h.more_count;
                  spelled = of_count (has_bit-eq i bit set) is_high h.spelled;
                  position_is = h.position_is;
                  count_is = h.count_is ∙ shift count (byte * 2 ^ (8 * (bit - 4))) h.more_count;
                })
      ]
    ]
