-- ===== src/Delta/Integer.antt =====
-- src/patchharbor/snapshot_binary.py, _integer: every number below 2 ^ 64 is read from its shortest
-- encoding.
use mathlib.Core.Path.{subst⁻¹}
use native.Mathlib.Nat.{pow-succ', mod-add-div', add-mul, mul_assoc}
use patch_harbor.Base.{
  ap, ◌∙◌, ◌≡◌, sym, ℕ, suc, zero, ◌+◌, ◌*◌, ◌/◌, ◌%◌, ◌^◌, ◌<◌, true, [], ◌∷◌, ◌++◌, ltb,
  if◌then◌else◌, ok, Bool-cases, arith, inl, inr,
}
use patch_harbor.Delta.Binary.{Bytes, last_byte, integer_loop, delta_integer}

-- Seven bits a byte, the lowest first, with the high bit on all bytes but the last.
unfoldable pub encode_loop : ℕ → ℕ → Bytes
encode_loop zero n = []
encode_loop (suc w) n =
    let more = encode_loop w (n / 128) in if ltb n 128 then n ∷ [] else (n % 128 + 128) ∷ more

unfoldable pub encode_integer : ℕ → Bytes
unfolding encode_loop
encode_integer n = encode_loop 10 n

-- The least number that `w` bytes do not hold.
abbrev capacity : ℕ → ℕ
capacity zero = 1
capacity (suc w) = 128 * capacity w

power-step : (a k : ℕ) → 2 ^ (a + suc k) ≡ 2 * 2 ^ (a + k)
power-step a k = ap (λ z. 2 ^ z) (omega arith) ∙ pow-succ' 2 (a + k)

power-seven : (shift : ℕ) → 2 ^ (shift + 7) ≡ 128 * 2 ^ shift
power-seven shift = omega (
  arith,
  power-step shift 6,
  power-step shift 5,
  power-step shift 4,
  power-step shift 3,
  power-step shift 2,
  power-step shift 1,
  power-step shift 0,
  ap (λ z. 2 ^ z) (no_more shift),
)
  where
    no_more : (n : ℕ) → n + 0 ≡ n
    no_more n = omega arith

split-low : (n p : ℕ) → n % 128 * p + n / 128 * (128 * p) ≡ n * p
split-low n p = sym (
    ap (λ z. z * p) (sym (mod-add-div' n 128))
    ∙ (add-mul (n % 128) (n / 128 * 128) p ∙ ap (λ z. n % 128 * p + z) (mul_assoc (n / 128) 128 p)))

integer_loop-encode_loop :
    (w shift value n : ℕ) (rest : Bytes)
    → 0 < w + n
    → n < capacity w
    → (ltb 0 shift ≡ true → 0 < n)
    → value + n * 2 ^ shift < 2 ^ 64
    → integer_loop w shift value (encode_loop w n ++ rest) ≡ ok (value + n * 2 ^ shift, rest)
unfolding integer_loop encode_loop last_byte
integer_loop-encode_loop zero shift value n rest some_ small canonical fits =
    ground (arith, some_, small)
integer_loop-encode_loop (suc w) shift value n rest some_ small canonical fits =
    elim (Bool-cases (ltb n 128)) [
      | inl short ↦ ground (arith, short, canonical, fits)
      | inr long ↦
          let low = value + n % 128 * 2 ^ shift in
          let sum : low + n / 128 * 2 ^ (shift + 7) ≡ value + n * 2 ^ shift =
            omega (arith, ap (λ z. n / 128 * z) (power-seven shift), split-low n (2 ^ shift)) in
          let rec =
            integer_loop-encode_loop w (shift + 7) low (n / 128) rest (ground (arith, long))
              (omega (arith, small)) (λ _. ground (arith, long))
              (subst⁻¹ (λ z. z < 2 ^ 64) sum fits) in
          ground (arith, long, rec, sum)
    ]

-- Every number below 2 ^ 64 is read back from its shortest encoding, and what follows the encoding is
-- left.
pub delta_integer-encode_integer :
    (n : ℕ) (rest : Bytes) → n < 2 ^ 64 → delta_integer (encode_integer n ++ rest) ≡ ok (n, rest)
unfolding delta_integer encode_integer
delta_integer-encode_integer n rest fits =
    integer_loop-encode_loop 10 0 0 n rest (omega arith) (omega (arith, fits))
      (λ h. ground (arith, h)) (omega (arith, fits))
    ∙ ap (λ z. ok (z, rest)) (omega arith)
