-- ===== src/Zip/Modes.antt =====
-- src/patchharbor/payload_modes.py: the permission bits of a payload.
use patch_harbor.Base.{
  ℕ, ◌/◌, ◌%◌, ◌^◌, ◌≤◌, ◌≡◌, Bool, false, ◌||◌, not, Option, none, some, ◌=ℕ◌, leb, arith, Result,
  ok, ◌>>=◌, ◌>>◌, require, Result-cases, inl, inr,
}
use patch_harbor.Models.{ValueError, value_error}

-- `mode & 2 ** k`
abbrev pub has_bit : ℕ → ℕ → Bool
has_bit k mode = mode / (2 ^ k) % 2 =ℕ 1

abbrev pub default_payload_mode : ℕ
default_payload_mode = 420

-- `mode & 0o7000`: setuid, setgid and sticky
unfoldable pub has_special_bits : ℕ → Bool
has_special_bits mode = has_bit 9 mode || has_bit 10 mode || has_bit 11 mode

-- `mode & (0o7000 | 0o022)`
unfoldable pub has_forbidden_bits : ℕ → Bool
unfolding has_special_bits
has_forbidden_bits mode = has_special_bits mode || has_bit 1 mode || has_bit 4 mode

-- `validate_existing_payload_mode`; the upper bound is 0o7777.
unfoldable pub validate_existing_payload_mode : ℕ → Result ValueError ℕ
unfolding has_special_bits
validate_existing_payload_mode mode = do
  require (leb mode 4095) value_error
  require (not (has_special_bits mode)) value_error
  ok mode

-- `validate_payload_mode`
unfoldable pub validate_payload_mode : ℕ → Result ValueError ℕ
unfolding validate_existing_payload_mode has_forbidden_bits
validate_payload_mode mode = do
  _ ← validate_existing_payload_mode mode
  require (not (has_forbidden_bits mode)) value_error
  ok mode

unfoldable pub bundled_mode : Option ℕ → Result ValueError ℕ
unfolding validate_payload_mode
bundled_mode none = ok default_payload_mode
bundled_mode (some requested) = validate_payload_mode requested

unfoldable pub preserved_mode : ℕ → Option ℕ → Result ValueError ℕ
unfolding validate_existing_payload_mode
preserved_mode bundled none = ok bundled
preserved_mode bundled (some existing) = validate_existing_payload_mode existing

-- `select_payload_mode`
unfoldable pub select_payload_mode : Option ℕ → Option ℕ → Result ValueError ℕ
unfolding bundled_mode preserved_mode
select_payload_mode requested existing = do
  bundled ← bundled_mode requested
  preserved_mode bundled existing

-- The bits of a plain mode: read, write and execute for owner, group and others.
abbrev pub IsPlain : ℕ → Type 0
IsPlain mode = mode ≤ 511

-- A mode that a file may be given: no write for group or others.
abbrev pub IsPrivate : ℕ → Type 0
IsPrivate mode = IsPlain mode × (has_bit 1 mode ≡ false) × (has_bit 4 mode ≡ false)

existing-IsPlain :
    (mode m : ℕ) → validate_existing_payload_mode mode ≡ ok m → (m ≡ mode) × IsPlain m
unfolding validate_existing_payload_mode has_special_bits
existing-IsPlain mode m h = ground arith

pub validate_payload_mode-IsPrivate :
    (mode m : ℕ) → validate_payload_mode mode ≡ ok m → (m ≡ mode) × IsPrivate m
unfolding validate_payload_mode validate_existing_payload_mode has_forbidden_bits has_special_bits
validate_payload_mode-IsPrivate mode m h = ground arith

bundled-IsPrivate : (requested : Option ℕ) (m : ℕ) → bundled_mode requested ≡ ok m → IsPrivate m
unfolding bundled_mode
bundled-IsPrivate none m h = ground arith
bundled-IsPrivate (some r) m h = ground (arith, validate_payload_mode-IsPrivate r m h)

abbrev pub IsGranted : Option ℕ → Type 0
IsGranted none = Unit
IsGranted (some requested) = IsPrivate requested

abbrev pub requested_or_default : Option ℕ → ℕ
requested_or_default none = default_payload_mode
requested_or_default (some requested) = requested

abbrev pub IsChosen : Option ℕ → Option ℕ → ℕ → Type 0
IsChosen requested none m = (m ≡ requested_or_default requested) × IsPrivate m
IsChosen requested (some existing) m = (m ≡ existing) × IsPlain m

-- A selected mode has none of the special bits. If the target does not exist it is the requested mode,
-- or the default, and has no write bit for group or others; if it does, it is the mode that the target
-- has. Either way a requested mode with a special bit, or a write bit for group or others, is refused.
pub select_payload_mode-IsChosen :
    (requested existing : Option ℕ) (m : ℕ)
    → select_payload_mode requested existing ≡ ok m
    → IsGranted requested × IsChosen requested existing m
unfolding select_payload_mode preserved_mode bundled_mode
select_payload_mode-IsChosen none none m h = ground arith
select_payload_mode-IsChosen none (some e) m h = ground (arith, existing-IsPlain e m)
select_payload_mode-IsChosen (some r) none m h = ground (arith, validate_payload_mode-IsPrivate r m)
select_payload_mode-IsChosen (some r) (some e) m h = elim (Result-cases (validate_payload_mode r)) [
  | inl (b, is) ↦
      ground (arith, validate_payload_mode-IsPrivate r b is, existing-IsPlain e m, h, is)
  | inr (x, is) ↦ ground (arith, h, is)
]
