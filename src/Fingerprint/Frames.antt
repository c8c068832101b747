-- ===== src/Fingerprint/Frames.antt =====
-- src/patchharbor/state_fingerprint.py: a frame and a record are read off the bytes that they begin.
use mathlib.Core.List.{append_assoc}
use patch_harbor.Base.{
  ap, ◌∙◌, ℕ, ◌≡◌, refl, sym, suc, zero, ◌*◌, ◌/◌, ◌%◌, ◌^◌, ◌<◌, List, [], ◌∷◌, ◌++◌, length,
  length-append, arith, ok, Result-cases, inl, inr,
}
use patch_harbor.Fingerprint.Stream.{Bytes, big_endian, to_bytes, framed_field, framed_fields}

module _ {ℓ} {A : Type ℓ} where
  -- Two texts of one length that begin the same bytes are the same.
  pub append-cancel :
      (xs ys us vs : List A) → length xs ≡ length ys → xs ++ us ≡ ys ++ vs → (xs ≡ ys) × (us ≡ vs)
  append-cancel [] [] us vs size same = (refl, same)
  append-cancel [] (y ∷ ys) us vs size same = ground (arith, size)
  append-cancel (x ∷ xs) [] us vs size same = ground (arith, size)
  append-cancel (x ∷ xs) (y ∷ ys) us vs size same =
      let rest = append-cancel xs ys us vs (omega (arith, size)) (ground (arith, same)) in
      (ground (arith, same, rest.0), rest.1)

  pub prefix-cancel : (xs us vs : List A) → xs ++ us ≡ xs ++ vs → us ≡ vs
  prefix-cancel xs us vs same = (append-cancel xs xs us vs refl same).1

length-big_endian : (w n : ℕ) → length (big_endian w n) ≡ w
unfolding big_endian
length-big_endian zero n = refl
length-big_endian (suc w) n =
    length-append (big_endian w (n / 256)) (n % 256 ∷ [])
    ∙ omega (arith, length-big_endian w (n / 256))

-- The least number that `w` bytes cannot hold.
abbrev capacity : ℕ → ℕ
capacity zero = 1
capacity (suc w) = 256 * capacity w

big_endian-injective :
    (w a b : ℕ) → a < capacity w → b < capacity w → big_endian w a ≡ big_endian w b → a ≡ b
unfolding big_endian
big_endian-injective zero a b small small' same = omega (arith, small, small')
big_endian-injective (suc w) a b small small' same =
    let parts =
      append-cancel (big_endian w (a / 256)) (big_endian w (b / 256)) (a % 256 ∷ []) (b % 256 ∷ [])
        (length-big_endian w (a / 256) ∙ sym (length-big_endian w (b / 256))) same in
    let high =
      big_endian-injective w (a / 256) (b / 256) (omega (arith, small)) (omega (arith, small'))
        parts.0 in
    let low : a % 256 ≡ b % 256 = ground (arith, parts.1) in omega (arith, high, low)

to_bytes-fits : (n : ℕ) (b : Bytes) → to_bytes n ≡ ok b → (n < 2 ^ 64) × (b ≡ big_endian 8 n)
unfolding to_bytes
to_bytes-fits n b h = ground arith

-- A number is read off its eight bytes.
pub to_bytes-cancel :
    (m n : ℕ) (a b us vs : Bytes)
    → to_bytes m ≡ ok a
    → to_bytes n ≡ ok b
    → a ++ us ≡ b ++ vs
    → (m ≡ n) × (us ≡ vs)
to_bytes-cancel m n a b us vs is is' same =
    let f = to_bytes-fits m a is in
    let g = to_bytes-fits n b is' in
    let parts =
      append-cancel a b us vs
        (ap length f.1
          ∙ (length-big_endian 8 m ∙ (sym (length-big_endian 8 n) ∙ sym (ap length g.1))))
        same in
    (big_endian-injective 8 m n f.0 g.0 (sym f.1 ∙ (parts.0 ∙ g.1)), parts.1)

framed_field-shape :
    (name payload b : Bytes)
    → framed_field name payload ≡ ok b
    → (size : Bytes) × ((to_bytes (length payload) ≡ ok size) × (b ≡ name ++ 0 ∷ (size ++ payload)))
unfolding framed_field
framed_field-shape name payload b h = elim (Result-cases (to_bytes (length payload))) [
  | inl (size, is) ↦ (size, (is, ground (arith, h, is)))
  | inr (e, is) ↦ ground (arith, h, is)
]

-- The payload of a frame is read off the bytes that begin with the frame.
pub framed_field-cancel :
    (name p q a b us vs : Bytes)
    → framed_field name p ≡ ok a
    → framed_field name q ≡ ok b
    → a ++ us ≡ b ++ vs
    → (p ≡ q) × (us ≡ vs)
framed_field-cancel name p q a b us vs is is' same =
    let (m, (sized, shape)) = framed_field-shape name p a is in
    let (n, (sized', shape')) = framed_field-shape name q b is' in
    let whole : name ++ 0 ∷ (m ++ (p ++ us)) ≡ name ++ 0 ∷ (n ++ (q ++ vs)) =
      spread name m p us
      ∙ (ap (λ z. z ++ us) (sym shape)
          ∙ (same ∙ (ap (λ z. z ++ vs) shape' ∙ sym (spread name n q vs)))) in
    let behind : m ++ (p ++ us) ≡ n ++ (q ++ vs) =
      ground (arith, prefix-cancel name (0 ∷ (m ++ (p ++ us))) (0 ∷ (n ++ (q ++ vs))) whole) in
    let sizes = to_bytes-cancel (length p) (length q) m n (p ++ us) (q ++ vs) sized sized' behind in
    append-cancel p q us vs sizes.0 sizes.1
  where
    spread : (name m p us : Bytes) → name ++ 0 ∷ (m ++ (p ++ us)) ≡ (name ++ 0 ∷ (m ++ p)) ++ us
    spread name m p us =
        ap (λ z. name ++ 0 ∷ z) (sym (append_assoc m p us))
        ∙ sym (append_assoc name (0 ∷ (m ++ p)) us)

framed_fields-shape :
    (n : Bytes) (ns : List Bytes) (p : Bytes) (ps : List Bytes) (b : Bytes)
    → framed_fields (n ∷ ns) (p ∷ ps) ≡ ok b
    → (f x : Bytes) × ((framed_field n p ≡ ok f) × ((framed_fields ns ps ≡ ok x) × (b ≡ f ++ x)))
unfolding framed_fields
framed_fields-shape n ns p ps b h = elim (Result-cases (framed_field n p)) [
  | inl (f, is) ↦ elim (Result-cases (framed_fields ns ps)) [
    | inl (x, are) ↦ (f, x, (is, (are, ground (arith, h, is, are))))
    | inr (e, are) ↦ ground (arith, h, is, are)
  ]
  | inr (e, is) ↦ ground (arith, h, is)
]

-- The payloads of all fields of a record are read off the bytes that begin with the record.
pub framed_fields-cancel :
    (names ps qs : List Bytes) (a b us vs : Bytes)
    → framed_fields names ps ≡ ok a
    → framed_fields names qs ≡ ok b
    → a ++ us ≡ b ++ vs
    → (ps ≡ qs) × (us ≡ vs)
unfolding framed_fields
framed_fields-cancel [] [] [] a b us vs is is' same = (refl, ground (arith, is, is', same))
framed_fields-cancel [] (p ∷ ps) _ a b us vs is is' same = ground (arith, is)
framed_fields-cancel [] [] (q ∷ qs) a b us vs is is' same = ground (arith, is')
framed_fields-cancel (n ∷ ns) [] _ a b us vs is is' same = ground (arith, is)
framed_fields-cancel (n ∷ ns) (p ∷ ps) [] a b us vs is is' same = ground (arith, is')
framed_fields-cancel (n ∷ ns) (p ∷ ps) (q ∷ qs) a b us vs is is' same =
    let (f, x, (fst, (snd, shape))) = framed_fields-shape n ns p ps a is in
    let (g, y, (fst', (snd', shape'))) = framed_fields-shape n ns q qs b is' in
    let head = framed_field-cancel n p q f g (x ++ us) (y ++ vs) fst fst' (
      sym (append_assoc f x us)
      ∙ (ap (λ z. z ++ us) (sym shape)
          ∙ (same ∙ (ap (λ z. z ++ vs) shape' ∙ append_assoc g y vs)))) in
    let tail = framed_fields-cancel ns ps qs x y us vs snd snd' head.1 in
    (ground (arith, head.0, tail.0), tail.1)
