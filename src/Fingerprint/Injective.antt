-- ===== src/Fingerprint/Injective.antt =====
-- src/patchharbor/state_fingerprint.py: the stream of a state tells its records apart.
use mathlib.Core.List.{append-nil, append_assoc}
use patch_harbor.Base.{
  ap, ◌∙◌, ◌≡◌, refl, sym, List, [], ◌∷◌, ◌++◌, length, codes, arith, Result, ok, ◌>>=◌,
  Result-cases, inl, inr,
}
use patch_harbor.Fingerprint.Stream.{
  Bytes, EncodingError, StagedRecord, UnstagedRecord, UntrackedRecord, encode_staged_record,
  encode_unstaged_record, encode_untracked_record, staged_payloads, unstaged_payloads,
  staged_field_names, unstaged_field_names, untracked_field_names, to_bytes, framed_field,
  framed_fields, fingerprint_header, joined, counted, state_stream,
}
use patch_harbor.Fingerprint.Frames.{
  prefix-cancel, to_bytes-cancel, framed_field-cancel, framed_fields-cancel,
}

-- An encoder whose argument is read off the bytes that begin with its result.
pub IsReadable : {R : Type 0} → (R → Result EncodingError Bytes) → Type 0
IsReadable encode =
    (r s : _) (a b us vs : Bytes)
    → encode r ≡ ok a
    → encode s ≡ ok b
    → a ++ us ≡ b ++ vs
    → (r ≡ s) × (us ≡ vs)

pub encode_staged_record-IsReadable : IsReadable encode_staged_record
unfolding IsReadable encode_staged_record
encode_staged_record-IsReadable r s a b us vs is is' same =
    let parts =
      framed_fields-cancel staged_field_names (staged_payloads r) (staged_payloads s) a b us vs is
        is' same in
    (ground (arith, parts.0), parts.1)

pub encode_unstaged_record-IsReadable : IsReadable encode_unstaged_record
unfolding IsReadable encode_unstaged_record
encode_unstaged_record-IsReadable r s a b us vs is is' same =
    let parts =
      framed_fields-cancel unstaged_field_names (unstaged_payloads r) (unstaged_payloads s) a b us
        vs is is' same in
    (ground (arith, parts.0), parts.1)

encode_untracked_record-shape :
    (r : UntrackedRecord) (a : Bytes)
    → encode_untracked_record r ≡ ok a
    → (size : Bytes) × (framed_fields untracked_field_names
          (r.path ∷ r.mode ∷ size ∷ r.content ∷ [])
        ≡ ok a)
unfolding encode_untracked_record
encode_untracked_record-shape r a h = elim (Result-cases (to_bytes (length r.content))) [
  | inl (size, is) ↦ (size, ground (arith, h, is))
  | inr (e, is) ↦ ground (arith, h, is)
]

pub encode_untracked_record-IsReadable : IsReadable encode_untracked_record
unfolding IsReadable
encode_untracked_record-IsReadable r s a b us vs is is' same =
    let (m, shape) = encode_untracked_record-shape r a is in
    let (n, shape') = encode_untracked_record-shape s b is' in
    let parts =
      framed_fields-cancel untracked_field_names (r.path ∷ r.mode ∷ m ∷ r.content ∷ [])
        (s.path ∷ s.mode ∷ n ∷ s.content ∷ []) a b us vs shape shape' same in
    (ground (arith, parts.0), parts.1)

-- The records of one group, each encoded.
abbrev pub encode_all :
    {R : Type 0} → (R → Result EncodingError Bytes) → List R → Result EncodingError (List Bytes)
encode_all encode [] = ok []
encode_all encode (r ∷ rs) = do first ← encode r; rest ← encode_all encode rs; ok (first ∷ rest)

module _ {R : Type 0} (encode : R → Result EncodingError Bytes) (readable : IsReadable encode) where
  encode_all-shape :
      (r : R) (rs : List R) (bs : List Bytes)
      → encode_all encode (r ∷ rs) ≡ ok bs
      → (first : Bytes) × ((rest : List Bytes) × ((encode r ≡ ok first)
            × ((encode_all encode rs ≡ ok rest) × (bs ≡ first ∷ rest))))
  encode_all-shape r rs bs h = elim (Result-cases (encode r)) [
    | inl (f, is) ↦ elim (Result-cases (encode_all encode rs)) [
      | inl (x, are) ↦ (f, (x, (is, (are, ground (arith, h, is, are)))))
      | inr (e, are) ↦ ground (arith, h, is, are)
    ]
    | inr (e, is) ↦ ground (arith, h, is)
  ]

  -- As many records es their number says are read off.
  joined-cancel :
      (rs ss : List R) (es bs : List Bytes) (us vs : Bytes)
      → encode_all encode rs ≡ ok es
      → encode_all encode ss ≡ ok bs
      → length es ≡ length bs
      → joined es ++ us ≡ joined bs ++ vs
      → (rs ≡ ss) × (us ≡ vs)
  unfolding joined IsReadable
  joined-cancel [] [] es bs us vs is is' size same = (refl, ground (arith, is, is', same))
  joined-cancel [] (s ∷ ss) es bs us vs is is' size same =
      let (f, (x, (_, (_, shape)))) = encode_all-shape s ss bs is' in
      ground (arith, is, shape, size)
  joined-cancel (r ∷ rs) [] es bs us vs is is' size same =
      let (f, (x, (_, (_, shape)))) = encode_all-shape r rs es is in
      ground (arith, is', shape, size)
  joined-cancel (r ∷ rs) (s ∷ ss) es bs us vs is is' size same =
      let (f, (x, (fst, (snd, shape)))) = encode_all-shape r rs es is in
      let (g, (y, (fst', (snd', shape')))) = encode_all-shape s ss bs is' in
      let head = readable r s f g (joined x ++ us) (joined y ++ vs) fst fst' (
        sym (append_assoc f (joined x) us)
        ∙ (ap (λ z. joined z ++ us) (sym shape)
            ∙ (same ∙ (ap (λ z. joined z ++ vs) shape' ∙ append_assoc g (joined y) vs)))) in
      let tail =
        joined-cancel rs ss x y us vs snd snd' (ground (arith, size, shape, shape')) head.1 in
      (ground (arith, head.0, tail.0), tail.1)

  counted-shape :
      (name : Bytes) (es : List Bytes) (a : Bytes)
      → counted name es ≡ ok a
      → (size field : Bytes) × ((to_bytes (length es) ≡ ok size)
          × ((framed_field name size ≡ ok field) × (a ≡ field ++ joined es)))
  unfolding counted
  counted-shape name es a h = elim (Result-cases (to_bytes (length es))) [
    | inl (size, is) ↦ elim (Result-cases (framed_field name size)) [
      | inl (field, are) ↦ (size, field, (is, (are, ground (arith, h, is, are))))
      | inr (e, are) ↦ ground (arith, h, is, are)
    ]
    | inr (e, is) ↦ ground (arith, h, is)
  ]

  -- A group is read off the bytes that begin with it.
  counted-cancel :
      (name : Bytes) (rs ss : List R) (es bs : List Bytes) (a b us vs : Bytes)
      → encode_all encode rs ≡ ok es
      → encode_all encode ss ≡ ok bs
      → counted name es ≡ ok a
      → counted name bs ≡ ok b
      → a ++ us ≡ b ++ vs
      → (rs ≡ ss) × (us ≡ vs)
  counted-cancel name rs ss es bs a b us vs are are' is is' same =
      let (m, f, (sized, (framed, shape))) = counted-shape name es a is in
      let (n, g, (sized', (framed', shape'))) = counted-shape name bs b is' in
      let field =
        framed_field-cancel name m n f g (joined es ++ us) (joined bs ++ vs) framed framed' (
          sym (append_assoc f (joined es) us)
          ∙ (ap (λ z. z ++ us) (sym shape)
              ∙ (same ∙ (ap (λ z. z ++ vs) shape' ∙ append_assoc g (joined bs) vs)))) in
      let number =
        to_bytes-cancel (length es) (length bs) m n [] [] sized sized'
          (ap (λ z. z ++ []) field.0) in
      joined-cancel rs ss es bs us vs are are' number.0 field.1

state_stream-shape :
    (es fs gs : List Bytes) (s : Bytes)
    → state_stream es fs gs ≡ ok s
    → (a b c : Bytes) × ((counted (codes "staged-count") es ≡ ok a)
        × ((counted (codes "unstaged-count") fs ≡ ok b)
            × ((counted (codes "untracked-count") gs ≡ ok c)
                × (s ≡ fingerprint_header ++ (a ++ (b ++ c))))))
unfolding state_stream
state_stream-shape es fs gs s h = elim (Result-cases (counted (codes "staged-count") es)) [
  | inl (a, isa) ↦ elim (Result-cases (counted (codes "unstaged-count") fs)) [
    | inl (b, isb) ↦ elim (Result-cases (counted (codes "untracked-count") gs)) [
      | inl (c, isc) ↦ (a, b, c, (isa, (isb, (isc, ground (arith, h, isa, isb, isc)))))
      | inr (e, isc) ↦ ground (arith, h, isa, isb, isc)
    ]
    | inr (e, isb) ↦ ground (arith, h, isa, isb)
  ]
  | inr (e, isa) ↦ ground (arith, h, isa)
]

stream-cancel :
    (a b c a' b' c' : Bytes)
    → fingerprint_header ++ (a ++ (b ++ c)) ≡ fingerprint_header ++ (a' ++ (b' ++ c'))
    → a ++ (b ++ (c ++ [])) ≡ a' ++ (b' ++ (c' ++ []))
stream-cancel a b c a' b' c' same =
    ap (λ z. a ++ (b ++ z)) (append-nil c)
    ∙ (prefix-cancel fingerprint_header (a ++ (b ++ c)) (a' ++ (b' ++ c')) same
        ∙ sym (ap (λ z. a' ++ (b' ++ z)) (append-nil c')))

-- The records of a repository's state.
pub record RecordedState : Type 0 where
  pub staged : List StagedRecord
  pub unstaged : List UnstagedRecord
  pub untracked : List UntrackedRecord

-- The stream of encoded records.
unfoldable pub recorded_stream : RecordedState → Result EncodingError Bytes
unfolding state_stream
recorded_stream r = do
  staged ← encode_all encode_staged_record r.staged
  unstaged ← encode_all encode_unstaged_record r.unstaged
  untracked ← encode_all encode_untracked_record r.untracked
  state_stream staged unstaged untracked

record IsStream (r : RecordedState) (stream : Bytes) : Type 0 where
  staged : List Bytes
  unstaged : List Bytes
  untracked : List Bytes
  is_staged : encode_all encode_staged_record r.staged ≡ ok staged
  is_unstaged : encode_all encode_unstaged_record r.unstaged ≡ ok unstaged
  is_untracked : encode_all encode_untracked_record r.untracked ≡ ok untracked
  is_stream : state_stream staged unstaged untracked ≡ ok stream

recorded_stream-IsStream :
    (r : RecordedState) (stream : Bytes) → recorded_stream r ≡ ok stream → IsStream r stream
unfolding recorded_stream
recorded_stream-IsStream r stream h =
    elim (Result-cases (encode_all encode_staged_record r.staged)) [
      | inl (a, isa) ↦ elim (Result-cases (encode_all encode_unstaged_record r.unstaged)) [
        | inl (b, isb) ↦ elim (Result-cases (encode_all encode_untracked_record r.untracked)) [
          | inl (c, isc) ↦ record {
            staged = a;
            unstaged = b;
            untracked = c;
            is_staged = isa;
            is_unstaged = isb;
            is_untracked = isc;
            is_stream = ground (arith, h, isa, isb, isc);
          }
          | inr (e, isc) ↦ ground (arith, h, isa, isb, isc)
        ]
        | inr (e, isb) ↦ ground (arith, h, isa, isb)
      ]
      | inr (e, isa) ↦ ground (arith, h, isa)
    ]

-- Two states with one stream have the same records in the same order: no record, field or group can
-- pass for another, and what changes a recorded byte changes what is hashed.
pub recorded_stream-injective :
    (r s : RecordedState) (stream : Bytes)
    → recorded_stream r ≡ ok stream
    → recorded_stream s ≡ ok stream
    → r ≡ s
recorded_stream-injective r s stream is is' =
    let p = recorded_stream-IsStream r stream is in
    let q = recorded_stream-IsStream s stream is' in
    let (a, b, c, (isa, (isb, (isc, shape)))) =
      state_stream-shape p.staged p.unstaged p.untracked stream p.is_stream in
    let (a', b', c', (isa', (isb', (isc', shape')))) =
      state_stream-shape q.staged q.unstaged q.untracked stream q.is_stream in
    let first =
      counted-cancel encode_staged_record encode_staged_record-IsReadable (codes "staged-count")
        r.staged s.staged p.staged q.staged a a' (b ++ (c ++ [])) (b' ++ (c' ++ [])) p.is_staged
        q.is_staged isa isa' (stream-cancel a b c a' b' c' (sym shape ∙ shape')) in
    let second =
      counted-cancel encode_unstaged_record encode_unstaged_record-IsReadable
        (codes "unstaged-count") r.unstaged s.unstaged p.unstaged q.unstaged b b' (c ++ [])
        (c' ++ []) p.is_unstaged q.is_unstaged isb isb' first.1 in
    let third =
      counted-cancel encode_untracked_record encode_untracked_record-IsReadable
        (codes "untracked-count") r.untracked s.untracked p.untracked q.untracked c c' [] []
        p.is_untracked q.is_untracked isc isc' second.1 in
    ground (arith, first.0, second.0, third.0)
