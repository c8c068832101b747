-- ===== src/ExchangeState/Sorted.antt =====
-- src/patchharbor/exchange_state.py: sorting the records of a snapshot keeps what it says.
use patch_harbor.Base.{◌≡◌, refl, true, false, none, List, [], ◌∷◌, arith, if◌then◌else◌, All}
use patch_harbor.ExchangeState.Record.{ExchangeFileIdentity, ExchangeStateRecord, identity_eq}
use patch_harbor.ExchangeState.Snapshot.{record_for, has_distinct_identities}
use patch_harbor.ExchangeState.Print.{sort_records, insert_sorted, key_before_or_equal}

All-insert_sorted {κ} :
    (P : ExchangeStateRecord → Type κ) (r : ExchangeStateRecord) (rs : List ExchangeStateRecord)
    → P r
    → All P rs
    → All P (insert_sorted r rs)
unfolding insert_sorted
All-insert_sorted P r [] h hs = (h, tt)
All-insert_sorted P r (s ∷ rs) h hs =
    elim (key_before_or_equal r s)
      as (λ b. All P (if b then r ∷ s ∷ rs else s ∷ insert_sorted r rs)) [
        | true ↦ (h, hs)
        | false ↦ (hs.0, All-insert_sorted P r rs h hs.1)
      ]

pub All-sort_records {κ} :
    (P : ExchangeStateRecord → Type κ) (rs : List ExchangeStateRecord)
    → All P rs
    → All P (sort_records rs)
unfolding sort_records
All-sort_records P [] hs = tt
All-sort_records P (r ∷ rs) hs =
    All-insert_sorted P r (sort_records rs) hs.0 (All-sort_records P rs hs.1)

record_for-insert_sorted :
    (i : ExchangeFileIdentity) (r : ExchangeStateRecord) (rs : List ExchangeStateRecord)
    → record_for r.identity rs ≡ none
    → record_for i (insert_sorted r rs) ≡ record_for i (r ∷ rs)
unfolding record_for insert_sorted
record_for-insert_sorted i r [] h = refl
record_for-insert_sorted i r (s ∷ rs) h = ground (arith, record_for-insert_sorted i r rs)

has_distinct_identities-insert_sorted :
    (r : ExchangeStateRecord) (rs : List ExchangeStateRecord)
    → record_for r.identity rs ≡ none
    → has_distinct_identities (insert_sorted r rs) ≡ has_distinct_identities rs
unfolding record_for insert_sorted has_distinct_identities
has_distinct_identities-insert_sorted r [] h = refl
has_distinct_identities-insert_sorted r (s ∷ rs) h =
    ground
      (arith, has_distinct_identities-insert_sorted r rs, record_for-insert_sorted s.identity r rs)

pub distinct-cons :
    (r : ExchangeStateRecord) (rs : List ExchangeStateRecord)
    → has_distinct_identities (r ∷ rs) ≡ true
    → (record_for r.identity rs ≡ none) × (has_distinct_identities rs ≡ true)
unfolding has_distinct_identities
distinct-cons r rs h = ground arith

-- At every identity a snapshot and its sorted records agree.
pub record_for-sort_records :
    (i : ExchangeFileIdentity) (rs : List ExchangeStateRecord)
    → has_distinct_identities rs ≡ true
    → record_for i (sort_records rs) ≡ record_for i rs
unfolding sort_records record_for
record_for-sort_records i [] h = refl
record_for-sort_records i (r ∷ rs) h = ground (
  arith,
  distinct-cons r rs h,
  record_for-sort_records r.identity rs,
  record_for-sort_records i rs,
  record_for-insert_sorted i r (sort_records rs),
)

pub has_distinct_identities-sort_records :
    (rs : List ExchangeStateRecord)
    → has_distinct_identities rs ≡ true
    → has_distinct_identities (sort_records rs) ≡ true
unfolding sort_records
has_distinct_identities-sort_records [] h = h
has_distinct_identities-sort_records (r ∷ rs) h = ground (
  arith,
  distinct-cons r rs h,
  has_distinct_identities-sort_records rs,
  record_for-sort_records r.identity rs,
  has_distinct_identities-insert_sorted r (sort_records rs),
)
