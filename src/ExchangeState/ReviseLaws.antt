-- ===== src/ExchangeState/ReviseLaws.antt =====
-- src/patchharbor/exchange_state.py: replacing the records that pass a test, and writing the result.
use mathlib.Core.Path.{subst, subst⁻¹}
use mathlib.Core.Option
use patch_harbor.Base.{
  ◌≡◌, refl, ap, ◌∙◌, Bool, true, false, some, List, [], ◌∷◌, arith, if◌then◌else◌, All, ok,
  Bool-cases, Result-cases, inl, inr,
}
use patch_harbor.ExchangeState.Record.{
  ExchangeFileIdentity, ExchangeStateRecord, identity_eq, checked,
}
use patch_harbor.ExchangeState.Snapshot.{record_for, has_distinct_identities, snapshot}
use patch_harbor.ExchangeState.Print.{sort_records}
use patch_harbor.ExchangeState.Sorted.{record_for-sort_records, distinct-cons}
use patch_harbor.ExchangeState.RoundTrip.{IsStorable}
use patch_harbor.ExchangeState.File.{Disk, ◌>>=◌, write_unlocked, invalid_value}
use patch_harbor.ExchangeState.Holds.{Holds, Runs, Runs-raise, Runs-weaken, write_unlocked-Runs}
use patch_harbor.ExchangeState.Attempt.{revise, write_revised}

abbrev pub Test : Type 0
Test = ExchangeStateRecord → Bool

abbrev pub Change : Type 0
Change = ExchangeStateRecord → ExchangeStateRecord

pub checked-eq-ok : (r r' : ExchangeStateRecord) → checked r ≡ ok r' → r ≡ r'
unfolding checked
checked-eq-ok r r' h = ground arith

-- One step of `revise`, taken apart.
record Revised (test : Test) (change : Change) (r : ExchangeStateRecord)
    (rs rs' : List ExchangeStateRecord) : Type 0 where
  tail : List ExchangeStateRecord
  here : rs' ≡ (if test r then change r else r) ∷ tail
  checks : test r ≡ true → checked (change r) ≡ ok (change r)
  rest : revise test change rs ≡ ok tail

revise-cons :
    (test : Test) (change : Change) (r : ExchangeStateRecord) (rs rs' : List ExchangeStateRecord)
    → revise test change (r ∷ rs) ≡ ok rs'
    → Revised test change r rs rs'
unfolding revise
revise-cons test change r rs rs' h = elim (Result-cases (revise test change rs)) [
  | inr (e, bad) ↦ absurd (ground arith)
  | inl (tail, good) ↦ elim (Bool-cases (test r)) [
    | inr skip ↦ record { tail = tail; here = ground arith; checks = λ p. cc; rest = good }
    | inl hit ↦ elim (Result-cases (checked (change r))) [
      | inr (e, bad) ↦ absurd (ground arith)
      | inl (r', fine) ↦ record {
        tail = tail;
        here = ground (arith, checked-eq-ok (change r) r' fine);
        checks = λ p. cc (checked-eq-ok (change r) r' fine);
        rest = good;
      }
    ]
  ]
]

revise-nil :
    (test : Test) (change : Change) (rs' : List ExchangeStateRecord)
    → revise test change [] ≡ ok rs'
    → [] ≡ rs'
unfolding revise
revise-nil test change rs' h = cc

module _ (test : Test) (change : Change)
    (keeps : (r : ExchangeStateRecord) → (change r).identity ≡ r.identity) where
  pub record_for-revise :
      (i : ExchangeFileIdentity) (rs rs' : List ExchangeStateRecord)
      → revise test change rs ≡ ok rs'
      → record_for i rs' ≡ Option.map (λ r. if test r then change r else r) (record_for i rs)
  unfolding record_for
  record_for-revise i [] rs' h = rw (← revise-nil test change rs' h)
  record_for-revise i (r ∷ rs) rs' h =
      let v = revise-cons test change r rs rs' h in
      rw v.here (ground (arith, keeps r, record_for-revise i rs v.tail v.rest))

  pub has_distinct_identities-revise :
      (rs rs' : List ExchangeStateRecord)
      → revise test change rs ≡ ok rs'
      → has_distinct_identities rs ≡ true
      → has_distinct_identities rs' ≡ true
  unfolding has_distinct_identities
  has_distinct_identities-revise [] rs' h d = rw (← revise-nil test change rs' h)
  has_distinct_identities-revise (r ∷ rs) rs' h d =
      let v = revise-cons test change r rs rs' h in
      rw v.here (
        ground (
          arith,
          keeps r,
          distinct-cons r rs d,
          record_for-revise r.identity rs v.tail v.rest,
          has_distinct_identities-revise rs v.tail v.rest,
        ))

  head-IsStorable :
      (r : ExchangeStateRecord) (b : Bool)
      → ((b ≡ true) → checked (change r) ≡ ok (change r) → IsStorable r → IsStorable (change r))
      → IsStorable r
      → (b ≡ true → checked (change r) ≡ ok (change r))
      → IsStorable (if b then change r else r)
  head-IsStorable r true s h c = s refl (c refl) h
  head-IsStorable r false s h c = h

  pub All-revise :
      (rs rs' : List ExchangeStateRecord)
      → revise test change rs ≡ ok rs'
      → ((r : ExchangeStateRecord)
          → test r ≡ true
          → checked (change r) ≡ ok (change r)
          → IsStorable r
          → IsStorable (change r))
      → All IsStorable rs
      → All IsStorable rs'
  All-revise [] rs' h s all = subst (All IsStorable) (revise-nil test change rs' h) tt
  All-revise (r ∷ rs) rs' h s all =
      let v = revise-cons test change r rs rs' h in
      subst⁻¹ (All IsStorable) v.here
        (head-IsStorable r (test r) (s r) all.0 v.checks, All-revise rs v.tail v.rest s all.1)

pub record_for-identity :
    (i : ExchangeFileIdentity) (rs : List ExchangeStateRecord) (r : ExchangeStateRecord)
    → record_for i rs ≡ some r
    → r.identity ≡ i
unfolding record_for
record_for-identity i [] r h = cc
record_for-identity i (s ∷ rs) r h = ground (arith, record_for-identity i rs r)

-- Each record that passes the test has become its change, and every other is as it was.
abbrev pub Changes :
    Test → Change → List ExchangeStateRecord → Unit {0} → List ExchangeStateRecord → Type 0
Changes test change s _ t =
    (i : ExchangeFileIdentity)
    → record_for i t ≡ Option.map (λ r. if test r then change r else r) (record_for i s)

module _ (test : Test) (change : Change) (s : List ExchangeStateRecord)
    (keeps : (r : ExchangeStateRecord) → (change r).identity ≡ r.identity)
    (stores : (r : ExchangeStateRecord)
      → test r ≡ true
      → checked (change r) ≡ ok (change r)
      → IsStorable r
      → IsStorable (change r)) where
  pub write_revised-Runs :
      (d : Disk) → Holds d s → Runs (Changes test change s) s (write_revised test change s d)
  unfolding write_revised snapshot ◌>>=◌
  write_revised-Runs d h = elim (Result-cases (revise test change s)) [
    | inr (e, bad) ↦ rw bad (Runs-raise invalid_value d h)
    | inl (rs, good) ↦
        let distinct = has_distinct_identities-revise test change keeps s rs good h.distinct in
        rw (good, distinct)
          (Runs-weaken (λ _ t. t ≡ sort_records rs) (Changes test change s) s (write_unlocked rs d)
            (write_unlocked-Runs s rs d (All-revise test change keeps s rs good stores h.storable)
              distinct h)
            (λ _ t e i.
              ap (record_for i) e
              ∙ record_for-sort_records i rs distinct
              ∙ record_for-revise test change keeps i s rs good))
  ]
