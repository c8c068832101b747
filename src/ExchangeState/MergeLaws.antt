-- ===== src/ExchangeState/MergeLaws.antt =====
-- src/patchharbor/exchange_state.py: what `merge_exchange_classifications` leaves in the ledger.
use mathlib.Core.Option.{or_else}
use mathlib.Core.Path.{subst, subst⁻¹}
use patch_harbor.Base.{
  ◌≡◌, refl, ap, sym, ◌∙◌, Bool, true, false, Option, none, some, List, [], ◌∷◌, ◌++◌, arith,
  if◌then◌else◌, All, Result, ok, err, Bool-cases, Option-cases, inl, inr, ◌==◌,
}
use patch_harbor.ExchangeState.Record.{
  ExchangeFileIdentity, ExchangeStateRecord, identity_eq, same_classification,
}
use patch_harbor.ExchangeState.Snapshot.{record_for, has_distinct_identities, snapshot}
use patch_harbor.ExchangeState.Sorted.{record_for-sort_records}
use patch_harbor.ExchangeState.RoundTrip.{IsStorable}
use patch_harbor.ExchangeState.File.{Disk, StateError, ◌>>=◌, load_unlocked, write_unlocked}
use patch_harbor.ExchangeState.Holds.{
  Holds, Runs, Runs-raise, Runs-bind, Runs-pure, Runs-with_state_lock, load_unlocked-Runs,
  write_unlocked-Runs,
}
use patch_harbor.ExchangeState.Merge.{merge_loop, merged, merge_exchange_classifications}

record_for-append :
    (i : ExchangeFileIdentity) (rs : List ExchangeStateRecord) (c : ExchangeStateRecord)
    → record_for i (rs ++ c ∷ [])
      ≡ or_else (record_for i rs) (if c.identity == i then some c else none)
unfolding record_for or_else
record_for-append i [] c = refl
record_for-append i (r ∷ rs) c = ground (arith, record_for-append i rs c)

distinct-append :
    (rs : List ExchangeStateRecord) (c : ExchangeStateRecord)
    → has_distinct_identities rs ≡ true
    → record_for c.identity rs ≡ none
    → has_distinct_identities (rs ++ c ∷ []) ≡ true
unfolding record_for has_distinct_identities or_else
distinct-append [] c h fresh = refl
distinct-append (r ∷ rs) c h fresh =
    ground (arith, distinct-append rs c, record_for-append r.identity rs c)

All-append {κ} :
    (P : ExchangeStateRecord → Type κ) (rs : List ExchangeStateRecord) (c : ExchangeStateRecord)
    → All P rs
    → P c
    → All P (rs ++ c ∷ [])
All-append P [] c hs h = (h, tt)
All-append P (r ∷ rs) c hs h = (hs.0, All-append P rs c hs.1 h)

-- What the loop does to its dictionary.
record Merged (pending acc : List ExchangeStateRecord) (changed : Bool)
    (o : List ExchangeStateRecord × Bool) : Type 0 where
  lookup :
      (i : ExchangeFileIdentity)
      → record_for i o.0 ≡ or_else (record_for i acc) (record_for i pending)
  distinct : has_distinct_identities o.0 ≡ true
  storable : All IsStorable o.0
  unchanged : o.1 ≡ false → (o.0 ≡ acc) × (changed ≡ false)

or_else-none {ℓ} : {A : Type ℓ} (o : Option A) → o ≡ or_else o none
unfolding or_else
or_else-none none = refl
or_else-none (some a) = refl

lookup-fresh :
    (i : ExchangeFileIdentity) (acc cs : List ExchangeStateRecord) (c : ExchangeStateRecord)
    → or_else (record_for i (acc ++ c ∷ [])) (record_for i cs)
      ≡ or_else (record_for i acc) (record_for i (c ∷ cs))
unfolding record_for or_else
lookup-fresh i acc cs c = ground (arith, record_for-append i acc c)

lookup-old :
    (i : ExchangeFileIdentity) (acc cs : List ExchangeStateRecord) (c r : ExchangeStateRecord)
    → record_for c.identity acc ≡ some r
    → or_else (record_for i acc) (record_for i cs)
      ≡ or_else (record_for i acc) (record_for i (c ∷ cs))
unfolding record_for or_else
lookup-old i acc cs c r old = ground arith

merge_loop-Merged :
    (pending acc : List ExchangeStateRecord) (changed : Bool) (o : List ExchangeStateRecord × Bool)
    → merge_loop pending acc changed ≡ ok o
    → has_distinct_identities acc ≡ true
    → All IsStorable acc
    → All IsStorable pending
    → Merged pending acc changed o
unfolding merge_loop
merge_loop-Merged [] acc changed o e distinct storable storable' =
    let here : (acc, changed) ≡ o = cc in
    subst (Merged [] acc changed) here (record {
      lookup = λ i. unfold record_for in or_else-none (record_for i acc);
      distinct = distinct;
      storable = storable;
      unchanged = λ h. (refl, h);
    })
merge_loop-Merged (c ∷ cs) acc changed o e distinct storable storable' =
    elim (Option-cases (record_for c.identity acc)) [
      | inl fresh ↦
          let ih =
            merge_loop-Merged cs (acc ++ c ∷ []) true o (rw (fresh, merge_loop) at e)
              (distinct-append acc c distinct fresh)
              (All-append IsStorable acc c storable storable'.0) storable'.1 in
          record {
            lookup = λ i. ih.lookup i ∙ lookup-fresh i acc cs c;
            distinct = ih.distinct;
            storable = ih.storable;
            unchanged = λ h. cc (ih.unchanged h).1;
          }
      | inr (r, old) ↦ elim (Bool-cases (same_classification r c)) [
        | inl same ↦
            let ih =
              merge_loop-Merged cs acc changed o (rw (old, same, merge_loop) at e) distinct storable
                storable'.1 in
            record {
              lookup = λ i. ih.lookup i ∙ lookup-old i acc cs c r old;
              distinct = ih.distinct;
              storable = ih.storable;
              unchanged = ih.unchanged;
            }
        | inr differs ↦ cc (rw (old, differs, merge_loop) at e)
      ]
    ]

-- The ledger after a merge, and the snapshot that the merge returns: at each identity the record that
-- was there, or the first candidate if there was none.
pub record Merges (pending s returned after : List ExchangeStateRecord) : Type 0 where
  pub stored :
      (i : ExchangeFileIdentity)
      → record_for i after ≡ or_else (record_for i s) (record_for i pending)
  pub answered : (i : ExchangeFileIdentity) → record_for i returned ≡ record_for i after

module _ (pending s : List ExchangeStateRecord) where
  merged-Runs :
      (o : Result StateError (List ExchangeStateRecord × Bool)) (d : Disk)
      → merge_loop pending s false ≡ o
      → Holds d s
      → All IsStorable pending
      → Runs (Merges pending s) s (merged o d)
  unfolding merged snapshot ◌>>=◌
  merged-Runs (err e) d eq h storable = Runs-raise e d h
  merged-Runs (ok (rs, true)) d eq h storable =
      let m = merge_loop-Merged pending s false _ eq h.distinct h.storable storable in
      rw m.distinct (
        Runs-pure _ (Merges pending s) s (write_unlocked rs) (λ _. rs) d
          (write_unlocked-Runs s rs d m.storable m.distinct h)
          (λ _ t e. record {
            stored = λ i.
                subst⁻¹
                  (λ (t : List ExchangeStateRecord).
                    record_for i t ≡ or_else (record_for i s) (record_for i pending))
                  e (record_for-sort_records i rs m.distinct ∙ m.lookup i);
            answered = λ i. sym (ap (record_for i) e ∙ record_for-sort_records i rs m.distinct);
          }))
  merged-Runs (ok (rs, false)) d eq h storable =
      let m = merge_loop-Merged pending s false _ eq h.distinct h.storable storable in
      rw m.distinct (record {
        after = s;
        holds = h;
        settles = record {
          stored = λ i. ap (record_for i) (sym (m.unchanged refl).0) ∙ m.lookup i;
          answered = λ i. ap (record_for i) (m.unchanged refl).0;
        };
      })

  -- From storable records with distinct identities, a merge of storable candidates either raises and
  -- leaves the ledger's records as they were, or leaves storable records with distinct identities in
  -- which each identity has the record that it had, its apply status included, or, if it had none,
  -- the first candidate of that identity; the returned snapshot has the same records.
  pub merge_exchange_classifications-Runs :
      (d : Disk)
      → Holds d s
      → All IsStorable pending
      → Runs (Merges pending s) s (merge_exchange_classifications pending d)
  unfolding merge_exchange_classifications
  merge_exchange_classifications-Runs d h storable =
      Runs-with_state_lock (Merges pending s) s _ d h (
        Runs-bind (Merges pending s) s (λ a. a ≡ s) load_unlocked _ d (load_unlocked-Runs s d h)
          (λ a d' e h'.
            merged-Runs _ d'
              (ap (λ (x : List ExchangeStateRecord). merge_loop pending x false) (sym e)) h'
              storable))
