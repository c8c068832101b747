-- ===== src/ExchangeState/Snapshot.antt =====
-- src/patchharbor/exchange_state.py: `ExchangeStateSnapshot`, a list of records.
use patch_harbor.Base.{
  Bool, true, false, Option, none, some, List, [], ◌∷◌, if◌then◌else◌, Result, ok, err, ◌==◌,
  string_eq,
}
use patch_harbor.Models.{ValueError, value_error}
use patch_harbor.ExchangeState.Record.{ExchangeFileIdentity, ExchangeStateRecord, identity_eq}

-- `record_for`
unfoldable pub record_for :
    ExchangeFileIdentity → List ExchangeStateRecord → Option ExchangeStateRecord
record_for identity [] = none
record_for identity (r ∷ rs) = if r.identity == identity then some r else record_for identity rs

unfoldable pub has_distinct_identities : List ExchangeStateRecord → Bool
unfolding record_for
has_distinct_identities [] = true
has_distinct_identities (r ∷ rs) = elim (record_for r.identity rs) [
  | none ↦ has_distinct_identities rs
  | some _ ↦ false
]

-- `ExchangeStateSnapshot.__post_init__`
unfoldable pub snapshot : List ExchangeStateRecord → Result ValueError (List ExchangeStateRecord)
unfolding has_distinct_identities
snapshot records = if has_distinct_identities records then ok records else err value_error
