-- ===== src/ExchangeState/Merge.antt =====
-- src/patchharbor/exchange_state.py: loading, and merging classifications into the ledger.
use patch_harbor.Base.{
  Bool, true, false, none, some, List, [], ◌∷◌, ◌++◌, if◌then◌else◌, Result, ok, err, string_eq,
  option_eq,
}
use patch_harbor.ExchangeState.Record.{
  ExchangeStateRecord, same_classification, identity_eq, selection_eq, apply_status_eq, record_eq,
}
use patch_harbor.ExchangeState.Snapshot.{record_for, snapshot}
use patch_harbor.ExchangeState.File.{
  Action, ◌>>=◌, ◌>>◌, pure, raise, valued, with_state_lock, load_unlocked, write_unlocked,
  StateError, invalid_value, conflicting_classification,
}

-- `load_exchange_state`
unfoldable pub load_exchange_state : Action (List ExchangeStateRecord)
unfolding with_state_lock load_unlocked
load_exchange_state = with_state_lock load_unlocked

-- The loop of `merge_exchange_classifications` over the candidates, with `by_identity` and `changed`.
unfoldable pub merge_loop :
    List ExchangeStateRecord
    → List ExchangeStateRecord
    → Bool
    → Result StateError (List ExchangeStateRecord × Bool)
unfolding record_for same_classification
merge_loop [] by_identity changed = ok (by_identity, changed)
merge_loop (c ∷ cs) by_identity changed = elim (record_for c.identity by_identity) [
  | none ↦ merge_loop cs (by_identity ++ c ∷ []) true
  | some existing ↦ elim (same_classification existing c) [
    | true ↦ merge_loop cs by_identity changed
    | false ↦ err conflicting_classification
  ]
]

unfoldable pub merged :
    Result StateError (List ExchangeStateRecord × Bool) → Action (List ExchangeStateRecord)
unfolding snapshot write_unlocked ◌>>=◌
merged (err e) = raise e
merged (ok (by_identity, changed)) = do
  next ← valued invalid_value (snapshot by_identity)
  if changed then write_unlocked next else pure tt
  pure next

-- `merge_exchange_classifications`
unfoldable pub merge_exchange_classifications :
    List ExchangeStateRecord → Action (List ExchangeStateRecord)
unfolding with_state_lock load_unlocked merge_loop merged ◌>>=◌
merge_exchange_classifications pending =
    with_state_lock do current ← load_unlocked; merged (merge_loop pending current false)
