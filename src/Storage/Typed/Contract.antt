-- ===== src/Storage/Typed/Contract.antt =====
-- What TypedAtomicStorage of storage/atomic_storage.go documents of ExecuteTransaction: the update is
-- called on the current values of the condition keys, and its result is written in one step.
use snet_daemon.Prelude.{Bool, true, Option, List, [], ◌∷◌, map, ◌≡◌, ◌≢◌, ◌⊎◌, if◌then◌else◌}
use snet_daemon.Effects.{ok}
use snet_daemon.Storage.Typed.{TypedKeyValueData, TypedCasRequest, TypedAtomicStorage}

module _ {K V : Type 0} (same : K → K → Bool) where
  -- The entries that an update is given for these keys.
  abbrev pub current : (K → Option V) → List K → List (TypedKeyValueData K V)
  current values keys = map (λ (k : K). record { key = k; value = values k }) keys

  -- The values after an update's entries have been written.
  abbrev pub written : List (TypedKeyValueData K V) → (K → Option V) → K → Option V
  written [] values k = values k
  written (d ∷ entries) values k = if same d.key k then d.value else written entries values k

  -- The update of the request was accepted and written.
  abbrev pub HasWritten : TypedCasRequest K V → (before after : K → Option V) → Type 0
  HasWritten request before after =
      (new : List (TypedKeyValueData K V)) × (request.update (current before request.condition_keys)
        ≡ ok (new, true))
      × (after ≡ written new before)

  pub record IsTransactional {S : Type 0} (storage : TypedAtomicStorage S K V)
      (values : S → K → Option V) : Type 0 where
    pub executed :
        (request : TypedCasRequest K V) (s : S)
        → (storage.execute_transaction request s).0 ≡ ok true
        → HasWritten request (values s) (values (storage.execute_transaction request s).1)
    -- After a failure, a write whose answer was lost may have been made.
    pub not_executed :
        (request : TypedCasRequest K V) (s : S)
        → (storage.execute_transaction request s).0 ≢ ok true
        → (values (storage.execute_transaction request s).1 ≡ values s)
          ⊎ HasWritten request (values s) (values (storage.execute_transaction request s).1)
