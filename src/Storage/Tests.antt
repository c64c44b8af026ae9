-- ===== src/Storage/Tests.antt =====
-- Runs and instances of the storage theorems on the in-memory storage.
use snet_daemon.Prelude.{
  String, true, some, List, [], ◌∷◌, map, arith, ◌≡◌, ◌≢◌, str_eq, false, eq_iff, refl,
}
use snet_daemon.Prelude.Text.{trim_right_slash, diverge}
use snet_daemon.Effects.{ok}
use snet_daemon.Storage.Interface.{KeyValueData, CasRequest}
use snet_daemon.Storage.Dict.{lookup}
use snet_daemon.Storage.Contract.{IsKeyValueStorage}
use snet_daemon.Storage.Memory.{
  Data, MemoryStorageTransaction, memory_storage, execute_transaction, complete_transaction,
  complete_all, complete_one,
}
use snet_daemon.Storage.Memory.Contract.{values, memory-IsKeyValueStorage}
use snet_daemon.Storage.Memory.Transactions.{execute_writes, stale_key_kept}
use snet_daemon.Storage.Prefixed.{prefixed_storage, prefixed_request}
use snet_daemon.Storage.Prefixed.Contract.{
  prefixed-IsKeyValueStorage, isolation, shown, IsUntouched, entry_at, prefixed_request_lem,
}

abbrev table : Data
table = ("/a/x", "1") ∷ ("/b/x", "2") ∷ []

abbrev entry : String → String → KeyValueData
entry key value = record { key = key; value = value; present = true }

abbrev new_values : List KeyValueData
new_values = entry "/b/x" "3" ∷ entry "/b/y" "4" ∷ []

abbrev request : CasRequest
request = record {
  retry_till_success_or_error = true;
  update = λ old. ok (new_values, true);
  condition_keys = "/b/x" ∷ "/b/y" ∷ [];
}

execute_writes_example :
    execute_transaction request table
    ≡ (ok true, ("/a/x", "1") ∷ ("/b/x", "3") ∷ ("/b/y", "4") ∷ [])
execute_writes_example = execute_writes request new_values table ((refl, tt), (tt, tt)) refl

-- The value of /a/x was 0 when the transaction started, and is 1 now.
abbrev stale : MemoryStorageTransaction
stale = record { condition_values = entry "/a/x" "0" ∷ []; condition_keys = "/a/x" ∷ [] }

some_differ : (a b : String) → str_eq a b ≡ false → some a ≢ some b
some_differ a b differ e = ground (arith, e, differ, eq_iff a b)

stale_key_kept_example :
    lookup "/a/x" (complete_transaction stale (entry "/a/x" "5" ∷ []) table).1 ≡ some "1"
stale_key_kept_example =
    stale_key_kept stale (entry "/a/x" "5" ∷ []) table "/a/x"
      (λ is. (λ was e. some_differ "1" "0" refl e, λ was_not. absurd (ground (arith, was_not))), tt)

-- It returns true all the same.
lost_update : complete_transaction stale (entry "/a/x" "5" ∷ []) table ≡ (ok (true, stale), table)
unfolding complete_transaction complete_all complete_one
lost_update = refl

prefixed-IsKeyValueStorage_example :
    IsKeyValueStorage
      (prefixed_storage memory_storage "/a")
      (λ s. shown memory_storage "/a" values memory-IsKeyValueStorage (values s))
prefixed-IsKeyValueStorage_example =
    prefixed-IsKeyValueStorage memory_storage "/a" values memory-IsKeyValueStorage

abbrev UnderA : Data → Data → Type 0
UnderA = IsUntouched memory_storage "/a" values memory-IsKeyValueStorage "/b"

isolation_example :
    let storage = prefixed_storage memory_storage "/a" in
    ((storage.put "x" "9" table).0 ≡ ok tt → UnderA table (storage.put "x" "9" table).1)
    × ((storage.put_if_absent "x" "9" table).0 ≡ ok true
        → UnderA table (storage.put_if_absent "x" "9" table).1)
    × ((storage.compare_and_swap "x" "1" "9" table).0 ≡ ok true
        → UnderA table (storage.compare_and_swap "x" "1" "9" table).1)
    × ((storage.delete "x" table).0 ≡ ok tt → UnderA table (storage.delete "x" table).1)
unfolding diverge
isolation_example =
    isolation memory_storage "/a" values memory-IsKeyValueStorage "/b" "x" "1" "9" table refl

prefixed_request_lem_example :
    ((prefixed_request "/b" request).condition_keys ≡ "/b//b/x" ∷ "/b//b/y" ∷ [])
    × ((prefixed_request "/b" request).update
          (map (entry_at (values table)) ("/b//b/x" ∷ "/b//b/y" ∷ []))
        ≡ ok (entry "/b//b/x" "3" ∷ entry "/b//b/y" "4" ∷ [], true))
unfolding trim_right_slash
prefixed_request_lem_example = prefixed_request_lem "/b" request (values table) refl
