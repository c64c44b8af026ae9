-- ===== src/Storage/Memory.antt =====
-- storage/memory_storage.go: the in-memory AtomicStorage. Each method that takes the mutex is one
-- step; StartTransaction, CompleteTransaction and ExecuteTransaction take it once for each key, and
-- run here with no other client in between unless a theorem puts one there.
pub mod Contract
pub mod Transactions
use snet_daemon.Prelude.{
  ℕ, zero, suc, String, Bool, true, false, not, Option, none, some, List, [], ◌∷◌, map, str_eq,
  starts_with, if◌then◌else◌,
}
use snet_daemon.Effects.{Result, ok, Action, pure, lift, ◌>>=◌}
use snet_daemon.Storage.Interface.{KeyValueData, UpdateFunc, CasRequest, AtomicStorage}
use snet_daemon.Storage.Dict.{Dict, lookup, insert, erase}

-- The field `data`.
abbrev pub Data : Type 0
Data = Dict String

pub record MemoryStorageTransaction : Type 0 where
  pub condition_values : List KeyValueData
  pub condition_keys : List String

unfoldable pub get : String → Action Data (Option String)
get key s = (ok (lookup key s), s)

values_with_prefix : String → Data → List String
values_with_prefix prefix [] = []
values_with_prefix prefix ((key, value) ∷ m) =
    let rest = values_with_prefix prefix m in if starts_with key prefix then value ∷ rest else rest

-- Go's iteration order over a map is not specified; here it is the order of the entries.
unfoldable pub get_by_key_prefix : String → Action Data (List String)
unfolding values_with_prefix
get_by_key_prefix prefix s = (ok (values_with_prefix prefix s), s)

unfoldable pub put : String → String → Action Data (Unit {0})
put key value s = (ok tt, insert key value s)

unfoldable pub put_if_absent : String → String → Action Data Bool
put_if_absent key value s = elim (lookup key s) [
  | some _ ↦ (ok false, s)
  | none ↦ (ok true, insert key value s)
]

unfoldable pub compare_and_swap : String → String → String → Action Data Bool
compare_and_swap key prev new s = elim (lookup key s) [
  | none ↦ (ok false, s)
  | some current ↦ if not (str_eq current prev) then (ok false, s) else (ok true, insert key new s)
]

unfoldable pub delete : String → Action Data (Unit {0})
delete key s = (ok tt, erase key s)

unfoldable pub clear : Action Data (Unit {0})
clear s = (ok tt, [])

abbrev snapshot : Data → String → KeyValueData
snapshot s key = elim (lookup key s) [
  | none ↦ record { key = key; value = ""; present = false }
  | some value ↦ record { key = key; value = value; present = true }
]

unfoldable pub start_transaction : List String → Action Data MemoryStorageTransaction
start_transaction keys s =
    (ok (record { condition_values = map (snapshot s) keys; condition_keys = keys }), s)

unfoldable pub get_condition_values : MemoryStorageTransaction → Result (List KeyValueData)
get_condition_values t = ok t.condition_values

abbrev pub get_value_data_for_key : String → List KeyValueData → Option KeyValueData
get_value_data_for_key key [] = none
get_value_data_for_key key (d ∷ update) =
    if str_eq d.key key then some d else get_value_data_for_key key update

-- One round of the loop of CompleteTransaction. `false` ends the loop with ok == false.
unfoldable pub complete_one : KeyValueData → List KeyValueData → Action Data Bool
unfolding get put put_if_absent
complete_one old update s =
    if old.present
    then elim (lookup old.key s) [
      | none ↦ (ok false, s)
      | some current ↦
          if str_eq current old.value
          then elim (get_value_data_for_key old.key update) [
            | some d ↦ (ok true, insert d.key d.value s)
            | none ↦ (ok true, s)
          ]
          else (ok true, s)
    ]
    else elim (get_value_data_for_key old.key update) [
      | some d ↦ put_if_absent d.key d.value s
      | none ↦ (ok true, s)
    ]

unfoldable pub complete_all : List KeyValueData → List KeyValueData → Action Data Bool
complete_all [] update = pure true
complete_all (old ∷ rest) update = do
  go_on ← complete_one old update
  elim go_on [ true ↦ complete_all rest update | false ↦ pure false ]

unfoldable pub complete_transaction :
    MemoryStorageTransaction → List KeyValueData → Action Data (Bool × MemoryStorageTransaction)
unfolding complete_all complete_one
complete_transaction t update = do done ← complete_all t.condition_values update; pure (done, t)

-- `for range maxRetries`, over the rounds that are left. The snapshot is the same in every round.
pub attempt : ℕ → Bool → UpdateFunc → MemoryStorageTransaction → Action Data Bool
unfolding get_condition_values complete_transaction
attempt zero retry update t = pure false
attempt (suc rounds) retry update t = do
  let again = attempt rounds retry update t
  old_values ← lift (get_condition_values t)
  (new_values, updated) ← lift (update old_values)
  if not updated then (if retry then again else pure false) else do
    (done, _) ← complete_transaction t new_values
    if done then pure true else if not retry then pure false else again

abbrev pub max_retries : ℕ
max_retries = 100

unfoldable pub execute_transaction : CasRequest → Action Data Bool
unfolding start_transaction attempt
execute_transaction request = do
  t ← start_transaction request.condition_keys
  attempt max_retries request.retry_till_success_or_error request.update t

-- The methods as the interface.
abbrev pub memory_storage : AtomicStorage Data MemoryStorageTransaction
memory_storage = record {
  get = get;
  get_by_key_prefix = get_by_key_prefix;
  put = put;
  put_if_absent = put_if_absent;
  compare_and_swap = compare_and_swap;
  delete = delete;
  start_transaction = start_transaction;
  get_condition_values = get_condition_values;
  complete_transaction = complete_transaction;
  execute_transaction = execute_transaction;
}
