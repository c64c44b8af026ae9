-- ===== src/Etcd.antt =====
-- etcddb/etcddb_client.go: EtcdClient, the AtomicStorage of the replicas, over etcd's own client.
pub mod Contract
pub mod Snapshot
pub mod Interference
pub mod Operations
pub mod Tests
use snet_daemon.Prelude.{
  ℕ, zero, suc, String, Bool, true, false, not, ◌&&◌, str_eq, Option, none, some, List, [], ◌∷◌,
  ◌++◌, map, if◌then◌else◌,
}
use snet_daemon.Effects.{Result, ok, err, plain, Action, pure, fail, lift, ◌>>=◌, ◌>>◌}
use snet_daemon.Storage.Interface.{KeyValueData, UpdateFunc, CasRequest, AtomicStorage}

-- What etcd stores under a key, with its revisions.
pub record KeyValue : Type 0 where
  pub key : String
  pub value : String
  pub mod_revision : ℕ

-- The comparisons and the operations of a clientv3 transaction that the code uses.
pub data Cmp : Type 0 where
  value_equals : String → String → Cmp
  mod_revision_equals : String → ℕ → Cmp
  create_revision_equals : String → ℕ → Cmp

pub data Op : Type 0 where
  op_get : String → Op
  op_put : String → String → Op

-- The Kvs of each range response; a put has none.
pub record TxnResponse : Type 0 where
  pub succeeded : Bool
  pub responses : List (List KeyValue)

-- go.etcd.io/etcd/client/v3: its calls and GetPrefixRangeEnd. `map_order` is the order in which Go
-- visits the keys of a map. Each call has a time limit, and is an error when it runs out.
pub record EtcdClient (S : Type 0) : Type 0 where
  pub etcd_get : String → Action S (List KeyValue)
  pub etcd_get_range : String → String → Action S (List KeyValue)
  pub etcd_put : String → String → Action S (Unit {0})
  pub etcd_delete : String → Action S (Unit {0})
  pub txn : List Cmp → List Op → List Op → Action S TxnResponse
  pub get_prefix_range_end : String → String
  pub map_order : List String → List String

pub record KeyValueVersion : Type 0 where
  pub key : String
  pub value : String
  pub present : Bool
  pub version : ℕ

pub record EtcdTransaction : Type 0 where
  pub condition_values : List KeyValueVersion
  pub condition_keys : List String

pub record EtcdKeyValue : Type 0 where
  pub key : String
  pub value : String

-- delete(keySet, key)
abbrev pub remove_key : String → List String → List String
remove_key key [] = []
remove_key key (k ∷ keys) =
    let rest = remove_key key keys in if str_eq k key then rest else k ∷ rest

-- keySet, a map whose keys are the members of the list.
abbrev pub key_set : List String → List String
key_set [] = []
key_set (key ∷ keys) = key ∷ remove_key key (key_set keys)

abbrev pub first_value : List KeyValue → Option String
first_value [] = none
first_value (kv ∷ kvs) = some kv.value

abbrev pub all_values : List KeyValue → List String
all_values [] = []
all_values (kv ∷ kvs) = kv.value ∷ all_values kvs

abbrev pub to_state : KeyValue → KeyValueVersion
to_state kv = record { key = kv.key; value = kv.value; present = true; version = kv.mod_revision }

-- getState: the states, and the keys that are left in keySet.
unfoldable pub get_state : List String → List KeyValue → List KeyValueVersion × List String
get_state keys [] = ([], keys)
get_state keys (kv ∷ kvs) =
    let (states, left) = get_state (remove_key kv.key keys) kvs in (to_state kv ∷ states, left)

abbrev pub absent_state : String → KeyValueVersion
absent_state key = record { key = key; value = ""; present = false; version = 0 }

-- The loop of checkTxnResponse over the responses.
unfoldable pub collect_states :
    List String → List (List KeyValue) → List KeyValueVersion × List String
collect_states keys [] = ([], keys)
collect_states keys (kvs ∷ responses) =
    let (states, left) = get_state keys kvs in
    let (more, left_over) = collect_states left responses in (states ++ more, left_over)

abbrev pub condition_data : KeyValueVersion → KeyValueData
condition_data v = record { key = v.key; value = v.value; present = v.present }

-- GetConditionValues
unfoldable pub get_condition_values : EtcdTransaction → Result (List KeyValueData)
get_condition_values t = ok (map condition_data t.condition_values)

abbrev pub if_compare : KeyValueVersion → Cmp
if_compare v =
    if v.present then mod_revision_equals v.key v.version else create_revision_equals v.key 0

abbrev pub put_of_data : KeyValueData → Op
put_of_data op = op_put op.key op.value

abbrev pub value_compare : EtcdKeyValue → Cmp
value_compare kv = value_equals kv.key kv.value

abbrev pub put_of_pair : EtcdKeyValue → Op
put_of_pair kv = op_put kv.key kv.value

-- The update of CompareAndSwap.
abbrev pub swap_values : String → String → String → UpdateFunc
swap_values key prev new [] = err (plain "index out of range")
swap_values key prev new (old ∷ _) =
    if old.present && str_eq old.value prev
    then ok (record { key = key; value = new; present = false } ∷ [], true)
    else ok ([], false)

-- The update of PutIfAbsent.
abbrev pub absent_values : String → String → UpdateFunc
absent_values key value [] = err (plain "index out of range")
absent_values key value (old ∷ _) =
    if old.present
    then ok ([], false)
    else ok (record { key = key; value = value; present = false } ∷ [], true)

module _ {S : Type 0} (client : EtcdClient S) where
  -- Get: the first of the values, if there is one.
  unfoldable pub get : String → Action S (Option String)
  get key = do kvs ← client.etcd_get key; pure (first_value kvs)

  unfoldable pub get_by_key_prefix : String → Action S (List String)
  get_by_key_prefix key = do
    kvs ← client.etcd_get_range key (client.get_prefix_range_end key)
    pure (all_values kvs)

  unfoldable pub put : String → String → Action S (Unit {0})
  put key value = client.etcd_put key value

  unfoldable pub delete : String → Action S (Unit {0})
  delete key = client.etcd_delete key

  -- checkTxnResponse
  unfoldable pub check_txn_response : List String → TxnResponse → List KeyValueVersion
  check_txn_response keys response =
      let (states, left) = collect_states (key_set keys) response.responses in
      states ++ map absent_state (client.map_order left)

  unfoldable pub start_transaction : List String → Action S EtcdTransaction
  start_transaction keys = do
    response ← client.txn [] (map op_get keys) []
    pure (record { condition_values = check_txn_response keys response; condition_keys = keys })

  -- CompleteTransaction; a transaction that did not succeed comes back with the latest values.
  unfoldable pub complete_transaction :
      EtcdTransaction → List KeyValueData → Action S (Bool × EtcdTransaction)
  complete_transaction t update = do
    response ←
        client.txn (map if_compare t.condition_values) (map put_of_data update)
          (map op_get t.condition_keys)
    pure (
        if response.succeeded
        then (true, t)
        else (false, record t { condition_values = check_txn_response t.condition_keys response }))

  -- Transaction: compares values instead of revisions.
  unfoldable pub transaction : List EtcdKeyValue → List EtcdKeyValue → Action S Bool
  transaction compare swap = do
    response ← client.txn (map value_compare compare) (map put_of_pair swap) []
    pure response.succeeded

  -- The loop of ExecuteTransaction, for as many rounds as are given.
  unfoldable pub execute_rounds : ℕ → CasRequest → EtcdTransaction → Action S Bool
  execute_rounds zero request t = fail (plain "no round is left")
  execute_rounds (suc rounds) request t = do
    old_values ← lift (get_condition_values t)
    (new_values, updated) ← lift (request.update old_values)
    if not updated then pure false else do
      (done, latest) ← complete_transaction t new_values
      if done
          then pure true
          else if not request.retry_till_success_or_error
          then pure false
          else execute_rounds rounds request latest

  unfoldable pub execute_transaction : ℕ → CasRequest → Action S Bool
  execute_transaction rounds request = do
    t ← start_transaction request.condition_keys
    execute_rounds rounds request t

  -- CompareAndSwap; its request does not retry, so one round is all of it.
  unfoldable pub compare_and_swap : String → String → String → Action S Bool
  compare_and_swap key prev new = execute_transaction 1 (record {
    retry_till_success_or_error = false;
    update = swap_values key prev new;
    condition_keys = key ∷ [];
  })

  unfoldable pub put_if_absent : String → String → Action S Bool
  put_if_absent key value = execute_transaction 1 (record {
    retry_till_success_or_error = false;
    update = absent_values key value;
    condition_keys = key ∷ [];
  })

  -- The methods as the interface; ExecuteTransaction makes at most the given number of rounds.
  abbrev pub etcd_storage : ℕ → AtomicStorage S EtcdTransaction
  etcd_storage rounds = record {
    get = get;
    get_by_key_prefix = get_by_key_prefix;
    put = put;
    put_if_absent = put_if_absent;
    compare_and_swap = compare_and_swap;
    delete = delete;
    start_transaction = start_transaction;
    get_condition_values = get_condition_values;
    complete_transaction = complete_transaction;
    execute_transaction = execute_transaction rounds;
  }
