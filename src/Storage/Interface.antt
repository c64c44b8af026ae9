-- ===== src/Storage/Interface.antt =====
-- storage/atomic_storage.go: the interface AtomicStorage of a key-value storage with atomic
-- operations, and the data that its transactions pass.
use snet_daemon.Prelude.{Bool, Option, List, String}
use snet_daemon.Effects.{Result, Action}

pub record KeyValueData : Type 0 where
  pub key : String
  pub value : String
  pub present : Bool

-- What an UpdateFunc returns beside `err`: the update and `ok`.
abbrev pub UpdateFunc : Type 0
UpdateFunc = List KeyValueData → Result (List KeyValueData × Bool)

pub record CasRequest : Type 0 where
  pub retry_till_success_or_error : Bool
  pub update : UpdateFunc
  pub condition_keys : List String

-- The interface over a state `S` that the storage lives in, with transactions of type `T`. A lookup
-- returns `none` for Go's ok == false. A transaction may be refreshed when it is completed, so it
-- comes back; the Boolean results are Go's ok.
pub record AtomicStorage (S T : Type 0) : Type 0 where
  pub get : String → Action S (Option String)
  pub get_by_key_prefix : String → Action S (List String)
  pub put : String → String → Action S (Unit {0})
  pub put_if_absent : String → String → Action S Bool
  pub compare_and_swap : String → String → String → Action S Bool
  pub delete : String → Action S (Unit {0})
  pub start_transaction : List String → Action S T
  pub get_condition_values : T → Result (List KeyValueData)
  pub complete_transaction : T → List KeyValueData → Action S (Bool × T)
  pub execute_transaction : CasRequest → Action S Bool
