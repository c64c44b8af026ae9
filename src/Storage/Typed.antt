-- ===== src/Storage/Typed.antt =====
-- storage/atomic_storage.go, TypedAtomicStorage and TypedAtomicStorageImpl: keys and values of Go
-- types over an AtomicStorage of strings, through serializers.
pub mod Contract
pub mod Ideal
use snet_daemon.Prelude.{
  String, Bool, true, false, Option, none, some, List, [], ◌∷◌, str_eq, if◌then◌else◌,
}
use snet_daemon.Effects.{Result, ok, Action, pure, lift, ◌>>=◌, bind_result}
use snet_daemon.Storage.Interface.{KeyValueData, UpdateFunc, AtomicStorage}

-- `value` is `none` where Go's Present is false, and then Value is nil.
pub record TypedKeyValueData (K V : Type 0) : Type 0 where
  pub key : K
  pub value : Option V

abbrev pub TypedUpdateFunc : Type 0 → Type 0 → Type 0
TypedUpdateFunc K V = List (TypedKeyValueData K V) → Result (List (TypedKeyValueData K V) × Bool)

pub record TypedCasRequest (K V : Type 0) : Type 0 where
  pub retry_till_success_or_error : Bool
  pub update : TypedUpdateFunc K V
  pub condition_keys : List K

-- The interface TypedAtomicStorage.
pub record TypedAtomicStorage (S K V : Type 0) : Type 0 where
  pub get : K → Action S (Option V)
  pub get_all : Action S (List V)
  pub put : K → V → Action S (Unit {0})
  pub put_if_absent : K → V → Action S Bool
  pub compare_and_swap : K → V → V → Action S Bool
  pub delete : K → Action S (Unit {0})
  pub execute_transaction : TypedCasRequest K V → Action S Bool

-- The serializers that NewTypedAtomicStorageImpl is given. The reflect types only allocate values.
pub record Codec (K V : Type 0) : Type 0 where
  pub key_serializer : K → Result String
  pub value_serializer : V → Result String
  pub value_deserializer : String → Result V

abbrev pub find_key_value_by_key : List KeyValueData → String → Option KeyValueData
find_key_value_by_key [] key = none
find_key_value_by_key (d ∷ entries) key =
    if str_eq d.key key then some d else find_key_value_by_key entries key

module _ {K V : Type 0} (codec : Codec K V) where
  -- What convertKeyValueDataToTyped makes of one key, from the entry found for it.
  abbrev typed_value : Option KeyValueData → Result (Option V)
  typed_value none = ok none
  typed_value (some d) =
      if d.present
      then bind_result (codec.value_deserializer d.value) (λ v. ok (some v))
      else ok none

  unfoldable pub convert_key_value_data_to_typed :
      List K → List KeyValueData → Result (List (TypedKeyValueData K V))
  convert_key_value_data_to_typed [] entries = ok []
  convert_key_value_data_to_typed (k ∷ keys) entries =
      bind_result (codec.key_serializer k) λ key_string.
        bind_result (typed_value (find_key_value_by_key entries key_string)) λ v.
          bind_result (convert_key_value_data_to_typed keys entries)
            λ rest. ok (record { key = k; value = v } ∷ rest)

  unfoldable pub convert_typed_key_to_string : List K → Result (List String)
  convert_typed_key_to_string [] = ok []
  convert_typed_key_to_string (k ∷ keys) =
      bind_result (codec.key_serializer k)
        λ s. bind_result (convert_typed_key_to_string keys) (λ rest. ok (s ∷ rest))

  abbrev value_string : Option V → Result (String × Bool)
  value_string none = ok ("", false)
  value_string (some v) = bind_result (codec.value_serializer v) (λ s. ok (s, true))

  unfoldable pub convert_typed_key_value_data_to_string :
      List (TypedKeyValueData K V) → Result (List KeyValueData)
  convert_typed_key_value_data_to_string [] = ok []
  convert_typed_key_value_data_to_string (d ∷ update) =
      bind_result (codec.key_serializer d.key) λ s.
        bind_result (value_string d.value) λ (v, present).
          bind_result (convert_typed_key_value_data_to_string update)
            λ rest. ok (record { key = s; value = v; present = present } ∷ rest)

  unfoldable pub string_update : TypedCasRequest K V → UpdateFunc
  unfolding convert_key_value_data_to_typed convert_typed_key_value_data_to_string
  string_update request condition_values =
      bind_result (convert_key_value_data_to_typed request.condition_keys condition_values)
        λ typed_values. bind_result (request.update typed_values) λ (typed, updated).
          bind_result (convert_typed_key_value_data_to_string typed)
            λ strings. ok (strings, updated)

  unfoldable pub deserialize_all : List String → Result (List V)
  deserialize_all [] = ok []
  deserialize_all (s ∷ strings) =
      bind_result (codec.value_deserializer s)
        λ v. bind_result (deserialize_all strings) (λ rest. ok (v ∷ rest))

  module _ {S T : Type 0} (atomic : AtomicStorage S T) where
    typed_get : K → Action S (Option V)
    typed_get key = do
      key_string ← lift (codec.key_serializer key)
      found ← atomic.get key_string
      elim found [
        | none ↦ pure none
        | some s ↦ (do v ← lift (codec.value_deserializer s); pure (some v))
      ]

    typed_get_all : Action S (List V)
    typed_get_all = do strings ← atomic.get_by_key_prefix ""; lift (deserialize_all strings)

    typed_put : K → V → Action S (Unit {0})
    typed_put key value = do
      key_string ← lift (codec.key_serializer key)
      value_text ← lift (codec.value_serializer value)
      atomic.put key_string value_text

    typed_put_if_absent : K → V → Action S Bool
    typed_put_if_absent key value = do
      key_string ← lift (codec.key_serializer key)
      value_text ← lift (codec.value_serializer value)
      atomic.put_if_absent key_string value_text

    typed_compare_and_swap : K → V → V → Action S Bool
    typed_compare_and_swap key prev new = do
      key_string ← lift (codec.key_serializer key)
      new_text ← lift (codec.value_serializer new)
      prev_text ← lift (codec.value_serializer prev)
      atomic.compare_and_swap key_string prev_text new_text

    typed_delete : K → Action S (Unit {0})
    typed_delete key = do key_string ← lift (codec.key_serializer key); atomic.delete key_string

    typed_execute_transaction : TypedCasRequest K V → Action S Bool
    typed_execute_transaction request = do
      keys ← lift (convert_typed_key_to_string request.condition_keys)
      atomic.execute_transaction (record {
        retry_till_success_or_error = request.retry_till_success_or_error;
        update = string_update request;
        condition_keys = keys;
      })

    -- NewTypedAtomicStorageImpl
    unfoldable pub typed_storage : TypedAtomicStorage S K V
    unfolding typed_get typed_get_all typed_put typed_put_if_absent typed_compare_and_swap
        typed_delete typed_execute_transaction
    typed_storage = record {
      get = typed_get;
      get_all = typed_get_all;
      put = typed_put;
      put_if_absent = typed_put_if_absent;
      compare_and_swap = typed_compare_and_swap;
      delete = typed_delete;
      execute_transaction = typed_execute_transaction;
    }
