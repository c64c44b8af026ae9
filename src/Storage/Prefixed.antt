-- ===== src/Storage/Prefixed.antt =====
-- storage/atomic_storage.go, PrefixedAtomicStorage: an AtomicStorage that adds a prefix to the keys
-- of another.
pub mod Contract
use Prim.Native.String.{◌++◌}
use snet_daemon.Prelude.{String, List, map}
use snet_daemon.Prelude.Text.{trim_right_slash, trim_prefix}
use snet_daemon.Effects.{ok, bind_result}
use snet_daemon.Storage.Interface.{KeyValueData, UpdateFunc, CasRequest, AtomicStorage}

abbrev pub prefixed_key : String → String → String
prefixed_key key_prefix key = key_prefix ++ ("/" ++ key)

abbrev pub append_key_prefix : String → List String → List String
append_key_prefix key_prefix = map (prefixed_key key_prefix)

unfoldable pub append_key_value_prefix : String → List KeyValueData → List KeyValueData
append_key_value_prefix key_prefix =
    map (λ (d : KeyValueData). record d { key = prefixed_key key_prefix d.key })

unfoldable pub remove_key_value_prefix : String → List KeyValueData → List KeyValueData
remove_key_value_prefix key_prefix =
    map λ (d : KeyValueData). record d {
      key = trim_prefix d.key (trim_right_slash key_prefix ++ "/");
    }

unfoldable pub prefixed_update : String → UpdateFunc → UpdateFunc
prefixed_update key_prefix update condition_key_values =
    bind_result (update (remove_key_value_prefix key_prefix condition_key_values))
      λ (new_values, updated). ok (append_key_value_prefix key_prefix new_values, updated)

abbrev pub prefixed_request : String → CasRequest → CasRequest
prefixed_request key_prefix request = record {
  retry_till_success_or_error = request.retry_till_success_or_error;
  update = prefixed_update key_prefix request.update;
  condition_keys = append_key_prefix key_prefix request.condition_keys;
}

-- NewPrefixedAtomicStorage. The wrapper prefixedTransactionImpl holds the delegate's transaction and
-- this storage, so it is the delegate's transaction read through this storage.
abbrev pub prefixed_storage : {S T : Type 0} → AtomicStorage S T → String → AtomicStorage S T
prefixed_storage delegate key_prefix = record {
  get = λ key. delegate.get (prefixed_key key_prefix key);
  get_by_key_prefix = λ prefix. delegate.get_by_key_prefix (prefixed_key key_prefix prefix);
  put = λ key value. delegate.put (prefixed_key key_prefix key) value;
  put_if_absent = λ key value. delegate.put_if_absent (prefixed_key key_prefix key) value;
  compare_and_swap =
      λ key prev new. delegate.compare_and_swap (prefixed_key key_prefix key) prev new;
  delete = λ key. delegate.delete (prefixed_key key_prefix key);
  start_transaction = λ keys. delegate.start_transaction (append_key_prefix key_prefix keys);
  get_condition_values = λ t.
      bind_result (delegate.get_condition_values t)
        λ values. ok (remove_key_value_prefix key_prefix values);
  complete_transaction =
      λ t update. delegate.complete_transaction t (append_key_value_prefix key_prefix update);
  execute_transaction =
      λ request. delegate.execute_transaction (prefixed_request key_prefix request);
}
