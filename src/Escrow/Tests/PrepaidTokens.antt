-- ===== src/Escrow/Tests/PrepaidTokens.antt =====
-- A token for a new amount on channel 7: the state has the channels and, beside them, the usages.
use snet_daemon.Prelude.{◌≡◌, refl, arith, false, none, some, Option, [], ◌∷◌, inl}
use snet_daemon.Prelude.Int.{pos, ◌+ℤ◌, ◌-ℤ◌}
use snet_daemon.Effects.{Result, ok, err, Action}
use snet_daemon.Storage.Typed.{TypedAtomicStorage}
use snet_daemon.Storage.Typed.Contract.{current, IsTransactional}
use snet_daemon.Crypto.{
  get_signer_address_from_message, parse_signature, check_curation_validations,
}
use snet_daemon.Escrow.Channel.{
  Payment, PaymentChannelKey, PaymentChannelData, merge_storage_and_blockchain_channel_state,
}
use snet_daemon.Escrow.Lock.{Lock, always_unlock, unlock_on_error}
use snet_daemon.Escrow.Storages.{get_channel_state_from_blockchain}
use snet_daemon.Escrow.Validation.{
  validate, get_signer_address_from_payment, compare_with_latest_block_number,
}
use snet_daemon.Escrow.ChannelService.{
  LockingPaymentChannelService, PaymentTransaction, start_payment_transaction, start_locked,
  payment_channel, payment_channel_from_blockchain, combine, commit,
}
use snet_daemon.Escrow.Prepaid.{
  PrePaidData, PrePaidDataKey, get_usage, update_usage, condition_func, increment_planned_amount,
  convert_typed_data_to_prepaid_usage, read_entries, read_entry, update_details,
  build_old_and_new_values_for_cas, get_amount_for_usage_type,
}
use snet_daemon.Escrow.Prepaid.Usage.{Usages, same_key}
use snet_daemon.Escrow.TokenService.{
  TokenService, TokenRequest, TokenReply, get_token, reply_with_token, verify_with_channel,
  verify_signature, take_new_amount, verify_signature_and_signed_amount_eligibility,
}
use snet_daemon.Escrow.TokenService.Planning.{OthersKeepUsages, IsGranted, get_token-IsGranted}
use snet_daemon.Escrow.World.{View}
use snet_daemon.Escrow.Ideal.{ideal_service, ideal_validator}
use snet_daemon.Escrow.Tests.Channels.{desk, signature}
use snet_daemon.Escrow.Tests.Prepaid.{storage, usages, outcome_done, outcome_undone}

abbrev Both : Type 0
Both = View × Usages

abbrev on_view : {A : Type 0} → Action View A → Action Both A
on_view m (v, u) = let (r, v') = m v in (r, (v', u))

abbrev with_usages : {K V : Type 0} → TypedAtomicStorage View K V → TypedAtomicStorage Both K V
with_usages typed = record {
  get = λ key. on_view (typed.get key);
  get_all = on_view typed.get_all;
  put = λ key value. on_view (typed.put key value);
  put_if_absent = λ key value. on_view (typed.put_if_absent key value);
  compare_and_swap = λ key prev new. on_view (typed.compare_and_swap key prev new);
  delete = λ key. on_view (typed.delete key);
  execute_transaction = λ request. on_view (typed.execute_transaction request);
}

abbrev both_lock : Option (Lock View) → Option (Lock Both)
both_lock none = none
both_lock (some lock) = some (record { unlock = on_view lock.unlock })

abbrev both_given : Result (Option (Lock View)) → Result (Option (Lock Both))
both_given (ok found) = ok (both_lock found)
both_given (err e) = err e

abbrev service_of_both : LockingPaymentChannelService Both
service_of_both = record {
  storage = with_usages ideal_service.storage;
  payment_storage = with_usages ideal_service.payment_storage;
  blockchain_reader = record {
    read_channel_from_blockchain =
        λ id. on_view (ideal_service.blockchain_reader.read_channel_from_blockchain id);
    recipient_payment_address = 12;
  };
  locker = record {
    lock = λ name s. let (r, v) = ideal_service.locker.lock name s.0 in (both_given r, (v, s.1));
  };
  validator = record {
    current_block = on_view ideal_validator.current_block;
    payment_expiration_threshold = pos 10;
    crypto = ideal_validator.crypto;
  };
  replica_group_id = 1 ∷ [];
}

abbrev both_storage : TypedAtomicStorage Both PrePaidDataKey PrePaidData
both_storage = record {
  get = λ key s. (ok (s.1 key), s);
  get_all = λ s. (ok [], s);
  put = λ key value s. (ok tt, s);
  put_if_absent = λ key value s. (ok false, s);
  compare_and_swap = λ key prev new s. (ok false, s);
  delete = λ key s. (ok tt, s);
  execute_transaction =
      λ request s. let (r, u) = storage.execute_transaction request s.1 in (r, (s.0, u));
}

abbrev service : TokenService Both
service = record {
  channel_service = service_of_both;
  prepaid_storage = both_storage;
  token_manager = record {
    create_token = λ id user s. (ok "t", s);
    verify_token = λ token id s. (ok "0x0B", s);
  };
  validator = service_of_both.validator;
  mpe_address = 1;
  hex = λ address. "0x0B";
}

abbrev usages_of : Both → Usages
usages_of s = s.1

transactional_both : IsTransactional same_key both_storage usages_of
transactional_both = record {
  executed = λ request s e.
      outcome_done s.1 (request.update (current same_key s.1 request.condition_keys)) e;
  not_executed = λ request s e.
      inl (outcome_undone s.1 (request.update (current same_key s.1 request.condition_keys)) e);
}

channel_keeps :
    (key : PaymentChannelKey) (s : Both) → (payment_channel service_of_both key s).1.1 ≡ s.1
unfolding payment_channel combine payment_channel_from_blockchain get_channel_state_from_blockchain
channel_keeps key s = ground arith

start_keeps :
    (payment : Payment) (s : Both) → (start_payment_transaction service_of_both payment s).1.1 ≡ s.1
unfolding start_payment_transaction unlock_on_error start_locked validate payment_channel combine
    payment_channel_from_blockchain get_channel_state_from_blockchain
start_keeps payment s = ground arith

commit_keeps :
    (payment : Payment) (tx : PaymentTransaction Both) (s s' : Both)
    → (start_payment_transaction service_of_both payment s).0 ≡ ok tx
    → (commit service_of_both tx s').1.1 ≡ s'.1
unfolding start_payment_transaction unlock_on_error start_locked validate payment_channel combine
    payment_channel_from_blockchain get_channel_state_from_blockchain commit always_unlock
commit_keeps payment tx s s' e = ground arith

keeps : OthersKeepUsages service usages_of transactional_both
unfolding get_usage
keeps = record {
  current_block = λ s. refl;
  payment_channel = channel_keeps;
  start = start_keeps;
  commit = commit_keeps;
  get_usage = λ key s. refl;
  create_token = λ id user s. refl;
}

-- 6 tokens are authorized, and the signer of the channel signs 9.
abbrev request : TokenRequest
request = record {
  channel_id = 7;
  current_nonce = 3;
  signed_amount = 9;
  signature = signature;
  current_block = 98;
  claim_signature = signature;
}

abbrev reply : TokenReply
reply = record { channel_id = 7; token = "t"; planned_amount = 8; used_amount = 2 }

abbrev both : Both
both = (desk, usages)

token_run : (get_token service request both).0 ≡ ok reply
unfolding get_token verify_signature_and_signed_amount_eligibility verify_with_channel
    verify_signature take_new_amount reply_with_token get_usage compare_with_latest_block_number
    start_payment_transaction unlock_on_error start_locked payment_channel combine
    payment_channel_from_blockchain get_channel_state_from_blockchain validate commit always_unlock
    get_signer_address_from_payment get_signer_address_from_message parse_signature
    check_curation_validations merge_storage_and_blockchain_channel_state update_usage
    condition_func increment_planned_amount convert_typed_data_to_prepaid_usage read_entries
    read_entry update_details build_old_and_new_values_for_cas get_amount_for_usage_type ◌+ℤ◌ ◌-ℤ◌
token_run = refl

get_token-IsGranted_example :
    (channel : PaymentChannelData) × ((payment_channel service_of_both
        (record { id = pos 7 })
        both).0
      ≡ ok (some channel))
    × IsGranted service usages_of transactional_both request channel usages
        (usages_of (get_token service request both).1)
get_token-IsGranted_example =
    get_token-IsGranted service usages_of transactional_both keeps request reply both token_run
