-- ===== src/Escrow/Tests/Calls.antt =====
-- Calls that pay 3 tokens on channel 7, through the interceptor.
use snet_daemon.Prelude.{
  String, arith, false, Option, none, some, [], ◌∷◌, ◌==◌, ◌≡◌, refl, str_eq, if◌then◌else◌,
}
use snet_daemon.Prelude.Int.{ℤ, pos, ◌+ℤ◌, ◌-ℤ◌}
use snet_daemon.Effects.{ok, pure}
use snet_daemon.Crypto.{
  get_signer_address_from_message, parse_signature, check_curation_validations,
}
use snet_daemon.Handler.Grpc.{
  Metadata, GrpcContext, accepted, get_single_value, get_big_int, get_bytes,
}
use snet_daemon.Handler.Interceptor.{
  ServiceEnd, returned, failed, returns, PaymentValidationInterceptor, get_payment_handler,
  new_payment_validation_interceptor, settle, charge,
}
use snet_daemon.Escrow.Channel.{Payment, merge_storage_and_blockchain_channel_state}
use snet_daemon.Escrow.Lock.{always_unlock, unlock_on_error}
use snet_daemon.Escrow.Storages.{get_channel_state_from_blockchain}
use snet_daemon.Escrow.Validation.{validate, get_signer_address_from_payment}
use snet_daemon.Escrow.ChannelService.Transactions.{key_of, lock_name, paid_by}
use snet_daemon.Escrow.ChannelService.{
  PaymentTransaction, start_payment_transaction, start_locked, payment_channel,
  payment_channel_from_blockchain, combine, verify_group_id, commit,
}
use snet_daemon.Escrow.PaymentHandler.{
  PaymentChannelPaymentHandler, escrow_payment_handler, payment, start_and_check, check_income,
  complete, to_grpc, validate_income, price_of_call, get_payment_from_context,
}
use snet_daemon.Escrow.PaymentHandler.Calls.{paid_call}
use snet_daemon.Escrow.World.{View, set_channel}
use snet_daemon.Escrow.Ideal.{ideal_service, ideal_world, same_view}
use snet_daemon.Escrow.Tests.Channels.{stored_channel, unlocks}

-- The channel's signer has the address 65, the code of the letter A.
abbrev pub desk : View
desk = record {
  channels = λ id. elim id [
    | pos n ↦ if n == 7 then some (record stored_channel { signer = 65 }) else none
    | _ ↦ none
  ];
  payments = λ id. none;
  locks = λ name. false;
}

-- Reads the numbers of the calls below.
abbrev pub read_digit : String → Option ℤ
read_digit text =
    if str_eq text "7"
    then some (pos 7)
    else if str_eq text "3"
    then some (pos 3)
    else if str_eq text "9"
    then some (pos 9)
    else none

abbrev handler : PaymentChannelPaymentHandler View
handler = record {
  service = ideal_service;
  mpe_contract_address = 1;
  income_validator = record {
    get_price = λ context. pure (pos 3);
    get_validate_price = λ model. pure (some 5);
  };
  unmarshal = read_digit;
  hex = λ address. "0x0B";
}

abbrev interceptor : PaymentValidationInterceptor View (PaymentTransaction View)
interceptor = new_payment_validation_interceptor (escrow_payment_handler handler) []

abbrev context : GrpcContext
context = record {
  md =
      ("snet-payment-channel-id", "7" ∷ [])
      ∷ ("snet-payment-channel-nonce", "3" ∷ [])
      ∷ ("snet-payment-channel-amount", "9" ∷ [])
      ∷ (
        "snet-payment-channel-signature-bin",
        "AAAAAAAAAAAAAAAAAAAAAAAAAAAAAAAAAAAAAAAAAAAAAAAAAAAAAAAAAAAAAAAAA" ∷ [],
      )
      ∷ [];
  full_method = "/example/add";
}

abbrev answers : Metadata → View → ServiceEnd × View
answers md s = (returned, s)

abbrev breaks : Metadata → View → ServiceEnd × View
breaks md s = (failed "no answer", s)

chosen : get_payment_handler interceptor context ≡ accepted (escrow_payment_handler handler)
unfolding get_payment_handler new_payment_validation_interceptor
chosen = refl

price_keeps : (c : GrpcContext) (s : View) → (price_of_call handler.income_validator c s).1 ≡ s
unfolding price_of_call
price_keeps c s = ground arith

paid_run : (charge interceptor "test" answers context desk).0 ≡ returns none
unfolding charge get_payment_handler new_payment_validation_interceptor settle payment complete
    to_grpc get_payment_from_context get_big_int get_bytes get_single_value start_and_check
    check_income validate_income price_of_call commit always_unlock start_payment_transaction
    unlock_on_error start_locked payment_channel combine payment_channel_from_blockchain
    verify_group_id get_channel_state_from_blockchain validate get_signer_address_from_payment
    get_signer_address_from_message parse_signature check_curation_validations
    merge_storage_and_blockchain_channel_state ◌+ℤ◌ ◌-ℤ◌
paid_run = refl

paid_call_example :
    (sent : Payment) × (tx : PaymentTransaction View) × (price : ℤ) × (get_payment_from_context
        handler context
      ≡ accepted sent)
    × ((start_payment_transaction ideal_service sent desk).0 ≡ ok tx)
    × ((payment_channel ideal_service
          (key_of sent)
          (ideal_service.locker.lock (lock_name sent) desk).1).0
        ≡ ok (some tx.channel))
    × ((price_of_call handler.income_validator context
          (start_payment_transaction ideal_service sent desk).1).0
        ≡ ok price)
    × (sent.amount -ℤ tx.channel.authorized_amount ≡ price)
    × (returned ≡ returned)
    × ((charge interceptor "test" answers context desk).1
        ≡ set_channel sent.channel_id (paid_by sent tx.channel) desk)
paid_call_example =
    paid_call same_view handler ideal_world unlocks price_keeps interceptor "test" answers
      (λ md s. refl) context desk chosen paid_run
