-- ===== src/Escrow/Tests/Training.antt =====
-- A training call that pays 3 tokens on channel 7.
use snet_daemon.Prelude.{◌≡◌, refl, some, [], ◌∷◌}
use snet_daemon.Prelude.Int.{pos, ◌+ℤ◌, ◌-ℤ◌}
use snet_daemon.Effects.{ok, pure}
use snet_daemon.Crypto.{
  text_bytes, get_signer_address_from_message, parse_signature, check_curation_validations,
}
use snet_daemon.Handler.Grpc.{GrpcContext, accepted, get_single_value, get_big_int, get_bytes}
use snet_daemon.Escrow.Channel.{Payment, merge_storage_and_blockchain_channel_state}
use snet_daemon.Escrow.Lock.{unlock_on_error}
use snet_daemon.Escrow.Storages.{get_channel_state_from_blockchain}
use snet_daemon.Escrow.Validation.{validate, get_signer_address_from_payment}
use snet_daemon.Escrow.ChannelService.{
  PaymentTransaction, start_payment_transaction, start_locked, payment_channel,
  payment_channel_from_blockchain, combine,
}
use snet_daemon.Escrow.ChannelService.Transactions.{lock_name}
use snet_daemon.Escrow.TrainPayments.{
  TrainUnaryPaymentHandler, get_train_payment_from_context, train_payment, start_train_payment,
  check_train_income, validate_train_income, model_of_call,
}
use snet_daemon.Escrow.TrainPayments.Prices.{IsPriced, train_payment-IsPriced}
use snet_daemon.Escrow.World.{View}
use snet_daemon.Escrow.Ideal.{ideal_service, ideal_lock}
use snet_daemon.Escrow.Tests.Calls.{desk, read_digit}
use snet_daemon.Escrow.Tests.Channels.{stored_channel}

abbrev train_handler : TrainUnaryPaymentHandler View
train_handler = record {
  service = ideal_service;
  mpe_contract_address = 1;
  get_model = λ id. pure (some (record { train_price = 3; validate_price = 1 }));
  unmarshal = read_digit;
  hex = λ address. "0x0B";
}

abbrev train_call : GrpcContext
train_call = record {
  md =
      ("snet-payment-channel-id", "7" ∷ [])
      ∷ ("snet-payment-channel-nonce", "3" ∷ [])
      ∷ ("snet-payment-channel-amount", "9" ∷ [])
      ∷ (
        "snet-payment-channel-signature-bin",
        "AAAAAAAAAAAAAAAAAAAAAAAAAAAAAAAAAAAAAAAAAAAAAAAAAAAAAAAAAAAAAAAAA" ∷ [],
      )
      ∷ ("snet-train-model-id", "model" ∷ [])
      ∷ [];
  full_method = "/training.Model/train_model";
}

abbrev sent : Payment
sent = record {
  mpe_contract_address = 1;
  channel_id = pos 7;
  channel_nonce = pos 3;
  amount = pos 9;
  signature = text_bytes "AAAAAAAAAAAAAAAAAAAAAAAAAAAAAAAAAAAAAAAAAAAAAAAAAAAAAAAAAAAAAAAAA";
}

abbrev transaction : PaymentTransaction View
transaction = record {
  payment = sent;
  channel = record stored_channel { signer = 65; full_amount = pos 50; expiration = pos 1000 };
  lock = ideal_lock (lock_name sent);
}

train_run : (train_payment train_handler train_call desk).0 ≡ accepted transaction
unfolding train_payment get_train_payment_from_context get_single_value get_big_int get_bytes
    start_train_payment check_train_income validate_train_income model_of_call
    start_payment_transaction unlock_on_error start_locked payment_channel combine
    payment_channel_from_blockchain get_channel_state_from_blockchain validate
    get_signer_address_from_payment get_signer_address_from_message parse_signature
    check_curation_validations merge_storage_and_blockchain_channel_state ◌+ℤ◌ ◌-ℤ◌
train_run = refl

train_payment-IsPriced_example :
    (given : Payment) × (get_train_payment_from_context train_handler train_call ≡ accepted given)
    × ((start_payment_transaction ideal_service given desk).0 ≡ ok transaction)
    × IsPriced train_handler train_call
        (given.amount -ℤ transaction.channel.authorized_amount)
        (start_payment_transaction ideal_service given desk).1
train_payment-IsPriced_example =
    train_payment-IsPriced train_handler train_call desk transaction train_run
