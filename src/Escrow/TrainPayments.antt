-- ===== src/Escrow/TrainPayments.antt =====
-- escrow/train_pay_handler.go with trainUnaryValidator of escrow/income.go, and
-- escrow/allowed_user_payment_handler.go.
pub mod Prices
use snet_daemon.Prelude.{
  ℕ, String, Bool, not, Option, none, some, List, [], ◌∷◌, str_eq, if◌then◌else◌,
}
use snet_daemon.Prelude.Int.{ℤ, pos, ◌-ℤ◌, eqb_ℤ}
use snet_daemon.Prelude.Text.{after_last_slash}
use snet_daemon.Effects.{
  Result, ok, err, payment_error, plain, unauthenticated, Action, pure, fail, or_error, fail_if,
  lift, ◌>>=◌, bind_result,
}
use snet_daemon.Crypto.{Address, Crypto}
use snet_daemon.Storage.Dict.{lookup}
use snet_daemon.Handler.Grpc.{
  GrpcContext, GrpcError, GrpcResult, accepted, refused, new_grpc_error, invalid_argument_code,
  get_single_value, get_big_int, get_bytes, payment_channel_id_header, payment_channel_nonce_header,
  payment_channel_amount_header, payment_channel_signature_header, training_model_id, ServiceError,
  PaymentHandler, bind_grpc,
}
use snet_daemon.Escrow.Channel.{Payment}
use snet_daemon.Escrow.Validation.{get_signer_address_from_payment}
use snet_daemon.Escrow.ChannelService.{
  LockingPaymentChannelService, PaymentTransaction, start_payment_transaction, commit, rollback,
}
use snet_daemon.Escrow.PaymentHandler.{
  PaymentChannelPaymentHandler, payment_error_to_grpc_error, to_grpc, payment, complete,
  complete_after_error,
}

-- trainStreamPaymentHandler: the methods of paymentChannelPaymentHandler, with another type.
abbrev pub train_stream_payment_handler :
    {S : Type 0} → PaymentChannelPaymentHandler S → PaymentHandler S (PaymentTransaction S)
train_stream_payment_handler h = record {
  type_name = "train-call";
  payment = payment h;
  complete = complete h;
  complete_after_error = complete_after_error h;
  sender = λ tx. some (h.hex tx.channel.sender);
}

-- The prices of a training model.
pub record ModelPrices : Type 0 where
  pub train_price : ℕ
  pub validate_price : ℕ

-- `get_model` is GetModel of the training storage, which returns two nils for a model that is not
-- stored, and `unmarshal` big.Int's UnmarshalText.
pub record TrainUnaryPaymentHandler (S : Type 0) : Type 0 where
  pub service : LockingPaymentChannelService S
  pub mpe_contract_address : Address
  pub get_model : String → Action S (Option ModelPrices)
  pub unmarshal : String → Option ℤ
  pub hex : Address → String

-- A price of a model. For a model that is not stored, Go panics.
abbrev price_in : (ModelPrices → ℕ) → Option ModelPrices → Result (Option ℕ)
price_in price none = err (plain "invalid memory address or nil pointer dereference")
price_in price (some model) = ok (some (price model))

-- The switch of trainUnaryValidator.Validate; `none` is its default, which checks no price.
abbrev pub train_price_of : String → Option ModelPrices → Result (Option ℕ)
train_price_of method_name model =
    if str_eq method_name "train_model"
    then price_in (λ m. m.train_price) model
    else if str_eq method_name "validate_model"
    then price_in (λ m. m.validate_price) model
    else ok none

abbrev check_train_price : {S : Type 0} → ℤ → Option ℕ → Action S (Unit {0})
check_train_price income none = pure tt
check_train_price income (some price) =
    fail_if (not (eqb_ℤ income (pos price)))
      (payment_error unauthenticated "income %d does not equal to price %d")

module _ {S : Type 0} (h : TrainUnaryPaymentHandler S) where
  -- A key without values makes Go panic in modelID[0]; gRPC has no such keys.
  unfoldable pub model_of_call : Option (List String) → Action S (Option ModelPrices)
  model_of_call none = fail (plain "[trainUnaryValidator] no training model found")
  model_of_call (some []) = fail (plain "index out of range")
  model_of_call (some (model_id ∷ _)) =
      or_error (h.get_model model_id) (plain "[trainUnaryValidator] no training model found")

  -- trainUnaryValidator.Validate
  unfoldable pub validate_train_income : ℤ → GrpcContext → Action S (Unit {0})
  unfolding model_of_call
  validate_train_income income context = do
    model ← model_of_call (lookup training_model_id context.md)
    price ← lift (train_price_of (after_last_slash context.full_method) model)
    check_train_price income price

  unfoldable pub get_train_payment_from_context : GrpcContext → GrpcResult Payment
  get_train_payment_from_context context =
      bind_grpc (get_big_int h.unmarshal context.md payment_channel_id_header) λ channel_id.
        bind_grpc (get_big_int h.unmarshal context.md payment_channel_nonce_header) λ channel_nonce.
          bind_grpc (get_big_int h.unmarshal context.md payment_channel_amount_header) λ amount.
            bind_grpc (get_bytes context.md payment_channel_signature_header) λ signature.
              accepted (record {
                mpe_contract_address = h.mpe_contract_address;
                channel_id = channel_id;
                channel_nonce = channel_nonce;
                amount = amount;
                signature = signature;
              })

  -- Payment from the income validator on.
  unfoldable pub check_train_income :
      GrpcContext → Payment → PaymentTransaction S → S → GrpcResult (PaymentTransaction S) × S
  check_train_income context sent tx s =
      let (r, s1) = validate_train_income (sent.amount -ℤ tx.channel.authorized_amount) context s in
      elim r [
        | ok _ ↦ (accepted tx, s1)
        | err e ↦ (refused (payment_error_to_grpc_error e), (rollback tx s1).1)
      ]

  unfoldable pub start_train_payment :
      GrpcContext → Payment → S → GrpcResult (PaymentTransaction S) × S
  start_train_payment context sent s =
      let (r, s1) = start_payment_transaction h.service sent s in
      elim r [
        | err e ↦ (refused (payment_error_to_grpc_error e), s1)
        | ok tx ↦ check_train_income context sent tx s1
      ]

  -- trainUnaryPaymentHandler.Payment
  unfoldable pub train_payment : GrpcContext → S → GrpcResult (PaymentTransaction S) × S
  train_payment context s = elim (get_train_payment_from_context context) [
    | refused e ↦ (refused e, s)
    | accepted sent ↦ start_train_payment context sent s
  ]

  unfoldable pub complete_train : PaymentTransaction S → S → Option GrpcError × S
  complete_train tx s = let (r, s') = commit h.service tx s in (to_grpc r, s')

  unfoldable pub complete_train_after_error :
      PaymentTransaction S → ServiceError → S → Option GrpcError × S
  complete_train_after_error tx result s = let (r, s') = rollback tx s in (to_grpc r, s')

  -- The methods as the interface.
  abbrev pub train_unary_payment_handler : PaymentHandler S (PaymentTransaction S)
  train_unary_payment_handler = record {
    type_name = "train-call";
    payment = train_payment;
    complete = complete_train;
    complete_after_error = complete_train_after_error;
    sender = λ tx. some (h.hex tx.channel.sender);
  }

-- allowedUserPaymentHandler; `is_hex_address` is common.IsHexAddress, `to_checksum_address` utils'
-- ToChecksumAddress.
pub record AllowedUserPaymentHandler : Type 0 where
  pub crypto : Crypto
  pub is_hex_address : String → Bool
  pub to_checksum_address : String → Address
  pub unmarshal : String → Option ℤ

abbrev pub payment_multi_party_escrow_address_header : String
payment_multi_party_escrow_address_header = "snet-payment-mpe-address"

module _ (h : AllowedUserPaymentHandler) where
  unfoldable pub get_allowed_payment_from_context : GrpcContext → GrpcResult Payment
  get_allowed_payment_from_context context =
      bind_grpc (get_big_int h.unmarshal context.md payment_channel_id_header) λ channel_id.
        bind_grpc (get_big_int h.unmarshal context.md payment_channel_nonce_header) λ channel_nonce.
          bind_grpc (get_big_int h.unmarshal context.md payment_channel_amount_header) λ amount.
            bind_grpc (get_single_value context.md payment_multi_party_escrow_address_header)
              λ address.
                if not (h.is_hex_address address)
                then refused (
                    new_grpc_error invalid_argument_code
                      "Address is not a valid Hex address \"%v\": %v")
                else bind_grpc (get_bytes context.md payment_channel_signature_header) λ signature.
                  accepted (record {
                    mpe_contract_address = h.to_checksum_address address;
                    channel_id = channel_id;
                    channel_nonce = channel_nonce;
                    amount = amount;
                    signature = signature;
                  })

  -- AllowedUserPaymentValidator.Validate
  unfoldable pub validate_allowed_user : Payment → Result (Unit {0})
  validate_allowed_user sent =
      bind_result (get_signer_address_from_payment h.crypto sent) (λ _. ok tt)

  -- allowedUserPaymentHandler.Payment
  unfoldable pub allowed_user_payment : GrpcContext → GrpcResult Payment
  allowed_user_payment context = bind_grpc (get_allowed_payment_from_context context) λ sent.
      elim (validate_allowed_user sent) [
        | ok _ ↦ accepted sent
        | err e ↦ refused (payment_error_to_grpc_error e)
      ]

  -- The methods as the interface, on any state; both completions return nil.
  abbrev pub allowed_user_payment_handler : {S : Type 0} → PaymentHandler S Payment
  allowed_user_payment_handler = record {
    type_name = "escrow";
    payment = λ context s. (allowed_user_payment context, s);
    complete = λ sent s. (none, s);
    complete_after_error = λ sent result s. (none, s);
    sender = λ sent. none;
  }
