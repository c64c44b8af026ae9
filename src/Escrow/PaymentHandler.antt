-- ===== src/Escrow/PaymentHandler.antt =====
-- escrow/payment_handler.go and escrow/income.go: paymentChannelPaymentHandler and the validator of
-- its income.
pub mod Payments
pub mod Calls
use snet_daemon.Prelude.{ℕ, String, Bool, not, Option, none, some, List, [], ◌∷◌, if◌then◌else◌}
use snet_daemon.Prelude.Int.{ℤ, pos, ◌-ℤ◌, eqb_ℤ}
use snet_daemon.Prelude.Text.{contains}
use snet_daemon.Effects.{
  Error, Result, ok, err, PaymentErrorCode, payment_error, plain, internal, unauthenticated,
  failed_precondition, incorrect_nonce, Action, pure, fail, or_error, fail_if, ◌>>=◌,
}
use snet_daemon.Crypto.{Address}
use snet_daemon.Storage.Dict.{lookup}
use snet_daemon.Handler.Grpc.{
  Metadata, GrpcContext, GrpcError, GrpcResult, accepted, refused, new_grpc_error, internal_code,
  unauthenticated_code, failed_precondition_code, incorrect_nonce_code, get_big_int, get_bytes,
  payment_channel_id_header, payment_channel_nonce_header, payment_channel_amount_header,
  payment_channel_signature_header, training_model_id, ServiceError, PaymentHandler, bind_grpc,
}
use snet_daemon.Escrow.Channel.{Payment}
use snet_daemon.Escrow.ChannelService.{
  LockingPaymentChannelService, PaymentTransaction, start_payment_transaction, commit, rollback,
}

-- The switch of paymentErrorToGrpcError.
abbrev pub grpc_code : PaymentErrorCode → ℕ
grpc_code internal = internal_code
grpc_code unauthenticated = unauthenticated_code
grpc_code failed_precondition = failed_precondition_code
grpc_code incorrect_nonce = incorrect_nonce_code

-- paymentErrorToGrpcError of an error that is not nil.
unfoldable pub payment_error_to_grpc_error : Error → GrpcError
payment_error_to_grpc_error (payment_error code message) = new_grpc_error (grpc_code code) message
payment_error_to_grpc_error (plain message) = new_grpc_error internal_code "internal error: %v"

-- paymentErrorToGrpcError of the error of a call that returns nothing else.
unfoldable pub to_grpc : {A : Type 0} → Result A → Option GrpcError
unfolding payment_error_to_grpc_error
to_grpc (ok _) = none
to_grpc (err e) = some (payment_error_to_grpc_error e)

-- The price of one call: the pricing strategy's GetPrice, and GetModel of the training storage with
-- the model's ValidatePrice. Both are outside of this component. GetModel returns two nils for a
-- model that is not stored, `none` here.
pub record IncomeStreamValidator (S : Type 0) : Type 0 where
  pub get_price : GrpcContext → Action S ℤ
  pub get_validate_price : String → Action S (Option ℕ)

module _ {S : Type 0} (validator : IncomeStreamValidator S) where
  -- A price, or the panic of reading it from nil.
  abbrev price_or_panic : Option ℕ → Action S ℤ
  price_or_panic none = fail (plain "invalid memory address or nil pointer dereference")
  price_or_panic (some price) = pure (pos price)

  -- The price by MD[TrainingModelId]. A key without values makes Go panic in modelID[0]; gRPC has no
  -- such keys, and it is an error here.
  abbrev model_price : Option (List String) → Action S ℤ
  model_price none = fail (plain "no training model found")
  model_price (some []) = fail (plain "index out of range")
  model_price (some (model_id ∷ _)) = do
    price ← or_error (validator.get_validate_price model_id) (plain "no training model found")
    price_or_panic price

  unfoldable pub price_of_call : GrpcContext → Action S ℤ
  price_of_call context =
      if contains context.full_method "/upload_and_validate"
      then model_price (lookup training_model_id context.md)
      else validator.get_price context

  -- incomeStreamValidator.Validate
  unfoldable pub validate_income : ℤ → GrpcContext → Action S (Unit {0})
  unfolding price_of_call
  validate_income income context = do
    price ← price_of_call context
    fail_if (not (eqb_ℤ income price))
        (payment_error unauthenticated "income %d does not equal to price %d")

-- `unmarshal` is big.Int's UnmarshalText and `hex` is Address.Hex.
pub record PaymentChannelPaymentHandler (S : Type 0) : Type 0 where
  pub service : LockingPaymentChannelService S
  pub mpe_contract_address : Address
  pub income_validator : IncomeStreamValidator S
  pub unmarshal : String → Option ℤ
  pub hex : Address → String

module _ {S : Type 0} (h : PaymentChannelPaymentHandler S) where
  unfoldable pub get_payment_from_context : GrpcContext → GrpcResult Payment
  get_payment_from_context context =
      bind_grpc (get_big_int h.unmarshal context.md payment_channel_id_header) λ channel_id.
        bind_grpc (get_big_int h.unmarshal context.md payment_channel_nonce_header) λ channel_nonce.
          bind_grpc (get_big_int h.unmarshal context.md payment_channel_amount_header) λ amount.
            bind_grpc (get_bytes context.md payment_channel_signature_header) λ signature.
              accepted (record {
                mpe_contract_address = h.mpe_contract_address;
                channel_id = channel_id;
                channel_nonce = channel_nonce;
                amount = amount;
                signature = signature;
              })

  -- Payment from IncomeStreamValidator.Validate on.
  unfoldable pub check_income :
      GrpcContext → Payment → PaymentTransaction S → S → GrpcResult (PaymentTransaction S) × S
  check_income context payment tx s =
      let income = payment.amount -ℤ tx.channel.authorized_amount in
      let (r, s1) = validate_income h.income_validator income context s in
      elim r [
        | ok _ ↦ (accepted tx, s1)
        | err e ↦ (refused (payment_error_to_grpc_error e), (rollback tx s1).1)
      ]

  -- Payment from StartPaymentTransaction on.
  unfoldable pub start_and_check : GrpcContext → Payment → S → GrpcResult (PaymentTransaction S) × S
  start_and_check context payment s =
      let (r, s1) = start_payment_transaction h.service payment s in
      elim r [
        | err e ↦ (refused (payment_error_to_grpc_error e), s1)
        | ok tx ↦ check_income context payment tx s1
      ]

  unfoldable pub payment : GrpcContext → S → GrpcResult (PaymentTransaction S) × S
  payment context s = elim (get_payment_from_context context) [
    | refused e ↦ (refused e, s)
    | accepted sent ↦ start_and_check context sent s
  ]

  -- Complete; the statistics that it publishes are left out.
  unfoldable pub complete : PaymentTransaction S → S → Option GrpcError × S
  complete tx s = let (r, s') = commit h.service tx s in (to_grpc r, s')

  unfoldable pub complete_after_error :
      PaymentTransaction S → ServiceError → S → Option GrpcError × S
  complete_after_error tx result s = let (r, s') = rollback tx s in (to_grpc r, s')

  -- The methods as the interface; a payment transaction has GetSender.
  abbrev pub escrow_payment_handler : PaymentHandler S (PaymentTransaction S)
  escrow_payment_handler = record {
    type_name = "escrow";
    payment = payment;
    complete = complete;
    complete_after_error = complete_after_error;
    sender = λ tx. some (h.hex tx.channel.sender);
  }
