-- ===== src/Escrow/PrepaidHandler.antt =====
-- escrow/prepaid_handler.go and escrow/prepaid_api.go: PrePaidPaymentHandler.
pub mod Refunds
use snet_daemon.Prelude.{String, Option, none, some}
use snet_daemon.Prelude.Int.{ℤ}
use snet_daemon.Effects.{Result, ok, err, Action, pure, ◌>>=◌, ◌>>◌}
use snet_daemon.Crypto.{Address}
use snet_daemon.Storage.Typed.{TypedAtomicStorage}
use snet_daemon.Token.{Manager}
use snet_daemon.Handler.Grpc.{
  GrpcContext, GrpcError, GrpcResult, accepted, refused, get_single_value, get_big_int,
  payment_channel_id_header, ServiceError, PaymentHandler, bind_grpc,
}
use snet_daemon.Escrow.PaymentHandler.{payment_error_to_grpc_error, to_grpc}
use snet_daemon.Escrow.Prepaid.{
  PrePaidData, PrePaidDataKey, update_usage, used_amount_type, refund_amount_type,
}

abbrev pub prepaid_auth_token_header : String
prepaid_auth_token_header = "snet-prepaid-auth-token-bin"

pub record PrePaidPayment : Type 0 where
  pub channel_id : ℤ
  pub organization_id : String
  pub group_id : String
  pub auth_token : String

pub record PrePaidTransaction : Type 0 where
  pub channel_id : ℤ
  pub price : ℤ
  pub signer : Address

-- `get_price` is the pricing strategy's GetPrice, `hex_to_address` common.HexToAddress and `hex`
-- Address.Hex.
pub record PrePaidPaymentHandler (S : Type 0) : Type 0 where
  pub prepaid_storage : TypedAtomicStorage S PrePaidDataKey PrePaidData
  pub get_price : GrpcContext → Action S ℤ
  pub token_manager : Manager S
  pub organization_id : String
  pub group_id : String
  pub hex_to_address : String → Address
  pub hex : Address → String
  pub unmarshal : String → Option ℤ

module _ {S : Type 0} (h : PrePaidPaymentHandler S) where
  unfoldable pub get_prepaid_payment_from_context : GrpcContext → GrpcResult PrePaidPayment
  get_prepaid_payment_from_context context =
      bind_grpc (get_big_int h.unmarshal context.md payment_channel_id_header) λ channel_id.
        bind_grpc (get_single_value context.md prepaid_auth_token_header) λ auth_token.
          accepted (record {
            channel_id = channel_id;
            organization_id = h.organization_id;
            group_id = h.group_id;
            auth_token = auth_token;
          })

  -- PrePaidPaymentValidator.Validate
  unfoldable pub validate_prepaid : PrePaidPayment → Action S Address
  validate_prepaid payment = do
    user_address ← h.token_manager.verify_token payment.auth_token payment.channel_id
    pure (h.hex_to_address user_address)

  -- Payment from GetPrice on.
  unfoldable pub charge_prepaid : GrpcContext → PrePaidPayment → Action S PrePaidTransaction
  charge_prepaid context payment = do
    price ← h.get_price context
    signer ← validate_prepaid payment
    update_usage h.prepaid_storage payment.channel_id price used_amount_type
    pure (record { channel_id = payment.channel_id; price = price; signer = signer })

  unfoldable pub prepaid_payment : GrpcContext → S → GrpcResult PrePaidTransaction × S
  prepaid_payment context s = elim (get_prepaid_payment_from_context context) [
    | refused e ↦ (refused e, s)
    | accepted sent ↦
        let (r, s') = charge_prepaid context sent s in
        elim r [
          | ok transaction ↦ (accepted transaction, s')
          | err e ↦ (refused (payment_error_to_grpc_error e), s')
        ]
  ]

  -- Complete only logs.
  unfoldable pub complete_prepaid : PrePaidTransaction → S → Option GrpcError × S
  complete_prepaid transaction s = (none, s)

  unfoldable pub complete_prepaid_after_error :
      PrePaidTransaction → ServiceError → S → Option GrpcError × S
  complete_prepaid_after_error transaction result s =
      let (r, s') =
        update_usage h.prepaid_storage transaction.channel_id transaction.price refund_amount_type
          s in
      (to_grpc r, s')

  -- The methods as the interface; a prepaid transaction has GetSender.
  abbrev pub prepaid_payment_handler : PaymentHandler S PrePaidTransaction
  prepaid_payment_handler = record {
    type_name = "prepaid-call";
    payment = prepaid_payment;
    complete = complete_prepaid;
    complete_after_error = complete_prepaid_after_error;
    sender = λ transaction. some (h.hex transaction.signer);
  }
