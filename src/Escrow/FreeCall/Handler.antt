-- ===== src/Escrow/FreeCall/Handler.antt =====
-- escrow/free_call_payment_handler.go: freeCallPaymentHandler.
use snet_daemon.Prelude.{String, Option, none}
use snet_daemon.Prelude.Int.{ℤ}
use snet_daemon.Effects.{ok, err}
use snet_daemon.Handler.Grpc.{
  GrpcContext, GrpcError, GrpcResult, accepted, refused, new_grpc_error, invalid_argument_code,
  get_single_value, get_big_int, get_bytes, payment_channel_signature_header, ServiceError,
  PaymentHandler, bind_grpc,
}
use snet_daemon.Escrow.PaymentHandler.{payment_error_to_grpc_error, to_grpc}
use snet_daemon.Escrow.FreeCall.{
  FreeCallPayment, FreeCallUserService, FreeCallTransaction, start_free_call_user_transaction,
  commit_free_call, rollback_free_call,
}
use snet_daemon.Escrow.FreeCall.Validator.{
  FreeCallPaymentValidator, validate_free_call, parse_free_call_token,
}

abbrev pub free_call_user_id_header : String
free_call_user_id_header = "snet-free-call-user-id"

abbrev pub free_call_user_address_header : String
free_call_user_address_header = "snet-free-call-user-address"

abbrev pub current_block_number_header : String
current_block_number_header = "snet-current-block-number"

abbrev pub free_call_auth_token_header : String
free_call_auth_token_header = "snet-free-call-auth-token-bin"

-- `unmarshal` is big.Int's UnmarshalText and `group_id` the metadata's GetGroupIdString().
pub record FreeCallPaymentHandler (S : Type 0) : Type 0 where
  pub service : FreeCallUserService S
  pub validator : FreeCallPaymentValidator S
  pub group_id : String
  pub unmarshal : String → Option ℤ

-- The value that GetSingleValue returns when its error is ignored.
abbrev pub value_or_empty : GrpcResult String → String
value_or_empty (accepted value) = value
value_or_empty (refused _) = ""

module _ {S : Type 0} (h : FreeCallPaymentHandler S) where
  unfoldable pub get_free_call_payment_from_context : GrpcContext → GrpcResult FreeCallPayment
  get_free_call_payment_from_context context =
      bind_grpc (get_single_value context.md free_call_user_address_header) λ user_address.
        bind_grpc (get_big_int h.unmarshal context.md current_block_number_header) λ block_number.
          bind_grpc (get_bytes context.md payment_channel_signature_header) λ signature.
            bind_grpc (get_bytes context.md free_call_auth_token_header) λ auth_token.
              elim (parse_free_call_token h.validator.set_string auth_token) [
                | err _ ↦ refused (new_grpc_error invalid_argument_code "invalid token: %v")
                | ok (parsed_token, block_expiration) ↦ accepted (record {
                  organization_id = h.validator.settings.organization_id;
                  service_id = h.validator.settings.service_id;
                  user_id = value_or_empty (get_single_value context.md free_call_user_id_header);
                  address = user_address;
                  current_block_number = block_number;
                  signature = signature;
                  auth_token_expiry_block_number = block_expiration;
                  auth_token = auth_token;
                  auth_token_parsed = parsed_token;
                  group_id = h.group_id;
                })
              ]

  -- Payment from StartFreeCallUserTransaction on.
  unfoldable pub start_free_call : FreeCallPayment → S → GrpcResult (FreeCallTransaction S) × S
  start_free_call sent s =
      let (r, s1) = start_free_call_user_transaction h.service sent s in
      elim r [ ok tx ↦ (accepted tx, s1) | err e ↦ (refused (payment_error_to_grpc_error e), s1) ]

  -- Payment from Validate on.
  unfoldable pub validate_and_start : FreeCallPayment → S → GrpcResult (FreeCallTransaction S) × S
  validate_and_start sent s =
      let (r, s1) = validate_free_call h.validator sent s in
      elim r [
        | ok _ ↦ start_free_call sent s1
        | err e ↦ (refused (payment_error_to_grpc_error e), s1)
      ]

  unfoldable pub free_call_payment : GrpcContext → S → GrpcResult (FreeCallTransaction S) × S
  free_call_payment context s = elim (get_free_call_payment_from_context context) [
    | refused e ↦ (refused e, s)
    | accepted sent ↦ validate_and_start sent s
  ]

  unfoldable pub complete_free_call : FreeCallTransaction S → S → Option GrpcError × S
  complete_free_call tx s = let (r, s') = commit_free_call h.service tx s in (to_grpc r, s')

  unfoldable pub complete_free_call_after_error :
      FreeCallTransaction S → ServiceError → S → Option GrpcError × S
  complete_free_call_after_error tx result s =
      let (r, s') = rollback_free_call tx s in (to_grpc r, s')

  -- The methods as the interface; a free call transaction has no sender.
  abbrev pub free_call_payment_handler : PaymentHandler S (FreeCallTransaction S)
  free_call_payment_handler = record {
    type_name = "free-call";
    payment = free_call_payment;
    complete = complete_free_call;
    complete_after_error = complete_free_call_after_error;
    sender = λ tx. none;
  }
