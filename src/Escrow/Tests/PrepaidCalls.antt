-- ===== src/Escrow/Tests/PrepaidCalls.antt =====
-- A prepaid call of 2 tokens on channel 7 that fails, and is refunded.
use snet_daemon.Prelude.{◌≡◌, refl, none, some, [], ◌∷◌, str_eq, if◌then◌else◌}
use snet_daemon.Prelude.Int.{ℤ, pos, ◌+ℤ◌, ◌-ℤ◌, ◌≤ℤ◌}
use snet_daemon.Effects.{pure}
use snet_daemon.Handler.Grpc.{GrpcContext, accepted, get_single_value, get_big_int}
use snet_daemon.Escrow.PaymentHandler.{to_grpc}
use snet_daemon.Escrow.Prepaid.{
  update_usage, condition_func, increment_used_amount, increment_refund_amount,
  convert_typed_data_to_prepaid_usage, read_entries, read_entry, update_details,
  build_old_and_new_values_for_cas, get_amount_for_usage_type,
}
use snet_daemon.Escrow.Prepaid.Usage.{Usages}
use snet_daemon.Escrow.PrepaidHandler.{
  PrePaidTransaction, PrePaidPaymentHandler, get_prepaid_payment_from_context, validate_prepaid,
  charge_prepaid, prepaid_payment, complete_prepaid_after_error,
}
use snet_daemon.Escrow.PrepaidHandler.Refunds.{balance, KeepsUsages, failed_call_costs_nothing}
use snet_daemon.Escrow.Tests.Prepaid.{storage, plain_view, transactional, usages}

abbrev handler : PrePaidPaymentHandler Usages
handler = record {
  prepaid_storage = storage;
  get_price = λ context. pure (pos 2);
  token_manager = record {
    create_token = λ id user. pure "t";
    verify_token = λ token id. pure "0x0B";
  };
  organization_id = "o";
  group_id = "g";
  hex_to_address = λ text. 11;
  hex = λ address. "0x0B";
  unmarshal = λ text. if str_eq text "7" then some (pos 7) else none;
}

abbrev context : GrpcContext
context = record {
  md = ("snet-payment-channel-id", "7" ∷ []) ∷ ("snet-prepaid-auth-token-bin", "t" ∷ []) ∷ [];
  full_method = "/s/m";
}

abbrev call : PrePaidTransaction
call = record { channel_id = pos 7; price = pos 2; signer = 11 }

abbrev after_call : Usages
after_call = (prepaid_payment handler context usages).1

keeps : KeepsUsages handler plain_view transactional
keeps = record { get_price = λ c s. refl; verify_token = λ token id s. refl }

call_run : (prepaid_payment handler context usages).0 ≡ accepted call
unfolding prepaid_payment get_prepaid_payment_from_context get_single_value get_big_int
    charge_prepaid validate_prepaid update_usage condition_func increment_used_amount
    convert_typed_data_to_prepaid_usage read_entries read_entry update_details
    build_old_and_new_values_for_cas get_amount_for_usage_type ◌+ℤ◌
call_run = refl

refund_run : (complete_prepaid_after_error handler call "failed" after_call).0 ≡ none
unfolding prepaid_payment get_prepaid_payment_from_context get_single_value get_big_int
    charge_prepaid validate_prepaid update_usage condition_func increment_used_amount
    increment_refund_amount complete_prepaid_after_error to_grpc convert_typed_data_to_prepaid_usage
    read_entries read_entry update_details build_old_and_new_values_for_cas
    get_amount_for_usage_type ◌+ℤ◌
refund_run = refl

failed_call_costs_nothing_example :
    (pos 2 ≤ℤ balance usages (pos 7))
    × (balance after_call (pos 7) ≡ balance usages (pos 7) -ℤ pos 2)
    × ((id : ℤ)
        → balance (complete_prepaid_after_error handler call "failed" after_call).1 id
          ≡ balance usages id)
failed_call_costs_nothing_example =
    failed_call_costs_nothing handler plain_view transactional keeps context call "failed" usages
      after_call call_run refl refund_run
