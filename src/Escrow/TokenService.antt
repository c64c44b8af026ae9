-- ===== src/Escrow/TokenService.antt =====
-- escrow/token_service.go: TokenService, which takes payments ahead of prepaid calls.
pub mod Planning
use snet_daemon.Prelude.{ℕ, String, not, ◌++◌, Option, none, some, if◌then◌else◌}
use snet_daemon.Prelude.Int.{ℤ, pos, ◌-ℤ◌, ltb_ℤ, to_int64, to_uint64}
use snet_daemon.Effects.{
  Result, ok, err, plain, Action, pure, fail, lift, or_error, fail_if, ◌>>=◌, ◌>>◌,
}
use snet_daemon.Crypto.{Bytes, Address, u256_bytes, get_signer_address_from_message}
use snet_daemon.Storage.Typed.{TypedAtomicStorage}
use snet_daemon.Token.{Manager}
use snet_daemon.Escrow.Channel.{Payment, PaymentChannelData}
use snet_daemon.Escrow.Validation.{
  ChannelPaymentValidator, validate, compare_with_latest_block_number,
}
use snet_daemon.Escrow.ChannelService.{
  LockingPaymentChannelService, payment_channel, start_payment_transaction, commit,
}
use snet_daemon.Escrow.Prepaid.{
  PrePaidData, PrePaidDataKey, get_usage, update_usage, used_amount_type, planned_amount_type,
}
use snet_daemon.Escrow.StateService.{is_of_channel}

-- Requests and replies of escrow/token_service.proto.
pub record TokenRequest : Type 0 where
  pub channel_id : ℕ
  pub current_nonce : ℕ
  pub signed_amount : ℕ
  pub signature : Bytes
  pub current_block : ℕ
  pub claim_signature : Bytes

pub record TokenReply : Type 0 where
  pub channel_id : ℕ
  pub token : String
  pub planned_amount : ℕ
  pub used_amount : ℕ

-- `hex` is Address.Hex and `mpe_address` the metadata's GetMpeAddress().
pub record TokenService (S : Type 0) : Type 0 where
  pub channel_service : LockingPaymentChannelService S
  pub prepaid_storage : TypedAtomicStorage S PrePaidDataKey PrePaidData
  pub token_manager : Manager S
  pub validator : ChannelPaymentValidator S
  pub mpe_address : Address
  pub hex : Address → String

abbrev amount_or_zero : Option PrePaidData → ℤ
amount_or_zero none = pos 0
amount_or_zero (some usage) = usage.amount

module _ {S : Type 0} (service : TokenService S) where
  abbrev pub get_payment : ℤ → ℤ → TokenRequest → Payment
  get_payment channel_id latest_authorized_amount request = record {
    mpe_contract_address = service.mpe_address;
    channel_id = channel_id;
    channel_nonce = pos request.current_nonce;
    amount = latest_authorized_amount;
    signature = request.claim_signature;
  }

  -- verifySignature
  unfoldable pub verify_signature : TokenRequest → PaymentChannelData → Action S Address
  verify_signature request channel = do
    sender ←
        or_error
          (lift (
            get_signer_address_from_message service.validator.crypto
              (request.claim_signature ++ u256_bytes (to_int64 request.current_block))
              request.signature))
          (plain "incorrect signature")
    fail_if (not (is_of_channel sender channel))
        (plain "only channel signer/sender/receiver can get a Valid Token")
    compare_with_latest_block_number service.validator.current_block (pos request.current_block)
    pure sender

  -- What verifySignatureAndSignedAmountEligibility does with an amount above the authorized one.
  unfoldable pub take_new_amount : ℤ → ℤ → Payment → PaymentChannelData → Action S (Unit {0})
  take_new_amount channel_id latest_authorized_amount payment channel = do
    transaction ← start_payment_transaction service.channel_service payment
    commit service.channel_service transaction
    update_usage service.prepaid_storage channel_id
        (latest_authorized_amount -ℤ channel.authorized_amount) planned_amount_type

  -- verifySignatureAndSignedAmountEligibility, with the channel that was read.
  unfoldable pub verify_with_channel : ℤ → ℤ → TokenRequest → PaymentChannelData → Action S Address
  verify_with_channel channel_id latest_authorized_amount request channel = do
    fail_if (ltb_ℤ latest_authorized_amount channel.authorized_amount)
        (plain "signed amount for token request needs to be greater than last signed amount")
    fail_if (ltb_ℤ channel.full_amount latest_authorized_amount)
        (plain "signed amount for token request cannot be greater than full amount in channel")
    signer ← verify_signature request channel
    let payment = get_payment channel_id latest_authorized_amount request
    validate service.validator payment channel
    if ltb_ℤ channel.authorized_amount latest_authorized_amount
        then take_new_amount channel_id latest_authorized_amount payment channel
        else pure tt
    pure signer

  -- verifySignatureAndSignedAmountEligibility; the test of ok stands before that of the error.
  unfoldable pub verify_signature_and_signed_amount_eligibility :
      ℤ → ℤ → TokenRequest → Action S Address
  verify_signature_and_signed_amount_eligibility channel_id latest_authorized_amount request = do
    found ←
        or_error (payment_channel service.channel_service (record { id = channel_id }))
          (plain "channel is not found, channelId: %v")
    elim found [
      | none ↦ fail (plain "channel is not found, channelId: %v")
      | some channel ↦ verify_with_channel channel_id latest_authorized_amount request channel
    ]

  -- GetToken after the request has been verified.
  unfoldable pub reply_with_token : ℤ → Address → TokenRequest → Action S TokenReply
  reply_with_token channel_id signer request = do
    used ←
        get_usage service.prepaid_storage
          (record { channel_id = channel_id; usage_type = used_amount_type })
    planned ←
        or_error
          (get_usage service.prepaid_storage
            (record { channel_id = channel_id; usage_type = planned_amount_type }))
          (plain "unable to retrieve planned Amount %v")
    elim planned [
      | none ↦ fail (plain "unable to retrieve planned Amount %v")
      | some usage ↦ do
        token ← service.token_manager.create_token channel_id (service.hex signer)
        pure (record {
          channel_id = request.channel_id;
          token = token;
          planned_amount = to_uint64 usage.amount;
          used_amount = to_uint64 (amount_or_zero used);
        })
    ]

  unfoldable pub get_token : TokenRequest → Action S TokenReply
  get_token request = do
    let channel_id = pos request.channel_id
    signer ←
        verify_signature_and_signed_amount_eligibility channel_id (pos request.signed_amount)
          request
    reply_with_token channel_id signer request
