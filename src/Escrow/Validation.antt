-- ===== src/Escrow/Validation.antt =====
-- escrow/validation.go: the signer of a payment and ChannelPaymentValidator.
pub mod Accepted
pub mod Message
use snet_daemon.Prelude.{ℕ, ◌%◌, ◌^◌, not, ◌&&◌, ◌++◌, ◌==◌, ltb}
use snet_daemon.Prelude.Int.{ℤ, ◌+ℤ◌, ◌-ℤ◌, ltb_ℤ, leb_ℤ, eqb_ℤ, abs}
use snet_daemon.Effects.{
  Result, ok, payment_error, plain, internal, unauthenticated, incorrect_nonce, Action, lift,
  fail_if, or_error, ◌>>=◌, ◌>>◌, bind_result,
}
use snet_daemon.Crypto.{
  Bytes, Address, Crypto, text_bytes, address_bytes, big_int_to_bytes,
  get_signer_address_from_message, check_curation_validations,
}
use snet_daemon.Escrow.Channel.{Payment, PaymentChannelData}

-- The message that a payment's signature signs.
unfoldable pub payment_message : Payment → Bytes
payment_message payment =
    text_bytes "__MPE_claim_message"
    ++ (address_bytes payment.mpe_contract_address
        ++ (big_int_to_bytes payment.channel_id
            ++ (big_int_to_bytes payment.channel_nonce ++ big_int_to_bytes payment.amount)))

-- getSignerAddressFromPayment
unfoldable pub get_signer_address_from_payment : Crypto → Payment → Result Address
get_signer_address_from_payment crypto payment =
    bind_result (get_signer_address_from_message crypto (payment_message payment) payment.signature)
      λ signer. bind_result (check_curation_validations crypto signer) (λ _. ok signer)

pub record ChannelPaymentValidator (S : Type 0) : Type 0 where
  pub current_block : Action S ℤ
  pub payment_expiration_threshold : ℤ
  pub crypto : Crypto

-- ChannelPaymentValidator.Validate
unfoldable pub validate :
    {S : Type 0} → ChannelPaymentValidator S → Payment → PaymentChannelData → Action S (Unit {0})
validate validator payment channel = do
  fail_if (not (eqb_ℤ payment.channel_nonce channel.nonce))
      (payment_error incorrect_nonce "incorrect payment channel nonce, latest: %v, sent: %v")
  signer ←
      or_error (lift (get_signer_address_from_payment validator.crypto payment))
        (payment_error unauthenticated "payment signature is not valid")
  fail_if (not (signer == channel.signer) && not (signer == channel.sender))
      (payment_error unauthenticated "payment is not signed by channel signer/sender")
  current ←
      or_error validator.current_block (payment_error internal "cannot determine current block")
  fail_if (leb_ℤ channel.expiration (current +ℤ validator.payment_expiration_threshold)) (
      payment_error unauthenticated
        "payment channel is near to be expired, expiration time: %v, current block: %v, expiration threshold: %v")
  fail_if (ltb_ℤ channel.full_amount payment.amount) (
      payment_error unauthenticated
        "not enough tokens on payment channel, channel amount: %v, payment amount: %v")

-- AllowedBlockDifference of escrow/state_service.go.
abbrev pub allowed_block_difference : ℕ
allowed_block_difference = 5

-- compareWithLatestBlockNumber, and processor.CompareWithLatestBlockNumber of
-- blockchain/blockchain.go: Uint64() keeps the low 64 bits of the difference.
unfoldable pub compare_with_latest_block_number :
    {S : Type 0} → Action S ℤ → ℤ → Action S (Unit {0})
compare_with_latest_block_number current_block block = do
  latest ← current_block
  fail_if (ltb allowed_block_difference (abs (block -ℤ latest) % 2 ^ 64))
      (plain "authentication failed as the signature passed has expired")
