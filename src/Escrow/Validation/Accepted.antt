-- ===== src/Escrow/Validation/Accepted.antt =====
-- What a successful ChannelPaymentValidator.Validate has checked, and each of its refusals.
use snet_daemon.Prelude.{◌≡◌, ◌⊎◌, arith, inl, inr}
use snet_daemon.Prelude.Int.{ℤ, ◌+ℤ◌, ◌≤ℤ◌, ◌<ℤ◌, eq_of_parts}
use snet_daemon.Effects.{ok, Result-cases}
use snet_daemon.Crypto.{Address}
use snet_daemon.Escrow.Channel.{Payment, PaymentChannelData}
use snet_daemon.Escrow.Validation.{
  ChannelPaymentValidator, validate, get_signer_address_from_payment,
}

module _ {S : Type 0} (validator : ChannelPaymentValidator S) where
  -- The payment fits the channel at the block that the node reports.
  pub record IsAccepted (payment : Payment) (channel : PaymentChannelData) (s : S) : Type 0 where
    pub nonce : payment.channel_nonce ≡ channel.nonce
    pub signer : Address
    pub signed : get_signer_address_from_payment validator.crypto payment ≡ ok signer
    pub by_channel : (signer ≡ channel.signer) ⊎ (signer ≡ channel.sender)
    pub block : ℤ
    pub at_block : (validator.current_block s).0 ≡ ok block
    pub not_expired : block +ℤ validator.payment_expiration_threshold <ℤ channel.expiration
    pub covered : payment.amount ≤ℤ channel.full_amount

  pub validate-IsAccepted :
      (payment : Payment) (channel : PaymentChannelData) (s : S)
      → (validate validator payment channel s).0 ≡ ok tt
      → IsAccepted payment channel s
  unfolding validate
  validate-IsAccepted payment channel s h =
      elim (Result-cases (get_signer_address_from_payment validator.crypto payment)) [
        | inr (e, bad) ↦ absurd (ground (arith, bad))
        | inl (a, good) ↦ elim (Result-cases (validator.current_block s).0) [
          | inr (e, bad) ↦ absurd (ground (arith, bad))
          | inl (b, at) ↦ record {
            nonce = ground (arith, eq_of_parts payment.channel_nonce channel.nonce);
            signer = a;
            signed = good;
            by_channel = ground arith;
            block = b;
            at_block = at;
            not_expired = ground arith;
            covered = ground arith;
          }
        ]
      ]
