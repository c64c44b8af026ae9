-- ===== src/Escrow/StateService.antt =====
-- escrow/state_service.go: PaymentChannelStateService.
pub mod Replies
use snet_daemon.Prelude.{
  String, Bool, true, false, not, ◌&&◌, ◌==◌, ◌++◌, Option, none, some, List, [], ◌∷◌,
  if◌then◌else◌,
}
use snet_daemon.Prelude.Int.{ℤ, pos, ◌-ℤ◌, eqb_ℤ, to_int64}
use snet_daemon.Prelude.{ℕ}
use snet_daemon.Effects.{
  Result, ok, err, plain, Action, pure, fail, lift, or_error, fail_if, ◌>>=◌, ◌>>◌,
}
use snet_daemon.Crypto.{
  Bytes, Address, Crypto, text_bytes, address_bytes, big_int_to_bytes, bytes_to_big_int, u256_bytes,
  get_signer_address_from_message,
}
use snet_daemon.Escrow.Channel.{Payment, PaymentChannelData, payment_id}
use snet_daemon.Escrow.Validation.{compare_with_latest_block_number}
use snet_daemon.Escrow.ChannelService.{
  LockingPaymentChannelService, payment_channel, payment_channel_from_blockchain,
}

pub record ChannelStateRequest : Type 0 where
  pub channel_id : Bytes
  pub signature : Bytes
  pub current_block : ℕ

-- The fields that GetChannelState sets; those that it leaves out are [].
pub record ChannelStateReply : Type 0 where
  pub current_nonce : Bytes
  pub current_signed_amount : Bytes
  pub current_signature : Bytes
  pub old_nonce_signed_amount : Bytes
  pub old_nonce_signature : Bytes

pub record PaymentChannelStateService (S : Type 0) : Type 0 where
  pub channel_service : LockingPaymentChannelService S
  pub mpe_address : Address
  pub current_block : Action S ℤ
  pub crypto : Crypto

abbrev is_empty : Bytes → Bool
is_empty [] = true
is_empty (b ∷ bytes) = false

-- The reply where the nonces are equal.
abbrev pub current_reply : PaymentChannelData → ChannelStateReply
current_reply channel = record {
  current_nonce = big_int_to_bytes channel.nonce;
  current_signed_amount =
      if is_empty channel.signature then [] else big_int_to_bytes channel.authorized_amount;
  current_signature = channel.signature;
  old_nonce_signed_amount = [];
  old_nonce_signature = [];
}

-- The reply where they are not, with the last payment of the nonce before.
abbrev pub old_nonce_reply : PaymentChannelData → Payment → ChannelStateReply
old_nonce_reply channel old = record {
  current_nonce = big_int_to_bytes channel.nonce;
  current_signed_amount = big_int_to_bytes channel.authorized_amount;
  current_signature = channel.signature;
  old_nonce_signed_amount = big_int_to_bytes old.amount;
  old_nonce_signature = old.signature;
}

-- A signer that may read the channel: channel.Signer, channel.Sender or channel.Recipient.
abbrev pub is_of_channel : Address → PaymentChannelData → Bool
is_of_channel signer channel = not (
    not (channel.signer == signer)
    && (not (signer == channel.sender) && not (signer == channel.recipient)))

module _ {S : Type 0} (service : PaymentChannelStateService S) where
  unfoldable pub channel_state_message : ChannelStateRequest → Bytes
  channel_state_message request =
      text_bytes "__get_channel_state"
      ++ (address_bytes service.mpe_address
          ++ (big_int_to_bytes (bytes_to_big_int request.channel_id)
              ++ u256_bytes (to_int64 request.current_block)))

  -- StorageNonceMatchesWithBlockchainNonce
  unfoldable pub storage_nonce_matches_with_blockchain_nonce : PaymentChannelData → Action S Bool
  storage_nonce_matches_with_blockchain_nonce channel = do
    found ←
        or_error
          (payment_channel_from_blockchain service.channel_service
            (record { id = channel.channel_id }))
          (plain "channel error:")
    elim found [
      | none ↦ fail (plain "unable to read channel details from blockchain.")
      | some blockchain ↦ pure (eqb_ℤ channel.nonce blockchain.nonce)
    ]

  -- GetChannelState where the nonces differ.
  unfoldable pub reply_with_old_nonce : PaymentChannelData → Action S ChannelStateReply
  reply_with_old_nonce channel = do
    old ←
        service.channel_service.payment_storage.get
          (payment_id channel.channel_id (channel.nonce -ℤ pos 1))
    elim old [
      | none ↦ fail (
          plain
            "channel has different nonce in local storage and blockchain and old payment is not found in storage")
      | some payment ↦ pure (old_nonce_reply channel payment)
    ]

  -- GetChannelState after the channel has been found.
  unfoldable pub reply_for :
      ChannelStateRequest → Address → PaymentChannelData → Action S ChannelStateReply
  reply_for request sender channel = do
    fail_if (not (is_of_channel sender channel))
        (plain "only channel signer/sender/receiver can get latest channel state")
    compare_with_latest_block_number service.current_block (to_int64 request.current_block)
    nonce_equal ← storage_nonce_matches_with_blockchain_nonce channel
    if nonce_equal then pure (current_reply channel) else reply_with_old_nonce channel

  unfoldable pub get_channel_state : ChannelStateRequest → Action S ChannelStateReply
  get_channel_state request = do
    sender ←
        or_error
          (lift (
            get_signer_address_from_message service.crypto (channel_state_message request)
              request.signature))
          (plain "incorrect signature")
    found ←
        or_error
          (payment_channel service.channel_service
            (record { id = bytes_to_big_int request.channel_id }))
          (plain "channel error:")
    elim found [
      | none ↦ fail (plain "channel is not found, channelId: %v")
      | some channel ↦ reply_for request sender channel
    ]
