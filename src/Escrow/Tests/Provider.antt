-- ===== src/Escrow/Tests/Provider.antt =====
-- The provider claims what is authorized on channel 7.
use snet_daemon.Prelude.{ℕ, List, ◌++◌, none, some, [], ◌∷◌, ◌≡◌, ◌⊎◌, refl}
use snet_daemon.Prelude.Int.{pos, ◌+ℤ◌, ◌-ℤ◌, to_int64}
use snet_daemon.Effects.{ok, pure}
use snet_daemon.Crypto.{
  text_bytes, address_bytes, big_int_to_bytes, u256_bytes, get_signer_address_from_message,
  parse_signature, bytes_to_big_int,
}
use snet_daemon.Escrow.Channel.{
  PaymentChannelData, payment_id, get_payment_from_channel,
  merge_storage_and_blockchain_channel_state,
}
use snet_daemon.Escrow.Lock.{always_unlock}
use snet_daemon.Escrow.Storages.{get_channel_state_from_blockchain}
use snet_daemon.Escrow.Validation.{compare_with_latest_block_number}
use snet_daemon.Escrow.ChannelService.{
  Claim, payment_channel, payment_channel_from_blockchain, combine, start_claim, claim_locked,
  list_claims, finish,
}
use snet_daemon.Escrow.ProviderControl.{
  ProviderControlService, StartClaimRequest, StartMultipleClaimRequest, PaymentReply, claim_reply,
  begin_claim_on_channel, remove_claimed, remove_claimed_payments, check_mpe_address, verify_signer,
  verify_signer_for_start_claim, control_start_claim, start_claims,
  start_claim_for_multiple_channels,
}
use snet_daemon.Escrow.ProviderControl.Ids.{IsAscending, HasSame, bytes_of_ids}
use snet_daemon.Escrow.ProviderControl.Authorization.{
  IsSigned, IsRecent, start_multiple_authorized, start_claim_authorized,
}
use snet_daemon.Escrow.ProviderControl.Claiming.{
  begin_claim_ok, HasCleared, remove_claimed-HasCleared,
}
use snet_daemon.Escrow.World.{View, set_payment, set_channel}
use snet_daemon.Escrow.Ideal.{ideal_service, ideal_world, ideal_crypto, same_view}
use snet_daemon.Escrow.Tests.Channels.{desk, claim, signature, unlocks}

abbrev service : ProviderControlService View
service = record {
  channel_service = ideal_service;
  metadata_mpe_address = 1;
  payment_address = 13;
  current_block = pure (pos 100);
  mpe_address = 1;
  hex_to_address = λ text. 1;
  crypto = ideal_crypto;
}

abbrev reply : PaymentReply
reply = claim_reply service (pos 7) claim.payment

begun : (begin_claim_on_channel service (pos 7) desk).0 ≡ ok reply
unfolding begin_claim_on_channel payment_channel combine payment_channel_from_blockchain
    get_channel_state_from_blockchain merge_storage_and_blockchain_channel_state start_claim
    always_unlock claim_locked get_payment_from_channel
begun = refl

begin_claim_ok_example :
    (channel : PaymentChannelData) × (desk.channels (pos 7) ≡ some channel)
    × (reply ≡ record {
      channel_id = big_int_to_bytes (pos 7);
      channel_nonce = big_int_to_bytes channel.nonce;
      signature = channel.signature;
      signed_amount = big_int_to_bytes channel.authorized_amount;
      channel_expiry = [];
    })
    × ((begin_claim_on_channel service (pos 7) desk).1
        ≡ set_payment
            (payment_id channel.channel_id channel.nonce)
            (some (record {
              mpe_contract_address = 0;
              channel_id = channel.channel_id;
              channel_nonce = channel.nonce;
              amount = channel.authorized_amount;
              signature = channel.signature;
            }))
            (set_channel
              (pos 7)
              (record channel {
                nonce = channel.nonce +ℤ pos 1;
                full_amount = channel.full_amount -ℤ channel.authorized_amount;
                authorized_amount = pos 0;
                signature = [];
              })
              desk))
begin_claim_ok_example =
    begin_claim_ok same_view service ideal_world (pos 7) reply desk unlocks begun

-- A claim of nonce 2, which is over: the node reports nonce 3.
abbrev old_claim : Claim
old_claim = record { payment = record (claim.payment) { channel_nonce = pos 2 } }

remove_claimed-HasCleared_example :
    HasCleared same_view service ideal_world
      (old_claim ∷ [])
      desk
      (remove_claimed service (old_claim ∷ []) desk).1
unfolding remove_claimed payment_channel_from_blockchain get_channel_state_from_blockchain finish
remove_claimed-HasCleared_example =
    remove_claimed-HasCleared same_view service ideal_world (old_claim ∷ []) desk refl

abbrev request : StartClaimRequest
request = record { mpe_address = "0x01"; channel_id = 7 ∷ []; signature = signature }

provider_run : (control_start_claim service request desk).0 ≡ ok reply
unfolding control_start_claim verify_signer_for_start_claim bytes_to_big_int payment_channel combine
    payment_channel_from_blockchain get_channel_state_from_blockchain
    merge_storage_and_blockchain_channel_state start_claim always_unlock claim_locked
    get_payment_from_channel check_mpe_address verify_signer get_signer_address_from_message
    parse_signature remove_claimed_payments list_claims remove_claimed begin_claim_on_channel
provider_run = refl

start_claim_authorized_example :
    (service.hex_to_address "0x01" ≡ service.mpe_address)
    × (((payment_channel ideal_service (record { id = pos 7 }) desk).0 ≡ ok none)
        ⊎ ((latest : PaymentChannelData) × ((payment_channel ideal_service
                (record { id = pos 7 })
                desk).0
              ≡ ok (some latest))
            × IsSigned service
                (text_bytes "__start_claim"
                  ++ (address_bytes 1
                      ++ (big_int_to_bytes (pos 7) ++ big_int_to_bytes latest.nonce)))
                signature))
unfolding bytes_to_big_int
start_claim_authorized_example = start_claim_authorized service request reply desk provider_run

abbrev multiple : StartMultipleClaimRequest
multiple = record {
  mpe_address = "0x01";
  channel_ids = 7 ∷ [];
  current_block = 98;
  signature = signature;
}

multiple_run : (start_claim_for_multiple_channels service multiple desk).0 ≡ ok (reply ∷ [])
unfolding start_claim_for_multiple_channels compare_with_latest_block_number start_claims ◌-ℤ◌
    payment_channel combine payment_channel_from_blockchain get_channel_state_from_blockchain
    merge_storage_and_blockchain_channel_state start_claim always_unlock claim_locked
    get_payment_from_channel check_mpe_address verify_signer get_signer_address_from_message
    parse_signature remove_claimed_payments list_claims remove_claimed begin_claim_on_channel
multiple_run = refl

start_multiple_authorized_example :
    (service.hex_to_address "0x01" ≡ service.mpe_address)
    × IsRecent service 98 desk
    × ((ids : List ℕ) × IsAscending ids
        × HasSame ids (7 ∷ [])
        × IsSigned service
            (text_bytes "__StartClaimForMultipleChannels_"
              ++ (address_bytes 1 ++ (bytes_of_ids ids ++ u256_bytes (to_int64 98))))
            signature)
start_multiple_authorized_example =
    start_multiple_authorized service multiple (reply ∷ []) desk multiple_run
