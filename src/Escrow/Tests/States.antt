-- ===== src/Escrow/Tests/States.antt =====
-- The signer of channel 7 asks for its state at block 98.
use snet_daemon.Prelude.{◌≡◌, refl, [], ◌∷◌}
use snet_daemon.Prelude.Int.{pos, ◌-ℤ◌}
use snet_daemon.Effects.{ok, pure}
use snet_daemon.Crypto.{
  get_signer_address_from_message, parse_signature, bytes_to_big_int, big_int_to_bytes,
}
use snet_daemon.Escrow.Channel.{merge_storage_and_blockchain_channel_state}
use snet_daemon.Escrow.Storages.{get_channel_state_from_blockchain}
use snet_daemon.Escrow.Validation.{compare_with_latest_block_number}
use snet_daemon.Escrow.ChannelService.{payment_channel, payment_channel_from_blockchain, combine}
use snet_daemon.Escrow.StateService.{
  ChannelStateRequest, ChannelStateReply, PaymentChannelStateService, get_channel_state, reply_for,
  storage_nonce_matches_with_blockchain_nonce,
}
use snet_daemon.Escrow.StateService.Replies.{IsAnswered, get_channel_state-IsAnswered}
use snet_daemon.Escrow.World.{View}
use snet_daemon.Escrow.Ideal.{ideal_service, ideal_crypto}
use snet_daemon.Escrow.Tests.Channels.{desk, signature}

abbrev service : PaymentChannelStateService View
service = record {
  channel_service = ideal_service;
  mpe_address = 1;
  current_block = pure (pos 100);
  crypto = ideal_crypto;
}

abbrev request : ChannelStateRequest
request = record { channel_id = 7 ∷ []; signature = signature; current_block = 98 }

-- 6 tokens are authorized with nonce 3.
abbrev reply : ChannelStateReply
reply = record {
  current_nonce = big_int_to_bytes (pos 3);
  current_signed_amount = big_int_to_bytes (pos 6);
  current_signature = 13 ∷ [];
  old_nonce_signed_amount = [];
  old_nonce_signature = [];
}

state_run : (get_channel_state service request desk).0 ≡ ok reply
unfolding get_channel_state reply_for storage_nonce_matches_with_blockchain_nonce bytes_to_big_int
    payment_channel combine payment_channel_from_blockchain get_channel_state_from_blockchain
    merge_storage_and_blockchain_channel_state compare_with_latest_block_number ◌-ℤ◌
    get_signer_address_from_message parse_signature
state_run = refl

get_channel_state-IsAnswered_example : IsAnswered service request reply desk
get_channel_state-IsAnswered_example =
    get_channel_state-IsAnswered service request reply desk state_run
