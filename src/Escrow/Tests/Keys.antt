-- ===== src/Escrow/Tests/Keys.antt =====
-- The keys of channel 7 and its payment of nonce 3.
use snet_daemon.Prelude.{◌≡◌, refl}
use snet_daemon.Prelude.Int.{pos}
use snet_daemon.Escrow.Channel.{PaymentChannelKey}
use snet_daemon.Escrow.Channel.Keys.{payment_id_inj, key_string_inj}

payment_id_inj_example : (pos 7 ≡ pos 7) × (pos 3 ≡ pos 3)
payment_id_inj_example = payment_id_inj (pos 7) (pos 3) (pos 7) (pos 3) refl

abbrev channel_7 : PaymentChannelKey
channel_7 = record { id = pos 7 }

key_string_inj_example : channel_7 ≡ channel_7
key_string_inj_example = key_string_inj channel_7 channel_7 refl
