-- ===== src/Escrow/Tests/Messages.antt =====
-- The message of the payment on channel 7.
use snet_daemon.Prelude.{◌≡◌, refl, arith}
use snet_daemon.Prelude.Int.{pos}
use snet_daemon.Escrow.Validation.Message.{FitsMessage, payment_message_inj}
use snet_daemon.Escrow.Tests.Channels.{payment}

fits : FitsMessage payment
fits = record {
  address = omega arith;
  channel_id = (omega arith, omega arith);
  channel_nonce = (omega arith, omega arith);
  amount = (omega arith, omega arith);
}

payment_message_inj_example :
    (payment.mpe_contract_address ≡ 1)
    × (payment.channel_id ≡ pos 7)
    × (payment.channel_nonce ≡ pos 3)
    × (payment.amount ≡ pos 9)
payment_message_inj_example = payment_message_inj payment payment fits fits refl
