-- ===== src/Escrow/Channel.antt =====
-- escrow/payment_channel_api.go and escrow/payment_channel_storage.go: payments, channels, their
-- keys, the two channel updates, and the merge of the stored with the blockchain state.
pub mod Keys
use Prim.Native.String.{◌++◌}
use snet_daemon.Prelude.{String, [], if◌then◌else◌}
use snet_daemon.Prelude.Int.{ℤ, pos, ◌+ℤ◌, ◌-ℤ◌, ltb_ℤ}
use snet_daemon.Prelude.Decimal.{render}
use snet_daemon.Crypto.{Bytes, Address}

-- A nil and an empty signature are both [].
pub record Payment : Type 0 where
  pub mpe_contract_address : Address
  pub channel_id : ℤ
  pub channel_nonce : ℤ
  pub amount : ℤ
  pub signature : Bytes

pub record PaymentChannelKey : Type 0 where
  pub id : ℤ

pub data PaymentChannelState : Type 0 where
  opened closed : PaymentChannelState

pub record PaymentChannelData : Type 0 where
  pub channel_id : ℤ
  pub nonce : ℤ
  pub state : PaymentChannelState
  pub sender : Address
  pub recipient : Address
  pub group_id : Bytes
  pub full_amount : ℤ
  pub expiration : ℤ
  pub signer : Address
  pub authorized_amount : ℤ
  pub signature : Bytes

-- PaymentID, "%v/%v"
unfoldable pub payment_id : ℤ → ℤ → String
unfolding render
payment_id channel_id channel_nonce = render channel_id ++ ("/" ++ render channel_nonce)

-- payment.ID()
abbrev pub id_of_payment : Payment → String
id_of_payment payment = payment_id payment.channel_id payment.channel_nonce

-- PaymentChannelKey.String(), "{ID: %v}"
unfoldable pub key_string : PaymentChannelKey → String
unfolding render
key_string key = "{ID: " ++ (render key.id ++ "}")

-- The ChannelUpdate values CloseChannel and IncrementChannelNonce.
abbrev pub ChannelUpdate : Type 0
ChannelUpdate = PaymentChannelData → PaymentChannelData

unfoldable pub close_channel : ChannelUpdate
close_channel channel = record channel { full_amount = pos 0 }

unfoldable pub increment_channel_nonce : ChannelUpdate
increment_channel_nonce channel = record channel {
  nonce = channel.nonce +ℤ pos 1;
  full_amount = channel.full_amount -ℤ channel.authorized_amount;
  authorized_amount = pos 0;
  signature = [];
}

-- getPaymentFromChannel; the MPE contract address stays zero.
unfoldable pub get_payment_from_channel : PaymentChannelData → Payment
get_payment_from_channel channel = record {
  mpe_contract_address = 0;
  channel_id = channel.channel_id;
  channel_nonce = channel.nonce;
  amount = channel.authorized_amount;
  signature = channel.signature;
}

-- MergeStorageAndBlockchainChannelState
unfoldable pub merge_storage_and_blockchain_channel_state :
    PaymentChannelData → PaymentChannelData → PaymentChannelData
merge_storage_and_blockchain_channel_state storage blockchain =
    if ltb_ℤ blockchain.nonce storage.nonce
    then storage
    else if ltb_ℤ storage.nonce blockchain.nonce
    then blockchain
    else record storage { full_amount = blockchain.full_amount; expiration = blockchain.expiration }
