-- ===== src/Escrow/Storages.antt =====
-- escrow/payment_channel_storage.go and escrow/payment_storage.go: the typed storages of channels
-- and of payments that are being claimed, and the reader of the blockchain's channel state.
use snet_daemon.Prelude.{String, Option, none, some, [], not, ◌==◌, if◌then◌else◌}
use snet_daemon.Prelude.Int.{ℤ, pos}
use snet_daemon.Effects.{Result, ok, plain, Action, pure, fail, ◌>>=◌}
use snet_daemon.Crypto.{Bytes, Address}
use snet_daemon.Storage.Interface.{AtomicStorage}
use snet_daemon.Storage.Prefixed.{prefixed_storage}
use snet_daemon.Storage.Typed.{TypedAtomicStorage, Codec, typed_storage}
use snet_daemon.Escrow.Channel.{
  Payment, PaymentChannelKey, PaymentChannelData, opened, id_of_payment, key_string,
}

-- serialize and deserialize at one type: encoding/gob, a parameter.
pub record Gob (V : Type 0) : Type 0 where
  pub encode : V → Result String
  pub decode : String → Result V

abbrev pub channel_codec : Gob PaymentChannelData → Codec PaymentChannelKey PaymentChannelData
channel_codec gob = record {
  key_serializer = λ key. ok (key_string key);
  value_serializer = gob.encode;
  value_deserializer = gob.decode;
}

abbrev pub payment_codec : Gob Payment → Codec String Payment
payment_codec gob = record {
  key_serializer = λ key. ok key;
  value_serializer = gob.encode;
  value_deserializer = gob.decode;
}

abbrev pub PaymentChannelStorage : Type 0 → Type 0
PaymentChannelStorage S = TypedAtomicStorage S PaymentChannelKey PaymentChannelData

module _ {S T : Type 0} (atomic : AtomicStorage S T) where
  abbrev pub new_payment_channel_storage : Gob PaymentChannelData → PaymentChannelStorage S
  new_payment_channel_storage gob =
      typed_storage (channel_codec gob) (prefixed_storage atomic "/payment-channel/storage")

  abbrev pub new_payment_storage : Gob Payment → TypedAtomicStorage S String Payment
  new_payment_storage gob =
      typed_storage (payment_codec gob) (prefixed_storage atomic "/payment/storage")

module _ {S : Type 0} (delegate : TypedAtomicStorage S String Payment) where
  -- PaymentStorage.Put and Delete
  abbrev pub put_payment : Payment → Action S (Unit {0})
  put_payment payment = delegate.put (id_of_payment payment) payment

  abbrev pub delete_payment : Payment → Action S (Unit {0})
  delete_payment payment = delegate.delete (id_of_payment payment)

-- MultiPartyEscrowChannel of blockchain/escrow.go.
pub record MultiPartyEscrowChannel : Type 0 where
  pub sender : Address
  pub recipient : Address
  pub group_id : Bytes
  pub value : ℤ
  pub nonce : ℤ
  pub expiration : ℤ
  pub signer : Address

pub record BlockchainChannelReader (S : Type 0) : Type 0 where
  pub read_channel_from_blockchain : ℤ → Action S (Option MultiPartyEscrowChannel)
  pub recipient_payment_address : Address

abbrev pub channel_from_blockchain :
    PaymentChannelKey → MultiPartyEscrowChannel → PaymentChannelData
channel_from_blockchain key ch = record {
  channel_id = key.id;
  nonce = ch.nonce;
  state = opened;
  sender = ch.sender;
  recipient = ch.recipient;
  group_id = ch.group_id;
  full_amount = ch.value;
  expiration = ch.expiration;
  signer = ch.signer;
  authorized_amount = pos 0;
  signature = [];
}

-- BlockchainChannelReader.GetChannelStateFromBlockchain
unfoldable pub get_channel_state_from_blockchain :
    {S : Type 0}
    → BlockchainChannelReader S
    → PaymentChannelKey
    → Action S (Option PaymentChannelData)
get_channel_state_from_blockchain reader key = do
  found ← reader.read_channel_from_blockchain key.id
  elim found [
    | none ↦ pure none
    | some ch ↦
        if not (reader.recipient_payment_address == ch.recipient)
        then fail (
            plain
              "recipient Address from org metadata does not Match on what was retrieved from Channel")
        else pure (some (channel_from_blockchain key ch))
  ]
