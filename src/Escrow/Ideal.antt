-- ===== src/Escrow/Ideal.antt =====
-- A service over storages that never fail, a node at block 100 and a signature scheme in which the
-- first byte of a signature is its signer: a world that meets the contract, for tests.
use snet_daemon.Prelude.{
  String, true, false, none, some, List, [], ◌∷◌, ◌≡◌, subst, refl, arith, Bool-cases, inl, inr,
  ◌==◌, if◌then◌else◌,
}
use snet_daemon.Prelude.Int.{pos}
use snet_daemon.Effects.{ok}
use snet_daemon.Crypto.{Bytes, Address, Crypto}
use snet_daemon.Storage.Typed.{TypedAtomicStorage}
use snet_daemon.Escrow.Channel.{Payment}
use snet_daemon.Escrow.Storages.{
  MultiPartyEscrowChannel, BlockchainChannelReader, PaymentChannelStorage,
}
use snet_daemon.Escrow.Lock.{Lock, Locker}
use snet_daemon.Escrow.Validation.{ChannelPaymentValidator}
use snet_daemon.Escrow.ChannelService.{LockingPaymentChannelService}
use snet_daemon.Escrow.World.{View, set_channel, set_payment, set_lock, IsWorld}

abbrev pub ideal_channels : PaymentChannelStorage View
ideal_channels = record {
  get = λ key s. (ok (s.channels key.id), s);
  get_all = λ s. (ok [], s);
  put = λ key channel s. (ok tt, set_channel key.id channel s);
  put_if_absent = λ key channel s. (ok false, s);
  compare_and_swap = λ key prev new s. (ok false, s);
  delete = λ key s. (ok tt, s);
  execute_transaction = λ request s. (ok false, s);
}

-- The payments of these ids are listed.
abbrev pub listed : View → List String → List Payment
listed s [] = []
listed s (id ∷ ids) = elim (s.payments id) [ none ↦ listed s ids | some p ↦ p ∷ listed s ids ]

abbrev pub ideal_payments : List String → TypedAtomicStorage View String Payment
ideal_payments ids = record {
  get = λ id s. (ok (s.payments id), s);
  get_all = λ s. (ok (listed s ids), s);
  put = λ id payment s. (ok tt, set_payment id (some payment) s);
  put_if_absent = λ id payment s. (ok false, s);
  compare_and_swap = λ id prev new s. (ok false, s);
  delete = λ id s. (ok tt, set_payment id none s);
  execute_transaction = λ request s. (ok false, s);
}

abbrev pub ideal_lock : String → Lock View
ideal_lock name = record { unlock = λ s. (ok tt, set_lock name false s) }

abbrev pub ideal_locker : Locker View
ideal_locker = record {
  lock = λ name s.
      if s.locks name then (ok none, s) else (ok (some (ideal_lock name)), set_lock name true s);
}

abbrev first_byte : Bytes → Address
first_byte [] = 0
first_byte (b ∷ bytes) = b

abbrev pub ideal_crypto : Crypto
ideal_crypto = record {
  keccak256 = λ parts. [];
  sig_to_pub = λ hash signature. ok signature;
  pubkey_to_address = first_byte;
  allowed_user_flag = false;
  user_address = [];
}

abbrev pub ideal_validator : ChannelPaymentValidator View
ideal_validator = record {
  current_block = λ s. (ok (pos 100), s);
  payment_expiration_threshold = pos 10;
  crypto = ideal_crypto;
}

-- Channel 7 stands on the blockchain with 50 tokens, and no other.
abbrev chain_channel : MultiPartyEscrowChannel
chain_channel = record {
  sender = 11;
  recipient = 12;
  group_id = 1 ∷ [];
  value = pos 50;
  nonce = pos 3;
  expiration = pos 1000;
  signer = 13;
}

abbrev pub ideal_reader : BlockchainChannelReader View
ideal_reader = record {
  read_channel_from_blockchain = λ id s.
      (elim id [ pos n ↦ if n == 7 then ok (some chain_channel) else ok none | _ ↦ ok none ], s);
  recipient_payment_address = 12;
}

abbrev pub ideal_service : LockingPaymentChannelService View
ideal_service = record {
  storage = ideal_channels;
  payment_storage = ideal_payments ("7/3" ∷ []);
  blockchain_reader = ideal_reader;
  locker = ideal_locker;
  validator = ideal_validator;
  replica_group_id = 1 ∷ [];
}

abbrev pub same_view : View → View
same_view v = v

-- A lock that this locker gives is its own.
lock_is_ideal :
    (name : String) (l : Lock View) (s : View)
    → (ideal_locker.lock name s).0 ≡ ok (some l)
    → (s.locks name ≡ false) × (ideal_lock name ≡ l)
lock_is_ideal name l s e = elim (Bool-cases (s.locks name)) [
  | inl held ↦ absurd (ground (arith, held))
  | inr free ↦ (free, cc (rw free at e))
]

lock_given_ideal :
    (name : String) (l : Lock View) (s : View)
    → (ideal_locker.lock name s).0 ≡ ok (some l)
    → (s.locks name ≡ false)
      × ((ideal_locker.lock name s).1 ≡ set_lock name true s)
      × ((s' : View) → (l.unlock s').0 ≡ ok tt → (l.unlock s').1 ≡ set_lock name false s')
lock_given_ideal name l s e =
    let (free, same) = lock_is_ideal name l s e in
    (
      free,
      rw free,
      subst (λ k. (s' : View) → (k.unlock s').0 ≡ ok tt → (k.unlock s').1 ≡ set_lock name false s')
          same (λ s' _. refl),
    )

pub ideal_unlocks :
    (name : String) (l : Lock View) (s s' : View)
    → (ideal_locker.lock name s).0 ≡ ok (some l)
    → (l.unlock s').0 ≡ ok tt
ideal_unlocks name l s s' e = subst (λ k. (k.unlock s').0 ≡ ok tt) (lock_is_ideal name l s e).1 refl

pub ideal_world : IsWorld same_view ideal_service
ideal_world = record {
  get_shows = λ key s found e. ground arith;
  get_keeps = λ key s. refl;
  node_keeps = λ id s. refl;
  block_keeps = λ s. refl;
  put_shows = λ key channel s e. refl;
  put_payment_shows = λ id payment s e. refl;
  delete_payment_shows = λ id s e. refl;
  lock_given = lock_given_ideal;
  lock_busy = λ name s e. ground arith;
}
