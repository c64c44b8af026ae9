-- ===== src/Escrow/World.antt =====
-- What the escrow services rely on of the storages, the locker and the node that they are given: the
-- documented behaviour of the interfaces, stated over what a client can see of the shared state.
use snet_daemon.Prelude.{
  arith, eq_iff, String, Bool, true, false, Option, none, some, ◌≡◌, str_eq, if◌then◌else◌,
}
use snet_daemon.Prelude.Int.{ℤ, eqb_ℤ}
use snet_daemon.Effects.{ok}
use snet_daemon.Escrow.Channel.{Payment, PaymentChannelKey, PaymentChannelData}
use snet_daemon.Escrow.Lock.{Lock}
use snet_daemon.Escrow.ChannelService.{LockingPaymentChannelService}

-- The stored channels by id, the payments that are being claimed by payment id, the held locks.
pub record View : Type 0 where
  pub channels : ℤ → Option PaymentChannelData
  pub payments : String → Option Payment
  pub locks : String → Bool

abbrev pub set_channel : ℤ → PaymentChannelData → View → View
set_channel id channel v = record v {
  channels = λ j. if eqb_ℤ id j then some channel else v.channels j;
}

abbrev pub set_payment : String → Option Payment → View → View
set_payment id payment v = record v {
  payments = λ j. if str_eq id j then payment else v.payments j;
}

abbrev pub set_lock : String → Bool → View → View
set_lock name held v = record v { locks = λ j. if str_eq name j then held else v.locks j }

locks_back :
    (name : String) (v : View) (j : String)
    → v.locks name ≡ false
    → (set_lock name false (set_lock name true v)).locks j ≡ v.locks j
locks_back name v j free = ground (arith, eq_iff name j)

-- Taking a free lock and giving it back changes nothing.
pub set_lock_back :
    (name : String) (v : View)
    → v.locks name ≡ false
    → set_lock name false (set_lock name true v) ≡ v
set_lock_back name v free = λ i. record v { locks = λ j. locks_back name v j free i }

pub set_channel_self :
    (id : ℤ) (channel : PaymentChannelData) (v : View)
    → (set_channel id channel v).channels id ≡ some channel
set_channel_self id channel v = ground arith

pub set_payment_self :
    (id : String) (payment : Option Payment) (v : View)
    → (set_payment id payment v).payments id ≡ payment
set_payment_self id payment v = ground (arith, eq_iff id id)

module _ {S : Type 0} (view : S → View) where
  -- A lock that was taken by this name: a successful Unlock frees it.
  abbrev pub IsLockOf : String → Lock S → Type 0
  IsLockOf name l =
      (s : S) → (l.unlock s).0 ≡ ok tt → view (l.unlock s).1 ≡ set_lock name false (view s)

  pub record IsWorld (h : LockingPaymentChannelService S) : Type 0 where
    -- Reads show what is stored, and nothing changes.
    pub get_shows :
        (key : PaymentChannelKey) (s : S) (found : Option PaymentChannelData)
        → (h.storage.get key s).0 ≡ ok found
        → found ≡ (view s).channels key.id
    pub get_keeps : (key : PaymentChannelKey) (s : S) → view (h.storage.get key s).1 ≡ view s
    pub node_keeps :
        (id : ℤ) (s : S) → view (h.blockchain_reader.read_channel_from_blockchain id s).1 ≡ view s
    pub block_keeps : (s : S) → view (h.validator.current_block s).1 ≡ view s
    -- A successful write is there afterwards, and it is the only change.
    pub put_shows :
        (key : PaymentChannelKey) (channel : PaymentChannelData) (s : S)
        → (h.storage.put key channel s).0 ≡ ok tt
        → view (h.storage.put key channel s).1 ≡ set_channel key.id channel (view s)
    pub put_payment_shows :
        (id : String) (payment : Payment) (s : S)
        → (h.payment_storage.put id payment s).0 ≡ ok tt
        → view (h.payment_storage.put id payment s).1 ≡ set_payment id (some payment) (view s)
    pub delete_payment_shows :
        (id : String) (s : S)
        → (h.payment_storage.delete id s).0 ≡ ok tt
        → view (h.payment_storage.delete id s).1 ≡ set_payment id none (view s)
    -- A lock is given only if it is free, and then it is held; a lock that is not given changes nothing.
    pub lock_given :
        (name : String) (l : Lock S) (s : S)
        → (h.locker.lock name s).0 ≡ ok (some l)
        → ((view s).locks name ≡ false)
          × (view (h.locker.lock name s).1 ≡ set_lock name true (view s))
          × IsLockOf name l
    pub lock_busy :
        (name : String) (s : S)
        → (h.locker.lock name s).0 ≡ ok none
        → view (h.locker.lock name s).1 ≡ view s
