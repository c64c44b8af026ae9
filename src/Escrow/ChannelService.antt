-- ===== src/Escrow/ChannelService.antt =====
-- escrow/escrow.go: lockingPaymentChannelService, its claims and its payment transactions.
pub mod Transactions
pub mod Claims
use snet_daemon.Prelude.{String, not, Option, none, some, List, map, if◌then◌else◌}
use snet_daemon.Effects.{
  Result, ok, err, payment_error, plain, internal, unauthenticated, failed_precondition, Action,
  pure, fail, or_error, ◌>>=◌, ◌>>◌,
}
use snet_daemon.Crypto.{Bytes, bytes_eq}
use snet_daemon.Storage.Typed.{TypedAtomicStorage}
use snet_daemon.Escrow.Channel.{
  Payment, PaymentChannelKey, PaymentChannelData, ChannelUpdate, key_string,
  get_payment_from_channel, merge_storage_and_blockchain_channel_state,
}
use snet_daemon.Escrow.Storages.{
  PaymentChannelStorage, put_payment, delete_payment, BlockchainChannelReader,
  get_channel_state_from_blockchain,
}
use snet_daemon.Escrow.Lock.{Lock, Locker, always_unlock, unlock_on_error}
use snet_daemon.Escrow.Validation.{ChannelPaymentValidator, validate}

pub record LockingPaymentChannelService (S : Type 0) : Type 0 where
  pub storage : PaymentChannelStorage S
  pub payment_storage : TypedAtomicStorage S String Payment
  pub blockchain_reader : BlockchainChannelReader S
  pub locker : Locker S
  pub validator : ChannelPaymentValidator S
  pub replica_group_id : Bytes

-- claimImpl; its payment storage is that of the service.
pub record Claim : Type 0 where
  pub payment : Payment

-- paymentTransaction; its service is the one that started it.
pub record PaymentTransaction (S : Type 0) : Type 0 where
  pub payment : Payment
  pub channel : PaymentChannelData
  pub lock : Lock S

module _ {S : Type 0} (h : LockingPaymentChannelService S) where
  unfoldable pub payment_channel_from_blockchain :
      PaymentChannelKey → Action S (Option PaymentChannelData)
  payment_channel_from_blockchain key = get_channel_state_from_blockchain h.blockchain_reader key

  unfoldable pub verify_group_id : Bytes → Result (Unit {0})
  verify_group_id blockchain_group_id =
      if not (bytes_eq blockchain_group_id h.replica_group_id)
      then err (
          plain
            "channel received belongs to another group of replicas, current group: %v, channel group: %v")
      else ok tt

  -- What PaymentChannel makes of the two states, by what the storage holds.
  unfoldable pub combine :
      Option PaymentChannelData
      → Result (Option PaymentChannelData)
      → Result (Option PaymentChannelData)
  combine none (err e) = err e
  combine none (ok none) = ok none
  combine none (ok (some blockchain)) = elim (verify_group_id blockchain.group_id) [
    | err e ↦ err e
    | ok _ ↦ ok (some blockchain)
  ]
  combine (some stored) (err e) = ok (some stored)
  combine (some stored) (ok none) = ok (some stored)
  combine (some stored) (ok (some blockchain)) =
      ok (some (merge_storage_and_blockchain_channel_state stored blockchain))

  unfoldable pub payment_channel : PaymentChannelKey → Action S (Option PaymentChannelData)
  payment_channel key = do
    stored ← h.storage.get key
    λ s. let (r, s') = payment_channel_from_blockchain key s in (combine stored r, s')

  unfoldable pub list_channels : Action S (List PaymentChannelData)
  list_channels = h.storage.get_all

  -- Claim.Finish
  unfoldable pub finish : Claim → Action S (Unit {0})
  finish claim = delete_payment h.payment_storage claim.payment

  -- StartClaim after the lock is taken.
  unfoldable pub claim_locked : PaymentChannelKey → ChannelUpdate → Action S Claim
  claim_locked key update = do
    found ← h.storage.get key
    elim found [
      | none ↦ fail (plain "Channel is not found by key: %v")
      | some channel ↦ (do
        or_error (h.storage.put key (update channel)) (plain "Channel storage error: %v")
        let payment = get_payment_from_channel channel
        put_payment h.payment_storage payment
        pure (record { payment = payment }))
    ]

  unfoldable pub start_claim : PaymentChannelKey → ChannelUpdate → Action S Claim
  start_claim key update = do
    acquired ←
        or_error (h.locker.lock (key_string key))
          (plain "cannot get mutex for channel: %v because of %v")
    elim acquired [
      | none ↦ fail (plain "another transaction on channel: %v is in progress")
      | some lock ↦ always_unlock lock (claim_locked key update)
    ]

  unfoldable pub list_claims : Action S (List Claim)
  list_claims = do
    payments ← h.payment_storage.get_all
    pure (map (λ (p : Payment). record { payment = p }) payments)

  -- StartPaymentTransaction after the lock is taken.
  unfoldable pub start_locked :
      PaymentChannelKey → Payment → Lock S → Action S (PaymentTransaction S)
  start_locked key payment lock = do
    found ← or_error (payment_channel key) (payment_error internal "payment channel error: %s")
    elim found [
      | none ↦ fail (payment_error unauthenticated "payment channel \"%v\" not found")
      | some channel ↦ (do
        validate h.validator payment channel
        pure (record { payment = payment; channel = channel; lock = lock }))
    ]

  unfoldable pub start_payment_transaction : Payment → Action S (PaymentTransaction S)
  start_payment_transaction payment = do
    let key : PaymentChannelKey = record { id = payment.channel_id }
    acquired ←
        or_error (h.locker.lock (key_string key))
          (payment_error internal "cannot get mutex for channel: %v")
    elim acquired [
      | none ↦
          fail
            (payment_error failed_precondition "another transaction on channel: %v is in progress")
      | some lock ↦ unlock_on_error lock (start_locked key payment lock)
    ]

  -- The channel state that Commit writes.
  abbrev pub committed : PaymentTransaction S → PaymentChannelData
  committed transaction = record (transaction.channel) {
    authorized_amount = transaction.payment.amount;
    signature = transaction.payment.signature;
  }

  unfoldable pub commit : PaymentTransaction S → Action S (Unit {0})
  commit transaction = always_unlock transaction.lock (
      or_error
        (h.storage.put (record { id = transaction.payment.channel_id }) (committed transaction))
        (payment_error internal "unable to store new payment channel state"))

unfoldable pub rollback : {S : Type 0} → PaymentTransaction S → Action S (Unit {0})
rollback transaction = always_unlock transaction.lock (pure tt)
