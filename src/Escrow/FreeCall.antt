-- ===== src/Escrow/FreeCall.antt =====
-- escrow/free_call_api.go, escrow/free_call_storage.go and escrow/free_call.go: the free calls of a
-- user and lockingFreeCallUserService.
pub mod Counting
pub mod Validator
pub mod Accepted
pub mod Issuing
pub mod Handler
pub mod StateService
pub mod Availability
use Prim.Native.String.{◌++◌}
use snet_daemon.Prelude.{String, Option, none, some, List, if◌then◌else◌, not, ◌&&◌}
use snet_daemon.Prelude.Int.{ℤ, pos, negsuc, ◌+ℤ◌, leb_ℤ, eqb_ℤ}
use snet_daemon.Effects.{
  Result, ok, payment_error, plain, internal, failed_precondition, Action, pure, fail, lift,
  or_error, fail_if, ◌>>=◌, ◌>>◌,
}
use snet_daemon.Crypto.{Bytes}
use snet_daemon.Storage.Typed.{TypedAtomicStorage}
use snet_daemon.Escrow.Lock.{Lock, Locker, always_unlock, unlock_on_error}

pub record FreeCallPayment : Type 0 where
  pub address : String
  pub user_id : String
  pub service_id : String
  pub organization_id : String
  pub current_block_number : ℤ
  pub signature : Bytes
  pub group_id : String
  pub auth_token : Bytes
  pub auth_token_parsed : Bytes
  pub auth_token_expiry_block_number : ℤ

pub record FreeCallUserKey : Type 0 where
  pub user_id : String
  pub address : String
  pub organization_id : String
  pub service_id : String
  pub group_id : String

-- FreeCallUserKey.String(), which is also serializeFreeCallKey.
abbrev pub user_key_string : FreeCallUserKey → String
user_key_string key =
    "{ID:"
    ++ (key.address
        ++ ("/"
            ++ (key.user_id
                ++ ("/"
                    ++ (key.organization_id
                        ++ ("/" ++ (key.service_id ++ ("/" ++ (key.group_id ++ "}")))))))))

-- FreeCallsMade is Go's int; it counts calls, so it stays within 64 bits.
pub record FreeCallUserData : Type 0 where
  pub address : String
  pub user_id : String
  pub free_calls_made : ℤ
  pub organization_id : String
  pub service_id : String
  pub group_id : String

abbrev pub FreeCallUserStorage : Type 0 → Type 0
FreeCallUserStorage S = TypedAtomicStorage S FreeCallUserKey FreeCallUserData

-- `replica_group_id` is the base64 text of the group id. `allowed_for` is
-- config.GetFreeCallsAllowed and `metadata_allowed` the service metadata's GetFreeCallsAllowed.
pub record FreeCallUserService (S : Type 0) : Type 0 where
  pub storage : FreeCallUserStorage S
  pub locker : Locker S
  pub replica_group_id : Result String
  pub allowed_for : String → ℤ
  pub metadata_allowed : ℤ

pub record FreeCallTransaction (S : Type 0) : Type 0 where
  pub payment : FreeCallPayment
  pub free_call_user : FreeCallUserData
  pub free_call_user_key : FreeCallUserKey
  pub lock : Lock S

-- IncrementFreeCallCount
abbrev pub increment_free_call_count : FreeCallUserData → FreeCallUserData
increment_free_call_count user = record user { free_calls_made = user.free_calls_made +ℤ pos 1 }

abbrev new_user : FreeCallUserKey → FreeCallUserData
new_user key = record {
  address = key.address;
  user_id = key.user_id;
  free_calls_made = pos 0;
  organization_id = key.organization_id;
  service_id = key.service_id;
  group_id = key.group_id;
}

-- The fields that StartFreeCallUserTransaction sets again from the key.
abbrev pub with_key : FreeCallUserKey → FreeCallUserData → FreeCallUserData
with_key key user = record user {
  service_id = key.service_id;
  organization_id = key.organization_id;
  group_id = key.group_id;
  address = key.address;
}

module _ {S : Type 0} (h : FreeCallUserService S) where
  -- FreeCallUser; it is always found.
  unfoldable pub free_call_user_of : FreeCallUserKey → Action S FreeCallUserData
  free_call_user_of key = do
    found ← h.storage.get key
    elim found [ some user ↦ pure user | none ↦ pure (new_user key) ]

  unfoldable pub list_free_call_users : Action S (List FreeCallUserData)
  list_free_call_users = h.storage.get_all

  -- GetFreeCallUserKey, with the group id that was read.
  abbrev pub user_key : FreeCallPayment → String → FreeCallUserKey
  user_key payment group_id = record {
    user_id = payment.user_id;
    address = payment.address;
    organization_id = payment.organization_id;
    service_id = payment.service_id;
    group_id = group_id;
  }

  -- The limit of an address; -1 is no limit.
  abbrev pub allowed_calls : String → ℤ
  allowed_calls address =
      if eqb_ℤ (h.allowed_for address) (pos 0) then h.metadata_allowed else h.allowed_for address

  -- StartFreeCallUserTransaction after the lock is taken.
  unfoldable pub check_limit :
      FreeCallPayment
      → FreeCallUserKey
      → FreeCallUserData
      → Lock S
      → Action S (FreeCallTransaction S)
  check_limit payment key user lock = do
    let allowed = allowed_calls key.address
    fail_if (not (eqb_ℤ allowed (negsuc 0)) && leb_ℤ allowed user.free_calls_made)
        (plain "free call limit has been exceeded, calls made = %d, total free calls eligible = %d")
    pure
        (record { payment = payment; free_call_user = user; free_call_user_key = key; lock = lock })

  -- StartFreeCallUserTransaction after the user is read, which is before the lock is taken.
  unfoldable pub start_with_user :
      FreeCallPayment → FreeCallUserKey → FreeCallUserData → Action S (FreeCallTransaction S)
  start_with_user payment key user = do
    acquired ←
        or_error (h.locker.lock (user_key_string key))
          (payment_error internal "cannot get mutex for user: %v")
    elim acquired [
      | none ↦
          fail (
            payment_error failed_precondition "another transaction on this user: %v is in progress")
      | some lock ↦ unlock_on_error lock (check_limit payment key user lock)
    ]

  unfoldable pub start_free_call_user_transaction :
      FreeCallPayment → Action S (FreeCallTransaction S)
  start_free_call_user_transaction payment = do
    group_id ←
        or_error (lift h.replica_group_id)
          (payment_error internal "payment freeCallUserKey error: %s")
    let key = user_key payment group_id
    user ←
        or_error (free_call_user_of key)
          (payment_error internal "payment freeCallUserData error: %s")
    start_with_user payment key (with_key key user)

  -- freeCallTransaction.Commit
  unfoldable pub commit_free_call : FreeCallTransaction S → Action S (Unit {0})
  commit_free_call tx = always_unlock tx.lock (
      or_error (h.storage.put tx.free_call_user_key (increment_free_call_count tx.free_call_user))
        (payment_error internal "unable to store new transaction free call user state"))

-- freeCallTransaction.Rollback
unfoldable pub rollback_free_call : {S : Type 0} → FreeCallTransaction S → Action S (Unit {0})
rollback_free_call tx = always_unlock tx.lock (pure tt)
