-- ===== src/Escrow/Lock.antt =====
-- escrow/lock.go: locks kept as values in an AtomicStorage.
pub mod Mutex
use snet_daemon.Prelude.{arith, ◌≡◌, String, Bool, false, Option, none, some, str_eq, if◌then◌else◌}
use snet_daemon.Effects.{Error, ok, err, Action, pure, ◌>>=◌}
use snet_daemon.Storage.Interface.{AtomicStorage}

-- The interfaces Lock and Locker.
pub record Lock (S : Type 0) : Type 0 where
  pub unlock : Action S (Unit {0})

pub record Locker (S : Type 0) : Type 0 where
  pub lock : String → Action S (Option (Lock S))

abbrev pub locked : String
locked = "locked"

abbrev pub unlocked : String
unlocked = "unlocked"

module _ {S T : Type 0} (storage : AtomicStorage S T) where
  -- lockType.Unlock; a lock that is free already is only logged.
  unfoldable pub etcd_unlock : String → Action S (Unit {0})
  etcd_unlock name = do swapped ← storage.compare_and_swap name locked unlocked; pure tt

  -- What etcdLocker.Lock does once it has read the value.
  unfoldable pub acquire : String → Option String → Action S Bool
  acquire name (some value) =
      if str_eq value locked then pure false else storage.compare_and_swap name unlocked locked
  acquire name none = storage.put_if_absent name locked

  unfoldable pub etcd_lock : String → Action S (Option (Lock S))
  unfolding acquire etcd_unlock
  etcd_lock name = do
    value ← storage.get name
    acquired ← acquire name value
    pure (if acquired then some (record { unlock = etcd_unlock name }) else none)

  -- NewEtcdLocker
  abbrev pub etcd_locker : Locker S
  etcd_locker = record { lock = etcd_lock }

module _ {S A : Type 0} where
  -- `defer lock.Unlock()`, whose own error is only logged.
  unfoldable pub always_unlock : Lock S → Action S A → Action S A
  always_unlock lock body s = let (r, s') = body s in (r, (lock.unlock s').1)

  -- `defer func() { if err != nil { lock.Unlock() } }()`
  unfoldable pub unlock_on_error : Lock S → Action S A → Action S A
  unlock_on_error lock body s =
      let (r, s') = body s in elim r [ ok a ↦ (ok a, s') | err e ↦ (err e, (lock.unlock s').1) ]

  -- A body that succeeds keeps its lock.
  pub unlock_on_error_ok :
      (lock : Lock S) (body : Action S A) (s : S) (a : A)
      → (unlock_on_error lock body s).0 ≡ ok a
      → ((body s).0 ≡ ok a) × ((unlock_on_error lock body s).1 ≡ (body s).1)
  unfolding unlock_on_error
  unlock_on_error_ok lock body s a e = ground arith

  pub unlock_on_error_err :
      (lock : Lock S) (body : Action S A) (s : S) (e : Error)
      → (unlock_on_error lock body s).0 ≡ err e
      → ((body s).0 ≡ err e) × ((unlock_on_error lock body s).1 ≡ (lock.unlock (body s).1).1)
  unfolding unlock_on_error
  unlock_on_error_err lock body s e h = ground arith
