-- ===== src/Escrow/ChannelService/Transactions.antt =====
-- Payment transactions of escrow/escrow.go against the contract of the storages and the locker:
-- StartPaymentTransaction, Commit and Rollback.
use snet_daemon.Prelude.{◌≢◌, String, ◌≡◌, ◌∙◌, some, arith, ap, sym, subst, true, false, inl, inr}
use snet_daemon.Effects.{Error, Result, ok, err, Found-cases}
use snet_daemon.Escrow.Channel.{Payment, PaymentChannelKey, PaymentChannelData, key_string}
use snet_daemon.Escrow.Storages.{get_channel_state_from_blockchain}
use snet_daemon.Escrow.Lock.{
  Lock, always_unlock, unlock_on_error, unlock_on_error_ok, unlock_on_error_err,
}
use snet_daemon.Escrow.Validation.{validate}
use snet_daemon.Escrow.Validation.Accepted.{IsAccepted, validate-IsAccepted}
use snet_daemon.Escrow.ChannelService.{
  LockingPaymentChannelService, PaymentTransaction, payment_channel_from_blockchain,
  payment_channel, start_locked, start_payment_transaction, committed, commit, rollback,
}
use snet_daemon.Escrow.World.{set_lock_back, View, set_lock, set_channel, IsLockOf, IsWorld}

abbrev pub key_of : Payment → PaymentChannelKey
key_of payment = record { id = payment.channel_id }

abbrev pub lock_name : Payment → String
lock_name payment = key_string (key_of payment)

-- A channel that holds the amount and the signature of a payment.
abbrev pub paid_by : Payment → PaymentChannelData → PaymentChannelData
paid_by payment channel = record channel {
  authorized_amount = payment.amount;
  signature = payment.signature;
}

module _ {S : Type 0} (view : S → View) (h : LockingPaymentChannelService S)
    (w : IsWorld view h) where
  pub from_blockchain_keeps :
      (key : PaymentChannelKey) (s : S) → view (payment_channel_from_blockchain h key s).1 ≡ view s
  unfolding payment_channel_from_blockchain get_channel_state_from_blockchain
  from_blockchain_keeps key s = ground (arith, w.node_keeps key.id s)

  -- PaymentChannel only reads.
  pub payment_channel_keeps :
      (key : PaymentChannelKey) (s : S) → view (payment_channel h key s).1 ≡ view s
  unfolding payment_channel
  payment_channel_keeps key s =
      let (r, s') = h.storage.get key s in
      ground (arith, w.get_keeps key s, from_blockchain_keeps key s')

  validate_keeps :
      (payment : Payment) (channel : PaymentChannelData) (s : S)
      → view (validate h.validator payment channel s).1 ≡ view s
  unfolding validate
  validate_keeps payment channel s = ground (arith, w.block_keeps s)

  start_locked_keeps :
      (key : PaymentChannelKey) (payment : Payment) (l : Lock S) (s : S)
      → view (start_locked h key payment l s).1 ≡ view s
  unfolding start_locked
  start_locked_keeps key payment l s = grind (arith, payment_channel_keeps, validate_keeps)

  -- The state after a start, and what was checked.
  pub record HasStarted (payment : Payment) (tx : PaymentTransaction S) (s s' : S) : Type 0 where
    pub same_payment : tx.payment ≡ payment
    pub was_free : (view s).locks (lock_name payment) ≡ false
    pub only_locked : view s' ≡ set_lock (lock_name payment) true (view s)
    pub lock_of : IsLockOf view (lock_name payment) tx.lock
    pub channel :
        (payment_channel h (key_of payment) (h.locker.lock (lock_name payment) s).1).0
        ≡ ok (some tx.channel)
    pub accepted :
        IsAccepted h.validator payment tx.channel
          (payment_channel h (key_of payment) (h.locker.lock (lock_name payment) s).1).1

  start_locked_ok :
      (payment : Payment) (l : Lock S) (tx : PaymentTransaction S) (s : S)
      → (start_locked h (key_of payment) payment l s).0 ≡ ok tx
      → (tx.payment ≡ payment)
        × (tx.lock ≡ l)
        × ((payment_channel h (key_of payment) s).0 ≡ ok (some tx.channel))
        × ((validate h.validator payment tx.channel (payment_channel h (key_of payment) s).1).0
            ≡ ok tt)
  unfolding start_locked
  start_locked_ok payment l tx s e = ground arith

  start_given :
      (payment : Payment) (l : Lock S) (s : S)
      → (h.locker.lock (lock_name payment) s).0 ≡ ok (some l)
      → start_payment_transaction h payment s
        ≡ unlock_on_error l
            (start_locked h (key_of payment) payment l)
            (h.locker.lock (lock_name payment) s).1
  unfolding start_payment_transaction
  start_given payment l s e = ground arith

  started :
      (payment : Payment) (l : Lock S) (tx : PaymentTransaction S) (s : S)
      → (h.locker.lock (lock_name payment) s).0 ≡ ok (some l)
      → (start_payment_transaction h payment s).0 ≡ ok tx
      → HasStarted payment tx s (start_payment_transaction h payment s).1
  started payment l tx s given e =
      let s1 = (h.locker.lock (lock_name payment) s).1 in
      let eq = start_given payment l s given in
      let body =
        unlock_on_error_ok l (start_locked h (key_of payment) payment l) s1 tx
          (ap (λ (p : Result (PaymentTransaction S) × S). p.0) (sym eq) ∙ e) in
      let locking = w.lock_given (lock_name payment) l s given in
      let checks = start_locked_ok payment l tx s1 body.0 in
      record {
        same_payment = checks.0;
        was_free = locking.0;
        only_locked = cc (eq, body.1, start_locked_keeps (key_of payment) payment l s1, locking.1);
        lock_of = subst (IsLockOf view (lock_name payment)) (sym checks.1) locking.2;
        channel = checks.2;
        accepted = validate-IsAccepted h.validator payment tx.channel _ checks.3;
      }

  -- Where the storages, the locker and the node keep their contract: a transaction that starts is
  -- for the payment that was sent, has taken the channel's lock, which was free, and has changed
  -- nothing else; its channel is the one that PaymentChannel reports under the lock, and the
  -- payment is accepted for that channel.
  pub start_ok :
      (payment : Payment) (tx : PaymentTransaction S) (s : S)
      → (start_payment_transaction h payment s).0 ≡ ok tx
      → HasStarted payment tx s (start_payment_transaction h payment s).1
  start_ok payment tx s e = elim (Found-cases (h.locker.lock (lock_name payment) s).0) [
    | inl (l, given) ↦ started payment l tx s given e
    | inr (inl busy) ↦ absurd (unfold start_payment_transaction in ground (arith, busy))
    | inr (inr (x, failed)) ↦ absurd (unfold start_payment_transaction in ground (arith, failed))
  ]

  -- Unlock never fails on a lock of this locker.
  abbrev pub UnlockSucceeds : Type 0
  UnlockSucceeds =
      (name : String) (l : Lock S) (s s' : S)
      → (h.locker.lock name s).0 ≡ ok (some l)
      → (l.unlock s').0 ≡ ok tt

  -- The lock of a transaction that starts can be given back.
  pub start_unlocks :
      (payment : Payment) (tx : PaymentTransaction S) (s s' : S)
      → UnlockSucceeds
      → (start_payment_transaction h payment s).0 ≡ ok tx
      → (tx.lock.unlock s').0 ≡ ok tt
  start_unlocks payment tx s s' frees e =
      let name = lock_name payment in
      elim (Found-cases (h.locker.lock name s).0) [
        | inl (l, given) ↦
            let s1 = (h.locker.lock name s).1 in
            let body = unlock_on_error_ok l (start_locked h (key_of payment) payment l) s1 tx (
              ap (λ (p : Result (PaymentTransaction S) × S). p.0)
                (sym (start_given payment l s given))
              ∙ e) in
            let same = (start_locked_ok payment l tx s1 body.0).1 in
            ap (λ (k : Lock S). (k.unlock s').0) same ∙ frees name l s s' given
        | inr (inl busy) ↦ absurd (unfold start_payment_transaction in ground (arith, busy))
        | inr (inr (x, failed)) ↦
            absurd (unfold start_payment_transaction in ground (arith, failed))
      ]

  start_rejected :
      (payment : Payment) (l : Lock S) (e : Error) (s : S)
      → (h.locker.lock (lock_name payment) s).0 ≡ ok (some l)
      → UnlockSucceeds
      → (start_payment_transaction h payment s).0 ≡ err e
      → view (start_payment_transaction h payment s).1 ≡ view s
  start_rejected payment l e s given frees r =
      let s1 = (h.locker.lock (lock_name payment) s).1 in
      let eq = start_given payment l s given in
      let body =
        unlock_on_error_err l (start_locked h (key_of payment) payment l) s1 e
          (ap (λ (p : Result (PaymentTransaction S) × S). p.0) (sym eq) ∙ r) in
      let locking = w.lock_given (lock_name payment) l s given in
      let s2 = (start_locked h (key_of payment) payment l s1).1 in
      let unlocking = locking.2 s2 (frees (lock_name payment) l s s2 given) in
      let kept = start_locked_keeps (key_of payment) payment l s1 ∙ locking.1 in
      cc (eq, body.1)
      ∙ unlocking
      ∙ ap (set_lock (lock_name payment) false) kept
      ∙ set_lock_back (lock_name payment) (view s) locking.0

  -- Where the storages, the locker and the node keep their contract, the locker does not fail and
  -- Unlock succeeds: a transaction that is refused leaves the channels, the payments and the locks
  -- as they were.
  pub start_refused :
      (payment : Payment) (e : Error) (s : S)
      → UnlockSucceeds
      → ((x : Error) → (h.locker.lock (lock_name payment) s).0 ≢ err x)
      → (start_payment_transaction h payment s).0 ≡ err e
      → view (start_payment_transaction h payment s).1 ≡ view s
  start_refused payment e s frees sound r =
      elim (Found-cases (h.locker.lock (lock_name payment) s).0) [
        | inl (l, given) ↦ start_rejected payment l e s given frees r
        | inr (inl busy) ↦
            unfold start_payment_transaction in
            ground (arith, busy, w.lock_busy (lock_name payment) s busy)
        | inr (inr (x, failed)) ↦ absurd (sound x failed)
      ]

  commit_parts :
      (tx : PaymentTransaction S) (s : S)
      → let put = h.storage.put (key_of tx.payment) (committed h tx) s in
        ((commit h tx s).1 ≡ (tx.lock.unlock put.1).1) × ((commit h tx s).0 ≡ ok tt → put.0 ≡ ok tt)
  unfolding commit always_unlock
  commit_parts tx s = ground arith

  -- A commit that succeeds writes the payment's amount and signature, frees the lock, and changes
  -- nothing else.
  pub commit_writes :
      (tx : PaymentTransaction S) (name : String) (s : S)
      → IsLockOf view name tx.lock
      → ((s' : S) → (tx.lock.unlock s').0 ≡ ok tt)
      → (commit h tx s).0 ≡ ok tt
      → view (commit h tx s).1
        ≡ set_lock name false
            (set_channel tx.payment.channel_id (paid_by tx.payment tx.channel) (view s))
  commit_writes tx name s lock_of frees r =
      let key : PaymentChannelKey = key_of tx.payment in
      let s1 = (h.storage.put key (committed h tx) s).1 in
      let parts = commit_parts tx s in
      ap view parts.0
      ∙ lock_of s1 (frees s1)
      ∙ ap (set_lock name false) (w.put_shows key (committed h tx) s (parts.1 r))

  -- A paid call that goes well, where the storages, the locker and the node keep their contract
  -- and Unlock succeeds: after StartPaymentTransaction and Commit, both without an error, what is
  -- stored for the channel of the payment is the state that PaymentChannel reported under the lock,
  -- with the amount and the signature of the payment; no other channel, no payment and no lock is
  -- other than before.
  pub start-commit :
      (payment : Payment) (tx : PaymentTransaction S) (s : S)
      → let s' = (start_payment_transaction h payment s).1 in
        (start_payment_transaction h payment s).0 ≡ ok tx
        → ((s'' : S) → (tx.lock.unlock s'').0 ≡ ok tt)
        → (commit h tx s').0 ≡ ok tt
        → ((payment_channel h (key_of payment) (h.locker.lock (lock_name payment) s).1).0
            ≡ ok (some tx.channel))
          × (view (commit h tx s').1
              ≡ set_channel payment.channel_id (paid_by payment tx.channel) (view s))
  start-commit payment tx s e frees r =
      let s' = (start_payment_transaction h payment s).1 in
      let begun = start_ok payment tx s e in
      (
        begun.channel,
        commit_writes tx (lock_name payment) s' begun.lock_of frees r
            ∙ ap
                (λ (v : View).
                  set_lock (lock_name payment) false
                    (set_channel tx.payment.channel_id (paid_by tx.payment tx.channel) v))
                begun.only_locked
            ∙ set_lock_back (lock_name payment)
                (set_channel tx.payment.channel_id (paid_by tx.payment tx.channel) (view s))
                begun.was_free
            ∙ ap (λ (p : Payment). set_channel p.channel_id (paid_by p tx.channel) (view s))
                begun.same_payment,
      )

  -- A call that fails after the transaction has started, where the storages, the locker and the
  -- node keep their contract and Unlock succeeds: Rollback leaves everything as it was before.
  pub start-rollback :
      (payment : Payment) (tx : PaymentTransaction S) (s : S)
      → let s' = (start_payment_transaction h payment s).1 in
        (start_payment_transaction h payment s).0 ≡ ok tx
        → ((s'' : S) → (tx.lock.unlock s'').0 ≡ ok tt)
        → view (rollback tx s').1 ≡ view s
  unfolding rollback always_unlock
  start-rollback payment tx s e frees =
      let s' = (start_payment_transaction h payment s).1 in
      let begun = start_ok payment tx s e in
      begun.lock_of s' (frees s')
      ∙ ap (set_lock (lock_name payment) false) begun.only_locked
      ∙ set_lock_back (lock_name payment) (view s) begun.was_free
