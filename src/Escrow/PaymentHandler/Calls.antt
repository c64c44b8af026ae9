-- ===== src/Escrow/PaymentHandler/Calls.antt =====
-- A paid call from end to end: the interceptor of the package handler with the payment handler of
-- escrow/payment_handler.go over the payment channel service.
use snet_daemon.Prelude.{String, ◌≡◌, ◌∙◌, ap, sym, refl, arith, none, some, inl, inr, false}
use snet_daemon.Prelude.Int.{ℤ, ◌-ℤ◌}
use snet_daemon.Effects.{ok, Result-cases}
use snet_daemon.Handler.Grpc.{Metadata, GrpcContext, GrpcError, accepted, refused, Grpc-cases}
use snet_daemon.Handler.Interceptor.{
  ServiceEnd, returned, failed, panicked, CallEnd, returns, grpc_error,
  PaymentValidationInterceptor, get_payment_handler, settle, charge, outgoing,
}
use snet_daemon.Escrow.Channel.{Payment}
use snet_daemon.Escrow.ChannelService.{
  PaymentTransaction, start_payment_transaction, payment_channel, commit, rollback,
}
use snet_daemon.Escrow.ChannelService.Transactions.{
  UnlockSucceeds, key_of, lock_name, paid_by, commit_writes,
}
use snet_daemon.Escrow.PaymentHandler.{
  PaymentChannelPaymentHandler, price_of_call, get_payment_from_context, payment, complete,
  complete_after_error, escrow_payment_handler, to_grpc,
}
use snet_daemon.Escrow.World.{View, set_lock, set_channel, set_lock_back, IsWorld}
use snet_daemon.Escrow.PaymentHandler.Payments.{HasPaid, payment_ok}

module _ {S : Type 0} (view : S → View) (h : PaymentChannelPaymentHandler S)
    (w : IsWorld view h.service) (frees : UnlockSucceeds view h.service w)
    (price_keeps : (context : GrpcContext) (s : S)
      → view (price_of_call h.income_validator context s).1 ≡ view s) where
  module _ (interceptor : PaymentValidationInterceptor S (PaymentTransaction S)) (debug : String)
      (service : Metadata → S → ServiceEnd × S)
      (quiet : (md : Metadata) (s : S) → view (service md s).1 ≡ view s) where
    -- The metadata that the service is called with.
    abbrev seen_by : GrpcContext → PaymentTransaction S → Metadata
    seen_by context tx = outgoing debug (some (h.hex tx.channel.sender)) context.md

    charge_settles :
        (context : GrpcContext) (tx : PaymentTransaction S) (s : S)
        → get_payment_handler interceptor context ≡ accepted (escrow_payment_handler h)
        → (payment h context s).0 ≡ accepted tx
        → let (end, s2) = service (seen_by context tx) (payment h context s).1 in
          charge interceptor debug service context s ≡ settle (escrow_payment_handler h) tx end s2
    unfolding charge
    charge_settles context tx s chosen e = ground (arith, chosen, e)

    charge_refuses :
        (context : GrpcContext) (x : GrpcError) (s : S)
        → get_payment_handler interceptor context ≡ accepted (escrow_payment_handler h)
        → (payment h context s).0 ≡ refused x
        → charge interceptor debug service context s
          ≡ (returns (some (grpc_error x)), (payment h context s).1)
    unfolding charge
    charge_refuses context x s chosen e = ground (arith, chosen, e)

    -- The interceptor returns no error only after a commit.
    settle_paid :
        (tx : PaymentTransaction S) (end : ServiceEnd) (s : S)
        → (settle (escrow_payment_handler h) tx end s).0 ≡ returns none
        → (end ≡ returned)
          × ((commit h.service tx s).0 ≡ ok tt)
          × ((settle (escrow_payment_handler h) tx end s).1 ≡ (commit h.service tx s).1)
    unfolding settle complete complete_after_error to_grpc
    settle_paid tx returned s e = elim (Result-cases (commit h.service tx s).0) [
      | inl (_, done) ↦ (refl, done, refl)
      | inr (x, broken) ↦ absurd (ground (arith, broken))
    ]
    settle_paid tx (failed x) s e = elim (Result-cases (rollback tx s).0) [
      | inl (_, done) ↦ absurd (ground (arith, done))
      | inr (y, broken) ↦ absurd (ground (arith, broken))
    ]
    settle_paid tx (panicked value) s e = absurd (ground arith)

    -- What a commit leaves, after a service that leaves the view alone.
    commit_leaves :
        (context : GrpcContext) (tx : PaymentTransaction S) (s s1 s2 : S)
        (paid : HasPaid view h w frees price_keeps context tx s s1)
        → view s2 ≡ view s1
        → (commit h.service tx s2).0 ≡ ok tt
        → view (commit h.service tx s2).1
          ≡ set_channel paid.sent.channel_id (paid_by paid.sent tx.channel) (view s)
    commit_leaves context tx s s1 s2 paid kept done =
        let name = lock_name paid.sent in
        let new = paid_by tx.payment tx.channel in
        commit_writes view h.service w tx name s2 paid.begun.lock_of paid.unlocks done
        ∙ ap (λ (v : View). set_lock name false (set_channel tx.payment.channel_id new v))
            (kept ∙ paid.locked_only)
        ∙ set_lock_back name (set_channel tx.payment.channel_id new (view s)) paid.begun.was_free
        ∙ ap (λ (p : Payment). set_channel p.channel_id (paid_by p tx.channel) (view s))
            paid.begun.same_payment

    -- Where the interceptor chooses the escrow payment handler, the storages, the locker and the
    -- node keep their contract, Unlock does not fail, and neither the price lookup nor the service
    -- changes channels, payments or locks: a call that ends without an error is served and paid.
    -- Its metadata carry a payment whose amount is by the price of the call above the authorized
    -- amount that PaymentChannel reported under the lock. What is stored for the payment's channel
    -- is that reported state with the amount and the signature of the payment; no other channel, no
    -- payment and no lock is other than before.
    pub paid_call :
        (context : GrpcContext) (s : S)
        → get_payment_handler interceptor context ≡ accepted (escrow_payment_handler h)
        → (charge interceptor debug service context s).0 ≡ returns none
        → (sent : Payment) × (tx : PaymentTransaction S) × (price : ℤ) × (get_payment_from_context h
              context
            ≡ accepted sent)
          × ((start_payment_transaction h.service sent s).0 ≡ ok tx)
          × ((payment_channel h.service
                (key_of sent)
                (h.service.locker.lock (lock_name sent) s).1).0
              ≡ ok (some tx.channel))
          × ((price_of_call h.income_validator context
                (start_payment_transaction h.service sent s).1).0
              ≡ ok price)
          × (sent.amount -ℤ tx.channel.authorized_amount ≡ price)
          × ((service (seen_by context tx) (payment h context s).1).0 ≡ returned)
          × (view (charge interceptor debug service context s).1
              ≡ set_channel sent.channel_id (paid_by sent tx.channel) (view s))
    paid_call context s chosen e = elim (Grpc-cases (payment h context s).0) [
      | inr (x, refusal) ↦ absurd (ground (arith, charge_refuses context x s chosen refusal))
      | inl (tx, entered) ↦
          let md = seen_by context tx in
          let s1 = (payment h context s).1 in
          let s2 = (service md s1).1 in
          let paid = payment_ok view h w frees price_keeps context tx s entered in
          let same = charge_settles context tx s chosen entered in
          let settled =
            settle_paid tx (service md s1).0 s2 (sym (ap (λ (p : CallEnd × S). p.0) same) ∙ e) in
          (
            paid.sent,
            tx,
            paid.price,
            paid.read,
            paid.start,
            paid.begun.channel,
            paid.priced,
            paid.income,
            settled.0,
            ap (λ (p : CallEnd × S). view p.1) same
                ∙ ap view settled.2
                ∙ commit_leaves context tx s s1 s2 paid (quiet md s1) settled.1,
          )
    ]
