-- ===== src/Escrow/PaymentHandler/Payments.antt =====
-- Payment of escrow/payment_handler.go over the payment channel service: which calls it lets in, and
-- that a call that is not let in leaves nothing behind.
use snet_daemon.Prelude.{String, ◌≡◌, ◌≢◌, ◌∙◌, ap, sym, arith, inl, inr, true, false}
use snet_daemon.Prelude.Int.{ℤ, ◌-ℤ◌, eq_of_parts}
use snet_daemon.Effects.{Error, ok, err, Result-cases}
use snet_daemon.Handler.Grpc.{GrpcContext, GrpcError, GrpcResult, accepted, refused, Grpc-cases}
use snet_daemon.Escrow.Channel.{Payment}
use snet_daemon.Escrow.Lock.{always_unlock}
use snet_daemon.Escrow.ChannelService.{PaymentTransaction, start_payment_transaction, rollback}
use snet_daemon.Escrow.ChannelService.Transactions.{
  HasStarted, UnlockSucceeds, lock_name, start_ok, start_refused, start_unlocks,
}
use snet_daemon.Escrow.PaymentHandler.{
  IncomeStreamValidator, PaymentChannelPaymentHandler, price_of_call, validate_income,
  get_payment_from_context, check_income, start_and_check, payment,
}
use snet_daemon.Escrow.World.{View, set_lock, set_lock_back, IsWorld}

module _ {S : Type 0} (validator : IncomeStreamValidator S) where
  -- Income that is accepted is the price.
  pub income_is_price :
      (income : ℤ) (context : GrpcContext) (s : S)
      → (validate_income validator income context s).0 ≡ ok tt
      → (price : ℤ) × ((price_of_call validator context s).0 ≡ ok price) × (income ≡ price)
  unfolding validate_income
  income_is_price income context s e = elim (Result-cases (price_of_call validator context s).0) [
    | inl (price, found) ↦ (price, found, ground (arith, found, eq_of_parts income price))
    | inr (x, broken) ↦ absurd (ground (arith, broken))
  ]

  income_keeps :
      {V : Type 0} (view : S → V) (income : ℤ) (context : GrpcContext) (s : S)
      → view (price_of_call validator context s).1 ≡ view s
      → view (validate_income validator income context s).1 ≡ view s
  unfolding validate_income
  income_keeps view income context s e = ground arith

module _ {S : Type 0} (view : S → View) (h : PaymentChannelPaymentHandler S)
    (w : IsWorld view h.service) (frees : UnlockSucceeds view h.service w)
    (price_keeps : (context : GrpcContext) (s : S)
      → view (price_of_call h.income_validator context s).1 ≡ view s) where
  -- What holds when the payment handler has let a call in.
  pub record HasPaid (context : GrpcContext) (tx : PaymentTransaction S) (s s' : S) : Type 0 where
    pub sent : Payment
    pub read : get_payment_from_context h context ≡ accepted sent
    pub price : ℤ
    pub priced :
        (price_of_call h.income_validator context (start_payment_transaction h.service sent s).1).0
        ≡ ok price
    pub income : sent.amount -ℤ tx.channel.authorized_amount ≡ price
    pub start : (start_payment_transaction h.service sent s).0 ≡ ok tx
    pub begun : HasStarted view h.service w sent tx s (start_payment_transaction h.service sent s).1
    pub locked_only : view s' ≡ set_lock (lock_name sent) true (view s)
    pub unlocks : (s'' : S) → (tx.lock.unlock s'').0 ≡ ok tt

  -- Giving a transaction back, after steps that leave the view alone.
  pub gives_back :
      (sent : Payment) (tx : PaymentTransaction S) (s s2 : S)
      → (start_payment_transaction h.service sent s).0 ≡ ok tx
      → view s2 ≡ view (start_payment_transaction h.service sent s).1
      → view (rollback tx s2).1 ≡ view s
  unfolding rollback always_unlock
  gives_back sent tx s s2 e kept =
      let begun = start_ok view h.service w sent tx s e in
      begun.lock_of s2 (start_unlocks view h.service w sent tx s s2 frees e)
      ∙ ap (set_lock (lock_name sent) false) (kept ∙ begun.only_locked)
      ∙ set_lock_back (lock_name sent) (view s) begun.was_free

  payment_reads :
      (context : GrpcContext) (sent : Payment) (s : S)
      → get_payment_from_context h context ≡ accepted sent
      → payment h context s ≡ start_and_check h context sent s
  unfolding payment
  payment_reads context sent s e = ground (arith, e)

  start_checks :
      (context : GrpcContext) (sent : Payment) (tx : PaymentTransaction S) (s : S)
      → (start_payment_transaction h.service sent s).0 ≡ ok tx
      → start_and_check h context sent s
        ≡ check_income h context sent tx (start_payment_transaction h.service sent s).1
  unfolding start_and_check
  start_checks context sent tx s e = ground (arith, e)

  -- The check lets the transaction through, with the price met.
  check_passes :
      (context : GrpcContext) (sent : Payment) (tx tx' : PaymentTransaction S) (s : S)
      → (check_income h context sent tx s).0 ≡ accepted tx'
      → (tx ≡ tx')
        × ((validate_income h.income_validator
              (sent.amount -ℤ tx.channel.authorized_amount)
              context
              s).0
            ≡ ok tt)
        × (view (check_income h context sent tx s).1 ≡ view s)
  unfolding check_income
  check_passes context sent tx tx' s e =
      let income = sent.amount -ℤ tx.channel.authorized_amount in
      elim (Result-cases (validate_income h.income_validator income context s).0) [
        | inl (_, passed) ↦ (
          ground (arith, passed),
          passed,
          ground (
            arith,
            passed,
            income_keeps h.income_validator view income context s (price_keeps context s),
          ),
        )
        | inr (x, broken) ↦ absurd (ground (arith, broken))
      ]

  -- A call that is let in: its payment is read from the metadata, the transaction has started for
  -- it, and the payment raises the authorized amount by exactly the price of the call.
  pub payment_ok :
      (context : GrpcContext) (tx : PaymentTransaction S) (s : S)
      → (payment h context s).0 ≡ accepted tx
      → HasPaid context tx s (payment h context s).1
  payment_ok context tx s e = elim (Grpc-cases (get_payment_from_context h context)) [
    | inr (x, unread) ↦ absurd (unfold payment in ground (arith, unread))
    | inl (sent, read) ↦ elim (Result-cases (start_payment_transaction h.service sent s).0) [
      | inr (x, broken) ↦ absurd (unfold payment start_and_check in ground (arith, read, broken))
      | inl (tx', started) ↦
          let s1 = (start_payment_transaction h.service sent s).1 in
          let same = payment_reads context sent s read ∙ start_checks context sent tx' s started in
          let (is_tx, passed, kept) =
            check_passes context sent tx' tx s1
              (sym (ap (λ (p : GrpcResult (PaymentTransaction S) × S). p.0) same) ∙ e) in
          let (price, priced, income) = income_is_price h.income_validator _ context s1 passed in
          let begun = started ∙ ap ok is_tx in
          record {
            sent = sent;
            read = read;
            price = price;
            priced = priced;
            income =
                ap (λ (t : PaymentTransaction S). sent.amount -ℤ t.channel.authorized_amount)
                  (sym is_tx)
                ∙ income;
            start = begun;
            begun = start_ok view h.service w sent tx s begun;
            locked_only =
                ap (λ (p : GrpcResult (PaymentTransaction S) × S). view p.1) same
                ∙ kept
                ∙ (start_ok view h.service w sent tx s begun).only_locked;
            unlocks = λ s''. start_unlocks view h.service w sent tx s s'' frees begun;
          }
    ]
  ]

  check_refuses :
      (context : GrpcContext) (sent : Payment) (tx : PaymentTransaction S) (x : GrpcError) (s : S)
      → (start_payment_transaction h.service sent s).0 ≡ ok tx
      → let s1 = (start_payment_transaction h.service sent s).1 in
        (check_income h context sent tx s1).0 ≡ refused x
        → view (check_income h context sent tx s1).1 ≡ view s
  unfolding check_income
  check_refuses context sent tx x s started e =
      let s1 = (start_payment_transaction h.service sent s).1 in
      let income = sent.amount -ℤ tx.channel.authorized_amount in
      let kept = income_keeps h.income_validator view income context s1 (price_keeps context s1) in
      let back = gives_back sent tx s _ started kept in
      elim (Result-cases (validate_income h.income_validator income context s1).0) [
        | inl (_, passed) ↦ absurd (ground (arith, passed))
        | inr (y, broken) ↦ ground (arith, broken, back)
      ]

  -- A call that is not let in, for whatever reason, leaves the channels, the payments and the locks
  -- as they were, where the locker does not fail.
  pub payment_refused :
      (context : GrpcContext) (x : GrpcError) (s : S)
      → ((name : String) (s : S) (y : Error) → (h.service.locker.lock name s).0 ≢ err y)
      → (payment h context s).0 ≡ refused x
      → view (payment h context s).1 ≡ view s
  payment_refused context x s sound e = elim (Grpc-cases (get_payment_from_context h context)) [
    | inr (y, unread) ↦ unfold payment in ground (arith, unread)
    | inl (sent, read) ↦ elim (Result-cases (start_payment_transaction h.service sent s).0) [
      | inr (y, broken) ↦
          unfold payment start_and_check in
          ground (
            arith,
            read,
            broken,
            start_refused view h.service w sent y s frees (sound (lock_name sent) s) broken,
          )
      | inl (tx, started) ↦
          let same = payment_reads context sent s read ∙ start_checks context sent tx s started in
          let refusal = sym (ap (λ (p : GrpcResult (PaymentTransaction S) × S). p.0) same) ∙ e in
          ap (λ (p : GrpcResult (PaymentTransaction S) × S). view p.1) same
          ∙ check_refuses context sent tx x s started refusal
    ]
  ]
