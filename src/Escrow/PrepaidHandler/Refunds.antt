-- ===== src/Escrow/PrepaidHandler/Refunds.antt =====
-- What a prepaid call of escrow/prepaid_handler.go takes from a channel, and gives back.
use snet_daemon.Prelude.{
  String, ◌≡◌, refl, ap, sym, ◌∙◌, subst, arith, true, ◌&&◌, str_eq, none, inl, inr, Bool-cases,
  if◌then◌else◌,
}
use snet_daemon.Prelude.Int.{ℤ, ◌+ℤ◌, ◌-ℤ◌, ◌≤ℤ◌, eqb_ℤ, int_laws, eq_of_parts, sub-add_cancel}
use snet_daemon.Effects.{Result, ok, Result-cases}
use snet_daemon.Storage.Typed.Contract.{IsTransactional}
use snet_daemon.Handler.Grpc.{GrpcContext, accepted, ServiceError, Grpc-cases}
use snet_daemon.Escrow.PaymentHandler.{to_grpc}
use snet_daemon.Escrow.Prepaid.{update_usage}
use snet_daemon.Escrow.Prepaid.Usage.{
  Usages, same_key, amount_of, set_amount, HasAdded, update_usage_ok,
}
use snet_daemon.Escrow.PrepaidHandler.{
  PrePaidPayment, PrePaidTransaction, PrePaidPaymentHandler, get_prepaid_payment_from_context,
  validate_prepaid, charge_prepaid, prepaid_payment, complete_prepaid_after_error,
}

-- What a channel has left: what was planned and refunded, less what was used.
abbrev pub balance : Usages → ℤ → ℤ
balance values id = amount_of values id "P" +ℤ amount_of values id "R" -ℤ amount_of values id "U"

amount-set :
    (values : Usages) (id a id' : ℤ) (t t' : String)
    → amount_of (set_amount id t a values) id' t'
      ≡ (if eqb_ℤ id id' && str_eq t t' then a else amount_of values id' t')
amount-set values id a id' t t' = elim (Bool-cases (eqb_ℤ id id' && str_eq t t')) [
  | inl same ↦ rw same refl
  | inr other ↦ rw other refl
]

used_balance :
    (values : Usages) (id price id' : ℤ)
    → let after = set_amount id "U" (price +ℤ amount_of values id "U") values in
      balance after id' ≡ (if eqb_ℤ id id' then balance values id' -ℤ price else balance values id')
used_balance values id price id' = elim (Bool-cases (eqb_ℤ id id')) [
  | inl same ↦
      let at : id ≡ id' = eq_of_parts id id' (ground (arith, same)) in
      rw (amount-set, same) (moved at)
  | inr other ↦ rw (amount-set, other) refl
]
  where
    moved :
        id ≡ id'
        → amount_of values id' "P" +ℤ amount_of values id' "R" -ℤ (price +ℤ amount_of values id "U")
          ≡ balance values id' -ℤ price
    moved at = rw at (omega int_laws)

refund_balance :
    (values : Usages) (id price id' : ℤ)
    → let after = set_amount id "R" (price +ℤ amount_of values id "R") values in
      balance after id' ≡ (if eqb_ℤ id id' then balance values id' +ℤ price else balance values id')
refund_balance values id price id' = elim (Bool-cases (eqb_ℤ id id')) [
  | inl same ↦
      let at : id ≡ id' = eq_of_parts id id' (ground (arith, same)) in
      rw (amount-set, same) (moved at)
  | inr other ↦ rw (amount-set, other) refl
]
  where
    moved :
        id ≡ id'
        → amount_of values id' "P" +ℤ (price +ℤ amount_of values id "R") -ℤ amount_of values id' "U"
          ≡ balance values id' +ℤ price
    moved at = rw at (omega int_laws)

eq_self : (id : ℤ) → eqb_ℤ id id ≡ true
eq_self id = ground arith

back :
    (before after : Usages) (id price other : ℤ)
    → balance after other
      ≡ (if eqb_ℤ id other then balance before other -ℤ price else balance before other)
    → (if eqb_ℤ id other then balance after other +ℤ price else balance after other)
      ≡ balance before other
back before after id price other taken = elim (Bool-cases (eqb_ℤ id other)) [
  | inl same ↦
      rw same
        (ap (λ b. b +ℤ price) (rw same at taken) ∙ sub-add_cancel (balance before other) price)
  | inr differs ↦ rw differs (rw differs at taken)
]

module _ {S : Type 0} (h : PrePaidPaymentHandler S) (values : S → Usages)
    (w : IsTransactional same_key h.prepaid_storage values) where
  -- Reading the price and verifying a token change no usage.
  pub record KeepsUsages : Type 0 where
    pub get_price : (context : GrpcContext) (s : S) → values (h.get_price context s).1 ≡ values s
    pub verify_token :
        (token : String) (channel_id : ℤ) (s : S)
        → values (h.token_manager.verify_token token channel_id s).1 ≡ values s

  -- A payment that was taken: the price has been added to the used amount of its channel, which
  -- stays within what was planned and refunded.
  abbrev pub IsCharged : PrePaidTransaction → S → S → Type 0
  IsCharged tx s s' =
      HasAdded h.prepaid_storage values w tx.channel_id tx.price "U" (values s) (values s')

  charged :
      KeepsUsages
      → (context : GrpcContext) (sent : PrePaidPayment) (tx : PrePaidTransaction) (s : S)
      → (charge_prepaid h context sent s).0 ≡ ok tx
      → IsCharged tx s (charge_prepaid h context sent s).1
  unfolding charge_prepaid validate_prepaid
  charged keeps context sent tx s e =
      let s1 = (h.get_price context s).1 in
      let s2 = (h.token_manager.verify_token sent.auth_token sent.channel_id s1).1 in
      let same : values s2 ≡ values s =
        keeps.verify_token sent.auth_token sent.channel_id s1 ∙ keeps.get_price context s in
      elim (Result-cases (h.get_price context s).0) [
        | inr (x, bad) ↦ absurd (ground (arith, bad, e))
        | inl (price, priced) ↦
            elim (Result-cases
              (h.token_manager.verify_token sent.auth_token sent.channel_id s1).0) [
                | inr (x, bad) ↦ absurd (ground (arith, priced, bad, e))
                | inl (user, verified) ↦
                    let update = update_usage h.prepaid_storage sent.channel_id price "U" s2 in
                    elim (Result-cases update.0) [
                      | inr (x, bad) ↦ absurd (ground (arith, priced, verified, bad, e))
                      | inl (done, updated) ↦
                          let added =
                            update_usage_ok h.prepaid_storage values w sent.channel_id price "U" s2
                              (ground (arith, updated)) in
                          let at : charge_prepaid h context sent s ≡ (
                            ok (record {
                              channel_id = sent.channel_id;
                              price = price;
                              signer = h.hex_to_address user;
                            }),
                            update.1,
                          ) =
                            ground (arith, priced, verified, updated) in
                          let made : tx ≡ record {
                            channel_id = sent.channel_id;
                            price = price;
                            signer = h.hex_to_address user;
                          } =
                            ground (arith, at, e) in
                          subst
                            (λ (k : PrePaidTransaction).
                              IsCharged k s (charge_prepaid h context sent s).1)
                            (sym made)
                            (subst
                              (λ s'.
                                HasAdded h.prepaid_storage values w sent.channel_id price "U"
                                  (values s) (values s'))
                              (sym (ap (λ (p : Result PrePaidTransaction × S). p.1) at))
                              (subst
                                (λ v.
                                  HasAdded h.prepaid_storage values w sent.channel_id price "U" v
                                    (values update.1))
                                same added))
                    ]
              ]
      ]

  prepaid_payment-IsCharged :
      KeepsUsages
      → (context : GrpcContext) (tx : PrePaidTransaction) (s : S)
      → (prepaid_payment h context s).0 ≡ accepted tx
      → IsCharged tx s (prepaid_payment h context s).1
  unfolding prepaid_payment
  prepaid_payment-IsCharged keeps context tx s e =
      elim (Grpc-cases (get_prepaid_payment_from_context h context)) [
        | inr (x, bad) ↦ absurd (ground (arith, bad, e))
        | inl (sent, good) ↦ elim (Result-cases (charge_prepaid h context sent s).0) [
          | inr (x, bad) ↦ absurd (ground (arith, good, bad, e))
          | inl (made, done) ↦
              let same : made ≡ tx = ground (arith, good, done, e) in
              subst (λ s'. IsCharged tx s s') (ground (arith, good, done))
                (charged keeps context sent tx s (ground (arith, done, same)))
        ]
      ]

  refunded :
      (tx : PrePaidTransaction) (result : ServiceError) (s : S)
      → (complete_prepaid_after_error h tx result s).0 ≡ none
      → HasAdded h.prepaid_storage values w tx.channel_id tx.price "R"
          (values s)
          (values (complete_prepaid_after_error h tx result s).1)
  unfolding complete_prepaid_after_error to_grpc
  refunded tx result s e =
      let update = update_usage h.prepaid_storage tx.channel_id tx.price "R" s in
      elim (Result-cases update.0) [
        | inr (x, bad) ↦ absurd (ground (arith, bad, e))
        | inl (done, updated) ↦
            update_usage_ok h.prepaid_storage values w tx.channel_id tx.price "R" s
              (ground (arith, updated))
      ]

  -- Where storage transactions are atomic, and reading prices and verifying tokens change no usage:
  -- a prepaid call that is accepted finds the price covered by what its channel has left, and takes
  -- the price from it. If CompleteAfterError then succeeds in a state in which the usages are as the
  -- payment left them, every channel has left what it had before the call.
  pub failed_call_costs_nothing :
      KeepsUsages
      → (context : GrpcContext) (tx : PrePaidTransaction) (result : ServiceError) (s s' : S)
      → (prepaid_payment h context s).0 ≡ accepted tx
      → values s' ≡ values (prepaid_payment h context s).1
      → (complete_prepaid_after_error h tx result s').0 ≡ none
      → (tx.price ≤ℤ balance (values s) tx.channel_id)
        × (balance (values s') tx.channel_id ≡ balance (values s) tx.channel_id -ℤ tx.price)
        × ((id : ℤ)
            → balance (values (complete_prepaid_after_error h tx result s').1) id
              ≡ balance (values s) id)
  failed_call_costs_nothing keeps context tx result s s' paid same done =
      let taken = prepaid_payment-IsCharged keeps context tx s paid in
      let given = refunded tx result s' done in
      let at = same ∙ taken.0 in
      let id = tx.channel_id in
      (
        omega (int_laws, taken.1 refl),
        ap (λ v. balance v id) at
            ∙ used_balance (values s) id tx.price id
            ∙ ground (arith, eq_self id),
        λ other.
            ap (λ v. balance v other) given.0
            ∙ refund_balance (values s') id tx.price other
            ∙ back (values s) (values s') id tx.price other
                (ap (λ v. balance v other) at ∙ used_balance (values s) id tx.price other),
      )
