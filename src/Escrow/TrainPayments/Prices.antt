-- ===== src/Escrow/TrainPayments/Prices.antt =====
-- Which unary training calls escrow/train_pay_handler.go accepts.
use snet_daemon.Prelude.{
  ℕ, String, ◌≡◌, refl, ap, subst, ◌∙◌, arith, Option, none, some, List, [], ◌∷◌, inl, inr,
}
use snet_daemon.Prelude.Int.{ℤ, pos, ◌-ℤ◌, eq_of_parts}
use snet_daemon.Prelude.Text.{after_last_slash}
use snet_daemon.Effects.{ok, Result-cases}
use snet_daemon.Storage.Dict.{lookup}
use snet_daemon.Handler.Grpc.{GrpcContext, accepted, training_model_id, Grpc-cases}
use snet_daemon.Escrow.Channel.{Payment}
use snet_daemon.Escrow.ChannelService.{PaymentTransaction, start_payment_transaction}
use snet_daemon.Escrow.TrainPayments.{
  ModelPrices, TrainUnaryPaymentHandler, train_price_of, check_train_price, model_of_call,
  validate_train_income, get_train_payment_from_context, check_train_income, start_train_payment,
  train_payment,
}

module _ {S : Type 0} (h : TrainUnaryPaymentHandler S) where
  -- The call names a model that is stored, and pays its price for the method.
  pub record IsPriced (context : GrpcContext) (income : ℤ) (s : S) : Type 0 where
    pub model_id : String
    pub more : List String
    pub named : lookup training_model_id context.md ≡ some (model_id ∷ more)
    pub model : Option ModelPrices
    pub stored : (h.get_model model_id s).0 ≡ ok model
    pub train_priced :
        after_last_slash context.full_method ≡ "train_model"
        → (m : ModelPrices) × (model ≡ some m) × (income ≡ pos m.train_price)
    pub validate_priced :
        after_last_slash context.full_method ≡ "validate_model"
        → (m : ModelPrices) × (model ≡ some m) × (income ≡ pos m.validate_price)

  validate_known :
      (income : ℤ) (model : Option ModelPrices) (price : Option ℕ)
      → train_price_of "validate_model" model ≡ ok price
      → ((p : ℕ) → price ≡ some p → income ≡ pos p)
      → (m : ModelPrices) × (model ≡ some m) × (income ≡ pos m.validate_price)
  validate_known income none price known priced = absurd (ground (arith, known))
  validate_known income (some m) price known priced =
      (m, refl, priced m.validate_price (ground (arith, known)))

  train_known :
      (income : ℤ) (model : Option ModelPrices) (price : Option ℕ)
      → train_price_of "train_model" model ≡ ok price
      → ((p : ℕ) → price ≡ some p → income ≡ pos p)
      → (m : ModelPrices) × (model ≡ some m) × (income ≡ pos m.train_price)
  train_known income none price known priced = absurd (ground (arith, known))
  train_known income (some m) price known priced =
      (m, refl, priced m.train_price (ground (arith, known)))

  price_checked :
      (income : ℤ) (price : Option ℕ) (s : S)
      → (check_train_price income price s).0 ≡ ok tt
      → (p : ℕ) → price ≡ some p
      → income ≡ pos p
  price_checked income none s e p is = absurd (ground (arith, is))
  price_checked income (some q) s e p is = eq_of_parts income (pos p) (ground (arith, e, is))

  train_checked :
      (income : ℤ) (method : String) (model : Option ModelPrices) (price : Option ℕ)
      → train_price_of method model ≡ ok price
      → ((p : ℕ) → price ≡ some p → income ≡ pos p)
      → method ≡ "train_model"
      → (m : ModelPrices) × (model ≡ some m) × (income ≡ pos m.train_price)
  train_checked income method model price known priced is =
      let is_known = subst (λ k. train_price_of k model ≡ ok price) is known in
      train_known income model price is_known priced

  validate_checked :
      (income : ℤ) (method : String) (model : Option ModelPrices) (price : Option ℕ)
      → train_price_of method model ≡ ok price
      → ((p : ℕ) → price ≡ some p → income ≡ pos p)
      → method ≡ "validate_model"
      → (m : ModelPrices) × (model ≡ some m) × (income ≡ pos m.validate_price)
  validate_checked income method model price known priced is =
      let is_known = subst (λ k. train_price_of k model ≡ ok price) is known in
      validate_known income model price is_known priced

  model_named :
      (values : Option (List String)) (s : S) (model : Option ModelPrices)
      → (model_of_call h values s).0 ≡ ok model
      → (id : String) × (more : List String) × (values ≡ some (id ∷ more))
        × ((h.get_model id s).0 ≡ ok model)
  unfolding model_of_call
  model_named none s model e = absurd (ground (arith, e))
  model_named (some []) s model e = absurd (ground (arith, e))
  model_named (some (id ∷ more)) s model e = elim (Result-cases (h.get_model id s).0) [
    | inl (m, found) ↦ (id, more, refl, ground (arith, found, e))
    | inr (x, bad) ↦ absurd (ground (arith, bad, e))
  ]

  validate-IsPriced :
      (income : ℤ) (context : GrpcContext) (s : S)
      → (validate_train_income h income context s).0 ≡ ok tt
      → IsPriced context income s
  unfolding validate_train_income
  validate-IsPriced income context s e =
      let values = lookup training_model_id context.md in
      let s1 = (model_of_call h values s).1 in
      elim (Result-cases (model_of_call h values s).0) [
        | inr (x, bad) ↦ absurd (ground (arith, bad, e))
        | inl (model, found) ↦
            let (id, more, named, stored) = model_named values s model found in
            elim (Result-cases (train_price_of (after_last_slash context.full_method) model)) [
              | inr (x, bad) ↦ absurd (ground (arith, found, bad, e))
              | inl (price, known) ↦
                  let priced = price_checked income price s1 (ground (arith, found, known, e)) in
                  record {
                    model_id = id;
                    more = more;
                    named = named;
                    model = model;
                    stored = stored;
                    train_priced = train_checked income _ model price known priced;
                    validate_priced = validate_checked income _ model price known priced;
                  }
            ]
      ]

  -- A unary training call is accepted only with the payment that its metadata carries, for which a
  -- payment transaction was started, and whose amount exceeds the channel's authorized amount by
  -- exactly the train price of the stored model that the call names, if its method is train_model,
  -- or by exactly the validate price, if it is validate_model.
  pub train_payment-IsPriced :
      (context : GrpcContext) (s : S) (tx : PaymentTransaction S)
      → (train_payment h context s).0 ≡ accepted tx
      → (sent : Payment) × (get_train_payment_from_context h context ≡ accepted sent)
        × ((start_payment_transaction h.service sent s).0 ≡ ok tx)
        × IsPriced context
            (sent.amount -ℤ tx.channel.authorized_amount)
            (start_payment_transaction h.service sent s).1
  unfolding train_payment start_train_payment check_train_income
  train_payment-IsPriced context s tx e =
      elim (Grpc-cases (get_train_payment_from_context h context)) [
        | inr (x, bad) ↦ absurd (ground (arith, bad, e))
        | inl (sent, good) ↦
            let s1 = (start_payment_transaction h.service sent s).1 in
            elim (Result-cases (start_payment_transaction h.service sent s).0) [
              | inr (x, bad) ↦ absurd (ground (arith, good, bad, e))
              | inl (begun, started) ↦
                  let income = sent.amount -ℤ begun.channel.authorized_amount in
                  elim (Result-cases (validate_train_income h income context s1).0) [
                    | inr (x, bad) ↦ absurd (ground (arith, good, started, bad, e))
                    | inl (done, valid) ↦
                        let same : begun ≡ tx = ground (arith, good, started, valid, e) in
                        (
                          sent,
                          good,
                          started ∙ ap ok same,
                          subst
                              (λ (t : PaymentTransaction S).
                                IsPriced context (sent.amount -ℤ t.channel.authorized_amount) s1)
                              same (validate-IsPriced income context s1 (ground (arith, valid))),
                        )
                  ]
            ]
      ]
