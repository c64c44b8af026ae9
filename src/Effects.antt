-- ===== src/Effects.antt =====
-- Go's multiple results with an `error`: a result type, and calls that change a shared state and
-- may fail. What was written before an error stays written, so the state comes back with it too.
use snet_daemon.Prelude.{Option, none, some, String, ◌≡◌, refl, ◌⊎◌, inl, inr, Bool, true, false}

-- PaymentErrorCode of escrow/payment_channel_api.go.
pub data PaymentErrorCode : Type 0 where
  internal unauthenticated failed_precondition incorrect_nonce : PaymentErrorCode

-- A non-nil Go `error`: a *PaymentError with its code, or any other error. The text is the format
-- string of the source, without the values that fmt.Sprintf puts in.
pub data Error : Type 0 where
  payment_error : PaymentErrorCode → String → Error
  plain : String → Error

pub data Result {ℓ} (A : Type ℓ) : Type ℓ where
  ok : A → Result A
  err : Error → Result A

-- A call on the shared state `S`.
abbrev pub Action {ℓ} : Type 0 → Type ℓ → Type ℓ
Action S A = S → Result A × S

-- `if err != nil { return }` on a pure result.
abbrev pub bind_result {ℓ κ} : {A : Type ℓ} {B : Type κ} → Result A → (A → Result B) → Result B
bind_result (ok a) f = f a
bind_result (err e) f = err e

module _ {S : Type 0} where
  abbrev pub pure : {A : Type 0} → A → Action S A
  pure a s = (ok a, s)

  abbrev pub fail : {A : Type 0} → Error → Action S A
  fail e s = (err e, s)

  -- A pure result among the calls.
  abbrev pub lift : {A : Type 0} → Result A → Action S A
  lift r s = (r, s)

  -- `if cond { return err }`
  abbrev pub fail_if : Bool → Error → Action S (Unit {0})
  fail_if true e s = (err e, s)
  fail_if false e s = (ok tt, s)

  -- Goes on after a call that came back with `r`.
  abbrev pub continue : {A B : Type 0} → Result A → (A → Action S B) → Action S B
  continue (ok a) f s = f a s
  continue (err e) f s = (err e, s)

  infixl 5 ◌>>=◌ ◌>>◌
  abbrev pub ◌>>=◌ : {A B : Type 0} → Action S A → (A → Action S B) → Action S B
  ◌>>=◌ m f s = let (r, s') = m s in continue r f s'

  abbrev pub ◌>>◌ : {B : Type 0} → Action S (Unit {0}) → Action S B → Action S B
  m >> k = m >>= λ _. k

  -- A call whose error is replaced, `return nil, NewPaymentError(...)`.
  abbrev pub or_error : {A : Type 0} → Action S A → Error → Action S A
  or_error m e s = let (r, s') = m s in elim r [ ok a ↦ (ok a, s') | err _ ↦ (err e, s') ]

pub Result-cases {ℓ} :
    {A : Type ℓ} (r : Result A) → ((a : A) × (r ≡ ok a)) ⊎ ((e : Error) × (r ≡ err e))
Result-cases (ok a) = inl (a, refl)
Result-cases (err e) = inr (e, refl)

-- The three ends of a lookup that may fail.
pub Found-cases {ℓ} :
    {A : Type ℓ} (r : Result (Option A))
    → ((a : A) × (r ≡ ok (some a))) ⊎ (r ≡ ok none) ⊎ ((e : Error) × (r ≡ err e))
Found-cases (ok (some a)) = inl (a, refl)
Found-cases (ok none) = inr (inl refl)
Found-cases (err e) = inr (inr (e, refl))

-- The three ends of a conditional write.
pub Verdict-cases : (r : Result Bool) → (r ≡ ok true) ⊎ (r ≡ ok false) ⊎ ((e : Error) × (r ≡ err e))
Verdict-cases (ok true) = inl refl
Verdict-cases (ok false) = inr (inl refl)
Verdict-cases (err e) = inr (inr (e, refl))
