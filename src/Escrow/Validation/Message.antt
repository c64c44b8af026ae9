-- ===== src/Escrow/Validation/Message.antt =====
-- The message that a payment's signature signs, getSignerAddressFromPayment of escrow/validation.go:
-- it determines the payment.
use snet_daemon.Prelude.{
  ℕ, zero, suc, ◌/◌, ◌%◌, ◌^◌, ◌<◌, [], ◌∷◌, ◌++◌, length, length-append, ◌≡◌, refl, sym, ◌∙◌,
  arith,
}
use snet_daemon.Prelude.Int.{ℤ, pos, negsuc, abs, ◌≤ℤ◌, eq_of_parts}
use snet_daemon.Crypto.{Bytes, be_bytes, text_bytes, big_int_to_bytes}
use snet_daemon.Escrow.Channel.{Payment}
use snet_daemon.Escrow.Validation.{payment_message}

cons_inj : (x y : ℕ) (s t : Bytes) → x ∷ s ≡ y ∷ t → (x ≡ y) × (s ≡ t)
cons_inj x y s t e = ground arith

append_inj : (a b s t : Bytes) → length a ≡ length b → a ++ s ≡ b ++ t → (a ≡ b) × (s ≡ t)
append_inj [] [] s t h e = (refl, e)
append_inj [] (y ∷ b) s t h e = absurd (omega (arith, h))
append_inj (x ∷ a) [] s t h e = absurd (omega (arith, h))
append_inj (x ∷ a) (y ∷ b) s t h e =
    let parts = cons_inj x y (a ++ s) (b ++ t) e in
    let rest = append_inj a b s t (omega (arith, h)) parts.1 in (λ i. parts.0 i ∷ rest.0 i, rest.1)

length-be_bytes : (n m : ℕ) → length (be_bytes n m) ≡ n
unfolding be_bytes
length-be_bytes zero m = refl
length-be_bytes (suc n) m =
    length-append (be_bytes n (m / 256)) (m % 256 ∷ []) ∙ omega (arith, length-be_bytes n (m / 256))

be_bytes_inj : (n m k : ℕ) → m < 256 ^ n → k < 256 ^ n → be_bytes n m ≡ be_bytes n k → m ≡ k
unfolding be_bytes
be_bytes_inj zero m k hm hk e = omega arith
be_bytes_inj (suc n) m k hm hk e =
    let parts =
      append_inj (be_bytes n (m / 256)) (be_bytes n (k / 256)) (m % 256 ∷ []) (k % 256 ∷ [])
        (length-be_bytes n (m / 256) ∙ sym (length-be_bytes n (k / 256))) e in
    let high = be_bytes_inj n (m / 256) (k / 256) (omega arith) (omega arith) parts.0 in
    let low = (cons_inj (m % 256) (k % 256) [] [] parts.1).0 in omega (arith, high, low)

-- A number that is not negative and below 2^256.
abbrev pub IsUint256 : ℤ → Type 0
IsUint256 z = (pos 0 ≤ℤ z) × (abs z < 256 ^ 32)

big_int_to_bytes_inj :
    (y z : ℤ) → IsUint256 y → IsUint256 z → big_int_to_bytes y ≡ big_int_to_bytes z → y ≡ z
big_int_to_bytes_inj (pos m) (pos n) hy hz e =
    let same = be_bytes_inj 32 (abs (pos m)) (abs (pos n)) hy.1 hz.1 e in
    eq_of_parts (pos m) (pos n) (omega (arith, same))
big_int_to_bytes_inj (negsuc m) z hy hz e = absurd (omega (arith, hy.0))
big_int_to_bytes_inj (pos m) (negsuc n) hy hz e = absurd (omega (arith, hz.0))

-- Two fields of the same width in front of two texts.
field_inj :
    (n m k : ℕ) (s t : Bytes)
    → be_bytes n m ++ s ≡ be_bytes n k ++ t
    → (be_bytes n m ≡ be_bytes n k) × (s ≡ t)
field_inj n m k s t e =
    append_inj (be_bytes n m) (be_bytes n k) s t (length-be_bytes n m ∙ sym (length-be_bytes n k)) e

-- The fields of a payment fit the widths that the message gives them.
pub record FitsMessage (p : Payment) : Type 0 where
  pub address : p.mpe_contract_address < 256 ^ 20
  pub channel_id : IsUint256 p.channel_id
  pub channel_nonce : IsUint256 p.channel_nonce
  pub amount : IsUint256 p.amount

-- A signature stands for one payment only: two payments whose fields are unsigned and fit their
-- widths, an address of 20 bytes and numbers of 32, have the same message only if they agree in the
-- contract, the channel, the nonce and the amount.
pub payment_message_inj :
    (p q : Payment)
    → FitsMessage p
    → FitsMessage q
    → payment_message p ≡ payment_message q
    → (p.mpe_contract_address ≡ q.mpe_contract_address)
      × (p.channel_id ≡ q.channel_id)
      × (p.channel_nonce ≡ q.channel_nonce)
      × (p.amount ≡ q.amount)
unfolding payment_message
payment_message_inj p q hp hq e =
    let label = text_bytes "__MPE_claim_message" in
    let e1 = (append_inj label label _ _ refl e).1 in
    let (address, e2) = field_inj 20 p.mpe_contract_address q.mpe_contract_address _ _ e1 in
    let (id, e3) = field_inj 32 (abs p.channel_id) (abs q.channel_id) _ _ e2 in
    let (nonce, amount) = field_inj 32 (abs p.channel_nonce) (abs q.channel_nonce) _ _ e3 in
    (
      be_bytes_inj 20 p.mpe_contract_address q.mpe_contract_address hp.address hq.address address,
      big_int_to_bytes_inj p.channel_id q.channel_id hp.channel_id hq.channel_id id,
      big_int_to_bytes_inj p.channel_nonce q.channel_nonce hp.channel_nonce hq.channel_nonce nonce,
      big_int_to_bytes_inj p.amount q.amount hp.amount hq.amount amount,
    )
