-- ===== src/Escrow/ProviderControl/Claiming.antt =====
-- What the claims of ProviderControlService in escrow/control_service.go do to the stored channels
-- and payments, against the contract of the storages and the locker.
use snet_daemon.Prelude.{
  ◌≡◌, ◌∙◌, sym, ap, subst, arith, none, some, List, [], ◌∷◌, inl, inr, Bool-cases,
}
use snet_daemon.Prelude.Int.{ℤ, pos, ◌+ℤ◌, ◌-ℤ◌, ◌<ℤ◌, ltb_ℤ}
use snet_daemon.Crypto.{big_int_to_bytes}
use snet_daemon.Effects.{Result, ok, Result-cases, Found-cases}
use snet_daemon.Escrow.Channel.{
  PaymentChannelKey, PaymentChannelData, id_of_payment, payment_id, get_payment_from_channel,
  increment_channel_nonce,
}
use snet_daemon.Escrow.ChannelService.{
  Claim, payment_channel, payment_channel_from_blockchain, start_claim, finish,
}
use snet_daemon.Escrow.ChannelService.Transactions.{
  UnlockSucceeds, payment_channel_keeps, from_blockchain_keeps,
}
use snet_daemon.Escrow.ChannelService.Claims.{claimed, start_claim_ok, finish_removes}
use snet_daemon.Escrow.World.{View, set_payment, set_channel, IsWorld}
use snet_daemon.Escrow.ProviderControl.{
  ProviderControlService, PaymentReply, claim_reply, begin_claim_on_channel, remove_claimed,
  int64_is_zero,
}

module _ {S : Type 0} (view : S → View) (service : ProviderControlService S)
    (w : IsWorld view service.channel_service) where
  abbrev key_of_id : ℤ → PaymentChannelKey
  key_of_id id = record { id = id }

  -- beginClaimOnChannel that succeeds is a StartClaim on a channel with something to claim.
  begin_parts :
      (id : ℤ) (reply : PaymentReply) (s : S)
      → (begin_claim_on_channel service id s).0 ≡ ok reply
      → let s1 = (payment_channel service.channel_service (key_of_id id) s).1 in
        let run = start_claim service.channel_service (key_of_id id) increment_channel_nonce s1 in
        (claim : Claim) × (run.0 ≡ ok claim)
        × (reply ≡ claim_reply service id claim.payment)
        × ((begin_claim_on_channel service id s).1 ≡ run.1)
  unfolding begin_claim_on_channel
  begin_parts id reply s e =
      let (found, s1) = payment_channel service.channel_service (key_of_id id) s in
      let run = start_claim service.channel_service (key_of_id id) increment_channel_nonce s1 in
      elim (Found-cases found) [
        | inr (inl missing) ↦ absurd (ground (arith, missing))
        | inr (inr (x, broken)) ↦ absurd (ground (arith, broken))
        | inl (latest, there) ↦ elim (Bool-cases (int64_is_zero latest.authorized_amount)) [
          | inl empty ↦ absurd (ground (arith, there, empty))
          | inr some_left ↦ elim (Result-cases run.0) [
            | inr (x, broken) ↦ absurd (ground (arith, there, some_left, broken))
            | inl (claim, begun) ↦ (
              claim,
              begun,
              ground (arith, there, some_left, begun),
              ground (arith, there, some_left, begun),
            )
          ]
        ]
      ]

  -- A claim that ProviderControlService begins without an error, where the storages, the locker
  -- and the node keep their contract and Unlock succeeds: the reply carries the channel id of the
  -- claim, and the nonce, the signature and the authorized amount that were stored for the channel.
  -- The channel goes on under the next nonce with that amount taken off its full amount, nothing
  -- authorized and no signature; a payment with the stored channel id, nonce, amount and signature
  -- is recorded under this id and nonce; and nothing else changes.
  pub begin_claim_ok :
      (id : ℤ) (reply : PaymentReply) (s : S)
      → UnlockSucceeds view service.channel_service w
      → (begin_claim_on_channel service id s).0 ≡ ok reply
      → (channel : PaymentChannelData) × ((view s).channels id ≡ some channel)
        × (reply ≡ record {
          channel_id = big_int_to_bytes id;
          channel_nonce = big_int_to_bytes channel.nonce;
          signature = channel.signature;
          signed_amount = big_int_to_bytes channel.authorized_amount;
          channel_expiry = [];
        })
        × (view (begin_claim_on_channel service id s).1
            ≡ set_payment
                (payment_id channel.channel_id channel.nonce)
                (some (record {
                  mpe_contract_address = 0;
                  channel_id = channel.channel_id;
                  channel_nonce = channel.nonce;
                  amount = channel.authorized_amount;
                  signature = channel.signature;
                }))
                (set_channel id
                  (record channel {
                    nonce = channel.nonce +ℤ pos 1;
                    full_amount = channel.full_amount -ℤ channel.authorized_amount;
                    authorized_amount = pos 0;
                    signature = [];
                  })
                  (view s)))
  unfolding increment_channel_nonce get_payment_from_channel
  begin_claim_ok id reply s frees e =
      let (claim, begun, replied, same) = begin_parts id reply s e in
      let s1 = (payment_channel service.channel_service (key_of_id id) s).1 in
      let kept = payment_channel_keeps view service.channel_service w (key_of_id id) s in
      let done =
        start_claim_ok view service.channel_service w (key_of_id id) increment_channel_nonce claim
          s1 frees begun in
      (
        done.channel,
        ap (λ (v : View). v.channels id) (sym kept) ∙ done.stored,
        replied ∙ ap (claim_reply service id) done.payment,
        ap view same
            ∙ done.effect
            ∙ ap
                (claimed view service.channel_service w (key_of_id id) increment_channel_nonce
                  done.channel)
                kept,
      )

  -- The payments of some of the claims are gone, each of them of a nonce that the node reported to
  -- be over; nothing else has changed.
  pub data HasCleared : List Claim → View → View → Type 0 where
    stopped : {claims : List Claim} {v : View} → HasCleared claims v v
    kept :
        {claim : Claim} {claims : List Claim} {v v' : View}
        → HasCleared claims v v'
        → HasCleared (claim ∷ claims) v v'
    cleared :
        {claim : Claim} {claims : List Claim} {v v' : View} (channel : PaymentChannelData) (s : S)
        → (payment_channel_from_blockchain service.channel_service
            (key_of_id claim.payment.channel_id)
            s).0
          ≡ ok (some channel)
        → claim.payment.channel_nonce <ℤ channel.nonce
        → HasCleared claims (set_payment (id_of_payment claim.payment) none v) v'
        → HasCleared (claim ∷ claims) v v'

  -- Where the storages and the node keep their contract, the loop of removeClaimedPayments that
  -- ends without an error removes only payments of listed claims whose nonce is behind the nonce
  -- that the node reports for their channel; channels, locks and all other payments stay.
  pub remove_claimed-HasCleared :
      (claims : List Claim) (s : S)
      → (remove_claimed service claims s).0 ≡ ok tt
      → HasCleared claims (view s) (view (remove_claimed service claims s).1)
  unfolding remove_claimed
  remove_claimed-HasCleared [] s e = stopped
  remove_claimed-HasCleared (claim ∷ claims) s e =
      let key = key_of_id claim.payment.channel_id in
      let (found, s1) = payment_channel_from_blockchain service.channel_service key s in
      let same = from_blockchain_keeps view service.channel_service w key s in
      let (end, s2) = finish service.channel_service claim s1 in
      elim (Found-cases found) [
        | inr (inl missing) ↦
            subst (HasCleared (claim ∷ claims) (view s)) (sym same ∙ ground (arith, missing))
              stopped
        | inr (inr (x, broken)) ↦ absurd (ground (arith, broken))
        | inl (channel, there) ↦
            elim (Bool-cases (ltb_ℤ claim.payment.channel_nonce channel.nonce)) [
              | inr current ↦
                  let step : remove_claimed service (claim ∷ claims) s
                      ≡ remove_claimed service claims s1 =
                    ground (arith, there, current) in
                  let rest =
                    remove_claimed-HasCleared claims s1
                      (ap (λ (p : Result (Unit {0}) × S). p.0) (sym step) ∙ e) in
                  subst
                    (λ (p : Result (Unit {0}) × S). HasCleared (claim ∷ claims) (view s) (view p.1))
                    (sym step)
                    (kept (
                      subst (λ v. HasCleared claims v (view (remove_claimed service claims s1).1))
                        same rest))
              | inl over ↦ elim (Result-cases end) [
                | inr (x, broken) ↦ absurd (ground (arith, there, over, broken))
                | inl (_, done) ↦
                    let step : remove_claimed service (claim ∷ claims) s
                        ≡ remove_claimed service claims s2 =
                      ground (arith, there, over, done) in
                    let rest =
                      remove_claimed-HasCleared claims s2
                        (ap (λ (p : Result (Unit {0}) × S). p.0) (sym step) ∙ e) in
                    let gone =
                      finish_removes view service.channel_service w claim s1 done
                      ∙ ap (set_payment (id_of_payment claim.payment) none) same in
                    subst
                      (λ (p : Result (Unit {0}) × S).
                        HasCleared (claim ∷ claims) (view s) (view p.1))
                      (sym step)
                      (cleared channel s there (ground (arith, over)) (
                        subst (λ v. HasCleared claims v (view (remove_claimed service claims s2).1))
                          gone rest))
              ]
            ]
      ]
