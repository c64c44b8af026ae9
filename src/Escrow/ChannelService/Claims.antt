-- ===== src/Escrow/ChannelService/Claims.antt =====
-- Claims of escrow/escrow.go against the contract of the storages and the locker: StartClaim and
-- Finish.
use snet_daemon.Prelude.{false, [], ◌≡◌, ◌∙◌, subst, none, some, arith, ap, sym, refl, inl, inr}
use snet_daemon.Prelude.Int.{sub-add_cancel, pos, ◌+ℤ◌, ◌-ℤ◌}
use snet_daemon.Effects.{ok, Found-cases}
use snet_daemon.Escrow.Channel.{
  Payment, PaymentChannelKey, PaymentChannelData, ChannelUpdate, key_string, id_of_payment,
  payment_id, get_payment_from_channel, increment_channel_nonce,
}
use snet_daemon.Escrow.Lock.{Lock, always_unlock}
use snet_daemon.Escrow.ChannelService.{
  LockingPaymentChannelService, Claim, claim_locked, start_claim, finish,
}
use snet_daemon.Escrow.ChannelService.Transactions.{UnlockSucceeds}
use snet_daemon.Escrow.World.{
  set_payment_self, set_channel_self, set_lock_back, View, set_lock, set_channel, set_payment,
  IsWorld,
}

module _ {S : Type 0} (view : S → View) (h : LockingPaymentChannelService S)
    (w : IsWorld view h) where
  -- The view after a claim on a channel.
  abbrev pub claimed : PaymentChannelKey → ChannelUpdate → PaymentChannelData → View → View
  claimed key update channel v =
      let payment = get_payment_from_channel channel in
      set_payment (id_of_payment payment) (some payment) (set_channel key.id (update channel) v)

  claim_steps :
      (key : PaymentChannelKey) (update : ChannelUpdate) (claim : Claim) (s : S)
      → (claim_locked h key update s).0 ≡ ok claim
      → (channel : PaymentChannelData) × ((h.storage.get key s).0 ≡ ok (some channel))
        × (claim.payment ≡ get_payment_from_channel channel)
        × (let s1 = (h.storage.get key s).1 in
            let put = h.storage.put key (update channel) s1 in
            let payment = get_payment_from_channel channel in
            let record_payment = h.payment_storage.put (id_of_payment payment) payment put.1 in
            (put.0 ≡ ok tt)
            × (record_payment.0 ≡ ok tt)
            × ((claim_locked h key update s).1 ≡ record_payment.1))
  unfolding claim_locked
  claim_steps key update claim s e = elim (Found-cases (h.storage.get key s).0) [
    | inl (c, found) ↦ (c, found, ground arith, (ground arith, ground arith, ground arith))
    | inr (inl absent) ↦ absurd (ground (arith, absent))
    | inr (inr (x, failed)) ↦ absurd (ground (arith, failed))
  ]

  claim_locked_view :
      (key : PaymentChannelKey) (update : ChannelUpdate) (claim : Claim) (s : S)
      → (claim_locked h key update s).0 ≡ ok claim
      → (channel : PaymentChannelData) × ((view s).channels key.id ≡ some channel)
        × (claim.payment ≡ get_payment_from_channel channel)
        × (view (claim_locked h key update s).1 ≡ claimed key update channel (view s))
  claim_locked_view key update claim s e =
      let (channel, found, same, (put, recorded, last)) = claim_steps key update claim s e in
      let s1 = (h.storage.get key s).1 in
      let s2 = (h.storage.put key (update channel) s1).1 in
      let payment = get_payment_from_channel channel in
      (
        channel,
        sym (w.get_shows key s (some channel) found),
        same,
        ap view last
            ∙ w.put_payment_shows (id_of_payment payment) payment s2 recorded
            ∙ ap (set_payment (id_of_payment payment) (some payment)) (
                w.put_shows key (update channel) s1 put
                ∙ ap (set_channel key.id (update channel)) (w.get_keeps key s)),
      )

  start_claim_given :
      (key : PaymentChannelKey) (update : ChannelUpdate) (l : Lock S) (s : S)
      → (h.locker.lock (key_string key) s).0 ≡ ok (some l)
      → let body = claim_locked h key update (h.locker.lock (key_string key) s).1 in
        ((start_claim h key update s).0 ≡ body.0)
        × ((start_claim h key update s).1 ≡ (l.unlock body.1).1)
  unfolding start_claim always_unlock
  start_claim_given key update l s given = ground (arith, given)

  -- What a claim that was started has done: it is for the payment that the stored channel held, the
  -- channel is updated, the payment is recorded, and nothing else has changed.
  pub record HasClaimed (key : PaymentChannelKey) (update : ChannelUpdate) (claim : Claim)
      (s s' : S) : Type 0 where
    pub channel : PaymentChannelData
    pub stored : (view s).channels key.id ≡ some channel
    pub payment : claim.payment ≡ get_payment_from_channel channel
    pub effect : view s' ≡ claimed key update channel (view s)

  claimed_under_lock :
      (key : PaymentChannelKey) (update : ChannelUpdate) (claim : Claim) (l : Lock S) (s : S)
      → (h.locker.lock (key_string key) s).0 ≡ ok (some l)
      → UnlockSucceeds view h w
      → (start_claim h key update s).0 ≡ ok claim
      → HasClaimed key update claim s (start_claim h key update s).1
  claimed_under_lock key update claim l s given frees e =
      let name = key_string key in
      let s1 = (h.locker.lock name s).1 in
      let parts = start_claim_given key update l s given in
      let (free, taken, lock_of) = w.lock_given name l s given in
      let (channel, stored, same, effect) =
        claim_locked_view key update claim s1 (sym parts.0 ∙ e) in
      let s2 = (claim_locked h key update s1).1 in
      record {
        channel = channel;
        stored = ap (λ (v : View). v.channels key.id) (sym taken) ∙ stored;
        payment = same;
        effect =
            ap view parts.1
            ∙ lock_of s2 (frees name l s s2 given)
            ∙ ap (set_lock name false) (effect ∙ ap (claimed key update channel) taken)
            ∙ set_lock_back name (claimed key update channel (view s)) free;
      }

  pub start_claim_ok :
      (key : PaymentChannelKey) (update : ChannelUpdate) (claim : Claim) (s : S)
      → UnlockSucceeds view h w
      → (start_claim h key update s).0 ≡ ok claim
      → HasClaimed key update claim s (start_claim h key update s).1
  start_claim_ok key update claim s frees e =
      elim (Found-cases (h.locker.lock (key_string key) s).0) [
        | inl (l, given) ↦ claimed_under_lock key update claim l s given frees e
        | inr (inl busy) ↦ absurd (unfold start_claim in ground (arith, busy))
        | inr (inr (x, failed)) ↦ absurd (unfold start_claim in ground (arith, failed))
      ]

  -- A claim with IncrementChannelNonce that succeeds, where the storages and the locker keep their
  -- contract and Unlock succeeds: the channel goes on under the next nonce with nothing
  -- authorized and no signature, its remaining amount and the claimed amount make up the old full
  -- amount, and the claimed payment, which has the old channel id, nonce, authorized amount and
  -- signature, is recorded under the old channel id and nonce.
  pub start_claim_conserves :
      (key : PaymentChannelKey) (claim : Claim) (s : S)
      → UnlockSucceeds view h w
      → (start_claim h key increment_channel_nonce s).0 ≡ ok claim
      → let s' = (start_claim h key increment_channel_nonce s).1 in
        (old : PaymentChannelData) × (new : PaymentChannelData) × ((view s).channels key.id
          ≡ some old)
        × ((view s').channels key.id ≡ some new)
        × (new.nonce ≡ old.nonce +ℤ pos 1)
        × (new.authorized_amount ≡ pos 0)
        × (new.signature ≡ [])
        × (claim.payment.channel_id ≡ old.channel_id)
        × (claim.payment.channel_nonce ≡ old.nonce)
        × (claim.payment.amount ≡ old.authorized_amount)
        × (claim.payment.signature ≡ old.signature)
        × (new.full_amount +ℤ claim.payment.amount ≡ old.full_amount)
        × ((view s').payments (payment_id old.channel_id old.nonce) ≡ some claim.payment)
  unfolding increment_channel_nonce get_payment_from_channel
  start_claim_conserves key claim s frees e =
      let s' = (start_claim h key increment_channel_nonce s).1 in
      let done = start_claim_ok key increment_channel_nonce claim s frees e in
      let old = done.channel in
      (
        old,
        increment_channel_nonce old,
        done.stored,
        ap (λ (v : View). v.channels key.id) done.effect
            ∙ set_channel_self key.id (increment_channel_nonce old) (view s),
        refl,
        refl,
        refl,
        ap (λ (p : Payment). p.channel_id) done.payment,
        ap (λ (p : Payment). p.channel_nonce) done.payment,
        ap (λ (p : Payment). p.amount) done.payment,
        ap (λ (p : Payment). p.signature) done.payment,
        subst (λ c. old.full_amount -ℤ old.authorized_amount +ℤ c ≡ old.full_amount)
            (sym (ap (λ (p : Payment). p.amount) done.payment))
            (sub-add_cancel old.full_amount old.authorized_amount),
        subst (λ p. (view s').payments (payment_id old.channel_id old.nonce) ≡ some p)
            (sym done.payment)
            (ap (λ (v : View). v.payments (payment_id old.channel_id old.nonce)) done.effect
              ∙ set_payment_self (payment_id old.channel_id old.nonce)
                  (some (get_payment_from_channel old))
                  (set_channel key.id (increment_channel_nonce old) (view s))),
      )

  -- Finish removes the claimed payment and nothing else.
  pub finish_removes :
      (claim : Claim) (s : S)
      → (finish h claim s).0 ≡ ok tt
      → view (finish h claim s).1 ≡ set_payment (id_of_payment claim.payment) none (view s)
  unfolding finish
  finish_removes claim s e = w.delete_payment_shows (id_of_payment claim.payment) s e
