-- ===== src/Escrow/TokenService/Planning.antt =====
-- What GetToken of escrow/token_service.go has checked and written when it replies.
use snet_daemon.Prelude.{
  ◌++◌, ◌≡◌, ◌⊎◌, ap, sym, ◌∙◌, subst, arith, true, ltb, some, inl, inr, Bool-cases, ◌%◌, ◌^◌,
  String,
}
use snet_daemon.Prelude.Int.{ℤ, pos, ◌-ℤ◌, ◌≤ℤ◌, ◌<ℤ◌, ltb_ℤ, abs, to_int64, eq_of_parts}
use snet_daemon.Effects.{Result, ok, Result-cases, Found-cases}
use snet_daemon.Crypto.{Address, u256_bytes, get_signer_address_from_message}
use snet_daemon.Storage.Typed.Contract.{IsTransactional}
use snet_daemon.Escrow.Channel.{Payment, PaymentChannelKey, PaymentChannelData}
use snet_daemon.Escrow.Validation.{
  validate, compare_with_latest_block_number, allowed_block_difference,
}
use snet_daemon.Escrow.Validation.Accepted.{IsAccepted, validate-IsAccepted}
use snet_daemon.Escrow.ChannelService.{
  PaymentTransaction, payment_channel, start_payment_transaction, commit,
}
use snet_daemon.Escrow.Prepaid.{PrePaidDataKey, get_usage, update_usage}
use snet_daemon.Escrow.Prepaid.Usage.{Usages, same_key, HasAdded, update_usage_ok}
use snet_daemon.Escrow.StateService.{is_of_channel}
use snet_daemon.Escrow.TokenService.{
  TokenService, TokenRequest, TokenReply, get_payment, verify_signature, take_new_amount,
  verify_with_channel, verify_signature_and_signed_amount_eligibility, reply_with_token, get_token,
}

module _ {S : Type 0} (service : TokenService S) (values : S → Usages)
    (w : IsTransactional same_key service.prepaid_storage values) where
  -- Only UpdateUsage changes usages.
  pub record OthersKeepUsages : Type 0 where
    pub current_block : (s : S) → values (service.validator.current_block s).1 ≡ values s
    pub payment_channel :
        (key : PaymentChannelKey) (s : S)
        → values (payment_channel service.channel_service key s).1 ≡ values s
    pub start :
        (payment : Payment) (s : S)
        → values (start_payment_transaction service.channel_service payment s).1 ≡ values s
    pub commit :
        (payment : Payment) (tx : PaymentTransaction S) (s s' : S)
        → (start_payment_transaction service.channel_service payment s).0 ≡ ok tx
        → values (commit service.channel_service tx s').1 ≡ values s'
    pub get_usage :
        (key : PrePaidDataKey) (s : S)
        → values (get_usage service.prepaid_storage key s).1 ≡ values s
    pub create_token :
        (channel_id : ℤ) (user : String) (s : S)
        → values (service.token_manager.create_token channel_id user s).1 ≡ values s

  -- The new amount has been committed in a transaction of its own, and the difference to the
  -- authorized amount of the channel that was read before has been added to what is planned.
  abbrev pub IsPlanned : ℤ → ℤ → Payment → PaymentChannelData → Usages → Usages → Type 0
  IsPlanned channel_id latest payment channel before after =
      ((s : S) × (tx : PaymentTransaction S) × ((start_payment_transaction service.channel_service
            payment s).0
          ≡ ok tx)
        × ((commit service.channel_service tx
              (start_payment_transaction service.channel_service payment s).1).0
            ≡ ok tt))
      × HasAdded service.prepaid_storage values w channel_id (latest -ℤ channel.authorized_amount)
          "P" before after

  module _ (keeps : OthersKeepUsages) where
    taken :
        (channel_id latest : ℤ) (payment : Payment) (channel : PaymentChannelData) (s : S)
        → (take_new_amount service channel_id latest payment channel s).0 ≡ ok tt
        → IsPlanned channel_id latest payment channel
            (values s)
            (values (take_new_amount service channel_id latest payment channel s).1)
    unfolding take_new_amount
    taken channel_id latest payment channel s e =
        let started = start_payment_transaction service.channel_service payment s in
        let new = latest -ℤ channel.authorized_amount in
        elim (Result-cases started.0) [
          | inr (x, bad) ↦ absurd (ground (arith, bad, e))
          | inl (tx, begun) ↦
              let s2 = (commit service.channel_service tx started.1).1 in
              elim (Result-cases (commit service.channel_service tx started.1).0) [
                | inr (x, bad) ↦ absurd (ground (arith, begun, bad, e))
                | inl (done, committed) ↦
                    let update = update_usage service.prepaid_storage channel_id new "P" s2 in
                    let same = keeps.commit payment tx s started.1 begun ∙ keeps.start payment s in
                    let run : take_new_amount service channel_id latest payment channel s ≡ update =
                      ground (arith, begun, committed) in
                    let added =
                      update_usage_ok service.prepaid_storage values w channel_id new "P" s2
                        (ap (λ (p : Result (Unit {0}) × S). p.0) (sym run) ∙ e) in
                    (
                      (s, tx, begun, committed),
                      subst
                          (λ v. HasAdded service.prepaid_storage values w channel_id new "P" v (
                            values (take_new_amount service channel_id latest payment channel s).1))
                          same
                          (subst
                            (λ s'.
                              HasAdded service.prepaid_storage values w channel_id new "P"
                                (values s2) (values s'))
                            (ap (λ (p : Result (Unit {0}) × S). p.1) (sym run)) added),
                    )
              ]
        ]

    signature_parts :
        (request : TokenRequest) (channel : PaymentChannelData) (signer : Address) (s : S)
        → (verify_signature service request channel s).0 ≡ ok signer
        → (get_signer_address_from_message service.validator.crypto
              (request.claim_signature ++ u256_bytes (to_int64 request.current_block))
              request.signature
            ≡ ok signer)
          × (is_of_channel signer channel ≡ true)
          × ((verify_signature service request channel s).1 ≡ (service.validator.current_block s).1)
    unfolding verify_signature compare_with_latest_block_number
    signature_parts request channel signer s e =
        let message = request.claim_signature ++ u256_bytes (to_int64 request.current_block) in
        elim (Result-cases
          (get_signer_address_from_message service.validator.crypto message request.signature)) [
            | inr (x, bad) ↦ absurd (ground (arith, bad, e))
            | inl (a, good) ↦ elim (Bool-cases (is_of_channel a channel)) [
              | inr other ↦ absurd (ground (arith, good, other, e))
              | inl of ↦ elim (Result-cases (service.validator.current_block s).0) [
                | inr (x, bad) ↦ absurd (ground (arith, good, of, bad, e))
                | inl (latest, at) ↦
                    elim (Bool-cases (
                      ltb allowed_block_difference
                        (abs (pos request.current_block -ℤ latest) % 2 ^ 64))) [
                          | inl late ↦ absurd (ground (arith, good, of, at, late, e))
                          | inr recent ↦
                              let same : a ≡ signer = ground (arith, good, of, at, recent, e) in
                              (
                                good ∙ ap ok same,
                                subst (λ b. is_of_channel b channel ≡ true) same of,
                                ground (arith, good, of, at, recent),
                              )
                        ]
              ]
            ]
          ]

    validate_keeps :
        (payment : Payment) (channel : PaymentChannelData) (s : S)
        → (validate service.validator payment channel s).0 ≡ ok tt
        → values (validate service.validator payment channel s).1 ≡ values s
    validate_keeps payment channel s e =
        let a = validate-IsAccepted service.validator payment channel s e in
        let state : (validate service.validator payment channel s).1
            ≡ (service.validator.current_block s).1 =
          unfold validate in
          ground (arith, a.nonce, a.signed, a.by_channel, a.at_block, a.not_expired, a.covered) in
        ap values state ∙ keeps.current_block s

  -- The payment that a request asks for.
  abbrev pub asked_payment : TokenRequest → Payment
  asked_payment request = record {
    mpe_contract_address = service.mpe_address;
    channel_id = pos request.channel_id;
    channel_nonce = pos request.current_nonce;
    amount = pos request.signed_amount;
    signature = request.claim_signature;
  }

  -- What has been checked of the request, and what has been written.
  pub record IsGranted (request : TokenRequest) (channel : PaymentChannelData)
      (before after : Usages) : Type 0 where
    pub not_less : channel.authorized_amount ≤ℤ pos request.signed_amount
    pub covered : pos request.signed_amount ≤ℤ channel.full_amount
    pub caller : Address
    pub signed :
        get_signer_address_from_message service.validator.crypto
          (request.claim_signature ++ u256_bytes (to_int64 request.current_block))
          request.signature
        ≡ ok caller
    pub by_channel :
        (channel.signer ≡ caller) ⊎ (caller ≡ channel.sender) ⊎ (caller ≡ channel.recipient)
    pub at : S
    pub accepted : IsAccepted service.validator (asked_payment request) channel at
    pub planned :
        ((channel.authorized_amount <ℤ pos request.signed_amount)
          × IsPlanned
              (pos request.channel_id)
              (pos request.signed_amount)
              (asked_payment request)
              channel
              before
              after)
        ⊎ ((pos request.signed_amount ≡ channel.authorized_amount) × (after ≡ before))

  module _ (keeps : OthersKeepUsages) where
    verify_with_channel-IsGranted :
        (request : TokenRequest) (channel : PaymentChannelData) (signer : Address) (s : S)
        → let run =
            verify_with_channel service
              (pos request.channel_id)
              (pos request.signed_amount)
              request
              channel
              s in
          run.0 ≡ ok signer → IsGranted request channel (values s) (values run.1)
    unfolding verify_with_channel
    verify_with_channel-IsGranted request channel signer s e =
        let id = pos request.channel_id in
        let latest = pos request.signed_amount in
        let payment = get_payment service id latest request in
        let checked = verify_signature service request channel s in
        let s1 = checked.1 in
        let valid = validate service.validator payment channel s1 in
        let take = take_new_amount service id latest payment channel valid.1 in
        elim (Bool-cases (ltb_ℤ latest channel.authorized_amount)) [
          | inl less ↦ absurd (ground (arith, less, e))
          | inr not_less ↦ elim (Bool-cases (ltb_ℤ channel.full_amount latest)) [
            | inl over ↦ absurd (ground (arith, not_less, over, e))
            | inr covered ↦ elim (Result-cases checked.0) [
              | inr (x, bad) ↦ absurd (ground (arith, not_less, covered, bad, e))
              | inl (a, good) ↦ elim (Result-cases valid.0) [
                | inr (x, bad) ↦ absurd (ground (arith, not_less, covered, good, bad, e))
                | inl (done, fine) ↦
                    let parts = signature_parts keeps request channel a s good in
                    let same : values valid.1 ≡ values s =
                      validate_keeps keeps payment channel s1 (ground (arith, fine))
                      ∙ ap values parts.2
                      ∙ keeps.current_block s in
                    record {
                      not_less = ground (arith, not_less);
                      covered = ground (arith, covered);
                      caller = a;
                      signed = parts.0;
                      by_channel = ground (arith, parts.1);
                      at = s1;
                      accepted =
                          validate-IsAccepted service.validator payment channel s1
                            (ground (arith, fine));
                      planned = elim (Bool-cases (ltb_ℤ channel.authorized_amount latest)) [
                        | inr equal ↦ inr (
                          eq_of_parts latest channel.authorized_amount
                              (ground (arith, not_less, equal)),
                          ap values (ground (arith, not_less, covered, good, fine, equal)) ∙ same,
                        )
                        | inl more ↦ elim (Result-cases take.0) [
                          | inr (x, bad) ↦
                              absurd (ground (arith, not_less, covered, good, fine, more, bad, e))
                          | inl (taken_done, took) ↦
                              let facts =
                                taken keeps id latest payment channel valid.1
                                  (ground (arith, took)) in
                              let state : (verify_with_channel service id latest request channel
                                    s).1
                                  ≡ take.1 =
                                ground (arith, not_less, covered, good, fine, more, took) in
                              inl (
                                ground (arith, more),
                                subst
                                    (λ v. IsPlanned id latest payment channel v (
                                      values
                                        (verify_with_channel service id latest request channel
                                          s).1))
                                    same
                                    (subst
                                      (λ s'.
                                        IsPlanned id latest payment channel (values valid.1)
                                          (values s'))
                                      (sym state) facts),
                              )
                        ]
                      ];
                    }
              ]
            ]
          ]
        ]

    reply_keeps :
        (channel_id : ℤ) (signer : Address) (request : TokenRequest) (reply : TokenReply) (s : S)
        → (reply_with_token service channel_id signer request s).0 ≡ ok reply
        → values (reply_with_token service channel_id signer request s).1 ≡ values s
    unfolding reply_with_token
    reply_keeps channel_id signer request reply s e =
        let used : PrePaidDataKey = record { channel_id = channel_id; usage_type = "U" } in
        let planned : PrePaidDataKey = record { channel_id = channel_id; usage_type = "P" } in
        let s1 = (get_usage service.prepaid_storage used s).1 in
        let s2 = (get_usage service.prepaid_storage planned s1).1 in
        let user = service.hex signer in
        elim (Result-cases (get_usage service.prepaid_storage used s).0) [
          | inr (x, bad) ↦ absurd (ground (arith, bad, e))
          | inl (u, found) ↦ elim (Found-cases (get_usage service.prepaid_storage planned s1).0) [
            | inr (inl missing) ↦ absurd (ground (arith, found, missing, e))
            | inr (inr (x, bad)) ↦ absurd (ground (arith, found, bad, e))
            | inl (usage, there) ↦
                elim (Result-cases (service.token_manager.create_token channel_id user s2).0) [
                  | inr (x, bad) ↦ absurd (ground (arith, found, there, bad, e))
                  | inl (token, made) ↦
                      ap values (ground (arith, found, there, made))
                      ∙ keeps.create_token channel_id user s2
                      ∙ keeps.get_usage planned s1
                      ∙ keeps.get_usage used s
                ]
          ]
        ]

    -- Where storage transactions are atomic and only UpdateUsage changes usages: GetToken replies
    -- only to a request that the signer, the sender or the recipient of its channel has signed, for
    -- an amount from the authorized one up to the channel's full amount, where the channel's
    -- validator accepts the payment with the contract's address and with the channel id, the nonce,
    -- this amount and the claim signature of the request. If the amount is the authorized one, no
    -- usage has changed; if it is above, the payment was committed, and exactly the difference to
    -- the authorized amount of the channel that was read before has been added to what is planned.
    pub get_token-IsGranted :
        (request : TokenRequest) (reply : TokenReply) (s : S)
        → (get_token service request s).0 ≡ ok reply
        → (channel : PaymentChannelData) × ((payment_channel service.channel_service
              (record { id = pos request.channel_id })
              s).0
            ≡ ok (some channel))
          × IsGranted request channel (values s) (values (get_token service request s).1)
    unfolding get_token verify_signature_and_signed_amount_eligibility
    get_token-IsGranted request reply s e =
        let id = pos request.channel_id in
        let latest = pos request.signed_amount in
        let key : PaymentChannelKey = record { id = id } in
        let s1 = (payment_channel service.channel_service key s).1 in
        elim (Found-cases (payment_channel service.channel_service key s).0) [
          | inr (inl missing) ↦ absurd (ground (arith, missing, e))
          | inr (inr (x, broken)) ↦ absurd (ground (arith, broken, e))
          | inl (channel, found) ↦
              let checked = verify_with_channel service id latest request channel s1 in
              elim (Result-cases checked.0) [
                | inr (x, bad) ↦ absurd (ground (arith, found, bad, e))
                | inl (signer, good) ↦
                    let granted = verify_with_channel-IsGranted request channel signer s1 good in
                    let run : get_token service request s
                        ≡ reply_with_token service id signer request checked.1 =
                      ground (arith, found, good) in
                    let kept =
                      ap (λ (p : Result TokenReply × S). values p.1) run
                      ∙ reply_keeps id signer request reply checked.1
                          (ap (λ (p : Result TokenReply × S). p.0) (sym run) ∙ e) in
                    (
                      channel,
                      found,
                      subst
                          (λ v.
                            IsGranted request channel v (values (get_token service request s).1))
                          (keeps.payment_channel key s)
                          (subst (λ v. IsGranted request channel (values s1) v) (sym kept) granted),
                    )
              ]
        ]
