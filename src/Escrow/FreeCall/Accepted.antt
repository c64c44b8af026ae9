-- ===== src/Escrow/FreeCall/Accepted.antt =====
-- What FreeCallPaymentValidator.Validate of escrow/validation.go has checked when it succeeds.
use snet_daemon.Prelude.{
  ◌%◌, ◌^◌, ◌≤◌, ◌≡◌, ◌↔◌, arith, ◌==◌, ◌++◌, true, subst, some, inl, inr, Bool-cases,
}
use snet_daemon.Prelude.Int.{ℤ, ◌-ℤ◌, ◌≤ℤ◌, abs}
use snet_daemon.Effects.{ok, Result-cases}
use snet_daemon.Crypto.{
  Address, get_signer_address_from_message, text_bytes, address_bytes, big_int_to_bytes,
  contains_address, check_curation_validations,
}
use snet_daemon.Escrow.FreeCall.{FreeCallPayment}
use snet_daemon.Escrow.Validation.{allowed_block_difference, compare_with_latest_block_number}
use snet_daemon.Escrow.FreeCall.Validator.{
  FreeCallPaymentValidator, validate_free_call, get_address_from_sig_for_free_call,
  free_call_message, get_signer_of_auth_token_for_free_call, build_free_call_token_struct,
  check_if_block_expired,
}

module _ {S : Type 0} (validator : FreeCallPaymentValidator S) where
  -- The caller has signed the call with this address, and the curation rules admit the caller.
  pub record IsCaller (payment : FreeCallPayment) (caller : Address) : Type 0 where
    pub signed :
        get_signer_address_from_message validator.crypto
          (text_bytes "__prefix_free_trial"
            ++ (text_bytes payment.address
                ++ (text_bytes payment.user_id
                    ++ (text_bytes validator.settings.organization_id
                        ++ (text_bytes validator.settings.service_id
                            ++ (text_bytes payment.group_id
                                ++ (big_int_to_bytes payment.current_block_number
                                    ++ payment.auth_token)))))))
          payment.signature
        ≡ ok caller
    pub admitted :
        validator.crypto.allowed_user_flag ≡ true
        → contains_address caller validator.crypto.user_address ≡ true

  pub signed-IsCaller :
      (payment : FreeCallPayment) (caller : Address)
      → get_address_from_sig_for_free_call validator payment ≡ ok caller
      → IsCaller payment caller
  unfolding get_address_from_sig_for_free_call free_call_message check_curation_validations
  signed-IsCaller payment caller e =
      let message = free_call_message validator payment in
      elim (Result-cases
        (get_signer_address_from_message validator.crypto message payment.signature)) [
          | inr (x, bad) ↦ absurd (ground (arith, bad, e))
          | inl (signer, good) ↦
              elim (Result-cases (check_curation_validations validator.crypto signer)) [
                | inr (x, bad) ↦ absurd (ground (arith, good, bad, e))
                | inl (_, fine) ↦
                    let same : signer ≡ caller = ground (arith, good, fine, e) in
                    subst (IsCaller payment) same
                      (record { signed = good; admitted = λ on. ground (arith, on, fine) })
              ]
        ]

  IsCaller-signed :
      (payment : FreeCallPayment) (caller : Address)
      → IsCaller payment caller
      → get_address_from_sig_for_free_call validator payment ≡ ok caller
  unfolding get_address_from_sig_for_free_call free_call_message check_curation_validations
  IsCaller-signed payment caller h = elim (Bool-cases validator.crypto.allowed_user_flag) [
    | inl on ↦ ground (arith, h.signed, on, h.admitted on)
    | inr off ↦ ground (arith, h.signed, off)
  ]

  -- Caller and daemon have signed, and both blocks are recent at the two reads of the chain.
  pub record IsAcceptedFreeCall (payment : FreeCallPayment) (s : S) : Type 0 where
    pub caller : Address
    pub called : IsCaller payment caller
    pub own_address : validator.hex_to_address payment.address ≡ caller
    pub issued :
        get_signer_address_from_message validator.crypto
          (text_bytes validator.settings.organization_id
            ++ (text_bytes validator.settings.daemon_group_name
                ++ (address_bytes caller
                    ++ (text_bytes payment.user_id
                        ++ big_int_to_bytes payment.auth_token_expiry_block_number))))
          payment.auth_token_parsed
        ≡ ok validator.free_call_signer_address
    pub block : ℤ
    pub at_block : (validator.current_block s).0 ≡ ok block
    pub not_expired : block ≤ℤ payment.auth_token_expiry_block_number
    pub latest : ℤ
    pub at_latest : (validator.current_block (validator.current_block s).1).0 ≡ ok latest
    pub recent : abs (payment.current_block_number -ℤ latest) % 2 ^ 64 ≤ allowed_block_difference

  token_signer_parts :
      (payment : FreeCallPayment) (signer : Address)
      → get_signer_of_auth_token_for_free_call validator payment ≡ ok signer
      → (caller : Address) × (get_address_from_sig_for_free_call validator payment ≡ ok caller)
        × (validator.hex_to_address payment.address ≡ caller)
        × (get_signer_address_from_message validator.crypto
              (build_free_call_token_struct validator.settings caller
                payment.auth_token_expiry_block_number
                (some payment.user_id))
              payment.auth_token_parsed
            ≡ ok signer)
  unfolding get_signer_of_auth_token_for_free_call
  token_signer_parts payment signer h =
      elim (Result-cases (get_address_from_sig_for_free_call validator payment)) [
        | inr (e, bad) ↦ absurd (ground (arith, bad))
        | inl (caller, good) ↦
            elim (Bool-cases (validator.hex_to_address payment.address == caller)) [
              | inr other ↦ absurd (ground (arith, good, other))
              | inl same ↦ (caller, good, ground (arith, same), ground (arith, good, same))
            ]
      ]

  validate_free_call-IsAcceptedFreeCall :
      (payment : FreeCallPayment) (s : S)
      → (validate_free_call validator payment s).0 ≡ ok tt
      → IsAcceptedFreeCall payment s
  unfolding validate_free_call check_if_block_expired compare_with_latest_block_number
      build_free_call_token_struct
  validate_free_call-IsAcceptedFreeCall payment s h =
      let s1 = (validator.current_block s).1 in
      elim (Result-cases (get_signer_of_auth_token_for_free_call validator payment)) [
        | inr (e, bad) ↦ absurd (ground (arith, bad))
        | inl (signer, good) ↦ elim (Result-cases (validator.current_block s).0) [
          | inr (e, bad) ↦ absurd (ground (arith, good, bad))
          | inl (b, at) ↦ elim (Result-cases (validator.current_block s1).0) [
            | inr (e, bad) ↦ absurd (ground (arith, good, at, bad))
            | inl (l, late) ↦
                let by_daemon : signer ≡ validator.free_call_signer_address =
                  ground (arith, good, at, late) in
                let parts = token_signer_parts payment signer good in
                record {
                  caller = parts.0;
                  called = signed-IsCaller payment parts.0 parts.1;
                  own_address = parts.2;
                  issued = ground (arith, parts.3, by_daemon);
                  block = b;
                  at_block = at;
                  not_expired = ground (arith, good, at, late);
                  latest = l;
                  at_latest = late;
                  recent = ground (arith, good, at, late);
                }
          ]
        ]
      ]

  IsAcceptedFreeCall-validate_free_call :
      (payment : FreeCallPayment) (s : S)
      → IsAcceptedFreeCall payment s
      → (validate_free_call validator payment s).0 ≡ ok tt
  unfolding validate_free_call check_if_block_expired compare_with_latest_block_number
      get_signer_of_auth_token_for_free_call build_free_call_token_struct
  IsAcceptedFreeCall-validate_free_call payment s a =
      let signed = IsCaller-signed payment a.caller a.called in
      ground
        (arith, signed, a.own_address, a.issued, a.at_block, a.not_expired, a.at_latest, a.recent)

  -- A free call is valid exactly when its message, of address, user, organization, service, group,
  -- block and token, is signed by the address that it names, which is among the allowed users if
  -- these are restricted, its token carries the daemon's signature of the organization, the daemon's
  -- group, that address, the user and the expiry block, the token has not expired, and the block that the caller names is within
  -- the allowed difference of the latest one, modulo 2^64.
  pub validate_free_call_iff :
      (payment : FreeCallPayment) (s : S)
      → ((validate_free_call validator payment s).0 ≡ ok tt) ↔ IsAcceptedFreeCall payment s
  validate_free_call_iff payment s = (
    validate_free_call-IsAcceptedFreeCall payment s,
    IsAcceptedFreeCall-validate_free_call payment s,
  )
