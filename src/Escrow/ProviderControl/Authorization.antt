-- ===== src/Escrow/ProviderControl/Authorization.antt =====
-- Who may call the methods of ProviderControlService in escrow/control_service.go.
use snet_daemon.Prelude.{
  ℕ, String, ◌%◌, ◌^◌, ◌≤◌, ◌≡◌, ◌⊎◌, inl, inr, arith, none, some, ==_iff, List, ◌++◌, subst,
}
use snet_daemon.Prelude.Int.{ℤ, ◌-ℤ◌, abs, to_int64}
use snet_daemon.Effects.{ok, Result-cases, Found-cases}
use snet_daemon.Crypto.{
  Bytes, get_signer_address_from_message, bytes_to_big_int, big_int_to_bytes, text_bytes,
  address_bytes, u256_bytes,
}
use snet_daemon.Escrow.Channel.{PaymentChannelData}
use snet_daemon.Escrow.Validation.{compare_with_latest_block_number}
use snet_daemon.Escrow.ChannelService.{payment_channel}
use snet_daemon.Escrow.ProviderControl.{
  ProviderControlService, StartClaimRequest, StartMultipleClaimRequest, PaymentReply, uint64s,
  get_bytes_of_channel_ids, check_mpe_address, verify_signer, multiple_claim_message,
  start_claim_message, verify_signer_for_start_claim, control_start_claim,
  start_claim_for_multiple_channels,
}
use snet_daemon.Escrow.ProviderControl.Ids.{
  IsAscending, HasSame, bytes_of_ids, uint64s-IsAscending, uint64s-HasSame, channel_id_bytes-eq,
}

module _ {S : Type 0} (service : ProviderControlService S) where
  -- The signature over the message is by the payment address of the organization.
  abbrev pub IsSigned : Bytes → Bytes → Type 0
  IsSigned message signature =
      get_signer_address_from_message service.crypto message signature ≡ ok service.payment_address

  verify_signer-IsSigned :
      (message signature : Bytes)
      → verify_signer service message signature ≡ ok tt
      → IsSigned message signature
  unfolding verify_signer
  verify_signer-IsSigned message signature e =
      elim (Result-cases (get_signer_address_from_message service.crypto message signature)) [
        | inl (signer, found) ↦ ground (arith, found, ==_iff service.payment_address signer)
        | inr (x, broken) ↦ absurd (ground (arith, broken))
      ]

  check_mpe_address-eq :
      (address : String)
      → check_mpe_address service address ≡ ok tt
      → service.hex_to_address address ≡ service.mpe_address
  unfolding check_mpe_address
  check_mpe_address-eq address e =
      ground (arith, ==_iff service.mpe_address (service.hex_to_address address))

  -- The block of the request is within 5 blocks of the latest one, modulo 2^64.
  abbrev pub IsRecent : ℕ → S → Type 0
  IsRecent block s =
      (latest : ℤ) × ((service.current_block s).0 ≡ ok latest)
      × (abs (to_int64 block -ℤ latest) % 2 ^ 64 ≤ 5)

  compare-IsRecent :
      (block : ℕ) (s : S)
      → (compare_with_latest_block_number service.current_block (to_int64 block) s).0 ≡ ok tt
      → IsRecent block s
  unfolding compare_with_latest_block_number
  compare-IsRecent block s e = elim (Result-cases (service.current_block s).0) [
    | inl (latest, found) ↦ (latest, found, ground (arith, found))
    | inr (x, broken) ↦ absurd (ground (arith, broken))
  ]

  -- StartClaimForMultipleChannels returns replies only for a request that names the contract's
  -- address and a recent block, and whose signature by the payment address is over
  -- "__StartClaimForMultipleChannels_", the contract's address, the channel ids of the request in
  -- ascending order, each as 32 bytes, and the block.
  pub start_multiple_authorized :
      (request : StartMultipleClaimRequest) (replies : List PaymentReply) (s : S)
      → (start_claim_for_multiple_channels service request s).0 ≡ ok replies
      → (service.hex_to_address request.mpe_address ≡ service.mpe_address)
        × IsRecent request.current_block s
        × ((ids : List ℕ) × IsAscending ids
            × HasSame ids request.channel_ids
            × IsSigned
                (text_bytes "__StartClaimForMultipleChannels_"
                  ++ (address_bytes service.metadata_mpe_address
                      ++ (bytes_of_ids ids ++ u256_bytes (to_int64 request.current_block))))
                request.signature)
  unfolding start_claim_for_multiple_channels multiple_claim_message get_bytes_of_channel_ids
  start_multiple_authorized request replies s e =
      let checked = check_mpe_address service request.mpe_address in
      let compared =
        compare_with_latest_block_number service.current_block (to_int64 request.current_block) s in
      let verified =
        verify_signer service (multiple_claim_message service request) request.signature in
      elim (Result-cases checked) [
        | inr (x, other) ↦ absurd (ground (arith, other))
        | inl (_, named) ↦ elim (Result-cases compared.0) [
          | inr (x, old) ↦ absurd (ground (arith, named, old))
          | inl (_, recent) ↦ elim (Result-cases verified) [
            | inr (x, forged) ↦ absurd (ground (arith, named, recent, forged))
            | inl (_, signed) ↦ (
              check_mpe_address-eq request.mpe_address named,
              compare-IsRecent request.current_block s recent,
              (
                uint64s request.channel_ids,
                uint64s-IsAscending request.channel_ids,
                uint64s-HasSame request.channel_ids,
                subst
                    (λ ids.
                      IsSigned
                        (text_bytes "__StartClaimForMultipleChannels_"
                          ++ (address_bytes service.metadata_mpe_address
                              ++ (ids ++ u256_bytes (to_int64 request.current_block))))
                        request.signature)
                    (channel_id_bytes-eq (uint64s request.channel_ids))
                    (verify_signer-IsSigned (multiple_claim_message service request)
                      request.signature signed),
              ),
            )
          ]
        ]
      ]

  signer_checked :
      (request : StartClaimRequest) (s : S)
      → let id = bytes_to_big_int request.channel_id in
        let found = (payment_channel service.channel_service (record { id = id }) s).0 in
        (verify_signer_for_start_claim service request s).0 ≡ ok tt
        → (found ≡ ok none)
          ⊎ ((latest : PaymentChannelData) × (found ≡ ok (some latest))
              × IsSigned
                  (text_bytes "__start_claim"
                    ++ (address_bytes service.metadata_mpe_address
                        ++ (big_int_to_bytes id ++ big_int_to_bytes latest.nonce)))
                  request.signature)
  unfolding verify_signer_for_start_claim start_claim_message
  signer_checked request s e =
      let id = bytes_to_big_int request.channel_id in
      elim (Found-cases (payment_channel service.channel_service (record { id = id }) s).0) [
        | inl (latest, found) ↦
            let message = start_claim_message service id latest in
            inr (
              latest,
              found,
              verify_signer-IsSigned message request.signature (ground (arith, found)),
            )
        | inr (inl missing) ↦ inl missing
        | inr (inr (x, broken)) ↦ absurd (ground (arith, broken))
      ]

  -- StartClaim returns a claim only for a request that names the contract's address and whose
  -- signature by the payment address is over "__start_claim", the contract's address, the channel
  -- id and the nonce of the channel's latest state, unless the channel was not found when the
  -- signature was to be checked.
  pub start_claim_authorized :
      (request : StartClaimRequest) (reply : PaymentReply) (s : S)
      → let id = bytes_to_big_int request.channel_id in
        (control_start_claim service request s).0 ≡ ok reply
        → (service.hex_to_address request.mpe_address ≡ service.mpe_address)
          × (((payment_channel service.channel_service (record { id = id }) s).0 ≡ ok none)
              ⊎ ((latest : PaymentChannelData) × ((payment_channel service.channel_service
                      (record { id = id })
                      s).0
                    ≡ ok (some latest))
                  × IsSigned
                      (text_bytes "__start_claim"
                        ++ (address_bytes service.metadata_mpe_address
                            ++ (big_int_to_bytes id ++ big_int_to_bytes latest.nonce)))
                      request.signature))
  unfolding control_start_claim
  start_claim_authorized request reply s e =
      elim (Result-cases (check_mpe_address service request.mpe_address)) [
        | inr (x, other) ↦ absurd (ground (arith, other))
        | inl (_, named) ↦ elim (Result-cases (verify_signer_for_start_claim service request s).0) [
          | inr (x, forged) ↦ absurd (ground (arith, named, forged))
          | inl (_, checked) ↦
              (check_mpe_address-eq request.mpe_address named, signer_checked request s checked)
        ]
      ]
