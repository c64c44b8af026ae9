-- ===== src/Escrow/StateService/Replies.antt =====
-- Who gets a reply of GetChannelState of escrow/state_service.go, and which.
use snet_daemon.Prelude.{
  [], ◌∷◌, ◌++◌, Option, sym, ◌∙◌, subst, refl, Bool, ◌%◌, ◌^◌, ◌≤◌, ◌≡◌, ◌≢◌, ◌⊎◌, arith, true,
  some, inl, inr, Bool-cases, ltb,
}
use snet_daemon.Prelude.Int.{ℤ, pos, ◌-ℤ◌, abs, to_int64, eqb_ℤ, eq_of_parts}
use snet_daemon.Effects.{Result, ok, Result-cases, Found-cases}
use snet_daemon.Crypto.{
  Bytes, big_int_to_bytes, text_bytes, address_bytes, u256_bytes, Address, bytes_to_big_int,
  get_signer_address_from_message,
}
use snet_daemon.Escrow.Channel.{Payment, PaymentChannelKey, PaymentChannelData, payment_id}
use snet_daemon.Escrow.Validation.{allowed_block_difference, compare_with_latest_block_number}
use snet_daemon.Escrow.ChannelService.{payment_channel, payment_channel_from_blockchain}
use snet_daemon.Escrow.StateService.{
  ChannelStateRequest, ChannelStateReply, PaymentChannelStateService, current_reply,
  old_nonce_reply, is_of_channel, channel_state_message,
  storage_nonce_matches_with_blockchain_nonce, reply_with_old_nonce, reply_for, get_channel_state,
}

-- The amount, left out where there is no signature.
abbrev pub amount_if_signed : Bytes → ℤ → Bytes
amount_if_signed [] amount = []
amount_if_signed (b ∷ bytes) amount = big_int_to_bytes amount

amount_if_signed-eq :
    (channel : PaymentChannelData)
    → (current_reply channel).current_signed_amount
      ≡ amount_if_signed channel.signature channel.authorized_amount
amount_if_signed-eq channel = go channel.signature
  where
    go :
        (signature : Bytes)
        → (current_reply (record channel { signature = signature })).current_signed_amount
          ≡ amount_if_signed signature channel.authorized_amount
    go [] = refl
    go (b ∷ bytes) = refl

is_current :
    (channel : PaymentChannelData)
    → current_reply channel ≡ record {
      current_nonce = big_int_to_bytes channel.nonce;
      current_signed_amount = amount_if_signed channel.signature channel.authorized_amount;
      current_signature = channel.signature;
      old_nonce_signed_amount = [];
      old_nonce_signature = [];
    }
is_current channel =
    λ i. record (current_reply channel) { current_signed_amount = amount_if_signed-eq channel i }

module _ {S : Type 0} (service : PaymentChannelStateService S) where
  -- What the node says of the channel.
  abbrev pub read_chain : PaymentChannelData → S → Result (Option PaymentChannelData) × S
  read_chain channel =
      payment_channel_from_blockchain service.channel_service (record { id = channel.channel_id })

  -- What the two nonces make of the reply, where the node is asked in the state `s`, and the old
  -- payment is read after that.
  pub data HasReply (channel : PaymentChannelData) (reply : ChannelStateReply) (s : S)
      : Type 0 where
    same_nonce :
        (blockchain : PaymentChannelData)
        → (read_chain channel s).0 ≡ ok (some blockchain)
        → channel.nonce ≡ blockchain.nonce
        → reply ≡ record {
          current_nonce = big_int_to_bytes channel.nonce;
          current_signed_amount = amount_if_signed channel.signature channel.authorized_amount;
          current_signature = channel.signature;
          old_nonce_signed_amount = [];
          old_nonce_signature = [];
        }
        → HasReply channel reply s
    old_nonce :
        (blockchain : PaymentChannelData) (old : Payment)
        → (read_chain channel s).0 ≡ ok (some blockchain)
        → channel.nonce ≢ blockchain.nonce
        → (service.channel_service.payment_storage.get
            (payment_id channel.channel_id (channel.nonce -ℤ pos 1))
            (read_chain channel s).1).0
          ≡ ok (some old)
        → reply ≡ record {
          current_nonce = big_int_to_bytes channel.nonce;
          current_signed_amount = big_int_to_bytes channel.authorized_amount;
          current_signature = channel.signature;
          old_nonce_signed_amount = big_int_to_bytes old.amount;
          old_nonce_signature = old.signature;
        }
        → HasReply channel reply s

  old_reply :
      (channel : PaymentChannelData) (s : S) (reply : ChannelStateReply)
      → (reply_with_old_nonce service channel s).0 ≡ ok reply
      → (old : Payment) × ((service.channel_service.payment_storage.get
            (payment_id channel.channel_id (channel.nonce -ℤ pos 1))
            s).0
          ≡ ok (some old))
        × (reply ≡ old_nonce_reply channel old)
  unfolding reply_with_old_nonce
  old_reply channel s reply e =
      let id = payment_id channel.channel_id (channel.nonce -ℤ pos 1) in
      elim (Found-cases (service.channel_service.payment_storage.get id s).0) [
        | inl (old, found) ↦ (old, found, ground (arith, found, e))
        | inr (inl missing) ↦ absurd (ground (arith, missing, e))
        | inr (inr (x, broken)) ↦ absurd (ground (arith, broken, e))
      ]

  nonces :
      (channel : PaymentChannelData) (s : S) (equal : Bool)
      → (storage_nonce_matches_with_blockchain_nonce service channel s).0 ≡ ok equal
      → (blockchain : PaymentChannelData) × ((payment_channel_from_blockchain
            service.channel_service
            (record { id = channel.channel_id })
            s).0
          ≡ ok (some blockchain))
        × (equal ≡ eqb_ℤ channel.nonce blockchain.nonce)
        × ((storage_nonce_matches_with_blockchain_nonce service channel s).1
            ≡ (read_chain channel s).1)
  unfolding storage_nonce_matches_with_blockchain_nonce
  nonces channel s equal e =
      let read =
        (payment_channel_from_blockchain service.channel_service
          (record { id = channel.channel_id }) s).0 in
      elim (Found-cases read) [
        | inl (blockchain, found) ↦
            (blockchain, found, ground (arith, found, e), ground (arith, found))
        | inr (inl missing) ↦ absurd (ground (arith, missing, e))
        | inr (inr (x, broken)) ↦ absurd (ground (arith, broken, e))
      ]

  reply_parts :
      (request : ChannelStateRequest) (sender : Address) (channel : PaymentChannelData) (s : S)
      (reply : ChannelStateReply)
      → (reply_for service request sender channel s).0 ≡ ok reply
      → (is_of_channel sender channel ≡ true)
        × ((latest : ℤ) × ((service.current_block s).0 ≡ ok latest)
            × (abs (to_int64 request.current_block -ℤ latest) % 2 ^ 64 ≤ allowed_block_difference))
        × HasReply channel reply (service.current_block s).1
  unfolding reply_for compare_with_latest_block_number
  reply_parts request sender channel s reply e =
      let s1 = (service.current_block s).1 in
      let check = storage_nonce_matches_with_blockchain_nonce service channel s1 in
      elim (Bool-cases (is_of_channel sender channel)) [
        | inr other ↦ absurd (ground (arith, other, e))
        | inl of ↦ elim (Result-cases (service.current_block s).0) [
          | inr (x, broken) ↦ absurd (ground (arith, of, broken, e))
          | inl (latest, at) ↦
              elim (Bool-cases (
                ltb allowed_block_difference
                  (abs (to_int64 request.current_block -ℤ latest) % 2 ^ 64))) [
                    | inl late ↦ absurd (ground (arith, of, at, late, e))
                    | inr recent ↦ elim (Result-cases check.0) [
                      | inr (x, broken) ↦ absurd (ground (arith, of, at, recent, broken, e))
                      | inl (equal, checked) ↦
                          let (blockchain, read, is, after) = nonces channel s1 equal checked in
                          elim (Bool-cases equal) [
                            | inl same ↦ (
                              of,
                              (latest, at, ground (arith, recent)),
                              same_nonce blockchain read
                                  (eq_of_parts channel.nonce blockchain.nonce
                                    (ground (arith, is, same)))
                                  (sym (ground (arith, of, at, recent, checked, same, e))
                                    ∙ is_current channel),
                            )
                            | inr differs ↦
                                let (old, stored, made) =
                                  old_reply channel check.1 reply
                                    (ground (arith, of, at, recent, checked, differs, e)) in
                                (
                                  of,
                                  (latest, at, ground (arith, recent)),
                                  old_nonce blockchain old read
                                      (λ same. ground (arith, is, differs, same))
                                      (subst
                                        (λ x.
                                          (service.channel_service.payment_storage.get
                                            (payment_id channel.channel_id (channel.nonce -ℤ pos 1))
                                            x).0
                                          ≡ ok (some old))
                                        after stored)
                                      made,
                                )
                          ]
                    ]
                  ]
        ]
      ]

  -- Everything that a reply to GetChannelState shows.
  pub record IsAnswered (request : ChannelStateRequest) (reply : ChannelStateReply) (s : S)
      : Type 0 where
    pub sender : Address
    pub signed :
        get_signer_address_from_message service.crypto
          (text_bytes "__get_channel_state"
            ++ (address_bytes service.mpe_address
                ++ (big_int_to_bytes (bytes_to_big_int request.channel_id)
                    ++ u256_bytes (to_int64 request.current_block))))
          request.signature
        ≡ ok sender
    pub channel : PaymentChannelData
    pub found :
        (payment_channel service.channel_service
          (record { id = bytes_to_big_int request.channel_id })
          s).0
        ≡ ok (some channel)
    pub after_channel : S
    pub then_at :
        after_channel
        ≡ (payment_channel service.channel_service
            (record { id = bytes_to_big_int request.channel_id })
            s).1
    pub by_channel :
        (channel.signer ≡ sender) ⊎ (sender ≡ channel.sender) ⊎ (sender ≡ channel.recipient)
    pub recent :
        (latest : ℤ) × ((service.current_block after_channel).0 ≡ ok latest)
        × (abs (to_int64 request.current_block -ℤ latest) % 2 ^ 64 ≤ allowed_block_difference)
    pub replied : HasReply channel reply (service.current_block after_channel).1

  -- GetChannelState replies only where the contract's address with the channel id and the block of
  -- the request, under "__get_channel_state", is signed by the signer, the sender or
  -- the recipient of the channel that is found under the id of the request, with a block number
  -- within the allowed difference of the latest one, modulo 2^64. If the channel's nonce is the one
  -- that the node then reports, the reply has the nonce, the authorized amount and the signature of
  -- the channel, without the amount if there is no signature. If it is another, the reply has these
  -- three and the amount and the signature of the payment that is stored for the nonce before.
  pub get_channel_state-IsAnswered :
      (request : ChannelStateRequest) (reply : ChannelStateReply) (s : S)
      → (get_channel_state service request s).0 ≡ ok reply
      → IsAnswered request reply s
  unfolding get_channel_state channel_state_message
  get_channel_state-IsAnswered request reply s e =
      let message = channel_state_message service request in
      let key : PaymentChannelKey = record { id = bytes_to_big_int request.channel_id } in
      let s1 = (payment_channel service.channel_service key s).1 in
      elim (Result-cases
        (get_signer_address_from_message service.crypto message request.signature)) [
          | inr (x, bad) ↦ absurd (ground (arith, bad, e))
          | inl (sender, good) ↦
              elim (Found-cases (payment_channel service.channel_service key s).0) [
                | inr (inl missing) ↦ absurd (ground (arith, good, missing, e))
                | inr (inr (x, broken)) ↦ absurd (ground (arith, good, broken, e))
                | inl (channel, found) ↦
                    let (of, seen, replied) =
                      reply_parts request sender channel s1 reply
                        (ground (arith, good, found, e)) in
                    record {
                      sender = sender;
                      signed = good;
                      channel = channel;
                      found = found;
                      after_channel = s1;
                      then_at = refl;
                      by_channel = ground (arith, of);
                      recent = seen;
                      replied = replied;
                    }
              ]
        ]
