-- ===== src/Escrow/ProviderControl.antt =====
-- escrow/control_service.go: ProviderControlService, by which the service provider lists and starts
-- claims.
pub mod Authorization
pub mod Claiming
pub mod Ids
use snet_daemon.Prelude.{
  ℕ, ◌+◌, ◌-◌, ◌^◌, ◌%◌, String, Bool, true, false, not, Option, none, some, List, [], ◌∷◌, ◌++◌,
  ◌==◌, ltb, leb, length, ◌||◌, if◌then◌else◌,
}
use snet_daemon.Prelude.Int.{ℤ, pos, negsuc, ltb_ℤ, abs, to_int64}
use snet_daemon.Effects.{
  Result, ok, err, plain, Action, pure, fail, fail_if, lift, or_error, bind_result, ◌>>=◌, ◌>>◌,
}
use snet_daemon.Crypto.{
  u256_bytes, Bytes, Address, Crypto, text_bytes, address_bytes, big_int_to_bytes, bytes_to_big_int,
  be_bytes, get_signer_address_from_message,
}
use snet_daemon.Escrow.Channel.{
  Payment, PaymentChannelKey, PaymentChannelData, increment_channel_nonce,
}
use snet_daemon.Escrow.Validation.{compare_with_latest_block_number}
use snet_daemon.Escrow.ChannelService.{
  LockingPaymentChannelService, Claim, payment_channel, payment_channel_from_blockchain,
  list_channels, list_claims, start_claim, finish,
}

pub record GetPaymentsListRequest : Type 0 where
  pub mpe_address : String
  pub current_block : ℕ
  pub signature : Bytes

pub record StartClaimRequest : Type 0 where
  pub mpe_address : String
  pub channel_id : Bytes
  pub signature : Bytes

pub record StartMultipleClaimRequest : Type 0 where
  pub mpe_address : String
  pub channel_ids : List ℕ
  pub current_block : ℕ
  pub signature : Bytes

-- Fields that a reply leaves out are [].
pub record PaymentReply : Type 0 where
  pub channel_id : Bytes
  pub channel_nonce : Bytes
  pub signature : Bytes
  pub signed_amount : Bytes
  pub channel_expiry : Bytes

-- The metadata's addresses, the hash and the node are given; `hex_to_address` is go-ethereum's.
pub record ProviderControlService (S : Type 0) : Type 0 where
  pub channel_service : LockingPaymentChannelService S
  pub metadata_mpe_address : Address
  pub payment_address : Address
  pub current_block : Action S ℤ
  pub mpe_address : Address
  pub hex_to_address : String → Address
  pub crypto : Crypto

-- x.Int64() == 0: the low 64 bits are 0.
abbrev pub int64_is_zero : ℤ → Bool
int64_is_zero x = abs x % 2 ^ 64 == 0

abbrev pub insert_sorted : ℕ → List ℕ → List ℕ
insert_sorted x [] = x ∷ []
insert_sorted x (y ∷ ys) = let rest = insert_sorted x ys in if leb x y then x ∷ y ∷ ys else y ∷ rest

-- Uint64s, sort.Sort on numbers.
abbrev pub uint64s : List ℕ → List ℕ
uint64s [] = []
uint64s (x ∷ xs) = insert_sorted x (uint64s xs)

abbrev pub channel_id_bytes : List ℕ → Bytes
channel_id_bytes [] = []
channel_id_bytes (id ∷ ids) = big_int_to_bytes (to_int64 id) ++ channel_id_bytes ids

unfoldable pub get_bytes_of_channel_ids : StartMultipleClaimRequest → Bytes
get_bytes_of_channel_ids request = channel_id_bytes (uint64s request.channel_ids)

module _ {S : Type 0} (service : ProviderControlService S) where
  unfoldable pub check_mpe_address : String → Result (Unit {0})
  check_mpe_address mpe_address =
      if not (service.mpe_address == service.hex_to_address mpe_address)
      then err (plain "the mpeAddress: %s passed does not match to what has been registered")
      else ok tt

  -- utils.VerifyAddress
  abbrev pub verify_address : Address → Address → Result (Unit {0})
  verify_address address other_address =
      if not (other_address == address)
      then err (plain "the address: %s does not match to what has been expected / registered")
      else ok tt

  unfoldable pub verify_signer : Bytes → Bytes → Result (Unit {0})
  verify_signer message signature =
      bind_result (get_signer_address_from_message service.crypto message signature)
        λ signer. verify_address signer service.payment_address

  unfoldable pub get_message_bytes : String → GetPaymentsListRequest → Bytes
  get_message_bytes prefix_message request =
      text_bytes prefix_message
      ++ (address_bytes service.metadata_mpe_address ++ u256_bytes (to_int64 request.current_block))

  -- The message of verifySignerForStartClaimForMultipleChannels.
  unfoldable pub multiple_claim_message : StartMultipleClaimRequest → Bytes
  multiple_claim_message request =
      text_bytes "__StartClaimForMultipleChannels_"
      ++ (address_bytes service.metadata_mpe_address
          ++ (get_bytes_of_channel_ids request ++ u256_bytes (to_int64 request.current_block)))

  -- The message of verifySignerForStartClaim.
  unfoldable pub start_claim_message : ℤ → PaymentChannelData → Bytes
  start_claim_message channel_id latest_channel =
      text_bytes "__start_claim"
      ++ (address_bytes service.metadata_mpe_address
          ++ (big_int_to_bytes channel_id ++ big_int_to_bytes latest_channel.nonce))

  -- `if !ok || err != nil { return err }`: a channel that is not found returns nil.
  unfoldable pub verify_signer_for_start_claim : StartClaimRequest → Action S (Unit {0})
  verify_signer_for_start_claim request = do
    let channel_id = bytes_to_big_int request.channel_id
    found ← payment_channel service.channel_service (record { id = channel_id })
    elim found [
      | none ↦ pure tt
      | some latest ↦ lift (verify_signer (start_claim_message channel_id latest) request.signature)
    ]

  abbrev pub claim_reply : ℤ → Payment → PaymentReply
  claim_reply channel_id payment = record {
    channel_id = big_int_to_bytes channel_id;
    channel_nonce = big_int_to_bytes payment.channel_nonce;
    signature = payment.signature;
    signed_amount = big_int_to_bytes payment.amount;
    channel_expiry = [];
  }

  unfoldable pub begin_claim_on_channel : ℤ → Action S PaymentReply
  begin_claim_on_channel channel_id = do
    found ← payment_channel service.channel_service (record { id = channel_id })
    elim found [
      | none ↦ fail (plain "channel Id %v was not found on blockchain or storage")
      | some latest ↦
          if int64_is_zero latest.authorized_amount
          then fail
              (plain "authorized amount is zero , hence nothing to claim on the channel Id: %v")
          else (do
            claim ←
                start_claim service.channel_service (record { id = channel_id })
                  increment_channel_nonce
            pure (claim_reply channel_id claim.payment))
    ]

  -- The loop of removeClaimedPayments. A channel that is not found ends it with nil.
  unfoldable pub remove_claimed : List Claim → Action S (Unit {0})
  remove_claimed [] = pure tt
  remove_claimed (claim ∷ claims) = do
    let rest = remove_claimed claims
    found ←
        payment_channel_from_blockchain service.channel_service
          (record { id = claim.payment.channel_id })
    elim found [
      | none ↦ pure tt
      | some channel ↦
          if ltb_ℤ claim.payment.channel_nonce channel.nonce
          then (do finish service.channel_service claim; rest)
          else rest
    ]

  unfoldable pub remove_claimed_payments : Action S (Unit {0})
  remove_claimed_payments = do
    claims ← or_error (list_claims service.channel_service) (plain "error in retrieving claims")
    remove_claimed claims

  -- The loop of startClaims; the replies collected so far are lost on an error.
  unfoldable pub start_claims : List ℕ → Action S (List PaymentReply)
  start_claims [] = pure []
  start_claims (id ∷ ids) = do
    payment ← begin_claim_on_channel (to_int64 id)
    payments ← start_claims ids
    pure (payment ∷ payments)

  abbrev unclaimed : List PaymentChannelData → List PaymentReply
  unclaimed [] = []
  unclaimed (channel ∷ channels) =
      let rest = unclaimed channels in
      if int64_is_zero channel.authorized_amount
      then rest
      else record {
        channel_id = big_int_to_bytes channel.channel_id;
        channel_nonce = big_int_to_bytes channel.nonce;
        signature = [];
        signed_amount = big_int_to_bytes channel.authorized_amount;
        channel_expiry = big_int_to_bytes channel.expiration;
      }
        ∷ rest

  -- listChannels
  unfoldable pub list_unclaimed_channels : Action S (List PaymentReply)
  list_unclaimed_channels = do
    channels ← list_channels service.channel_service
    pure (unclaimed channels)

  abbrev progress_reply : Payment → PaymentChannelData → PaymentReply
  progress_reply payment latest = record {
    channel_id = big_int_to_bytes payment.channel_id;
    channel_nonce = big_int_to_bytes payment.channel_nonce;
    signature = payment.signature;
    signed_amount = big_int_to_bytes payment.amount;
    channel_expiry = big_int_to_bytes latest.expiration;
  }

  -- The entry of listClaims for a claim, by what PaymentChannel returned; a nil signature is [].
  abbrev pub progress_entry : Payment → Result (Option PaymentChannelData) → List PaymentReply
  progress_entry payment (err _) = []
  progress_entry payment (ok none) = []
  progress_entry payment (ok (some latest)) =
      if length payment.signature == 0 || int64_is_zero payment.amount
      then []
      else progress_reply payment latest ∷ []

  -- The loop of listClaims; a claim whose channel is not to be had is left out.
  unfoldable pub in_progress : List Claim → Action S (List PaymentReply)
  in_progress [] s = (ok [], s)
  in_progress (claim ∷ claims) s =
      let (found, s1) =
        payment_channel service.channel_service (record { id = claim.payment.channel_id }) s in
      let (rest, s2) = in_progress claims s1 in
      (bind_result rest (λ replies. ok (progress_entry claim.payment found ++ replies)), s2)

  -- listClaims
  unfoldable pub list_claims_in_progress : Action S (List PaymentReply)
  list_claims_in_progress = do claims ← list_claims service.channel_service; in_progress claims

  -- GetListUnclaimed
  unfoldable pub get_list_unclaimed : GetPaymentsListRequest → Action S (List PaymentReply)
  get_list_unclaimed request = do
    lift (check_mpe_address request.mpe_address)
    compare_with_latest_block_number service.current_block (to_int64 request.current_block)
    lift (verify_signer (get_message_bytes "__list_unclaimed" request) request.signature)
    list_unclaimed_channels

  unfoldable pub get_list_in_progress : GetPaymentsListRequest → Action S (List PaymentReply)
  get_list_in_progress request = do
    lift (check_mpe_address request.mpe_address)
    compare_with_latest_block_number service.current_block (to_int64 request.current_block)
    lift (verify_signer (get_message_bytes "__list_in_progress" request) request.signature)
    remove_claimed_payments
    list_claims_in_progress

  -- StartClaim
  unfoldable pub control_start_claim : StartClaimRequest → Action S PaymentReply
  control_start_claim request = do
    lift (check_mpe_address request.mpe_address)
    verify_signer_for_start_claim request
    remove_claimed_payments
    begin_claim_on_channel (bytes_to_big_int request.channel_id)

  -- StartClaimForMultipleChannels
  unfoldable pub start_claim_for_multiple_channels :
      StartMultipleClaimRequest → Action S (List PaymentReply)
  start_claim_for_multiple_channels request = do
    lift (check_mpe_address request.mpe_address)
    compare_with_latest_block_number service.current_block (to_int64 request.current_block)
    lift (verify_signer (multiple_claim_message request) request.signature)
    remove_claimed_payments
    start_claims request.channel_ids
