-- ===== src/Escrow/FreeCall/Validator.antt =====
-- escrow/validation.go: FreeCallPaymentValidator and the tokens of free calls, with utils.GetSignature
-- of utils/auth_utils.go.
use snet_daemon.Prelude.{
  ℕ, String, not, ◌==◌, leb, ◌||◌, if◌then◌else◌, List, [], ◌∷◌, ◌++◌, Option, none, some,
}
use snet_daemon.Prelude.Int.{ℤ, pos, ◌+ℤ◌, ltb_ℤ}
use snet_daemon.Prelude.Decimal.{render}
use snet_daemon.Effects.{
  Result, ok, err, payment_error, plain, unauthenticated, Action, lift, fail_if, or_error, ◌>>=◌,
  ◌>>◌, bind_result,
}
use snet_daemon.Crypto.{
  Bytes, Address, Crypto, text_bytes, address_bytes, big_int_to_bytes, contains_address,
  get_signer_address_from_message, check_curation_validations, signed_hash,
}
use snet_daemon.Escrow.FreeCall.{FreeCallPayment}
use snet_daemon.Escrow.Validation.{compare_with_latest_block_number}

-- The settings of the daemon that the messages of free calls contain.
pub record FreeCallSettings : Type 0 where
  pub organization_id : String
  pub service_id : String
  pub daemon_group_name : String

-- `hex_to_address` is common.HexToAddress and `set_string` is big.Int's SetString with base 10.
-- The private key is given by crypto.Sign with it; where that fails the daemon exits.
pub record FreeCallPaymentValidator (S : Type 0) : Type 0 where
  pub current_block : Action S ℤ
  pub free_call_signer_address : Address
  pub trusted_free_call_signer_addresses : List Address
  pub free_call_signer : Option (Bytes → Bytes)
  pub crypto : Crypto
  pub settings : FreeCallSettings
  pub hex_to_address : String → Address
  pub set_string : Bytes → Option ℤ

abbrev pub free_call_token_lifetime : ℕ
free_call_token_lifetime = 172800

abbrev pub underscore : ℕ
underscore = 95

abbrev pub free_call_prefix_signature : Bytes
free_call_prefix_signature = text_bytes "__prefix_free_trial"

-- utils.GetSignature; without a key it is nil.
unfoldable pub get_signature : Crypto → Bytes → Option (Bytes → Bytes) → Bytes
unfolding signed_hash
get_signature crypto message none = []
get_signature crypto message (some sign) = sign (signed_hash crypto message)

-- A pointer to a string, or a new empty string for nil.
abbrev pub text_or_empty : Option String → String
text_or_empty none = ""
text_or_empty (some text) = text

-- BuildFreeCallTokenStruct
unfoldable pub build_free_call_token_struct : FreeCallSettings → Address → ℤ → Option String → Bytes
build_free_call_token_struct settings addr expiration_block user_id =
    text_bytes settings.organization_id
    ++ (text_bytes settings.daemon_group_name
        ++ (address_bytes addr
            ++ (text_bytes (text_or_empty user_id) ++ big_int_to_bytes expiration_block)))

-- What stands before and behind the last `b`: token[:i] and token[i+1:] of bytes.LastIndexByte.
unfoldable pub split_last : ℕ → Bytes → Option (Bytes × Bytes)
split_last b [] = none
split_last b (x ∷ bytes) = elim (split_last b bytes) [
  | some (front, back) ↦ some (x ∷ front, back)
  | none ↦ if x == b then some ([], bytes) else none
]

-- ParseFreeCallToken
unfoldable pub parse_free_call_token : (Bytes → Option ℤ) → Bytes → Result (Bytes × ℤ)
parse_free_call_token set_string token = elim (split_last underscore token) [
  | none ↦ err (plain "no '_' found")
  | some (sig, digits) ↦ elim (set_string digits) [
    | none ↦ err (plain "invalid block number")
    | some block ↦ ok (sig, block)
  ]
]

-- The blocks that a token lives.
abbrev pub block_expiration : Option ℕ → ℕ
block_expiration none = free_call_token_lifetime
block_expiration (some lifetime) =
    if leb lifetime free_call_token_lifetime then lifetime else free_call_token_lifetime

module _ {S : Type 0} (validator : FreeCallPaymentValidator S) where
  -- The signature, an underscore and the block.
  unfoldable pub signed_token : Address → ℤ → Option String → Bytes
  signed_token user_addr deadline user_id =
      get_signature validator.crypto
        (build_free_call_token_struct validator.settings user_addr deadline user_id)
        validator.free_call_signer
      ++ (underscore ∷ text_bytes (render deadline))

  -- NewFreeCallToken; `none` for the two nils.
  unfoldable pub new_free_call_token :
      String → Option String → Option ℕ → S → Option (Bytes × ℤ) × S
  new_free_call_token user_address user_id token_lifetime_blocks s =
      let (latest, s1) = validator.current_block s in
      elim latest [
        | err _ ↦ (none, s1)
        | ok block ↦
            let deadline = block +ℤ pos (block_expiration token_lifetime_blocks) in
            (
              some
                  (signed_token (validator.hex_to_address user_address) deadline user_id, deadline),
              s1,
            )
      ]

  -- CompareSignerAddrs
  unfoldable pub compare_signer_addrs : Address → Result (Unit {0})
  compare_signer_addrs addr =
      if contains_address addr validator.trusted_free_call_signer_addresses
        || (addr == validator.free_call_signer_address)
      then ok tt
      else err (payment_error unauthenticated "payment signer %v is not valid")

  unfoldable pub free_call_message : FreeCallPayment → Bytes
  free_call_message payment =
      free_call_prefix_signature
      ++ (text_bytes payment.address
          ++ (text_bytes payment.user_id
              ++ (text_bytes validator.settings.organization_id
                  ++ (text_bytes validator.settings.service_id
                      ++ (text_bytes payment.group_id
                          ++ (big_int_to_bytes payment.current_block_number
                              ++ payment.auth_token))))))

  -- getAddressFromSigForFreeCall
  unfoldable pub get_address_from_sig_for_free_call : FreeCallPayment → Result Address
  get_address_from_sig_for_free_call payment =
      bind_result
        (get_signer_address_from_message validator.crypto (free_call_message payment)
          payment.signature)
        λ signer. bind_result (check_curation_validations validator.crypto signer) (λ _. ok signer)

  -- getSignerOfAuthTokenForFreeCall
  unfoldable pub get_signer_of_auth_token_for_free_call : FreeCallPayment → Result Address
  get_signer_of_auth_token_for_free_call payment =
      bind_result (get_address_from_sig_for_free_call payment) λ signer.
        if not (validator.hex_to_address payment.address == signer)
        then err (plain "unauthorized signer: %v not equal %v, maybe invalid signature struct")
        else get_signer_address_from_message validator.crypto
            (build_free_call_token_struct validator.settings signer
              payment.auth_token_expiry_block_number (some payment.user_id))
            payment.auth_token_parsed

  -- CheckIfBlockExpired
  unfoldable pub check_if_block_expired : ℤ → Action S (Unit {0})
  check_if_block_expired expired_block = do
    current ← validator.current_block
    fail_if (ltb_ℤ expired_block current)
        (plain "authentication failed as the Free Call Token passed has expired")

  -- FreeCallPaymentValidator.Validate
  unfoldable pub validate_free_call : FreeCallPayment → Action S (Unit {0})
  validate_free_call payment = do
    token_signer ←
        or_error (lift (get_signer_of_auth_token_for_free_call payment))
          (payment_error unauthenticated "sign is not valid: %v")
    fail_if (not (token_signer == validator.free_call_signer_address))
        (payment_error unauthenticated "token sign is not valid")
    check_if_block_expired payment.auth_token_expiry_block_number
    compare_with_latest_block_number validator.current_block payment.current_block_number
