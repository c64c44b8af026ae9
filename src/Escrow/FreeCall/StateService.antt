-- ===== src/Escrow/FreeCall/StateService.antt =====
-- escrow/free_call_state_service.go: FreeCallStateService and its replacement without a blockchain.
use snet_daemon.Prelude.{ℕ, ◌^◌, ◌==◌, String, str_eq, not, if◌then◌else◌, ◌++◌, Option, none, some}
use snet_daemon.Prelude.Int.{ℤ, pos, negsuc, ◌-ℤ◌, ◌*ℤ◌, ltb_ℤ, eqb_ℤ, abs, to_int64, to_uint64}
use snet_daemon.Effects.{
  Result, ok, err, plain, Action, pure, lift, or_error, fail_if, ◌>>=◌, ◌>>◌, bind_result,
}
use snet_daemon.Crypto.{
  Bytes, Address, text_bytes, big_int_to_bytes, contains_address, get_signer_address_from_message,
  check_curation_validations,
}
use snet_daemon.Escrow.Validation.{compare_with_latest_block_number}
use snet_daemon.Escrow.FreeCall.{FreeCallPayment, FreeCallUserService, free_call_user_of, user_key}
use snet_daemon.Escrow.FreeCall.Validator.{
  FreeCallPaymentValidator, free_call_prefix_signature, text_or_empty, new_free_call_token,
  parse_free_call_token, validate_free_call,
}

-- Requests and replies of escrow/state_service.proto. FreeCallToken also has the token in
-- hexadecimal.
pub record GetFreeCallTokenRequest : Type 0 where
  pub address : String
  pub signature : Bytes
  pub current_block : ℕ
  pub user_id : Option String
  pub token_lifetime_in_blocks : Option ℕ

pub record FreeCallToken : Type 0 where
  pub token : Bytes
  pub token_expiration_block : ℕ

pub record FreeCallStateRequest : Type 0 where
  pub address : String
  pub user_id : Option String
  pub free_call_token : Bytes
  pub signature : Bytes
  pub current_block : ℕ

-- `group_id` is the metadata's GetGroupIdString() and `balance_of` the token contract's BalanceOf.
pub record FreeCallStateService (S : Type 0) : Type 0 where
  pub group_id : String
  pub free_call_service : FreeCallUserService S
  pub free_call_validator : FreeCallPaymentValidator S
  pub balance_of : Address → Action S ℤ
  pub min_balance_for_free_call : ℤ

-- uint64 of an int that is not negative.
abbrev pub calls_available : ℤ → ℕ
calls_available n = if ltb_ℤ n (pos 0) then 0 else abs n

-- The number that checkForFreeCalls makes of the two limits and the count.
unfoldable pub available_calls : ℤ → ℤ → ℤ → ℕ
available_calls allowed metadata_allowed made =
    if eqb_ℤ allowed (negsuc 0)
    then 99999999
    else if ltb_ℤ (pos 0) allowed
    then calls_available (allowed -ℤ made)
    else calls_available (metadata_allowed -ℤ made)

-- The message that a request for a token signs.
unfoldable pub new_token_message :
    {S : Type 0} → FreeCallStateService S → GetFreeCallTokenRequest → Bytes
new_token_message service request =
    free_call_prefix_signature
    ++ (text_bytes request.address
        ++ (text_bytes (text_or_empty request.user_id)
            ++ (text_bytes service.free_call_validator.settings.organization_id
                ++ (text_bytes service.free_call_validator.settings.service_id
                    ++ (text_bytes service.group_id
                        ++ big_int_to_bytes (to_int64 request.current_block))))))

module _ {S : Type 0} (service : FreeCallStateService S) where
  -- getAddressFromSignatureForNewFreeCallToken
  unfoldable pub get_address_from_signature_for_new_free_call_token :
      GetFreeCallTokenRequest → Result Address
  get_address_from_signature_for_new_free_call_token request =
      let crypto = service.free_call_validator.crypto in
      bind_result
        (get_signer_address_from_message crypto (new_token_message service request)
          request.signature)
        λ signer. bind_result (check_curation_validations crypto signer) (λ _. ok signer)

  -- CheckBalanceForFreeCall
  unfoldable pub check_balance_for_free_call : Address → Action S (Unit {0})
  check_balance_for_free_call address = do
    balance ←
        or_error (service.balance_of address)
          (plain "you must have at least %s FET (ASI) in your balance to use free calls")
    fail_if (ltb_ℤ balance (service.min_balance_for_free_call *ℤ pos (10 ^ 18)))
        (plain "you must have at least %s FET (ASI) in your balance to use free calls")

  -- What GetFreeCallToken asks of an address that is not trusted.
  unfoldable pub check_untrusted : GetFreeCallTokenRequest → Action S (Unit {0})
  check_untrusted request = do
    fail_if (not (str_eq (text_or_empty request.user_id) "")) (
        plain
          "your address is not trusted by this service provider, the use of user_id is not allowed")
    check_balance_for_free_call (service.free_call_validator.hex_to_address request.address)

  -- The token and the block of NewFreeCallToken. Go panics in block.Uint64() where they are nil.
  unfoldable pub issue_token : GetFreeCallTokenRequest → Action S FreeCallToken
  issue_token request s =
      let (made, s') =
        new_free_call_token service.free_call_validator request.address request.user_id
          request.token_lifetime_in_blocks s in
      elim made [
        | none ↦ (err (plain "invalid memory address or nil pointer dereference"), s')
        | some (token, block) ↦
            (ok (record { token = token; token_expiration_block = to_uint64 block }), s')
      ]

  unfoldable pub get_free_call_token : GetFreeCallTokenRequest → Action S FreeCallToken
  get_free_call_token request = do
    let validator = service.free_call_validator
    signer ← lift (get_address_from_signature_for_new_free_call_token request)
    fail_if (not (signer == validator.hex_to_address request.address))
        (plain "invalid signer, %v (from request) is not equal to %v (signer)")
    compare_with_latest_block_number validator.current_block (pos request.current_block)
    if contains_address signer validator.trusted_free_call_signer_addresses
        then pure tt
        else check_untrusted request
    issue_token request

  -- checkForFreeCalls
  unfoldable pub check_for_free_calls : FreeCallPayment → Action S ℕ
  check_for_free_calls payment = do
    let calls = service.free_call_service
    group_id ← lift calls.replica_group_id
    let key = user_key calls payment group_id
    data_of_user ← free_call_user_of calls key
    pure (
        available_calls (calls.allowed_for key.address) calls.metadata_allowed
          data_of_user.free_calls_made)

  unfoldable pub get_free_call_payment : FreeCallStateRequest → Result FreeCallPayment
  get_free_call_payment request =
      let validator = service.free_call_validator in
      bind_result (parse_free_call_token validator.set_string request.free_call_token) λ parsed.
        ok (record {
          group_id = service.group_id;
          organization_id = validator.settings.organization_id;
          service_id = validator.settings.service_id;
          address = request.address;
          user_id = text_or_empty request.user_id;
          signature = request.signature;
          current_block_number = to_int64 request.current_block;
          auth_token = request.free_call_token;
          auth_token_parsed = parsed.0;
          auth_token_expiry_block_number = parsed.1;
        })

  unfoldable pub get_free_calls_available : FreeCallStateRequest → Action S ℕ
  get_free_calls_available request = do
    payment ← lift (get_free_call_payment request)
    validate_free_call service.free_call_validator payment
    check_for_free_calls payment
