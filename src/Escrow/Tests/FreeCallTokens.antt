-- ===== src/Escrow/Tests/FreeCallTokens.antt =====
-- A free call token of address 11: it is issued at block 100 for 50 blocks, and used at block 140.
use snet_daemon.Prelude.{ℕ, ◌<◌, arith, ◌≡◌, ◌↔◌, refl, [], ◌∷◌, ◌++◌, none, some}
use snet_daemon.Prelude.Int.{pos, ◌+ℤ◌, ◌-ℤ◌, ◌≤ℤ◌}
use snet_daemon.Prelude.Decimal.{render, decimal}
use snet_daemon.Effects.{ok}
use snet_daemon.Crypto.{
  Bytes, text_bytes, get_signer_address_from_message, parse_signature, check_curation_validations,
}
use snet_daemon.Escrow.Lock.{Lock}
use snet_daemon.Escrow.FreeCall.{
  FreeCallPayment, FreeCallTransaction, check_limit, free_call_user_of, user_key,
}
use snet_daemon.Escrow.FreeCall.Validator.{
  FreeCallPaymentValidator, FreeCallSettings, new_free_call_token, parse_free_call_token,
  signed_token, get_signature, build_free_call_token_struct, get_address_from_sig_for_free_call,
  validate_free_call, underscore, split_last,
}
use snet_daemon.Escrow.FreeCall.Accepted.{IsAcceptedFreeCall, validate_free_call_iff}
use snet_daemon.Escrow.FreeCall.Issuing.{
  SignsAsItself, parse-new_free_call_token, issued_token_valid_iff,
}
use snet_daemon.Escrow.FreeCall.StateService.{FreeCallStateService, check_for_free_calls}
use snet_daemon.Escrow.FreeCall.Availability.{available_calls_exact}
use snet_daemon.Escrow.Ideal.{ideal_crypto}
use snet_daemon.Escrow.Tests.Channels.{signature}
use snet_daemon.Escrow.Tests.Digits.{set_string, set_string-render}
use snet_daemon.Escrow.FreeCall.Counting.{Users}
use snet_daemon.Escrow.Tests.FreeCalls.{service, one_made, user, payment}

abbrev settings : FreeCallSettings
settings = record { organization_id = "o"; service_id = "s"; daemon_group_name = "g" }

-- The state is the number of the current block, and address 13 signs for the daemon.
abbrev validator : FreeCallPaymentValidator ℕ
validator = record {
  current_block = λ block. (ok (pos block), block);
  free_call_signer_address = 13;
  trusted_free_call_signer_addresses = [];
  free_call_signer = some (λ hash. signature);
  crypto = ideal_crypto;
  settings = settings;
  hex_to_address = λ text. 13;
  set_string = set_string;
}

abbrev token : Bytes
token = signature ++ underscore ∷ text_bytes "150"

abbrev call : FreeCallPayment
call = record {
  address = "0x0D";
  user_id = "";
  service_id = "s";
  organization_id = "o";
  current_block_number = pos 138;
  signature = signature;
  group_id = "Zw==";
  auth_token = token;
  auth_token_parsed = signature;
  auth_token_expiry_block_number = pos 150;
}

signs : SignsAsItself validator
unfolding get_signer_address_from_message parse_signature get_signature
signs message = refl

issued : (new_free_call_token validator "0x0D" none (some 50) 100).0 ≡ some (token, pos 150)
unfolding new_free_call_token signed_token get_signature render ◌+ℤ◌ decimal
issued = refl

parse-new_free_call_token_example :
    parse_free_call_token set_string token
    ≡ ok (
      get_signature ideal_crypto
          (build_free_call_token_struct settings 13 (pos 150) none)
          (some (λ hash. signature)),
      pos 150,
    )
parse-new_free_call_token_example =
    parse-new_free_call_token validator set_string-render "0x0D" none (some 50) 100 issued

issued_token_valid_iff_example :
    ((validate_free_call validator call 140).0 ≡ ok tt) ↔ (pos 140 ≤ℤ pos 100 +ℤ pos 50)
unfolding parse_free_call_token get_address_from_sig_for_free_call get_signer_address_from_message
    parse_signature check_curation_validations split_last set_string ◌-ℤ◌
issued_token_valid_iff_example =
    issued_token_valid_iff validator set_string-render signs "0x0D" none (some 50) 100 140 call
      (pos 100) (pos 140) (pos 140) refl issued refl refl refl refl refl refl (omega arith)

validate_free_call_iff_example :
    ((validate_free_call validator call 140).0 ≡ ok tt) ↔ IsAcceptedFreeCall validator call 140
validate_free_call_iff_example = validate_free_call_iff validator call 140

-- One of three calls has been made.
abbrev state_service : FreeCallStateService Users
state_service = record {
  group_id = "Zw==";
  free_call_service = service;
  free_call_validator = record {
    current_block = λ s. (ok (pos 140), s);
    free_call_signer_address = 13;
    trusted_free_call_signer_addresses = [];
    free_call_signer = none;
    crypto = ideal_crypto;
    settings = settings;
    hex_to_address = λ text. 13;
    set_string = set_string;
  };
  balance_of = λ address s. (ok (pos 0), s);
  min_balance_for_free_call = pos 0;
}

available_calls_exact_example :
    (n : ℕ) × ((check_for_free_calls state_service payment one_made).0 ≡ ok n)
    × ((k : ℕ) (lock : Lock Users) (s' : Users)
        → let later = record user { free_calls_made = pos 1 +ℤ pos k } in
          (k < n) ↔ (
            (tx : FreeCallTransaction Users) × ((check_limit service payment
                (user_key service payment "Zw==")
                later
                lock
                s').0
              ≡ ok tx)))
unfolding free_call_user_of
available_calls_exact_example =
    available_calls_exact state_service payment "Zw==" user one_made refl refl (omega arith)
      (omega arith)
