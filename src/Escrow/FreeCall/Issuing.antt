-- ===== src/Escrow/FreeCall/Issuing.antt =====
-- escrow/validation.go: NewFreeCallToken and ParseFreeCallToken undo each other, and the validator
-- accepts what NewFreeCallToken issues.
use snet_daemon.Prelude.{
  ℕ, ◌≤◌, ◌%◌, ◌^◌, ◌↔◌, subst, String, ◌≡◌, refl, ap, sym, ◌∙◌, arith, true, [], ◌∷◌, ◌++◌, Option,
  none, some, inl, inr, ltb, if◌then◌else◌,
}
use snet_daemon.Prelude.Int.{ℤ, pos, ◌+ℤ◌, ◌-ℤ◌, ◌≤ℤ◌, abs}
use snet_daemon.Prelude.Decimal.{render, lacks, render-lacks}
use snet_daemon.Effects.{ok, Result-cases}
use snet_daemon.Crypto.{Bytes, Address, text_bytes, get_signer_address_from_message}
use snet_daemon.Escrow.FreeCall.{FreeCallPayment}
use snet_daemon.Escrow.Validation.{allowed_block_difference}
use snet_daemon.Escrow.FreeCall.Accepted.{validate_free_call_iff, signed-IsCaller}
use snet_daemon.Escrow.FreeCall.Validator.{
  FreeCallPaymentValidator, underscore, split_last, parse_free_call_token, new_free_call_token,
  signed_token, block_expiration, get_signature, text_or_empty, validate_free_call,
  get_address_from_sig_for_free_call, build_free_call_token_struct,
}

split_last-none :
    (b : ℕ) (text : String) → lacks b text ≡ true → split_last b (text_bytes text) ≡ none
unfolding split_last
split_last-none b String.[] h = refl
split_last-none b (String.◌∷◌ c s) h =
    let rest : lacks b s ≡ true = ground (arith, h) in ground (arith, split_last-none b s rest, h)

split_last-append :
    (b : ℕ) (front back : Bytes)
    → split_last b back ≡ none
    → split_last b (front ++ b ∷ back) ≡ some (front, back)
unfolding split_last
split_last-append b [] back h = ground (arith, h)
split_last-append b (x ∷ front) back h = ground (arith, split_last-append b front back h)

-- SetString reads every number that String has printed.
abbrev pub ReadsDecimals : (Bytes → Option ℤ) → Type 0
ReadsDecimals set_string = (z : ℤ) → set_string (text_bytes (render z)) ≡ some z

pub parse_signed :
    (set_string : Bytes → Option ℤ)
    → ReadsDecimals set_string
    → (sig : Bytes) (block : ℤ)
    → parse_free_call_token set_string (sig ++ underscore ∷ text_bytes (render block))
      ≡ ok (sig, block)
unfolding parse_free_call_token
parse_signed set_string reads sig block =
    let cut =
      split_last-append underscore sig (text_bytes (render block))
        (split_last-none underscore (render block) (render-lacks underscore block (omega arith))) in
    ground (arith, cut, reads block)

ok_inj : {A : Type 0} {a b : A} → ok a ≡ ok b → a ≡ b
ok_inj e = cc

-- The blocks that a token is valid: those that were asked for, and 172800 if none or more were.
abbrev pub granted_blocks : Option ℕ → ℕ
granted_blocks none = 172800
granted_blocks (some lifetime) = if ltb lifetime 172800 then lifetime else 172800

granted-eq : (lifetime : Option ℕ) → block_expiration lifetime ≡ granted_blocks lifetime
granted-eq none = refl
granted-eq (some lifetime) = ground arith

module _ {S : Type 0} (validator : FreeCallPaymentValidator S) where
  issued_parts :
      (address : String) (user_id : Option String) (lifetime : Option ℕ) (s : S) (now : ℤ)
      {token : Bytes} {deadline : ℤ}
      → (validator.current_block s).0 ≡ ok now
      → (new_free_call_token validator address user_id lifetime s).0 ≡ some (token, deadline)
      → (deadline ≡ now +ℤ pos (block_expiration lifetime))
        × (token ≡ signed_token validator (validator.hex_to_address address) deadline user_id)
  unfolding new_free_call_token
  issued_parts address user_id lifetime s now at e = (ground (arith, at, e), ground (arith, at, e))

  -- Where SetString reads what String prints, the token that NewFreeCallToken makes is parsed into
  -- the signature of the address, the user and the deadline, and that deadline, whatever bytes the
  -- signature has.
  pub parse-new_free_call_token :
      ReadsDecimals validator.set_string
      → (address : String) (user_id : Option String) (lifetime : Option ℕ) (s : S) {token : Bytes}
        {deadline : ℤ}
      → (new_free_call_token validator address user_id lifetime s).0 ≡ some (token, deadline)
      → parse_free_call_token validator.set_string token
        ≡ ok (
          get_signature validator.crypto
              (build_free_call_token_struct validator.settings
                (validator.hex_to_address address)
                deadline
                user_id)
              validator.free_call_signer,
          deadline,
        )
  parse-new_free_call_token reads address user_id lifetime s {token} {deadline} e =
      elim (Result-cases (validator.current_block s).0) [
        | inr (x, bad) ↦ absurd (unfold new_free_call_token in ground (arith, bad))
        | inl (now, at) ↦
            let parts = issued_parts address user_id lifetime s now at e in
            ap (parse_free_call_token validator.set_string) parts.1
            ∙ unfold signed_token in parse_signed validator.set_string reads _ deadline
      ]

  -- The daemon's address is that of its key.
  abbrev pub SignsAsItself : Type 0
  SignsAsItself =
      (message : Bytes)
      → get_signer_address_from_message validator.crypto message
          (get_signature validator.crypto message validator.free_call_signer)
        ≡ ok validator.free_call_signer_address

  token_signed :
      SignsAsItself
      → (user : Address) (deadline : ℤ) (user_id : Option String) (payment : FreeCallPayment)
      → payment.auth_token_parsed
        ≡ get_signature validator.crypto
            (build_free_call_token_struct validator.settings user deadline user_id)
            validator.free_call_signer
      → payment.auth_token_expiry_block_number ≡ deadline
      → payment.user_id ≡ text_or_empty user_id
      → get_signer_address_from_message validator.crypto
          (build_free_call_token_struct validator.settings user
            payment.auth_token_expiry_block_number
            (some payment.user_id))
          payment.auth_token_parsed
        ≡ ok validator.free_call_signer_address
  token_signed signs user deadline user_id payment parsed expiry same_user =
      let message = build_free_call_token_struct validator.settings user deadline user_id in
      let rebuilt : build_free_call_token_struct validator.settings user
            payment.auth_token_expiry_block_number (some payment.user_id)
          ≡ message =
        unfold build_free_call_token_struct in cc in
      rw (rebuilt, parsed) (signs message)

  -- Take a token that NewFreeCallToken has made at the block `now`, and a free call with this token
  -- that the same address and user have signed, whose own block number is recent. Where SetString
  -- reads what String prints and the daemon's signatures name its address, the call is valid at a
  -- block exactly if this is at most `now` plus the lifetime, which is 172800 blocks unless the
  -- request asked for less.
  pub issued_token_valid_iff :
      ReadsDecimals validator.set_string
      → SignsAsItself
      → (address : String) (user_id : Option String) (lifetime : Option ℕ) (s s' : S)
        (payment : FreeCallPayment) (now block latest : ℤ) {token : Bytes} {deadline : ℤ}
      → (validator.current_block s).0 ≡ ok now
      → (new_free_call_token validator address user_id lifetime s).0 ≡ some (token, deadline)
      → parse_free_call_token validator.set_string token
        ≡ ok (payment.auth_token_parsed, payment.auth_token_expiry_block_number)
      → get_address_from_sig_for_free_call validator payment ≡ ok (validator.hex_to_address address)
      → validator.hex_to_address payment.address ≡ validator.hex_to_address address
      → payment.user_id ≡ text_or_empty user_id
      → (validator.current_block s').0 ≡ ok block
      → (validator.current_block (validator.current_block s').1).0 ≡ ok latest
      → abs (payment.current_block_number -ℤ latest) % 2 ^ 64 ≤ allowed_block_difference
      → ((validate_free_call validator payment s').0 ≡ ok tt)
        ↔ (block ≤ℤ now +ℤ pos (granted_blocks lifetime))
  issued_token_valid_iff reads signs address user_id lifetime s s' payment now block latest {token}
        {deadline} at issued parsed signed same_address same_user at_block at_latest recent =
      let made = issued_parts address user_id lifetime s now at issued in
      let granted = ap (λ n. now +ℤ pos n) (granted-eq lifetime) in
      let both =
        ok_inj (sym parsed ∙ parse-new_free_call_token reads address user_id lifetime s issued) in
      let expiry : payment.auth_token_expiry_block_number ≡ deadline = ap (λ p. p.1) both in
      let by_daemon =
        token_signed signs (validator.hex_to_address address) deadline user_id payment
          (ap (λ p. p.0) both) expiry same_user in
      (
        λ valid.
            let a = (validate_free_call_iff validator payment s').0 valid in
            let same_block : a.block ≡ block = ok_inj (sym a.at_block ∙ at_block) in
            subst (λ d. block ≤ℤ d) (expiry ∙ made.0 ∙ granted)
              (subst (λ b. b ≤ℤ payment.auth_token_expiry_block_number) same_block a.not_expired),
        λ within. (validate_free_call_iff validator payment s').1 (record {
          caller = validator.hex_to_address address;
          called = signed-IsCaller validator payment (validator.hex_to_address address) signed;
          own_address = same_address;
          issued = unfold build_free_call_token_struct in by_daemon;
          block = block;
          at_block = at_block;
          not_expired = subst (λ d. block ≤ℤ d) (sym (expiry ∙ made.0 ∙ granted)) within;
          latest = latest;
          at_latest = at_latest;
          recent = recent;
        }),
      )
