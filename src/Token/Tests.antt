-- ===== src/Token/Tests.antt =====
-- A token for channel 7 that is checked a minute later.
use snet_daemon.Prelude.{
  ℕ, String, ◌≡◌, ◌≢◌, refl, arith, str_eq, eq_iff, true, false, Bool, ◌&&◌, ◌==◌, ap, inl, inr,
  Bool-cases, Option, none, some, if◌then◌else◌,
}
use snet_daemon.Prelude.Int.{pos}
use snet_daemon.Prelude.Decimal.{render, decimal}
use snet_daemon.Effects.{ok, err, plain}
use snet_daemon.Token.{Claims, JwtTokenService, create_token, verify_token}
use snet_daemon.Token.Binding.{ReadsSigned, verify-create_token}

abbrev claims : Claims
claims = record {
  payload = "7";
  user_address = some "0x0B";
  org_id = "o";
  group_id = "g";
  exp = 3600;
}

abbrev same_user : Option String → Bool
same_user none = false
same_user (some user) = str_eq user "0x0B"

abbrev are_claims : Claims → Bool
are_claims c =
    str_eq c.payload "7"
    && (same_user c.user_address
        && (str_eq c.org_id "o" && (str_eq c.group_id "g" && (c.exp == 3600))))

user-is : (user : Option String) → same_user user ≡ true → user ≡ some "0x0B"
user-is none h = absurd (ground (arith, h))
user-is (some user) h = ap some ((eq_iff user "0x0B").0 h)

claims-are : (c : Claims) → are_claims c ≡ true → claims ≡ c
claims-are c h = ground (
  arith,
  h,
  eq_iff c.payload "7",
  user-is c.user_address,
  eq_iff c.org_id "o",
  eq_iff c.group_id "g",
)

-- A library that signs these claims only.
abbrev service : JwtTokenService ℕ
service = record {
  organization_id = "o";
  group_id = "g";
  token_expiry_in_minutes = 60;
  signed_string = λ c. if are_claims c then ok "t" else err (plain "other claims");
  parse = λ token now. (ok claims, now);
  now = λ s. s;
}

reads : ReadsSigned service
reads c token s signed early = elim (Bool-cases (are_claims c)) [
  | inl same ↦ ap ok (claims-are c same)
  | inr other ↦ absurd (ground (arith, other, signed))
]

-- It was made at time 0, and channel 8 is another one.
verify-create_token_example :
    ((verify_token service "t" (pos 7) 60).0 ≡ ok "0x0B")
    × (pos 8 ≢ pos 7
        → (verify_token service "t" (pos 8) 60).0
          ≡ err (plain "payload %v used to generate the Token doesnt match expected values"))
unfolding create_token render decimal
verify-create_token_example =
    verify-create_token service reads (pos 7) (pos 8) "0x0B" "t" 0 60
      (λ e. ground (arith, eq_iff "0x0B" "", e)) refl (omega arith)
