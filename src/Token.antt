-- ===== src/Token.antt =====
-- token/jwt.go: customJWTokenServiceImpl, which makes and checks the tokens of prepaid calls.
pub mod Binding
pub mod Tests
use snet_daemon.Prelude.{ℕ, ◌+◌, ◌*◌, String, str_eq, not, if◌then◌else◌, Option, none, some}
use snet_daemon.Prelude.Int.{ℤ}
use snet_daemon.Prelude.Decimal.{render}
use snet_daemon.Effects.{Result, ok, err, plain, Action, pure, fail, lift, bind_result, ◌>>=◌, ◌>>◌}

-- The claims of a token as fmt prints them; `user_address` is `none` where it is not a text.
pub record Claims : Type 0 where
  pub payload : String
  pub user_address : Option String
  pub org_id : String
  pub group_id : String
  pub exp : ℕ

-- The settings and golang-jwt: `signed_string` signs with HS256 and the secret, and `parse` checks
-- the method, the signature and the expiry. `now` is the time in seconds.
pub record JwtTokenService (S : Type 0) : Type 0 where
  pub organization_id : String
  pub group_id : String
  pub token_expiry_in_minutes : ℕ
  pub signed_string : Claims → Result String
  pub parse : String → Action S Claims
  pub now : S → ℕ

-- The interface Manager for payloads that are channel ids.
pub record Manager (S : Type 0) : Type 0 where
  pub create_token : ℤ → String → Action S String
  pub verify_token : String → ℤ → Action S String

-- The address that VerifyToken returns.
abbrev pub sender_of : Option String → String
sender_of none = "unknown"
sender_of (some sender) = if str_eq sender "" then "unknown" else sender

module _ {S : Type 0} (service : JwtTokenService S) where
  abbrev pub claims_for : ℤ → String → S → Claims
  claims_for payload user_address s = record {
    payload = render payload;
    user_address = some user_address;
    org_id = service.organization_id;
    group_id = service.group_id;
    exp = service.now s + 60 * service.token_expiry_in_minutes;
  }

  unfoldable pub create_token : ℤ → String → Action S String
  create_token payload user_address s =
      (service.signed_string (claims_for payload user_address s), s)

  -- checkJwtTokenClaims
  unfoldable pub check_jwt_token_claims : Claims → ℤ → Result (Unit {0})
  check_jwt_token_claims claims payload =
      if not (str_eq claims.payload (render payload))
      then err (plain "payload %v used to generate the Token doesnt match expected values")
      else if not (str_eq claims.org_id service.organization_id)
      then err (plain "organization %v is not associated with this Daemon")
      else if not (str_eq claims.group_id service.group_id)
      then err (plain "groupId %v is not associated with this Daemon")
      else ok tt

  unfoldable pub verify_token : String → ℤ → Action S String
  verify_token received_token payload = do
    claims ← service.parse received_token
    lift (check_jwt_token_claims claims payload)
    pure (sender_of claims.user_address)

  -- The methods as the interface.
  abbrev pub jwt_token_service : Manager S
  jwt_token_service = record { create_token = create_token; verify_token = verify_token }
