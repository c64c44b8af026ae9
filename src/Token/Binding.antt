-- ===== src/Token/Binding.antt =====
-- A token of token/jwt.go names one channel and one user.
use text.Mathlib.TextLemmas.{append-nil}
use snet_daemon.Prelude.{
  ◌+◌, ◌*◌, ◌<◌, String, ◌≡◌, ◌≢◌, refl, sym, ◌∙◌, inl, inr, arith, str_eq, eq_iff, Bool-cases,
}
use snet_daemon.Prelude.Int.{ℤ}
use snet_daemon.Prelude.Decimal.{render, render-append_inj}
use snet_daemon.Effects.{ok, err, plain}
use snet_daemon.Token.{
  Claims, JwtTokenService, claims_for, create_token, check_jwt_token_claims, verify_token,
}

render_inj : (y z : ℤ) → render y ≡ render z → y ≡ z
render_inj y z e =
    (render-append_inj y z "" "" refl refl
      (append-nil (render y) ∙ e ∙ sym (append-nil (render z)))).0

module _ {S : Type 0} (service : JwtTokenService S) where
  -- What was signed is read back until it has expired.
  abbrev pub ReadsSigned : Type 0
  ReadsSigned =
      (claims : Claims) (token : String) (s : S)
      → service.signed_string claims ≡ ok token
      → service.now s < claims.exp
      → (service.parse token s).0 ≡ ok claims

  -- Where the JWT library reads back what it has signed until it expires: a token that CreateToken
  -- made for a channel and a user with a text that is not empty is verified, at any time before its
  -- expiry, for that channel with that user, and refused for every other channel.
  pub verify-create_token :
      ReadsSigned
      → (channel_id other_id : ℤ) (user_address token : String) (s s' : S) → user_address ≢ ""
      → (create_token service channel_id user_address s).0 ≡ ok token
      → service.now s' < service.now s + 60 * service.token_expiry_in_minutes
      → ((verify_token service token channel_id s').0 ≡ ok user_address)
        × (other_id ≢ channel_id
            → (verify_token service token other_id s').0
              ≡ err (plain "payload %v used to generate the Token doesnt match expected values"))
  unfolding create_token verify_token check_jwt_token_claims
  verify-create_token reads channel_id other_id user_address token s s' named made early =
      let claims = claims_for service channel_id user_address s in
      let parsed = reads claims token s' made early in
      (
        ground (
          arith,
          parsed,
          eq_iff (render channel_id) (render channel_id),
          eq_iff service.organization_id service.organization_id,
          eq_iff service.group_id service.group_id,
          eq_iff user_address "",
          named,
        ),
        λ different. elim (Bool-cases (str_eq (render channel_id) (render other_id))) [
          | inr differs ↦ ground (arith, parsed, differs)
          | inl same ↦ absurd (
              different (
                render_inj other_id channel_id
                  (sym ((eq_iff (render channel_id) (render other_id)).0 same))))
        ],
      )
