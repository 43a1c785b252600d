-- ===== src/Api/Auth/Identity.antt =====
-- Who passes for a user (api/auth.py).
use wso2_teamspace_demo.Base.{String, ◌≡◌, refl, Option, none, some, arith}
use wso2_teamspace_demo.Base.Json.{Json, Fields}
use wso2_teamspace_demo.Base.Values.{chain_returned}
use wso2_teamspace_demo.Base.Run.{Result, ok}
use wso2_teamspace_demo.Common.Jwt.{PyJwt, select_signing_key, token_issuer}
use wso2_teamspace_demo.Api.Auth.{
  AuthWorld, Fetched, get_jwks, UserInfo, user_info, ApiSettings, authenticate, optional,
  get_current_user,
}

module _ (p : PyJwt) (c : ApiSettings) (fetch : String → AuthWorld → Fetched × AuthWorld) where
  optional-some :
      (r : Result UserInfo) (user : UserInfo) → optional p c fetch r ≡ ok (some user) → r ≡ ok user
  optional-some r user h = ground arith

  -- A user comes only out of a bearer token that verifies, under the key of the key set that its
  -- kid names, for this client and issuer, and the user's data are those of its claims.
  pub get_current_user_sound :
      (credentials : Option String) (w : AuthWorld) (user : UserInfo)
      → (get_current_user p c fetch credentials w).0 ≡ ok (some user)
      → (token : String) × (jwks : Json) × (key : Json) × (decoded : Fields) × (credentials
          ≡ some token)
        × ((get_jwks fetch c.is_base_url c.tenant_path w).0 ≡ ok jwks)
        × (select_signing_key p jwks token ≡ ok key)
        × (p.decode token key c.client_id
              (token_issuer c.is_base_url c.tenant_path)
              c.clock_skew
              (get_jwks fetch c.is_base_url c.tenant_path w).1.wall
            ≡ ok decoded)
        × (user_info decoded ≡ ok user)
  unfolding get_current_user authenticate
  get_current_user_sound none w user h = absurd (ground arith)
  get_current_user_sound (some token) w user h =
      let passed = optional-some _ user h in
      let (jwks, got, h₁) =
        chain_returned (get_jwks fetch c.is_base_url c.tenant_path w).0 _ user passed in
      let (key, found, h₂) = chain_returned (select_signing_key p jwks token) _ user h₁ in
      let (decoded, verified, h₃) =
        chain_returned
          (p.decode token key c.client_id (token_issuer c.is_base_url c.tenant_path) c.clock_skew
            (get_jwks fetch c.is_base_url c.tenant_path w).1.wall)
          _ user h₂ in
      (token, jwks, key, decoded, refl, got, found, verified, h₃)
