-- ===== src/Accounts/Token.antt =====
-- internal/accounts/token_metadata.go. Decoding the payload of a JWT (base64 and JSON) is the
-- parameter `decode_payload` of the service's environment.
use codex_model_tester.Base.{Option, none, some, [], Str, trim_space, or_str}
use codex_model_tester.Accounts.Types.{OauthToken}

pub record TokenMetadata : Type 0 where
  pub email : Str
  pub plan_type : Str
  pub user_id : Str

pub record JwtProfileClaims : Type 0 where
  pub email : Str
  pub user_id : Str

pub record JwtAuthClaims : Type 0 where
  pub plan_type : Str
  pub user_id : Str

pub record JwtClaims : Type 0 where
  pub email : Str
  pub plan_type : Str
  pub user_id : Str
  pub profile : Option JwtProfileClaims
  pub auth : Option JwtAuthClaims

abbrev or_profile : Option JwtProfileClaims → JwtProfileClaims
or_profile none = record { email = []; user_id = [] }
or_profile (some p) = p

abbrev or_auth : Option JwtAuthClaims → JwtAuthClaims
or_auth none = record { plan_type = []; user_id = [] }
or_auth (some a) = a

unfoldable pub metadata_from_claims : JwtClaims → TokenMetadata
metadata_from_claims claims =
    let profile = or_profile claims.profile in
    let auth = or_auth claims.auth in
    record {
      email = or_str (trim_space claims.email) (trim_space profile.email);
      plan_type = or_str (trim_space claims.plan_type) (trim_space auth.plan_type);
      user_id =
          or_str (trim_space claims.user_id)
            (or_str (trim_space profile.user_id) (trim_space auth.user_id));
    }

unfoldable pub metadata_from_token : (Str → Option JwtClaims) → OauthToken → TokenMetadata
unfolding metadata_from_claims
metadata_from_token decode_payload token = elim (decode_payload token.access_token) [
  | none ↦ record { email = []; plan_type = []; user_id = [] }
  | some claims ↦ metadata_from_claims claims
]
