-- ===== src/Providers/Aws.antt =====
-- internal/providers/aws/aws.go: STS sessions, and IAM policies that deny them.
pub mod Text
pub mod Limits
pub mod Seconds
use jitsudo.Prelude.{
  ℕ, ◌/◌, ◌*◌, Bool, true, false, Option, none, some, String, str_eq, str_append, List, [], ◌∷◌,
  ltb, if◌then◌else◌,
}
use jitsudo.Prelude.Int.{ℤ, pos, negsuc}
use jitsudo.Providers.{validate_common}
use jitsudo.Providers.Cloud.{Fault, error_of, answered, refused, Call, Codec, cap, is_above}
use jitsudo.Rows.{StringMap}
use jitsudo.World.{Error, message, wrap, Result, ok, err, ElevationRequest, ElevationGrant}
use Text.{replace, sanitize, cut, last_segment, take_runes}

pub record Config : Type 0 where
  pub mode : String
  pub region : String
  pub identity_center_instance_arn : String
  pub identity_center_store_id : String
  pub role_arn_template : String
  pub max_duration : ℤ
  pub endpoint_url : String

-- sts.AssumeRoleInput, with the tags by key, and the credentials of its output.
pub record AssumeRoleInput : Type 0 where
  pub role_arn : String
  pub role_session_name : String
  pub duration_seconds : ℕ
  pub tags : List (String × String)

pub record SessionCredentials : Type 0 where
  pub access_key_id : String
  pub secret_access_key : String
  pub session_token : String
  pub expiration : ℕ

-- iam.PutRolePolicyInput
pub record PutRolePolicyInput : Type 0 where
  pub role_name : String
  pub policy_name : String
  pub policy_document : String

-- stsAPI and iamAPI over an unknown state of the cloud; and whether an error is IAM's
-- NoSuchEntityException, wrapped or not (isAWSError).
pub record AwsApi (S : Type 0) : Type 0 where
  pub assume_role : AssumeRoleInput → Call S SessionCredentials
  pub put_role_policy : PutRolePolicyInput → Call S (Unit {0})
  pub is_no_such_entity : Fault → Bool

-- awsRevokeToken
pub record RevokeToken : Type 0 where
  pub role_arn : String
  pub session_name : String
  pub issued_at : ℕ

-- The statement and policy of `denyPolicyDocument`; `issued_by` is the bound of DateLessThanEquals
-- on aws:TokenIssueTime.
pub record Statement : Type 0 where
  pub effect : String
  pub action : String
  pub resource : String
  pub issued_by : String

pub record IamPolicy : Type 0 where
  pub version : String
  pub statement : List Statement

-- The functions of encoding/json and time that the adapter calls.
pub record Formats : Type 0 where
  pub token : Codec RevokeToken
  pub marshal_policy : IamPolicy → String
  pub format_rfc3339 : ℕ → String

abbrev pub name : String
name = "aws"

unfoldable pub validate_request : ElevationRequest → Option Error
validate_request req = elim (validate_common req) [
  | some e ↦ some e
  | none ↦
      if str_eq req.resource_scope ""
      then some (message "aws: ResourceScope (AWS account ID) must not be empty")
      else if str_eq req.role_name ""
      then some (message "aws: RoleName must not be empty")
      else none
]

unfoldable pub build_role_arn : Config → ElevationRequest → Result String
build_role_arn cfg req =
    if str_eq cfg.role_arn_template ""
    then err (message "aws: RoleARNTemplate is not configured")
    else ok (replace req.resource_scope req.role_name 0 cfg.role_arn_template)

unfoldable pub session_name : String → String
unfolding sanitize cut
session_name id = cut 64 (sanitize (str_append "jitsudo-" id))

-- 15 * time.Minute and 12 * time.Hour
abbrev pub sts_min : ℤ
sts_min = pos 900_000_000_000

abbrev pub sts_max : ℤ
sts_max = pos 43_200_000_000_000

unfoldable pub cap_duration : Config → ℤ → ℤ
cap_duration cfg d =
    let capped = cap cfg.max_duration d in
    let below = if is_above capped sts_max then sts_max else capped in
    if is_above sts_min below then sts_min else below

-- int32(d.Seconds()) of a duration that is not negative.
abbrev pub whole_seconds : ℤ → ℕ
whole_seconds (pos n) = n / 1_000_000_000
whole_seconds (negsuc n) = 0

unfoldable pub deny_policy : Formats → ℕ → IamPolicy
deny_policy f issued_at = record {
  version = "2012-10-17";
  statement =
      record {
        effect = "Deny";
        action = "*";
        resource = "*";
        issued_by = f.format_rfc3339 issued_at;
      }
      ∷ [];
}

-- The role's name: the last segment of the ARN.
abbrev pub role_name_of : String → String
role_name_of arn = elim (last_segment arn) [ none ↦ arn | some name ↦ name ]

module _ (cfg : Config) where
  unfoldable pub assume_role_input : ElevationRequest → String → AssumeRoleInput
  unfolding session_name cap_duration take_runes
  assume_role_input req role_arn = record {
    role_arn = role_arn;
    role_session_name = session_name req.request_id;
    duration_seconds = whole_seconds (cap_duration cfg req.duration);
    tags =
        ("jitsudo:RequestID", req.request_id)
        ∷ ("jitsudo:UserIdentity", req.user_identity)
        ∷ ("jitsudo:Reason", take_runes 256 req.reason)
        ∷ [];
  }

  abbrev region : String
  region = if str_eq cfg.region "" then "us-east-1" else cfg.region

  unfoldable pub grant_of :
      Formats → ℕ → ElevationRequest → String → SessionCredentials → ElevationGrant
  grant_of f now req role_arn creds = record {
    request_id = req.request_id;
    credentials = some (
        ("AWS_ACCESS_KEY_ID", creds.access_key_id)
        ∷ ("AWS_SECRET_ACCESS_KEY", creds.secret_access_key)
        ∷ ("AWS_SESSION_TOKEN", creds.session_token)
        ∷ ("AWS_DEFAULT_REGION", region)
        ∷ []);
    issued_at = now;
    expires_at = creds.expiration;
    revoke_token = f.token.marshal (record {
      role_arn = role_arn;
      session_name = session_name req.request_id;
      issued_at = now;
    });
  }

  module _ {S : Type 0} (f : Formats) (api : AwsApi S) where
    -- `Grant` at the time `now`
    unfoldable pub grant : ℕ → ElevationRequest → S → Result ElevationGrant × S
    unfolding build_role_arn assume_role_input grant_of
    grant now req s = elim (build_role_arn cfg req) [
      | err e ↦ (err e, s)
      | ok role_arn ↦
          let (out, s1) = api.assume_role (assume_role_input req role_arn) s in
          elim out [
            | refused e ↦ (err (wrap "aws: AssumeRole" (error_of e)), s1)
            | answered creds ↦ (ok (grant_of f now req role_arn creds), s1)
          ]
    ]

module _ {S : Type 0} (f : Formats) (api : AwsApi S) where
  unfoldable pub deny_input : RevokeToken → PutRolePolicyInput
  unfolding deny_policy
  deny_input token = record {
    role_name = role_name_of token.role_arn;
    policy_name = str_append "jitsudo-deny-" token.session_name;
    policy_document = f.marshal_policy (deny_policy f token.issued_at);
  }

  unfoldable pub revoke : ElevationGrant → S → Result (Unit {0}) × S
  unfolding deny_input
  revoke g s =
      if str_eq g.revoke_token "" then (ok tt, s) else elim (f.token.unmarshal g.revoke_token) [
        | err e ↦ (err (wrap "aws: decode revoke token" e), s)
        | ok token ↦
            let (out, s1) = api.put_role_policy (deny_input token) s in
            elim out [
              | answered u ↦ (ok tt, s1)
              | refused e ↦
                  if api.is_no_such_entity e
                  then (ok tt, s1)
                  else (err (wrap "aws: PutRolePolicy" (error_of e)), s1)
            ]
      ]

-- `IsActive` at the time `now`
unfoldable pub is_active : ℕ → ElevationGrant → Bool
is_active now g = ltb now g.expires_at
