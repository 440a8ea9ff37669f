-- ===== src/Tests/Fixtures.antt =====
-- A quiet control plane with one provider, a few rows, and the hash of a text taken as the text.
use jitsudo.Prelude.{
  ◌+◌, ◌*◌, refl, Bool, true, false, none, some, String, str_eq, List, [], ◌∷◌, if◌then◌else◌,
}
use jitsudo.Prelude.Int.{pos}
use jitsudo.Rows.{State, RequestRow}
use jitsudo.Policy.{Identity}
use jitsudo.Providers.{Provider, Registry}
use jitsudo.Workflow.Create.{CreateRequestInput}
use jitsudo.World.{
  ElevationGrant, ok, err, message, object, boolean, PreparedQuery, Loaded, OpaResult, World, Env,
}
use jitsudo.World.Quiet.{IsQuiet}

abbrev pub allow : Bool → List OpaResult
allow b = record { expressions = boolean b ∷ []; bindings = [] } ∷ []

abbrev pub calm_answering : Bool → Env
calm_answering b = record {
  now = λ n. 1_700_000_000_000_000_000 + n * 1_000;
  db_now = λ n. 1_700_000_000_000_000_000 + n * 1_000;
  db_fault = λ n. none;
  is_cancelled = λ n. false;
  others = λ n d. d;
  ulid = λ n. "01J8KZ";
  sha256_hex = λ s. s;
  unmarshal_object =
      λ s. if str_eq s "" then err (message "unexpected end of JSON input") else ok (object s);
  prepare = λ n q. none;
  eval = λ n q input. ok (allow b);
}

abbrev pub calm : Env
calm = calm_answering true

pub calm_answering-IsQuiet : (b : Bool) → IsQuiet (calm_answering b)
calm_answering-IsQuiet b = record { no_fault = λ n. refl; alone = λ n d. refl }

pub calm-IsQuiet : IsQuiet calm
calm-IsQuiet = calm_answering-IsQuiet true

abbrev pub aws_grant : String → ElevationGrant
aws_grant id = record {
  request_id = id;
  credentials = some (("AWS_SESSION_TOKEN", "token") ∷ []);
  issued_at = 1_700_000_000_000_000_000;
  expires_at = 1_700_000_003_600_000_000;
  revoke_token = "role-session";
}

abbrev pub aws : Provider
aws = record {
  name = "aws";
  validate_request = λ req. none;
  grant = λ n req. ok (aws_grant req.request_id);
  revoke = λ n g. none;
}

abbrev pub registry : Registry
registry = ("aws", aws) ∷ []

abbrev pub alice : Identity
alice = record { subject = "u1"; email = "alice@example.com"; groups = [] }

abbrev pub bob : Identity
bob = record { subject = "u2"; email = "bob@example.com"; groups = "jitsudo-admins" ∷ [] }

abbrev pub input : Bool → CreateRequestInput
input break_glass = record {
  provider = "aws";
  role = "prod-infra-admin";
  resource_scope = "123456789012";
  duration_seconds = pos 3600;
  reason = "INC-4421";
  break_glass = break_glass;
  metadata = none;
}

-- A request of alice's in a given state, with a deadline in the past where it has one.
abbrev pub row : String → State → RequestRow
row id state = record {
  id = id;
  state = state;
  requester_identity = "alice@example.com";
  provider = "aws";
  role = "prod-infra-admin";
  resource_scope = "123456789012";
  duration_seconds = pos 3600;
  reason = "INC-4421";
  break_glass = false;
  metadata = none;
  approver_tier = "human";
  approver_identity = "";
  approver_comment = "";
  expires_at = some 1_600_000_000_000_000_000;
  revoke_token = "role-session";
  credentials_json = some (("AWS_SESSION_TOKEN", "token") ∷ []);
  ai_reasoning_json = "";
  created_at = 1_600_000_000_000_000_000;
  updated_at = 1_600_000_000_000_000_000;
}

abbrev pub query : String → PreparedQuery
query q = record { query = q; modules = [] }

abbrev pub policies : Loaded
policies = record {
  eligibility_query = some (query "data.jitsudo.eligibility.allow");
  approval_query = some (query "data.jitsudo.approval.allow");
  approval_tier_query = some (query "data.jitsudo.approval.approver_tier");
}

abbrev pub world : List RequestRow → World
world rows = record {
  db = record {
    requests = rows;
    audit_events = [];
    next_audit_id = 1;
    policies = [];
    principals = [];
    sweep_lock = false;
  };
  loaded = policies;
  calls = 0;
  effects = [];
}
