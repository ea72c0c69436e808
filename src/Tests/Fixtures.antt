-- ===== src/Tests/Fixtures.antt =====
-- An organization with one connection, one server and one operation on it.
use providah_community.Prelude.{ℕ, Bool, true, false, String, none, some, [], ◌∷◌, pos}
use providah_community.Provider.Power.{PowerResult}
use providah_community.Provider.Discovery.{Response}
use providah_community.Operation.Tables.{Operation, Connection, awaiting_approval, no_creation}
use providah_community.Operation.World.{World}
use providah_community.Operation.Review.{Actor}

-- A request to start a server, waiting for approval.
abbrev pub start_request : Operation
start_request = record {
  id = "cccccccccccccccccccccccccccccccccccccccccccccccccccccccccccccccc";
  org_id = "aaaaaaaaaaaaaaaaaaaaaaaaaaaaaaaaaaaaaaaaaaaaaaaaaaaaaaaaaaaaaaaa";
  resource_id = some "res-1";
  connection_id = "bbbbbbbbbbbbbbbbbbbbbbbbbbbbbbbbbbbbbbbbbbbbbbbbbbbbbbbbbbbbbbbb";
  connection_revision = 3;
  provider = "hetzner";
  native_id = "42";
  region = "fsn1";
  resource_name = "web";
  action = "start";
  expected_status = "off";
  reason = "needed";
  requester_id = "ann";
  requester_oidc = none;
  approver_id = none;
  approver_oidc = none;
  policy_version = "power-v1";
  status = awaiting_approval;
  idempotency_key = "key";
  approval_expires_at = none;
  expires_at = 9000;
  lease_until = none;
  next_attempt_at = 0;
  observation_deadline = none;
  provider_action_id = "";
  observed_status = "";
  detail = "";
  schedule_id = none;
  schedule_revision = 0;
  automation_identity_id = "";
  maintenance_revision = 1;
  maintenance_exception_reason = "";
  maintenance_expires_at = none;
  module_revision = 1;
  runtime_id = "";
  deletion_impact = "";
  creation = no_creation;
  resource_kind = "compute.server";
  expected_size = "";
  target_size = "";
  template_id = none;
  provider_identity = "";
  expected_tags = none;
  target_tags = none;
}

abbrev pub connection : Connection
connection = record {
  id = "bbbbbbbbbbbbbbbbbbbbbbbbbbbbbbbbbbbbbbbbbbbbbbbbbbbbbbbbbbbbbbbb";
  org_id = "aaaaaaaaaaaaaaaaaaaaaaaaaaaaaaaaaaaaaaaaaaaaaaaaaaaaaaaaaaaaaaaa";
  provider = "hetzner";
  revision = 3;
  enabled = true;
  deleted = false;
  ciphertext = "sealed";
}

-- What the queries answer at an instant.
abbrev pub world_at : ℕ → World
world_at now = record {
  now = now;
  permissions =
      λ org user. some ("resources.read" ∷ "operations.request" ∷ "operations.approve" ∷ []);
  policy = λ org. some (record { approval_actions = "start" ∷ []; creation_enabled = true });
  identity_allows = λ org user login. some true;
  module_row = λ org cloud. some (record { enabled = true; revision = 1; runtime_id = "" });
  resource = λ org id. some (record {
    connection_id = "bbbbbbbbbbbbbbbbbbbbbbbbbbbbbbbbbbbbbbbbbbbbbbbbbbbbbbbbbbbbbbbb";
    native_id = "42";
    name = "web";
    kind = "compute.server";
    region = "fsn1";
    status = "off";
    observed_at = 0;
    size = "cx22";
    provider_identity = "";
    tag_metadata = none;
  });
  maintenance = λ org id. some (record { revision = 1; restriction = ""; until = none });
  owners = λ org id kind native region. some [];
  schedule_authorizes = λ o. none;
  template_status = λ org id. none;
  provider_runtimes = [];
  runtime_policy = none;
  open_credential = λ sealed. some "token-0123456789";
  provider_credential = λ cloud opened region org id. some opened;
  parse_authorized_key = λ s. none;
  unix = pos 1000;
  digest = λ s. s;
  resource_id_of = λ org id kind region native. native;
}

abbrev pub reviewer : Actor
reviewer = record { user_id = "bob"; email = "bob@example.com"; oidc = none }

-- The provider's answer to the start: the server runs.
abbrev pub running_result : PowerResult
running_result = record {
  tags = none;
  size = "";
  native_id = "";
  deletion_impact = "";
  outcome = "succeeded";
  action_id = "77";
  status = "running";
  error = "";
}

abbrev pub running_response : Response
running_response = record {
  metrics = none;
  inventory_kinds = [];
  version = pos 1;
  complete = false;
  resources = [];
  error = "";
  power = some running_result;
}

-- Every text is taken for an address.
abbrev pub any_ip : String → Bool
any_ip s = true
