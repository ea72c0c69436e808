-- ===== src/Tests/Requests.antt =====
-- A request to start a server, made twice.
use providah_community.Provider.Runtime.{supports_resource_action, supports_action}
use providah_community.Provider.Status.{resource_action_allowed, power_allowed}
use providah_community.Regex.{matches}
use providah_community.Prelude.{◌≡◌, refl, none, some, List, [], ◌∷◌, ◌==◌, trim_space}
use providah_community.Operation.Tables.{
  Operation, succeeded, Connection, ResourceRow, Answer, done,
}
use providah_community.Operation.World.{
  identity_allowed, power_permission, creation_permitted, ownership_guard, require_module,
  runtime_for, runtime_available, selected_runtime, runtime_capabilities,
}
use providah_community.Operation.Deletion.{Desk}
use providah_community.Operation.Request.Input.{OperationInput, trimmed}
use providah_community.Operation.Request.{Requested, request_operation}
use providah_community.Operation.Request.Answered.{MayRequest, IsAnswered, request-IsAnswered}
use providah_community.Tests.Fixtures.{connection, world_at, reviewer, start_request, any_ip}

abbrev server_row : ResourceRow
server_row = record {
  connection_id = "bbbbbbbbbbbbbbbbbbbbbbbbbbbbbbbbbbbbbbbbbbbbbbbbbbbbbbbbbbbbbbbb";
  native_id = "42";
  name = "web";
  kind = "compute.server";
  region = "fsn1";
  status = "off";
  observed_at = 0;
  size = "cx22";
  provider_identity = "";
  tag_metadata = none;
}

-- The provider can be called, but does not answer.
abbrev desk : Desk
desk = record {
  unlocked_resource = λ org id. some server_row;
  connection = λ org id. some connection;
  new_id = "dddddddddddddddddddddddddddddddddddddddddddddddddddddddddddddddd";
  random_id = "eeee";
  call = some (λ request. none);
  later = world_at 100;
  is_ip = any_ip;
}

abbrev input : OperationInput
input = record {
  organization_id = "aaaaaaaaaaaaaaaaaaaaaaaaaaaaaaaaaaaaaaaaaaaaaaaaaaaaaaaaaaaaaaaa";
  resource_id = "res-1";
  action = "start";
  expected_status = "off";
  reason = " needed again ";
  idempotency_key = "0123456789abcdef";
  maintenance_exception_reason = "";
  confirmation = "";
  deletion_digest = "";
  expected_size = "";
  target_size = "";
  expected_tags = none;
  target_tags = none;
}

abbrev value : Answer Requested → Requested
value (done a) = a
value other = record { id = ""; operations = []; effects = [] }

abbrev answer : Requested
answer = value (request_operation (world_at 100) desk reviewer input none [])

requested : request_operation (world_at 100) desk reviewer input none [] ≡ done answer
unfolding request_operation ◌==◌ trim_space matches identity_allowed power_permission
    creation_permitted ownership_guard require_module resource_action_allowed power_allowed
    runtime_for runtime_available selected_runtime supports_resource_action supports_action
    runtime_capabilities
requested = refl

abbrev first_row : List Operation → Operation
first_row (o ∷ rows) = o
first_row [] = start_request

-- The operation has succeeded, and the server runs.
abbrev done_row : Operation
done_row = record (first_row answer.operations) { status = succeeded; observed_status = "running" }

abbrev later_desk : Desk
later_desk = record desk {
  unlocked_resource = λ org id. some (record server_row { status = "running" });
}

request-IsAnswered_example :
    (resource : ResourceRow) × (c : Connection) × (some server_row ≡ some resource)
    × (some connection ≡ some c)
    × MayRequest (world_at 100) reviewer (trimmed input) resource
    × IsAnswered (world_at 100) desk reviewer (trimmed input) none c [] answer
request-IsAnswered_example =
    request-IsAnswered (world_at 100) desk reviewer input none [] answer requested
