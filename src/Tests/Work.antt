-- ===== src/Tests/Work.antt =====
-- The life of one request: reviewed, claimed, checked, sent, answered.
use providah_community.Provider.Status.{resource_action_reached, power_reached}
use providah_community.Provider.Patterns.{action_id, identifier, positive_id, region}
use providah_community.Regex.{matches}
use providah_community.Provider.Runtime.{supports_resource_action, supports_action}
use providah_community.Prelude.{
  ◌≡◌, refl, ◌==◌, ◌≤◌, ◌⊎◌, ◌++◌, true, Option, none, some, List, [], ◌∷◌, pos, trim_space,
}
use providah_community.Provider.Discovery.{
  Request, validate_request, valid_kinds, validate_response,
}
use providah_community.Provider.Power.{
  PowerRequest, PowerResult, validate_power_request, check_tags, check_resize, check_identity,
  validate_power_result, check_kind, check_cloud, check_creation, check_deletion, check_words,
  check_target, native_pattern,
}
use providah_community.Operation.Tables.{
  Operation, Answer, Status, Commit, Effect, audited, refreshed, done, is_status, dispatching,
  observing, queued, succeeded,
}
use providah_community.Operation.World.{
  power_permission, needs_authority, creation_permitted, require_module, module_allowed,
  ownership_guard, identity_allowed, runtime_available, approval_required, runtime_capabilities,
}
use providah_community.Operation.Outcome.{save_power_outcome, save_operation_outcome}
use providah_community.Operation.Review.{review_operation, decide}
use providah_community.Operation.Review.Independent.{IsIndependent, review-IsIndependent}
use providah_community.Operation.Worker.{expire, claim, claimable}
use providah_community.Operation.Dispatch.{prepare, ready, holds_lease}
use providah_community.Operation.Worker.Conditions.{IsAuthorized}
use providah_community.Operation.Dispatch.Sent.{PhaseOf}
use providah_community.Operation.Dispatch.Phase.{prepare-PhaseOf}
use providah_community.Operation.Dispatch.Authorized.{prepare-IsAuthorized}
use providah_community.Operation.Settle.{settle, usable}
use providah_community.Operation.Settle.Confirmed.{IsConfirmed, settle-IsConfirmed}
use providah_community.Operation.Life.{
  Steps, stay, then_on, reviewed, claimed, answered, ticked, step_dispatches, dispatches, may_move,
  is_final,
}
use providah_community.Operation.Life.Laws.{Step-may_move, dispatched_once, final_forever}
use providah_community.Tests.Fixtures.{
  start_request, connection, world_at, reviewer, running_result, running_response, any_ip,
}

abbrev approved : Commit
approved = decide (world_at 100) reviewer start_request queued "looks fine"

approved_run :
    review_operation (world_at 100) reviewer true "looks fine" start_request connection
    ≡ done approved
unfolding review_operation ◌==◌ trim_space power_permission needs_authority creation_permitted
    require_module
approved_run = refl

review-IsIndependent_example :
    IsIndependent (world_at 100) reviewer true start_request connection approved
review-IsIndependent_example =
    review-IsIndependent (world_at 100) reviewer true "looks fine" start_request connection approved
      approved_run

abbrev pub job : Operation
job = claim 200 approved.row

claimed_now : claimable 200 approved.row ≡ true
unfolding claimable decide
claimed_now = refl

pub job_dispatching : is_status job.status dispatching ≡ true
unfolding claim decide
job_dispatching = refl

abbrev start_power : PowerRequest
start_power = record {
  key_create = none;
  expected_tags = none;
  target_tags = none;
  expected_identity = "";
  expected_size = "";
  target_size = "";
  resource_kind = "";
  create = none;
  deletion_impact = "";
  operation_id = "cccccccccccccccccccccccccccccccccccccccccccccccccccccccccccccccc";
  phase = "submit";
  action = "start";
  native_id = "42";
  expected_status = "off";
  action_id = "";
}

abbrev sent_request : Request
sent_request = record {
  metrics = none;
  inventory_kinds = [];
  version = pos 1;
  runtime_id = "";
  organization_id = "aaaaaaaaaaaaaaaaaaaaaaaaaaaaaaaaaaaaaaaaaaaaaaaaaaaaaaaaaaaaaaaa";
  connection_id = "bbbbbbbbbbbbbbbbbbbbbbbbbbbbbbbbbbbbbbbbbbbbbbbbbbbbbbbbbbbbbbbb";
  provider = "hetzner";
  region = "fsn1";
  credential = "token-0123456789";
  power = some start_power;
}

abbrev dispatch_audit : List Effect
dispatch_audit =
    audited "aaaaaaaaaaaaaaaaaaaaaaaaaaaaaaaaaaaaaaaaaaaaaaaaaaaaaaaaaaaaaaaa" "system:operations"
      "operation.dispatching" "cccccccccccccccccccccccccccccccccccccccccccccccccccccccccccccccc"
    ∷ []

sent_now : prepare (world_at 210) job job connection ≡ done (ready sent_request dispatch_audit)
unfolding prepare ◌==◌ claim decide module_allowed ownership_guard identity_allowed
    runtime_available approval_required power_permission supports_resource_action supports_action
    runtime_capabilities creation_permitted needs_authority validate_request valid_kinds
    validate_power_request check_tags check_resize check_identity check_kind check_cloud
    check_creation check_deletion check_words matches identifier check_target native_pattern
    positive_id region
sent_now = refl

prepare-IsAuthorized_example :
    (holds_lease (world_at 210) job job ≡ true)
    × IsAuthorized (world_at 210) job connection
    × PhaseOf true sent_request
    × (validate_request (world_at 210).parse_authorized_key (world_at 210).unix sent_request ≡ none)
prepare-IsAuthorized_example =
    prepare-IsAuthorized (world_at 210) job job connection sent_request dispatch_audit
      job_dispatching sent_now

abbrev finished : Commit
finished = record {
  row =
      (save_power_outcome 220 job succeeded
        "Provider completion or the requested power state was observed." (some running_result)).row;
  effects =
      (save_power_outcome 220 job succeeded
        "Provider completion or the requested power state was observed."
        (some running_result)).effects
      ++ refreshed "bbbbbbbbbbbbbbbbbbbbbbbbbbbbbbbbbbbbbbbbbbbbbbbbbbbbbbbbbbbbbbbb" ∷ [];
}

finished_run : settle (world_at 220) any_ip job (some running_response) job ≡ done (some finished)
unfolding settle ◌==◌ claim decide validate_response valid_kinds validate_power_result matches
    action_id resource_action_reached power_reached
finished_run = refl

finished_success : is_status finished.row.status succeeded ≡ true
unfolding save_power_outcome save_operation_outcome
finished_success = refl

settle-IsConfirmed_example :
    (p : PowerResult) × (usable any_ip (some running_response) ≡ some p)
    × IsConfirmed (is_status job.status dispatching) job p
settle-IsConfirmed_example =
    settle-IsConfirmed (world_at 220) any_ip job job (some running_response) finished finished_run
      finished_success

-- The whole life of the request: approved, claimed, answered.
abbrev life : Steps start_request finished.row
life =
    then_on
      (reviewed (world_at 100) reviewer true "looks fine" start_request connection approved
        approved_run)
      (then_on (claimed 200 approved.row claimed_now) (
        then_on
          (answered (world_at 220) any_ip 200 approved.row claimed_now (some running_response) job
            finished finished_run)
          (stay finished.row)))

one_dispatch : dispatches life ≡ 1
unfolding dispatches step_dispatches decide
one_dispatch = refl

dispatched_once_example : dispatches life ≤ 1
dispatched_once_example = dispatched_once life

Step-may_move_example : (approved.row ≡ job) ⊎ (may_move approved.row.status job.status ≡ true)
Step-may_move_example = Step-may_move (claimed 200 approved.row claimed_now)

-- The clock ticks once after the end.
abbrev later : Steps finished.row (expire 900 finished.row).row
later = then_on (ticked 900 finished.row) (stay (expire 900 finished.row).row)

finished_final : is_final finished.row.status ≡ true
unfolding save_power_outcome save_operation_outcome
finished_final = refl

final_forever_example : finished.row ≡ (expire 900 finished.row).row
final_forever_example = final_forever later finished_final

-- The start was accepted, and its operation is observed under a new lease.
abbrev watched : Operation
watched =
    claim 300 (record job { status = observing; lease_until = none; provider_action_id = "77" })

abbrev observe_request : Request
observe_request = record sent_request {
  power = some (record start_power { phase = "observe"; action_id = "77" });
}

observed_now : prepare (world_at 310) watched watched connection ≡ done (ready observe_request [])
unfolding prepare ◌==◌ claim decide runtime_available needs_authority power_permission
    validate_request valid_kinds validate_power_request check_tags check_resize check_identity
    check_kind check_cloud check_creation check_deletion check_words matches identifier check_target
    native_pattern positive_id action_id region
observed_now = refl

prepare-PhaseOf_example :
    (holds_lease (world_at 310) watched watched ≡ true)
    × PhaseOf (is_status watched.status dispatching) observe_request
    × (validate_request (world_at 310).parse_authorized_key (world_at 310).unix observe_request
        ≡ none)
prepare-PhaseOf_example =
    prepare-PhaseOf (world_at 310) watched watched connection observe_request [] observed_now

-- A snapshot whose result reports success and an error is stored as succeeded, whatever it shows.
abbrev snapshot_job : Operation
snapshot_job = record job { action = "snapshot" }

abbrev contradictory : PowerResult
contradictory = record running_result { action_id = ""; status = ""; error = "observation_failed" }

abbrev stored_status : Answer (Option Commit) → Option Status
stored_status (done (some commit)) = some commit.row.status
stored_status other = none

contradictory_snapshot :
    stored_status (
      settle
        (world_at 220)
        any_ip
        snapshot_job
        (some (record running_response { power = some contradictory }))
        snapshot_job)
    ≡ some succeeded
unfolding settle ◌==◌ claim decide validate_response valid_kinds validate_power_result matches
    action_id resource_action_reached power_reached save_power_outcome save_operation_outcome
contradictory_snapshot = refl
