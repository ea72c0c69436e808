-- ===== src/Operation/Request.antt =====
-- RequestOperation (internal/core/operations.go, `requestOperation`): a new operation, or the one
-- that the same request key asked for before.
pub mod Input
pub mod Busy
pub mod Reviewed
pub mod Answered
pub mod Repeated
use providah_community.Prelude.{
  ℕ, ◌+◌, ◌-◌, ◌==◌, Bool, true, false, not, ◌&&◌, ◌||◌, String, Option, none, some, List, [], ◌∷◌,
  if◌then◌else◌, ltb, eqb, any, contains, failed, ℤ, pos, negsuc, eqb_ℤ,
}
use providah_community.Provider.Tags.{tags_equal, validate_tag_change}
use providah_community.Provider.Runtime.{supports_resource_action}
use providah_community.Provider.Status.{resource_action_allowed, database_kind}
use providah_community.Operation.Tables.{
  Operation, Connection, ResourceRow, Status, awaiting_approval, queued, dispatching, observing,
  uncertain, is_status, no_creation, denied, internal, invalid, conflict, Answer, done, fault,
  ◌>>=◌, ◌>>◌, refuse_if, found, Effect, audited, is_set, text_of,
}
use providah_community.Operation.World.{
  World, Maintenance, power_permission, has_permission, identity_allowed, creation_permitted,
  require_module, runtime_for, runtime_capabilities, approval_required, ownership_guard,
}
use providah_community.Operation.Review.{Actor}
use providah_community.Operation.Deletion.{Desk, deletion_impact}
use providah_community.Operation.Request.Busy.{violates}
use providah_community.Operation.Request.Input.{OperationInput, trimmed, check_inputs}

-- What an earlier preview of the target showed, `powerReview`.
pub record PowerReview : Type 0 where
  pub connection_revision : ℕ
  pub module_revision : ℕ
  pub runtime : String
  pub maintenance_revision : ℕ
  pub window_end : ℤ

-- What the transaction leaves: the id that it answers, the table and the other writes.
pub record Requested : Type 0 where
  pub id : String
  pub operations : List Operation
  pub effects : List Effect

-- `time.Time.Unix` of an instant, or of the zero time.
abbrev unix_of : Option ℕ → ℤ
unix_of none = negsuc 62135596799
unix_of (some t) = pos t

-- The query `OperationByKey`.
unfoldable pub operation_by_key : String → String → String → List Operation → Option Operation
operation_by_key org user key [] = none
operation_by_key org user key (o ∷ rest) =
    if o.org_id == org && o.requester_id == user && o.idempotency_key == key
    then some o
    else operation_by_key org user key rest

module _ (w : World) (d : Desk) (actor : Actor) where
  -- The checks before the request key is looked up, on the first read of the resource.
  unfoldable pub check_request : OperationInput → Connection → ResourceRow → Answer (Unit {0})
  check_request r c resource = do
    refuse_if
        (not (identity_allowed w r.organization_id actor.user_id actor.oidc)
          || not (power_permission w r.organization_id actor.user_id "operations.request"))
        denied
    refuse_if (not (creation_permitted w r.organization_id r.action))
        (conflict "This organization only manages existing resources.")
    refuse_if
        (r.action == "snapshot"
          && not (power_permission w r.organization_id actor.user_id "operations.create"))
        denied
    refuse_if
        (r.action == "delete"
          && (not (power_permission w r.organization_id actor.user_id "operations.delete")
              || not (r.confirmation == resource.native_id)))
        (invalid "Deletion requires delete permission and exact resource ID confirmation.")
    ownership_guard w r.organization_id c.id resource.kind resource.native_id resource.region
        r.action
    refuse_if
        (r.action == "tags"
          && (not (resource.kind == "compute.server")
              || failed (validate_tag_change c.provider r.expected_tags r.target_tags)))
        (invalid "Invalid provider tag change.")

  -- Whether an earlier operation asked for the same.
  unfoldable pub same_input : Operation → OperationInput → Bool
  same_input o r =
      tags_equal o.expected_tags r.expected_tags
      && tags_equal o.target_tags r.target_tags
      && o.expected_size == r.expected_size
      && o.target_size == r.target_size
      && text_of o.resource_id == r.resource_id
      && o.action == r.action
      && o.expected_status == r.expected_status
      && o.reason == r.reason
      && o.maintenance_exception_reason == r.maintenance_exception_reason
      && (not (r.action == "delete") || w.digest o.deletion_impact == r.deletion_digest)

  -- The resource is as it was reviewed, was seen within six minutes, and allows the action.
  unfoldable pub is_current : OperationInput → Connection → ResourceRow → Bool
  is_current r c resource =
      not (
        database_kind resource.kind
        && (not (c.provider == "aws") || resource.provider_identity == ""))
      && not (r.action == "resize" && not (resource.size == r.expected_size))
      && c.enabled
      && not c.deleted
      && resource_action_allowed resource.kind r.action resource.status
      && resource.status == r.expected_status
      && not (ltb 360 (w.now - resource.observed_at))

  unfoldable pub check_target : OperationInput → Connection → ResourceRow → Answer (Unit {0})
  unfolding is_current
  check_target r c resource = do
    require_module w r.organization_id c.provider 0
    refuse_if (not (is_current r c resource)) (
        conflict "Refresh the resource and review its current state before requesting this action.")
    refuse_if (r.action == "tags" && not (tags_equal resource.tag_metadata r.expected_tags))
        (conflict "Resource tags changed or were not collected. Refresh before editing.")

  unfoldable pub check_window : OperationInput → Maintenance → Answer (Unit {0})
  check_window r m =
      if not (r.maintenance_exception_reason == "")
      then refuse_if (not (has_permission w r.organization_id actor.user_id "maintenance.override"))
          denied
      else refuse_if (not (m.restriction == "")) (conflict m.restriction)

  -- The new row waits for approval if the organization's policy asks for it.
  unfoldable pub first_status : OperationInput → Status
  first_status r =
      if approval_required w r.organization_id r.action (not (r.maintenance_exception_reason == ""))
      then awaiting_approval
      else queued

  unfoldable pub is_reviewed : Option PowerReview → Connection → String × ℕ → Maintenance → Bool
  is_reviewed none c runtime m = true
  is_reviewed (some review) c runtime m =
      eqb review.connection_revision c.revision
      && eqb review.module_revision runtime.1
      && review.runtime == runtime.0
      && eqb review.maintenance_revision m.revision
      && eqb_ℤ review.window_end (unix_of m.until)

  unfoldable pub reviewed_impact :
      OperationInput → Connection → ResourceRow → String → Answer String
  reviewed_impact r c resource runtime =
      if r.action == "delete"
      then (do
        impact ← deletion_impact w d actor c resource runtime
        refuse_if (not (w.digest impact == r.deletion_digest))
            (conflict "Deletion impact changed. Preview and review it again.")
        done impact)
      else done ""

  -- The query `CreateOperation` with `StampOperationIdentity`; the other columns have their
  -- defaults.
  unfoldable pub new_operation :
      OperationInput → Connection → ResourceRow → Maintenance → String × ℕ → String → Operation
  unfolding first_status
  new_operation r c resource m runtime impact = record {
    id = d.new_id;
    org_id = r.organization_id;
    resource_id = some r.resource_id;
    connection_id = c.id;
    connection_revision = c.revision;
    provider = c.provider;
    native_id = resource.native_id;
    region = resource.region;
    resource_name = resource.name;
    action = r.action;
    expected_status = r.expected_status;
    reason = r.reason;
    requester_id = actor.user_id;
    requester_oidc = actor.oidc;
    approver_id = none;
    approver_oidc = none;
    policy_version = "power-v1";
    status = first_status r;
    idempotency_key = r.idempotency_key;
    approval_expires_at = none;
    expires_at = w.now + 86400;
    lease_until = none;
    next_attempt_at = w.now;
    observation_deadline = none;
    provider_action_id = "";
    observed_status = "";
    detail = "";
    schedule_id = none;
    schedule_revision = 0;
    automation_identity_id = "";
    maintenance_revision = m.revision;
    maintenance_exception_reason = r.maintenance_exception_reason;
    maintenance_expires_at = m.until;
    module_revision = runtime.1;
    runtime_id = runtime.0;
    deletion_impact = impact;
    creation = no_creation;
    resource_kind = if resource.kind == "" then "compute.server" else resource.kind;
    expected_size = r.expected_size;
    target_size = r.target_size;
    template_id = none;
    provider_identity = resource.provider_identity;
    expected_tags = r.expected_tags;
    target_tags = r.target_tags;
  }

  -- The last checks on a reviewed target, and the row that is written.
  unfoldable pub insert_operation :
      OperationInput
      → Option PowerReview
      → Connection
      → List Operation
      → ResourceRow
      → Maintenance
      → String × ℕ
      → Answer Requested
  unfolding is_reviewed reviewed_impact new_operation violates
  insert_operation r review c operations resource m runtime = do
    refuse_if
        (not (
          supports_resource_action (runtime_capabilities w c.provider runtime.0) resource.kind
            r.action))
        (conflict "Selected runtime does not support this action.")
    refuse_if (not (is_reviewed review c runtime m)) (
        conflict
          "The reviewed credential, runtime, or maintenance policy changed. Preview this target again.")
    impact ← reviewed_impact r c resource runtime.0
    let o = new_operation r c resource m runtime impact
    refuse_if (any (violates o) operations) (
        conflict
          "This resource already has pending or uncertain work. Resolve it before requesting another action.")
    done (record {
      id = o.id;
      operations = o ∷ operations;
      effects = audited r.organization_id actor.email "operation.requested" o.id ∷ [];
    })

  -- The part of the transaction that creates the operation, with the resource read again.
  unfoldable pub create_operation :
      OperationInput → Option PowerReview → Connection → List Operation → Answer Requested
  unfolding check_target check_window insert_operation
  create_operation r review c operations = do
    resource ← found (w.resource r.organization_id r.resource_id) denied
    check_target r c resource
    m ← found (w.maintenance r.organization_id c.id) internal
    check_window r m
    runtime ← runtime_for w r.organization_id c.provider 0
    insert_operation r review c operations resource m runtime

  -- What follows the checks: the operation of the key, or a new one.
  unfoldable pub answer_request :
      OperationInput → Option PowerReview → Connection → List Operation → Answer Requested
  unfolding operation_by_key same_input create_operation
  answer_request r review c operations =
      elim (operation_by_key r.organization_id actor.user_id r.idempotency_key operations) [
        | none ↦ create_operation r review c operations
        | some previous ↦
            if same_input previous r
            then done (record { id = previous.id; operations = operations; effects = [] })
            else fault (conflict "This request key belongs to different input.")
      ]

  -- The table of operations is given, and with it what the handler writes.
  unfoldable pub request_operation :
      OperationInput → Option PowerReview → List Operation → Answer Requested
  unfolding trimmed check_inputs check_request answer_request
  request_operation input review operations = do
    let r = trimmed input
    check_inputs (is_set d.call) r
    resource ← found (d.unlocked_resource r.organization_id r.resource_id) denied
    c ← found (d.connection r.organization_id resource.connection_id) internal
    check_request r c resource
    answer_request r review c operations
