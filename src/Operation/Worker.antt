-- ===== src/Operation/Worker.antt =====
-- The coordinator's tick and the first transaction of a run: `operationTick`, the query
-- `ClaimOperation`, and what `runOperation` checks before the provider is called.
pub mod Conditions
pub mod Dispatching
pub mod Checks
use providah_community.Prelude.{
  ℕ, ◌+◌, ◌==◌, Bool, true, false, not, ◌&&◌, ◌||◌, String, Option, none, some, [], if◌then◌else◌,
  ltb, leb, eqb,
}
use providah_community.Provider.Tags.{tags_equal}
use providah_community.Provider.Discovery.{Request}
use providah_community.Provider.Runtime.{supports_resource_action}
use providah_community.Operation.Tables.{
  ◌>>=◌, Operation, Connection, awaiting_approval, queued, dispatching, observing, uncertain,
  expired, is_status, internal, conflict, Answer, done, fault, found, Commit, time_of, is_set,
  text_of,
}
use providah_community.Operation.Tables
use providah_community.Operation.World.{
  World, power_permission, has_permission, creation_permitted, module_allowed, operation_authority,
  needs_authority, runtime_capabilities, runtime_available, approval_required, identity_allowed,
  ownership_guard,
}
use providah_community.Operation.Outcome.{save_power_outcome}

-- A commit that changes nothing.
abbrev pub unchanged : Operation → Commit
unchanged o = record { row = o; effects = [] }

-- The body of the tick's loop over pending and dispatched operations.
unfoldable pub expire : ℕ → Operation → Commit
expire now o =
    if is_status o.status dispatching && ltb (time_of o.lease_until) now
    then save_power_outcome now o uncertain
        "Worker ended without a confirmed outcome. Check provider state; do not retry blindly." none
    else if (is_status o.status queued || is_status o.status awaiting_approval)
        && (ltb o.expires_at now
            || is_set o.approval_expires_at && ltb (time_of o.approval_expires_at) now)
    then save_power_outcome now o expired "Request or approval expired before dispatch." none
    else unchanged o

-- The condition of `ClaimOperation` on a row.
unfoldable pub claimable : ℕ → Operation → Bool
claimable now o =
    (is_status o.status queued || is_status o.status observing)
    && (not (is_set o.lease_until) || leb (time_of o.lease_until) now)
    && leb o.next_attempt_at now

-- The update of `ClaimOperation`.
unfoldable pub claim : ℕ → Operation → Operation
claim now o = record o {
  lease_until = some (now + 180);
  status = if is_status o.status queued then dispatching else o.status;
}

-- `if test { failure = message }`.
abbrev pub overrule : Bool → String → Option String → Option String
overrule true message failure = some message
overrule false message failure = failure

module _ (w : World) where
  -- The schedule that made the request must still authorize it, or the requester.
  unfoldable pub check_requester : Operation → Answer (Option String)
  check_requester o =
      if is_set o.schedule_id
      then elim (w.schedule_authorizes o) [
        | none ↦ fault internal
        | some allowed ↦ done (
            overrule (not allowed) "Schedule or scoped automation identity was revoked or changed."
              none)
      ]
      else done (
          overrule (not (power_permission w o.org_id o.requester_id "operations.request"))
            "Requester access was revoked." none)

  -- The authority for the action, of the requester and of the approver, if there is one.
  unfoldable pub authority_revoked : Operation → Bool
  authority_revoked o =
      needs_authority o.action
      && (not (power_permission w o.org_id o.requester_id (operation_authority o.action))
          || is_set o.approver_id
            && not (
                power_permission w o.org_id (text_of o.approver_id) (operation_authority o.action)))

  unfoldable pub check_template : Operation → Option String → Option String
  check_template o failure =
      let revoked : Bool = elim (w.template_status o.org_id (text_of o.template_id)) [
        | none ↦ true
        | some status ↦ status == "revoked"
      ] in
      overrule
        (is_set o.template_id
          && (revoked || not (has_permission w o.org_id o.requester_id "templates.read")))
        "Template was revoked or template access was removed." failure

  unfoldable pub resource_differs : Operation → Bool
  resource_differs o = elim (w.resource o.org_id (text_of o.resource_id)) [
    | none ↦ true
    | some resource ↦
        not (resource.kind == o.resource_kind)
        || not (resource.provider_identity == o.provider_identity)
        || not (resource.status == o.expected_status)
        || o.action == "resize" && not (resource.size == o.expected_size)
        || o.action == "tags" && not (tags_equal resource.tag_metadata o.expected_tags)
  ]

  -- Whether the approval that a dispatch needs is missing, stale, or not independent.
  unfoldable pub unapproved : Operation → Bool
  unapproved o =
      (approval_required w o.org_id o.action (not (o.maintenance_exception_reason == ""))
        || is_set o.approver_id
        || is_set o.schedule_id)
      && (not (is_set o.approver_id)
          || text_of o.approver_id == o.requester_id
          || not (is_set o.approval_expires_at)
          || ltb (time_of o.approval_expires_at) w.now
          || not (power_permission w o.org_id (text_of o.approver_id) "operations.approve"))

  -- The checks of the maintenance windows, against what `maintenanceCheck` answers now.
  unfoldable pub check_maintenance : Operation → ℕ → String → Option String → Option String
  check_maintenance o revision restriction failure =
      let excepted = not (o.maintenance_exception_reason == "") in
      overrule
        (excepted
          && (not (has_permission w o.org_id o.requester_id "maintenance.override")
              || is_set o.approver_id
                && not (has_permission w o.org_id (text_of o.approver_id) "maintenance.override")))
        "Maintenance exception authority was revoked."
        (if not (eqb revision o.maintenance_revision)
          then some "Maintenance policy changed; fresh review is required."
          else overrule (not excepted && not (restriction == "")) restriction (
              overrule
                (not excepted
                  && is_set o.maintenance_expires_at
                  && not (ltb w.now (time_of o.maintenance_expires_at)))
                "The originally reviewed maintenance window ended; fresh review is required."
                failure))

  -- The checks that only a dispatch makes, between the connection and the runtime.
  unfoldable pub check_dispatch : Operation → Connection → Option String → Answer (Option String)
  unfolding check_template resource_differs unapproved check_maintenance
  check_dispatch o c failure = do
    allowed ← module_allowed w o.org_id c.provider o.module_revision
    maintenance ← found (w.maintenance o.org_id c.id) internal
    let unsupported = not (
        supports_resource_action (runtime_capabilities w o.provider o.runtime_id) o.resource_kind
          o.action)
    let early =
        overrule (not allowed) "Provider module was disabled or changed; create a fresh request." (
          overrule unsupported "Original runtime does not support this action." (
            overrule (not (creation_permitted w o.org_id o.action))
              "Organization resource creation was disabled." failure))
    let windows =
        check_maintenance o maintenance.revision maintenance.restriction (check_template o early)
    done (
        overrule (unapproved o)
          "Approval is required by current policy, expired, or approver access was revoked. Submit a fresh request."
          (overrule (ltb o.expires_at w.now || not (o.policy_version == "power-v1"))
            "Request or policy expired."
            (overrule (not (o.action == "create") && resource_differs o)
              "Resource state changed before dispatch." windows)))

  -- The SSO policy, for the requester and for the approver, if there is one.
  unfoldable pub identity_refused : Operation → Bool
  identity_refused o =
      not (identity_allowed w o.org_id o.requester_id o.requester_oidc)
      || is_set o.approver_id
        && not (identity_allowed w o.org_id (text_of o.approver_id) o.approver_oidc)

  -- A resource that managed state owns is left alone.
  unfoldable pub check_ownership : Operation → Option String → Answer (Option String)
  check_ownership o failure =
      elim (ownership_guard w o.org_id o.connection_id o.resource_kind o.native_id o.region
        o.action) [
          | done _ ↦ done failure
          | fault (conflict message) ↦
              done
                (some "Managed IaC state protects this resource. Change its owning configuration.")
          | fault e ↦ fault e
        ]

  -- All checks, in the order of `runOperation`; `none` lets the provider be called.
  unfoldable pub find_failure : Bool → Operation → Connection → Answer (Option String)
  unfolding check_requester authority_revoked check_dispatch identity_refused check_ownership
  find_failure dispatch o c = do
    requested ← check_requester o
    let connected =
        overrule (not c.enabled || c.deleted || not (eqb c.revision o.connection_revision))
          "Connection or credential changed."
          (overrule (authority_revoked o) "Action authority was revoked." requested)
    checked ←
        (if dispatch
          then check_dispatch o c connected
          else done (
              overrule (is_set o.observation_deadline && ltb (time_of o.observation_deadline) w.now)
                "Provider completion could not be confirmed within fifteen minutes." connected))
    let available =
        overrule (dispatch && identity_refused o)
          "Organization SSO policy no longer authorizes the request or approval identity."
          (overrule (not (runtime_available w o.provider o.runtime_id))
            "The original provider runtime is unavailable; restore its approved image before observing this operation."
            checked)
    if dispatch && not (o.action == "create") then check_ownership o available else done available
