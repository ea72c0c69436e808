-- ===== src/Operation/Deletion.antt =====
-- The deletion preview (internal/core/deletion.go): what the provider says a deletion affects.
use providah_community.Prelude.{
  ◌==◌, Bool, not, ◌&&◌, ◌||◌, String, Option, none, some, [], if◌then◌else◌, failed,
}
use providah_community.Provider.Power.{PowerRequest, PowerResult}
use providah_community.Provider.Discovery.{Request, Response, protocol, validate_response}
use providah_community.Provider.Runtime.{supports_resource_action}
use providah_community.Provider.Status.{resource_action_allowed}
use providah_community.Operation.Tables.{
  Connection, ResourceRow, denied, internal, conflict, Answer, done, ◌>>=◌, ◌>>◌, refuse_if, found,
}
use providah_community.Operation.World.{
  World, power_permission, runtime_capabilities, runtime_for, require_module, ownership_guard,
}
use providah_community.Operation.Review.{Actor}

-- What the handlers need besides the queries: the first read of the resource, which comes before the
-- lock, the locked connection, fresh ids, the call to the provider, and the queries after that call.
pub record Desk : Type 0 where
  pub unlocked_resource : String → String → Option ResourceRow
  pub connection : String → String → Option Connection
  pub new_id : String
  pub random_id : String
  pub call : Option (Request → Option Response)
  pub later : World
  pub is_ip : String → Bool

-- `out.Power`, if the call succeeded, the response is valid and it previews the reviewed status.
unfoldable pub previewed : (String → Bool) → Option Response → String → Option PowerResult
previewed is_ip none status = none
previewed is_ip (some response) status =
    if failed (validate_response is_ip response) then none else elim response.power [
      | none ↦ none
      | some p ↦ if p.outcome == "preview" && p.status == status then some p else none
    ]

module _ (w : World) (d : Desk) (actor : Actor) where
  unfoldable pub preview_request : Connection → ResourceRow → String → String → Request
  preview_request c r runtime credential =
      let power : PowerRequest = record {
        key_create = none;
        expected_tags = none;
        target_tags = none;
        expected_identity = "";
        expected_size = "";
        target_size = "";
        resource_kind = if not (r.kind == "compute.server") then r.kind else "";
        create = none;
        deletion_impact = "";
        operation_id = d.random_id;
        phase = "preview";
        action = "delete";
        native_id = r.native_id;
        expected_status = r.status;
        action_id = "";
      } in
      record {
        metrics = none;
        inventory_kinds = [];
        version = protocol;
        runtime_id = runtime;
        organization_id = c.org_id;
        connection_id = c.id;
        provider = c.provider;
        region = r.region;
        credential = credential;
        power = some power;
      }

  unfoldable pub deletion_impact : Connection → ResourceRow → String → Answer String
  unfolding preview_request previewed
  deletion_impact c r runtime = do
    ownership_guard w c.org_id c.id r.kind r.native_id r.region "delete"
    refuse_if
        (not (supports_resource_action (runtime_capabilities w c.provider runtime) r.kind "delete"))
        (conflict "Selected runtime does not support deletion.")
    refuse_if
        (not c.enabled
          || c.deleted
          || not (resource_action_allowed r.kind "delete" r.status)
          || not (power_permission w c.org_id actor.user_id "operations.delete"))
        denied
    call ← found d.call (conflict "Provider execution is not configured.")
    opened ← found (w.open_credential c.ciphertext) internal
    credential ←
        found (w.provider_credential c.provider opened r.region c.org_id c.id)
          (conflict "Could not authenticate to inspect deletion impact.")
    power ← found (previewed d.is_ip (call (preview_request c r runtime credential)) r.status) (
        conflict
          "Could not verify deletion impact. Refresh the resource and check provider permissions or protection settings.")
    refuse_if
        (not (power_permission d.later c.org_id actor.user_id "operations.delete")
          || not (power_permission d.later c.org_id actor.user_id "operations.request"))
        denied
    done power.deletion_impact

  -- The impact and its digest.
  unfoldable pub preview_deletion : String → String → Answer (String × String)
  unfolding deletion_impact
  preview_deletion org id = do
    first ← found (d.unlocked_resource org id) denied
    c ← found (d.connection org first.connection_id) internal
    r ← found (w.resource org id) denied
    require_module w c.org_id c.provider 0
    runtime ← runtime_for w c.org_id c.provider 0
    impact ← deletion_impact c r runtime.0
    done (impact, w.digest impact)
