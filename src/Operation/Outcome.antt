-- ===== src/Operation/Outcome.antt =====
-- Saving the outcome of an operation (`savePowerOutcome`, `SaveOperationOutcome`, the mark queries).
use providah_community.Prelude.{
  ℕ, ◌+◌, ◌==◌, not, ◌&&◌, ◌||◌, ◌++◌, String, Option, none, some, List, [], ◌∷◌, if◌then◌else◌,
}
use providah_community.Provider.Status.{database_snapshot_kind, network_delete_kind}
use providah_community.Provider.Tags.{tags_equal}
use providah_community.Provider.Power.{PowerResult}
use providah_community.Operation.Tables.{
  Operation, Status, awaiting_approval, queued, dispatching, observing, succeeded, failed,
  uncertain, rejected, canceled, expired, resolved, is_status, Effect, audited, tags_observed,
  marked_deleted, Mark, Commit, is_set,
}

-- The status as the audit trail spells it.
unfoldable pub status_text : Status → String
status_text awaiting_approval = "awaiting_approval"
status_text queued = "queued"
status_text dispatching = "dispatching"
status_text observing = "observing"
status_text succeeded = "succeeded"
status_text failed = "failed"
status_text uncertain = "uncertain"
status_text rejected = "rejected"
status_text canceled = "canceled"
status_text expired = "expired"
status_text resolved = "resolved"

-- `SaveOperationOutcome`.
unfoldable pub save_operation_outcome :
    ℕ → Operation → Status → String → String → String → Operation
save_operation_outcome now o status action_id observed detail =
    let row = record o {
      status = status;
      provider_action_id = action_id;
      observed_status = observed;
      detail = detail;
      next_attempt_at = now + 5;
      observation_deadline =
          if is_set o.observation_deadline then o.observation_deadline else some (now + 900);
      lease_until = if is_status status observing then none else o.lease_until;
    } in
    row

-- Which query marks the deleted resource.
unfoldable pub mark_of : String → Mark
mark_of kind =
    if kind == "compute.placement_group"
    then Mark.placement_group
    else if kind == "organization.project"
    then Mark.project
    else if kind == "compute.image"
    then Mark.image
    else if database_snapshot_kind kind
    then Mark.database_snapshot
    else if kind == "storage.snapshot"
    then Mark.snapshot
    else if kind == "access.ssh_key"
    then Mark.ssh_key
    else if network_delete_kind kind || kind == "network.load_balancer"
    then Mark.network
    else if kind == "storage.volume"
    then Mark.volume
    else Mark.server_row

-- A text of the result, or the one that the row has, where it is empty.
abbrev or_kept : String → String → String
or_kept reported kept = if not (reported == "") then reported else kept

abbrev action_id_of : Operation → Option PowerResult → String
action_id_of o none = o.provider_action_id
action_id_of o (some result) = or_kept result.action_id o.provider_action_id

abbrev status_of : Operation → Option PowerResult → String
status_of o none = o.observed_status
status_of o (some result) = or_kept result.status o.observed_status

-- The observed tags are stored where they are the ones requested.
unfoldable pub tag_effects : Operation → Status → Option PowerResult → List Effect
tag_effects o status none = []
tag_effects o status (some result) =
    if o.action == "tags" && is_status status succeeded && tags_equal result.tags o.target_tags
    then tags_observed result.tags ∷ []
    else []

unfoldable pub save_power_outcome : ℕ → Operation → Status → String → Option PowerResult → Commit
unfolding save_operation_outcome mark_of tag_effects status_text
save_power_outcome now o status detail result = record {
  row = save_operation_outcome now o status (action_id_of o result) (status_of o result) detail;
  effects =
      tag_effects o status result
      ++ ((if o.action == "delete" && is_status status succeeded
            then marked_deleted (mark_of o.resource_kind) ∷ []
            else [])
          ++ audited o.org_id "system:operations"
              (Prim.Native.String.◌++◌ "operation." (status_text status)) o.id
            ∷ []);
}
