-- ===== src/Operation/Settle.antt =====
-- The transaction after the provider call (the end of `runOperation`, and `bindCreatedResource`).
pub mod Success
pub mod Stored
pub mod Confirmed
use providah_community.Prelude.{
  ℕ, ◌+◌, ◌==◌, Bool, true, false, not, ◌&&◌, ◌||◌, ◌++◌, String, Option, none, some, List, [], ◌∷◌,
  if◌then◌else◌, ltb, eqb, failed, contains,
}
use providah_community.Provider.Tags.{tags_equal}
use providah_community.Provider.Status.{power_reached, resource_action_reached}
use providah_community.Provider.Power.{PowerResult}
use providah_community.Provider.Discovery.{Response, validate_response}
use providah_community.Operation.Tables.{
  Operation, Status, dispatching, observing, succeeded, uncertain, is_status, internal, Answer,
  done, fault, ◌>>=◌, Creation, Effect, upserted, refreshed, Commit, time_of,
}
use providah_community.Operation.World.{World}
use providah_community.Operation.Outcome.{save_power_outcome}

-- The status and the detail so far, and the result that will be saved.
pub record Verdict : Type 0 where
  pub status : Status
  pub detail : String
  pub power : Option PowerResult

-- The status that a validated outcome names; "accepted" is observed further.
unfoldable pub outcome_status : String → Status
outcome_status outcome =
    if outcome == "accepted"
    then observing
    else if outcome == "succeeded"
    then succeeded
    else if outcome == "failed"
    then Status.failed
    else uncertain

-- The detail of an error word; the empty text for a word that the table lacks.
unfoldable pub error_detail : String → String
error_detail error =
    if error == "invalid_configuration"
    then "Provider configuration is invalid; no action was submitted."
    else if error == "preflight_failed"
    then "Could not read the target before dispatch; no action was submitted."
    else if error == "state_changed"
    then "The provider state changed after review; no action was submitted."
    else if error == "submission_uncertain"
    then "Submission response was lost. External effects are uncertain; do not retry blindly."
    else if error == "observation_failed"
    then "Provider observation is temporarily unavailable."
    else if error == "provider_failed"
    then "The provider reported that this action failed."
    else ""

unfoldable pub outcome_detail : PowerResult → String
unfolding error_detail
outcome_detail power =
    if power.error == "restart_unverifiable"
    then "Restart was submitted, but completion cannot be proved from the available provider response. Verify it before resolving."
    else if power.outcome == "succeeded"
    then "Provider completion or the requested power state was observed."
    else if power.outcome == "accepted"
    then (if not (power.error == "")
        then "Provider observation unavailable; only reads will be retried."
        else "Submitted; waiting for provider confirmation.")
    else error_detail power.error

-- The result in an answer that came, is valid, and is no preview.
unfoldable pub usable : (String → Bool) → Option Response → Option PowerResult
usable is_ip none = none
usable is_ip (some response) =
    if failed (validate_response is_ip response) then none else elim response.power [
      | none ↦ none
      | some power ↦ if power.outcome == "preview" then none else some power
    ]

unfoldable pub first_verdict : Bool → Option PowerResult → Verdict
unfolding outcome_status outcome_detail
first_verdict dispatch (some power) = record {
  status = outcome_status power.outcome;
  detail = outcome_detail power;
  power = some power;
}
first_verdict dispatch none =
    if dispatch
    then record {
      status = uncertain;
      detail = "Provider response unavailable; external effects are uncertain.";
      power = none;
    }
    else record {
      status = observing;
      detail = "Provider observation unavailable; no action will be resubmitted.";
      power = none;
    }

-- A test of the result; a missing result fails it.
abbrev pub shows : Option PowerResult → (PowerResult → Bool) → Bool
shows none test = false
shows (some power) test = test power

-- A success that the result does not confirm is uncertain.
abbrev pub unconfirmed : Bool → String → Verdict → Verdict
unconfirmed true detail v = record v { status = uncertain; detail = detail }
unconfirmed false detail v = v

abbrev pub unconfirmed_dropped : Bool → String → Verdict → Verdict
unconfirmed_dropped true detail v = record { status = uncertain; detail = detail; power = none }
unconfirmed_dropped false detail v = v

abbrev pub is_success : Verdict → Bool
is_success v = is_status v.status succeeded

unfoldable pub confirm_power : Operation → Verdict → Verdict
confirm_power o v =
    unconfirmed
      (contains ("start" ∷ "shutdown" ∷ "restart" ∷ []) o.action
        && is_success v
        && not (shows v.power (λ p. resource_action_reached o.resource_kind o.action p.status)))
      "The requested resource state was not confirmed by the provider." v

unfoldable pub confirm_snapshot : Operation → Verdict → Verdict
confirm_snapshot o v =
    unconfirmed_dropped
      (o.action == "snapshot"
        && (is_success v || is_status v.status observing)
        && shows v.power (λ p.
          p.error == ""
          && (p.action_id == ""
              || not (o.provider_action_id == "") && not (p.action_id == o.provider_action_id)
              || is_success v && not (p.status == "snapshot_available"))))
      "Snapshot completion could not be confirmed." v

unfoldable pub confirm_tags : Operation → Verdict → Verdict
confirm_tags o v =
    unconfirmed
      (o.action == "tags"
        && is_success v
        && not (shows v.power (λ p. tags_equal p.tags o.target_tags)))
      "Requested tags were not confirmed by the provider." v

unfoldable pub confirm_resize : Operation → Verdict → Verdict
confirm_resize o v =
    unconfirmed
      (o.action == "resize" && is_success v && not (shows v.power (λ p. p.size == o.target_size)))
      "Requested server type was not confirmed by the provider." v

unfoldable pub confirm_delete : Operation → Verdict → Verdict
confirm_delete o v =
    unconfirmed
      (o.action == "delete"
        && is_success v
        && not (shows v.power (λ p. power_reached "delete" p.status)))
      "Deletion could not be confirmed from the provider observation." v

abbrev pub accept_result : Option PowerResult → Option PowerResult
accept_result none = none
accept_result (some p) = some (record p { outcome = "accepted" })

-- A key import that was just dispatched is confirmed by reading it later.
unfoldable pub defer_key : Bool → Operation → Verdict → Verdict
defer_key dispatch o v =
    if o.action == "create"
      && shows v.power (λ p. true)
      && dispatch
      && o.resource_kind == "access.ssh_key"
      && is_success v
    then record {
      status = observing;
      detail = "Public key import submitted; waiting for read-only confirmation.";
      power = accept_result v.power;
    }
    else v

unfoldable pub confirm_create : Operation → Verdict → Verdict
confirm_create o v =
    unconfirmed_dropped
      (o.action == "create"
        && shows v.power (λ p.
          not (p.native_id == "") && not (o.native_id == "") && not (p.native_id == o.native_id)
          || (is_success v || is_status v.status observing) && p.error == "" && p.native_id == ""
          || is_success v
            && (o.resource_kind == "access.ssh_key" && not (p.status == "present")
                || not (o.resource_kind == "access.ssh_key")
                  && not (power_reached "start" p.status))))
      "Created resource identity or completion could not be confirmed." v

-- The verdict on the provider's answer, in the order of `runOperation`.
unfoldable pub judge : Bool → Operation → Option PowerResult → Verdict
unfolding first_verdict confirm_power confirm_snapshot confirm_tags confirm_resize confirm_delete
    defer_key confirm_create
judge dispatch o power = confirm_create o (
    defer_key dispatch o (
      confirm_delete o (
        confirm_resize o
          (confirm_tags o (confirm_snapshot o (confirm_power o (first_verdict dispatch power)))))))

-- `BindCreatedServer`: the identity is bound once.
unfoldable pub bind_created : Operation → String → Option String → Operation
bind_created o native_id resource_id =
    if o.action == "create" && (o.native_id == "" || o.native_id == native_id)
    then record o { native_id = native_id; resource_id = resource_id }
    else o

module _ (w : World) where
  abbrev created_row : Operation → PowerResult → String → Commit
  created_row o p kind = record {
    row =
        bind_created o p.native_id
          (some (w.resource_id_of o.org_id o.connection_id kind o.region p.native_id));
    effects = upserted kind p.native_id p.status ∷ [];
  }

  -- The created resource is stored and bound to the operation; `fault` where the stored input of
  -- the creation cannot be read.
  unfoldable pub bind_created_resource : Operation → PowerResult → Answer Commit
  unfolding bind_created
  bind_created_resource o p =
      if p.native_id == ""
      then done (record { row = o; effects = [] })
      else if o.resource_kind == "access.ssh_key"
      then (if not (p.outcome == "succeeded")
          then done (record { row = bind_created o p.native_id o.resource_id; effects = [] })
          else elim o.creation [
            | Creation.key k ↦ done (created_row o p "access.ssh_key")
            | _ ↦ fault internal
          ])
      else elim o.creation [
        | Creation.server s ↦ done (created_row o p "compute.server")
        | _ ↦ fault internal
      ]

  unfoldable pub bind_if_created : Operation → Verdict → Answer Commit
  unfolding bind_created_resource
  bind_if_created o v =
      let kept : Answer Commit = done (record { row = o; effects = [] }) in
      elim v.power [
        | none ↦ kept
        | some p ↦
            if o.action == "create"
              && (is_status v.status observing || is_status v.status succeeded)
            then bind_created_resource o p
            else kept
      ]

  -- Whether the row is still the one that the job claimed, under its lease.
  unfoldable pub still_claimed : Operation → Operation → Bool
  still_claimed job o =
      is_status o.status job.status
      && eqb (time_of o.lease_until) (time_of job.lease_until)
      && not (ltb (time_of o.lease_until) w.now)

  -- The transaction after the call; `none` where the lease was lost and nothing is written.
  unfoldable pub settle :
      (String → Bool) → Operation → Option Response → Operation → Answer (Option Commit)
  unfolding judge usable bind_if_created still_claimed
  settle is_ip job response o =
      let v = judge (is_status job.status dispatching) o (usable is_ip response) in
      if not (still_claimed job o) then done none else do
        bound ← bind_if_created o v
        let saved = save_power_outcome w.now bound.row v.status v.detail v.power
        done (
            some (record {
              row = saved.row;
              effects = bound.effects ++ (saved.effects ++ refreshed o.connection_id ∷ []);
            }))
