-- ===== src/Operation/Review.antt =====
-- Decisions of people about an operation: ReviewOperation, CancelOperation, ReconcileOperation and
-- ResolveOperation. Each runs on the locked row, with its connection locked before it.
pub mod Independent
use providah_community.Prelude.{
  ℕ, ◌+◌, ◌==◌, Bool, true, false, not, ◌&&◌, ◌||◌, ◌++◌, String, len, Option, none, some, List, [],
  ◌∷◌, if◌then◌else◌, ltb, leb, eqb, trim_space,
}
use providah_community.Operation.Tables.{
  Operation, Connection, ResourceRow, Status, awaiting_approval, queued, observing, uncertain,
  rejected, canceled, resolved, is_status, Fault, denied, internal, invalid, conflict, Answer, done,
  fault, ◌>>=◌, ◌>>◌, refuse_if, found, Effect, audited, Commit, time_of, is_set, text_of,
}
use providah_community.Operation.World.{
  World, power_permission, has_permission, creation_permitted, require_module, operation_authority,
  needs_authority,
}
use providah_community.Operation.Outcome.{save_power_outcome, status_text}

-- The signed-in user.
pub record Actor : Type 0 where
  pub user_id : String
  pub email : String
  pub oidc : Option String

-- `len(reason) < low || len(reason) > high` of the trimmed reason.
abbrev pub bad_length : String → ℕ → ℕ → Bool
bad_length s low high = ltb (len s) low || ltb high (len s)

module _ (w : World) (actor : Actor) where
  -- Whether the actor is independent of the request and holds the authority to decide it.
  unfoldable pub check_approver : Operation → Answer (Unit {0})
  check_approver o = do
    refuse_if
        (not (power_permission w o.org_id actor.user_id "operations.approve")
          || o.requester_id == actor.user_id)
        denied
    refuse_if
        (needs_authority o.action
          && not (power_permission w o.org_id actor.user_id (operation_authority o.action)))
        denied

  -- Whether the resource is gone or has another status than the reviewed one.
  unfoldable pub resource_changed : Operation → Bool
  resource_changed o = elim (w.resource o.org_id (text_of o.resource_id)) [
    | none ↦ true
    | some resource ↦ not (resource.status == o.expected_status)
  ]

  -- Whether the reviewed target and credential are still those of the request.
  unfoldable pub target_changed : Operation → Connection → Bool
  unfolding resource_changed
  target_changed o c =
      not (o.action == "create") && resource_changed o
      || not (eqb c.revision o.connection_revision)
      || not c.enabled
      || c.deleted

  -- The checks of an approval.
  unfoldable pub check_approval : Operation → Connection → Answer (Unit {0})
  unfolding target_changed
  check_approval o c = do
    refuse_if (not (creation_permitted w o.org_id o.action))
        (conflict "This organization only manages existing resources.")
    require_module w o.org_id c.provider o.module_revision
    maintenance ← found (w.maintenance o.org_id c.id) internal
    refuse_if
        (o.maintenance_exception_reason == ""
          && is_set o.maintenance_expires_at
          && not (ltb w.now (time_of o.maintenance_expires_at)))
        (conflict "The originally reviewed maintenance window ended. Request a new operation.")
    refuse_if (not (eqb maintenance.revision o.maintenance_revision))
        (conflict "Maintenance policy changed. Request a new operation for fresh review.")
    refuse_if
        (not (o.maintenance_exception_reason == "")
          && not (has_permission w o.org_id actor.user_id "maintenance.override"))
        denied
    refuse_if (o.maintenance_exception_reason == "" && not (maintenance.restriction == ""))
        (conflict maintenance.restriction)
    refuse_if (target_changed o c)
        (conflict "The target or credential changed. Request a new operation.")

  -- The query `ReviewOperation`.
  unfoldable pub decide : Operation → Status → String → Commit
  decide o status reason = record {
    row = record o {
      status = status;
      approver_id = some actor.user_id;
      approval_expires_at = some (w.now + 3600);
      detail = reason;
      approver_oidc = actor.oidc;
    };
    effects = audited o.org_id actor.email "operation.reviewed" o.id ∷ [];
  }

  unfoldable pub review_operation : Bool → String → Operation → Connection → Answer Commit
  unfolding check_approver check_approval decide
  review_operation approve reason o c = do
    refuse_if (bad_length (trim_space reason) 3 500) (invalid "Provide a review reason.")
    check_approver o
    refuse_if (not (is_status o.status awaiting_approval) || ltb o.expires_at w.now)
        (conflict "This request is no longer awaiting approval.")
    if approve then check_approval o c else done tt
    done (decide o (if approve then queued else rejected) (trim_space reason))

  unfoldable pub cancel_operation : Operation → Connection → Answer Commit
  cancel_operation o c = do
    refuse_if
        (not (power_permission w o.org_id actor.user_id "operations.request")
          || not (o.requester_id == actor.user_id))
        denied
    refuse_if (not (is_status o.status queued) && not (is_status o.status awaiting_approval))
        (conflict "Only work not yet dispatched can be canceled.")
    let saved = save_power_outcome w.now o canceled "Canceled before dispatch." none
    done (record {
      row = saved.row;
      effects =
          saved.effects ++ audited o.org_id actor.email "operation.canceled_by_requester" o.id ∷ [];
    })

  -- The query `RecheckOperation`.
  unfoldable pub recheck : Operation → Operation
  recheck o = record o {
    status = observing;
    lease_until = none;
    next_attempt_at = w.now;
    observation_deadline = some (w.now + 900);
    detail = "Checking provider state; no action will be resubmitted.";
  }

  unfoldable pub reconcile_operation : Operation → Connection → Answer Commit
  unfolding recheck
  reconcile_operation o c = do
    refuse_if (not (power_permission w o.org_id actor.user_id "operations.request")) denied
    refuse_if (not (is_status o.status uncertain) || ltb w.now (time_of o.lease_until))
        (conflict "Wait for the worker lease to expire before checking uncertain work.")
    refuse_if (not c.enabled || not (eqb c.revision o.connection_revision) || c.deleted) (
        conflict
          "The connection changed. Verify the provider state and resolve this operation manually.")
    done (record {
      row = recheck o;
      effects = audited o.org_id actor.email "operation.reconciliation_requested" o.id ∷ [];
    })

  unfoldable pub resolve_operation : String → Operation → Connection → Answer Commit
  unfolding check_approver
  resolve_operation reason o c = do
    refuse_if (bad_length (trim_space reason) 10 500)
        (invalid "Describe how you verified the provider state (10–500 characters).")
    check_approver o
    refuse_if (not (is_status o.status uncertain) || ltb w.now (time_of o.lease_until))
        (conflict "Wait until uncertain work is outside its worker lease before resolving it.")
    let saved = save_power_outcome w.now o resolved (trim_space reason) none
    done (record {
      row = saved.row;
      effects =
          saved.effects ++ audited o.org_id actor.email "operation.manually_resolved" o.id ∷ [];
    })
