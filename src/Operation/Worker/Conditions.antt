-- ===== src/Operation/Worker/Conditions.antt =====
-- What must hold of an operation, its connection and the world when a dispatch is sent.
use providah_community.Prelude.{◌≡◌, ◌==◌, true, false, not, ◌||◌, some, eqb, ltb}
use providah_community.Provider.Runtime.{supports_resource_action}
use providah_community.Operation.Tables.{Operation, Connection, done, is_set, text_of, time_of}
use providah_community.Operation.World.{
  World, Maintenance, power_permission, creation_permitted, module_allowed, operation_authority,
  needs_authority, runtime_capabilities, runtime_available, approval_required, identity_allowed,
  ownership_guard,
}
use providah_community.Operation.Worker.{resource_differs, unapproved}

-- The approval that a dispatch needs: by someone else, who still may approve, and not expired.
pub record HasApproval (w : World) (o : Operation) : Type 0 where
  pub given : is_set o.approver_id ≡ true
  pub independent : (text_of o.approver_id == o.requester_id) ≡ false
  pub limited : is_set o.approval_expires_at ≡ true
  pub current : ltb (time_of o.approval_expires_at) w.now ≡ false
  pub permitted : power_permission w o.org_id (text_of o.approver_id) "operations.approve" ≡ true

-- What holds of the operation, its connection and the world when a dispatch is sent.
pub record IsAuthorized (w : World) (o : Operation) (c : Connection) : Type 0 where
  pub enabled : c.enabled ≡ true
  pub not_deleted : c.deleted ≡ false
  pub revision : eqb c.revision o.connection_revision ≡ true
  pub requester :
      is_set o.schedule_id ≡ false
      → power_permission w o.org_id o.requester_id "operations.request" ≡ true
  pub schedule : is_set o.schedule_id ≡ true → w.schedule_authorizes o ≡ some true
  pub authority :
      needs_authority o.action ≡ true
      → (power_permission w o.org_id o.requester_id (operation_authority o.action) ≡ true)
        × (is_set o.approver_id ≡ true
            → power_permission w o.org_id (text_of o.approver_id) (operation_authority o.action)
              ≡ true)
  pub creation : creation_permitted w o.org_id o.action ≡ true
  pub supported :
      supports_resource_action
        (runtime_capabilities w o.provider o.runtime_id)
        o.resource_kind
        o.action
      ≡ true
  pub available : runtime_available w o.provider o.runtime_id ≡ true
  pub provider_module : module_allowed w o.org_id c.provider o.module_revision ≡ done true
  pub unchanged : (o.action == "create") ≡ false → resource_differs w o ≡ false
  pub window :
      (m : Maintenance) × (w.maintenance o.org_id c.id ≡ some m)
      × (eqb m.revision o.maintenance_revision ≡ true)
      × ((o.maintenance_exception_reason == "") ≡ true → (m.restriction == "") ≡ true)
  pub in_time : ltb o.expires_at w.now ≡ false
  pub approval :
      (approval_required w o.org_id o.action (not (o.maintenance_exception_reason == ""))
          || is_set o.approver_id
          || is_set o.schedule_id)
        ≡ true
      → HasApproval w o
  pub identity : identity_allowed w o.org_id o.requester_id o.requester_oidc ≡ true
  pub unowned :
      (o.action == "create") ≡ false
      → ownership_guard w o.org_id o.connection_id o.resource_kind o.native_id o.region o.action
        ≡ done tt

-- The dispatch checks, where they find nothing.
pub record Dispatchable (w : World) (o : Operation) (c : Connection) : Type 0 where
  pub creation : creation_permitted w o.org_id o.action ≡ true
  pub supported :
      supports_resource_action
        (runtime_capabilities w o.provider o.runtime_id)
        o.resource_kind
        o.action
      ≡ true
  pub provider_module : module_allowed w o.org_id c.provider o.module_revision ≡ done true
  pub unchanged : (o.action == "create") ≡ false → resource_differs w o ≡ false
  pub window :
      (m : Maintenance) × (w.maintenance o.org_id c.id ≡ some m)
      × (eqb m.revision o.maintenance_revision ≡ true)
      × ((o.maintenance_exception_reason == "") ≡ true → (m.restriction == "") ≡ true)
  pub in_time : ltb o.expires_at w.now ≡ false
  pub approved : unapproved w o ≡ false
