-- ===== src/Operation/World.antt =====
-- What the handlers read besides the operation: queries, clock, configuration and credentials, and
-- the small decisions that several handlers share.
use providah_community.Prelude.{
  ℕ, ◌==◌, Bool, true, false, not, ◌&&◌, ◌||◌, String, Option, none, some, List, [], ◌∷◌,
  if◌then◌else◌, contains, is_empty, eqb, ℤ, pos,
}
use providah_community.Provider.Create.{AuthorizedKey}
use providah_community.Provider.Runtime.{Runtime, community_runtime}
use providah_community.Provider.Power.{action_words}
use providah_community.Provider.Discovery.{inventory_kinds}
use mathlib.Core.Option
use providah_community.Operation.Tables.{
  ResourceRow, Operation, Answer, done, fault, internal, conflict, refuse_if, found, ◌>>=◌, ◌>>◌,
  is_set,
}

-- A row of `GetResourcePolicy`.
pub record ResourcePolicy : Type 0 where
  pub approval_actions : List String
  pub creation_enabled : Bool

-- A row of `GetProviderModule`.
pub record ModuleRow : Type 0 where
  pub enabled : Bool
  pub revision : ℕ
  pub runtime_id : String

-- What `maintenanceCheck` answers: the revision, the restriction ("" for none), and the end of the
-- window, if there is one.
pub record Maintenance : Type 0 where
  pub revision : ℕ
  pub restriction : String
  pub until : Option ℕ

-- The answers of the queries and of the configuration during one transaction; `none` is an error
-- of the query or a missing row.
pub record World : Type 0 where
  pub now : ℕ
  pub permissions : String → String → Option (List String)
  pub policy : String → Option ResourcePolicy
  pub identity_allows : String → String → Option String → Option Bool
  pub module_row : String → String → Option ModuleRow
  pub resource : String → String → Option ResourceRow
  pub maintenance : String → String → Option Maintenance
  pub owners : String → String → String → String → String → Option (List String)
  pub schedule_authorizes : Operation → Option Bool
  pub template_status : String → String → Option String
  pub provider_runtimes : List Runtime
  pub runtime_policy : Option (Runtime → Runtime)
  pub open_credential : String → Option String
  pub provider_credential : String → String → String → String → String → Option String
  pub parse_authorized_key : String → Option AuthorizedKey
  pub unix : ℤ
  pub digest : String → String
  pub resource_id_of : String → String → String → String → String → String

abbrev pub no_capabilities : String → Runtime
no_capabilities cloud = record {
  ssh_key_create = false;
  placement_group_delete = false;
  project_delete = false;
  image_delete = false;
  private_network_create = false;
  publisher_key_id = "";
  approval_expires_at = "";
  load_balancer_delete = false;
  database_snapshot_delete = false;
  security_group_delete = false;
  ssh_key_delete = false;
  network_delete = false;
  database_power = false;
  volume_delete = false;
  snapshot_delete = false;
  metrics = false;
  capabilities_version = pos 1;
  inventory_kinds = [];
  actions = [];
  provider = cloud;
  image = "";
  version = "";
  sdk_version = "";
  protocol = pos 0;
}

-- The capabilities of an in-process provider, where no runtime is configured.
abbrev pub in_process : String → Runtime
in_process cloud =
    let base = no_capabilities cloud in
    record base {
      placement_group_delete = cloud == "aws" || cloud == "hetzner";
      project_delete = cloud == "digitalocean";
      image_delete = cloud == "aws";
      private_network_create = not (cloud == "aws");
      load_balancer_delete = true;
      database_snapshot_delete = cloud == "aws";
      security_group_delete = cloud == "aws";
      ssh_key_create = true;
      ssh_key_delete = true;
      network_delete = not (cloud == "aws");
      database_power = cloud == "aws";
      volume_delete = true;
      snapshot_delete = true;
      metrics = true;
      inventory_kinds = inventory_kinds cloud;
      actions = action_words;
    }

unfoldable pub find_runtime : String → String → List Runtime → Option Runtime
find_runtime cloud image [] = none
find_runtime cloud image (r ∷ rs) =
    if r.provider == cloud && r.image == image then some r else find_runtime cloud image rs

unfoldable pub first_image : String → List Runtime → String
first_image cloud [] = ""
first_image cloud (r ∷ rs) = if r.provider == cloud then r.image else first_image cloud rs

module _ (w : World) where
  unfoldable pub runtime_available : String → String → Bool
  unfolding find_runtime
  runtime_available cloud id =
      if is_empty w.provider_runtimes
      then id == ""
      else is_set (find_runtime cloud id w.provider_runtimes)

  unfoldable pub selected_runtime : String → String → String
  unfolding first_image
  selected_runtime cloud selected =
      if not (selected == "") then selected else first_image cloud w.provider_runtimes

  -- The deferred policy is applied to what the lookup finds.
  unfoldable pub runtime_capabilities : String → String → Runtime
  unfolding find_runtime community_runtime
  runtime_capabilities cloud image =
      let runtime =
        if is_empty w.provider_runtimes
        then in_process cloud
        else Option.get_or (find_runtime cloud image w.provider_runtimes) (no_capabilities cloud) in
      elim w.runtime_policy [ none ↦ community_runtime runtime | some policy ↦ policy runtime ]

  unfoldable pub has_permission : String → String → String → Bool
  has_permission org uid permission = elim (w.permissions org uid) [
    | none ↦ false
    | some perms ↦ contains perms permission
  ]

  unfoldable pub power_permission : String → String → String → Bool
  power_permission org uid permission = elim (w.permissions org uid) [
    | none ↦ false
    | some perms ↦ contains perms permission && contains perms "resources.read"
  ]

  -- A failed policy read forbids creation.
  unfoldable pub creation_permitted : String → String → Bool
  creation_permitted org action =
      if not (action == "create") && not (action == "snapshot")
      then true
      else elim (w.policy org) [ none ↦ false | some policy ↦ policy.creation_enabled ]

  -- A failed policy read requires approval.
  unfoldable pub approval_required : String → String → Bool → Bool
  approval_required org action maintenance_exception = elim (w.policy org) [
    | none ↦ true
    | some policy ↦
        contains policy.approval_actions action
        || maintenance_exception && not (is_empty policy.approval_actions)
  ]

  unfoldable pub identity_allowed : String → String → Option String → Bool
  identity_allowed org user login = elim (w.identity_allows org user login) [
    | none ↦ false
    | some allowed ↦ allowed
  ]

  unfoldable pub module_allowed : String → String → ℕ → Answer Bool
  module_allowed org cloud revision = elim (w.module_row org cloud) [
    | none ↦ fault internal
    | some state ↦ done (state.enabled && (eqb revision 0 || eqb revision state.revision))
  ]

  unfoldable pub require_module : String → String → ℕ → Answer (Unit {0})
  unfolding module_allowed
  require_module org cloud revision = do
    allowed ← module_allowed org cloud revision
    refuse_if (not allowed)
        (conflict "Provider module is disabled or changed; review fresh work after enabling it.")

  -- The runtime and the module's revision.
  unfoldable pub runtime_for : String → String → ℕ → Answer (String × ℕ)
  runtime_for org cloud expected = do
    state ← found (w.module_row org cloud) internal
    refuse_if (not state.enabled || not (eqb expected 0) && not (eqb state.revision expected))
        (conflict "Provider module changed; fresh review is required.")
    refuse_if (not (runtime_available cloud (selected_runtime cloud state.runtime_id)))
        (conflict "The selected provider runtime is unavailable. Choose an approved runtime.")
    done (selected_runtime cloud state.runtime_id, state.revision)

  unfoldable pub ownership_action_allowed : String → Bool
  ownership_action_allowed action =
      contains ("start" ∷ "shutdown" ∷ "restart" ∷ "snapshot" ∷ []) action

  unfoldable pub ownership_guard :
      String → String → String → String → String → String → Answer (Unit {0})
  unfolding ownership_action_allowed
  ownership_guard org connection kind native region action =
      if ownership_action_allowed action
      then done tt
      else elim (w.owners org connection kind native region) [
        | none ↦ fault internal
        | some owners ↦ refuse_if (not (is_empty owners)) (
            conflict
              "This resource is referenced by managed IaC state. Change its owning configuration instead of editing or deleting it directly.")
      ]

-- `operationAuthority`.
unfoldable pub operation_authority : String → String
operation_authority action =
    if action == "snapshot"
    then "operations.create"
    else Prim.Native.String.◌++◌ "operations." action

-- The actions that need an authority of their own.
unfoldable pub needs_authority : String → Bool
needs_authority action = action == "delete" || action == "create" || action == "snapshot"
