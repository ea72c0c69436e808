-- ===== src/Provider/Runtime.antt =====
-- sdk/provider/runtime.go and community.go: the capabilities that a provider runtime announces,
-- their checks, and what a runtime accepts. That `time.Parse(time.RFC3339Nano, …)` succeeds is the
-- parameter `is_time`.
pub mod Consistent
pub mod Catalog
use providah_community.Prelude.{
  ℕ, ◌==◌, Bool, true, false, not, ◌&&◌, ◌||◌, String, len, none, some, List, [], ◌∷◌, Error,
  fail_if, ◌>>>◌, each, if◌then◌else◌, ltb, contains, length, is_empty, all, ℤ, pos, ltb_ℤ, eqb_ℤ,
}
use providah_community.Regex.{matches}
use providah_community.Provider.Patterns.{image_id}
use providah_community.Provider.Status.{network_delete_kind, database_snapshot_kind, database_kind}
use providah_community.Provider.Power.{action_words}
use providah_community.Provider.Discovery.{Request, inventory_kinds, valid_kinds, protocol}

pub record Runtime : Type 0 where
  pub ssh_key_create : Bool
  pub placement_group_delete : Bool
  pub project_delete : Bool
  pub image_delete : Bool
  pub private_network_create : Bool
  pub publisher_key_id : String
  pub approval_expires_at : String
  pub load_balancer_delete : Bool
  pub database_snapshot_delete : Bool
  pub security_group_delete : Bool
  pub ssh_key_delete : Bool
  pub network_delete : Bool
  pub database_power : Bool
  pub volume_delete : Bool
  pub snapshot_delete : Bool
  pub metrics : Bool
  pub capabilities_version : ℤ
  pub inventory_kinds : List String
  pub actions : List String
  pub provider : String
  pub image : String
  pub version : String
  pub sdk_version : String
  pub protocol : ℤ

abbrev pub is_version : Runtime → ℕ → Bool
is_version r n = eqb_ℤ r.capabilities_version (pos n)

unfoldable pub discovery_kinds : Runtime → List String
discovery_kinds r = if is_version r 0 then "compute.server" ∷ [] else r.inventory_kinds

unfoldable pub operation_actions : Runtime → List String
operation_actions r = if is_version r 0 then "start" ∷ "shutdown" ∷ "restart" ∷ [] else r.actions

unfoldable pub supports_action : Runtime → String → Bool
unfolding operation_actions
supports_action r action = contains (operation_actions r) action

unfoldable pub supports_resource_action : Runtime → String → String → Bool
supports_resource_action r kind action =
    let collected = contains r.inventory_kinds kind in
    let deletes = action == "delete" && supports_action r "delete" in
    if kind == "" || kind == "compute.server"
    then supports_action r action
    else if kind == "compute.placement_group"
    then r.placement_group_delete
      && (r.provider == "aws" || r.provider == "hetzner")
      && is_version r 1
      && collected
      && deletes
    else if kind == "network.load_balancer"
    then r.load_balancer_delete
      && (r.provider == "aws" || r.provider == "digitalocean" || r.provider == "hetzner")
      && collected
      && deletes
    else if kind == "organization.project"
    then r.project_delete && r.provider == "digitalocean" && is_version r 1 && collected && deletes
    else if kind == "compute.image"
    then r.image_delete && r.provider == "aws" && is_version r 1 && collected && deletes
    else if database_snapshot_kind kind
    then r.provider == "aws" && r.database_snapshot_delete && collected && deletes
    else if database_kind kind
    then r.provider == "aws"
      && r.database_power
      && collected
      && (action == "start" || action == "shutdown")
      && supports_action r action
    else if kind == "access.ssh_key" && action == "create"
    then r.ssh_key_create && is_version r 1 && collected && supports_action r "create"
    else if kind == "access.ssh_key"
    then r.ssh_key_delete && collected && deletes
    else if r.provider == "aws" && kind == "network.firewall"
    then r.security_group_delete && collected && deletes
    else if network_delete_kind kind
    then r.network_delete && not (r.provider == "aws") && collected && deletes
    else if kind == "storage.volume"
    then action == "delete" && r.volume_delete && supports_action r "delete"
    else kind == "storage.snapshot"
      && action == "delete"
      && r.snapshot_delete
      && supports_action r "delete"

-- The loop over the announced actions, with those seen.
unfoldable pub check_actions : List String → List String → Error
check_actions [] seen = none
check_actions (action ∷ actions) seen =
    fail_if (not (contains action_words action) || contains seen action) "invalid runtime action"
    >>> check_actions actions (action ∷ seen)

-- The capabilities that only some clouds have, in the order of `Validate`.
unfoldable pub check_creations : Runtime → Error
check_creations r =
    fail_if
      (r.ssh_key_create
        && (not (is_version r 1)
            || not (supports_action r "create")
            || not (contains r.inventory_kinds "access.ssh_key")))
      "invalid public key creation capability"
    >>> fail_if
        (r.placement_group_delete
          && (not (is_version r 1)
              || not (r.provider == "aws") && not (r.provider == "hetzner")
              || not (supports_action r "delete")
              || not (contains r.inventory_kinds "compute.placement_group")))
        "invalid placement deletion capability"
    >>> fail_if (r.project_delete && (not (r.provider == "digitalocean") || not (is_version r 1)))
        "invalid project deletion capability"
    >>> fail_if (r.image_delete && (not (r.provider == "aws") || not (is_version r 1)))
        "invalid image deletion capability"
    >>> fail_if
        (r.private_network_create
          && (not (is_version r 1)
              || not (r.provider == "digitalocean") && not (r.provider == "hetzner")
              || not (supports_action r "create")))
        "invalid private network creation capability"

unfoldable pub check_deletions : Runtime → Error
check_deletions r =
    fail_if
      (r.load_balancer_delete
        && (not (is_version r 1)
            || not (r.provider == "aws")
              && not (r.provider == "digitalocean")
              && not (r.provider == "hetzner")))
      "invalid load balancer deletion capability"
    >>> fail_if (r.database_snapshot_delete && (not (r.provider == "aws") || not (is_version r 1)))
        "invalid database snapshot deletion capability"
    >>> fail_if (r.security_group_delete && (not (r.provider == "aws") || not (is_version r 1)))
        "invalid security group deletion capability"
    >>> fail_if (r.ssh_key_delete && not (is_version r 1)) "invalid SSH key deletion capability"
    >>> fail_if
        (r.network_delete
          && (not (is_version r 1)
              || not (r.provider == "digitalocean") && not (r.provider == "hetzner")))
        "invalid network delete capability"
    >>> fail_if (r.database_power && (not (r.provider == "aws") || not (is_version r 1)))
        "invalid database power capability"

abbrev pub clouds : List String
clouds = "aws" ∷ "digitalocean" ∷ "hetzner" ∷ []

-- `(a == "") != (b == "")`.
abbrev one_empty : Bool → Bool → Bool
one_empty true b = not b
one_empty false b = b

unfoldable pub check_catalog : Runtime → Error
unfolding check_actions
check_catalog r =
    fail_if
      (ltb_ℤ r.capabilities_version (pos 0)
        || ltb_ℤ (pos 1) r.capabilities_version
        || not (valid_kinds r.inventory_kinds)
        || is_version r 0
          && (r.volume_delete
              || r.snapshot_delete
              || r.metrics
              || not (is_empty r.inventory_kinds)
              || not (is_empty r.actions)))
      "invalid runtime capabilities"
    >>> check_actions r.actions []
    >>> each
        (λ kind.
          fail_if (not (contains (inventory_kinds r.provider) kind))
            "unsupported runtime inventory kind")
        r.inventory_kinds
    >>> fail_if
        (not (contains clouds r.provider)
          || not (matches image_id r.image)
          || not (eqb_ℤ r.protocol protocol)
          || ltb (len r.version) 1
          || ltb 80 (len r.version)
          || ltb (len r.sdk_version) 1
          || ltb 80 (len r.sdk_version))
        "incompatible provider runtime"

-- `r.Provider + ":" + r.Image`.
unfoldable pub runtime_key : Runtime → String
runtime_key r = Prim.Native.String.◌++◌ r.provider (Prim.Native.String.◌++◌ ":" r.image)

module _ (is_time : String → Bool) where
  unfoldable pub validate_runtime : Runtime → Error
  validate_runtime r =
      check_creations r
      >>> fail_if
          (one_empty (r.publisher_key_id == "") (r.approval_expires_at == "")
            || ltb 80 (len r.publisher_key_id))
          "invalid runtime approval metadata"
      >>> fail_if (not (r.approval_expires_at == "") && not (is_time r.approval_expires_at))
          "invalid runtime approval expiry"
      >>> check_deletions r
      >>> check_catalog r

  -- The loop of `ValidateRuntimes`, with the keys seen.
  unfoldable pub check_runtimes : List Runtime → List String → Error
  check_runtimes [] seen = none
  check_runtimes (r ∷ rs) seen =
      validate_runtime r
      >>> fail_if (contains seen (runtime_key r)) "duplicate provider runtime"
      >>> check_runtimes rs (runtime_key r ∷ seen)

  unfoldable pub validate_runtimes : List Runtime → Error
  unfolding check_runtimes
  validate_runtimes rs =
      fail_if (is_empty rs || ltb 32 (length rs)) "runtime catalog must contain 1–32 entries"
      >>> check_runtimes rs []

unfoldable pub accepts : Runtime → Request → Bool
accepts r request =
    let kinds =
      if is_empty request.inventory_kinds then "compute.server" ∷ [] else request.inventory_kinds in
    elim request.metrics [
      | some m ↦ r.metrics
      | none ↦ elim request.power [
        | some p ↦ supports_resource_action r p.resource_kind p.action
        | none ↦
            if is_version r 0 && not (is_empty request.inventory_kinds)
            then false
            else all (λ kind. contains (discovery_kinds r) kind) kinds
      ]
    ]

unfoldable pub community_action : String → String → Bool
community_action cloud kind =
    not (cloud == "aws")
    || not (database_kind kind)
      && not (database_snapshot_kind kind)
      && not (kind == "network.load_balancer")

unfoldable pub community_runtime : Runtime → Runtime
community_runtime r =
    if r.provider == "aws"
    then record r {
      database_power = false;
      database_snapshot_delete = false;
      load_balancer_delete = false;
    }
    else r
