-- ===== src/Provider/Status.antt =====
-- sdk/provider/power.go: the kinds of resources, and which actions their status allows and reaches.
pub mod Progress
use providah_community.Prelude.{
  ◌==◌, Bool, true, false, ◌&&◌, ◌||◌, String, [], ◌∷◌, contains, if◌then◌else◌,
}

abbrev pub network_delete_kind : String → Bool
network_delete_kind kind = kind == "network.network" || kind == "network.firewall"

abbrev pub database_snapshot_kind : String → Bool
database_snapshot_kind kind = kind == "database.snapshot" || kind == "database.cluster_snapshot"

abbrev pub database_kind : String → Bool
database_kind kind = kind == "database.instance" || kind == "database.cluster"

-- The `switch` on the action; an action that no case names is `false`.
unfoldable pub power_allowed : String → String → Bool
power_allowed action status =
    if action == "delete" || action == "tags"
    then status == "running" || status == "active" || status == "off" || status == "stopped"
    else if action == "start" || action == "resize" || action == "snapshot"
    then status == "off" || status == "stopped"
    else if action == "shutdown" || action == "restart"
    then status == "running" || status == "active"
    else false

unfoldable pub power_reached : String → String → Bool
power_reached action status =
    if action == "delete"
    then status == "terminated" || status == "deleted"
    else if action == "start" || action == "restart"
    then status == "running" || status == "active"
    else if action == "shutdown"
    then status == "off" || status == "stopped"
    else false

unfoldable pub resource_action_reached : String → String → String → Bool
resource_action_reached kind action status =
    if database_kind kind
    then (action == "start" && status == "available")
      || (action == "shutdown" && status == "stopped")
    else power_reached action status

unfoldable pub resource_action_allowed : String → String → String → Bool
resource_action_allowed kind action status =
    if kind == "compute.placement_group"
    then action == "delete" && (status == "present" || status == "available")
    else if kind == "organization.project"
    then action == "delete" && status == "present"
    else if kind == "network.load_balancer"
    then action == "delete" && contains ("active" ∷ "errored" ∷ "present" ∷ []) status
    else if kind == "compute.image"
    then action == "delete" && status == "available"
    else if database_snapshot_kind kind
    then action == "delete" && status == "available"
    else if database_kind kind
    then (action == "start" && status == "stopped")
      || (action == "shutdown" && status == "available")
    else if kind == "" || kind == "compute.server"
    then power_allowed action status
    else if kind == "access.ssh_key"
    then action == "delete" && status == "present"
    else if network_delete_kind kind
    then action == "delete"
      && (status == "present" || kind == "network.firewall" && status == "succeeded")
    else if kind == "storage.volume"
    then action == "delete" && status == "available"
    else kind == "storage.snapshot"
      && action == "delete"
      && contains ("available" ∷ "completed" ∷ "present" ∷ []) status
