-- ===== src/Provider/Status/Progress.antt =====
-- What the status rules of Provider/Status mean for each other.
use providah_community.Prelude.{◌≡◌, refl, ◌==◌, arith, true, false, String, List, [], ◌∷◌, apart}
use providah_community.Provider.Status.{
  power_allowed, power_reached, resource_action_allowed, resource_action_reached,
}

abbrev actions : List String
actions = "delete" ∷ "tags" ∷ "start" ∷ "resize" ∷ "snapshot" ∷ "shutdown" ∷ "restart" ∷ []

abbrev statuses : List String
statuses =
    "running" ∷ "active" ∷ "off" ∷ "stopped" ∷ "terminated" ∷ "deleted" ∷ "available" ∷ "present"
    ∷ "errored" ∷ "completed" ∷ "succeeded" ∷ []

abbrev kinds : List String
kinds =
    "compute.placement_group" ∷ "organization.project" ∷ "network.load_balancer" ∷ "compute.image"
    ∷ "database.snapshot" ∷ "database.cluster_snapshot" ∷ "database.instance" ∷ "database.cluster"
    ∷ "" ∷ "compute.server" ∷ "access.ssh_key" ∷ "network.network" ∷ "network.firewall"
    ∷ "storage.volume" ∷ "storage.snapshot" ∷ []

-- An action other than a restart is allowed on a resource only while its status is not the one
-- that the action is to reach, whatever the kind of the resource.
pub resource_progress :
    (kind action status : String)
    → (action == "restart") ≡ false
    → resource_action_allowed kind action status ≡ true
    → resource_action_reached kind action status ≡ false
unfolding resource_action_allowed resource_action_reached power_allowed power_reached
resource_progress kind action status other h =
    ground (arith, apart kind kinds refl, apart action actions refl, apart status statuses refl)
