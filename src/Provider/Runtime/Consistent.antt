-- ===== src/Provider/Runtime/Consistent.antt =====
-- The capabilities of a validated runtime against the checks of a request (Provider/Power).
use providah_community.Prelude.{
  ◌≡◌, ◌==◌, arith, Bool, true, false, String, List, [], ◌∷◌, none, contains, contains-In, All,
  All-In,
}
use providah_community.Provider.Power.{PowerRequest, check_kind, check_cloud}
use providah_community.Provider.Runtime.{
  Runtime, supports_resource_action, validate_runtime, check_deletions, check_catalog, clouds,
}

abbrev kinds : List String
kinds =
    "compute.placement_group" ∷ "organization.project" ∷ "network.load_balancer" ∷ "compute.image"
    ∷ "database.snapshot" ∷ "database.cluster_snapshot" ∷ "database.instance" ∷ "database.cluster"
    ∷ "" ∷ "compute.server" ∷ "access.ssh_key" ∷ "network.network" ∷ "network.firewall"
    ∷ "storage.volume" ∷ "storage.snapshot" ∷ []

abbrev actions : List String
actions = "delete" ∷ "start" ∷ "shutdown" ∷ "create" ∷ []

check_catalog-cloud : (r : Runtime) → check_catalog r ≡ none → contains clouds r.provider ≡ true
unfolding check_catalog
check_catalog-cloud r h = ground arith

validate_runtime_parts :
    (is_time : String → Bool) (r : Runtime)
    → validate_runtime is_time r ≡ none
    → (check_deletions r ≡ none) × (contains clouds r.provider ≡ true)
unfolding validate_runtime
validate_runtime_parts is_time r h = ground (arith, check_catalog-cloud r)

-- A runtime supports nothing on a kind that the list above does not name.
supports-kinds :
    (r : Runtime) (kind action : String)
    → supports_resource_action r kind action ≡ true
    → contains kinds kind ≡ true
unfolding supports_resource_action
supports-kinds r kind action h = ground arith

-- What is to be shown of each kind.
abbrev Passes : Runtime → PowerRequest → String → Type 0
Passes r p kind =
    supports_resource_action r kind p.action ≡ true
    → (kind == "compute.server") ≡ false
    → (check_kind (record p { resource_kind = kind }) ≡ none) × (check_cloud r.provider kind ≡ none)

kinds_pass :
    (r : Runtime) (p : PowerRequest)
    → check_deletions r ≡ none
    → contains clouds r.provider ≡ true
    → All (Passes r p) kinds
unfolding supports_resource_action check_kind check_cloud check_deletions ◌==◌
kinds_pass r p deletions cloud = (
  λ h o. (ground arith, ground arith),
  (
    λ h o. (ground arith, ground arith),
    (
      λ h o. (ground arith, ground arith),
      (
        λ h o. (ground arith, ground arith),
        (
          λ h o. (ground arith, ground arith),
          (
            λ h o. (ground arith, ground arith),
            (
              λ h o. (ground arith, ground arith),
              (
                λ h o. (ground arith, ground arith),
                (
                  λ h o. (ground arith, ground arith),
                  (
                    λ h o. (ground arith, ground arith),
                    (
                      λ h o. (ground arith, ground arith),
                      (
                        λ h o. (ground arith, ground arith),
                        (
                          λ h o. (ground arith, ground arith),
                          (
                            λ h o. (ground arith, ground arith),
                            (λ h o. (ground arith, ground arith), tt),
                          ),
                        ),
                      ),
                    ),
                  ),
                ),
              ),
            ),
          ),
        ),
      ),
    ),
  ),
)

-- What a validated runtime supports, on any kind but a server spelled out, passes the checks of
-- kind and cloud that a request for it meets at the runtime's own cloud.
pub supports-check_cloud :
    (is_time : String → Bool) (r : Runtime) (p : PowerRequest)
    → validate_runtime is_time r ≡ none
    → supports_resource_action r p.resource_kind p.action ≡ true
    → (p.resource_kind == "compute.server") ≡ false
    → (check_kind p ≡ none) × (check_cloud r.provider p.resource_kind ≡ none)
supports-check_cloud is_time r p valid supported other =
    let (deletions, cloud) = validate_runtime_parts is_time r valid in
    let named =
      contains-In kinds p.resource_kind (supports-kinds r p.resource_kind p.action supported) in
    All-In (Passes r p) kinds (kinds_pass r p deletions cloud) named supported other
