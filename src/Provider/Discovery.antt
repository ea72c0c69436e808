-- ===== src/Provider/Discovery.antt =====
-- sdk/provider/discovery.go: what a worker may be asked, and which answers are accepted.
-- `net.ParseIP` succeeding is the parameter `is_ip`.
pub mod Scope
use providah_community.Prelude.{
  ℕ, ◌++◌, ◌==◌, Bool, true, false, not, ◌&&◌, ◌||◌, String, len, Option, none, some, List, [], ◌∷◌,
  Error, fail_if, ◌>>>◌, each, if◌then◌else◌, ltb, contains, length, is_empty, ℤ, pos, eqb_ℤ,
}
use providah_community.Regex.{matches}
use providah_community.Provider.Patterns.{identifier, image_id, region}
use providah_community.Provider.Create.{AuthorizedKey}
use providah_community.Provider.Tags.{Tags, validate_tags}
use providah_community.Provider.Power.{
  PowerRequest, PowerResult, validate_power_request, validate_power_result, is_some,
}
use providah_community.Provider.Metrics.{
  MetricsRequest, MetricsResult, validate_metrics_request, validate_metrics_result,
}

abbrev pub protocol : ℤ
protocol = pos 1

abbrev pub max_resources : ℕ
max_resources = 100000

pub record Request : Type 0 where
  pub metrics : Option MetricsRequest
  pub inventory_kinds : List String
  pub version : ℤ
  pub runtime_id : String
  pub organization_id : String
  pub connection_id : String
  pub provider : String
  pub region : String
  pub credential : String
  pub power : Option PowerRequest

pub record Resource : Type 0 where
  pub catalog : Bool
  pub tags : Option Tags
  pub provider_identity : String
  pub kind : String
  pub native_id : String
  pub name : String
  pub region : String
  pub status : String
  pub public_ip : String
  pub private_ip : String
  pub size : String

pub record Response : Type 0 where
  pub metrics : Option MetricsResult
  pub inventory_kinds : List String
  pub version : ℤ
  pub complete : Bool
  pub resources : List Resource
  pub error : String
  pub power : Option PowerResult

-- The kinds of resources that a cloud has; the empty cloud stands for all of them.
unfoldable pub inventory_kinds : String → List String
inventory_kinds cloud =
    let aws = cloud == "aws" in
    let digitalocean = cloud == "digitalocean" in
    let hetzner = cloud == "hetzner" in
    let every = cloud == "" in
    ("compute.server" ∷ "network.network" ∷ "network.firewall" ∷ "storage.volume"
      ∷ "storage.snapshot" ∷ "compute.image" ∷ "access.ssh_key" ∷ "compute.type"
      ∷ "network.load_balancer" ∷ [])
    ++ ((if not aws then "storage.backup" ∷ [] else [])
        ++ ((if aws || every
              then "storage.bucket" ∷ "network.route_table" ∷ "network.internet_gateway"
                ∷ "network.nat_gateway" ∷ "network.subnet" ∷ "network.ip" ∷ "database.instance"
                ∷ "database.snapshot" ∷ "database.cluster_snapshot" ∷ []
              else [])
            ++ ((if digitalocean then "network.ip" ∷ [] else [])
                ++ ((if digitalocean || every then "network.reserved_ipv6" ∷ [] else [])
                    ++ ((if hetzner || every
                          then "network.primary_ip" ∷ "network.floating_ip" ∷ []
                          else [])
                        ++ ((if aws || hetzner || every then "compute.placement_group" ∷ [] else [])
                            ++ ((if aws || digitalocean || every
                                  then "kubernetes.cluster" ∷ "kubernetes.node_group" ∷ []
                                  else [])
                                ++ ((if digitalocean || every
                                      then "organization.project" ∷ "application.app" ∷ []
                                      else [])
                                    ++ ((if digitalocean || hetzner || every
                                          then "network.certificate" ∷ []
                                          else [])
                                        ++ ((if aws || digitalocean || every
                                              then "database.cluster" ∷ []
                                              else [])
                                            ++ "dns.zone" ∷ "dns.record" ∷ []))))))))))

unfoldable pub resource_kind : Resource → String
resource_kind r = if r.kind == "" then "compute.server" else r.kind

unfoldable pub covered_kinds : Response → List String
covered_kinds r = if is_empty r.inventory_kinds then "compute.server" ∷ [] else r.inventory_kinds

-- The loop of `validKinds`, with the kinds seen.
unfoldable pub valid_kinds_from : List String → List String → Bool
unfolding inventory_kinds
valid_kinds_from [] seen = true
valid_kinds_from (kind ∷ kinds) seen =
    if not (contains (inventory_kinds "") kind) || contains seen kind
    then false
    else valid_kinds_from kinds (kind ∷ seen)

unfoldable pub valid_kinds : List String → Bool
unfolding valid_kinds_from
valid_kinds kinds = valid_kinds_from kinds []

module _ (parse_authorized_key : String → Option AuthorizedKey) (now : ℤ) where
  unfoldable pub check_metrics : Request → Error
  check_metrics r = elim r.metrics [
    | none ↦ none
    | some m ↦
        fail_if (is_some r.power || not (is_empty r.inventory_kinds)) "mixed metrics request"
        >>> validate_metrics_request now r.provider m
  ]

  unfoldable pub check_power : Request → Error
  check_power r = elim r.power [
    | none ↦ none
    | some p ↦
        fail_if (p.action == "create" && r.region == "") "creation requires an explicit region"
        >>> validate_power_request parse_authorized_key r.provider p
  ]

  unfoldable pub validate_request : Request → Error
  unfolding check_metrics check_power
  validate_request r =
      check_metrics r
      >>> fail_if
          (not (valid_kinds r.inventory_kinds)
            || is_some r.power && not (is_empty r.inventory_kinds))
          "invalid inventory scope"
      >>> each
          (λ kind.
            fail_if (not (contains (inventory_kinds r.provider) kind))
              "unsupported inventory scope")
          r.inventory_kinds
      >>> fail_if (not (r.runtime_id == "") && not (matches image_id r.runtime_id))
          "invalid runtime identity"
      >>> check_power r
      >>> fail_if
          (not (eqb_ℤ r.version protocol)
            || not (matches identifier r.organization_id)
            || not (matches identifier r.connection_id))
          "invalid request identity or protocol"
      >>> fail_if
          (not (r.provider == "aws")
            && not (r.provider == "hetzner")
            && not (r.provider == "digitalocean"))
          "unsupported provider"
      >>> fail_if (ltb (len r.credential) 8 || ltb 16384 (len r.credential))
          "invalid credential size"
      >>> fail_if
          (r.provider == "aws" && r.region == ""
            || not (r.region == "") && not (matches region r.region))
          "invalid region"

-- `v.ResourceKind() + "\n" + v.Region + "\n" + v.NativeID`.
unfoldable pub resource_key : Resource → String
unfolding resource_kind
resource_key v =
    let join = Prim.Native.String.◌++◌ in
    join (resource_kind v) (join "\n" (join v.region (join "\n" v.native_id)))

module _ (is_ip : String → Bool) where
  abbrev bad_ip : String → Bool
  bad_ip ip = not (ip == "") && not (is_ip ip)

  -- The loop over the resources, with the keys seen.
  unfoldable pub check_resources : List String → List Resource → List String → Error
  unfolding resource_kind resource_key
  check_resources covered [] seen = none
  check_resources covered (v ∷ resources) seen =
      validate_tags v.tags
      >>> fail_if (not (contains covered (resource_kind v))) "resource outside covered scope"
      >>> fail_if
          (ltb 128 (len v.provider_identity)
            || v.native_id == ""
            || ltb 512 (len v.native_id)
            || ltb 512 (len v.name)
            || ltb 64 (len v.status)
            || ltb 120 (len v.size)
            || not (matches region v.region)
            || contains seen (resource_key v))
          "invalid resource"
      >>> fail_if (bad_ip v.public_ip || bad_ip v.private_ip) "invalid resource address"
      >>> check_resources covered resources (resource_key v ∷ seen)

  unfoldable pub validate_response : Response → Error
  unfolding check_resources covered_kinds
  validate_response r =
      let scope =
        fail_if
          (not (valid_kinds r.inventory_kinds)
            || is_some r.power && not (is_empty r.inventory_kinds))
          "invalid inventory scope" in
      let discovery =
        fail_if
          (not (eqb_ℤ r.version protocol)
            || not r.complete
            || not (r.error == "")
            || ltb max_resources (length r.resources))
          "incomplete discovery"
        >>> check_resources (covered_kinds r) r.resources [] in
      elim r.metrics [
        | some m ↦
            fail_if
              (not (eqb_ℤ r.version protocol)
                || is_some r.power
                || r.complete
                || not (is_empty r.resources)
                || not (is_empty r.inventory_kinds)
                || not (r.error == ""))
              "mixed metrics response"
            >>> validate_metrics_result m
        | none ↦ scope >>> elim r.power [
          | some power ↦
              fail_if
                (not (eqb_ℤ r.version protocol)
                  || r.complete
                  || not (is_empty r.resources)
                  || not (r.error == ""))
                "invalid action response"
              >>> validate_power_result power
          | none ↦ discovery
        ]
      ]
