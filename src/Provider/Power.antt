-- ===== src/Provider/Power.antt =====
-- sdk/provider/power.go: the request for an action on one resource, its result, and their checks.
-- `PowerRequest.Validate` is cut into its consecutive checks, in the order of the source.
pub mod Review
use providah_community.Prelude.{
  ◌==◌, Bool, true, false, not, ◌&&◌, ◌||◌, String, len, Option, none, some, [], ◌∷◌, List, Error,
  fail_if, ◌>>>◌, failed, if◌then◌else◌, ltb, contains, occurs, ends, codes,
}
use providah_community.Regex.{Regex, matches, alt, literal, times, empty, class}
use providah_community.Provider.Patterns.{
  identifier, hex, hex_id, positive_id, uuid, database_identity, database_id, snapshot_id,
  classic_load_balancer, load_balancer_arn, server_size, action_id,
}
use providah_community.Provider.Status.{network_delete_kind, database_snapshot_kind, database_kind}
use providah_community.Provider.Create.{
  ServerCreate, SshKeyCreate, AuthorizedKey, validate_server_create, validate_ssh_key_create,
}
use providah_community.Provider.Tags.{Tags, validate_tags, validate_tag_change}

pub record PowerRequest : Type 0 where
  pub key_create : Option SshKeyCreate
  pub expected_tags : Option Tags
  pub target_tags : Option Tags
  pub expected_identity : String
  pub expected_size : String
  pub target_size : String
  pub resource_kind : String
  pub create : Option ServerCreate
  pub deletion_impact : String
  pub operation_id : String
  pub phase : String
  pub action : String
  pub native_id : String
  pub expected_status : String
  pub action_id : String

pub record PowerResult : Type 0 where
  pub tags : Option Tags
  pub size : String
  pub native_id : String
  pub deletion_impact : String
  pub outcome : String
  pub action_id : String
  pub status : String
  pub error : String

abbrev pub is_some {ℓ} : {A : Type ℓ} → Option A → Bool
is_some none = false
is_some (some a) = true

abbrev pub deletable_kinds : List String
deletable_kinds =
    "compute.placement_group" ∷ "organization.project" ∷ "compute.image" ∷ "network.load_balancer"
    ∷ "database.snapshot" ∷ "database.cluster_snapshot" ∷ "storage.snapshot" ∷ "storage.volume"
    ∷ "network.network" ∷ "network.firewall" ∷ "access.ssh_key" ∷ []

abbrev pub action_words : List String
action_words =
    "start" ∷ "shutdown" ∷ "restart" ∷ "delete" ∷ "create" ∷ "resize" ∷ "snapshot" ∷ "tags" ∷ []

unfoldable pub valid_resize : String → String → Bool
valid_resize from to = matches server_size from && matches server_size to && not (from == to)

unfoldable pub check_tags : String → PowerRequest → Error
check_tags cloud p =
    if p.action == "tags"
    then fail_if
        (not (is_some p.expected_tags)
          || not (is_some p.target_tags)
          || failed (validate_tag_change cloud p.expected_tags p.target_tags))
        "invalid tag change"
    else fail_if (is_some p.expected_tags || is_some p.target_tags) "unexpected tag change"

unfoldable pub check_resize : PowerRequest → Error
check_resize p =
    if p.action == "resize"
    then fail_if (not (valid_resize p.expected_size p.target_size)) "invalid resize types"
    else fail_if (not (p.expected_size == "") || not (p.target_size == ""))
        "unexpected resize input"

unfoldable pub check_identity : String → PowerRequest → Error
check_identity cloud p =
    if database_kind p.resource_kind
    then fail_if
        (not (cloud == "aws")
          || not (p.action == "start") && not (p.action == "shutdown")
          || not (matches database_identity p.expected_identity))
        "invalid database power request"
    else fail_if (not (p.expected_identity == "")) "unexpected database identity"

unfoldable pub check_kind : PowerRequest → Error
check_kind p =
    fail_if
      (not (p.resource_kind == "")
        && (not (p.resource_kind == "access.ssh_key") || not (p.action == "create"))
        && not (database_kind p.resource_kind)
        && (not (contains deletable_kinds p.resource_kind) || not (p.action == "delete")))
      "unsupported resource action"

-- Which clouds have which kinds.
unfoldable pub check_cloud : String → String → Error
check_cloud cloud kind =
    fail_if (kind == "compute.placement_group" && not (cloud == "aws") && not (cloud == "hetzner"))
      "unsupported placement group provider"
    >>> fail_if (kind == "organization.project" && not (cloud == "digitalocean"))
        "unsupported project provider"
    >>> fail_if
        (kind == "network.load_balancer"
          && not (cloud == "aws")
          && not (cloud == "digitalocean")
          && not (cloud == "hetzner"))
        "unsupported load balancer provider"
    >>> fail_if ((kind == "compute.image" || database_snapshot_kind kind) && not (cloud == "aws"))
        "unsupported database snapshot provider"
    >>> fail_if
        (network_delete_kind kind
          && not (cloud == "digitalocean")
          && not (cloud == "hetzner")
          && (not (cloud == "aws") || not (kind == "network.firewall")))
        "unsupported network provider"

unfoldable pub check_deletion : PowerRequest → Error
check_deletion p =
    fail_if
      (ltb 16384 (len p.deletion_impact)
        || p.phase == "preview" && not (p.action == "delete")
        || p.action == "delete" && p.phase == "submit" && p.deletion_impact == ""
        || not (p.action == "delete") && not (p.deletion_impact == ""))
      "invalid deletion review"

unfoldable pub check_words : PowerRequest → Error
check_words p =
    fail_if
      (not (matches identifier p.operation_id)
        || not (contains ("submit" ∷ "observe" ∷ "preview" ∷ []) p.phase)
        || not (contains action_words p.action))
      "invalid power action"

-- `strings.Contains(id, "--") || strings.HasSuffix(id, "-")`.
abbrev bad_dashes : String → Bool
bad_dashes id = occurs (codes "--") (codes id) || ends (codes "-") (codes id)

-- The pattern of the target's identity: each assignment replaces the one before.
unfoldable pub native_pattern : String → String → Regex
native_pattern cloud kind =
    let p1 = if cloud == "aws" then literal "i-" hex_id else positive_id in
    let p2 = if database_kind kind then database_id else p1 in
    let p3 = if database_snapshot_kind kind then snapshot_id else p2 in
    let p4 = if kind == "organization.project" then uuid else p3 in
    let p5 =
      if kind == "network.load_balancer" && cloud == "aws"
      then alt classic_load_balancer load_balancer_arn
      else p4 in
    let p6 =
      if kind == "compute.placement_group" && cloud == "aws"
      then literal "pg-" (times 17 (class hex) empty)
      else p5 in
    let p7 =
      if kind == "compute.image"
      then literal "ami-" (alt (times 8 (class hex) empty) (times 17 (class hex) empty))
      else p6 in
    let p8 = if kind == "network.firewall" && cloud == "aws" then literal "sg-" hex_id else p7 in
    let p9 = if kind == "access.ssh_key" && cloud == "aws" then literal "key-" hex_id else p8 in
    let p10 =
      if kind == "storage.snapshot"
      then if cloud == "aws"
        then literal "snap-" hex_id
        else if cloud == "digitalocean"
        then alt positive_id uuid
        else p9
      else p9 in
    let p11 =
      if (network_delete_kind kind || kind == "network.load_balancer") && cloud == "digitalocean"
      then uuid
      else p10 in
    if kind == "storage.volume"
    then if cloud == "aws"
      then literal "vol-" hex_id
      else if cloud == "digitalocean"
      then uuid
      else p11
    else p11

unfoldable pub check_target : String → PowerRequest → Error
check_target cloud p =
    fail_if (database_kind p.resource_kind && bad_dashes p.native_id) "invalid database identifier"
    >>> fail_if (database_snapshot_kind p.resource_kind && bad_dashes p.native_id)
        "invalid snapshot identifier"
    >>> fail_if
        ((not (p.action == "create") || not (p.native_id == ""))
            && not (matches (native_pattern cloud p.resource_kind) p.native_id)
          || ltb 64 (len p.expected_status)
          || ltb 128 (len p.action_id))
        "invalid power target"
    >>> fail_if (not (p.action_id == "") && not (matches action_id p.action_id))
        "invalid action identity"

module _ (parse_authorized_key : String → Option AuthorizedKey) where
  -- Whether the input for a new key is missing or invalid.
  abbrev bad_key : Option SshKeyCreate → Bool
  bad_key none = true
  bad_key (some key) = failed (validate_ssh_key_create parse_authorized_key key)

  abbrev bad_server : Option ServerCreate → String → Bool
  bad_server none cloud = true
  bad_server (some server) cloud = failed (validate_server_create server cloud)

  unfoldable pub check_creation : String → PowerRequest → Error
  check_creation cloud p =
      fail_if
        (is_some p.key_create
          && (not (p.action == "create") || not (p.resource_kind == "access.ssh_key")))
        "unexpected key creation input"
      >>> (if p.action == "create" && p.resource_kind == "access.ssh_key"
          then fail_if
              (bad_key p.key_create
                || is_some p.create
                || p.phase == "preview"
                || not (p.deletion_impact == "")
                || p.phase == "submit" && not (p.native_id == ""))
              "invalid public key creation"
          else if p.action == "create"
          then fail_if
              (bad_server p.create cloud
                || not (p.deletion_impact == "")
                || p.phase == "preview"
                || p.phase == "submit" && not (p.native_id == ""))
              "invalid creation input"
          else fail_if (is_some p.create) "unexpected creation input")

  unfoldable pub validate_power_request : String → PowerRequest → Error
  validate_power_request cloud p =
      check_tags cloud p
      >>> check_resize p
      >>> check_identity cloud p
      >>> check_kind p
      >>> check_cloud cloud p.resource_kind
      >>> check_creation cloud p
      >>> check_deletion p
      >>> check_words p
      >>> check_target cloud p

-- `(?:i|key)-[a-f0-9]{8,17}|[1-9][0-9]{0,17}`.
unfoldable pub created_id : Regex
created_id = alt (alt (literal "i-" hex_id) (literal "key-" hex_id)) positive_id

unfoldable pub validate_power_result : PowerResult → Error
validate_power_result p =
    fail_if (is_some p.tags && failed (validate_tags p.tags)) "invalid observed tags"
    >>> fail_if (not (p.native_id == "") && not (matches created_id p.native_id))
        "invalid created identity"
    >>> fail_if (ltb 64 (len p.size)) "invalid observed size"
    >>> fail_if
        (ltb 16384 (len p.deletion_impact)
          || p.outcome == "preview" && (p.deletion_impact == "" || not (p.error == ""))
          || not (p.outcome == "preview") && not (p.deletion_impact == ""))
        "invalid deletion preview"
    >>> fail_if
        (not (
            contains ("accepted" ∷ "succeeded" ∷ "failed" ∷ "uncertain" ∷ "preview" ∷ []) p.outcome)
          || ltb 128 (len p.action_id)
          || ltb 64 (len p.status))
        "invalid power result"
    >>> fail_if (not (p.action_id == "") && not (matches action_id p.action_id))
        "invalid action identity"
    >>> fail_if
        (not (
          contains
            ("" ∷ "invalid_configuration" ∷ "preflight_failed" ∷ "state_changed"
              ∷ "submission_uncertain" ∷ "observation_failed" ∷ "provider_failed"
              ∷ "restart_unverifiable" ∷ [])
            p.error))
        "invalid action error"
