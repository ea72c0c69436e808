-- ===== src/Tests/Contract.antt =====
-- The provider contract on concrete inputs: requests, tags, an inventory and a catalog.
use providah_community.Provider.Patterns.{identifier, positive_id, region, image_id}
use providah_community.Regex.{matches}
use providah_community.Prelude.{
  ◌≡◌, refl, ◌==◌, ◌≤◌, ◌<◌, ◌↔◌, arith, Bool, true, false, String, Option, none, some, List, [],
  ◌∷◌, pos, ◌-ℤ◌, ◌+ℤ◌, ◌≤ℤ◌, IsInt64, All, Distinct, length, map, begins, lower_codes, int64,
}
use providah_community.Provider.Create.{AuthorizedKey}
use providah_community.Provider.Status.{resource_action_allowed, resource_action_reached}
use providah_community.Provider.Status.Progress.{resource_progress}
use providah_community.Provider.Tags.{Tags, validate_tag_change, lookup, is_reserved, validate_tags}
use providah_community.Provider.Tags.Reserved.{validate_tag_change-keeps_reserved}
use providah_community.Provider.Power.{
  PowerRequest, validate_power_request, check_kind, check_cloud, check_tags, check_resize,
  check_identity, check_creation, check_deletion, check_words, check_target, native_pattern,
}
use providah_community.Provider.Power.Review.{IsReviewed, validate_power_request-IsReviewed}
use providah_community.Provider.Metrics.{MetricsRequest, validate_metrics_request}
use providah_community.Provider.Metrics.Interval.{metrics_interval}
use providah_community.Provider.Discovery.{
  Resource, Response, validate_response, covered_kinds, resource_key, max_resources, valid_kinds,
}
use providah_community.Provider.Discovery.Scope.{InScope, validate_response-Distinct}
use providah_community.Provider.Runtime.{
  Runtime, validate_runtime, validate_runtimes, runtime_key, supports_resource_action,
  check_creations, check_deletions, check_catalog, supports_action,
}
use providah_community.Provider.Runtime.Consistent.{supports-check_cloud}
use providah_community.Provider.Runtime.Catalog.{validate_runtimes-Distinct}
use providah_community.Tests.Fixtures.{any_ip}

stop_allowed : resource_action_allowed "database.instance" "shutdown" "available" ≡ true
unfolding resource_action_allowed ◌==◌
stop_allowed = refl

not_restart : ("shutdown" == "restart") ≡ false
unfolding ◌==◌
not_restart = refl

resource_progress_example :
    resource_action_reached "database.instance" "shutdown" "available" ≡ false
resource_progress_example =
    resource_progress "database.instance" "shutdown" "available" not_restart stop_allowed

abbrev tags_before : Tags
tags_before = record { labels = ("aws:stack", "s1") ∷ ("team", "a") ∷ []; names = [] }

abbrev tags_after : Tags
tags_after = record { labels = ("team", "b") ∷ ("aws:stack", "s1") ∷ []; names = [] }

tags_valid : validate_tag_change "aws" (some tags_before) (some tags_after) ≡ none
unfolding validate_tag_change ◌==◌ validate_tags begins lower_codes
tags_valid = refl

stack_reserved : is_reserved "aws:stack" ≡ true
unfolding is_reserved begins lower_codes
stack_reserved = refl

keeps_reserved_example :
    (lookup "aws:stack" tags_before.labels ≡ some "s1")
    ↔ (lookup "aws:stack" tags_after.labels ≡ some "s1")
keeps_reserved_example =
    validate_tag_change-keeps_reserved tags_before tags_after "aws:stack" "s1" tags_valid
      stack_reserved

-- No text is a public key.
abbrev no_keys : String → Option AuthorizedKey
no_keys s = none

abbrev delete_network : PowerRequest
delete_network = record {
  key_create = none;
  expected_tags = none;
  target_tags = none;
  expected_identity = "";
  expected_size = "";
  target_size = "";
  resource_kind = "network.network";
  create = none;
  deletion_impact = "1 subnet";
  operation_id = "cccccccccccccccccccccccccccccccccccccccccccccccccccccccccccccccc";
  phase = "submit";
  action = "delete";
  native_id = "17";
  expected_status = "available";
  action_id = "";
}

deletion_valid : validate_power_request no_keys "hetzner" delete_network ≡ none
unfolding validate_power_request ◌==◌ check_tags check_resize check_identity check_kind check_cloud
    check_creation check_deletion check_words matches identifier check_target native_pattern
    positive_id
deletion_valid = refl

validate_power_request-IsReviewed_example : IsReviewed delete_network
validate_power_request-IsReviewed_example =
    validate_power_request-IsReviewed no_keys "hetzner" delete_network deletion_valid

abbrev one_hour : MetricsRequest
one_hour = record { native_id = "42"; start = pos 1000000; end = pos 1003600 }

hour_valid : validate_metrics_request (pos 1003600) "hetzner" one_hour ≡ none
unfolding validate_metrics_request ◌==◌ matches positive_id int64 ◌-ℤ◌ ◌+ℤ◌
hour_valid = refl

low_fits : IsInt64 (pos 1003600 -ℤ pos 90000)
unfolding ◌-ℤ◌ ◌+ℤ◌
low_fits = ground arith

high_fits : IsInt64 (pos 1003600 +ℤ pos 60)
unfolding ◌+ℤ◌
high_fits = ground arith

metrics_interval_example :
    (pos 1003600 -ℤ pos 90000 ≤ℤ one_hour.start)
    × (one_hour.end ≤ℤ pos 1003600 +ℤ pos 60)
    × (one_hour.start +ℤ pos 1 ≤ℤ one_hour.end)
    × (one_hour.end ≤ℤ one_hour.start +ℤ pos 86400)
metrics_interval_example =
    metrics_interval (pos 1003600) "hetzner" one_hour low_fits high_fits hour_valid

abbrev server_row : String → Resource
server_row id = record {
  catalog = false;
  tags = none;
  provider_identity = "";
  kind = "";
  native_id = id;
  name = "web";
  region = "fsn1";
  status = "running";
  public_ip = "10.0.0.1";
  private_ip = "";
  size = "cx22";
}

abbrev inventory : Response
inventory = record {
  metrics = none;
  inventory_kinds = [];
  version = pos 1;
  complete = true;
  resources = server_row "42" ∷ server_row "43" ∷ [];
  error = "";
  power = none;
}

inventory_valid : validate_response any_ip inventory ≡ none
unfolding validate_response ◌==◌ valid_kinds validate_tags matches region
inventory_valid = refl

validate_response-Distinct_example :
    (inventory.complete ≡ true)
    × (length inventory.resources ≤ max_resources)
    × All (InScope (covered_kinds inventory)) inventory.resources
    × Distinct (map resource_key inventory.resources)
validate_response-Distinct_example =
    validate_response-Distinct any_ip inventory refl refl inventory_valid

abbrev hetzner_runtime : Runtime
hetzner_runtime = record {
  ssh_key_create = false;
  placement_group_delete = false;
  project_delete = false;
  image_delete = false;
  private_network_create = false;
  publisher_key_id = "";
  approval_expires_at = "";
  load_balancer_delete = false;
  database_snapshot_delete = false;
  security_group_delete = false;
  ssh_key_delete = false;
  network_delete = true;
  database_power = false;
  volume_delete = false;
  snapshot_delete = false;
  metrics = false;
  capabilities_version = pos 1;
  inventory_kinds = "compute.server" ∷ "network.network" ∷ [];
  actions = "start" ∷ "delete" ∷ [];
  provider = "hetzner";
  image = "sha256:dddddddddddddddddddddddddddddddddddddddddddddddddddddddddddddddd";
  version = "1.0.0";
  sdk_version = "2.1.0";
  protocol = pos 1;
}

-- Every text is taken for a time.
abbrev any_time : String → Bool
any_time s = true

runtime_valid : validate_runtime any_time hetzner_runtime ≡ none
unfolding validate_runtime ◌==◌ check_creations check_deletions check_catalog valid_kinds matches
    image_id
runtime_valid = refl

network_supported : supports_resource_action hetzner_runtime "network.network" "delete" ≡ true
unfolding supports_resource_action ◌==◌ supports_action
network_supported = refl

network_named : ("network.network" == "compute.server") ≡ false
unfolding ◌==◌
network_named = refl

supports-check_cloud_example :
    (check_kind delete_network ≡ none) × (check_cloud "hetzner" "network.network" ≡ none)
supports-check_cloud_example =
    supports-check_cloud any_time hetzner_runtime delete_network runtime_valid network_supported
      network_named

abbrev catalog : List Runtime
catalog = hetzner_runtime ∷ []

catalog_valid : validate_runtimes any_time catalog ≡ none
unfolding validate_runtimes ◌==◌ validate_runtime check_creations check_deletions check_catalog
    valid_kinds matches image_id
catalog_valid = refl

validate_runtimes-Distinct_example :
    (0 < length catalog)
    × (length catalog ≤ 32)
    × All (λ r. validate_runtime any_time r ≡ none) catalog
    × Distinct (map runtime_key catalog)
validate_runtimes-Distinct_example = validate_runtimes-Distinct any_time catalog catalog_valid
