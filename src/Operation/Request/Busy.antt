-- ===== src/Operation/Request/Busy.antt =====
-- Which rows of the operations table exclude each other, by its unique indexes.
use providah_community.Prelude.{
  ◌==◌, Bool, ◌&&◌, ◌||◌, String, List, [], ◌∷◌, if◌then◌else◌, contains,
}
use providah_community.Operation.Tables.{
  Operation, Status, awaiting_approval, queued, dispatching, observing, uncertain, is_status,
  is_set, text_of,
}

-- The statuses of the partial unique indexes.
abbrev pub is_busy : Status → Bool
is_busy s =
    is_status s awaiting_approval
    || is_status s queued
    || is_status s dispatching
    || is_status s observing
    || is_status s uncertain

-- The kinds whose targets are busy in every region, in their region, and in their region on AWS.
abbrev global_kinds : List String
global_kinds = "storage.volume" ∷ "storage.snapshot" ∷ "organization.project" ∷ []

abbrev regional_kinds : List String
regional_kinds = "compute.image" ∷ "database.snapshot" ∷ "database.cluster_snapshot" ∷ []

abbrev aws_regional_kinds : List String
aws_regional_kinds =
    "network.network" ∷ "network.firewall" ∷ "network.load_balancer" ∷ "compute.placement_group"
    ∷ "access.ssh_key" ∷ []

-- The region in the key of a unique index of a kind.
abbrev busy_region : Operation → String
busy_region o =
    if contains regional_kinds o.resource_kind || o.provider == "aws" then o.region else ""

abbrev same_target : Operation → Operation → Bool
same_target o p =
    o.connection_id == p.connection_id
    && o.resource_kind == p.resource_kind
    && o.native_id == p.native_id
    && (contains global_kinds o.resource_kind
        || (contains regional_kinds o.resource_kind || contains aws_regional_kinds o.resource_kind)
          && busy_region o == busy_region p)

-- A violation of the unique indexes of the table, whose error is `23505`.
unfoldable pub violates : Operation → Operation → Bool
violates o p =
    o.id == p.id
    || o.org_id == p.org_id
      && (o.requester_id == p.requester_id && o.idempotency_key == p.idempotency_key
          || is_busy o.status
            && is_busy p.status
            && (is_set o.resource_id
                  && is_set p.resource_id
                  && text_of o.resource_id == text_of p.resource_id
                || same_target o p
                || o.action == "create"
                  && p.action == "create"
                  && o.connection_id == p.connection_id
                  && o.region == p.region
                  && o.resource_name == p.resource_name))
