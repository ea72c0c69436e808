-- ===== src/Provider/Discovery/Scope.antt =====
-- What an accepted inventory holds (`Response.Validate`).
use providah_community.Prelude.{
  ℕ, Option, some, Error, ◌>>>◌, ◌≡◌, refl, ◌≤◌, arith, Bool, true, false, not, ◌||◌, ◌==◌, String,
  len, List, [], ◌∷◌, none, map, length, contains, fail_if, >>>-none, fail_if-none, All, Distinct,
  fresh, fresh-Distinct, ltb, eqb_ℤ,
}
use providah_community.Regex.{matches}
use providah_community.Provider.Power.{PowerResult}
use providah_community.Provider.Metrics.{MetricsResult}
use providah_community.Provider.Patterns.{region}
use providah_community.Provider.Tags.{validate_tags}
use providah_community.Provider.Discovery.{
  Resource, Response, resource_kind, covered_kinds, resource_key, check_resources,
  validate_response, max_resources, protocol, bad_ip,
}

-- What is checked of one resource.
pub record InScope (covered : List String) (v : Resource) : Type 0 where
  pub tags : validate_tags v.tags ≡ none
  pub kind : contains covered (resource_kind v) ≡ true
  pub identity : (v.native_id == "") ≡ false

abbrev bad_resource : List String → Resource → Bool
bad_resource seen v =
    ltb 128 (len v.provider_identity)
    || v.native_id == ""
    || ltb 512 (len v.native_id)
    || ltb 512 (len v.name)
    || ltb 64 (len v.status)
    || ltb 120 (len v.size)
    || not (matches region v.region)
    || contains seen (resource_key v)

-- A response without metrics and without an action result is a discovery.
discovery_part :
    (metrics : Option MetricsResult) (power : Option PowerResult) (scope discovery : Error)
    (measured : MetricsResult → Error) (acted : PowerResult → Error)
    → metrics ≡ none
    → power ≡ none
    → (elim metrics [
      | some m ↦ measured m
      | none ↦ scope >>> elim power [ some p ↦ acted p | none ↦ discovery ]
    ])
      ≡ none
    → discovery ≡ none
discovery_part none none scope discovery measured acted e f h = (>>>-none scope discovery h).1
discovery_part none (some p) scope discovery measured acted e f h = cc
discovery_part (some m) power scope discovery measured acted e f h = cc

module _ (is_ip : String → Bool) where
  check_resources-InScope :
      (covered : List String) (rs : List Resource) (seen : List String)
      → check_resources is_ip covered rs seen ≡ none
      → All (InScope covered) rs × (fresh (map resource_key rs) seen ≡ true)
  unfolding check_resources
  check_resources-InScope covered [] seen h = (tt, refl)
  check_resources-InScope covered (v ∷ rs) seen h =
      let (tags, h1) = >>>-none (validate_tags v.tags) _ h in
      let (kind, h2) = >>>-none (fail_if (not (contains covered (resource_kind v))) _) _ h1 in
      let (fields, h3) = >>>-none (fail_if (bad_resource seen v) "invalid resource") _ h2 in
      let (_, h4) =
        >>>-none
          (fail_if (bad_ip is_ip v.public_ip || bad_ip is_ip v.private_ip)
            "invalid resource address")
          _ h3 in
      let (later, distinct) = check_resources-InScope covered rs (resource_key v ∷ seen) h4 in
      let good = fail_if-none (bad_resource seen v) _ fields in
      (
        (
          record {
            tags = tags;
            kind = ground (arith, fail_if-none _ _ kind);
            identity = ground (arith, good);
          },
          later,
        ),
        ground (arith, good),
      )

header_parts :
    (version complete no_error : Bool) (n : ℕ)
    → (not version || not complete || not no_error || ltb max_resources n) ≡ false
    → (complete ≡ true) × (n ≤ max_resources)
header_parts version complete no_error n h = (ground arith, ground arith)

-- An accepted inventory is complete and within the limit; each resource is of a covered kind and
-- has valid tags and a native identity; and no two resources have the same kind, region and native
-- identity.
pub validate_response-Distinct :
    (is_ip : String → Bool) (r : Response)
    → r.metrics ≡ none
    → r.power ≡ none
    → validate_response is_ip r ≡ none
    → (r.complete ≡ true)
      × (length r.resources ≤ max_resources)
      × All (InScope (covered_kinds r)) r.resources
      × Distinct (map resource_key r.resources)
unfolding validate_response
validate_response-Distinct is_ip r no_metrics no_power h =
    let discovery = discovery_part r.metrics r.power _ _ _ _ no_metrics no_power h in
    let (first, loop) =
      >>>-none
        (fail_if
          (not (eqb_ℤ r.version protocol)
            || not r.complete
            || not (r.error == "")
            || ltb max_resources (length r.resources))
          "incomplete discovery")
        (check_resources is_ip (covered_kinds r) r.resources []) discovery in
    let (good, distinct) = check_resources-InScope is_ip (covered_kinds r) r.resources [] loop in
    let (complete, few) =
      header_parts (eqb_ℤ r.version protocol) r.complete (r.error == "") (length r.resources)
        (fail_if-none _ _ first) in
    (complete, few, good, fresh-Distinct (map resource_key r.resources) [] distinct)
