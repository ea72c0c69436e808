-- ===== src/Provider/Power/Review.antt =====
-- What a validated request for an action guarantees (`PowerRequest.Validate`).
use providah_community.Prelude.{
  ◌≡◌, ◌≢◌, ◌⊎◌, inl, inr, ◌==◌, ==_iff, arith, true, ◌&&◌, ◌||◌, String, Option, none, contains,
  >>>-none, Bool-cases, and_parts,
}
use providah_community.Provider.Create.{AuthorizedKey}
use providah_community.Provider.Status.{database_kind}
use providah_community.Provider.Power.{
  PowerRequest, validate_power_request, check_tags, check_resize, check_identity, check_kind,
  check_creation, check_deletion, check_cloud, valid_resize, is_some, deletable_kinds,
}

-- What the request does besides actions on servers: databases are started and shut down, keys
-- created, and the other kinds deleted.
abbrev pub KindRule : PowerRequest → Type 0
KindRule p =
    (p.resource_kind ≡ "")
    ⊎ (((database_kind p.resource_kind && (p.action == "start" || p.action == "shutdown")) ≡ true)
        ⊎ (((p.resource_kind ≡ "access.ssh_key") × (p.action ≡ "create"))
            ⊎ ((contains deletable_kinds p.resource_kind ≡ true) × (p.action ≡ "delete"))))

-- The rules that a reviewed request follows.
pub record IsReviewed (p : PowerRequest) : Type 0 where
  -- A deletion is submitted only with the impact that was reviewed, and only deletions have one.
  pub impact : p.action ≡ "delete" → p.phase ≡ "submit" → p.deletion_impact ≢ ""
  pub no_impact : p.action ≢ "delete" → p.deletion_impact ≡ ""
  -- Only a deletion is previewed.
  pub preview : p.phase ≡ "preview" → p.action ≡ "delete"
  -- A creation is submitted without a target identity.
  pub unnamed : p.action ≡ "create" → p.phase ≡ "submit" → p.native_id ≡ ""
  -- Sizes and tags come with the actions that change them, and with no other.
  pub sizes : p.action ≡ "resize" → p.expected_size ≢ p.target_size
  pub no_sizes : p.action ≢ "resize" → (p.expected_size ≡ "") × (p.target_size ≡ "")
  pub tags : p.action ≡ "tags" → (is_some p.expected_tags ≡ true) × (is_some p.target_tags ≡ true)
  pub no_tags : p.action ≢ "tags" → (p.expected_tags ≡ none) × (p.target_tags ≡ none)
  pub kind : KindRule p

module _ (p : PowerRequest) where
  deletion_impact_rule :
      check_deletion p ≡ none → p.action ≡ "delete" → p.phase ≡ "submit" → p.deletion_impact ≢ ""
  unfolding check_deletion
  deletion_impact_rule h a s e =
      ground (arith, ==_iff p.action "delete", ==_iff p.phase "submit", ==_iff p.deletion_impact "")

  no_impact_rule : check_deletion p ≡ none → p.action ≢ "delete" → p.deletion_impact ≡ ""
  unfolding check_deletion
  no_impact_rule h a = ground (arith, ==_iff p.action "delete", ==_iff p.deletion_impact "")

  preview_rule : check_deletion p ≡ none → p.phase ≡ "preview" → p.action ≡ "delete"
  unfolding check_deletion
  preview_rule h a = ground (arith, ==_iff p.action "delete", ==_iff p.phase "preview")

  unnamed_rule :
      (parse : String → Option AuthorizedKey) (cloud : String)
      → check_creation parse cloud p ≡ none
      → p.action ≡ "create"
      → p.phase ≡ "submit"
      → p.native_id ≡ ""
  unfolding check_creation
  unnamed_rule parse cloud h a s =
      ground (arith, ==_iff p.action "create", ==_iff p.phase "submit", ==_iff p.native_id "")

  sizes_rule : check_resize p ≡ none → p.action ≡ "resize" → p.expected_size ≢ p.target_size
  unfolding check_resize valid_resize
  sizes_rule h a e = ground (arith, ==_iff p.action "resize", ==_iff p.expected_size p.target_size)

  no_sizes_rule :
      check_resize p ≡ none → p.action ≢ "resize" → (p.expected_size ≡ "") × (p.target_size ≡ "")
  unfolding check_resize
  no_sizes_rule h a =
      ground (arith, ==_iff p.action "resize", ==_iff p.expected_size "", ==_iff p.target_size "")

  tags_rule :
      (cloud : String)
      → check_tags cloud p ≡ none
      → p.action ≡ "tags"
      → (is_some p.expected_tags ≡ true) × (is_some p.target_tags ≡ true)
  unfolding check_tags
  tags_rule cloud h a = ground (arith, ==_iff p.action "tags")

  no_tags_rule :
      (cloud : String)
      → check_tags cloud p ≡ none
      → p.action ≢ "tags"
      → (p.expected_tags ≡ none) × (p.target_tags ≡ none)
  unfolding check_tags
  no_tags_rule cloud h a = ground (arith, ==_iff p.action "tags")

  kind_rule : (cloud : String) → check_kind p ≡ none → check_identity cloud p ≡ none → KindRule p
  unfolding check_kind check_identity
  kind_rule cloud h i = elim (Bool-cases (p.resource_kind == "")) [
    | inl server ↦ inl ((==_iff _ _).0 server)
    | inr other ↦ elim (Bool-cases (database_kind p.resource_kind)) [
      | inl database ↦ inr (inl (ground arith))
      | inr plain ↦
          elim (Bool-cases (p.resource_kind == "access.ssh_key" && p.action == "create")) [
            | inl key ↦
                let (k, a) = and_parts _ _ key in
                inr (inr (inl ((==_iff _ _).0 k, (==_iff _ _).0 a)))
            | inr rest ↦ inr (inr (inr (ground arith, ground (arith, ==_iff p.action "delete"))))
          ]
    ]
  ]

-- Every request that the validation accepts follows the rules of `IsReviewed`, at every cloud:
-- reviewed deletions, no stray impact, sizes or tags, and only actions that its kind has.
pub validate_power_request-IsReviewed :
    (parse : String → Option AuthorizedKey) (cloud : String) (p : PowerRequest)
    → validate_power_request parse cloud p ≡ none
    → IsReviewed p
unfolding validate_power_request
validate_power_request-IsReviewed parse cloud p h =
    let (t, h1) = >>>-none (check_tags cloud p) _ h in
    let (r, h2) = >>>-none (check_resize p) _ h1 in
    let (i, h3) = >>>-none (check_identity cloud p) _ h2 in
    let (k, h4) = >>>-none (check_kind p) _ h3 in
    let (c, h5) = >>>-none (check_cloud cloud p.resource_kind) _ h4 in
    let (n, h6) = >>>-none (check_creation parse cloud p) _ h5 in
    let (d, h7) = >>>-none (check_deletion p) _ h6 in
    record {
      impact = deletion_impact_rule p d;
      no_impact = no_impact_rule p d;
      preview = preview_rule p d;
      unnamed = unnamed_rule p parse cloud n;
      sizes = sizes_rule p r;
      no_sizes = no_sizes_rule p r;
      tags = tags_rule p cloud t;
      no_tags = no_tags_rule p cloud t;
      kind = kind_rule p cloud k i;
    }
