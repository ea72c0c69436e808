-- ===== src/Provider/Tags/Reserved.antt =====
-- Reserved AWS labels under a validated tag change.
use providah_community.Prelude.{
  ℕ, ◌+◌, ◌≡◌, refl, ◌↔◌, ◌==◌, arith, true, false, String, List, [], ◌∷◌, none, some, inl, inr,
  >>>-none, ==_iff, ==_refl, Option-cases, not, ◌&&◌, fail_if,
}
use providah_community.Provider.Tags.{
  Tags, lookup, has_label, is_reserved, check_after, check_before, check_labels,
  validate_tag_change,
}

-- Every reserved label of the first map stands in the second with the same value.
abbrev Keeps : List (String × String) → List (String × String) → Type 0
Keeps a b = (k v : String) → is_reserved k ≡ true → lookup k a ≡ some v → lookup k b ≡ some v

has_label-eq-lookup :
    (labels : List (String × String)) (k v : String)
    → has_label labels k v ≡ true
    → lookup k labels ≡ some v
unfolding has_label
has_label-eq-lookup labels k v h = elim (Option-cases (lookup k labels)) [
  | inl missing ↦ ground (arith, missing)
  | inr (w, found) ↦ ground (arith, found, ==_iff w v)
]

check_before-Keeps :
    (after before : List (String × String)) → check_before after before ≡ none → Keeps before after
unfolding check_before lookup
check_before-Keeps after [] h k v reserved found = cc
check_before-Keeps after ((j, w) ∷ before) h k v reserved found =
    let (first, rest) =
      >>>-none (fail_if (is_reserved j && not (has_label after j w)) "reserved AWS tag")
        (check_before after before) h in
    ground (
      arith,
      first,
      ==_iff j k,
      has_label-eq-lookup after j w,
      check_before-Keeps after before rest k v reserved,
    )

check_after-keeps :
    (before after : List (String × String)) (editable : ℕ) (k v : String)
    → (check_after "aws" before after editable).0 ≡ none
    → is_reserved k ≡ true
    → lookup k after ≡ some v
    → lookup k before ≡ some v
unfolding check_after lookup
check_after-keeps before [] editable k v h reserved found = cc
check_after-keeps before ((j, w) ∷ after) editable k v h reserved found = ground (
  arith,
  ==_refl "aws",
  ==_iff j k,
  has_label-eq-lookup before j w,
  check_after-keeps before after editable k v,
  check_after-keeps before after (editable + 1) k v,
)

aws_not_digitalocean : ("aws" == "digitalocean") ≡ false
unfolding ◌==◌
aws_not_digitalocean = refl

-- A validated change of the tags of an AWS server keeps every reserved label ("aws:" in any case):
-- it has the same value before and after, none is added and none is removed.
pub validate_tag_change-keeps_reserved :
    (before after : Tags) (k v : String)
    → validate_tag_change "aws" (some before) (some after) ≡ none
    → is_reserved k ≡ true
    → (lookup k before.labels ≡ some v) ↔ (lookup k after.labels ≡ some v)
unfolding validate_tag_change check_labels
validate_tag_change-keeps_reserved before after k v h reserved =
    let checked : ((check_after "aws" before.labels after.labels 0).0 ≡ none)
        × (check_before after.labels before.labels ≡ none) =
      (
        ground (arith, aws_not_digitalocean, ==_refl "aws"),
        ground (arith, aws_not_digitalocean, ==_refl "aws"),
      ) in
    (
      check_before-Keeps after.labels before.labels checked.1 k v reserved,
      check_after-keeps before.labels after.labels 0 k v checked.0 reserved,
    )
