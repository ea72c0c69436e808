-- ===== src/Provider/Tags/Equal.antt =====
-- The comparison of two tag sets, `TagsEqual`.
use providah_community.Prelude.{
  ◌≡◌, refl, ◌≢◌, ==_refl, ==_iff, true, String, Option, none, some, List, [], ◌∷◌, map, and_parts,
  All, Distinct, arith,
}
use providah_community.Provider.Tags.{
  Tags, tags_equal, labels_within, has_label, lookup, texts_equal, sort,
}

-- The keys of a set of labels, which in the source are the keys of a map.
abbrev pub keys : List (String × String) → List String
keys labels = map (λ l. l.0) labels

within-cons :
    (k v : String) (a b : List (String × String))
    → All (λ j. k ≢ j) (keys a)
    → labels_within a b ≡ true
    → labels_within a ((k, v) ∷ b) ≡ true
unfolding labels_within has_label lookup
within-cons k v [] b new h = refl
within-cons k v ((j, u) ∷ a) b (differ, new) h =
    let (found, rest) = and_parts (has_label b j u) (labels_within a b) h in
    ground (arith, ==_iff k j, within-cons k v a b new rest)

labels_within_refl : (a : List (String × String)) → Distinct (keys a) → labels_within a a ≡ true
unfolding labels_within has_label lookup
labels_within_refl [] d = refl
labels_within_refl ((k, v) ∷ a) (new, d) =
    ground (arith, ==_refl k, ==_refl v, within-cons k v a a new (labels_within_refl a d))

texts_equal_refl : (a : List String) → texts_equal a a ≡ true
unfolding texts_equal
texts_equal_refl [] = refl
texts_equal_refl (s ∷ a) = ground (arith, ==_refl s, texts_equal_refl a)

-- The labels of a tag set have one value for each key.
abbrev pub IsMap : Option Tags → Type 0
IsMap none = Unit
IsMap (some t) = Distinct (keys t.labels)

pub tags_equal_refl : (t : Option Tags) → IsMap t → tags_equal t t ≡ true
unfolding tags_equal
tags_equal_refl none d = refl
tags_equal_refl (some t) d =
    ground (arith, labels_within_refl t.labels d, texts_equal_refl (sort t.names))
