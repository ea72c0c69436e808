-- ===== src/Provider/Tags.antt =====
-- sdk/provider/tags.go and tag_change.go. A Go map is an association list, in an order of its own;
-- a nil `*Tags` is `none`. Every text is valid UTF-8 here, so `utf8.ValidString` holds.
pub mod Reserved
pub mod Equal
use Prim.Native.String.{compare}
use text.Mathlib.Text.{is_le}
use providah_community.Prelude.{
  ℕ, ◌+◌, ◌==◌, Bool, true, false, not, ◌&&◌, ◌||◌, String, len, Option, none, some, List, [], ◌∷◌,
  Error, fail_if, ◌>>>◌, failed, each, if◌then◌else◌, ltb, leb, eqb, contains, contains_codes,
  codes_eq, codes, lower_codes, begins, length, is_empty,
}
use providah_community.Regex.{matches}
use providah_community.Provider.Patterns.{writable_named_tag}

pub record Tags : Type 0 where
  pub labels : List (String × String)
  pub names : List String

abbrev valid : String → ℕ → Bool
valid s max = leb (len s) max

-- The loop over the labels, with the size so far.
unfoldable pub validate_labels : List (String × String) → ℕ → Error × ℕ
validate_labels [] size = (none, size)
validate_labels ((k, v) ∷ labels) size =
    let rest = validate_labels labels (size + (len k + len v)) in
    if k == "" || not (valid k 256) || not (valid v 2048)
    then (some "invalid label", size)
    else rest

-- The loop over the names, with those seen and the size so far.
unfoldable pub validate_names : List String → List String → ℕ → Error × ℕ
validate_names [] seen size = (none, size)
validate_names (name ∷ names) seen size =
    let rest = validate_names names (name ∷ seen) (size + len name) in
    if name == "" || not (valid name 256) || contains seen name
    then (some "invalid named tag", size)
    else rest

unfoldable pub validate_tags : Option Tags → Error
unfolding validate_labels validate_names
validate_tags none = none
validate_tags (some t) =
    let (label_error, label_size) = validate_labels t.labels 0 in
    let (name_error, size) = validate_names t.names [] label_size in
    fail_if (ltb 100 (length t.labels + length t.names)) "too many tags"
    >>> label_error
    >>> name_error
    >>> fail_if (ltb 16384 size) "tag metadata too large"

-- `value, ok := labels[k]`.
unfoldable pub lookup : String → List (String × String) → Option String
lookup k [] = none
lookup k ((j, v) ∷ labels) = if j == k then some v else lookup k labels

-- `value, ok := labels[k]; ok && value == v`.
unfoldable pub has_label : List (String × String) → String → String → Bool
unfolding lookup
has_label labels k v = elim (lookup k labels) [ none ↦ false | some value ↦ value == v ]

unfoldable pub insert_sorted : String → List String → List String
insert_sorted s [] = s ∷ []
insert_sorted s (t ∷ rest) = if is_le (compare s t) then s ∷ t ∷ rest else t ∷ insert_sorted s rest

-- `slices.Sort` of texts, in the order of their bytes.
unfoldable pub sort : List String → List String
unfolding insert_sorted
sort [] = []
sort (s ∷ rest) = insert_sorted s (sort rest)

unfoldable pub texts_equal : List String → List String → Bool
texts_equal [] [] = true
texts_equal (s ∷ a) (t ∷ b) = s == t && texts_equal a b
texts_equal _ _ = false

-- The loop of `maps.Equal`.
unfoldable pub labels_within : List (String × String) → List (String × String) → Bool
unfolding has_label
labels_within [] b = true
labels_within ((k, v) ∷ a) b = has_label b k v && labels_within a b

unfoldable pub tags_equal : Option Tags → Option Tags → Bool
unfolding sort texts_equal labels_within
tags_equal none none = true
tags_equal none (some b) = false
tags_equal (some a) none = false
tags_equal (some a) (some b) =
    eqb (length a.labels) (length b.labels)
    && labels_within a.labels b.labels
    && texts_equal (sort a.names) (sort b.names)

-- The checks of one set of named tags; `seen` holds the names in lower case.
unfoldable pub check_named : List String → List (List ℕ) → Error
check_named [] seen = none
check_named (name ∷ names) seen =
    let rest = check_named names (lower_codes name ∷ seen) in
    if contains_codes seen (lower_codes name)
    then some "duplicate named tag"
    else if not (matches writable_named_tag name)
    then some "invalid named tag"
    else rest

-- `old != name && strings.EqualFold(old, name)`; both are ASCII by the checks above.
unfoldable pub case_only : String → String → Bool
case_only old name = not (old == name) && codes_eq (lower_codes old) (lower_codes name)

unfoldable pub check_case_only : List String → List String → Error
unfolding case_only
check_case_only before after =
    each
      (λ old.
        each (λ name. fail_if (case_only old name) "case-only tag changes are unsupported") after)
      before

unfoldable pub is_reserved : String → Bool
is_reserved k = begins (codes "aws:") (lower_codes k)

-- The loop over the labels after the change, with the number of editable ones so far.
unfoldable pub check_after :
    String → List (String × String) → List (String × String) → ℕ → Error × ℕ
unfolding has_label is_reserved
check_after cloud before [] editable = (none, editable)
check_after cloud before ((k, v) ∷ after) editable =
    let kept = check_after cloud before after editable in
    let edited = check_after cloud before after (editable + 1) in
    if cloud == "aws" && is_reserved k
    then (if not (has_label before k v) then (some "reserved AWS tag", editable) else kept)
    else if ltb 128 (len k) || ltb 256 (len v)
    then (some "label too long", editable + 1)
    else edited

-- The loop over the labels before the change.
unfoldable pub check_before : List (String × String) → List (String × String) → Error
unfolding has_label is_reserved
check_before after [] = none
check_before after ((k, v) ∷ before) =
    fail_if (is_reserved k && not (has_label after k v)) "reserved AWS tag"
    >>> check_before after before

unfoldable pub check_digitalocean : Tags → Tags → Error
unfolding check_named check_case_only
check_digitalocean before after =
    check_named before.names []
    >>> check_named after.names []
    >>> fail_if (not (is_empty before.labels) || not (is_empty after.labels)) "named tags required"
    >>> check_case_only before.names after.names

unfoldable pub check_labels : String → Tags → Tags → Error
unfolding check_after check_before
check_labels cloud before after =
    let (error, editable) = check_after cloud before.labels after.labels 0 in
    fail_if
      (not (cloud == "aws") && not (cloud == "hetzner")
        || not (is_empty before.names)
        || not (is_empty after.names))
      "labels required"
    >>> error
    >>> fail_if (ltb (if cloud == "hetzner" then 64 else 50) editable) "too many labels"
    >>> (if cloud == "aws" then check_before after.labels before.labels else none)

unfoldable pub validate_tag_change : String → Option Tags → Option Tags → Error
unfolding check_digitalocean check_labels
validate_tag_change cloud none after = some "invalid tag sets"
validate_tag_change cloud (some before) none = some "invalid tag sets"
validate_tag_change cloud (some before) (some after) =
    fail_if (failed (validate_tags (some before)) || failed (validate_tags (some after)))
      "invalid tag sets"
    >>> (if cloud == "digitalocean"
        then check_digitalocean before after
        else check_labels cloud before after)
