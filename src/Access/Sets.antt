-- ===== src/Access/Sets.antt =====
-- The sets of permissions, as lists of texts.
use providah_community.Prelude.{
  ◌≡◌, refl, sym, ◌∙◌, ◌==◌, ==_iff, true, ◌||◌, String, List, [], ◌∷◌, ◌++◌, arith, all, contains,
  and_parts, Bool-cases, inl, inr, if◌then◌else◌, subst,
}
use providah_community.Provider.Tags.{sort, insert_sorted}
use providah_community.Access.{subset, compact, sorted_set}

-- What is in a subset is in the set.
pub contains-subset :
    (want have : List String) (p : String)
    → subset want have ≡ true
    → contains want p ≡ true
    → contains have p ≡ true
unfolding subset
contains-subset [] have p h inside = absurd cc
contains-subset (q ∷ want) have p h inside =
    let (first, rest) = and_parts (contains have q) (all (contains have) want) h in
    elim (Bool-cases (p == q)) [
      | inl e ↦ subst (λ x. contains have x ≡ true) (sym ((==_iff p q).0 e)) first
      | inr e ↦ contains-subset want have p rest (ground arith)
    ]

pub contains-append :
    (xs ys : List String) (p : String) → contains (xs ++ ys) p ≡ (contains xs p || contains ys p)
contains-append [] ys p = refl
contains-append (x ∷ xs) ys p = ground (arith, contains-append xs ys p)

contains-insert_sorted :
    (s : String) (xs : List String) (p : String)
    → contains (insert_sorted s xs) p ≡ contains (s ∷ xs) p
unfolding insert_sorted
contains-insert_sorted s [] p = refl
contains-insert_sorted s (x ∷ xs) p = ground (arith, contains-insert_sorted s xs p)

contains-sort : (xs : List String) (p : String) → contains (sort xs) p ≡ contains xs p
unfolding sort
contains-sort [] p = refl
contains-sort (x ∷ xs) p = contains-insert_sorted x (sort xs) p ∙ ground (arith, contains-sort xs p)

-- One step of the compaction keeps the texts.
contains-squeeze :
    (x : String) (xs : List String) (p : String)
    → contains (elim xs [ [] ↦ x ∷ [] | t ∷ more ↦ if x == t then t ∷ more else x ∷ t ∷ more ]) p
      ≡ (p == x || contains xs p)
contains-squeeze x [] p = refl
contains-squeeze x (t ∷ more) p = ground (arith, ==_iff x t, ==_iff p x, ==_iff p t)

contains-compact : (xs : List String) (p : String) → contains (compact xs) p ≡ contains xs p
unfolding compact
contains-compact [] p = refl
contains-compact (x ∷ xs) p =
    contains-squeeze x (compact xs) p ∙ ground (arith, contains-compact xs p)

pub contains-sorted_set :
    (xs : List String) (p : String) → contains (sorted_set xs) p ≡ contains xs p
unfolding sorted_set
contains-sorted_set xs p = contains-compact (sort xs) p ∙ contains-sort xs p
