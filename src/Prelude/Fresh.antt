-- ===== src/Prelude/Fresh.antt =====
-- Loops that keep a set of the keys seen, as `seen := map[string]bool{}` of the Go code.
use Prim.Native.String.{String}
use mathlib.Core.Path.{◌≡◌}
use mathlib.Core.Logic.{◌≢◌}
use mathlib.Core.Bool.{Bool, true, false, not, ◌&&◌}
use mathlib.Core.List.{List, [], ◌∷◌}
use native.Mathlib.Omega.{arith}
use providah_community.Prelude.Lists.{All}
use providah_community.Prelude.Texts.{==_iff, contains}
use providah_community.Prelude.Tests.{and_parts}

-- No two of the texts are equal.
abbrev pub Distinct : List String → Type 0
Distinct [] = Unit
Distinct (k ∷ ks) = All (λ j. k ≢ j) ks × Distinct ks

-- Whether each key is new, when those before it are remembered.
abbrev pub fresh : List String → List String → Bool
fresh [] seen = true
fresh (k ∷ ks) seen = not (contains seen k) && fresh ks (k ∷ seen)

-- None of the keys was seen at the start.
abbrev Unseen : List String → List String → Type 0
Unseen seen ks = All (λ k. contains seen k ≡ false) ks

Unseen-parts :
    (k : String) (seen ks : List String)
    → Unseen (k ∷ seen) ks
    → All (λ j. k ≢ j) ks × Unseen seen ks
Unseen-parts k seen [] h = (tt, tt)
Unseen-parts k seen (j ∷ ks) (first, rest) =
    let (differ, later) = Unseen-parts k seen ks rest in
    let (apart_first, unseen_first) = split_first in ((apart_first, differ), (unseen_first, later))
  where
    split_first : (k ≢ j) × (contains seen j ≡ false)
    split_first = (λ e. ground (arith, ==_iff j k), ground arith)

fresh_parts : (ks seen : List String) → fresh ks seen ≡ true → Distinct ks × Unseen seen ks
fresh_parts [] seen h = (tt, tt)
fresh_parts (k ∷ ks) seen h =
    let (new, rest) = and_parts (not (contains seen k)) (fresh ks (k ∷ seen)) h in
    let (distinct, unseen) = fresh_parts ks (k ∷ seen) rest in
    let (differ, later) = Unseen-parts k seen ks unseen in
    ((differ, distinct), (ground arith, later))

-- A loop that passes only new keys has met no key twice.
pub fresh-Distinct : (ks seen : List String) → fresh ks seen ≡ true → Distinct ks
fresh-Distinct ks seen h = (fresh_parts ks seen h).0
