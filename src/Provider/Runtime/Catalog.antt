-- ===== src/Provider/Runtime/Catalog.antt =====
-- What an accepted catalog of runtimes holds (`ValidateRuntimes`).
use providah_community.Prelude.{
  ◌≡◌, refl, ◌≤◌, ◌<◌, not-empty-pos, arith, Bool, true, String, List, [], ◌∷◌, none, map, length,
  contains, fail_if, >>>-none, fail_if-none, All, Distinct, fresh, fresh-Distinct,
}
use providah_community.Provider.Runtime.{
  Runtime, validate_runtime, runtime_key, check_runtimes, validate_runtimes,
}

module _ (is_time : String → Bool) where
  check_runtimes-All :
      (rs : List Runtime) (seen : List String)
      → check_runtimes is_time rs seen ≡ none
      → All (λ r. validate_runtime is_time r ≡ none) rs
  unfolding check_runtimes
  check_runtimes-All [] seen h = tt
  check_runtimes-All (r ∷ rs) seen h =
      let (valid, rest) = >>>-none (validate_runtime is_time r) _ h in
      let (new, later) =
        >>>-none (fail_if (contains seen (runtime_key r)) "duplicate provider runtime") _ rest in
      (valid, check_runtimes-All rs (runtime_key r ∷ seen) later)

  check_runtimes-fresh :
      (rs : List Runtime) (seen : List String)
      → check_runtimes is_time rs seen ≡ none
      → fresh (map runtime_key rs) seen ≡ true
  unfolding check_runtimes
  check_runtimes-fresh [] seen h = refl
  check_runtimes-fresh (r ∷ rs) seen h =
      let (valid, rest) = >>>-none (validate_runtime is_time r) _ h in
      let (new, later) =
        >>>-none (fail_if (contains seen (runtime_key r)) "duplicate provider runtime") _ rest in
      ground (arith, fail_if-none _ _ new, check_runtimes-fresh rs (runtime_key r ∷ seen) later)

-- An accepted catalog has 1 to 32 entries, each of them valid, and no two of them have the same
-- provider and image.
pub validate_runtimes-Distinct :
    (is_time : String → Bool) (rs : List Runtime)
    → validate_runtimes is_time rs ≡ none
    → (0 < length rs)
      × (length rs ≤ 32)
      × All (λ r. validate_runtime is_time r ≡ none) rs
      × Distinct (map runtime_key rs)
unfolding validate_runtimes
validate_runtimes-Distinct is_time rs h =
    let (sizes, loop) = >>>-none _ (check_runtimes is_time rs []) h in
    (
      not-empty-pos rs (ground (arith, sizes)),
      ground (arith, sizes),
      check_runtimes-All is_time rs [] loop,
      fresh-Distinct (map runtime_key rs) [] (check_runtimes-fresh is_time rs [] loop),
    )
