-- ===== src/Operation/Tick/Swept.antt =====
-- What a tick leaves of overdue operations.
use providah_community.Prelude.{
  ℕ, ◌<◌, ◌≤◌, ◌≡◌, refl, ◌==◌, ==_iff, Bool, true, false, ◌||◌, ◌++◌, Option, none, some, List, [],
  ◌∷◌, any, map, All, In, arith, inl, inr, ◌⊎◌, if◌then◌else◌,
}
use providah_community.Operation.Tables.{Operation, Effect, Fault}
use providah_community.Operation.Worker.{expire}
use providah_community.Operation.Tick.{
  overdue_pending, overdue_dispatch, select, Sweep, expire_row, expire_effects, expire_jobs,
  expire_overdue,
}
use providah_community.Operation.Tick.Selected.{count, select-any}
use providah_community.Operation.Tick.InTime.{IsInTime, late, late-IsInTime, expire-late}

-- A row is in time, or one of the jobs is for it.
abbrev Covered : ℕ → List Operation → Operation → Type 0
Covered now jobs o = (late now o ≡ false) ⊎ (any (λ j. j.id == o.id) jobs ≡ true)

-- A job's transaction leaves its own row in time, and each row covered by the other jobs.
expire_row-Covered :
    (now later : ℕ) (job : Operation) (jobs : List Operation) (o : Operation)
    → now < later
    → Covered now (job ∷ jobs) o
    → Covered now jobs (expire_row later job.id o)
unfolding expire_row
expire_row-Covered now later job jobs o after covered =
    choose (o.id == job.id) (expire later o).row (expire-late now later o after) (λ other.
      elim covered [
        | inl fresh ↦ inl fresh
        | inr found ↦ inr (elsewhere (job.id == o.id) _ (differs other) found)
      ])
  where
    choose :
        (b : Bool) (x : Operation)
        → late now x ≡ false
        → (b ≡ false → Covered now jobs o)
        → Covered now jobs (if b then x else o)
    choose true x fresh h = inl fresh
    choose false x fresh h = h refl

    elsewhere : (b rest : Bool) → b ≡ false → (b || rest) ≡ true → rest ≡ true
    elsewhere b rest e h = ground arith

    differs : (o.id == job.id) ≡ false → (job.id == o.id) ≡ false
    differs other = ground (arith, ==_iff o.id job.id, ==_iff job.id o.id)

each_row :
    (now later : ℕ) (job : Operation) (jobs rows : List Operation)
    → now < later
    → All (Covered now (job ∷ jobs)) rows
    → All (Covered now jobs) (map (expire_row later job.id) rows)
each_row now later job jobs [] after h = tt
each_row now later job jobs (o ∷ rows) after (covered, h) = (
  expire_row-Covered now later job jobs o after covered,
  each_row now later job jobs rows after h,
)

all_fresh : (now : ℕ) (rows : List Operation) → All (Covered now []) rows → All (IsInTime now) rows
all_fresh now [] h = tt
all_fresh now (o ∷ rows) (inl fresh, h) = (late-IsInTime now o fresh, all_fresh now rows h)
all_fresh now (o ∷ rows) (inr none_left, h) = absurd cc

expire_jobs-IsInTime :
    (fails : Operation → Option Fault) (clock : Operation → ℕ) (now : ℕ)
    (jobs rows : List Operation) (effects : List Effect)
    → ((job : Operation) → now < clock job)
    → All (Covered now jobs) rows
    → (expire_jobs fails clock jobs rows effects).error ≡ none
    → All (IsInTime now) (expire_jobs fails clock jobs rows effects).rows
unfolding expire_jobs
expire_jobs-IsInTime fails clock now [] rows effects after h none_failed = all_fresh now rows h
expire_jobs-IsInTime fails clock now (job ∷ jobs) rows effects after h none_failed =
    ended (fails job)
      (expire_jobs-IsInTime fails clock now jobs (map (expire_row (clock job) job.id) rows)
        (effects ++ expire_effects (clock job) job.id rows) after
        (each_row now (clock job) job jobs rows (after job) h))
      none_failed
  where
    ended :
        (failure : Option Fault)
        → ((expire_jobs fails clock jobs
                (map (expire_row (clock job) job.id) rows)
                (effects ++ expire_effects (clock job) job.id rows)).error
              ≡ none
            → All
                (IsInTime now)
                (expire_jobs fails clock jobs
                  (map (expire_row (clock job) job.id) rows)
                  (effects ++ expire_effects (clock job) job.id rows)).rows)
        → (elim failure as (λ x. Sweep) [
          | some e ↦ record { rows = rows; effects = effects; error = some e }
          | none ↦
              expire_jobs fails clock jobs
                (map (expire_row (clock job) job.id) rows)
                (effects ++ expire_effects (clock job) job.id rows)
        ]).error
          ≡ none
        → All
            (IsInTime now)
            (elim failure as (λ x. Sweep) [
              | some e ↦ record { rows = rows; effects = effects; error = some e }
              | none ↦
                  expire_jobs fails clock jobs
                    (map (expire_row (clock job) job.id) rows)
                    (effects ++ expire_effects (clock job) job.id rows)
            ]).rows
    ended (some e) rest failed = absurd cc
    ended none rest passed = rest passed

-- The rows of a table, each met by a predicate.
each {ℓ} : {A : Type 0} (P : A → Type ℓ) (xs : List A) → ((x : A) → In x xs → P x) → All P xs
each P [] h = tt
each P (x ∷ xs) h = (h x (In.here refl), each P xs (λ y m. h y (In.there m)))

any-append :
    (p : Operation → Bool) (xs ys : List Operation)
    → (any p xs || any p ys) ≡ true
    → any p (xs ++ ys) ≡ true
any-append p [] ys h = h
any-append p (x ∷ xs) ys h = let rest = any-append p xs ys in ground (arith, rest)

-- A tick whose transactions meet no error leaves every operation in time, as of the instant of its
-- queries, where at most 100 requests and at most 100 dispatches are overdue and the clock of each
-- transaction is later than that instant.
pub expire_overdue-IsInTime :
    (fails : Operation → Option Fault) (clock : Operation → ℕ) (now : ℕ) (rows : List Operation)
    → ((job : Operation) → now < clock job)
    → count (overdue_pending now) rows ≤ 100
    → count (overdue_dispatch now) rows ≤ 100
    → (expire_overdue fails clock now rows).error ≡ none
    → All (IsInTime now) (expire_overdue fails clock now rows).rows
unfolding expire_overdue late
expire_overdue-IsInTime fails clock now rows after few_pending few_dispatches no_error =
    expire_jobs-IsInTime fails clock now
      (select 100 (overdue_pending now) rows ++ select 100 (overdue_dispatch now) rows) rows []
      after
      (each
        (Covered now
          (select 100 (overdue_pending now) rows ++ select 100 (overdue_dispatch now) rows))
        rows (λ o m. covered o m (overdue_pending now o) (overdue_dispatch now o) refl refl))
      no_error
  where
    or_left : (a b : Bool) → a ≡ true → (a || b) ≡ true
    or_left a b h = ground arith

    or_right : (a b : Bool) → b ≡ true → (a || b) ≡ true
    or_right a b h = ground arith

    covered :
        (o : Operation)
        → In o rows
        → (p d : Bool) → overdue_pending now o ≡ p
        → overdue_dispatch now o ≡ d
        → Covered now
            (select 100 (overdue_pending now) rows ++ select 100 (overdue_dispatch now) rows)
            o
    covered o m true d ep ed = inr (
        any-append (λ j. j.id == o.id) (select 100 (overdue_pending now) rows)
          (select 100 (overdue_dispatch now) rows)
          (or_left (any (λ j. j.id == o.id) (select 100 (overdue_pending now) rows)) _
            (select-any 100 (overdue_pending now) rows o few_pending m ep)))
    covered o m false true ep ed = inr (
        any-append (λ j. j.id == o.id) (select 100 (overdue_pending now) rows)
          (select 100 (overdue_dispatch now) rows)
          (or_right (any (λ j. j.id == o.id) (select 100 (overdue_pending now) rows)) _
            (select-any 100 (overdue_dispatch now) rows o few_dispatches m ed)))
    covered o m false false ep ed = inl (rw (ep, ed) refl)
