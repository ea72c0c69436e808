-- ===== src/Operation/Tick.antt =====
-- The first part of `operationTick` (internal/core/operations.go): overdue operations are selected
-- and ended, before an operation is claimed. The queries read one clock, each transaction has its
-- own.
pub mod Selected
pub mod InTime
pub mod Swept
use providah_community.Prelude.{
  ℕ, zero, suc, ◌==◌, Bool, ◌&&◌, ◌||◌, ◌++◌, String, Option, none, some, List, [], ◌∷◌, map, leb,
  if◌then◌else◌,
}
use providah_community.Operation.Tables.{
  Operation, Effect, Fault, awaiting_approval, queued, dispatching, is_status, time_of, is_set,
}
use providah_community.Operation.Worker.{expire}

-- The condition of the query `ExpiredPendingOperations`.
unfoldable pub overdue_pending : ℕ → Operation → Bool
overdue_pending now o =
    (is_status o.status awaiting_approval || is_status o.status queued)
    && (leb o.expires_at now
        || is_set o.approval_expires_at && leb (time_of o.approval_expires_at) now)

-- The condition of the query `ExpiredDispatches`, which no row without a lease meets.
unfoldable pub overdue_dispatch : ℕ → Operation → Bool
overdue_dispatch now o =
    is_status o.status dispatching && (is_set o.lease_until && leb (time_of o.lease_until) now)

-- The rows that meet a condition, with a limit, in the order in which the query reads the table.
unfoldable pub select : ℕ → (Operation → Bool) → List Operation → List Operation
select zero meets rows = []
select (suc n) meets [] = []
select (suc n) meets (o ∷ rows) =
    if meets o then o ∷ select n meets rows else select (suc n) meets rows

-- What the loop leaves: the table, the other writes, and the error that ended it.
pub record Sweep : Type 0 where
  pub rows : List Operation
  pub effects : List Effect
  pub error : Option Fault

-- The row of a job is expired, and no other.
unfoldable pub expire_row : ℕ → String → Operation → Operation
unfolding expire
expire_row now id o = if o.id == id then (expire now o).row else o

unfoldable pub expire_effects : ℕ → String → List Operation → List Effect
unfolding expire
expire_effects now id [] = []
expire_effects now id (o ∷ rows) =
    (if o.id == id then (expire now o).effects else []) ++ expire_effects now id rows

-- `fails` is the error of a job's transaction, in its locks or its writes: it rolls the transaction
-- back and ends the tick. `clock` is the instant of a job's transaction.
module _ (fails : Operation → Option Fault) (clock : Operation → ℕ) where
  unfoldable pub expire_jobs : List Operation → List Operation → List Effect → Sweep
  unfolding expire_row expire_effects
  expire_jobs [] rows effects = record { rows = rows; effects = effects; error = none }
  expire_jobs (job ∷ jobs) rows effects = elim (fails job) [
    | some e ↦ record { rows = rows; effects = effects; error = some e }
    | none ↦
        expire_jobs jobs (map (expire_row (clock job) job.id) rows)
          (effects ++ expire_effects (clock job) job.id rows)
  ]

  unfoldable pub expire_overdue : ℕ → List Operation → Sweep
  unfolding overdue_pending overdue_dispatch select expire_jobs
  expire_overdue now rows =
      expire_jobs (select 100 (overdue_pending now) rows ++ select 100 (overdue_dispatch now) rows)
        rows []
