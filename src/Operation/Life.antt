-- ===== src/Operation/Life.antt =====
-- The life of one row of the operations table: the handlers and the worker's transactions as steps.
-- Each step has its own world, clock, actor and connection; between two steps anything else of the
-- database may change.
pub mod Stages
pub mod Moves
pub mod Laws
use providah_community.Prelude.{
  ℕ, ◌+◌, ◌≡◌, Bool, true, false, ◌||◌, String, Option, some, if◌then◌else◌,
}
use providah_community.Provider.Discovery.{Response}
use providah_community.Operation.Tables.{
  Operation, Connection, Status, awaiting_approval, queued, dispatching, observing, uncertain,
  succeeded, rejected, canceled, expired, resolved, is_status, Answer, done, Commit,
}
use providah_community.Operation.World.{World}
use providah_community.Operation.Review.{
  Actor, review_operation, cancel_operation, reconcile_operation, resolve_operation,
}
use providah_community.Operation.Worker.{expire, claimable, claim}
use providah_community.Operation.Dispatch.{Prepared, settled, prepare}
use providah_community.Operation.Settle.{settle}

-- A transaction that changes the row `o` into another.
pub data Step : Operation → Operation → Type 0 where
  reviewed :
      (w : World) (actor : Actor) (approve : Bool) (reason : String) (o : Operation)
      (c : Connection) (commit : Commit)
      → review_operation w actor approve reason o c ≡ done commit
      → Step o commit.row
  withdrawn :
      (w : World) (actor : Actor) (o : Operation) (c : Connection) (commit : Commit)
      → cancel_operation w actor o c ≡ done commit
      → Step o commit.row
  rechecked :
      (w : World) (actor : Actor) (o : Operation) (c : Connection) (commit : Commit)
      → reconcile_operation w actor o c ≡ done commit
      → Step o commit.row
  resolved_by_hand :
      (w : World) (actor : Actor) (reason : String) (o : Operation) (c : Connection)
      (commit : Commit)
      → resolve_operation w actor reason o c ≡ done commit
      → Step o commit.row
  ticked : (now : ℕ) (o : Operation) → Step o (expire now o).row
  claimed : (now : ℕ) (o : Operation) → claimable now o ≡ true → Step o (claim now o)
  stopped :
      (w : World) (now : ℕ) (before : Operation)
      → claimable now before ≡ true
      → (o : Operation) (c : Connection) (commit : Commit)
      → prepare w (claim now before) o c ≡ done (settled commit)
      → Step o commit.row
  answered :
      (w : World) (is_ip : String → Bool) (now : ℕ) (before : Operation)
      → claimable now before ≡ true
      → (response : Option Response) (o : Operation) (commit : Commit)
      → settle w is_ip (claim now before) response o ≡ done (some commit)
      → Step o commit.row

-- Some steps, one after the other.
pub data Steps : Operation → Operation → Type 0 where
  stay : (o : Operation) → Steps o o
  then_on : {o p q : Operation} → Step o p → Steps p q → Steps o q

-- Whether a step claims the operation for a dispatch.
unfoldable pub step_dispatches : {o p : Operation} → Step o p → ℕ
step_dispatches (claimed now o h) = if is_status o.status queued then 1 else 0
step_dispatches other = 0

-- How many of the steps claim the operation for a dispatch.
unfoldable pub dispatches : {o p : Operation} → Steps o p → ℕ
unfolding step_dispatches
dispatches (stay o) = 0
dispatches (then_on step rest) = step_dispatches step + dispatches rest

-- The changes of status that the handlers are to make, as a table.
unfoldable pub may_move : Status → Status → Bool
may_move awaiting_approval t =
    is_status t queued || is_status t rejected || is_status t canceled || is_status t expired
may_move queued t = is_status t dispatching || is_status t canceled || is_status t expired
may_move dispatching t =
    is_status t observing
    || is_status t succeeded
    || is_status t Status.failed
    || is_status t uncertain
    || is_status t canceled
may_move observing t =
    is_status t observing
    || is_status t succeeded
    || is_status t Status.failed
    || is_status t uncertain
may_move uncertain t = is_status t observing || is_status t resolved
may_move final t = false

-- The statuses that no transaction changes.
abbrev pub is_final : Status → Bool
is_final succeeded = true
is_final Status.failed = true
is_final rejected = true
is_final canceled = true
is_final expired = true
is_final resolved = true
is_final other = false
