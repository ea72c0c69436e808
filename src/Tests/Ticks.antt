-- ===== src/Tests/Ticks.antt =====
-- A tick after the end of a request that nobody reviewed.
use providah_community.Prelude.{
  ℕ, ◌≡◌, ◌==◌, ◌<◌, ◌≤◌, refl, arith, Option, none, List, [], ◌∷◌, All,
}
use providah_community.Operation.Tables.{Operation, Fault}
use providah_community.Operation.Tick.{overdue_pending, overdue_dispatch, expire_overdue}
use providah_community.Operation.Tick.Selected.{count}
use providah_community.Operation.Tick.InTime.{IsInTime}
use providah_community.Operation.Tick.Swept.{expire_overdue-IsInTime}
use providah_community.Tests.Fixtures.{start_request}

abbrev no_failure : Operation → Option Fault
no_failure job = none

abbrev clock : Operation → ℕ
clock job = 10001

abbrev rows : List Operation
rows = start_request ∷ []

after : (job : Operation) → 10000 < clock job
after job = omega arith

one_overdue : count (overdue_pending 10000) rows ≤ 100
unfolding count overdue_pending
one_overdue = omega arith

none_lost : count (overdue_dispatch 10000) rows ≤ 100
unfolding count overdue_dispatch
none_lost = omega arith

no_error : (expire_overdue no_failure clock 10000 rows).error ≡ none
unfolding expire_overdue ◌==◌
no_error = refl

expire_overdue-IsInTime_example :
    All (IsInTime 10000) (expire_overdue no_failure clock 10000 rows).rows
expire_overdue-IsInTime_example =
    expire_overdue-IsInTime no_failure clock 10000 rows after one_overdue none_lost no_error
