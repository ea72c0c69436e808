-- ===== src/Operation/Tick/InTime.antt =====
-- An overdue operation is not overdue after its transaction of the tick.
use providah_community.Prelude.{
  ℕ, ◌<◌, ◌≡◌, refl, Bool, true, false, ◌&&◌, ◌||◌, none, arith, ltb, inl, inr, ◌⊎◌, Bool-cases,
  if◌then◌else◌,
}
use providah_community.Operation.Tables.{
  Operation, Commit, awaiting_approval, queued, dispatching, uncertain, expired, is_status, time_of,
  is_set,
}
use providah_community.Operation.Worker.{expire, unchanged}
use providah_community.Operation.Outcome.{save_power_outcome, save_operation_outcome}
use providah_community.Operation.Tick.{overdue_pending, overdue_dispatch}

-- An operation is in time: it still waits for a decision or for a worker before its end and before
-- the end of its approval, or its worker's lease runs, or it does not wait.
pub record IsInTime (now : ℕ) (o : Operation) : Type 0 where
  pub request :
      (is_status o.status awaiting_approval || is_status o.status queued) ≡ true
      → now < o.expires_at
  pub approval :
      (is_status o.status awaiting_approval || is_status o.status queued) ≡ true
      → is_set o.approval_expires_at ≡ true
      → now < time_of o.approval_expires_at
  pub lease :
      is_status o.status dispatching ≡ true
      → is_set o.lease_until ≡ true
      → now < time_of o.lease_until

unfoldable pub late : ℕ → Operation → Bool
late now o = overdue_pending now o || overdue_dispatch now o

pub late-IsInTime : (now : ℕ) (o : Operation) → late now o ≡ false → IsInTime now o
unfolding late overdue_pending overdue_dispatch
late-IsInTime now o h = record {
  request = λ waits. ground arith;
  approval = λ waits given. ground arith;
  lease = λ runs held. ground arith;
}

settled :
    (now : ℕ) (o : Operation) (a b c : Commit) (lost over : Bool)
    → a.row.status ≡ uncertain
    → b.row.status ≡ expired
    → c.row ≡ o
    → (late now o ≡ false) ⊎ ((lost || over) ≡ true)
    → late now (if lost then a else if over then b else c).row ≡ false
unfolding late overdue_pending overdue_dispatch
settled now o a b c true over ea eb ec h = rw ea refl
settled now o a b c false true ea eb ec h = rw eb refl
settled now o a b c false false ea eb ec (inl h) = rw ec h
settled now o a b c false false ea eb ec (inr h) = cc

-- An operation that is late at the queries' instant is late for its transaction.
selected :
    (now later : ℕ) (o : Operation)
    → now < later
    → late now o ≡ true
    → ((is_status o.status dispatching && ltb (time_of o.lease_until) later)
        || ((is_status o.status queued || is_status o.status awaiting_approval)
            && (ltb o.expires_at later
                || is_set o.approval_expires_at && ltb (time_of o.approval_expires_at) later)))
      ≡ true
unfolding late overdue_pending overdue_dispatch
selected now later o after h = ground arith

pub expire-late :
    (now later : ℕ) (o : Operation) → now < later → late now (expire later o).row ≡ false
unfolding expire save_power_outcome save_operation_outcome
expire-late now later o after =
    settled now o
      (save_power_outcome later o uncertain
        "Worker ended without a confirmed outcome. Check provider state; do not retry blindly."
        none)
      (save_power_outcome later o expired "Request or approval expired before dispatch." none)
      (unchanged o) (is_status o.status dispatching && ltb (time_of o.lease_until) later)
      ((is_status o.status queued || is_status o.status awaiting_approval)
        && (ltb o.expires_at later
            || is_set o.approval_expires_at && ltb (time_of o.approval_expires_at) later))
      refl refl refl
      (elim (Bool-cases (late now o)) [
        | inl over ↦ inr (selected now later o after over)
        | inr fresh ↦ inl fresh
      ])
