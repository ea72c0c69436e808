-- ===== src/Maintenance/Window.antt =====
-- The end of the window of one policy (`maintenanceWindow`).
use providah_community.Prelude.{
  ℕ, zero, suc, ◌+◌, ◌-◌, ◌*◌, ◌%◌, Bool, true, false, not, ◌&&◌, ◌||◌, if◌then◌else◌, ltb, eqb,
  contains, ℤ, ltb_ℤ, ◌-ℤ◌, pos_part,
}
use providah_community.Operation.Tables.{
  Answer, done, ◌>>=◌, ◌>>◌, refuse_if, found, internal, invalid,
}
use providah_community.Prelude.{some}
use providah_community.Schedule.{Calendar, ScheduleSpec, Zone, validate_schedule_spec}
use providah_community.Schedule.Wall.{local_time, resolve_wall}

abbrev pub two_days : ℕ
two_days = 172800

abbrev pub min_ℤ : ℤ → ℤ → ℤ
min_ℤ a b = if ltb_ℤ b a then b else a

abbrev pub max_ℤ : ℤ → ℤ → ℤ
max_ℤ a b = if ltb_ℤ a b then b else a

-- The greatest difference between the offsets in effect around the start and the instant.
unfoldable pub window_padding : Zone → ℕ → ℕ → ℕ
unfolding ◌-ℤ◌
window_padding zone after at =
    let o = zone.offset in
    let low =
      λ (t : ℕ) (m : ℤ). min_ℤ (min_ℤ (min_ℤ m (o (t - two_days))) (o t)) (o (t + two_days)) in
    let high =
      λ (t : ℕ) (m : ℤ). max_ℤ (max_ℤ (max_ℤ m (o (t - two_days))) (o t)) (o (t + two_days)) in
    pos_part (high at (high after (o at)) -ℤ low at (low after (o at)))

-- There is no further start, or it lies past the limit.
unfoldable pub is_past : ℕ → ℕ → Bool
is_past limit wall = eqb wall 0 || ltb limit wall

module _ (k : Calendar) (spec : ScheduleSpec) (zone : Zone) (seconds after at : ℕ) where
  -- A start that exists, in the time before `at`, on a date that is no exception.
  unfoldable pub opens : ℕ → Bool
  unfolding resolve_wall
  opens wall =
      let start = resolve_wall zone wall in
      not start.1
      && ltb after start.0
      && not (ltb at start.0)
      && not (contains spec.exceptions (k.date_text wall))

  -- The end of the window of a start, or the end so far.
  unfoldable pub extend : ℕ → ℕ → ℕ
  unfolding opens
  extend wall until =
      let end = (resolve_wall zone wall).0 + seconds in
      if opens wall && ltb until end then end else until

  -- The loop over the nominal starts, with its limit of iterations.
  unfoldable pub search_windows : (ℕ → ℕ) → ℕ → ℕ → ℕ → ℕ → ℕ
  unfolding extend is_past
  search_windows next limit zero wall until = until
  search_windows next limit (suc fuel) wall until = elim (is_past limit (next wall)) [
    | true ↦ until
    | false ↦ search_windows next limit fuel (next wall) (extend (next wall) until)
  ]

  -- An exception on the next local date ends a window at midnight.
  unfoldable pub clip : ℕ → ℕ
  unfolding resolve_wall
  clip until =
      let local = local_time zone at in
      let next_day = local - local % 86400 + 86400 in
      let midnight = (resolve_wall zone next_day).0 in
      if not (eqb until 0) && contains spec.exceptions (k.date_text next_day) && ltb midnight until
      then midnight
      else until

-- The end of the window on a date that is no exception.
unfoldable pub open_window : Calendar → ScheduleSpec → Zone → ℕ → ℕ → Answer ℕ
unfolding window_padding search_windows clip
open_window k spec zone seconds at = do
  next ← found (k.parse_rule spec.cron) internal
  let after = at - seconds
  let padding = window_padding zone after at
  done (
      clip k spec zone seconds after at (
        search_windows k spec zone seconds after at next (local_time zone at + padding) 6000
          (local_time zone after - padding) 0))

-- The end of the window, or 0 for none.
unfoldable pub maintenance_window : Calendar → ScheduleSpec → ℕ → ℕ → Answer ℕ
unfolding validate_schedule_spec open_window
maintenance_window k spec minutes at = do
  zone ← validate_schedule_spec k (some spec)
  refuse_if (ltb minutes 1 || ltb 1440 minutes) (invalid "Use a duration from 1 to 1,440 minutes.")
  let closed = contains spec.exceptions (k.date_text (local_time zone at))
  if closed then done 0 else open_window k spec zone (minutes * 60) at

-- `maintenanceOpen`.
unfoldable pub maintenance_open : Calendar → ScheduleSpec → ℕ → ℕ → Answer Bool
unfolding maintenance_window
maintenance_open k spec minutes at = do
  until ← maintenance_window k spec minutes at
  done (ltb at until)
