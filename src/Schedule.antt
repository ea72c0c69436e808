-- ===== src/Schedule.antt =====
-- Schedules in local time (internal/core/schedule_time.go). An instant is the number of seconds since
-- the zero time of Go, so the zero time is 0; a wall time is the instant that shows it in UTC. What
-- the packages `time` and `cron` compute is a parameter.
pub mod Wall
pub mod Earliest
pub mod Next
use providah_community.Prelude.{
  ℕ, ◌==◌, Bool, true, false, not, ◌&&◌, ◌||◌, String, len, Option, none, some, List, [], ◌∷◌,
  if◌then◌else◌, ltb, length, contains, codes, occurs, ℤ,
}
use providah_community.Operation.Tables.{
  Answer, done, ◌>>=◌, ◌>>◌, refuse_if, found, invalid, is_set,
}

-- `ScheduleSpec`.
pub record ScheduleSpec : Type 0 where
  pub action : String
  pub timezone : String
  pub cron : String
  pub stop_cron : String
  pub run_at : String
  pub exceptions : List String

-- A location: the offset from UTC in effect at an instant, and the instant that `time.Date` takes
-- for a wall time.
pub record Zone : Type 0 where
  pub offset : ℕ → ℤ
  pub date : ℕ → ℕ

-- What the packages compute. `parse_rule` answers the method `Next` of the rule; a wall time that
-- it cannot find is 0.
pub record Calendar : Type 0 where
  pub load_location : String → Option Zone
  pub parse_date : String → Bool
  pub parse_local : String → Option ℕ
  pub parse_rule : String → Option (ℕ → ℕ)
  pub date_text : ℕ → String
  pub local_text : ℕ → String
  pub offset_text : ℤ → String

module _ (k : Calendar) where
  unfoldable pub check_dates : List String → Answer (Unit {0})
  check_dates [] = done tt
  check_dates (day ∷ days) =
      refuse_if (not (k.parse_date day)) (invalid "Exception dates must use YYYY-MM-DD.")
      >> check_dates days

  unfoldable pub check_rules : List String → Answer (Unit {0})
  unfolding occurs
  check_rules [] = done tt
  check_rules (rule ∷ rules) =
      refuse_if (ltb 120 (len rule) || occurs (codes "TZ=") (codes rule))
        (invalid "Use a five-field cron rule and the separate timezone field.")
      >> (refuse_if (not (is_set (k.parse_rule rule)))
            (invalid "Use a valid five-field cron rule: minute hour day month weekday.")
          >> check_rules rules)

  -- The checks of a one-time schedule.
  unfoldable pub check_once : ScheduleSpec → Answer (Unit {0})
  check_once spec = do
    refuse_if (not (spec.cron == "") || not (spec.stop_cron == "") || spec.action == "window")
        (invalid "One-time schedules cannot also contain recurrence rules.")
    refuse_if (not (is_set (k.parse_local spec.run_at)))
        (invalid "Choose a local date and time for the one-time action.")

  -- The checks of a schedule that recurs.
  unfoldable pub check_recurrence : ScheduleSpec → Answer (Unit {0})
  unfolding check_rules
  check_recurrence spec = do
    refuse_if (not (spec.action == "window") && not (spec.stop_cron == ""))
        (invalid "A shutdown rule is only used with a paired window.")
    check_rules
        (if spec.action == "window" then spec.cron ∷ spec.stop_cron ∷ [] else spec.cron ∷ [])

  -- The location of a valid specification.
  unfoldable pub validate_schedule_spec : Option ScheduleSpec → Answer Zone
  unfolding check_dates check_once check_recurrence
  validate_schedule_spec given = do
    spec ← found given (invalid "Choose a supported schedule action.")
    refuse_if (not (contains ("start" ∷ "shutdown" ∷ "restart" ∷ "window" ∷ []) spec.action))
        (invalid "Choose a supported schedule action.")
    refuse_if (spec.timezone == "" || spec.timezone == "Local" || ltb 100 (len spec.timezone))
        (invalid "Choose an IANA timezone, such as America/New_York.")
    zone ← found (k.load_location spec.timezone) (invalid "Unknown timezone.")
    refuse_if (ltb 100 (length spec.exceptions))
        (invalid "Use at most 100 calendar exception dates.")
    check_dates spec.exceptions
    if not (spec.run_at == "") then check_once spec else check_recurrence spec
    done zone
