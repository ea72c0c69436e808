-- ===== src/Tests/Windows.antt =====
-- A maintenance policy that opens every minute, one hour east of UTC.
use providah_community.Prelude.{
  ℕ, ◌+◌, ◌-◌, ◌*◌, ◌/◌, ◌≡◌, refl, ◌≤◌, inr, arith, true, none, some, List, [], ◌∷◌, All, pos,
  ◌-ℤ◌, ◌==◌,
}
use providah_community.Operation.Tables.{Answer, done}
use providah_community.Schedule.{Calendar, ScheduleSpec, Zone}
use providah_community.Schedule.Next.{Occurrence, no_occurrence, next_schedule_after}
use providah_community.Schedule.Wall.{local_time}
use providah_community.Maintenance.{Policy, maintenance_restriction}
use providah_community.Maintenance.Window.{window_padding, search_windows}
use providah_community.Maintenance.Search.{Advances}
use providah_community.Maintenance.Enough.{window_search-enough}
use providah_community.Maintenance.Restricted.{IsOpen, IsEnd, restriction-IsOpen}

abbrev every_minute : ℕ → ℕ
every_minute wall = (wall / 60 + 1) * 60

abbrev east : Zone
east = record { offset = λ t. pos 3600; date = λ wall. wall - 3600 }

abbrev pub calendar : Calendar
calendar = record {
  load_location = λ s. some east;
  parse_date = λ s. true;
  parse_local = λ s. none;
  parse_rule = λ s. some every_minute;
  date_text = λ t. "2026-01-01";
  local_text = λ t. "";
  offset_text = λ o. "+01:00";
}

abbrev pub spec : ScheduleSpec
spec = record {
  action = "start";
  timezone = "Europe/Berlin";
  cron = "* * * * *";
  stop_cron = "";
  run_at = "";
  exceptions = [];
}

abbrev policies : List Policy
policies =
    record {
      id = "p";
      name = "Nights";
      spec = some spec;
      duration_minutes = 2;
      connection_ids = [];
    }
    ∷ []

-- At 1,000,000 the last start was 40 seconds ago.
window_open : maintenance_restriction calendar "c" 1000000 policies ≡ done ("", 1000080)
unfolding maintenance_restriction ◌==◌
window_open = refl

restriction-IsOpen_example :
    All (IsOpen calendar "c" 1000000 1000080) policies × IsEnd calendar "c" 1000000 1000080
restriction-IsOpen_example = restriction-IsOpen calendar "c" 1000000 policies 1000080 window_open

advances : Advances every_minute
advances wall = inr (omega arith, omega arith)

padding_small : window_padding east (1000000 - 120) 1000000 ≤ 86400
unfolding window_padding ◌-ℤ◌
padding_small = omega arith

window_search-enough_example :
    search_windows calendar spec east 120
      (1000000 - 120)
      1000000
      every_minute
      (local_time east 1000000 + window_padding east (1000000 - 120) 1000000)
      7000
      (local_time east (1000000 - 120) - window_padding east (1000000 - 120) 1000000)
      0
    ≡ search_windows calendar spec east 120
        (1000000 - 120)
        1000000
        every_minute
        (local_time east 1000000 + window_padding east (1000000 - 120) 1000000)
        6000
        (local_time east (1000000 - 120) - window_padding east (1000000 - 120) 1000000)
        0
window_search-enough_example =
    window_search-enough calendar spec east every_minute 120 1000000 7000 advances padding_small
      (omega arith) (omega arith)

abbrev value : Answer Occurrence → Occurrence
value (done o) = o
value other = no_occurrence

-- The next start after 1,000,000, and the prior one in the same slot's minute.
abbrev next : Occurrence
next = value (next_schedule_after calendar (some spec) 1000000 "" "")
