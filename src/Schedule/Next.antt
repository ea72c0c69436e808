-- ===== src/Schedule/Next.antt =====
-- The next occurrence of a schedule (`nextScheduleAfter`).
pub mod Scanned
pub mod Later
use Prim.Native.String.{compare}
use text.Mathlib.Text.{is_lt}
use Prim.Native.String.{◌++◌ as join}
use providah_community.Prelude.{
  ℕ, zero, suc, ◌+◌, ◌-◌, ◌==◌, Bool, true, false, not, ◌&&◌, ◌||◌, String, Option, none, some,
  List, [], ◌∷◌, ◌++◌, if◌then◌else◌, any, ltb, eqb, contains, ℤ, pos, negsuc, ltb_ℤ, ◌-ℤ◌,
  pos_part,
}
use providah_community.Operation.Tables.{
  Answer, done, ◌>>=◌, ◌>>◌, refuse_if, found, internal, fault,
}
use providah_community.Schedule.{Calendar, ScheduleSpec, Zone, validate_schedule_spec}
use providah_community.Schedule.Wall.{local_time, behind, wall_offsets, resolve_wall}

-- An occurrence; the one without an instant has 0.
pub record Occurrence : Type 0 where
  pub due : ℕ
  pub local : String
  pub action : String
  pub skip : String

abbrev pub no_occurrence : Occurrence
no_occurrence = record { due = 0; local = ""; action = ""; skip = "" }

-- `slot`, the local time and the action with a NUL between them.
abbrev pub slot_of : String → String → String
slot_of local action = join local (join "\0" action)

-- The least and the greatest offset of a list, as the loop over `wallOffsets` finds them.
unfoldable pub least : List ℤ → ℤ → ℤ
least [] m = m
least (o ∷ os) m = least os (if ltb_ℤ o m then o else m)

unfoldable pub greatest : List ℤ → ℤ → ℤ
greatest [] m = m
greatest (o ∷ os) m = greatest os (if ltb_ℤ m o then o else m)

-- The earliest candidate of a wall time, or a day after it.
unfoldable pub earliest : ℕ → List ℤ → ℕ → ℕ
earliest wall [] t = t
earliest wall (o ∷ os) t = earliest wall os (if ltb (behind wall o) t then behind wall o else t)

-- The next occurrence so far, and the candidates.
pub record Scan : Type 0 where
  pub next : Occurrence
  pub candidates : List Occurrence

module _ (k : Calendar) (spec : ScheduleSpec) (zone : Zone) (after : ℕ)
    (prior_local prior_action : String) where
  unfoldable pub make_occurrence : ℕ → String → Occurrence
  unfolding resolve_wall
  make_occurrence wall action =
      let due = resolve_wall zone wall in
      record {
        due = due.0;
        local = join (k.local_text wall) (
            join " "
              (join spec.timezone (join " (" (join (k.offset_text (zone.offset due.0)) ")"))));
        action = action;
        skip =
            if contains spec.exceptions (k.date_text wall)
            then "Calendar exception."
            else if due.1
            then "Local time does not exist at the DST transition."
            else "";
      }

  abbrev pub slot : Occurrence → String
  slot o = slot_of o.local o.action

  -- After the instant, or at it and in a later slot than the prior occurrence.
  unfoldable pub eligible : Occurrence → Bool
  eligible o =
      ltb after o.due
      || eqb o.due after
        && not (prior_local == "")
        && is_lt (compare (slot_of prior_local prior_action) (slot o))

  -- Whether an occurrence comes before the one found so far.
  unfoldable pub precedes : Occurrence → Occurrence → Bool
  precedes o next =
      eqb next.due 0
      || ltb o.due next.due
      || eqb o.due next.due && is_lt (compare (slot o) (slot next))

  -- What a candidate adds to the scan.
  unfoldable pub consider : Occurrence → Scan → Scan
  unfolding eligible precedes
  consider o s = if ltb o.due after then s else record {
    next = if eligible o && precedes o s.next then o else s.next;
    candidates = s.candidates ++ o ∷ [];
  }

  -- The end of the loop over one rule: no further time, or all further ones are too late.
  unfoldable pub scan_ends : ℕ → Scan → Bool
  unfolding earliest wall_offsets
  scan_ends wall s =
      eqb wall 0
      || not (eqb s.next.due 0)
        && ltb s.next.due (earliest wall (wall_offsets zone wall) (wall + 86400))

  -- The loop over the times of one rule, with its limit of iterations.
  unfoldable pub scan_rule : (ℕ → ℕ) → String → ℕ → ℕ → Scan → Scan
  unfolding make_occurrence consider scan_ends
  scan_rule rule action zero wall s = s
  scan_rule rule action (suc fuel) wall s = elim (scan_ends (rule wall) s) [
    | true ↦ s
    | false ↦
        scan_rule rule action fuel (rule wall) (consider (make_occurrence (rule wall) action) s)
  ]

  -- The loop over the rules, each from the same start.
  unfoldable pub scan_rules : ℕ → List (String × String) → Scan → Answer Scan
  unfolding scan_rule
  scan_rules start [] s = done s
  scan_rules start ((rule, action) ∷ rules) s = do
    next ← found (k.parse_rule rule) internal
    scan_rules start rules (scan_rule next action 6000 start s)

  -- Two real paired actions at one instant block each other.
  unfoldable pub block : Scan → Occurrence
  block s =
      let o = s.next in
      if o.skip == ""
        && any (λ c. c.skip == "" && eqb c.due o.due && not (c.action == o.action)) s.candidates
      then record o { skip = "Paired actions overlap at the same instant; neither will run." }
      else o

  -- The start of the search: before the instant by the greatest difference of the offsets, and a
  -- little more to find the prior slot's minute again.
  unfoldable pub scan_start : ℕ
  unfolding least greatest wall_offsets ◌-ℤ◌
  scan_start =
      let wall = local_time zone after in
      let offsets = wall_offsets zone wall in
      let start = wall - pos_part (greatest offsets (negsuc 86399) -ℤ least offsets (pos 86400)) in
      if prior_local == "" then start else start - 1

  unfoldable pub next_of_rules : Answer Occurrence
  unfolding scan_rules block scan_start
  next_of_rules = do
    s ←
        scan_rules scan_start
          (if spec.action == "window"
            then (spec.cron, "start") ∷ (spec.stop_cron, "shutdown") ∷ []
            else (spec.cron, spec.action) ∷ [])
          (record { next = no_occurrence; candidates = [] })
    refuse_if (eqb s.next.due 0) internal
    done (block s)

  -- A schedule of one time; after it there is no occurrence, and no error.
  unfoldable pub next_once : Answer Occurrence
  unfolding make_occurrence
  next_once = do
    wall ← found (k.parse_local spec.run_at) internal
    let o = make_occurrence wall spec.action
    done (if ltb after o.due then o else no_occurrence)

unfoldable pub next_schedule_after :
    Calendar → Option ScheduleSpec → ℕ → String → String → Answer Occurrence
unfolding validate_schedule_spec next_once next_of_rules
next_schedule_after k given after prior_local prior_action = do
  zone ← validate_schedule_spec k given
  spec ← found given internal
  if not (spec.run_at == "")
      then next_once k spec zone after prior_local prior_action
      else next_of_rules k spec zone after prior_local prior_action

-- `nextSchedule`.
unfoldable pub next_schedule : Calendar → Option ScheduleSpec → ℕ → Answer Occurrence
unfolding next_schedule_after
next_schedule k given after = next_schedule_after k given after "" ""
