-- ===== src/Maintenance.antt =====
-- Maintenance windows (internal/core/maintenance.go): when the policies of an organization allow
-- work on a connection. Instants and wall times are those of Schedule.
pub mod Window
pub mod Search
pub mod Enough
pub mod Restricted
pub mod Policies
use providah_community.Prelude.{
  ℕ, ◌+◌, ◌-◌, ◌*◌, ◌==◌, Bool, true, false, not, ◌&&◌, ◌||◌, String, Option, none, some, List, [],
  ◌∷◌, if◌then◌else◌, ltb, eqb, contains, is_empty,
}
use Prim.Native.String.{◌++◌}
use providah_community.Operation.Tables.{
  Answer, done, fault, ◌>>=◌, ◌>>◌, refuse_if, found, internal, denied,
}
use providah_community.Schedule.{Calendar, ScheduleSpec}
use providah_community.Maintenance.Window.{maintenance_window}

-- A row of `ListMaintenancePolicies`; the specification is `none` where it cannot be read.
pub record Policy : Type 0 where
  pub id : String
  pub name : String
  pub spec : Option ScheduleSpec
  pub duration_minutes : ℕ
  pub connection_ids : List String

-- A policy without connections applies to each.
abbrev pub applies : Policy → String → Bool
applies p connection = is_empty p.connection_ids || contains p.connection_ids connection

abbrev pub closed_text : String → String
closed_text name =
    "Maintenance window closed: " ++ name
    ++ ". Request fresh review; this action will not wait for a later window."

module _ (k : Calendar) (connection : String) (at : ℕ) where
  -- The end of the window of one policy.
  unfoldable pub policy_window : Policy → Answer ℕ
  unfolding maintenance_window
  policy_window p = do spec ← found p.spec internal; maintenance_window k spec p.duration_minutes at

  -- The loop of `maintenanceRestriction`, with the end so far; an end of 0 is no end.
  unfoldable pub restriction_from : List Policy → ℕ → Answer (String × ℕ)
  unfolding policy_window
  restriction_from [] until = done ("", until)
  restriction_from (p ∷ policies) until =
      let rest = λ (end : ℕ). restriction_from policies end in
      if not (applies p connection)
      then rest until
      else (policy_window p >>= λ end.
          if not (ltb at end)
          then done (closed_text p.name, 0)
          else rest (if eqb until 0 || ltb end until then end else until))

  unfoldable pub maintenance_restriction : List Policy → Answer (String × ℕ)
  unfolding restriction_from
  maintenance_restriction policies = restriction_from policies 0

-- `maintenanceCheck`: the revision of the policies, the restriction ("" for none) and the end of the
-- window (0 for none). The organization is locked before its policies are read.
unfoldable pub maintenance_check :
    Calendar → Bool → Option ℕ → Option (List Policy) → String → ℕ → Answer (ℕ × String × ℕ)
unfolding maintenance_restriction
maintenance_check k locked revision policies connection at = do
  refuse_if (not locked) internal
  current ← found revision internal
  rows ← found policies internal
  restriction ← maintenance_restriction k connection at rows
  done (current, restriction.0, restriction.1)
