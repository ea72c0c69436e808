-- ===== src/Maintenance/Policies.antt =====
-- SaveMaintenancePolicy and DeleteMaintenancePolicy (internal/core/maintenance.go), on the policies
-- of one organization and their revision.
pub mod Fresh
use providah_community.Prelude.{
  ℕ, ◌+◌, ◌==◌, Bool, true, false, not, ◌&&◌, ◌||◌, String, len, Option, none, some, List, [], ◌∷◌,
  if◌then◌else◌, any, map, ltb, leb, length, trim_space,
}
use providah_community.Operation.Tables.{
  Connection, Answer, done, fault, ◌>>=◌, ◌>>◌, refuse_if, found, denied, invalid, conflict, Effect,
  audited,
}
use providah_community.Operation.Review.{Actor}
use providah_community.Access.{sorted_set}
use providah_community.Schedule.{Calendar, ScheduleSpec}
use providah_community.Schedule.Next.{next_schedule}
use providah_community.Maintenance.{Policy}

-- The rows of an organization, whether it is active, and the query of the user's permissions.
pub record PolicyTable : Type 0 where
  pub org_id : String
  pub active : Bool
  pub revision : ℕ
  pub policies : List Policy

pub record PolicyChange : Type 0 where
  pub table : PolicyTable
  pub effects : List Effect

-- `SaveMaintenancePolicyRequest` within its organization.
pub record PolicyInput : Type 0 where
  pub id : String
  pub name : String
  pub timezone : String
  pub cron : String
  pub exceptions : List String
  pub duration_minutes : ℕ
  pub connection_ids : List String

-- The query `DeleteMaintenancePolicy`.
unfoldable pub without_policy : String → String → List Policy → List Policy
without_policy id name [] = []
without_policy id name (p ∷ rest) =
    if p.id == id && p.name == name then rest else p ∷ without_policy id name rest

module _ (k : Calendar) (now : ℕ) (connection : String → Option Connection) (may_manage : Bool)
    (actor : Actor) (new_id : String) where
  unfoldable pub check_connections : List String → Answer (Unit {0})
  check_connections [] = done tt
  check_connections (id ∷ ids) =
      found (connection id) denied >>= λ c. refuse_if c.deleted denied >> check_connections ids

  -- The lock of the organization and the permission.
  unfoldable pub check_manager : PolicyTable → Answer (Unit {0})
  check_manager t = do refuse_if (not t.active) denied; refuse_if (not may_manage) denied

  -- The rows with the policy, as an insert or as an update.
  unfoldable pub write_policy : PolicyTable → String → Policy → Answer (List Policy)
  write_policy t given p =
      if given == ""
      then (refuse_if (leb 100 (length t.policies))
            (conflict "The current limit is 100 maintenance policies per organization.")
          >> done (p ∷ t.policies))
      else (refuse_if (not (any (λ q. q.id == given) t.policies)) denied
          >> done (map (λ q. if q.id == given then p else q) t.policies))

  unfoldable pub save_policy : PolicyTable → PolicyInput → Answer PolicyChange
  unfolding next_schedule sorted_set check_connections check_manager write_policy
  save_policy t input = do
    let name = trim_space input.name
    refuse_if
        (ltb (len name) 1
          || ltb 120 (len name)
          || ltb 100 (length input.connection_ids)
          || ltb input.duration_minutes 1
          || ltb 1440 input.duration_minutes)
        (invalid "Name the policy, use 1–1,440 minutes, and select at most 100 connections.")
    let spec : ScheduleSpec = record {
      action = "start";
      timezone = input.timezone;
      cron = input.cron;
      stop_cron = "";
      run_at = "";
      exceptions = input.exceptions;
    }
    next ← next_schedule k (some spec) now
    let ids = sorted_set input.connection_ids
    check_connections ids
    check_manager t
    let id = if input.id == "" then new_id else input.id
    rows ← write_policy t input.id (record {
      id = id;
      name = name;
      spec = some spec;
      duration_minutes = input.duration_minutes;
      connection_ids = ids;
    })
    done (record {
      table = record t { policies = rows; revision = t.revision + 1 };
      effects = audited t.org_id actor.email "maintenance.policy_saved" id ∷ [];
    })

  unfoldable pub delete_policy : PolicyTable → String → String → Answer PolicyChange
  unfolding check_manager without_policy
  delete_policy t id confirmation = do
    check_manager t
    refuse_if (not (any (λ q. q.id == id && q.name == confirmation) t.policies))
        (invalid "Type the exact policy name to remove it.")
    done (record {
      table = record t {
        policies = without_policy id confirmation t.policies;
        revision = t.revision + 1;
      };
      effects = audited t.org_id actor.email "maintenance.policy_deleted" id ∷ [];
    })
