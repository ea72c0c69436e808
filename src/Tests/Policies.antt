-- ===== src/Tests/Policies.antt =====
-- Maintenance policies that are removed while an approved operation waits.
use providah_community.Prelude.{◌≡◌, ◌==◌, refl, arith, true, false, none, some, [], ◌∷◌}
use providah_community.Operation.Tables.{done, audited}
use providah_community.Operation.World.{World, Maintenance}
use providah_community.Operation.Worker.{claim}
use providah_community.Operation.Review.{decide}
use providah_community.Operation.Dispatch.{prepare}
use providah_community.Maintenance.Policies.{PolicyTable, PolicyChange, delete_policy}
use providah_community.Maintenance.Policies.Fresh.{deleted, sends, policy_change-sends}
use providah_community.Tests.Fixtures.{connection, world_at, reviewer}
use providah_community.Tests.Windows.{calendar, spec}
use providah_community.Tests.Work.{job, job_dispatching}

-- The policies are removed after the start was approved under revision 1.
abbrev table : PolicyTable
table = record {
  org_id = "aaaaaaaaaaaaaaaaaaaaaaaaaaaaaaaaaaaaaaaaaaaaaaaaaaaaaaaaaaaaaaaa";
  active = true;
  revision = 1;
  policies =
      record {
        id = "p-1";
        name = "weekend";
        spec = some spec;
        duration_minutes = 60;
        connection_ids = [];
      }
      ∷ [];
}

abbrev removed : PolicyChange
removed = record {
  table = record table { policies = []; revision = 2 };
  effects =
      audited "aaaaaaaaaaaaaaaaaaaaaaaaaaaaaaaaaaaaaaaaaaaaaaaaaaaaaaaaaaaaaaaa" "bob@example.com"
        "maintenance.policy_deleted" "p-1"
      ∷ [];
}

removed_now :
    delete_policy calendar 1000000 (λ id. none) true reviewer "p-2" table "p-1" "weekend"
    ≡ done removed
unfolding delete_policy ◌==◌
removed_now = refl

abbrev changed : World
changed = record (world_at 210) {
  maintenance = λ org id. some (record { revision = 2; restriction = ""; until = none });
}

reads_changed :
    (m : Maintenance)
    → changed.maintenance job.org_id connection.id ≡ some m
    → m.revision ≡ removed.table.revision
reads_changed m h = grind arith

policy_change-sends_example : sends (prepare changed job job connection) ≡ false
unfolding claim decide
policy_change-sends_example =
    policy_change-sends
      (deleted calendar 1000000 (λ id. none) true reviewer "p-2" table "p-1" "weekend" removed
        removed_now)
      changed job job connection reads_changed (omega arith) job_dispatching
