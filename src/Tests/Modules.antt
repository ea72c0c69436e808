-- ===== src/Tests/Modules.antt =====
-- The module of a cloud is switched off while an approved operation waits, and the resource policy
-- is edited twice.
use providah_community.Prelude.{◌≡◌, ◌⊎◌, ◌==◌, refl, arith, true, false, some, [], ◌∷◌, trim_space}
use providah_community.Operation.Tables.{done, audited}
use providah_community.Operation.World.{World, has_permission}
use providah_community.Operation.Worker.{claim}
use providah_community.Operation.Review.{decide}
use providah_community.Operation.Dispatch.{prepare}
use providah_community.Maintenance.Policies.Fresh.{sends}
use providah_community.Modules.{
  ModuleTable, ModuleChange, get_module, set_enabled, set_provider_module,
}
use providah_community.Modules.Changed.{switched, module_change-sends}
use providah_community.Access.Outcomes.{succeeds}
use providah_community.Approvals.{
  PolicyRow, PolicyInput, PolicySaved, check_actions, store_policy, save_resource_policy,
}
use providah_community.Approvals.Saved.{saved_once}
use providah_community.Tests.Fixtures.{connection, world_at, reviewer}
use providah_community.Tests.Work.{job, job_dispatching}

-- No row yet: every module is on, at revision 1.
abbrev fresh : ModuleTable
fresh = record {
  org_id = "aaaaaaaaaaaaaaaaaaaaaaaaaaaaaaaaaaaaaaaaaaaaaaaaaaaaaaaaaaaaaaaa";
  active = true;
  rows = [];
}

abbrev manager_world : World
manager_world = record (world_at 100) { permissions = λ org user. some ("modules.manage" ∷ []) }

abbrev off : ModuleChange
off = record {
  table = record fresh { rows = set_enabled "hetzner" false [] };
  effects =
      audited "aaaaaaaaaaaaaaaaaaaaaaaaaaaaaaaaaaaaaaaaaaaaaaaaaaaaaaaaaaaaaaaa" "bob@example.com"
        "provider.module_state_changed" "hetzner"
      ∷ [];
}

switched_off : set_provider_module manager_world reviewer fresh "hetzner" false "hetzner" ≡ done off
unfolding set_provider_module ◌==◌ has_permission
switched_off = refl

abbrev later_world : World
later_world = record (world_at 210) {
  module_row = λ org cloud. some (get_module cloud off.table.rows);
}

module_change-sends_example :
    (get_module "hetzner" off.table.rows ≡ get_module "hetzner" [])
    ⊎ (sends (prepare later_world job job connection) ≡ false)
unfolding claim decide get_module
module_change-sends_example =
    module_change-sends
      (switched manager_world reviewer fresh "hetzner" false "hetzner" off switched_off) later_world
      job job connection refl (omega arith) (omega arith) job_dispatching

-- Two edits of the resource policy at revision 4.
abbrev stored : PolicyRow
stored = record {
  org_id = "aaaaaaaaaaaaaaaaaaaaaaaaaaaaaaaaaaaaaaaaaaaaaaaaaaaaaaaaaaaaaaaa";
  policy = record { approval_actions = "delete" ∷ []; creation_enabled = false };
  revision = 4;
}

abbrev stricter : PolicyInput
stricter = record {
  creation_enabled = false;
  expected_revision = 4;
  reason = "two people for restarts";
  approval_actions = "delete" ∷ "restart" ∷ [];
}

abbrev looser : PolicyInput
looser = record stricter { approval_actions = []; reason = "no approvals" }

abbrev policy_world : World
policy_world = record (world_at 100) { permissions = λ org user. some ("roles.manage" ∷ []) }

abbrev saved : PolicySaved
saved = record {
  row = record stored {
    policy = record { approval_actions = "delete" ∷ "restart" ∷ []; creation_enabled = false };
    revision = 5;
  };
  effects =
      audited "aaaaaaaaaaaaaaaaaaaaaaaaaaaaaaaaaaaaaaaaaaaaaaaaaaaaaaaaaaaaaaaa" "bob@example.com"
        "organization.resource_policy"
        "aaaaaaaaaaaaaaaaaaaaaaaaaaaaaaaaaaaaaaaaaaaaaaaaaaaaaaaaaaaaaaaa"
      ∷ [];
}

saved_now : save_resource_policy policy_world reviewer stored stricter ≡ done saved
unfolding save_resource_policy check_actions store_policy ◌==◌ has_permission trim_space
saved_now = refl

saved_once_example : succeeds (save_resource_policy policy_world reviewer saved.row looser) ≡ false
saved_once_example =
    saved_once policy_world policy_world reviewer reviewer stored stricter looser saved saved_now
      refl
