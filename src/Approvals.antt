-- ===== src/Approvals.antt =====
-- SaveResourcePolicy (internal/core/resource_policy.go): which actions of an organization need an
-- approval, and whether it may create resources. What the handler answers is what it stores; the
-- code reads it again after the transaction.
pub mod Saved
use providah_community.Prelude.{
  ℕ, ◌+◌, Bool, not, ◌||◌, String, List, [], ◌∷◌, ◌++◌, eqb, contains, trim_space,
}
use providah_community.Operation.Tables.{
  Answer, done, ◌>>=◌, ◌>>◌, refuse_if, denied, invalid, conflict, Effect, audited,
}
use providah_community.Operation.World.{World, ResourcePolicy, has_permission}
use providah_community.Operation.Review.{Actor, bad_length}

-- The columns of `organizations` that hold the policy.
pub record PolicyRow : Type 0 where
  pub org_id : String
  pub policy : ResourcePolicy
  pub revision : ℕ

pub record PolicySaved : Type 0 where
  pub row : PolicyRow
  pub effects : List Effect

-- `SaveResourcePolicyRequest` within its organization.
pub record PolicyInput : Type 0 where
  pub creation_enabled : Bool
  pub expected_revision : ℕ
  pub reason : String
  pub approval_actions : List String

abbrev pub supported_actions : List String
supported_actions =
    "create" ∷ "start" ∷ "shutdown" ∷ "restart" ∷ "resize" ∷ "delete" ∷ "snapshot" ∷ "tags" ∷ []

-- The loop over the actions, with those before the current one.
unfoldable pub check_actions : List String → List String → Answer (Unit {0})
check_actions before [] = done tt
check_actions before (action ∷ actions) =
    refuse_if (not (contains supported_actions action) || contains before action)
      (invalid "Choose unique, supported approval actions.")
    >> check_actions (before ++ action ∷ []) actions

-- The update, which finds a row only at the expected revision.
unfoldable pub store_policy : Actor → PolicyRow → PolicyInput → Answer PolicySaved
store_policy actor row input =
    refuse_if (not (eqb row.revision input.expected_revision))
      (conflict "Resource policy changed. Reload before saving.")
    >> done (record {
      row = record row {
        policy = record {
          approval_actions = input.approval_actions;
          creation_enabled = input.creation_enabled;
        };
        revision = row.revision + 1;
      };
      effects = audited row.org_id actor.email "organization.resource_policy" row.org_id ∷ [];
    })

unfoldable pub save_resource_policy : World → Actor → PolicyRow → PolicyInput → Answer PolicySaved
unfolding check_actions store_policy
save_resource_policy w actor row input = do
  check_actions [] input.approval_actions
  refuse_if (bad_length (trim_space input.reason) 3 500)
      (invalid "Provide a policy change reason in 3–500 characters.")
  refuse_if (not (has_permission w row.org_id actor.user_id "roles.manage")) denied
  store_policy actor row input
