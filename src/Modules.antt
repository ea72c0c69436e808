-- ===== src/Modules.antt =====
-- SetProviderModule and SetProviderRuntime (internal/core/modules.go), on the rows of
-- provider_modules of one organization with the statements of internal/database/modules.sql.go.
pub mod Changed
use providah_community.Prelude.{
  ℕ, ◌+◌, ◌==◌, Bool, true, false, not, ◌||◌, String, List, [], ◌∷◌, if◌then◌else◌, eqb, contains,
}
use providah_community.Operation.Tables.{
  Answer, done, ◌>>◌, refuse_if, denied, invalid, conflict, Effect, audited,
}
use providah_community.Operation.World.{World, ModuleRow, runtime_available, has_permission}
use providah_community.Operation.Review.{Actor}

-- Whether the organization is active, and its rows by provider.
pub record ModuleTable : Type 0 where
  pub org_id : String
  pub active : Bool
  pub rows : List (String × ModuleRow)

pub record ModuleChange : Type 0 where
  pub table : ModuleTable
  pub effects : List Effect

abbrev pub same : Bool → Bool → Bool
same a b = if a then b else not b

-- The query `GetProviderModule`, with what it answers for a missing row.
unfoldable pub get_module : String → List (String × ModuleRow) → ModuleRow
get_module cloud [] = record { enabled = true; revision = 1; runtime_id = "" }
get_module cloud ((c, row) ∷ rows) = if c == cloud then row else get_module cloud rows

-- An insert, or an update of the row that is there.
unfoldable pub upsert :
    ModuleRow
    → (ModuleRow → ModuleRow)
    → String
    → List (String × ModuleRow)
    → List (String × ModuleRow)
upsert inserted update cloud [] = (cloud, inserted) ∷ []
upsert inserted update cloud ((c, row) ∷ rows) =
    if c == cloud then (c, update row) ∷ rows else (c, row) ∷ upsert inserted update cloud rows

-- The statement `SetProviderModule`.
unfoldable pub enabled_row : Bool → ModuleRow → ModuleRow
enabled_row enabled row =
    if same row.enabled enabled
    then row
    else record row { enabled = enabled; revision = row.revision + 1 }

unfoldable pub set_enabled : String → Bool → List (String × ModuleRow) → List (String × ModuleRow)
unfolding upsert enabled_row
set_enabled cloud enabled rows =
    upsert (record { enabled = enabled; revision = 2; runtime_id = "" }) (enabled_row enabled) cloud
      rows

-- The statement `SetProviderRuntime`.
unfoldable pub runtime_row : String → ModuleRow → ModuleRow
runtime_row id row =
    if row.runtime_id == id
    then row
    else record row { runtime_id = id; revision = row.revision + 1 }

unfoldable pub set_runtime : String → String → List (String × ModuleRow) → List (String × ModuleRow)
unfolding upsert runtime_row
set_runtime cloud id rows =
    upsert (record { enabled = true; revision = 2; runtime_id = id }) (runtime_row id) cloud rows

module _ (w : World) (actor : Actor) where
  unfoldable pub set_provider_module : ModuleTable → String → Bool → String → Answer ModuleChange
  unfolding get_module set_enabled
  set_provider_module t cloud enabled confirmation = do
    refuse_if
        (not (contains ("aws" ∷ "digitalocean" ∷ "hetzner" ∷ []) cloud)
          || not (confirmation == cloud))
        (invalid "Confirm the provider ID exactly.")
    refuse_if (not t.active) denied
    refuse_if (not (has_permission w t.org_id actor.user_id "modules.manage")) denied
    done (
        if same (get_module cloud t.rows).enabled enabled
        then record { table = t; effects = [] }
        else record {
          table = record t { rows = set_enabled cloud enabled t.rows };
          effects = audited t.org_id actor.email "provider.module_state_changed" cloud ∷ [];
        })

  unfoldable pub set_provider_runtime :
      ModuleTable → String → String → ℕ → String → Answer ModuleChange
  unfolding get_module set_runtime
  set_provider_runtime t cloud id expected confirmation = do
    refuse_if (id == "" || not (runtime_available w cloud id) || not (confirmation == cloud))
        (invalid "Choose a deployment-approved runtime and confirm the provider ID.")
    refuse_if (not t.active) denied
    refuse_if (not (has_permission w t.org_id actor.user_id "modules.manage")) denied
    refuse_if (not (eqb (get_module cloud t.rows).revision expected))
        (conflict "The module changed. Reload and review the runtime selection again.")
    done (
        if (get_module cloud t.rows).runtime_id == id
        then record { table = t; effects = [] }
        else record {
          table = record t { rows = set_runtime cloud id t.rows };
          effects = audited t.org_id actor.email "provider.runtime_changed" cloud ∷ [];
        })
