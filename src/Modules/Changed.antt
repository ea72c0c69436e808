-- ===== src/Modules/Changed.antt =====
-- A change of a provider module makes earlier reviews of operations at that provider void.
use providah_community.Prelude.{
  ℕ, ◌+◌, ◌<◌, ◌≤◌, ◌≡◌, ◌⊎◌, inl, inr, refl, subst, ◌==◌, Bool, true, false, ◌&&◌, ◌||◌, String,
  none, some, List, [], ◌∷◌, if◌then◌else◌, arith, eqb,
}
use providah_community.Operation.Tables.{
  Operation, Connection, Answer, done, fault, dispatching, is_status, internal, done_same,
}
use providah_community.Operation.World.{World, ModuleRow, module_allowed}
use providah_community.Operation.Review.{Actor}
use providah_community.Operation.Dispatch.{prepare}
use providah_community.Operation.Dispatch.Authorized.{prepare-IsAuthorized}
use providah_community.Access.Outcomes.{OnDone, OnDone->>=, OnDone-done}
use providah_community.Maintenance.Policies.Fresh.{sends, nothing_sent}
use providah_community.Modules.{
  ModuleTable, ModuleChange, get_module, upsert, enabled_row, runtime_row, set_enabled, set_runtime,
  same, set_provider_module, set_provider_runtime,
}

-- A handler on modules that was answered, with the table before and after it.
pub data ModuleStep : ModuleTable → ModuleTable → Type 0 where
  switched :
      (w : World) (actor : Actor) (t : ModuleTable) (cloud : String) (enabled : Bool)
      (confirmation : String) (change : ModuleChange)
      → set_provider_module w actor t cloud enabled confirmation ≡ done change
      → ModuleStep t change.table
  selected :
      (w : World) (actor : Actor) (t : ModuleTable) (cloud id : String) (expected : ℕ)
      (confirmation : String) (change : ModuleChange)
      → set_provider_runtime w actor t cloud id expected confirmation ≡ done change
      → ModuleStep t change.table

-- The row is the same, or it has the next revision.
abbrev pub Bumped : ModuleRow → ModuleRow → Type 0
Bumped before after = (after ≡ before) ⊎ (after.revision ≡ before.revision + 1)

abbrev Kept : ModuleTable → ModuleChange → Type 0
Kept t change =
    (cloud : String) → Bumped (get_module cloud t.rows) (get_module cloud change.table.rows)

enabled_row-Bumped : (enabled : Bool) (row : ModuleRow) → Bumped row (enabled_row enabled row)
unfolding enabled_row
enabled_row-Bumped enabled row = go (same row.enabled enabled)
  where
    go :
        (b : Bool)
        → Bumped row
            (if b then row else record row { enabled = enabled; revision = row.revision + 1 })
    go true = inl refl
    go false = inr refl

runtime_row-Bumped : (id : String) (row : ModuleRow) → Bumped row (runtime_row id row)
unfolding runtime_row
runtime_row-Bumped id row = go (row.runtime_id == id)
  where
    go :
        (b : Bool)
        → Bumped row
            (if b then row else record row { runtime_id = id; revision = row.revision + 1 })
    go true = inl refl
    go false = inr refl

branch :
    (b : Bool) (x x' y y' : ModuleRow)
    → Bumped x x'
    → Bumped y y'
    → Bumped (if b then x else y) (if b then x' else y')
branch true x x' y y' hx hy = hx
branch false x x' y y' hx hy = hy

module _ (inserted : ModuleRow) (update : ModuleRow → ModuleRow) (second : inserted.revision ≡ 2)
    (updates : (row : ModuleRow) → Bumped row (update row)) where
  upsert-Bumped :
      (p cloud : String) (rows : List (String × ModuleRow))
      → Bumped (get_module p rows) (get_module p (upsert inserted update cloud rows))
  unfolding get_module upsert
  upsert-Bumped p cloud [] = go (cloud == p)
    where
      go :
          (b : Bool)
          → Bumped
              (record { enabled = true; revision = 1; runtime_id = "" })
              (if b then inserted else record { enabled = true; revision = 1; runtime_id = "" })
      go true = inr second
      go false = inl refl
  upsert-Bumped p cloud ((c, row) ∷ rows) = go (c == cloud) (upsert-Bumped p cloud rows)
    where
      go :
          (here : Bool)
          → Bumped (get_module p rows) (get_module p (upsert inserted update cloud rows))
          → Bumped (get_module p ((c, row) ∷ rows)) (
              get_module p (
                if here
                then (c, update row) ∷ rows
                else (c, row) ∷ upsert inserted update cloud rows))
      go true rest =
          branch (c == p) row (update row) (get_module p rows) (get_module p rows) (updates row)
            (inl refl)
      go false rest =
          branch (c == p) row row (get_module p rows)
            (get_module p (upsert inserted update cloud rows)) (inl refl) rest

written :
    (t : ModuleTable) (b : Bool) (change : ModuleChange)
    → Kept t change
    → Kept t (if b then record { table = t; effects = [] } else change)
written t true change h = λ cloud. inl refl
written t false change h = h

set_provider_module-Kept :
    (w : World) (actor : Actor) (t : ModuleTable) (cloud : String) (enabled : Bool)
    (confirmation : String)
    → OnDone (Kept t) (set_provider_module w actor t cloud enabled confirmation)
unfolding set_provider_module set_enabled
set_provider_module-Kept w actor t cloud enabled confirmation =
    search (OnDone->>=, written, kept) depth 12
  where
    kept :
        (p : String)
        → Bumped (get_module p t.rows) (
            get_module p (
              upsert
                (record { enabled = enabled; revision = 2; runtime_id = "" })
                (enabled_row enabled)
                cloud
                t.rows))
    kept p =
        upsert-Bumped (record { enabled = enabled; revision = 2; runtime_id = "" })
          (enabled_row enabled) refl (enabled_row-Bumped enabled) p cloud t.rows

set_provider_runtime-Kept :
    (w : World) (actor : Actor) (t : ModuleTable) (cloud id : String) (expected : ℕ)
    (confirmation : String)
    → OnDone (Kept t) (set_provider_runtime w actor t cloud id expected confirmation)
unfolding set_provider_runtime set_runtime
set_provider_runtime-Kept w actor t cloud id expected confirmation =
    search (OnDone->>=, written, kept) depth 12
  where
    kept :
        (p : String)
        → Bumped (get_module p t.rows) (
            get_module p (
              upsert
                (record { enabled = true; revision = 2; runtime_id = id })
                (runtime_row id)
                cloud
                t.rows))
    kept p =
        upsert-Bumped (record { enabled = true; revision = 2; runtime_id = id }) (runtime_row id)
          refl (runtime_row-Bumped id) p cloud t.rows

step-Kept :
    {t u : ModuleTable}
    → ModuleStep t u
    → (cloud : String) → Bumped (get_module cloud t.rows) (get_module cloud u.rows)
step-Kept (switched w actor t cloud enabled confirmation change e) =
    OnDone-done (Kept t) _ change (set_provider_module-Kept w actor t cloud enabled confirmation) e
step-Kept (selected w actor t cloud id expected confirmation change e) =
    OnDone-done (Kept t) _ change
      (set_provider_runtime-Kept w actor t cloud id expected confirmation) e

-- The module of a later revision does not allow what was reviewed under an earlier one.
module_refused :
    (w : World) (org cloud : String) (r before : ℕ) (row : ModuleRow)
    → w.module_row org cloud ≡ some row
    → row.revision ≡ before + 1
    → 0 < r
    → r ≤ before
    → module_allowed w org cloud r ≡ done true
    → ⊥
unfolding module_allowed
module_refused w org cloud r before row reads next known earlier allowed =
    let same_answer =
      subst
        (λ m.
          (elim m as (λ x. Answer Bool) [
            | none ↦ fault internal
            | some state ↦ done (state.enabled && (eqb r 0 || eqb r state.revision))
          ])
          ≡ done true)
        reads allowed in
    later_refused row.enabled r before row.revision next known earlier
      (done_same (row.enabled && (eqb r 0 || eqb r row.revision)) true same_answer)
  where
    later_refused :
        (enabled : Bool) (r before now : ℕ)
        → now ≡ before + 1
        → 0 < r
        → r ≤ before
        → (enabled && (eqb r 0 || eqb r now)) ≡ true
        → ⊥
    later_refused true r before now next known earlier h = ground arith
    later_refused false r before now next known earlier h = cc

-- After SetProviderModule or SetProviderRuntime was answered, the module of a provider is as it was,
-- or no operation at that provider whose stored revision of the module is an earlier one and not 0
-- is dispatched, where the worker reads the row that the handler left.
pub module_change-sends :
    {t u : ModuleTable}
    → ModuleStep t u
    → (w : World) (job o : Operation) (c : Connection)
    → w.module_row o.org_id c.provider ≡ some (get_module c.provider u.rows)
    → 0 < o.module_revision
    → o.module_revision ≤ (get_module c.provider t.rows).revision
    → is_status job.status dispatching ≡ true
    → (get_module c.provider u.rows ≡ get_module c.provider t.rows)
      ⊎ (sends (prepare w job o c) ≡ false)
module_change-sends {t} {u} step w job o c reads known earlier dispatches =
    elim (step-Kept step c.provider) [
      | inl unchanged ↦ inl unchanged
      | inr next ↦ inr (
          nothing_sent (prepare w job o c) (λ req effects e.
            let (held, authorized, phase, valid) =
              prepare-IsAuthorized w job o c req effects dispatches e in
            module_refused w o.org_id c.provider o.module_revision
              (get_module c.provider t.rows).revision (get_module c.provider u.rows) reads next
              known earlier authorized.provider_module))
    ]
