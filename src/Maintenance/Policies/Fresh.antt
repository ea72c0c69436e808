-- ===== src/Maintenance/Policies/Fresh.antt =====
-- A change of the maintenance policies makes earlier reviews of operations void.
use providah_community.Prelude.{
  ℕ, ◌+◌, ◌≤◌, ◌≡◌, refl, Bool, true, false, String, Option, some, List, arith, eqb,
}
use providah_community.Provider.Discovery.{Request}
use providah_community.Operation.Tables.{
  Operation, Connection, Answer, done, fault, Effect, dispatching, is_status,
}
use providah_community.Operation.World.{World, Maintenance}
use providah_community.Operation.Review.{Actor}
use providah_community.Operation.Dispatch.{Prepared, skipped, settled, ready, prepare}
use providah_community.Operation.Dispatch.Authorized.{prepare-IsAuthorized}
use providah_community.Access.Outcomes.{OnDone, OnDone->>=, OnDone->>, OnDone-done}
use providah_community.Schedule.{Calendar}
use providah_community.Maintenance.Policies.{
  PolicyTable, PolicyChange, PolicyInput, save_policy, delete_policy,
}

-- A handler on policies that was answered, with the table before and after it.
pub data PolicyStep : PolicyTable → PolicyTable → Type 0 where
  saved :
      (k : Calendar) (now : ℕ) (connection : String → Option Connection) (may_manage : Bool)
      (actor : Actor) (new_id : String) (t : PolicyTable) (input : PolicyInput)
      (change : PolicyChange)
      → save_policy k now connection may_manage actor new_id t input ≡ done change
      → PolicyStep t change.table
  deleted :
      (k : Calendar) (now : ℕ) (connection : String → Option Connection) (may_manage : Bool)
      (actor : Actor) (new_id : String) (t : PolicyTable) (id confirmation : String)
      (change : PolicyChange)
      → delete_policy k now connection may_manage actor new_id t id confirmation ≡ done change
      → PolicyStep t change.table

abbrev Bumps : PolicyTable → PolicyChange → Type 0
Bumps t change = change.table.revision ≡ t.revision + 1

save_policy-Bumps :
    (k : Calendar) (now : ℕ) (connection : String → Option Connection) (may_manage : Bool)
    (actor : Actor) (new_id : String) (t : PolicyTable) (input : PolicyInput)
    → OnDone (Bumps t) (save_policy k now connection may_manage actor new_id t input)
unfolding save_policy
save_policy-Bumps k now connection may_manage actor new_id t input =
    search (OnDone->>=, OnDone->>) depth 12

delete_policy-Bumps :
    (k : Calendar) (now : ℕ) (connection : String → Option Connection) (may_manage : Bool)
    (actor : Actor) (new_id : String) (t : PolicyTable) (id confirmation : String)
    → OnDone (Bumps t) (delete_policy k now connection may_manage actor new_id t id confirmation)
unfolding delete_policy
delete_policy-Bumps k now connection may_manage actor new_id t id confirmation =
    search (OnDone->>=, OnDone->>) depth 12

step-Bumps : {t u : PolicyTable} → PolicyStep t u → u.revision ≡ t.revision + 1
step-Bumps (saved k now connection may_manage actor new_id t input change e) =
    OnDone-done (Bumps t) _ change
      (save_policy-Bumps k now connection may_manage actor new_id t input) e
step-Bumps (deleted k now connection may_manage actor new_id t id confirmation change e) =
    OnDone-done (Bumps t) _ change
      (delete_policy-Bumps k now connection may_manage actor new_id t id confirmation) e

-- Whether a run sends its request to the provider.
abbrev pub sends : Answer Prepared → Bool
sends (done (ready request effects)) = true
sends other = false

-- A run that cannot be ready sends nothing.
pub nothing_sent :
    (m : Answer Prepared)
    → ((req : Request) (effects : List Effect) → m ≡ done (ready req effects) → ⊥)
    → sends m ≡ false
nothing_sent (done (ready req effects)) h = absurd (h req effects refl)
nothing_sent (done skipped) h = refl
nothing_sent (done (settled commit)) h = refl
nothing_sent (fault e) h = refl

-- After a policy was saved or deleted, no operation that was requested under an earlier revision of
-- the policies is dispatched, where the worker reads the revision that the change left.
pub policy_change-sends :
    {t u : PolicyTable}
    → PolicyStep t u
    → (w : World) (job o : Operation) (c : Connection)
    → ((m : Maintenance) → w.maintenance o.org_id c.id ≡ some m → m.revision ≡ u.revision)
    → o.maintenance_revision ≤ t.revision
    → is_status job.status dispatching ≡ true
    → sends (prepare w job o c) ≡ false
policy_change-sends step w job o c reads earlier dispatches =
    nothing_sent (prepare w job o c) (λ req effects e.
      let (held, authorized, phase, valid) =
        prepare-IsAuthorized w job o c req effects dispatches e in
      let (m, known, same, allowed) = authorized.window in
      behind m.revision o.maintenance_revision (reads m known) (step-Bumps step) same earlier)
  where
    behind : {b s : ℕ} (a r : ℕ) → a ≡ b → b ≡ s + 1 → eqb a r ≡ true → r ≤ s → ⊥
    behind a r reads_it bumped same early = ground arith
