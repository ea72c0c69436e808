-- ===== src/Approvals/Saved.antt =====
-- Two edits of the resource policy that were read at the same revision.
use providah_community.Prelude.{ℕ, ◌+◌, ◌≡◌, refl, true, false, arith, eqb}
use providah_community.Operation.Tables.{done}
use providah_community.Operation.World.{World}
use providah_community.Operation.Review.{Actor}
use providah_community.Access.Outcomes.{OnDone, OnDone->>=, OnDone-done, guarded, succeeds, refused}
use providah_community.Approvals.{
  PolicyRow, PolicySaved, PolicyInput, store_policy, save_resource_policy,
}

-- The row was at the expected revision, and is at the next one.
abbrev IsStored : PolicyRow → PolicyInput → PolicySaved → Type 0
IsStored row input saved =
    (eqb row.revision input.expected_revision ≡ true) × (saved.row.revision ≡ row.revision + 1)

store_policy-IsStored :
    (actor : Actor) (row : PolicyRow) (input : PolicyInput)
    → OnDone (IsStored row input) (store_policy actor row input)
unfolding store_policy
store_policy-IsStored actor row input =
    guarded (IsStored row input) (eqb row.revision input.expected_revision) _ _ (λ h. (h, refl))

save-IsStored :
    (w : World) (actor : Actor) (row : PolicyRow) (input : PolicyInput)
    → OnDone (IsStored row input) (save_resource_policy w actor row input)
unfolding save_resource_policy
save-IsStored w actor row input = search (OnDone->>=, store_policy-IsStored) depth 12

-- After an edit of the resource policy was stored, every edit that expects the same revision is
-- refused, whoever makes it.
pub saved_once :
    (w later : World) (actor other : Actor) (row : PolicyRow) (input second : PolicyInput)
    (saved : PolicySaved)
    → save_resource_policy w actor row input ≡ done saved
    → second.expected_revision ≡ input.expected_revision
    → succeeds (save_resource_policy later other saved.row second) ≡ false
saved_once w later actor other row input second saved h expects =
    let (at, next) = OnDone-done (IsStored row input) _ saved (save-IsStored w actor row input) h in
    refused (save_resource_policy later other saved.row second) (λ again e.
      let (at_next, _) =
        OnDone-done (IsStored saved.row second) _ again (save-IsStored later other saved.row second)
          e in
      too_late row.revision saved.row.revision input.expected_revision second.expected_revision at
        next expects at_next)
  where
    too_late :
        (before now expected again : ℕ)
        → eqb before expected ≡ true
        → now ≡ before + 1
        → again ≡ expected
        → eqb now again ≡ true
        → ⊥
    too_late before now expected again at next expects at_next = ground arith
