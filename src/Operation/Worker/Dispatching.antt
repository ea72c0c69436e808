-- ===== src/Operation/Worker/Dispatching.antt =====
-- What it means that the checks of a dispatch find no failure.
use providah_community.Prelude.{
  ℕ, ◌≡◌, refl, ◌==◌, arith, Bool, true, false, not, ◌||◌, String, Option, none, some, eqb,
  or_false, subst,
}
use providah_community.Operation.Tables.{
  Operation, Connection, done, Fault, internal, found, >>=-eq-done, done_same, is_set, text_of,
}
use providah_community.Operation.World.{
  World, power_permission, module_allowed, operation_authority, needs_authority, approval_required,
}
use providah_community.Operation.Worker.{
  overrule, authority_revoked, check_template, unapproved, check_maintenance, check_dispatch,
}
use providah_community.Operation.Worker.Conditions.{HasApproval, Dispatchable}

pub overrule-none :
    (test : Bool) (message : String) (failure : Option String)
    → overrule test message failure ≡ none
    → (test ≡ false) × (failure ≡ none)
overrule-none true message failure h = cc
overrule-none false message failure h = (refl, h)

pub approval_given :
    (w : World) (o : Operation)
    → unapproved w o ≡ false
    → (approval_required w o.org_id o.action (not (o.maintenance_exception_reason == ""))
        || is_set o.approver_id
        || is_set o.schedule_id)
      ≡ true
    → HasApproval w o
unfolding unapproved
approval_given w o h needed = record {
  given = ground arith;
  independent = ground arith;
  limited = ground arith;
  current = ground arith;
  permitted = ground arith;
}

pub authority_kept :
    (w : World) (o : Operation)
    → authority_revoked w o ≡ false
    → needs_authority o.action ≡ true
    → (power_permission w o.org_id o.requester_id (operation_authority o.action) ≡ true)
      × (is_set o.approver_id ≡ true
          → power_permission w o.org_id (text_of o.approver_id) (operation_authority o.action)
            ≡ true)
unfolding authority_revoked
authority_kept w o h needed = (ground arith, λ approved. ground arith)

check_template-none :
    (w : World) (o : Operation) (failure : Option String)
    → check_template w o failure ≡ none
    → failure ≡ none
unfolding check_template
check_template-none w o failure h = let (test, rest) = overrule-none _ _ _ h in rest

found-done : {A : Type 0} (o : Option A) (e : Fault) {a : A} → found o e ≡ done a → o ≡ some a
found-done none e h = cc
found-done (some b) e h = cc

check_maintenance-none :
    (w : World) (o : Operation) (revision : ℕ) (restriction : String) (failure : Option String)
    → check_maintenance w o revision restriction failure ≡ none
    → (failure ≡ none)
      × (eqb revision o.maintenance_revision ≡ true)
      × ((o.maintenance_exception_reason == "") ≡ true → (restriction == "") ≡ true)
unfolding check_maintenance
check_maintenance-none w o revision restriction failure h =
    (ground arith, ground arith, λ plain. ground arith)

pub not-false : (b : Bool) → not b ≡ false → b ≡ true
not-false b h = ground arith

pub check_dispatch-IsDispatchable :
    (w : World) (o : Operation) (c : Connection) (failure : Option String)
    → check_dispatch w o c failure ≡ done none
    → (failure ≡ none) × Dispatchable w o c
unfolding check_dispatch
check_dispatch-IsDispatchable w o c failure h =
    let (allowed, asked, h) =
      >>=-eq-done (module_allowed w o.org_id c.provider o.module_revision) _ h in
    let (m, maintained, h) = >>=-eq-done (found (w.maintenance o.org_id c.id) internal) _ h in
    let (approved, h) = overrule-none _ _ _ (done_same _ _ h) in
    let (late, h) = overrule-none _ _ _ h in
    let (changed, h) = overrule-none _ _ _ h in
    let (h, revision, window) = check_maintenance-none w o m.revision m.restriction _ h in
    let h = check_template-none w o _ h in
    let (module_off, h) = overrule-none _ _ _ h in
    let (unsupported, h) = overrule-none _ _ _ h in
    let (forbidden, h) = overrule-none _ _ _ h in
    (
      h,
      record {
        creation = not-false _ forbidden;
        supported = not-false _ unsupported;
        provider_module =
            subst (λ b. module_allowed w o.org_id c.provider o.module_revision ≡ done b)
              (not-false _ module_off) asked;
        unchanged = λ other. ground arith;
        window = (m, found-done _ _ maintained, revision, window);
        in_time = (or_false _ _ late).0;
        approved = approved;
      },
    )
