-- ===== src/Operation/Review/Independent.antt =====
-- Who decides on a request: someone else, with the permission and the authority of the action.
use providah_community.Prelude.{
  ◌≡◌, refl, ◌==◌, arith, Bool, true, false, not, ◌&&◌, ◌||◌, String, some, if◌then◌else◌, ltb, eqb,
  ap, sym, or_false, trim_space,
}
use providah_community.Operation.Tables.{
  Operation, Connection, awaiting_approval, queued, rejected, is_status, done, refuse_if,
  >>-eq-done, >>=-eq-done, done_same, Commit, Fault, internal, found, is_set, time_of,
}
use providah_community.Operation.World.{
  World, power_permission, needs_authority, operation_authority, creation_permitted, require_module,
  has_permission,
}
use providah_community.Operation.Review.{
  Actor, review_operation, check_approver, check_approval, target_changed, decide, bad_length,
}

-- A decision that was accepted, and the row that it leaves.
pub record IsIndependent (w : World) (actor : Actor) (approve : Bool) (o : Operation)
    (c : Connection) (commit : Commit) : Type 0 where
  pub someone_else : (o.requester_id == actor.user_id) ≡ false
  pub permitted : power_permission w o.org_id actor.user_id "operations.approve" ≡ true
  pub authority :
      needs_authority o.action ≡ true
      → power_permission w o.org_id actor.user_id (operation_authority o.action) ≡ true
  pub waiting : is_status o.status awaiting_approval ≡ true
  pub in_time : ltb o.expires_at w.now ≡ false
  pub target : approve ≡ true → target_changed w actor o c ≡ false
  pub creation : approve ≡ true → creation_permitted w o.org_id o.action ≡ true
  pub recorded : commit.row.approver_id ≡ some actor.user_id
  pub decided : commit.row.status ≡ (if approve then queued else rejected)

passed : (test : Bool) (e : Fault) → refuse_if test e ≡ done tt → test ≡ false
passed true e h = cc
passed false e h = refl

approver_checks :
    (w : World) (actor : Actor) (o : Operation)
    → check_approver w actor o ≡ done tt
    → ((o.requester_id == actor.user_id) ≡ false)
      × (power_permission w o.org_id actor.user_id "operations.approve" ≡ true)
      × (needs_authority o.action ≡ true
          → power_permission w o.org_id actor.user_id (operation_authority o.action) ≡ true)
unfolding check_approver
approver_checks w actor o h = (ground arith, ground arith, λ needed. ground arith)

approval_checks :
    (w : World) (actor : Actor) (approve : Bool) (o : Operation) (c : Connection)
    → (if approve then check_approval w actor o c else done tt) ≡ done tt
    → approve ≡ true
    → (target_changed w actor o c ≡ false) × (creation_permitted w o.org_id o.action ≡ true)
unfolding check_approval
approval_checks w actor false o c h approves = absurd cc
approval_checks w actor true o c h approves =
    let (creates, h1) = >>-eq-done (not (creation_permitted w o.org_id o.action)) _ _ h in
    let (_, _, h2) = >>=-eq-done (require_module w o.org_id c.provider o.module_revision) _ h1 in
    let (m, _, h3) = >>=-eq-done (found (w.maintenance o.org_id c.id) internal) _ h2 in
    let (_, h4) =
      >>-eq-done
        (o.maintenance_exception_reason == ""
          && is_set o.maintenance_expires_at
          && not (ltb w.now (time_of o.maintenance_expires_at)))
        _ _ h3 in
    let (_, h5) = >>-eq-done (not (eqb m.revision o.maintenance_revision)) _ _ h4 in
    let (_, h6) =
      >>-eq-done
        (not (o.maintenance_exception_reason == "")
          && not (has_permission w o.org_id actor.user_id "maintenance.override"))
        _ _ h5 in
    let (_, h7) =
      >>-eq-done (o.maintenance_exception_reason == "" && not (m.restriction == "")) _ _ h6 in
    (passed _ _ h7, ground arith)

-- A decision is accepted only from someone else who may approve the action, on a request that
-- still waits and, for an approval, on an unchanged target.
pub review-IsIndependent :
    (w : World) (actor : Actor) (approve : Bool) (reason : String) (o : Operation) (c : Connection)
    (commit : Commit)
    → review_operation w actor approve reason o c ≡ done commit
    → IsIndependent w actor approve o c commit
unfolding review_operation decide
review-IsIndependent w actor approve reason o c commit h =
    let (_, h1) = >>-eq-done (bad_length (trim_space reason) 3 500) _ _ h in
    let (_, may, h2) = >>=-eq-done (check_approver w actor o) _ h1 in
    let (in_state, h3) =
      >>-eq-done (not (is_status o.status awaiting_approval) || ltb o.expires_at w.now) _ _ h2 in
    let (_, fits, h4) =
      >>=-eq-done (if approve then check_approval w actor o c else done tt) _ h3 in
    let (someone_else, permitted, authority) = approver_checks w actor o may in
    let saved = done_same _ _ h4 in
    record {
      someone_else = someone_else;
      permitted = permitted;
      authority = authority;
      waiting = ground arith;
      in_time = (or_false _ _ in_state).1;
      target = λ approves. (approval_checks w actor approve o c fits approves).0;
      creation = λ approves. (approval_checks w actor approve o c fits approves).1;
      recorded = ap (λ r. r.row.approver_id) (sym saved);
      decided = ap (λ r. r.row.status) (sym saved);
    }
