-- ===== src/Operation/Request/Reviewed.antt =====
-- What holds of a request that is answered.
use providah_community.Prelude.{
  ℕ, ◌≡◌, refl, subst, ap, sym, ◌==◌, Bool, true, false, not, ◌||◌, String, Option, none, some,
  List, ◌∷◌, any, arith, if◌then◌else◌,
}
use providah_community.Provider.Tags.{tags_equal}
use providah_community.Provider.Runtime.{supports_resource_action}
use providah_community.Operation.Tables.{
  Operation, Connection, ResourceRow, Answer, done, fault, Fault, internal, denied, found,
  refuse_if, ◌>>=◌, ◌>>◌, >>=-eq-done, >>-eq-done, done_same,
}
use providah_community.Operation.World.{
  World, Maintenance, has_permission, require_module, runtime_for, runtime_capabilities,
}
use providah_community.Operation.Review.{Actor}
use providah_community.Operation.Deletion.{Desk, deletion_impact}
use providah_community.Operation.Request.Busy.{violates}
use providah_community.Operation.Request.Input.{OperationInput}
use providah_community.Operation.Request.{
  PowerReview, Requested, is_current, check_target, check_window, is_reviewed, reviewed_impact,
  new_operation, insert_operation, create_operation,
}

-- A found value is what the read answered.
pub found-some : {A : Type 0} (o : Option A) (e : Fault) {a : A} → found o e ≡ done a → o ≡ some a
found-some none e h = cc
found-some (some b) e h = cc

true_of_not : (b : Bool) → not b ≡ false → b ≡ true
true_of_not b h = ground arith

-- A value that is read under a test and then tested.
tested :
    {A : Type 0} (b : Bool) (m : Answer A) (t : A → Bool) (e : Fault) (other : A) {a : A}
    → (if b then (m >>= λ i. (refuse_if (not (t i)) e >> done i)) else done other) ≡ done a
    → (not b || t a) ≡ true
tested false m t e other h = refl
tested true (fault f) t e other h = cc
tested true (done i) t e other h =
    let (passes, same) = >>-eq-done (not (t i)) e (done i) h in
    subst (λ x. t x ≡ true) (done_same _ _ same) (true_of_not (t i) passes)

pub impact-digest :
    (w : World) (d : Desk) (actor : Actor) (r : OperationInput) (c : Connection)
    (resource : ResourceRow) (runtime impact : String)
    → reviewed_impact w d actor r c resource runtime ≡ done impact
    → (not (r.action == "delete") || w.digest impact == r.deletion_digest) ≡ true
unfolding reviewed_impact
impact-digest w d actor r c resource runtime impact h =
    tested (r.action == "delete") (deletion_impact w d actor c resource runtime)
      (λ i. w.digest i == r.deletion_digest) _ "" h

-- What holds when a new operation is written: its target is as it was reviewed, the maintenance
-- window is open or overridden, and no other operation is in its way.
pub record IsCreated (w : World) (d : Desk) (actor : Actor) (r : OperationInput)
    (review : Option PowerReview) (c : Connection) (operations : List Operation)
    (answer : Requested) : Type 0 where
  pub resource : ResourceRow
  pub window : Maintenance
  pub runtime : String × ℕ
  pub impact : String
  pub read : w.resource r.organization_id r.resource_id ≡ some resource
  pub current : is_current w d actor r c resource ≡ true
  pub tags : (r.action == "tags") ≡ true → tags_equal resource.tag_metadata r.expected_tags ≡ true
  pub policy : w.maintenance r.organization_id c.id ≡ some window
  pub overridden :
      (r.maintenance_exception_reason == "") ≡ false
      → has_permission w r.organization_id actor.user_id "maintenance.override" ≡ true
  pub opened : (r.maintenance_exception_reason == "") ≡ true → (window.restriction == "") ≡ true
  pub selected : runtime_for w r.organization_id c.provider 0 ≡ done runtime
  pub supported :
      supports_resource_action (runtime_capabilities w c.provider runtime.0) resource.kind r.action
      ≡ true
  pub reviewed : is_reviewed w d actor review c runtime window ≡ true
  pub affects : (not (r.action == "delete") || w.digest impact == r.deletion_digest) ≡ true
  pub alone :
      any (violates (new_operation w d actor r c resource window runtime impact)) operations ≡ false
  pub answered :
      (answer.id ≡ d.new_id)
      × (answer.operations
          ≡ (new_operation w d actor r c resource window runtime impact ∷ operations))

window_checks :
    (w : World) (d : Desk) (actor : Actor) (r : OperationInput) (m : Maintenance)
    → check_window w d actor r m ≡ done tt
    → ((r.maintenance_exception_reason == "") ≡ false
        → has_permission w r.organization_id actor.user_id "maintenance.override" ≡ true)
      × ((r.maintenance_exception_reason == "") ≡ true → (m.restriction == "") ≡ true)
unfolding check_window
window_checks w d actor r m h = (λ e. ground arith, λ e. ground arith)

target_checks :
    (w : World) (d : Desk) (actor : Actor) (r : OperationInput) (c : Connection)
    (resource : ResourceRow)
    → check_target w d actor r c resource ≡ done tt
    → (is_current w d actor r c resource ≡ true)
      × ((r.action == "tags") ≡ true → tags_equal resource.tag_metadata r.expected_tags ≡ true)
unfolding check_target
target_checks w d actor r c resource h =
    let (_, _, h1) = >>=-eq-done (require_module w r.organization_id c.provider 0) _ h in
    let (current, h2) = >>-eq-done (not (is_current w d actor r c resource)) _ _ h1 in
    (ground arith, λ e. ground arith)

-- The fields of `IsCreated` that the insertion checks.
record IsInserted (w : World) (d : Desk) (actor : Actor) (r : OperationInput)
    (review : Option PowerReview) (c : Connection) (operations : List Operation)
    (resource : ResourceRow) (m : Maintenance) (runtime : String × ℕ) (answer : Requested)
    : Type 0 where
  impact : String
  supported :
      supports_resource_action (runtime_capabilities w c.provider runtime.0) resource.kind r.action
      ≡ true
  reviewed : is_reviewed w d actor review c runtime m ≡ true
  affects : (not (r.action == "delete") || w.digest impact == r.deletion_digest) ≡ true
  alone : any (violates (new_operation w d actor r c resource m runtime impact)) operations ≡ false
  answered :
      (answer.id ≡ d.new_id)
      × (answer.operations ≡ (new_operation w d actor r c resource m runtime impact ∷ operations))

insert-IsInserted :
    (w : World) (d : Desk) (actor : Actor) (r : OperationInput) (review : Option PowerReview)
    (c : Connection) (operations : List Operation) (resource : ResourceRow) (m : Maintenance)
    (runtime : String × ℕ) (answer : Requested)
    → insert_operation w d actor r review c operations resource m runtime ≡ done answer
    → IsInserted w d actor r review c operations resource m runtime answer
unfolding insert_operation new_operation
insert-IsInserted w d actor r review c operations resource m runtime answer h =
    let (supported, h1) =
      >>-eq-done
        (not (
          supports_resource_action (runtime_capabilities w c.provider runtime.0) resource.kind
            r.action))
        _ _ h in
    let (reviewed, h2) = >>-eq-done (not (is_reviewed w d actor review c runtime m)) _ _ h1 in
    let (impact, previewed, h3) =
      >>=-eq-done (reviewed_impact w d actor r c resource runtime.0) _ h2 in
    let (alone, h4) =
      >>-eq-done (any (violates (new_operation w d actor r c resource m runtime impact)) operations)
        _ _ h3 in
    let saved = done_same _ _ h4 in
    record {
      impact = impact;
      supported = true_of_not _ supported;
      reviewed = true_of_not _ reviewed;
      affects = impact-digest w d actor r c resource runtime.0 impact previewed;
      alone = alone;
      answered = (ap (λ a. a.id) (sym saved), ap (λ a. a.operations) (sym saved));
    }

pub create-IsCreated :
    (w : World) (d : Desk) (actor : Actor) (r : OperationInput) (review : Option PowerReview)
    (c : Connection) (operations : List Operation) (answer : Requested)
    → create_operation w d actor r review c operations ≡ done answer
    → IsCreated w d actor r review c operations answer
unfolding create_operation
create-IsCreated w d actor r review c operations answer h =
    let (resource, read, h1) =
      >>=-eq-done (found (w.resource r.organization_id r.resource_id) denied) _ h in
    let (_, on_target, h2) = >>=-eq-done (check_target w d actor r c resource) _ h1 in
    let (m, policy, h3) =
      >>=-eq-done (found (w.maintenance r.organization_id c.id) internal) _ h2 in
    let (_, in_window, h4) = >>=-eq-done (check_window w d actor r m) _ h3 in
    let (runtime, selected, h5) = >>=-eq-done (runtime_for w r.organization_id c.provider 0) _ h4 in
    let inserted = insert-IsInserted w d actor r review c operations resource m runtime answer h5 in
    let (current, tags) = target_checks w d actor r c resource on_target in
    let (overridden, opened) = window_checks w d actor r m in_window in
    record {
      resource = resource;
      window = m;
      runtime = runtime;
      impact = inserted.impact;
      read = found-some _ _ read;
      current = current;
      tags = tags;
      policy = found-some _ _ policy;
      overridden = overridden;
      opened = opened;
      selected = selected;
      supported = inserted.supported;
      reviewed = inserted.reviewed;
      affects = inserted.affects;
      alone = inserted.alone;
      answered = inserted.answered;
    }
