-- ===== src/Operation/Request/Answered.antt =====
-- Every answer of RequestOperation: who may ask, and the operation that the answer names.
use providah_community.Prelude.{
  ◌≡◌, refl, ap, sym, ◌==◌, Bool, true, false, not, ◌&&◌, ◌||◌, Option, none, some, List, [], arith,
  if◌then◌else◌, inl, inr, ◌⊎◌,
}
use providah_community.Operation.Tables.{
  Operation, Connection, ResourceRow, done, fault, Fault, conflict, internal, denied, found,
  >>=-eq-done, >>-eq-done, done_same, is_set,
}
use providah_community.Operation.World.{
  World, power_permission, identity_allowed, creation_permitted,
}
use providah_community.Operation.Review.{Actor}
use providah_community.Operation.Deletion.{Desk}
use providah_community.Operation.Request.Input.{OperationInput, trimmed, check_inputs}
use providah_community.Operation.Request.{
  PowerReview, Requested, operation_by_key, check_request, same_input, answer_request,
  create_operation, request_operation,
}
use providah_community.Operation.Request.Reviewed.{IsCreated, create-IsCreated, found-some}

-- The permissions of the user who asks.
pub record MayRequest (w : World) (actor : Actor) (r : OperationInput) (resource : ResourceRow)
    : Type 0 where
  pub identity : identity_allowed w r.organization_id actor.user_id actor.oidc ≡ true
  pub permitted : power_permission w r.organization_id actor.user_id "operations.request" ≡ true
  pub creation : creation_permitted w r.organization_id r.action ≡ true
  pub snapshots :
      (r.action == "snapshot") ≡ true
      → power_permission w r.organization_id actor.user_id "operations.create" ≡ true
  pub deletes :
      (r.action == "delete") ≡ true
      → (power_permission w r.organization_id actor.user_id "operations.delete" ≡ true)
        × ((r.confirmation == resource.native_id) ≡ true)

-- The answer names the operation that had the key and asked for the same, and nothing is written;
-- or no operation had the key, and one was created.
abbrev pub IsAnswered :
    (w : World) (d : Desk) (actor : Actor) (r : OperationInput) (review : Option PowerReview)
    (c : Connection) (operations : List Operation) (answer : Requested)
    → Type 0
IsAnswered w d actor r review c operations answer =
    ((previous : Operation) × (operation_by_key r.organization_id actor.user_id r.idempotency_key
          operations
        ≡ some previous)
      × (same_input w d actor previous r ≡ true)
      × (answer.id ≡ previous.id)
      × (answer.operations ≡ operations))
    ⊎ ((operation_by_key r.organization_id actor.user_id r.idempotency_key operations ≡ none)
        × IsCreated w d actor r review c operations answer)

request_checks :
    (w : World) (d : Desk) (actor : Actor) (r : OperationInput) (c : Connection)
    (resource : ResourceRow)
    → check_request w d actor r c resource ≡ done tt
    → MayRequest w actor r resource
unfolding check_request
request_checks w d actor r c resource h =
    let (may, h1) =
      >>-eq-done
        (not (identity_allowed w r.organization_id actor.user_id actor.oidc)
          || not (power_permission w r.organization_id actor.user_id "operations.request"))
        _ _ h in
    let (creates, h2) = >>-eq-done (not (creation_permitted w r.organization_id r.action)) _ _ h1 in
    let (snapshots, h3) =
      >>-eq-done
        (r.action == "snapshot"
          && not (power_permission w r.organization_id actor.user_id "operations.create"))
        _ _ h2 in
    let (deletes, h4) =
      >>-eq-done
        (r.action == "delete"
          && (not (power_permission w r.organization_id actor.user_id "operations.delete")
              || not (r.confirmation == resource.native_id)))
        _ _ h3 in
    record {
      identity = ground arith;
      permitted = ground arith;
      creation = ground arith;
      snapshots = λ e. ground arith;
      deletes = λ e. (ground arith, ground arith);
    }

repeated :
    (b : Bool) (a : Requested) (e : Fault) {answer : Requested}
    → (if b then done a else fault e) ≡ done answer
    → (b ≡ true) × (a ≡ answer)
repeated true a e h = (refl, done_same _ _ h)
repeated false a e h = cc

pub answer-IsAnswered :
    (w : World) (d : Desk) (actor : Actor) (r : OperationInput) (review : Option PowerReview)
    (c : Connection) (operations : List Operation) (answer : Requested) (found : Option Operation)
    → operation_by_key r.organization_id actor.user_id r.idempotency_key operations ≡ found
    → elim found [
      | none ↦ create_operation w d actor r review c operations
      | some previous ↦
          if same_input w d actor previous r
          then done (record { id = previous.id; operations = operations; effects = [] })
          else fault (conflict "This request key belongs to different input.")
    ]
      ≡ done answer
    → IsAnswered w d actor r review c operations answer
answer-IsAnswered w d actor r review c operations answer none e h =
    inr (e, create-IsCreated w d actor r review c operations answer h)
answer-IsAnswered w d actor r review c operations answer (some previous) e h =
    let (same, saved) = repeated (same_input w d actor previous r) _ _ h in
    inl (previous, e, same, ap (λ a. a.id) (sym saved), ap (λ a. a.operations) (sym saved))

-- A request is answered only for a user who may ask for the action, and with the operation of its
-- key, if that asked for the same, or with a new operation on a target that is as it was reviewed.
pub request-IsAnswered :
    (w : World) (d : Desk) (actor : Actor) (input : OperationInput) (review : Option PowerReview)
    (operations : List Operation) (answer : Requested)
    → request_operation w d actor input review operations ≡ done answer
    → (resource : ResourceRow) × (c : Connection) × (d.unlocked_resource input.organization_id
          input.resource_id
        ≡ some resource)
      × (d.connection input.organization_id resource.connection_id ≡ some c)
      × MayRequest w actor (trimmed input) resource
      × IsAnswered w d actor (trimmed input) review c operations answer
unfolding request_operation answer_request trimmed
request-IsAnswered w d actor input review operations answer h =
    let r = trimmed input in
    let (_, inputs, h1) = >>=-eq-done (check_inputs (is_set d.call) r) _ h in
    let (resource, read, h2) =
      >>=-eq-done (found (d.unlocked_resource r.organization_id r.resource_id) denied) _ h1 in
    let (c, locked, h3) =
      >>=-eq-done (found (d.connection r.organization_id resource.connection_id) internal) _ h2 in
    let (_, may, h4) = >>=-eq-done (check_request w d actor r c resource) _ h3 in
    (
      resource,
      c,
      found-some _ _ read,
      found-some _ _ locked,
      request_checks w d actor r c resource may,
      answer-IsAnswered w d actor r review c operations answer _ refl h4,
    )
