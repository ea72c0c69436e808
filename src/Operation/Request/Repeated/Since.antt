-- ===== src/Operation/Request/Repeated/Since.antt =====
-- What stays the same between two requests with the same key: the row that the first one left, and
-- the checks that the second one passes.
use providah_community.Prelude.{
  ◌≡◌, refl, subst, ◌==◌, Bool, true, false, not, ◌&&◌, ◌||◌, failed, len, ltb, Bool-cases, String,
  Option, some, List, [], ◌∷◌, arith, if◌then◌else◌, inl, inr,
}
use providah_community.Provider.Power.{valid_resize}
use providah_community.Provider.Tags.{validate_tag_change}
use providah_community.Operation.Tables.{
  Operation, Connection, ResourceRow, Answer, done, fault, conflict, found, >>-eq-done,
}
use providah_community.Operation.World.{World, power_permission, ownership_guard}
use providah_community.Operation.Review.{Actor}
use providah_community.Operation.Deletion.{Desk}
use providah_community.Operation.Request.Input.{OperationInput, check_inputs}
use providah_community.Operation.Request.{operation_by_key, check_request, same_input}
use providah_community.Operation.Request.Answered.{MayRequest}

-- The checks before the key is looked up pass for a user who may ask.
pub may-check_request :
    (w : World) (d : Desk) (actor : Actor) (r : OperationInput) (c : Connection)
    (resource : ResourceRow)
    → MayRequest w actor r resource
    → ownership_guard w r.organization_id c.id resource.kind resource.native_id resource.region
        r.action
      ≡ done tt
    → ((r.action == "tags") ≡ true
        → ((resource.kind == "compute.server") ≡ true)
          × (failed (validate_tag_change c.provider r.expected_tags r.target_tags) ≡ false))
    → check_request w d actor r c resource ≡ done tt
unfolding check_request
may-check_request w d actor r c resource may owned tags =
    let deletion : (r.action == "delete"
          && (not (power_permission w r.organization_id actor.user_id "operations.delete")
              || not (r.confirmation == resource.native_id)))
        ≡ false =
      unless (r.action == "delete") _ _ may.deletes in
    let snapshot : (r.action == "snapshot"
          && not (power_permission w r.organization_id actor.user_id "operations.create"))
        ≡ false =
      unless_one (r.action == "snapshot") _ may.snapshots in
    let tag_change : (r.action == "tags"
          && (not (resource.kind == "compute.server")
              || failed (validate_tag_change c.provider r.expected_tags r.target_tags)))
        ≡ false =
      unless_tags (r.action == "tags") _ _ tags in
    rw (may.identity, may.permitted, may.creation, snapshot, deletion, owned, tag_change)
  where
    unless : (b x y : Bool) → (b ≡ true → (x ≡ true) × (y ≡ true)) → (b && (not x || not y)) ≡ false
    unless true x y h = let (p, q) = h refl in ground arith
    unless false x y h = refl

    unless_one : (b x : Bool) → (b ≡ true → x ≡ true) → (b && not x) ≡ false
    unless_one true x h = let p = h refl in ground arith
    unless_one false x h = refl

    unless_tags :
        (b x y : Bool) → (b ≡ true → (x ≡ true) × (y ≡ false)) → (b && (not x || y)) ≡ false
    unless_tags true x y h = let (p, q) = h refl in ground arith
    unless_tags false x y h = refl

unconfigured : (r : OperationInput) → check_inputs false r ≡ done tt → ⊥
unfolding check_inputs
unconfigured r h =
    let (_, h1) =
      >>-eq-done
        (r.action == "resize" && not (valid_resize r.expected_size r.target_size)
          || not (r.action == "resize")
            && (not (r.expected_size == "") || not (r.target_size == "")))
        _ _ h in
    let (_, h2) =
      >>-eq-done (ltb 200 (len r.confirmation) || ltb 64 (len r.deletion_digest)) _ _ h1 in
    let (_, h3) =
      >>-eq-done
        (not (r.maintenance_exception_reason == "")
          && (ltb (len r.maintenance_exception_reason) 10
              || ltb 500 (len r.maintenance_exception_reason)))
        _ _ h2 in
    let refused : Path (Answer (Unit {0}))
        (fault (conflict "Provider execution is not configured. Start the provider launcher."))
        (done tt) =
      h3 in
    cc

pub check_inputs-configured :
    (b : Bool) (r : OperationInput) → check_inputs b r ≡ done tt → check_inputs true r ≡ done tt
check_inputs-configured true r h = h
check_inputs-configured false r h = absurd (unconfigured r h)

-- The columns of a row that a request is compared with, and its id, are the same.
pub record SameRequest (o p : Operation) : Type 0 where
  pub id : p.id ≡ o.id
  pub org_id : p.org_id ≡ o.org_id
  pub requester_id : p.requester_id ≡ o.requester_id
  pub idempotency_key : p.idempotency_key ≡ o.idempotency_key
  pub resource_id : p.resource_id ≡ o.resource_id
  pub action : p.action ≡ o.action
  pub expected_status : p.expected_status ≡ o.expected_status
  pub reason : p.reason ≡ o.reason
  pub exception : p.maintenance_exception_reason ≡ o.maintenance_exception_reason
  pub expected_size : p.expected_size ≡ o.expected_size
  pub target_size : p.target_size ≡ o.target_size
  pub expected_tags : p.expected_tags ≡ o.expected_tags
  pub target_tags : p.target_tags ≡ o.target_tags
  pub deletion_impact : p.deletion_impact ≡ o.deletion_impact

-- A later table of operations: each row may have moved on, as to its status and all else but what it
-- asks for, and rows of other keys may have come in between.
pub data Later (org user key : String) : List Operation → List Operation → Type 0 where
  no_rows : Later org user key [] []
  moved :
      {os ps : List Operation}
      → (o p : Operation) → SameRequest o p
      → Later org user key os ps
      → Later org user key (o ∷ os) (p ∷ ps)
  added :
      {os ps : List Operation}
      → (p : Operation)
      → (p.org_id == org && p.requester_id == user && p.idempotency_key == key) ≡ false
      → Later org user key os ps
      → Later org user key os (p ∷ ps)

pub row_persists :
    (org user key : String) {os ps : List Operation} (o : Operation)
    → Later org user key os ps
    → operation_by_key org user key os ≡ some o
    → (p : Operation) × (operation_by_key org user key ps ≡ some p) × SameRequest o p
unfolding operation_by_key
row_persists org user key o no_rows h = absurd cc
row_persists org user key o (added p other rest) h =
    let (q, found, same) = row_persists org user key o rest h in (q, rw other found, same)
row_persists org user key o (moved x p same rest) h =
    elim (Bool-cases (x.org_id == org && x.requester_id == user && x.idempotency_key == key)) [
      | inl here ↦
          let this = taken _ x o _ here h in
          (
            p,
            rw (same.org_id, same.requester_id, same.idempotency_key, here),
            subst (λ z. SameRequest z p) this same,
          )
      | inr past ↦
          let (q, found, moved_on) = row_persists org user key o rest (skipped _ x o _ past h) in
          (q, rw (same.org_id, same.requester_id, same.idempotency_key, past) found, moved_on)
    ]
  where
    taken :
        (b : Bool) (x o : Operation) (rest : Option Operation)
        → b ≡ true
        → (if b then some x else rest) ≡ some o
        → x ≡ o
    taken true x o rest e h = cc
    taken false x o rest e h = cc

    skipped :
        (b : Bool) (x o : Operation) (rest : Option Operation)
        → b ≡ false
        → (if b then some x else rest) ≡ some o
        → rest ≡ some o
    skipped true x o rest e h = cc
    skipped false x o rest e h = h

pub later-same_input :
    (w later : World) (d desk : Desk) (actor : Actor) (o p : Operation) (r : OperationInput)
    → later.digest ≡ w.digest
    → SameRequest o p
    → same_input w d actor o r ≡ true
    → same_input later desk actor p r ≡ true
unfolding same_input
later-same_input w later d desk actor o p r digest same h = rw (
  digest, same.resource_id, same.action, same.expected_status, same.reason, same.exception,
  same.expected_size, same.target_size, same.expected_tags, same.target_tags, same.deletion_impact,
  h,
)
