-- ===== src/Operation/Life/Moves.antt =====
-- The status that each handler finds and leaves, against the table of moves.
use providah_community.Prelude.{
  ℕ, ◌≡◌, refl, arith, Bool, true, false, not, ◌&&◌, ◌||◌, ◌==◌, none, if◌then◌else◌, ltb,
  Bool-cases, ◌⊎◌, inl, inr, subst, ap, sym, String, and_parts, trim_space, eqb,
}
use providah_community.Operation.Tables.{
  Operation, Connection, Status, awaiting_approval, queued, dispatching, observing, uncertain,
  resolved, canceled, expired, rejected, is_status, done, >>-eq-done, >>=-eq-done, done_same,
  Commit, time_of,
}
use providah_community.Operation.World.{World, power_permission}
use providah_community.Operation.Review.{
  Actor, review_operation, cancel_operation, reconcile_operation, resolve_operation, check_approver,
  check_approval, decide, recheck, bad_length,
}
use providah_community.Operation.Worker.{expire, claimable, claim, unchanged}
use providah_community.Operation.Outcome.{save_power_outcome, save_operation_outcome}
use providah_community.Operation.Life.{may_move}
use providah_community.Operation.Life.Stages.{is_status-≡, ends}

abbrev pub Moves : Operation → Operation → Type 0
Moves o p = may_move o.status p.status ≡ true

moves_from :
    (s from to t : Status)
    → is_status s from ≡ true
    → to ≡ t
    → may_move from to ≡ true
    → may_move s t ≡ true
moves_from s from to t here there h =
    subst (λ x. may_move x t ≡ true) (sym (is_status-≡ s from here))
      (subst (λ y. may_move from y ≡ true) there h)

decided_move :
    (approve : Bool) → may_move awaiting_approval (if approve then queued else rejected) ≡ true
unfolding may_move
decided_move true = refl
decided_move false = refl

pub review-Moves :
    (w : World) (actor : Actor) (approve : Bool) (reason : String) (o : Operation) (c : Connection)
    (commit : Commit)
    → review_operation w actor approve reason o c ≡ done commit
    → Moves o commit.row
unfolding review_operation decide
review-Moves w actor approve reason o c commit h =
    let (_, h1) = >>-eq-done (bad_length (trim_space reason) 3 500) _ _ h in
    let (_, _, h2) = >>=-eq-done (check_approver w actor o) _ h1 in
    let (waiting, h3) =
      >>-eq-done (not (is_status o.status awaiting_approval) || ltb o.expires_at w.now) _ _ h2 in
    let (_, _, h4) = >>=-eq-done (if approve then check_approval w actor o c else done tt) _ h3 in
    moves_from o.status awaiting_approval (if approve then queued else rejected) commit.row.status
      (ground arith) (ap (λ c. c.row.status) (done_same _ _ h4)) (decided_move approve)

withdrawn_move :
    (s : Status)
    → (not (is_status s queued) && not (is_status s awaiting_approval)) ≡ false
    → may_move s canceled ≡ true
unfolding may_move
withdrawn_move s h = ground arith

pub cancel-Moves :
    (w : World) (actor : Actor) (o : Operation) (c : Connection) (commit : Commit)
    → cancel_operation w actor o c ≡ done commit
    → Moves o commit.row
unfolding cancel_operation save_power_outcome save_operation_outcome
cancel-Moves w actor o c commit h =
    let (_, h1) =
      >>-eq-done
        (not (power_permission w o.org_id actor.user_id "operations.request")
          || not (o.requester_id == actor.user_id))
        _ _ h in
    let (early, h2) =
      >>-eq-done (not (is_status o.status queued) && not (is_status o.status awaiting_approval)) _ _
        h1 in
    subst (λ t. may_move o.status t ≡ true) (ap (λ c. c.row.status) (done_same _ _ h2))
      (withdrawn_move o.status early)

pub reconcile-Moves :
    (w : World) (actor : Actor) (o : Operation) (c : Connection) (commit : Commit)
    → reconcile_operation w actor o c ≡ done commit
    → Moves o commit.row
unfolding reconcile_operation recheck may_move
reconcile-Moves w actor o c commit h =
    let (_, h1) =
      >>-eq-done (not (power_permission w o.org_id actor.user_id "operations.request")) _ _ h in
    let (unsure, h2) =
      >>-eq-done (not (is_status o.status uncertain) || ltb w.now (time_of o.lease_until)) _ _ h1 in
    let (_, h3) =
      >>-eq-done (not c.enabled || not (eqb c.revision o.connection_revision) || c.deleted) _ _
        h2 in
    moves_from o.status uncertain observing commit.row.status (ground arith)
      (ap (λ c. c.row.status) (done_same _ _ h3)) refl

pub resolve-Moves :
    (w : World) (actor : Actor) (reason : String) (o : Operation) (c : Connection) (commit : Commit)
    → resolve_operation w actor reason o c ≡ done commit
    → Moves o commit.row
unfolding resolve_operation save_power_outcome save_operation_outcome may_move
resolve-Moves w actor reason o c commit h =
    let (_, h1) = >>-eq-done (bad_length (trim_space reason) 10 500) _ _ h in
    let (_, _, h2) = >>=-eq-done (check_approver w actor o) _ h1 in
    let (unsure, h3) =
      >>-eq-done (not (is_status o.status uncertain) || ltb w.now (time_of o.lease_until)) _ _ h2 in
    moves_from o.status uncertain resolved commit.row.status (ground arith)
      (ap (λ c. c.row.status) (done_same _ _ h3)) refl

picked :
    (o : Operation) (a b : Bool) (x y : Commit)
    → (a ≡ true → Moves o x.row)
    → (b ≡ true → Moves o y.row)
    → (o ≡ (if a then x else if b then y else unchanged o).row)
      ⊎ Moves o (if a then x else if b then y else unchanged o).row
picked o true b x y h k = inr (h refl)
picked o false true x y h k = inr (k refl)
picked o false false x y h k = inl refl

lost_move : (s : Status) → is_status s dispatching ≡ true → may_move s uncertain ≡ true
unfolding may_move
lost_move s h = ground arith

late_move :
    (s : Status)
    → (is_status s queued || is_status s awaiting_approval) ≡ true
    → may_move s expired ≡ true
unfolding may_move
late_move s h = ground arith

pub expire-Moves : (now : ℕ) (o : Operation) → (o ≡ (expire now o).row) ⊎ Moves o (expire now o).row
unfolding expire save_power_outcome save_operation_outcome
expire-Moves now o =
    picked o _ _
      (save_power_outcome now o uncertain
        "Worker ended without a confirmed outcome. Check provider state; do not retry blindly."
        none)
      (save_power_outcome now o expired "Request or approval expired before dispatch." none)
      (λ lost. lost_move o.status (and_parts _ _ lost).0)
      (λ late. late_move o.status (and_parts _ _ late).0)

pub claim-Moves : (now : ℕ) (o : Operation) → claimable now o ≡ true → Moves o (claim now o)
unfolding claimable claim may_move
claim-Moves now o h = ground arith

-- A claimed job is dispatching or observing.
pub claimed_status :
    (now : ℕ) (o : Operation)
    → claimable now o ≡ true
    → ((claim now o).status ≡ dispatching) ⊎ ((claim now o).status ≡ observing)
unfolding claimable claim
claimed_status now o h = elim (Bool-cases (is_status o.status queued)) [
  | inl fresh ↦ inl ground arith
  | inr running ↦ inr (is_status-≡ _ _ ground arith)
]

-- What a run leaves its operation with, from the status of the job.
pub ended_move :
    (s t : Status)
    → (s ≡ dispatching) ⊎ (s ≡ observing)
    → ends (is_status s dispatching) t ≡ true
    → may_move s t ≡ true
unfolding may_move
ended_move s t from h = ground arith

pub judged_move :
    (s t : Status)
    → (s ≡ dispatching) ⊎ (s ≡ observing)
    → may_move observing t ≡ true
    → may_move s t ≡ true
unfolding may_move
judged_move s t from h = ground arith
