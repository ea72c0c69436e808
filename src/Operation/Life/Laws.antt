-- ===== src/Operation/Life/Laws.antt =====
-- The transactions of Operation/Life as a state machine: moves of the status, claims for a dispatch.
use providah_community.Prelude.{
  ◌≤◌, ◌≡◌, refl, arith, Bool, true, false, ◌||◌, Bool-cases, ◌⊎◌, inl, inr, subst, sym, ◌∙◌,
}
use providah_community.Operation.Tables.{
  Operation, Status, awaiting_approval, queued, dispatching, observing, is_status,
}
use providah_community.Operation.Worker.{claim}
use providah_community.Operation.Dispatch.{holds_lease}
use providah_community.Operation.Settle.{usable, still_claimed}
use providah_community.Operation.Settle.Stored.{settle_status}
use providah_community.Operation.Life.{
  Step, reviewed, withdrawn, rechecked, resolved_by_hand, ticked, claimed, stopped, answered, Steps,
  stay, then_on, step_dispatches, dispatches, may_move, is_final,
}
use providah_community.Operation.Life.Stages.{is_status-≡, prepare-ends, judge-Judged}
use providah_community.Operation.Life.Moves.{
  review-Moves, cancel-Moves, reconcile-Moves, resolve-Moves, expire-Moves, claim-Moves,
  claimed_status, ended_move, judged_move,
}

lease_status :
    (w : _) (job o : Operation) → holds_lease w job o ≡ true → is_status o.status job.status ≡ true
unfolding holds_lease
lease_status w job o h = ground arith

claim_kept :
    (w : _) (job o : Operation)
    → still_claimed w job o ≡ true
    → is_status o.status job.status ≡ true
unfolding still_claimed
claim_kept w job o h = ground arith

-- Every transaction leaves the row as it is or moves its status along the table.
pub Step-may_move : {o p : Operation} → Step o p → (o ≡ p) ⊎ (may_move o.status p.status ≡ true)
Step-may_move (reviewed w actor approve reason o c commit h) =
    inr (review-Moves w actor approve reason o c commit h)
Step-may_move (withdrawn w actor o c commit h) = inr (cancel-Moves w actor o c commit h)
Step-may_move (rechecked w actor o c commit h) = inr (reconcile-Moves w actor o c commit h)
Step-may_move (resolved_by_hand w actor reason o c commit h) =
    inr (resolve-Moves w actor reason o c commit h)
Step-may_move (ticked now o) = expire-Moves now o
Step-may_move (claimed now o h) = inr (claim-Moves now o h)
Step-may_move (stopped w now before free o c commit h) =
    let job = claim now before in
    let (held, ended) = prepare-ends w job o c commit h in
    let same = is_status-≡ o.status job.status (lease_status w job o held) in
    inr (
      subst (λ s. may_move s commit.row.status ≡ true) (sym same)
        (ended_move job.status commit.row.status (claimed_status now before free) ended))
Step-may_move (answered w is_ip now before free response o commit h) =
    let job = claim now before in
    let (held, status) = settle_status w is_ip job o response commit h in
    let same = is_status-≡ o.status job.status (claim_kept w job o held) in
    let judged = judge-Judged (is_status job.status dispatching) o (usable is_ip response) in
    inr (
      subst (λ s. may_move s commit.row.status ≡ true) (sym same)
        (judged_move job.status commit.row.status (claimed_status now before free)
          (subst (λ t. may_move observing t ≡ true) (sym status) judged)))

-- Whether the operation was not dispatched yet.
abbrev is_fresh : Status → Bool
is_fresh s = is_status s awaiting_approval || is_status s queued

move-is_fresh : (s t : Status) → is_fresh s ≡ false → may_move s t ≡ true → is_fresh t ≡ false
unfolding may_move
move-is_fresh s t past h = ground arith

Step-is_fresh : {o p : Operation} → Step o p → is_fresh o.status ≡ false → is_fresh p.status ≡ false
Step-is_fresh {o} {p} step past = elim (Step-may_move step) [
  | inl same ↦ subst (λ x. is_fresh x.status ≡ false) same past
  | inr moved ↦ move-is_fresh o.status p.status past moved
]

-- A step either dispatches nothing, or it dispatches once an operation that was fresh before.
step_dispatches-cases :
    {o p : Operation} (step : Step o p)
    → (step_dispatches step ≡ 0)
      ⊎ ((step_dispatches step ≡ 1) × (is_fresh o.status ≡ true) × (is_fresh p.status ≡ false))
unfolding step_dispatches claim
step_dispatches-cases (claimed now o h) = elim (Bool-cases (is_status o.status queued)) [
  | inl fresh ↦ inr (ground arith, ground arith, ground arith)
  | inr running ↦ inl ground arith
]
step_dispatches-cases (reviewed w actor approve reason o c commit h) = inl refl
step_dispatches-cases (withdrawn w actor o c commit h) = inl refl
step_dispatches-cases (rechecked w actor o c commit h) = inl refl
step_dispatches-cases (resolved_by_hand w actor reason o c commit h) = inl refl
step_dispatches-cases (ticked now o) = inl refl
step_dispatches-cases (stopped w now before free o c commit h) = inl refl
step_dispatches-cases (answered w is_ip now before free response o commit h) = inl refl

never_again :
    {o p : Operation} (steps : Steps o p) → is_fresh o.status ≡ false → dispatches steps ≡ 0
unfolding dispatches
never_again (stay o) past = refl
never_again (then_on step rest) past =
    let later = never_again rest (Step-is_fresh step past) in
    elim (step_dispatches-cases step) [
      | inl nothing ↦ omega arith
      | inr (one, fresh, _) ↦ absurd cc
    ]

-- Whatever transactions on an operation follow each other, at most one of them claims it for a
-- dispatch.
pub dispatched_once : {o p : Operation} (steps : Steps o p) → dispatches steps ≤ 1
unfolding dispatches
dispatched_once (stay o) = omega arith
dispatched_once (then_on step rest) =
    let later = dispatched_once rest in
    elim (step_dispatches-cases step) [
      | inl nothing ↦ omega arith
      | inr (one, _, past) ↦ let none_later = never_again rest past in omega arith
    ]

final_moves_nowhere : (s t : Status) → is_final s ≡ true → may_move s t ≡ false
unfolding may_move
final_moves_nowhere s t h = ground arith

-- A row in a final status is never written again.
pub final_forever : {o p : Operation} → Steps o p → is_final o.status ≡ true → o ≡ p
final_forever (stay o) final = refl
final_forever (then_on {o} {p} step rest) final = elim (Step-may_move step) [
  | inl same ↦ same ∙ final_forever rest (subst (λ x. is_final x.status ≡ true) same final)
  | inr moved ↦ let nowhere = final_moves_nowhere o.status p.status final in absurd cc
]
