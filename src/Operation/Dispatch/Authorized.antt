-- ===== src/Operation/Dispatch/Authorized.antt =====
-- The first transaction of `runOperation`, of a job claimed for a dispatch.
use providah_community.Prelude.{◌≡◌, true, List, none, subst}
use providah_community.Provider.Discovery.{Request, validate_request}
use providah_community.Operation.Tables.{
  Operation, Connection, dispatching, is_status, done, ◌>>=◌, >>=-eq-done, Effect,
}
use providah_community.Operation.World.{World}
use providah_community.Operation.Worker.{find_failure}
use providah_community.Operation.Dispatch.{ready, holds_lease, proceed, prepare}
use providah_community.Operation.Worker.Conditions.{IsAuthorized}
use providah_community.Operation.Worker.Checks.{find_failure-IsAuthorized}
use providah_community.Operation.Dispatch.Sent.{
  PhaseOf, run_ready, proceed-ready, authenticate-ready,
}

-- When a run that claimed its operation for a dispatch sends a request, it holds the lease, every
-- condition of `IsAuthorized` holds of the locked row, and the request is a submission that passes
-- its validation.
pub prepare-IsAuthorized :
    (w : World) (job o : Operation) (c : Connection) (req : Request) (effects : List Effect)
    → is_status job.status dispatching ≡ true
    → prepare w job o c ≡ done (ready req effects)
    → (holds_lease w job o ≡ true)
      × IsAuthorized w o c
      × PhaseOf true req
      × (validate_request w.parse_authorized_key w.unix req ≡ none)
unfolding prepare
prepare-IsAuthorized w job o c req effects dispatches h =
    let (held, run) = run_ready (holds_lease w job o) _ h in
    let run_true =
      subst (λ d. (find_failure w d o c >>= proceed w d o c) ≡ done (ready req effects)) dispatches
        run in
    let (failure, searched, proceeds) = >>=-eq-done (find_failure w true o c) _ run_true in
    let (nothing, sent) = proceed-ready w true o c failure proceeds in
    let (phase, valid) = authenticate-ready w true o c req effects sent in
    (
      held,
      find_failure-IsAuthorized w o c
          (subst (λ f. find_failure w true o c ≡ done f) nothing searched),
      phase,
      valid,
    )
