-- ===== src/Operation/Dispatch/Phase.antt =====
-- The phase of the request that a run sends, by the status of its job.
use providah_community.Prelude.{◌≡◌, true, none, List}
use providah_community.Provider.Discovery.{Request, validate_request}
use providah_community.Operation.Tables.{
  Operation, Connection, dispatching, is_status, done, >>=-eq-done, Effect,
}
use providah_community.Operation.World.{World}
use providah_community.Operation.Worker.{find_failure}
use providah_community.Operation.Dispatch.{ready, prepare, holds_lease}
use providah_community.Operation.Dispatch.Sent.{
  PhaseOf, run_ready, proceed-ready, authenticate-ready,
}

-- A run sends a submission if its job was claimed for a dispatch, and otherwise only an
-- observation; either passes its validation and is sent under the lease.
pub prepare-PhaseOf :
    (w : World) (job o : Operation) (c : Connection) (req : Request) (effects : List Effect)
    → prepare w job o c ≡ done (ready req effects)
    → (holds_lease w job o ≡ true)
      × PhaseOf (is_status job.status dispatching) req
      × (validate_request w.parse_authorized_key w.unix req ≡ none)
unfolding prepare
prepare-PhaseOf w job o c req effects h =
    let dispatch = is_status job.status dispatching in
    let (held, run) = run_ready (holds_lease w job o) _ h in
    let (failure, _, proceeds) = >>=-eq-done (find_failure w dispatch o c) _ run in
    let (_, sent) = proceed-ready w dispatch o c failure proceeds in
    let (phase, valid) = authenticate-ready w dispatch o c req effects sent in (held, phase, valid)
