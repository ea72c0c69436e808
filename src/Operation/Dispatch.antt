-- ===== src/Operation/Dispatch.antt =====
-- The first transaction of `runOperation`, after its checks: the request to the provider, or the
-- outcome that ends the run before the call.
pub mod Sent
pub mod Authorized
pub mod Phase
use providah_community.Prelude.{
  ◌==◌, Bool, not, ◌&&◌, String, Option, none, some, List, [], ◌∷◌, if◌then◌else◌, ltb, eqb, failed,
}
use providah_community.Provider.Create.{ServerCreate, SshKeyCreate}
use providah_community.Provider.Power.{PowerRequest}
use providah_community.Provider.Discovery.{Request, protocol, validate_request}
use providah_community.Operation.Tables.{
  Operation, Connection, Status, dispatching, uncertain, canceled, is_status, internal, Answer,
  done, fault, ◌>>=◌, found, Creation, Effect, audited, Commit, time_of, is_set,
}
use providah_community.Operation.Tables
use providah_community.Operation.World.{World}
use providah_community.Operation.Outcome.{save_power_outcome}
use providah_community.Operation.Worker.{find_failure}

-- What the first transaction of a run leads to.
pub data Prepared : Type 0 where
  skipped : Prepared
  settled : Commit → Prepared
  ready : Request → List Effect → Prepared

module _ (w : World) where
  abbrev pub key_of : Creation → Answer (Option SshKeyCreate)
  key_of (Creation.key k) = done (some k)
  key_of other = fault internal

  abbrev pub server_of : Creation → Answer (Option ServerCreate)
  server_of (Creation.server s) = done (some s)
  server_of other = fault internal

  -- The request to the provider, with a phase for a dispatch or for an observation.
  unfoldable pub build_request : Bool → Operation → String → Answer Request
  build_request dispatch o credential = do
    let creates_key = o.action == "create" && o.resource_kind == "access.ssh_key"
    key ← (if creates_key then key_of o.creation else done none)
    server ← (if not creates_key && o.action == "create" then server_of o.creation else done none)
    let power : PowerRequest = record {
      key_create = key;
      expected_tags = o.expected_tags;
      target_tags = o.target_tags;
      expected_identity = o.provider_identity;
      expected_size = o.expected_size;
      target_size = o.target_size;
      resource_kind = if not (o.resource_kind == "compute.server") then o.resource_kind else "";
      create = server;
      deletion_impact = o.deletion_impact;
      operation_id = o.id;
      phase = if dispatch then "submit" else "observe";
      action = o.action;
      native_id = o.native_id;
      expected_status = o.expected_status;
      action_id = o.provider_action_id;
    }
    done (record {
      metrics = none;
      inventory_kinds = [];
      version = protocol;
      runtime_id = o.runtime_id;
      organization_id = o.org_id;
      connection_id = o.connection_id;
      provider = o.provider;
      region = o.region;
      credential = credential;
      power = some power;
    })

  -- The lease under which the job was claimed still stands.
  unfoldable pub holds_lease : Operation → Operation → Bool
  holds_lease job o =
      is_set o.lease_until
      && eqb (time_of o.lease_until) (time_of job.lease_until)
      && is_status o.status job.status
      && not (ltb (time_of o.lease_until) w.now)

  abbrev save : Operation → Status → String → Answer Prepared
  save o status detail = done (settled (save_power_outcome w.now o status detail none))

  -- The request is sent only if it passes its own validation.
  unfoldable pub send : Bool → Operation → Request → Answer Prepared
  send dispatch o request =
      if failed (validate_request w.parse_authorized_key w.unix request)
      then save o Status.failed "Provider target could not be validated; no request sent."
      else done (
          ready request (
            if dispatch
            then audited o.org_id "system:operations" "operation.dispatching" o.id ∷ []
            else []))

  unfoldable pub authenticate : Bool → Operation → Connection → Answer Prepared
  unfolding build_request send
  authenticate dispatch o c = do
    opened ← found (w.open_credential c.ciphertext) internal
    elim (w.provider_credential o.provider opened o.region o.org_id o.connection_id) [
      | none ↦
          save o (if dispatch then Status.failed else uncertain)
            "AWS authentication failed; no provider request sent."
      | some credential ↦ build_request dispatch o credential >>= send dispatch o
    ]

  -- A failed check ends a dispatch, and leaves an observation uncertain.
  unfoldable pub proceed : Bool → Operation → Connection → Option String → Answer Prepared
  unfolding authenticate
  proceed dispatch o c none = authenticate dispatch o c
  proceed dispatch o c (some message) = save o (if dispatch then canceled else uncertain) message

  -- The transaction before the call: `job` is the row as claimed, `o` the row as locked now.
  unfoldable pub prepare : Operation → Operation → Connection → Answer Prepared
  unfolding find_failure proceed holds_lease
  prepare job o c =
      let dispatch = is_status job.status dispatching in
      if not (holds_lease job o)
      then done skipped
      else (find_failure w dispatch o c >>= proceed dispatch o c)
