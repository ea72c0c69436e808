-- ===== src/Operation/Life/Stages.antt =====
-- The status that each transaction leaves, and the one that it needs.
use providah_community.Prelude.{
  ℕ, ◌≡◌, refl, arith, Bool, true, false, not, ◌&&◌, ◌||◌, ◌==◌, String, Option, none, some,
  if◌then◌else◌, subst, failed,
}
use providah_community.Provider.Power.{PowerResult}
use providah_community.Provider.Discovery.{Request, validate_request}
use providah_community.Operation.Tables.{
  Operation, Connection, Status, dispatching, observing, uncertain, canceled, is_status, Answer,
  done, fault, ◌>>=◌, found, internal, Commit,
}
use providah_community.Operation.World.{World}
use providah_community.Operation.Worker.{find_failure}
use providah_community.Operation.Dispatch.{
  Prepared, skipped, settled, holds_lease, send, authenticate, proceed, build_request, prepare,
}
use providah_community.Operation.Outcome.{save_power_outcome, save_operation_outcome}
use providah_community.Operation.Settle.{
  Verdict, first_verdict, outcome_status, confirm_power, confirm_snapshot, confirm_tags,
  confirm_resize, confirm_delete, defer_key, confirm_create, judge, shows, is_success,
  accept_result,
}
use providah_community.Operation.Life.{may_move}

pub is_status-≡ : (s t : Status) → is_status s t ≡ true → s ≡ t
is_status-≡ s t h = ground arith

-- The worker's own verdicts end a run that does not go on.
abbrev pub ends : Bool → Status → Bool
ends true s = is_status s Status.failed || is_status s canceled
ends false s = is_status s Status.failed || is_status s uncertain

abbrev Ended : Bool → Answer Prepared → Type 0
Ended dispatch (done (settled commit)) = ends dispatch commit.row.status ≡ true
Ended dispatch other = Unit {0}

bind-Ended :
    (d : Bool) {A : Type 0} (m : Answer A) (f : A → Answer Prepared)
    → ((a : A) → Ended d (f a))
    → Ended d (m >>= f)
bind-Ended d (done a) f h = h a
bind-Ended d (fault e) f h = tt

if-Ended :
    (d b : Bool) (m n : Answer Prepared) → Ended d m → Ended d n → Ended d (if b then m else n)
if-Ended d true m n h k = h
if-Ended d false m n h k = k

send-Ended : (w : World) (d : Bool) (o : Operation) (r : Request) → Ended d (send w d o r)
unfolding send save_power_outcome save_operation_outcome
send-Ended w true o r =
    if-Ended true (failed (validate_request w.parse_authorized_key w.unix r)) _ _ refl tt
send-Ended w false o r =
    if-Ended false (failed (validate_request w.parse_authorized_key w.unix r)) _ _ refl tt

login-Ended :
    (d : Bool) (login : Option String) (m : Answer Prepared) (f : String → Answer Prepared)
    → Ended d m
    → ((s : String) → Ended d (f s))
    → Ended d (elim login [ none ↦ m | some s ↦ f s ])
login-Ended d none m f h k = h
login-Ended d (some s) m f h k = k s

save-Ended :
    (now : ℕ) (d : Bool) (o : Operation) (s : Status) (detail : String)
    → ends true s ≡ true
    → Ended d (done (settled (save_power_outcome now o (if d then s else uncertain) detail none)))
unfolding save_power_outcome save_operation_outcome
save-Ended now true o s detail h = h
save-Ended now false o s detail h = refl

authenticate-Ended :
    (w : World) (d : Bool) (o : Operation) (c : Connection) → Ended d (authenticate w d o c)
unfolding authenticate
authenticate-Ended w d o c =
    bind-Ended d (found (w.open_credential c.ciphertext) internal) _ (λ opened.
      login-Ended d (w.provider_credential o.provider opened o.region o.org_id o.connection_id) _ _
        (save-Ended w.now d o Status.failed _ refl)
        (λ credential. bind-Ended d (build_request w d o credential) _ (send-Ended w d o)))

proceed-Ended :
    (w : World) (d : Bool) (o : Operation) (c : Connection) (failure : Option String)
    → Ended d (proceed w d o c failure)
unfolding proceed
proceed-Ended w d o c none = authenticate-Ended w d o c
proceed-Ended w d o c (some m) = save-Ended w.now d o canceled m refl

held_or_skipped :
    (held : Bool) (run : Answer Prepared) {commit : Commit}
    → (if not held then done skipped else run) ≡ done (settled commit)
    → (held ≡ true) × (run ≡ done (settled commit))
held_or_skipped true run h = (refl, h)
held_or_skipped false run h = cc

-- A run that is ended before the call leaves one of the statuses of `ends`, under its lease.
pub prepare-ends :
    (w : World) (job o : Operation) (c : Connection) (commit : Commit)
    → prepare w job o c ≡ done (settled commit)
    → (holds_lease w job o ≡ true)
      × (ends (is_status job.status dispatching) commit.row.status ≡ true)
unfolding prepare
prepare-ends w job o c commit h =
    let d = is_status job.status dispatching in
    let (held, run) = held_or_skipped (holds_lease w job o) _ h in
    (
      held,
      subst (Ended d) run
          (bind-Ended d (find_failure w d o c) (proceed w d o c) (proceed-Ended w d o c)),
    )

-- The statuses of a verdict.
abbrev Judged : Verdict → Type 0
Judged v = may_move observing v.status ≡ true

first_verdict-Judged : (d : Bool) (power : Option PowerResult) → Judged (first_verdict d power)
unfolding first_verdict outcome_status may_move
first_verdict-Judged d (some p) = ground arith
first_verdict-Judged true none = refl
first_verdict-Judged false none = refl

deferred-Judged :
    (b : Bool) (v later : Verdict) → Judged later → Judged v → Judged (if b then later else v)
deferred-Judged true v later h k = h
deferred-Judged false v later h k = k

defer_key-Judged : (d : Bool) (o : Operation) (v : Verdict) → Judged v → Judged (defer_key d o v)
unfolding defer_key may_move
defer_key-Judged d o v h =
    deferred-Judged
      (o.action == "create"
        && shows v.power (λ p. true)
        && d
        && o.resource_kind == "access.ssh_key"
        && is_success v)
      v
      (record {
        status = observing;
        detail = "Public key import submitted; waiting for read-only confirmation.";
        power = accept_result v.power;
      })
      refl h

confirm_power-Judged : (o : Operation) (v : Verdict) → Judged v → Judged (confirm_power o v)
unfolding confirm_power may_move
confirm_power-Judged o v h = ground arith

confirm_snapshot-Judged : (o : Operation) (v : Verdict) → Judged v → Judged (confirm_snapshot o v)
unfolding confirm_snapshot may_move
confirm_snapshot-Judged o v h = ground arith

confirm_tags-Judged : (o : Operation) (v : Verdict) → Judged v → Judged (confirm_tags o v)
unfolding confirm_tags may_move
confirm_tags-Judged o v h = ground arith

confirm_resize-Judged : (o : Operation) (v : Verdict) → Judged v → Judged (confirm_resize o v)
unfolding confirm_resize may_move
confirm_resize-Judged o v h = ground arith

confirm_delete-Judged : (o : Operation) (v : Verdict) → Judged v → Judged (confirm_delete o v)
unfolding confirm_delete may_move
confirm_delete-Judged o v h = ground arith

confirm_create-Judged : (o : Operation) (v : Verdict) → Judged v → Judged (confirm_create o v)
unfolding confirm_create may_move
confirm_create-Judged o v h = ground arith

-- Every verdict is one of observing, succeeded, failed and uncertain.
pub judge-Judged :
    (d : Bool) (o : Operation) (power : Option PowerResult) → Judged (judge d o power)
unfolding judge
judge-Judged d o power = confirm_create-Judged o _ (
    defer_key-Judged d o _ (
      confirm_delete-Judged o _ (
        confirm_resize-Judged o _ (
          confirm_tags-Judged o _ (
            confirm_snapshot-Judged o _
              (confirm_power-Judged o _ (first_verdict-Judged d power)))))))
