-- ===== src/Operation/Worker/Checks.antt =====
-- What it means that the checks of `runOperation` find no failure.
use providah_community.Prelude.{
  ◌≡◌, refl, ◌==◌, arith, true, false, not, ◌||◌, String, Option, none, some, Bool-cases, inl, inr,
  eqb, if◌then◌else◌, subst,
}
use providah_community.Operation.Tables.{
  Operation, Connection, Answer, done, fault, denied, invalid, internal, unauthenticated, conflict,
  >>=-eq-done, done_same, is_set,
}
use providah_community.Operation.World.{
  World, power_permission, runtime_available, identity_allowed, ownership_guard,
}
use providah_community.Operation.Worker.{
  overrule, check_requester, authority_revoked, check_dispatch, identity_refused, check_ownership,
  find_failure,
}
use providah_community.Operation.Worker.Conditions.{IsAuthorized}
use providah_community.Operation.Worker.Dispatching.{
  overrule-none, approval_given, authority_kept, not-false, check_dispatch-IsDispatchable,
}

check_requester-allowed :
    (w : World) (o : Operation)
    → check_requester w o ≡ done none
    → (is_set o.schedule_id ≡ false
        → power_permission w o.org_id o.requester_id "operations.request" ≡ true)
      × (is_set o.schedule_id ≡ true → w.schedule_authorizes o ≡ some true)
unfolding check_requester
check_requester-allowed w o h = (λ plain. ground arith, λ scheduled. ground arith)

guard_passed :
    (guard : Answer (Unit {0})) (failure : Option String)
    → (elim guard [
      | done _ ↦ done failure
      | fault (conflict message) ↦
          done (some "Managed IaC state protects this resource. Change its owning configuration.")
      | fault e ↦ fault e
    ])
      ≡ done none
    → (failure ≡ none) × (guard ≡ done tt)
guard_passed (done tt) failure h = (done_same _ _ h, refl)
guard_passed (fault denied) failure h = cc
guard_passed (fault internal) failure h = cc
guard_passed (fault unauthenticated) failure h = cc
guard_passed (fault (invalid m)) failure h = cc
guard_passed (fault (conflict m)) failure h = cc

check_ownership-none :
    (w : World) (o : Operation) (failure : Option String)
    → check_ownership w o failure ≡ done none
    → (failure ≡ none)
      × (ownership_guard w o.org_id o.connection_id o.resource_kind o.native_id o.region o.action
          ≡ done tt)
unfolding check_ownership
check_ownership-none w o failure h =
    guard_passed
      (ownership_guard w o.org_id o.connection_id o.resource_kind o.native_id o.region o.action)
      failure h

ownership_end :
    (w : World) (o : Operation) (failure : Option String)
    → (if not (o.action == "create") then check_ownership w o failure else done failure) ≡ done none
    → (failure ≡ none)
      × ((o.action == "create") ≡ false
          → ownership_guard w o.org_id o.connection_id o.resource_kind o.native_id o.region o.action
            ≡ done tt)
ownership_end w o failure h = elim (Bool-cases (o.action == "create")) [
  | inl creates ↦ (ground arith, λ other. absurd cc)
  | inr other ↦
      let (none_found, free) = check_ownership-none w o failure (
        subst (λ b. (if not b then check_ownership w o failure else done failure) ≡ done none) other
          h) in
      (none_found, λ _. free)
]

requester_identity :
    (w : World) (o : Operation)
    → identity_refused w o ≡ false
    → identity_allowed w o.org_id o.requester_id o.requester_oidc ≡ true
unfolding identity_refused
requester_identity w o h = ground arith

-- The checks that follow those of a dispatch.
last_checks :
    (w : World) (o : Operation) (sso image : String) (checked : Option String)
    → (let available =
          overrule
            (identity_refused w o)
            sso
            (overrule (not (runtime_available w o.provider o.runtime_id)) image checked) in
        if not (o.action == "create") then check_ownership w o available else done available)
      ≡ done none
    → (checked ≡ none)
      × (runtime_available w o.provider o.runtime_id ≡ true)
      × (identity_refused w o ≡ false)
      × ((o.action == "create") ≡ false
          → ownership_guard w o.org_id o.connection_id o.resource_kind o.native_id o.region o.action
            ≡ done tt)
last_checks w o sso image checked h =
    let found_here = overrule (not (runtime_available w o.provider o.runtime_id)) image checked in
    let (h1, unowned) = ownership_end w o (overrule (identity_refused w o) sso found_here) h in
    let (refused, h2) = overrule-none (identity_refused w o) sso found_here h1 in
    let (gone, h3) =
      overrule-none (not (runtime_available w o.provider o.runtime_id)) image checked h2 in
    (h3, not-false _ gone, refused, unowned)

-- The checks that precede those of a dispatch.
first_checks :
    (w : World) (o : Operation) (c : Connection) (changed authority : String)
    (requested : Option String)
    → overrule
        (not c.enabled || c.deleted || not (eqb c.revision o.connection_revision))
        changed
        (overrule (authority_revoked w o) authority requested)
      ≡ none
    → (requested ≡ none)
      × (c.enabled ≡ true)
      × (c.deleted ≡ false)
      × (eqb c.revision o.connection_revision ≡ true)
      × (authority_revoked w o ≡ false)
first_checks w o c changed authority requested h =
    let (connection, h1) =
      overrule-none _ changed (overrule (authority_revoked w o) authority requested) h in
    let (revoked, h2) = overrule-none (authority_revoked w o) authority requested h1 in
    (h2, ground arith, ground arith, ground arith, revoked)

pub find_failure-IsAuthorized :
    (w : World) (o : Operation) (c : Connection)
    → find_failure w true o c ≡ done none
    → IsAuthorized w o c
unfolding find_failure
find_failure-IsAuthorized w o c h =
    let (requested, r, h1) = >>=-eq-done (check_requester w o) _ h in
    let connected =
      overrule (not c.enabled || c.deleted || not (eqb c.revision o.connection_revision))
        "Connection or credential changed."
        (overrule (authority_revoked w o) "Action authority was revoked." requested) in
    let (checked, d, h2) = >>=-eq-done (check_dispatch w o c connected) _ h1 in
    let (passed, available, refused, unowned) =
      last_checks w o
        "Organization SSO policy no longer authorizes the request or approval identity."
        "The original provider runtime is unavailable; restore its approved image before observing this operation."
        checked h2 in
    let (before, dispatch) =
      check_dispatch-IsDispatchable w o c connected
        (subst (λ f. check_dispatch w o c connected ≡ done f) passed d) in
    let (asked, enabled, deleted, revision, authority) =
      first_checks w o c "Connection or credential changed." "Action authority was revoked."
        requested before in
    let (requester, schedule) =
      check_requester-allowed w o (subst (λ f. check_requester w o ≡ done f) asked r) in
    record {
      enabled = enabled;
      not_deleted = deleted;
      revision = revision;
      requester = requester;
      schedule = schedule;
      authority = authority_kept w o authority;
      creation = dispatch.creation;
      supported = dispatch.supported;
      available = available;
      provider_module = dispatch.provider_module;
      unchanged = dispatch.unchanged;
      window = dispatch.window;
      in_time = dispatch.in_time;
      approval = approval_given w o dispatch.approved;
      identity = requester_identity w o refused;
      unowned = unowned;
    }
