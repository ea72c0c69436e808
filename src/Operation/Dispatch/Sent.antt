-- ===== src/Operation/Dispatch/Sent.antt =====
-- What `runOperation` sends after its checks: the request, its phase and its validation.
use providah_community.Prelude.{
  ◌≡◌, refl, ◌==◌, arith, Bool, true, false, not, ◌&&◌, String, List, Option, none, some,
  Bool-cases, inl, inr, if◌then◌else◌, subst, failed, failed-false,
}
use providah_community.Provider.Discovery.{Request, validate_request}
use providah_community.Provider.Power.{PowerRequest}
use providah_community.Operation.Tables.{
  Operation, Connection, Answer, done, internal, found, ◌>>=◌, >>=-eq-done, done_same, Effect,
}
use providah_community.Operation.World.{World}
use providah_community.Operation.Dispatch.{
  Prepared, skipped, ready, build_request, key_of, server_of, send, authenticate, proceed,
}

-- The phase of the request that `build_request` makes.
pub PhaseOf : Bool → Request → Type 0
PhaseOf dispatch req =
    (p : PowerRequest) × (req.power ≡ some p)
    × (p.phase ≡ (if dispatch then "submit" else "observe"))

build_request-phase :
    (w : World) (dispatch : Bool) (o : Operation) (credential : String) (req : Request)
    → build_request w dispatch o credential ≡ done req
    → PhaseOf dispatch req
unfolding build_request PhaseOf
build_request-phase w dispatch o credential req h =
    let (key, _, h1) =
      >>=-eq-done
        (if o.action == "create" && o.resource_kind == "access.ssh_key"
          then key_of w o.creation
          else done none)
        _ h in
    let (server, _, h2) =
      >>=-eq-done
        (if not (o.action == "create" && o.resource_kind == "access.ssh_key")
            && o.action == "create"
          then server_of w o.creation
          else done none)
        _ h1 in
    subst (PhaseOf dispatch) (done_same _ _ h2) (_, refl, refl)

pub run_ready :
    (held : Bool) (run : Answer Prepared) {req : Request} {effects : List Effect}
    → (if not held then done skipped else run) ≡ done (ready req effects)
    → (held ≡ true) × (run ≡ done (ready req effects))
run_ready true run h = (refl, h)
run_ready false run h = cc

pub proceed-ready :
    (w : World) (dispatch : Bool) (o : Operation) (c : Connection) (failure : Option String)
    {req : Request} {effects : List Effect}
    → proceed w dispatch o c failure ≡ done (ready req effects)
    → (failure ≡ none) × (authenticate w dispatch o c ≡ done (ready req effects))
unfolding proceed
proceed-ready w dispatch o c none h = (refl, h)
proceed-ready w dispatch o c (some message) h = cc

send-ready :
    (w : World) (dispatch : Bool) (o : Operation) (built req : Request) (effects : List Effect)
    → send w dispatch o built ≡ done (ready req effects)
    → (built ≡ req) × (validate_request w.parse_authorized_key w.unix built ≡ none)
unfolding send
send-ready w dispatch o built req effects h =
    elim (Bool-cases (failed (validate_request w.parse_authorized_key w.unix built))) [
      | inl bad ↦ absurd ground arith
      | inr good ↦ (ground arith, failed-false _ good)
    ]

credential_ready :
    (login : Option String) (refuse : Answer Prepared) (run : String → Answer Prepared)
    {req : Request} {effects : List Effect}
    → (elim login [ none ↦ refuse | some credential ↦ run credential ]) ≡ done (ready req effects)
    → ((r : Request) (e : List Effect) → refuse ≡ done (ready r e) → ⊥)
    → (credential : String) × (login ≡ some credential)
      × (run credential ≡ done (ready req effects))
credential_ready none refuse run h refuses = absurd (refuses _ _ h)
credential_ready (some credential) refuse run h refuses = (credential, refl, h)

pub authenticate-ready :
    (w : World) (dispatch : Bool) (o : Operation) (c : Connection) (req : Request)
    (effects : List Effect)
    → authenticate w dispatch o c ≡ done (ready req effects)
    → PhaseOf dispatch req × (validate_request w.parse_authorized_key w.unix req ≡ none)
unfolding authenticate
authenticate-ready w dispatch o c req effects h =
    let (opened, _, h1) = >>=-eq-done (found (w.open_credential c.ciphertext) internal) _ h in
    let (credential, _, h2) =
      credential_ready (w.provider_credential o.provider opened o.region o.org_id o.connection_id) _
        (λ credential. build_request w dispatch o credential >>= send w dispatch o) h1
        (λ r e bad. cc) in
    let (built, made, h3) = >>=-eq-done (build_request w dispatch o credential) _ h2 in
    let (same, valid) = send-ready w dispatch o built req effects h3 in
    (
      subst (PhaseOf dispatch) same (build_request-phase w dispatch o credential built made),
      subst (λ r. validate_request w.parse_authorized_key w.unix r ≡ none) same valid,
    )
