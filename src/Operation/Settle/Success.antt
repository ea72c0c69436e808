-- ===== src/Operation/Settle/Success.antt =====
-- The stages of the verdict on a provider's result, where they leave a success.
use providah_community.Prelude.{
  ◌≡◌, refl, ◌==◌, arith, Bool, true, false, not, ◌&&◌, ◌||◌, String, Option, none, some, [], ◌∷◌,
  contains, Option-cases, inl, inr, if◌then◌else◌, subst,
}
use providah_community.Provider.Tags.{tags_equal}
use providah_community.Provider.Status.{power_reached, resource_action_reached}
use providah_community.Provider.Power.{PowerResult}
use providah_community.Operation.Tables.{Operation, observing}
use providah_community.Operation.Settle.{
  Verdict, first_verdict, shows, unconfirmed, unconfirmed_dropped, is_success, confirm_power,
  confirm_snapshot, confirm_tags, confirm_resize, confirm_delete, accept_result, defer_key,
  confirm_create,
}

abbrev pub Succeeds : Verdict → Type 0
Succeeds v = is_success v ≡ true

unconfirmed_success :
    (b : Bool) (d : String) (v : Verdict)
    → Succeeds (unconfirmed b d v)
    → (b ≡ false) × (unconfirmed b d v ≡ v)
unconfirmed_success true d v h = cc
unconfirmed_success false d v h = (refl, refl)

dropped_success :
    (b : Bool) (d : String) (v : Verdict)
    → Succeeds (unconfirmed_dropped b d v)
    → (b ≡ false) × (unconfirmed_dropped b d v ≡ v)
dropped_success true d v h = cc
dropped_success false d v h = (refl, refl)

deferred_success :
    (b : Bool) (later v : Verdict)
    → is_success later ≡ false
    → Succeeds (if b then later else v)
    → (b ≡ false) × ((if b then later else v) ≡ v)
deferred_success true later v not_yet h = cc
deferred_success false later v not_yet h = (refl, refl)

pub first_success :
    (dispatch : Bool) (power : Option PowerResult)
    → Succeeds (first_verdict dispatch power)
    → (p : PowerResult) × (power ≡ some p)
      × ((p.outcome == "succeeded") ≡ true)
      × ((first_verdict dispatch power).power ≡ some p)
unfolding first_verdict
first_success dispatch (some p) h = (p, refl, ground arith, refl)
first_success true none h = cc
first_success false none h = cc

pub shows-some :
    (p : PowerResult) (test : PowerResult → Bool) {b : Bool} (power : Option PowerResult)
    → power ≡ some p
    → shows power test ≡ b
    → test p ≡ b
shows-some p test power shown h = cc

pub refused : (a b c : Bool) → a ≡ true → (a && (b || not c)) ≡ false → (b ≡ false) × (c ≡ true)
refused a b c first h = ground arith

pub not-false : (b : Bool) → not b ≡ false → b ≡ true
not-false b h = ground arith

-- A stage that leaves a success leaves the whole verdict.
abbrev pub Kept : (Verdict → Verdict) → Verdict → Type 0
Kept stage v = (stage v ≡ v) × Succeeds v

pub power_stage :
    (o : Operation) (v : Verdict)
    → Succeeds (confirm_power o v)
    → Kept (confirm_power o) v
      × (contains ("start" ∷ "shutdown" ∷ "restart" ∷ []) o.action ≡ true
          → shows v.power (λ p. resource_action_reached o.resource_kind o.action p.status) ≡ true)
unfolding confirm_power
power_stage o v h =
    let (test, kept) = unconfirmed_success _ _ v h in
    let success : Succeeds v = subst Succeeds kept h in ((kept, success), λ starts. ground arith)

pub snapshot_stage :
    (o : Operation) (v : Verdict)
    → Succeeds (confirm_snapshot o v)
    → Kept (confirm_snapshot o) v
      × ((o.action == "snapshot") ≡ true
          → shows v.power
              (λ p. p.error == "" && (p.action_id == "" || not (p.status == "snapshot_available")))
            ≡ false)
unfolding confirm_snapshot
snapshot_stage o v h =
    let (test, kept) = dropped_success _ _ v h in
    let success : Succeeds v = subst Succeeds kept h in
    (
      (kept, success),
      λ snapshots. elim (Option-cases v.power) [
        | inl missing ↦ ground arith
        | inr (p, shown) ↦ ground arith
      ],
    )

pub tags_stage :
    (o : Operation) (v : Verdict)
    → Succeeds (confirm_tags o v)
    → Kept (confirm_tags o) v
      × ((o.action == "tags") ≡ true → shows v.power (λ p. tags_equal p.tags o.target_tags) ≡ true)
unfolding confirm_tags
tags_stage o v h =
    let (test, kept) = unconfirmed_success _ _ v h in
    let success : Succeeds v = subst Succeeds kept h in ((kept, success), λ is_tags. ground arith)

pub size_stage :
    (o : Operation) (v : Verdict)
    → Succeeds (confirm_resize o v)
    → Kept (confirm_resize o) v
      × ((o.action == "resize") ≡ true → shows v.power (λ p. p.size == o.target_size) ≡ true)
unfolding confirm_resize
size_stage o v h =
    let (test, kept) = unconfirmed_success _ _ v h in
    let success : Succeeds v = subst Succeeds kept h in ((kept, success), λ resizes. ground arith)

pub delete_stage :
    (o : Operation) (v : Verdict)
    → Succeeds (confirm_delete o v)
    → Kept (confirm_delete o) v
      × ((o.action == "delete") ≡ true
          → shows v.power (λ p. power_reached "delete" p.status) ≡ true)
unfolding confirm_delete
delete_stage o v h =
    let (test, kept) = unconfirmed_success _ _ v h in
    let success : Succeeds v = subst Succeeds kept h in ((kept, success), λ deletes. ground arith)

abbrev deferred : Verdict → Verdict
deferred v = record {
  status = observing;
  detail = "Public key import submitted; waiting for read-only confirmation.";
  power = accept_result v.power;
}

pub key_stage :
    (dispatch : Bool) (o : Operation) (v : Verdict)
    → Succeeds (defer_key dispatch o v)
    → Kept (defer_key dispatch o) v
      × ((o.action == "create") ≡ true
          → (o.resource_kind == "access.ssh_key") ≡ true
          → shows v.power (λ p. true) ≡ true
          → dispatch ≡ false)
unfolding defer_key
key_stage dispatch o v h =
    let (test, kept) =
      deferred_success
        (o.action == "create"
          && shows v.power (λ p. true)
          && dispatch
          && o.resource_kind == "access.ssh_key"
          && is_success v)
        (deferred v) v refl h in
    let success : Succeeds v = subst Succeeds kept h in
    ((kept, success), λ creates keys shown. ground arith)

pub create_stage :
    (o : Operation) (v : Verdict)
    → Succeeds (confirm_create o v)
    → Kept (confirm_create o) v
      × ((o.action == "create") ≡ true
          → (o.resource_kind == "access.ssh_key") ≡ true
          → shows v.power (λ p. not (p.status == "present")) ≡ false)
      × ((o.action == "create") ≡ true
          → (o.resource_kind == "access.ssh_key") ≡ false
          → shows v.power (λ p. not (power_reached "start" p.status)) ≡ false)
unfolding confirm_create
create_stage o v h =
    let (test, kept) = dropped_success _ _ v h in
    let success : Succeeds v = subst Succeeds kept h in
    elim (Option-cases v.power) [
      | inl missing ↦ ((kept, success), λ creates keys. ground arith, λ creates other. ground arith)
      | inr (p, shown) ↦
          ((kept, success), λ creates keys. ground arith, λ creates other. ground arith)
    ]
