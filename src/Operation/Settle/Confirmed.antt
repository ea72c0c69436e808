-- ===== src/Operation/Settle/Confirmed.antt =====
-- The second transaction of `runOperation`: the verdict of success and what the result shows.
use providah_community.Prelude.{
  ◌≡◌, ◌==◌, Bool, true, false, String, Option, some, [], ◌∷◌, contains, subst,
}
use providah_community.Provider.Tags.{tags_equal}
use providah_community.Provider.Status.{power_reached, resource_action_reached}
use providah_community.Provider.Power.{PowerResult}
use providah_community.Provider.Discovery.{Response}
use providah_community.Operation.Tables.{Operation, dispatching, succeeded, is_status, done, Commit}
use providah_community.Operation.World.{World}
use providah_community.Operation.Settle.{
  usable, first_verdict, shows, confirm_power, confirm_snapshot, confirm_tags, confirm_resize,
  confirm_delete, defer_key, judge, settle,
}
use providah_community.Operation.Settle.Success.{
  Succeeds, first_success, shows-some, refused, not-false, power_stage, snapshot_stage, tags_stage,
  size_stage, delete_stage, key_stage, create_stage,
}
use providah_community.Operation.Settle.Stored.{settle_status}

-- What the provider's result shows of an operation that succeeds. The id and the status of a
-- snapshot are shown only where the result names no error.
pub record IsConfirmed (dispatch : Bool) (o : Operation) (p : PowerResult) : Type 0 where
  pub outcome : (p.outcome == "succeeded") ≡ true
  pub power :
      contains ("start" ∷ "shutdown" ∷ "restart" ∷ []) o.action ≡ true
      → resource_action_reached o.resource_kind o.action p.status ≡ true
  pub snapshot :
      (o.action == "snapshot") ≡ true
      → (p.error == "") ≡ true
      → ((p.action_id == "") ≡ false) × ((p.status == "snapshot_available") ≡ true)
  pub tags : (o.action == "tags") ≡ true → tags_equal p.tags o.target_tags ≡ true
  pub size : (o.action == "resize") ≡ true → (p.size == o.target_size) ≡ true
  pub deletion : (o.action == "delete") ≡ true → power_reached "delete" p.status ≡ true
  pub key :
      (o.action == "create") ≡ true
      → (o.resource_kind == "access.ssh_key") ≡ true
      → (dispatch ≡ false) × ((p.status == "present") ≡ true)
  pub server :
      (o.action == "create") ≡ true
      → (o.resource_kind == "access.ssh_key") ≡ false
      → power_reached "start" p.status ≡ true

-- The judgement of a provider's result, an operation's action being known: a success is one that
-- the result confirms.
judge-IsConfirmed :
    (dispatch : Bool) (o : Operation) (power : Option PowerResult)
    → Succeeds (judge dispatch o power)
    → (p : PowerResult) × (power ≡ some p)
      × (judge dispatch o power ≡ first_verdict dispatch power)
      × IsConfirmed dispatch o p
unfolding judge
judge-IsConfirmed dispatch o power h =
    let v = first_verdict dispatch power in
    let ((kept8, s8), key, server) = create_stage o _ h in
    let ((kept7, s7), deferred) = key_stage dispatch o _ s8 in
    let ((kept6, s6), deletion) = delete_stage o _ s7 in
    let ((kept5, s5), size) = size_stage o _ s6 in
    let ((kept4, s4), tags) = tags_stage o _ s5 in
    let ((kept3, s3), snapshot) = snapshot_stage o _ s4 in
    let ((kept2, s2), reached) = power_stage o _ s3 in
    let (p, is_p, outcome, shown) = first_success dispatch power s2 in
    let e2 : (confirm_power o v).power ≡ some p = cc in
    let e3 : (confirm_snapshot o (confirm_power o v)).power ≡ some p = cc in
    let e4 : (confirm_tags o (confirm_snapshot o (confirm_power o v))).power ≡ some p = cc in
    let e5 : (confirm_resize o (confirm_tags o (confirm_snapshot o (confirm_power o v)))).power
        ≡ some p =
      cc in
    let e6 : (confirm_delete o
          (confirm_resize o (confirm_tags o (confirm_snapshot o (confirm_power o v))))).power
        ≡ some p =
      cc in
    let e7 : (defer_key dispatch o (
          confirm_delete o
            (confirm_resize o (confirm_tags o (confirm_snapshot o (confirm_power o v)))))).power
        ≡ some p =
      cc in
    (
      p,
      is_p,
      cc,
      record {
        outcome = outcome;
        power = λ starts. shows-some p _ _ shown (reached starts);
        snapshot =
            λ snapshots empty. refused _ _ _ empty (shows-some p _ _ e2 (snapshot snapshots));
        tags = λ is_tags. shows-some p _ _ e3 (tags is_tags);
        size = λ resizes. shows-some p _ _ e4 (size resizes);
        deletion = λ deletes. shows-some p _ _ e5 (deletion deletes);
        key = λ creates keys.
            let sent : shows
                  (confirm_delete o (
                    confirm_resize o
                      (confirm_tags o (confirm_snapshot o (confirm_power o v))))).power
                  (λ p. true)
                ≡ true =
              cc in
            (deferred creates keys sent, not-false _ (shows-some p _ _ e7 (key creates keys)));
        server = λ creates other. not-false _ (shows-some p _ _ e7 (server creates other));
      },
    )

-- When the second transaction of a run stores its operation as succeeded, a usable result came
-- back, and it reports success and shows what `IsConfirmed` names for the action: the reached
-- status, the tags, the size, the deletion, the created key or server, and, where the result names
-- no error, the id and the status of a snapshot.
pub settle-IsConfirmed :
    (w : World) (is_ip : String → Bool) (job o : Operation) (response : Option Response)
    (commit : Commit)
    → settle w is_ip job response o ≡ done (some commit)
    → is_status commit.row.status succeeded ≡ true
    → (p : PowerResult) × (usable is_ip response ≡ some p)
      × IsConfirmed (is_status job.status dispatching) o p
settle-IsConfirmed w is_ip job o response commit h success =
    let (held, status) = settle_status w is_ip job o response commit h in
    let (p, came, first, confirmed) =
      judge-IsConfirmed (is_status job.status dispatching) o (usable is_ip response)
        (subst (λ s. is_status s succeeded ≡ true) status success) in
    (p, came, confirmed)
