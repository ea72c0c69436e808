-- ===== src/Operation/Settle/Stored.antt =====
-- The status that the second transaction of `runOperation` stores.
use providah_community.Prelude.{
  ◌≡◌, refl, Bool, true, false, not, String, Option, none, some, [], ◌∷◌, if◌then◌else◌, ◌++◌, ap,
  sym,
}
use providah_community.Provider.Discovery.{Response}
use providah_community.Operation.Tables.{
  Operation, dispatching, is_status, Answer, done, fault, refreshed, ◌>>=◌, Commit,
}
use providah_community.Operation.World.{World}
use providah_community.Operation.Outcome.{save_power_outcome, save_operation_outcome}
use providah_community.Operation.Settle.{usable, judge, bind_if_created, still_claimed, settle}

guarded_done :
    {A B : Type 0} (held : Bool) (m : Answer A) (f : A → B) {c : B}
    → (if not held then done none else (m >>= λ x. done (some (f x)))) ≡ done (some c)
    → (held ≡ true) × (x : A) × (f x ≡ c)
guarded_done true (done x) f h = (refl, x, cc)
guarded_done true (fault e) f h = cc
guarded_done false m f h = cc

-- What the transaction after the call writes: the verdict's status, under the lease of the job.
pub settle_status :
    (w : World) (is_ip : String → Bool) (job o : Operation) (response : Option Response)
    (commit : Commit)
    → settle w is_ip job response o ≡ done (some commit)
    → (still_claimed w job o ≡ true)
      × (commit.row.status
          ≡ (judge (is_status job.status dispatching) o (usable is_ip response)).status)
unfolding settle save_power_outcome save_operation_outcome
settle_status w is_ip job o response commit h =
    let v = judge (is_status job.status dispatching) o (usable is_ip response) in
    let (held, bound, saved) =
      guarded_done (still_claimed w job o) (bind_if_created w o v)
        (λ bound.
          let saved = save_power_outcome w.now bound.row v.status v.detail v.power in
          record {
            row = saved.row;
            effects = bound.effects ++ (saved.effects ++ refreshed o.connection_id ∷ []);
          })
        h in
    (held, ap (λ c. c.row.status) (sym saved))
