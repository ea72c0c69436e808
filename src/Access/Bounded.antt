-- ===== src/Access/Bounded.antt =====
-- What a change of access can give: the lemmas on the rows that a handler leaves.
pub mod Membership
pub mod Roles
pub mod Saved
use providah_community.Prelude.{
  ◌≡◌, refl, sym, ◌∙◌, ap, subst, ◌==◌, ==_iff, Bool, true, false, not, ◌&&◌, ◌||◌, String, Option,
  none, some, List, [], ◌∷◌, ◌++◌, arith, contains, if◌then◌else◌, map, eqb, ltb, any, inl, inr,
  ◌⊎◌, Bool-cases,
}
use providah_community.Operation.Tables.{
  Answer, done, Fault, denied, found, refuse_if, ◌>>=◌, ◌>>◌, >>=-eq-done, >>-eq-done, done_same,
}
use providah_community.Operation.Review.{Actor}
use providah_community.Operation.Request.Reviewed.{found-some}
use providah_community.Access.{
  Access, Change, Role, Member, User, Team, get_role, get_member, get_user, member_permissions,
  team_permissions, permissions_of, admin_permissions, permissions, permits, subset, access_lock,
  holds, access_row, in_team,
}
use providah_community.Access.Members.{
  MemberInput, set_row, within_own, update_member, has_administrator,
}
use providah_community.Access.Sets.{contains-subset, contains-append}
use providah_community.Access.Granted.{
  Source, by_administration, by_membership, permits-Source, Source-permits, team_gives,
}

-- The permissions of the lock are those of the user who acts.
pub access_lock-own :
    (a : Access) (uid permission : String) (own : List String)
    → access_lock a uid permission ≡ done own
    → permissions a uid ≡ some own
unfolding access_lock
access_lock-own a uid permission own h =
    let (_, h1) = >>-eq-done (not a.active) denied _ h in
    let (ps, read, h2) = >>=-eq-done (found (permissions a uid) denied) _ h1 in
    let (_, h3) = >>-eq-done (not (contains ps permission)) denied _ h2 in
    found-some (permissions a uid) denied
      (subst (λ x. found (permissions a uid) denied ≡ done x) (done_same _ _ h3) read)

pub own-permits :
    (a : Access) (uid p : String) (own : List String)
    → permissions a uid ≡ some own
    → contains own p ≡ true
    → permits a uid p ≡ true
unfolding permits
own-permits a uid p own e inside = ap (holds p) e ∙ inside

-- What a search finds at the head of a list, or behind it.
pub picked :
    {A : Type 0} (b : Bool) (y : A) (rest : Option A) {m : A}
    → (if b then some y else rest) ≡ some m
    → ((b ≡ true) × (y ≡ m)) ⊎ ((b ≡ false) × (rest ≡ some m))
picked true y rest {m} h = inl (refl, cc)
picked false y rest h = inr (refl, h)

set_row-cases :
    (input : MemberInput) (x : Member)
    → (set_row input x ≡ x) ⊎ ((set_row input x).role_id ≡ some input.role_id)
unfolding set_row
set_row-cases input x =
    elim (Bool-cases (x.user_id == input.user_id && eqb x.revision input.expected_revision)) [
      | inl same ↦ inr (rw same)
      | inr other ↦ inl (rw other)
    ]

set_row_user : (input : MemberInput) (x : Member) → (set_row input x).user_id ≡ x.user_id
unfolding set_row
set_row_user input x =
    elim (Bool-cases (x.user_id == input.user_id && eqb x.revision input.expected_revision)) [
      | inl same ↦ rw same
      | inr other ↦ rw other
    ]

-- The row of a user after the query `SetMember`.
pub get_member-set_row :
    (uid : String) (input : MemberInput) (ms : List Member) (m : Member)
    → get_member uid (map (set_row input) ms) ≡ some m
    → (get_member uid ms ≡ some m)
      ⊎ ((old : Member) × (get_member uid ms ≡ some old) × (m.role_id ≡ some input.role_id))
unfolding get_member
get_member-set_row uid input [] m h = cc
get_member-set_row uid input (x ∷ ms) m h = elim (picked ((set_row input x).user_id == uid) _ _ h) [
  | inl (this, same) ↦
      let here = subst (λ u. (u == uid) ≡ true) (set_row_user input x) this in
      elim (set_row-cases input x) [
        | inl unchanged ↦ inl (rw here (ap some (sym unchanged ∙ same)))
        | inr given ↦ inr (x, rw here, ap (λ y. y.role_id) (sym same) ∙ given)
      ]
  | inr (other, later) ↦
      let past = subst (λ u. (u == uid) ≡ false) (set_row_user input x) other in
      elim (get_member-set_row uid input ms m later) [
        | inl found ↦ inl (rw past found)
        | inr (old, found, given) ↦ inr (old, rw past found, given)
      ]
]

-- A membership without an active row gives no permissions.
pub inactive_none :
    (a : Access) (uid : String) (u : User) (m : Member)
    → get_user uid a.users ≡ some u
    → u.global_admin ≡ false
    → get_member uid a.members ≡ some m
    → m.active ≡ false
    → permissions a uid ≡ none
unfolding permissions
inactive_none a uid u m eu eg em inactive =
    ap (λ x. access_row a uid x (get_member uid a.members)) eu
    ∙ ap (λ x. access_row a uid (some u) x) em
    ∙ ground (arith, eg, inactive)

-- What a change of a membership leads to.
abbrev pub IsBounded : (before after : Access) (grantor : String) → Type 0
IsBounded before after grantor =
    (uid p : String)
    → permits after uid p ≡ true
    → (permits before uid p ≡ true)
      ⊎ (permits before grantor p ≡ true)
      ⊎ ((permissions before uid ≡ none) × (team_gives before uid p ≡ true))
