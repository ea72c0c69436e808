-- ===== src/Access/Administrators.antt =====
-- An organization keeps an active administrator.
pub mod Kept
use providah_community.Prelude.{
  ℕ, ◌≡◌, refl, sym, ◌∙◌, ap, subst, ◌==◌, Bool, true, false, not, ◌&&◌, ◌||◌, String, Option, none,
  some, List, [], ◌∷◌, any, map, arith, if◌then◌else◌, inl, inr, ◌⊎◌, Bool-cases,
}
use providah_community.Operation.Tables.{
  Answer, done, fault, Fault, refuse_if, ◌>>=◌, ◌>>◌, >>=-eq-done, >>-eq-done, done_same,
}
use providah_community.Operation.Review.{Actor}
use providah_community.Access.{Access, Change, Member, User, Invitation, get_user}
use providah_community.Access.Outcomes.{
  OnDone, OnDone->>=, OnDone->>, OnDone-done, through, either, guarded,
}
use providah_community.Access.Changes.{
  AccessStep, AccessSteps, role_saved, member_updated, team_saved, team_deleted, invited, revoked,
  enrolled, joined, stay, then_on,
}
use providah_community.Access.Roles.{RoleInput, save_role}
use providah_community.Access.Members.{
  MemberInput, update_member, has_administrator, counts, user_active, is_administrator,
}
use providah_community.Access.Teams.{TeamInput, save_team, delete_team}
use providah_community.Access.Invitations.{
  Tools, create_invitation, revoke_invitation, enroll, begin_invitation, invitation, accepting_user,
  accept_invitation,
}
use providah_community.Access.Administrators.Kept.{
  Keeps-has_administrator, Saves, Begins, save_role-Saves, save_team-Saves, delete_team-Saves,
  create_invitation-Saves, revoke_invitation-Saves, begin_invitation-Begins,
}

abbrev Administered : Change → Type 0
Administered change = has_administrator change.access ≡ true

update_member-has_administrator :
    (recovery_missing : Access → Bool) (actor : Actor) (a : Access) (input : MemberInput)
    → OnDone Administered (update_member recovery_missing actor a input)
unfolding update_member
update_member-has_administrator missing actor a input =
    search (OnDone->>=, OnDone->>, guarded) depth 14

-- The new user is active, and the rows of the others stay.
user_active-new :
    (a after : Access) (new : User) (id : String)
    → after.users ≡ (new ∷ a.users)
    → new.active ≡ true
    → user_active a id ≡ true
    → user_active after id ≡ true
unfolding user_active get_user
user_active-new a after new id more active h =
    subst (λ users. elim (get_user id users) [ none ↦ false | some u ↦ u.active ] ≡ true) (sym more)
      (elim (Bool-cases (new.id == id)) [ inl here ↦ rw (here, active) | inr past ↦ rw past h ])

counts-any :
    (a after : Access) (ms : List Member)
    → ((id : String) → user_active a id ≡ true → user_active after id ≡ true)
    → any (counts a) ms ≡ true
    → any (counts after) ms ≡ true
unfolding counts
counts-any a after [] more h = cc
counts-any a after (m ∷ ms) more h = ground (arith, more m.user_id, counts-any a after ms more)

-- The user who accepts an invitation: no user's row is changed, and a new one is active.
abbrev Joins : Access → String × List User → Type 0
Joins a user =
    (user.1 ≡ a.users) ⊎ ((new : User) × (user.1 ≡ (new ∷ a.users)) × (new.active ≡ true))

accepting_user-Joins :
    (t : Tools) (a : Access) (i : Invitation) (password code : String)
    → OnDone (Joins a) (accepting_user t a i password code)
unfolding accepting_user
accepting_user-Joins t a i password code =
    either (Joins a) (any (λ u. u.email == i.email) a.users) _ _
      (search (OnDone->>=, OnDone->>, inl) depth 12) (search (OnDone->>=, OnDone->>, inr) depth 12)

still_active :
    (a : Access) (user : String × List User)
    → Joins a user
    → (after : Access) → after.users ≡ user.1
    → (id : String) → user_active a id ≡ true
    → user_active after id ≡ true
unfolding user_active
still_active a user (inl same) after e id h =
    subst (λ users. elim (get_user id users) [ none ↦ false | some u ↦ u.active ] ≡ true)
      (sym (e ∙ same)) h
still_active a user (inr (new, more, active)) after e id h =
    user_active-new a after new id (e ∙ more) active h

users-has_administrator :
    (a : Access) (user : String × List User) (new : Member) (invitations : List Invitation)
    → Joins a user
    → has_administrator a ≡ true
    → has_administrator
        (record a { users = user.1; members = new ∷ a.members; invitations = invitations })
      ≡ true
unfolding has_administrator
users-has_administrator a user new invitations joins h =
    let after = record a { users = user.1; members = new ∷ a.members; invitations = invitations } in
    let kept = counts-any a after a.members (still_active a user joins after refl) h in
    ground (arith, kept)

accept_invitation-has_administrator :
    (t : Tools) (a : Access) (token password code : String)
    → has_administrator a ≡ true
    → OnDone Administered (accept_invitation t a token password code)
unfolding accept_invitation
accept_invitation-has_administrator t a token password code h =
    OnDone->> Administered t.within_limit _ (
      OnDone->>= Administered (invitation t a token) _ (λ i.
        through Administered (Joins a) (accepting_user t a i password code) _
          (accepting_user-Joins t a i password code)
          (λ user joins. search (OnDone->>, users-has_administrator))))

-- Each handler on access keeps an active administrator.
step-has_administrator :
    {a b : Access} → AccessStep a b → has_administrator a ≡ true → has_administrator b ≡ true
step-has_administrator (role_saved actor new_id a input change e) h =
    Keeps-has_administrator a change.access
      (OnDone-done (Saves a) _ change (save_role-Saves actor new_id a input) e) h
step-has_administrator (member_updated missing actor a input change e) h =
    OnDone-done Administered _ change (update_member-has_administrator missing actor a input) e
step-has_administrator (team_saved actor new_id a input change e) h =
    Keeps-has_administrator a change.access
      (OnDone-done (Saves a) _ change (save_team-Saves actor new_id a input) e) h
step-has_administrator (team_deleted actor new_id a id revision change e) h =
    Keeps-has_administrator a change.access
      (OnDone-done (Saves a) _ change (delete_team-Saves actor new_id a id revision) e) h
step-has_administrator (invited t actor a address role_id change e) h =
    Keeps-has_administrator a change.access
      (OnDone-done (Saves a) _ change (create_invitation-Saves t actor a address role_id) e) h
step-has_administrator (revoked t actor a id change e) h =
    Keeps-has_administrator a change.access
      (OnDone-done (Saves a) _ change (revoke_invitation-Saves t actor a id) e) h
step-has_administrator (enrolled t a token seed after e) h =
    Keeps-has_administrator a after
      (OnDone-done (Begins a) _ (seed, after) (begin_invitation-Begins t a token) e) h
step-has_administrator (joined t a token password code change e) h =
    OnDone-done Administered _ change
      (accept_invitation-has_administrator t a token password code h) e

-- Whatever requests on access are answered, an organization that has an active administrator keeps
-- one.
pub administrator_kept :
    {a b : Access} → AccessSteps a b → has_administrator a ≡ true → has_administrator b ≡ true
administrator_kept (stay a) h = h
administrator_kept (then_on step rest) h = administrator_kept rest (step-has_administrator step h)
