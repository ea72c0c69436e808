-- ===== src/Access/Administrators/Kept.antt =====
-- The handlers that change neither the members nor the users.
use providah_community.Prelude.{ℕ, ◌≡◌, true, String}
use providah_community.Operation.Review.{Actor}
use providah_community.Access.{Access, Change}
use providah_community.Access.Outcomes.{OnDone, OnDone->>=, OnDone->>, either}
use providah_community.Access.Roles.{RoleInput, save_role}
use providah_community.Access.Members.{has_administrator, counts, user_active}
use providah_community.Access.Teams.{TeamInput, save_team, delete_team}
use providah_community.Access.Invitations.{
  Tools, create_invitation, revoke_invitation, enroll, begin_invitation,
}

-- The members and the users stay.
abbrev pub Keeps : Access → Access → Type 0
Keeps a after = (after.members ≡ a.members) × (after.users ≡ a.users)

pub Keeps-has_administrator :
    (a after : Access) → Keeps a after → has_administrator a ≡ true → has_administrator after ≡ true
unfolding has_administrator counts user_active
Keeps-has_administrator a after (members, users) h = rw (members, users, h)

abbrev pub Saves : Access → Change → Type 0
Saves a change = Keeps a change.access

pub save_role-Saves :
    (actor : Actor) (new_id : String) (a : Access) (input : RoleInput)
    → OnDone (Saves a) (save_role actor new_id a input)
unfolding save_role
save_role-Saves actor new_id a input = search (OnDone->>=, OnDone->>) depth 12

pub save_team-Saves :
    (actor : Actor) (new_id : String) (a : Access) (input : TeamInput)
    → OnDone (Saves a) (save_team actor new_id a input)
unfolding save_team
save_team-Saves actor new_id a input = search (OnDone->>=, OnDone->>) depth 12

pub delete_team-Saves :
    (actor : Actor) (new_id : String) (a : Access) (id : String) (revision : ℕ)
    → OnDone (Saves a) (delete_team actor new_id a id revision)
unfolding delete_team
delete_team-Saves actor new_id a id revision = search (OnDone->>=, OnDone->>) depth 12

pub create_invitation-Saves :
    (t : Tools) (actor : Actor) (a : Access) (address role_id : String)
    → OnDone (Saves a) (create_invitation t actor a address role_id)
unfolding create_invitation
create_invitation-Saves t actor a address role_id = search (OnDone->>=, OnDone->>) depth 12

pub revoke_invitation-Saves :
    (t : Tools) (actor : Actor) (a : Access) (id : String)
    → OnDone (Saves a) (revoke_invitation t actor a id)
unfolding revoke_invitation
revoke_invitation-Saves t actor a id = search (OnDone->>=, OnDone->>) depth 12

abbrev pub Begins : Access → String × Access → Type 0
Begins a answer = Keeps a answer.1

pub begin_invitation-Begins :
    (t : Tools) (a : Access) (token : String) → OnDone (Begins a) (begin_invitation t a token)
unfolding begin_invitation enroll
begin_invitation-Begins t a token = search (OnDone->>=, OnDone->>, either) depth 12
