-- ===== src/Access/Changes.antt =====
-- The handlers on access as steps on the rows of an organization.
use providah_community.Prelude.{ℕ, ◌≡◌, Bool, String}
use providah_community.Operation.Tables.{done}
use providah_community.Operation.Review.{Actor}
use providah_community.Access.{Access, Change}
use providah_community.Access.Roles.{RoleInput, save_role}
use providah_community.Access.Members.{MemberInput, update_member}
use providah_community.Access.Teams.{TeamInput, save_team, delete_team}
use providah_community.Access.Invitations.{
  Tools, create_invitation, revoke_invitation, begin_invitation, accept_invitation,
}

-- A handler that was answered, with the rows before and after it.
pub data AccessStep : Access → Access → Type 0 where
  role_saved :
      (actor : Actor) (new_id : String) (a : Access) (input : RoleInput) (change : Change)
      → save_role actor new_id a input ≡ done change
      → AccessStep a change.access
  member_updated :
      (recovery_missing : Access → Bool) (actor : Actor) (a : Access) (input : MemberInput)
      (change : Change)
      → update_member recovery_missing actor a input ≡ done change
      → AccessStep a change.access
  team_saved :
      (actor : Actor) (new_id : String) (a : Access) (input : TeamInput) (change : Change)
      → save_team actor new_id a input ≡ done change
      → AccessStep a change.access
  team_deleted :
      (actor : Actor) (new_id : String) (a : Access) (id : String) (revision : ℕ) (change : Change)
      → delete_team actor new_id a id revision ≡ done change
      → AccessStep a change.access
  invited :
      (t : Tools) (actor : Actor) (a : Access) (address role_id : String) (change : Change)
      → create_invitation t actor a address role_id ≡ done change
      → AccessStep a change.access
  revoked :
      (t : Tools) (actor : Actor) (a : Access) (id : String) (change : Change)
      → revoke_invitation t actor a id ≡ done change
      → AccessStep a change.access
  enrolled :
      (t : Tools) (a : Access) (token seed : String) (after : Access)
      → begin_invitation t a token ≡ done (seed, after)
      → AccessStep a after
  joined :
      (t : Tools) (a : Access) (token password code : String) (change : Change)
      → accept_invitation t a token password code ≡ done change
      → AccessStep a change.access

-- Some steps, one after the other.
pub data AccessSteps : Access → Access → Type 0 where
  stay : (a : Access) → AccessSteps a a
  then_on : {a b c : Access} → AccessStep a b → AccessSteps b c → AccessSteps a c
