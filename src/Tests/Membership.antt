-- ===== src/Tests/Membership.antt =====
-- An organization with an administrator, and a colleague who is invited, made a member, and given a
-- role.
use providah_community.Prelude.{
  ◌≡◌, refl, ◌⊎◌, Bool, true, false, String, none, some, [], ◌∷◌, ◌==◌, trim_space,
}
use providah_community.Operation.Tables.{Answer, done}
use providah_community.Operation.Review.{Actor}
use providah_community.Access.{Access, Change, Role, Member, Invitation, permits, permissions}
use providah_community.Access.Outcomes.{succeeds}
use providah_community.Access.Granted.{team_gives}
use providah_community.Access.Roles.{RoleInput, save_role}
use providah_community.Access.Members.{MemberInput, update_member, has_administrator}
use providah_community.Access.Invitations.{Tools, accept_invitation}
use providah_community.Access.Changes.{AccessSteps, member_updated, stay, then_on}
use providah_community.Access.Administrators.{administrator_kept}
use providah_community.Access.Bounded.Membership.{update_member-IsBounded}
use providah_community.Access.Bounded.Saved.{save_role-permits}
use providah_community.Access.Invited.{IsInvited, accept-IsInvited}
use providah_community.Access.Invited.Once.{accepted_once}

abbrev administrator : Role
administrator = record {
  id = "administrator";
  name = "Administrator";
  permissions = "members.manage" ∷ "roles.manage" ∷ "resources.read" ∷ [];
  builtin = true;
  revision = 1;
}

abbrev viewer : Role
viewer = record {
  id = "viewer-role";
  name = "Viewers";
  permissions = "resources.read" ∷ [];
  builtin = false;
  revision = 1;
}

abbrev token : String
token = "0123456789abcdef0123456789abcdef0123456789abcdef0123456789abcdef"

abbrev offer : Invitation
offer = record {
  id = "inv-1";
  email = "cat@example.com";
  role_id = "viewer-role";
  role_revision = 1;
  inviter_id = "ann";
  token_hash = token;
  expires_at = 5000;
  revoked_at = none;
  accepted_at = none;
  totp_ciphertext = "seed";
}

abbrev member : String → String → Member
member user role = record {
  user_id = user;
  permissions = [];
  role_id = some role;
  active = true;
  revision = 1;
}

abbrev organization : Access
organization = record {
  org_id = "org";
  active = true;
  users =
      record { id = "ann"; email = "ann@example.com"; active = true; global_admin = false }
      ∷ record { id = "bob"; email = "bob@example.com"; active = true; global_admin = false }
      ∷ [];
  roles = administrator ∷ viewer ∷ [];
  members = member "ann" "administrator" ∷ member "bob" "viewer-role" ∷ [];
  teams = [];
  team_members = [];
  invitations = offer ∷ [];
  other_administrator = [];
}

abbrev ann : Actor
ann = record { user_id = "ann"; email = "ann@example.com"; oidc = none }

abbrev tools : Tools
tools = record {
  now = 1000;
  new_id = "cat";
  new_token = token;
  hash = λ s. s;
  normal_address = λ s. some s;
  within_limit = done tt;
  session = none;
  open_seed = λ s. some s;
  generate_seed = λ s. some s;
  seal = λ s. some s;
  check_totp = λ code seed. true;
  hash_password = λ s. some s;
}

abbrev changed : Answer Change → Change
changed (done c) = c
changed other = record { access = organization; effects = [] }

abbrev role_input : RoleInput
role_input = record {
  id = "viewer-role";
  name = "Viewers";
  permissions = "resources.read" ∷ "members.manage" ∷ [];
  expected_revision = 1;
}

abbrev saved : Change
saved = changed (save_role ann "role-2" organization role_input)

role_is_saved : save_role ann "role-2" organization role_input ≡ done saved
unfolding save_role ◌==◌ trim_space
role_is_saved = refl

bob_manages : permits saved.access "bob" "members.manage" ≡ true
unfolding permits save_role ◌==◌ trim_space
bob_manages = refl

save_role-permits_example :
    (permits organization "bob" "members.manage" ≡ true)
    ⊎ (permits organization "ann" "members.manage" ≡ true)
save_role-permits_example =
    save_role-permits ann "role-2" organization role_input saved role_is_saved "bob"
      "members.manage" bob_manages

abbrev promotion : MemberInput
promotion = record {
  user_id = "bob";
  role_id = "administrator";
  active = true;
  expected_revision = 1;
}

abbrev no_recovery : Access → Bool
no_recovery a = false

abbrev promoted : Change
promoted = changed (update_member no_recovery ann organization promotion)

bob_is_promoted : update_member no_recovery ann organization promotion ≡ done promoted
unfolding update_member ◌==◌
bob_is_promoted = refl

bob_administers : permits promoted.access "bob" "roles.manage" ≡ true
unfolding permits update_member ◌==◌
bob_administers = refl

update_member-IsBounded_example :
    (permits organization "bob" "roles.manage" ≡ true)
    ⊎ (permits organization "ann" "roles.manage" ≡ true)
    ⊎ ((permissions organization "bob" ≡ none)
        × (team_gives organization "bob" "roles.manage" ≡ true))
update_member-IsBounded_example =
    update_member-IsBounded no_recovery ann organization promotion promoted bob_is_promoted "bob"
      "roles.manage" bob_administers

abbrev accepted : Change
accepted = changed (accept_invitation tools organization token "a long password" "123456")

cat_is_accepted :
    accept_invitation tools organization token "a long password" "123456" ≡ done accepted
unfolding accept_invitation ◌==◌
cat_is_accepted = refl

accept-IsInvited_example : IsInvited tools organization token accepted
accept-IsInvited_example =
    accept-IsInvited tools organization token "a long password" "123456" accepted cat_is_accepted

-- Bob is promoted after the acceptance.
abbrev after_acceptance : Change
after_acceptance = changed (update_member no_recovery ann accepted.access promotion)

promoted_later : update_member no_recovery ann accepted.access promotion ≡ done after_acceptance
unfolding update_member accept_invitation ◌==◌
promoted_later = refl

accepted_once_example :
    succeeds (accept_invitation tools after_acceptance.access token "a long password" "654321")
    ≡ false
unfolding update_member accept_invitation ◌==◌
accepted_once_example =
    accepted_once tools tools organization after_acceptance.access token "a long password" "123456"
      accepted refl cat_is_accepted
      (then_on
        (member_updated no_recovery ann accepted.access promotion after_acceptance promoted_later)
        (stay after_acceptance.access))
      (tt, tt) "a long password" "654321"

has_ann : has_administrator organization ≡ true
unfolding has_administrator ◌==◌
has_ann = refl

abbrev steps : AccessSteps organization promoted.access
steps =
    then_on (member_updated no_recovery ann organization promotion promoted bob_is_promoted)
      (stay promoted.access)

administrator_kept_example : has_administrator promoted.access ≡ true
administrator_kept_example = administrator_kept steps has_ann

-- A manager who lacks `roles.manage`, and a former member of a team of administrators.
abbrev manager_role : Role
manager_role = record {
  id = "manager";
  name = "Managers";
  permissions = "members.manage" ∷ "resources.read" ∷ [];
  builtin = false;
  revision = 1;
}

abbrev with_team : Access
with_team = record organization {
  roles = administrator ∷ viewer ∷ manager_role ∷ [];
  members =
      member "ann" "administrator"
      ∷ member "eve" "manager"
      ∷ record {
        user_id = "bob";
        permissions = [];
        role_id = some "viewer-role";
        active = false;
        revision = 1;
      }
      ∷ [];
  users =
      record { id = "ann"; email = "ann@example.com"; active = true; global_admin = false }
      ∷ record { id = "bob"; email = "bob@example.com"; active = true; global_admin = false }
      ∷ record { id = "eve"; email = "eve@example.com"; active = true; global_admin = false }
      ∷ [];
  teams =
      record { id = "t"; name = "Admins"; role_id = "administrator"; active = true; revision = 1 }
      ∷ [];
  team_members = ("t", "bob") ∷ [];
}

abbrev eve : Actor
eve = record { user_id = "eve"; email = "eve@example.com"; oidc = none }

abbrev reactivation : MemberInput
reactivation = record {
  user_id = "bob";
  role_id = "viewer-role";
  active = true;
  expected_revision = 1;
}

abbrev reactivated : Change
reactivated = changed (update_member no_recovery eve with_team reactivation)

bob_is_reactivated : update_member no_recovery eve with_team reactivation ≡ done reactivated
unfolding update_member ◌==◌
bob_is_reactivated = refl

eve_cannot : permits with_team "eve" "roles.manage" ≡ false
unfolding permits ◌==◌
eve_cannot = refl

bob_could_not : permits with_team "bob" "roles.manage" ≡ false
unfolding permits ◌==◌
bob_could_not = refl

bob_can_again : permits reactivated.access "bob" "roles.manage" ≡ true
unfolding permits update_member ◌==◌
bob_can_again = refl
