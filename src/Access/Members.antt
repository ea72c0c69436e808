-- ===== src/Access/Members.antt =====
-- UpdateMember (internal/core/access.go).
use providah_community.Prelude.{
  ℕ, ◌+◌, ◌==◌, Bool, true, false, not, ◌&&◌, String, Option, none, some, List, [], ◌∷◌,
  if◌then◌else◌, any, map, ltb, eqb,
}
use providah_community.Operation.Tables.{
  Answer, done, ◌>>=◌, ◌>>◌, refuse_if, found, denied, invalid, conflict, audited,
}
use providah_community.Operation.Review.{Actor}
use providah_community.Access.{
  Member, Access, Change, subset, get_role, get_user, permissions, access_lock,
}

-- `UpdateMemberRequest` within its organization.
pub record MemberInput : Type 0 where
  pub user_id : String
  pub role_id : String
  pub active : Bool
  pub expected_revision : ℕ

abbrev is_current : MemberInput → Member → Bool
is_current input m = m.user_id == input.user_id && eqb m.revision input.expected_revision

-- The query `SetMember` on one row, with the trigger that counts its changes.
unfoldable pub set_row : MemberInput → Member → Member
set_row input m =
    if is_current input m
    then record m { role_id = some input.role_id; active = input.active; revision = m.revision + 1 }
    else m

-- Whether the role is that of the administrators.
abbrev pub is_administrator : Option String → Bool
is_administrator none = false
is_administrator (some id) = id == "administrator"

-- Whether a user has an active account.
unfoldable pub user_active : Access → String → Bool
unfolding get_user
user_active a id = elim (get_user id a.users) [ none ↦ false | some u ↦ u.active ]

-- A row that `AdministratorCount` counts.
unfoldable pub counts : Access → Member → Bool
unfolding user_active
counts a m = is_administrator m.role_id && m.active && user_active a m.user_id

-- Whether `AdministratorCount` is not 0.
unfoldable pub has_administrator : Access → Bool
unfolding counts
has_administrator a = any (counts a) a.members

-- `recovery_missing` is the query `IdentityRecoveryMissing` on the rows as they are left.
module _ (recovery_missing : Access → Bool) (actor : Actor) where
  -- The user's permissions, if any, are the actor's too.
  unfoldable pub within_own : Access → List String → String → Bool
  unfolding permissions subset
  within_own a own user = elim (permissions a user) [ none ↦ true | some old ↦ subset old own ]

  unfoldable pub update_member : Access → MemberInput → Answer Change
  unfolding access_lock get_role subset within_own set_row has_administrator
  update_member a input = do
    refuse_if (ltb input.expected_revision 1)
        (invalid "Reload the membership before saving its current revision.")
    own ← access_lock a actor.user_id "members.manage"
    role ← found (get_role input.role_id a.roles) denied
    refuse_if (not (subset role.permissions own)) denied
    refuse_if (not (within_own a own input.user_id)) denied
    refuse_if (not (any (is_current input) a.members)) (
        conflict "Membership changed or is unavailable. Close and reopen the editor before saving.")
    let left = record a { members = map (set_row input) a.members }
    refuse_if (not (has_administrator left)) (conflict "Keep at least one active administrator.")
    refuse_if (recovery_missing left) (
        conflict
          "Keep an active designated recovery administrator before removing this membership or role.")
    done (record {
      access = left;
      effects = audited a.org_id actor.email "member.updated" input.user_id ∷ [];
    })
