-- ===== src/Access.antt =====
-- Access within one organization (internal/core/access.go and teams.go, with queries/access.sql and
-- queries/teams.sql): the rows of the organization, and the permissions that they give.
pub mod Roles
pub mod Members
pub mod Invitations
pub mod Teams
pub mod Sets
pub mod Outcomes
pub mod Changes
pub mod Granted
pub mod Bounded
pub mod Administrators
pub mod Invited
use providah_community.Prelude.{
  ℕ, ◌==◌, Bool, true, false, ◌&&◌, String, Option, none, some, List, [], ◌∷◌, ◌++◌, if◌then◌else◌,
  all, any, contains,
}
use providah_community.Provider.Tags.{sort}
use providah_community.Operation.Tables.{
  Answer, done, ◌>>=◌, ◌>>◌, Effect, denied, found, refuse_if,
}
use providah_community.Prelude.{not}

pub record Role : Type 0 where
  pub id : String
  pub name : String
  pub permissions : List String
  pub builtin : Bool
  pub revision : ℕ

pub record Member : Type 0 where
  pub user_id : String
  pub permissions : List String
  pub role_id : Option String
  pub active : Bool
  pub revision : ℕ

pub record User : Type 0 where
  pub id : String
  pub email : String
  pub active : Bool
  pub global_admin : Bool

pub record Team : Type 0 where
  pub id : String
  pub name : String
  pub role_id : String
  pub active : Bool
  pub revision : ℕ

pub record Invitation : Type 0 where
  pub id : String
  pub email : String
  pub role_id : String
  pub role_revision : ℕ
  pub inviter_id : String
  pub token_hash : String
  pub expires_at : ℕ
  pub revoked_at : Option ℕ
  pub accepted_at : Option ℕ
  pub totp_ciphertext : String

-- The rows of one organization, and the users of the installation. `team_members` holds pairs of a
-- team and a user; `other_administrator` is the administrators' role of the first organization.
pub record Access : Type 0 where
  pub org_id : String
  pub active : Bool
  pub users : List User
  pub roles : List Role
  pub members : List Member
  pub teams : List Team
  pub team_members : List (String × String)
  pub invitations : List Invitation
  pub other_administrator : List String

-- The rows that a handler leaves, and its other writes.
pub record Change : Type 0 where
  pub access : Access
  pub effects : List Effect

-- `subset`.
unfoldable pub subset : List String → List String → Bool
subset want have = all (contains have) want

-- `slices.Compact`.
unfoldable pub compact : List String → List String
compact [] = []
compact (s ∷ rest) =
    let tail = compact rest in
    elim tail [ [] ↦ s ∷ [] | t ∷ more ↦ if s == t then t ∷ more else s ∷ t ∷ more ]

-- Each text once, in the order of their bytes.
unfoldable pub sorted_set : List String → List String
unfolding sort compact
sorted_set xs = compact (sort xs)

unfoldable pub get_user : String → List User → Option User
get_user id [] = none
get_user id (u ∷ rest) = if u.id == id then some u else get_user id rest

-- The query `GetRole`.
unfoldable pub get_role : String → List Role → Option Role
get_role id [] = none
get_role id (r ∷ rest) = if r.id == id then some r else get_role id rest

unfoldable pub get_member : String → List Member → Option Member
get_member id [] = none
get_member id (m ∷ rest) = if m.user_id == id then some m else get_member id rest

-- The permissions of a role, or others where there is no such role.
abbrev pub permissions_of : Option Role → List String → List String
permissions_of none other = other
permissions_of (some role) other = role.permissions

-- The permissions of a membership: those of its role, or its own.
unfoldable pub member_permissions : List Role → Member → List String
unfolding get_role
member_permissions roles m = elim m.role_id [
  | none ↦ m.permissions
  | some id ↦ permissions_of (get_role id roles) m.permissions
]

abbrev pub in_team : List (String × String) → String → String → Bool
in_team pairs team user = any (λ p. p.0 == team && p.1 == user) pairs

-- The permissions that a user has through active teams.
unfoldable pub team_permissions :
    List Role → List (String × String) → String → List Team → List String
unfolding get_role
team_permissions roles pairs user [] = []
team_permissions roles pairs user (t ∷ teams) =
    if t.active && in_team pairs t.id user
    then permissions_of (get_role t.role_id roles) [] ++ team_permissions roles pairs user teams
    else team_permissions roles pairs user teams

-- The permissions of an administrator of the installation.
unfoldable pub admin_permissions : List Role → List String → List String
admin_permissions [] other = other
admin_permissions (r ∷ rest) other =
    if r.id == "administrator" && r.builtin then r.permissions else admin_permissions rest other

-- The row of the view `effective_memberships` for the rows of a user and of a membership.
abbrev pub access_row : Access → String → Option User → Option Member → Option (List String)
access_row a uid none m = none
access_row a uid (some u) m =
    if not (a.active && u.active)
    then none
    else if u.global_admin
    then some (admin_permissions a.roles a.other_administrator)
    else elim m [
      | none ↦ none
      | some m ↦
          if m.active
          then some (
              sorted_set (
                member_permissions a.roles m
                ++ team_permissions a.roles a.team_members uid a.teams))
          else none
    ]

-- The query `Permissions` on that view; `none` where there is no row.
unfoldable pub permissions : Access → String → Option (List String)
unfolding get_user get_member sorted_set member_permissions team_permissions admin_permissions
permissions a uid = access_row a uid (get_user uid a.users) (get_member uid a.members)

abbrev pub holds : String → Option (List String) → Bool
holds p none = false
holds p (some ps) = contains ps p

-- Whether a user has a permission.
unfoldable pub permits : Access → String → String → Bool
unfolding permissions
permits a uid p = holds p (permissions a uid)

-- `accessLock`: the permissions of the user who acts.
unfoldable pub access_lock : Access → String → String → Answer (List String)
unfolding permissions
access_lock a uid permission = do
  refuse_if (not a.active) denied
  own ← found (permissions a uid) denied
  refuse_if (not (contains own permission)) denied
  done own
