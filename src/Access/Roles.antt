-- ===== src/Access/Roles.antt =====
-- SaveRole (internal/core/access.go).
use providah_community.Prelude.{
  ℕ, ◌+◌, ◌==◌, Bool, false, not, ◌&&◌, ◌||◌, String, len, List, [], ◌∷◌, if◌then◌else◌, any, map,
  ltb, eqb, length, is_empty, trim_space,
}
use providah_community.Operation.Tables.{
  Answer, done, ◌>>=◌, ◌>>◌, refuse_if, found, denied, internal, invalid, conflict, audited,
}
use providah_community.Operation.Review.{Actor}
use providah_community.Access.{Role, Access, Change, subset, sorted_set, get_role, access_lock}

abbrev pub permission_catalog : List String
permission_catalog =
    "dashboards.manage" ∷ "admin.access" ∷ "templates.read" ∷ "templates.publish"
    ∷ "identity.manage" ∷ "modules.read" ∷ "modules.manage" ∷ "connections.read"
    ∷ "connections.manage" ∷ "resources.read" ∷ "audit.read" ∷ "members.read" ∷ "members.manage"
    ∷ "roles.manage" ∷ "operations.read" ∷ "operations.request" ∷ "operations.delete"
    ∷ "operations.create" ∷ "operations.approve" ∷ "schedules.read" ∷ "schedules.manage"
    ∷ "notifications.read" ∷ "notifications.manage" ∷ "maintenance.read" ∷ "maintenance.manage"
    ∷ "maintenance.override" ∷ "audit.export.manage" ∷ []

-- `SaveRoleRequest` within its organization.
pub record RoleInput : Type 0 where
  pub id : String
  pub name : String
  pub permissions : List String
  pub expected_revision : ℕ

-- The unique name of a role.
abbrev name_taken : String → String → List Role → Bool
name_taken id name roles = any (λ r. not (r.id == id) && r.name == name) roles

-- The query `UpdateRole` on one row.
unfoldable pub update_row : RoleInput → String → List String → Role → Role
update_row input name perms r =
    if r.id == input.id && not r.builtin && eqb r.revision input.expected_revision
    then record r { name = name; permissions = perms; revision = r.revision + 1 }
    else r

-- The revision of a known role is at least 1, and that of a new one is 0.
unfoldable pub check_role_input : RoleInput → String → Answer (Unit {0})
unfolding subset
check_role_input input name = do
  refuse_if
      (input.id == "" && not (eqb input.expected_revision 0)
        || not (input.id == "") && ltb input.expected_revision 1)
      (invalid "Reload the role before saving its current revision.")
  refuse_if
      (name == ""
        || ltb 80 (len name)
        || is_empty input.permissions
        || ltb (length permission_catalog) (length input.permissions)
        || not (subset input.permissions permission_catalog))
      (invalid "Choose a role name and known permissions.")

module _ (actor : Actor) (new_id : String) where
  -- The roles with the new one, whose id is fresh.
  unfoldable pub create_role : Access → String → List String → Answer (List Role)
  create_role a name perms = do
    refuse_if (name_taken new_id name a.roles) internal
    done (
        record { id = new_id; name = name; permissions = perms; builtin = false; revision = 1 }
        ∷ a.roles)

  unfoldable pub edit_role :
      Access → List String → RoleInput → String → List String → Answer (List Role)
  unfolding subset get_role update_row
  edit_role a own input name perms = do
    old ← found (get_role input.id a.roles) denied
    refuse_if (not (subset old.permissions own)) denied
    refuse_if old.builtin (conflict "Built-in roles cannot be edited. Create a custom role.")
    refuse_if (eqb old.revision input.expected_revision && name_taken input.id name a.roles)
        internal
    refuse_if (not (eqb old.revision input.expected_revision))
        (conflict "Role changed. Close and reopen the editor before saving.")
    done (map (update_row input name perms) a.roles)

  unfoldable pub save_role : Access → RoleInput → Answer Change
  unfolding check_role_input access_lock sorted_set create_role edit_role
  save_role a input = do
    let name = trim_space input.name
    check_role_input input name
    let perms = sorted_set input.permissions
    own ← access_lock a actor.user_id "roles.manage"
    refuse_if (not (subset perms own)) denied
    roles ← (if input.id == "" then create_role a name perms else edit_role a own input name perms)
    done (record {
      access = record a { roles = roles };
      effects =
          audited a.org_id actor.email "role.saved" (if input.id == "" then new_id else input.id)
          ∷ [];
    })
