-- ===== src/Access/Bounded/Saved.antt =====
-- SaveRole gives no permission that the one who acts does not have.
use providah_community.Prelude.{
  ◌≡◌, refl, sym, subst, ◌==◌, Bool, true, false, not, ◌&&◌, String, List, any, arith, eqb,
  if◌then◌else◌, inl, inr, ◌⊎◌, Bool-cases, trim_space,
}
use providah_community.Operation.Tables.{done, denied, found, >>=-eq-done, >>-eq-done, done_same}
use providah_community.Operation.Review.{Actor}
use providah_community.Access.{
  Access, Change, Role, get_role, admin_permissions, permits, subset, sorted_set, access_lock,
}
use providah_community.Access.Roles.{RoleInput, check_role_input, create_role, edit_role, save_role}
use providah_community.Access.Bounded.{access_lock-own}
use providah_community.Access.Bounded.Roles.{
  RolesWithin, roles-permits, updated_role, updated_administrators, custom_skipped,
}

create-RolesWithin :
    (actor : Actor) (new_id : String) (a : Access) (own : List String) (name : String)
    (perms : List String) (roles : List Role)
    → subset perms own ≡ true
    → create_role actor new_id a name perms ≡ done roles
    → RolesWithin own a.roles roles
unfolding create_role get_role admin_permissions
create-RolesWithin actor new_id a own name perms roles within h =
    let (_, h1) = >>-eq-done (any (λ r. not (r.id == new_id) && r.name == name) a.roles) _ _ h in
    let role : Role = record {
      id = new_id;
      name = name;
      permissions = perms;
      builtin = false;
      revision = 1;
    } in
    subst (RolesWithin own a.roles) (done_same _ _ h1) (record {
      each = λ id. elim (Bool-cases (new_id == id)) [
        | inl here ↦ inr (role, rw here, within)
        | inr past ↦ inl (rw past)
      ];
      administrators = λ other. custom_skipped role refl _ _;
    })

edit-RolesWithin :
    (actor : Actor) (new_id : String) (a : Access) (own : List String) (input : RoleInput)
    (name : String) (perms : List String) (roles : List Role)
    → subset perms own ≡ true
    → edit_role actor new_id a own input name perms ≡ done roles
    → RolesWithin own a.roles roles
unfolding edit_role
edit-RolesWithin actor new_id a own input name perms roles within h =
    let (old, _, h1) = >>=-eq-done (found (get_role input.id a.roles) denied) _ h in
    let (_, h2) = >>-eq-done (not (subset old.permissions own)) _ _ h1 in
    let (_, h3) = >>-eq-done old.builtin _ _ h2 in
    let (_, h4) =
      >>-eq-done
        (eqb old.revision input.expected_revision
          && any (λ r. not (r.id == input.id) && r.name == name) a.roles)
        _ _ h3 in
    let (_, h5) = >>-eq-done (not (eqb old.revision input.expected_revision)) _ _ h4 in
    subst (RolesWithin own a.roles) (done_same _ _ h5) (record {
      each = λ id. updated_role own input name perms id a.roles within;
      administrators = λ other. updated_administrators input name perms other a.roles;
    })

saved-RolesWithin :
    (actor : Actor) (new_id : String) (a : Access) (own : List String) (input : RoleInput)
    (name : String) (perms : List String) (roles : List Role) (new : Bool)
    → subset perms own ≡ true
    → (if new
        then create_role actor new_id a name perms
        else edit_role actor new_id a own input name perms)
      ≡ done roles
    → RolesWithin own a.roles roles
saved-RolesWithin actor new_id a own input name perms roles true within h =
    create-RolesWithin actor new_id a own name perms roles within h
saved-RolesWithin actor new_id a own input name perms roles false within h =
    edit-RolesWithin actor new_id a own input name perms roles within h

-- After SaveRole, a user has only permissions that the user or the one who acts had before.
pub save_role-permits :
    (actor : Actor) (new_id : String) (a : Access) (input : RoleInput) (change : Change)
    → save_role actor new_id a input ≡ done change
    → (uid p : String) → permits change.access uid p ≡ true
    → (permits a uid p ≡ true) ⊎ (permits a actor.user_id p ≡ true)
unfolding save_role
save_role-permits actor new_id a input change h uid p after =
    let name = trim_space input.name in
    let perms = sorted_set input.permissions in
    let (_, _, h1) = >>=-eq-done (check_role_input input name) _ h in
    let (own, locked, h2) = >>=-eq-done (access_lock a actor.user_id "roles.manage") _ h1 in
    let (within, h3) = >>-eq-done (not (subset perms own)) _ _ h2 in
    let (roles, saved, h4) =
      >>=-eq-done
        (if input.id == ""
          then create_role actor new_id a name perms
          else edit_role actor new_id a own input name perms)
        _ h3 in
    let bound =
      saved-RolesWithin actor new_id a own input name perms roles (input.id == "") (ground arith)
        saved in
    roles-permits a own roles bound actor.user_id uid p
      (access_lock-own a actor.user_id "roles.manage" own locked)
      (subst (λ c. permits c.access uid p ≡ true) (sym (done_same _ _ h4)) after)
