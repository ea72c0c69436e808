-- ===== src/Access/Bounded/Roles.antt =====
-- Roles that change within the permissions of one user.
use providah_community.Prelude.{
  ◌≡◌, refl, sym, ◌∙◌, subst, ◌==◌, Bool, true, false, not, ◌&&◌, ◌||◌, String, Option, none, some,
  List, [], ◌∷◌, ◌++◌, map, arith, contains, eqb, if◌then◌else◌, inl, inr, ◌⊎◌, Bool-cases,
}
use providah_community.Access.{
  Access, Role, Member, Team, get_role, member_permissions, team_permissions, permissions_of,
  admin_permissions, permissions, permits, subset, in_team,
}
use providah_community.Access.Roles.{RoleInput, update_row}
use providah_community.Access.Sets.{contains-subset, contains-append}
use providah_community.Access.Granted.{
  by_administration, by_membership, permits-Source, Source-permits,
}
use providah_community.Access.Bounded.{own-permits}

-- Each role after a change is one that was there, or gives no more than some permissions; the
-- administrators' role is the one that was there.
pub record RolesWithin (own : List String) (before after : List Role) : Type 0 where
  pub each :
      (id : String)
      → (get_role id after ≡ get_role id before)
        ⊎ ((role : Role) × (get_role id after ≡ some role) × (subset role.permissions own ≡ true))
  pub administrators :
      (other : List String) → admin_permissions after other ≡ admin_permissions before other

module _ (own : List String) (before after : List Role) (within : RolesWithin own before after)
    (p : String) where
  role-within :
      (id : String) (other : List String)
      → contains (permissions_of (get_role id after) other) p ≡ true
      → (contains (permissions_of (get_role id before) other) p || contains own p) ≡ true
  role-within id other h = elim (within.each id) [
    | inl same ↦ ground (arith, subst (λ r. contains (permissions_of r other) p ≡ true) same h)
    | inr (role, here, bound) ↦ ground (
      arith,
      contains-subset role.permissions own p bound
          (subst (λ r. contains (permissions_of r other) p ≡ true) here h),
    )
  ]

  member-within :
      (m : Member)
      → contains (member_permissions after m) p ≡ true
      → (contains (member_permissions before m) p || contains own p) ≡ true
  unfolding member_permissions
  member-within m h = go m.role_id h
    where
      go :
          (r : Option String)
          → contains
              (elim r [
                | none ↦ m.permissions
                | some id ↦ permissions_of (get_role id after) m.permissions
              ])
              p
            ≡ true
          → (contains
                (elim r [
                  | none ↦ m.permissions
                  | some id ↦ permissions_of (get_role id before) m.permissions
                ])
                p
              || contains own p)
            ≡ true
      go none h = ground arith
      go (some id) h = role-within id m.permissions h

  -- What holds of the roles of one team and of the teams behind it holds of both.
  split_team :
      (b : Bool) (xs xs' ys ys' : List String)
      → (contains xs p ≡ true → (contains xs' p || contains own p) ≡ true)
      → (contains ys p ≡ true → (contains ys' p || contains own p) ≡ true)
      → contains (if b then xs ++ ys else ys) p ≡ true
      → (contains (if b then xs' ++ ys' else ys') p || contains own p) ≡ true
  split_team false xs xs' ys ys' first later h = later h
  split_team true xs xs' ys ys' first later h =
      let both = sym (contains-append xs ys p) ∙ h in
      let same = contains-append xs' ys' p in ground arith

  team-within :
      (pairs : List (String × String)) (user : String) (teams : List Team)
      → contains (team_permissions after pairs user teams) p ≡ true
      → (contains (team_permissions before pairs user teams) p || contains own p) ≡ true
  unfolding team_permissions
  team-within pairs user [] h = cc
  team-within pairs user (t ∷ teams) h =
      split_team (t.active && in_team pairs t.id user)
        (permissions_of (get_role t.role_id after) [])
        (permissions_of (get_role t.role_id before) []) _ _ (role-within t.role_id [])
        (team-within pairs user teams) h

kept :
    (m t m' t' o : Bool)
    → (m || t) ≡ true
    → (m ≡ true → (m' || o) ≡ true)
    → (t ≡ true → (t' || o) ≡ true)
    → o ≡ false
    → (m' || t') ≡ true
kept m t m' t' o h hm ht e = ground arith

-- With other roles that stay within the grantor's permissions, a user has what the user or the
-- grantor had.
pub roles-permits :
    (a : Access) (own : List String) (after : List Role)
    → RolesWithin own a.roles after
    → (grantor uid p : String) → permissions a grantor ≡ some own
    → permits (record a { roles = after }) uid p ≡ true
    → (permits a uid p ≡ true) ⊎ (permits a grantor p ≡ true)
roles-permits a own after within grantor uid p owned h =
    elim (permits-Source (record a { roles = after }) uid p h) [
      | by_administration u eu opened eg inside ↦ inl (
          Source-permits (
            by_administration u eu opened eg (
              subst (λ ps. contains ps p ≡ true) (within.administrators a.other_administrator)
                inside)))
      | by_membership u m eu opened eg em active inside ↦ elim (Bool-cases (contains own p)) [
        | inl owns ↦ inr (own-permits a grantor p own owned owns)
        | inr not_own ↦ inl (
            Source-permits (
              by_membership u m eu opened eg em active (
                kept (contains (member_permissions after m) p) _ _ _ (contains own p) inside
                  (member-within own a.roles after within p m)
                  (team-within own a.roles after within p a.team_members uid a.teams) not_own)))
      ]
    ]

pub custom_skipped :
    (r : Role)
    → r.builtin ≡ false
    → (xs ys : List String) → (if r.id == "administrator" && r.builtin then xs else ys) ≡ ys
custom_skipped r custom xs ys = ground (arith, custom)

-- A row that the query `UpdateRole` writes is not built in; the others stay as they are.
update_row-cases :
    (input : RoleInput) (name : String) (perms : List String) (r : Role)
    → (update_row input name perms r ≡ r)
      ⊎ (((update_row input name perms r).permissions ≡ perms)
          × ((update_row input name perms r).id ≡ r.id)
          × ((update_row input name perms r).builtin ≡ false)
          × (r.builtin ≡ false))
unfolding update_row
update_row-cases input name perms r =
    elim (Bool-cases
      (r.id == input.id && not r.builtin && eqb r.revision input.expected_revision)) [
        | inl written ↦
            inr (rw written refl, rw written refl, rw written (ground arith), ground arith)
        | inr other ↦ inl (rw other)
      ]

pub updated_role :
    (own : List String) (input : RoleInput) (name : String) (perms : List String) (id : String)
    (roles : List Role)
    → subset perms own ≡ true
    → (get_role id (map (update_row input name perms) roles) ≡ get_role id roles)
      ⊎ ((role : Role) × (get_role id (map (update_row input name perms) roles) ≡ some role)
          × (subset role.permissions own ≡ true))
unfolding get_role
updated_role own input name perms id [] within = inl refl
updated_role own input name perms id (r ∷ roles) within =
    elim (update_row-cases input name perms r) [
      | inl same ↦ elim (Bool-cases (r.id == id)) [
        | inl here ↦ inl (rw (same, here))
        | inr past ↦ elim (updated_role own input name perms id roles within) [
          | inl later ↦ inl (rw (same, past, later))
          | inr (role, later, bound) ↦ inr (role, rw (same, past, later), bound)
        ]
      ]
      | inr (given, same_id, _, _) ↦ elim (Bool-cases (r.id == id)) [
        | inl here ↦ inr (update_row input name perms r, rw (same_id, here), rw (given, within))
        | inr past ↦ elim (updated_role own input name perms id roles within) [
          | inl later ↦ inl (rw (same_id, past, later))
          | inr (role, later, bound) ↦ inr (role, rw (same_id, past, later), bound)
        ]
      ]
    ]

pub updated_administrators :
    (input : RoleInput) (name : String) (perms : List String) (other : List String)
    (roles : List Role)
    → admin_permissions (map (update_row input name perms) roles) other
      ≡ admin_permissions roles other
unfolding admin_permissions
updated_administrators input name perms other [] = refl
updated_administrators input name perms other (r ∷ roles) =
    let later = updated_administrators input name perms other roles in
    elim (update_row-cases input name perms r) [
      | inl same ↦ rw (same, later)
      | inr (_, same_id, custom, was_custom) ↦
          custom_skipped (update_row input name perms r) custom _ _
          ∙ later
          ∙ sym (custom_skipped r was_custom _ _)
    ]
