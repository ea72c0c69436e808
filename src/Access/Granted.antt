-- ===== src/Access/Granted.antt =====
-- Where a user's permission comes from.
use providah_community.Prelude.{
  ◌≡◌, refl, sym, ◌∙◌, ap, Bool, true, false, not, ◌&&◌, ◌||◌, String, Option, none, some, List,
  ◌++◌, contains, if◌then◌else◌,
}
use providah_community.Access.{
  Access, User, Member, get_user, get_member, member_permissions, team_permissions,
  admin_permissions, permissions, permits, sorted_set, access_row, holds,
}
use providah_community.Access.Sets.{contains-sorted_set, contains-append}

abbrev pub team_gives : Access → String → String → Bool
team_gives a uid p = contains (team_permissions a.roles a.team_members uid a.teams) p

-- A user has a permission as an administrator of the installation, or by an active membership,
-- from its role or from a team.
pub data Source (a : Access) (uid p : String) : Type 0 where
  by_administration :
      (u : User)
      → get_user uid a.users ≡ some u
      → (a.active && u.active) ≡ true
      → u.global_admin ≡ true
      → contains (admin_permissions a.roles a.other_administrator) p ≡ true
      → Source a uid p
  by_membership :
      (u : User) (m : Member)
      → get_user uid a.users ≡ some u
      → (a.active && u.active) ≡ true
      → u.global_admin ≡ false
      → get_member uid a.members ≡ some m
      → m.active ≡ true
      → (contains (member_permissions a.roles m) p || team_gives a uid p) ≡ true
      → Source a uid p

permits-row :
    (a : Access) (uid p : String)
    → permits a uid p ≡ holds p (access_row a uid (get_user uid a.users) (get_member uid a.members))
unfolding permits permissions
permits-row a uid p = refl

-- A permission of a row that is given only where a test passes.
guarded :
    (p : String) (b : Bool) (x : Option (List String))
    → holds p (if not b then none else x) ≡ true
    → (b ≡ true) × (holds p x ≡ true)
guarded p true x h = (refl, h)
guarded p false x h = cc

active_row :
    (p : String) (b : Bool) (xs : List String)
    → holds p (if b then some xs else none) ≡ true
    → (b ≡ true) × (contains xs p ≡ true)
active_row p true xs h = (refl, h)
active_row p false xs h = cc

active_holds :
    (p : String) (b : Bool) (xs : List String)
    → b ≡ true
    → contains xs p ≡ true
    → holds p (if b then some xs else none) ≡ true
active_holds p true xs e h = h
active_holds p false xs e h = cc

row-Source :
    (a : Access) (uid p : String) (u : Option User) (m : Option Member)
    → get_user uid a.users ≡ u
    → get_member uid a.members ≡ m
    → holds p (access_row a uid u m) ≡ true
    → Source a uid p
row-Source a uid p none m eu em h = cc
row-Source a uid p (some u) m eu em h =
    let (opened, h1) = guarded p (a.active && u.active) _ h in go u.global_admin refl m em opened h1
  where
    go :
        (g : Bool)
        → u.global_admin ≡ g
        → (m : Option Member) → get_member uid a.members ≡ m
        → (a.active && u.active) ≡ true
        → holds p (
            if g then some (admin_permissions a.roles a.other_administrator) else elim m [
              | none ↦ none
              | some m ↦
                  if m.active
                  then some (
                      sorted_set (
                        member_permissions a.roles m
                        ++ team_permissions a.roles a.team_members uid a.teams))
                  else none
            ])
          ≡ true
        → Source a uid p
    go true eg m em opened h = by_administration u eu opened eg h
    go false eg none em opened h = cc
    go false eg (some m) em opened h =
        let (active, inside) = active_row p m.active _ h in
        by_membership u m eu opened eg em active (
          sym (
            contains-append (member_permissions a.roles m)
              (team_permissions a.roles a.team_members uid a.teams) p)
          ∙ sym (
              contains-sorted_set
                (member_permissions a.roles m
                  ++ team_permissions a.roles a.team_members uid a.teams)
                p)
          ∙ inside)

pub permits-Source : (a : Access) (uid p : String) → permits a uid p ≡ true → Source a uid p
permits-Source a uid p h =
    row-Source a uid p (get_user uid a.users) (get_member uid a.members) refl refl
      (sym (permits-row a uid p) ∙ h)

pub Source-permits : {a : Access} {uid p : String} → Source a uid p → permits a uid p ≡ true
Source-permits {a} {uid} {p} (by_administration u eu opened eg inside) =
    permits-row a uid p
    ∙ ap (λ x. holds p (access_row a uid x (get_member uid a.members))) eu
    ∙ rw (opened, eg, inside)
Source-permits {a} {uid} {p} (by_membership u m eu opened eg em active inside) =
    permits-row a uid p
    ∙ ap (λ x. holds p (access_row a uid x (get_member uid a.members))) eu
    ∙ ap (λ x. holds p (access_row a uid (some u) x)) em
    ∙ rw (opened, eg)
        (active_holds p m.active _ active (
          contains-sorted_set
            (member_permissions a.roles m ++ team_permissions a.roles a.team_members uid a.teams) p
          ∙ contains-append (member_permissions a.roles m)
              (team_permissions a.roles a.team_members uid a.teams) p
          ∙ inside))
