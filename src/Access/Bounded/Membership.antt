-- ===== src/Access/Bounded/Membership.antt =====
-- UpdateMember gives no permission that the one who acts does not have.
use providah_community.Prelude.{
  ◌≡◌, ◌∙◌, ap, subst, ◌==◌, Bool, true, false, not, ◌&&◌, ◌||◌, String, none, some, List, map,
  arith, contains, any, eqb, ltb, inl, inr, Bool-cases,
}
use providah_community.Operation.Tables.{done, denied, found, >>=-eq-done, >>-eq-done, done_same}
use providah_community.Operation.Review.{Actor}
use providah_community.Operation.Request.Reviewed.{found-some}
use providah_community.Access.{
  Access, Change, Role, Member, get_role, member_permissions, permissions_of, permissions, subset,
  access_lock,
}
use providah_community.Access.Members.{
  MemberInput, set_row, within_own, update_member, has_administrator,
}
use providah_community.Access.Sets.{contains-subset}
use providah_community.Access.Granted.{
  by_administration, by_membership, permits-Source, Source-permits, team_gives,
}
use providah_community.Access.Bounded.{
  access_lock-own, own-permits, get_member-set_row, inactive_none, IsBounded,
}

-- The permissions of a membership of a known role are those of the role.
pub member-role :
    (roles : List Role) (m : Member) (id : String) (role : Role)
    → m.role_id ≡ some id
    → get_role id roles ≡ some role
    → member_permissions roles m ≡ role.permissions
unfolding member_permissions
member-role roles m id role e found =
    ap
      (λ x. elim x [
        | none ↦ m.permissions
        | some i ↦ permissions_of (get_role i roles) m.permissions
      ])
      e
    ∙ ap (λ x. permissions_of x m.permissions) found

team_only : (b t : Bool) → b ≡ false → (b || t) ≡ true → t ≡ true
team_only b t e h = ground arith

or_right : (b t : Bool) → t ≡ true → (b || t) ≡ true
or_right b t h = ground arith

set-IsBounded :
    (a : Access) (grantor : String) (own : List String) (input : MemberInput) (role : Role)
    → permissions a grantor ≡ some own
    → get_role input.role_id a.roles ≡ some role
    → subset role.permissions own ≡ true
    → IsBounded a (record a { members = map (set_row input) a.members }) grantor
set-IsBounded a grantor own input role owned found within uid p h =
    elim (permits-Source (record a { members = map (set_row input) a.members }) uid p h) [
      | by_administration u eu opened eg inside ↦
          inl (Source-permits (by_administration u eu opened eg inside))
      | by_membership u m eu opened eg em active inside ↦
          elim (get_member-set_row uid input a.members m em) [
            | inl same ↦ inl (Source-permits (by_membership u m eu opened eg same active inside))
            | inr (old, before, given) ↦ elim (Bool-cases (contains role.permissions p)) [
              | inl new ↦ inr (
                  inl (
                    own-permits a grantor p own owned
                      (contains-subset role.permissions own p within new)))
              | inr not_new ↦
                  let by_team =
                    team_only (contains (member_permissions a.roles m) p) (team_gives a uid p)
                      (ap (λ ps. contains ps p)
                          (member-role a.roles m input.role_id role given found)
                        ∙ not_new)
                      inside in
                  elim (Bool-cases old.active) [
                    | inl active_before ↦ inl (
                        Source-permits (
                          by_membership u old eu opened eg before active_before
                            (or_right (contains (member_permissions a.roles old) p) _ by_team)))
                    | inr inactive ↦
                        inr (inr (inactive_none a uid u old eu eg before inactive, by_team))
                  ]
            ]
          ]
    ]

-- What UpdateMember leaves gives a user no permission that neither the user nor the one who acts
-- had, but for the permissions of the user's teams, where the user had no active membership.
pub update_member-IsBounded :
    (recovery_missing : Access → Bool) (actor : Actor) (a : Access) (input : MemberInput)
    (change : Change)
    → update_member recovery_missing actor a input ≡ done change
    → IsBounded a change.access actor.user_id
unfolding update_member
update_member-IsBounded missing actor a input change h =
    let (_, h1) = >>-eq-done (ltb input.expected_revision 1) _ _ h in
    let (own, locked, h2) = >>=-eq-done (access_lock a actor.user_id "members.manage") _ h1 in
    let (role, read, h3) = >>=-eq-done (found (get_role input.role_id a.roles) denied) _ h2 in
    let (within, h4) = >>-eq-done (not (subset role.permissions own)) _ _ h3 in
    let (_, h5) = >>-eq-done (not (within_own missing actor a own input.user_id)) _ _ h4 in
    let (_, h6) =
      >>-eq-done
        (not (
          any (λ m. m.user_id == input.user_id && eqb m.revision input.expected_revision)
            a.members))
        _ _ h5 in
    let left = record a { members = map (set_row input) a.members } in
    let (_, h7) = >>-eq-done (not (has_administrator left)) _ _ h6 in
    let (_, h8) = >>-eq-done (missing left) _ _ h7 in
    subst (λ c. IsBounded a c.access actor.user_id) (done_same _ _ h8)
      (set-IsBounded a actor.user_id own input role (access_lock-own a actor.user_id _ own locked)
        (found-some _ _ read) (ground arith))
