-- ===== src/Access/Invited.antt =====
-- What must hold when an invitation is accepted.
pub mod Once
use providah_community.Prelude.{
  ℕ, ◌≤◌, ◌<◌, ◌≡◌, ◌≢◌, refl, sym, ◌∙◌, ap, subst, ◌==◌, ==_iff, ==_refl, Bool, true, false, not,
  ◌&&◌, ◌||◌, String, len, Option, none, some, List, [], ◌∷◌, map, any, All, In, Distinct, arith,
  contains, eqb, ltb, lt→ltb, ltb→lt, if◌then◌else◌, inl, inr, Bool-cases,
}
use providah_community.Operation.Tables.{
  Answer, done, fault, found, Fault, refuse_if, ◌>>=◌, ◌>>◌, >>=-eq-done, >>-eq-done, done_same,
  is_set,
}
use providah_community.Operation.Request.Reviewed.{found-some}
use providah_community.Access.{
  Access, Change, Role, Member, Invitation, get_role, get_member, permissions, subset,
}
use providah_community.Access.Invitations.{
  Tools, is_usable, invitation_by_token, accept_row, invitation, accepting_user, joined,
  accept_invitation, bad_invitation,
}

-- The invitation of the token is stored, neither revoked nor accepted nor expired, its role is the one that was offered, the inviter may still give it, and
-- the user becomes a member with that role.
pub record IsInvited (t : Tools) (a : Access) (token : String) (change : Change) : Type 0 where
  pub i : Invitation
  pub role : Role
  pub own : List String
  pub uid : String
  pub stored : In i a.invitations
  pub has_token : (i.token_hash == t.hash token) ≡ true
  pub not_revoked : is_set i.revoked_at ≡ false
  pub not_accepted : is_set i.accepted_at ≡ false
  pub in_time : t.now < i.expires_at
  pub offered : get_role i.role_id a.roles ≡ some role
  pub unchanged : eqb role.revision i.role_revision ≡ true
  pub inviter : permissions a i.inviter_id ≡ some own
  pub manages : contains own "members.manage" ≡ true
  pub within : subset role.permissions own ≡ true
  pub new : is_set (get_member uid a.members) ≡ false
  pub members : change.access.members ≡ (joined t i uid ∷ a.members)
  pub invitations : change.access.invitations ≡ map (accept_row t.now i.id) a.invitations

-- A row that a token finds.
record IsFound (now : ℕ) (token_hash : String) (rows : List Invitation) (i : Invitation)
    : Type 0 where
  stored : In i rows
  has_token : (i.token_hash == token_hash) ≡ true
  not_revoked : is_set i.revoked_at ≡ false
  not_accepted : is_set i.accepted_at ≡ false
  in_time : now < i.expires_at

by_token-IsFound :
    (now : ℕ) (token_hash : String) (rows : List Invitation) (i : Invitation)
    → invitation_by_token now token_hash rows ≡ some i
    → IsFound now token_hash rows i
unfolding invitation_by_token is_usable ◌==◌
by_token-IsFound now token_hash [] i h = cc
by_token-IsFound now token_hash (x ∷ rows) i h =
    elim (Bool-cases (x.token_hash == token_hash && is_usable now x)) [
      | inl here ↦
          let usable =
            and_usable (x.token_hash == token_hash) (is_set x.revoked_at) (is_set x.accepted_at)
              (ltb now x.expires_at) here in
          subst (IsFound now token_hash (x ∷ rows)) (chosen _ x i _ here h) (record {
            stored = In.here refl;
            has_token = usable.0;
            not_revoked = usable.1;
            not_accepted = usable.2;
            in_time = ltb→lt now x.expires_at usable.3;
          })
      | inr past ↦
          let later = by_token-IsFound now token_hash rows i (passed _ x i _ past h) in
          record {
            stored = In.there later.stored;
            has_token = later.has_token;
            not_revoked = later.not_revoked;
            not_accepted = later.not_accepted;
            in_time = later.in_time;
          }
    ]
  where
    and_usable :
        (a b c d : Bool)
        → (a && ((not b && not c) && d)) ≡ true
        → (a ≡ true) × (b ≡ false) × (c ≡ false) × (d ≡ true)
    and_usable a b c d h = (ground arith, ground arith, ground arith, ground arith)

    chosen :
        (b : Bool) (x i : Invitation) (rest : Option Invitation)
        → b ≡ true
        → (if b then some x else rest) ≡ some i
        → x ≡ i
    chosen true x i rest e h = cc
    chosen false x i rest e h = cc

    passed :
        (b : Bool) (x i : Invitation) (rest : Option Invitation)
        → b ≡ false
        → (if b then some x else rest) ≡ some i
        → rest ≡ some i
    passed true x i rest e h = cc
    passed false x i rest e h = h

record IsGood (t : Tools) (a : Access) (token : String) (i : Invitation) : Type 0 where
  role : Role
  own : List String
  known : invitation_by_token t.now (t.hash token) a.invitations ≡ some i
  offered : get_role i.role_id a.roles ≡ some role
  unchanged : eqb role.revision i.role_revision ≡ true
  inviter : permissions a i.inviter_id ≡ some own
  manages : contains own "members.manage" ≡ true
  within : subset role.permissions own ≡ true

invitation-IsGood :
    (t : Tools) (a : Access) (token : String) (i : Invitation)
    → invitation t a token ≡ done i
    → IsGood t a token i
unfolding invitation
invitation-IsGood t a token i h =
    let (_, h1) = >>-eq-done (not (eqb (len token) 64)) _ _ h in
    let (_, h2) = >>-eq-done (not a.active) _ _ h1 in
    let (j, known, h3) =
      >>=-eq-done (found (invitation_by_token t.now (t.hash token) a.invitations) bad_invitation) _
        h2 in
    let (role, offered, h4) =
      >>=-eq-done (found (get_role j.role_id a.roles) bad_invitation) _ h3 in
    let (unchanged, h5) = >>-eq-done (not (eqb role.revision j.role_revision)) _ _ h4 in
    let (own, inviter, h6) = >>=-eq-done (found (permissions a j.inviter_id) bad_invitation) _ h5 in
    let (may, h7) =
      >>-eq-done (not (contains own "members.manage") || not (subset role.permissions own)) _ _
        h6 in
    subst (IsGood t a token) (done_same _ _ h7) (record {
      role = role;
      own = own;
      known = found-some _ _ known;
      offered = found-some _ _ offered;
      unchanged = ground arith;
      inviter = found-some _ _ inviter;
      manages = ground arith;
      within = ground arith;
    })

-- An accepted token finds a row.
pub invitation_found :
    (t : Tools) (a : Access) (token password code : String) (change : Change)
    → accept_invitation t a token password code ≡ done change
    → (i : Invitation) × (invitation_by_token t.now (t.hash token) a.invitations ≡ some i)
unfolding accept_invitation
invitation_found t a token password code change h =
    let (_, _, h1) = >>=-eq-done t.within_limit _ h in
    let (i, good, h2) = >>=-eq-done (invitation t a token) _ h1 in
    (i, (invitation-IsGood t a token i good).known)

-- An invitation is accepted only by its token, while it is stored as neither revoked nor accepted
-- nor expired, its role is unchanged and the inviter may give the role, by a user who is not a
-- member yet; the user becomes a member with that role, and the row is marked as accepted.
pub accept-IsInvited :
    (t : Tools) (a : Access) (token password code : String) (change : Change)
    → accept_invitation t a token password code ≡ done change
    → IsInvited t a token change
unfolding accept_invitation
accept-IsInvited t a token password code change h =
    let (_, _, h1) = >>=-eq-done t.within_limit _ h in
    let (i, good, h2) = >>=-eq-done (invitation t a token) _ h1 in
    let (user, _, h3) = >>=-eq-done (accepting_user t a i password code) _ h2 in
    let (new, h4) = >>-eq-done (is_set (get_member user.0 a.members)) _ _ h3 in
    let (_, h5) =
      >>-eq-done (not (any (λ j. j.id == i.id && is_usable t.now j) a.invitations)) _ _ h4 in
    let saved = done_same _ _ h5 in
    let g = invitation-IsGood t a token i good in
    let row = by_token-IsFound t.now (t.hash token) a.invitations i g.known in
    record {
      i = i;
      role = g.role;
      own = g.own;
      uid = user.0;
      stored = row.stored;
      has_token = row.has_token;
      not_revoked = row.not_revoked;
      not_accepted = row.not_accepted;
      in_time = row.in_time;
      offered = g.offered;
      unchanged = g.unchanged;
      inviter = g.inviter;
      manages = g.manages;
      within = g.within;
      new = new;
      members = ap (λ c. c.access.members) (sym saved);
      invitations = ap (λ c. c.access.invitations) (sym saved);
    }
