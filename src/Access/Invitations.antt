-- ===== src/Access/Invitations.antt =====
-- CreateInvitation, RevokeInvitation, BeginInvitation and AcceptInvitation
-- (internal/core/access.go). Rows of sessions are not modelled.
use providah_community.Prelude.{
  ℕ, ◌+◌, ◌==◌, Bool, true, false, not, ◌&&◌, ◌||◌, String, len, Option, none, some, List, [], ◌∷◌,
  if◌then◌else◌, any, map, ltb, eqb, contains,
}
use providah_community.Operation.Tables.{
  Answer, done, ◌>>=◌, ◌>>◌, refuse_if, found, denied, internal, unauthenticated, invalid, conflict,
  Fault, audited, is_set,
}
use providah_community.Operation.Review.{Actor}
use providah_community.Access.{
  User, Member, Invitation, Access, Change, subset, get_role, get_member, permissions, access_lock,
}

-- The signed-in user of a request, as `authenticate` finds one.
pub record Session : Type 0 where
  pub user_id : String
  pub email : String
  pub mfa_disabled : Bool
  pub mfa_at : ℕ

-- The clock, fresh ids and tokens, and the calls of other packages.
pub record Tools : Type 0 where
  pub now : ℕ
  pub new_id : String
  pub new_token : String
  pub hash : String → String
  pub normal_address : String → Option String
  pub within_limit : Answer (Unit {0})
  pub session : Option Session
  pub open_seed : String → Option String
  pub generate_seed : String → Option String
  pub seal : String → Option String
  pub check_totp : String → String → Bool
  pub hash_password : String → Option String

-- A row that is neither revoked nor accepted.
abbrev pub is_open : Invitation → Bool
is_open i = not (is_set i.revoked_at) && not (is_set i.accepted_at)

-- A row that can be accepted at an instant.
unfoldable pub is_usable : ℕ → Invitation → Bool
is_usable now i = is_open i && ltb now i.expires_at

-- The query `InvitationByToken`.
unfoldable pub invitation_by_token : ℕ → String → List Invitation → Option Invitation
unfolding is_usable
invitation_by_token now token_hash [] = none
invitation_by_token now token_hash (i ∷ rest) =
    if i.token_hash == token_hash && is_usable now i
    then some i
    else invitation_by_token now token_hash rest

unfoldable pub revoke_row : ℕ → String → Invitation → Invitation
revoke_row now id i =
    if i.id == id && is_open i then record i { revoked_at = some now; totp_ciphertext = "" } else i

unfoldable pub accept_row : ℕ → String → Invitation → Invitation
unfolding is_usable
accept_row now id i =
    if i.id == id && is_usable now i
    then record i { accepted_at = some now; totp_ciphertext = "" }
    else i

abbrev pub enroll_row : String → String → Invitation → Invitation
enroll_row id seed i = if i.id == id then record i { totp_ciphertext = seed } else i

abbrev pub bad_invitation : Fault
bad_invitation =
    conflict
      "Invitation is invalid, expired, revoked, or its access has changed. Request a new invitation."

abbrev user_exists : String → List User → Bool
user_exists email users = any (λ u. u.email == email) users

module _ (t : Tools) where
  -- The address in lower case and without spaces is a plain address of at most 254 bytes.
  unfoldable pub create_invitation : Actor → Access → String → String → Answer Change
  unfolding access_lock get_role subset
  create_invitation actor a address role_id = do
    email ← found (t.normal_address address) (invalid "Enter a valid email address.")
    refuse_if (ltb 254 (len email)) (invalid "Enter a valid email address.")
    own ← access_lock a actor.user_id "members.manage"
    role ← found (get_role role_id a.roles) denied
    refuse_if (not (subset role.permissions own)) denied
    let row : Invitation = record {
      id = t.new_id;
      email = email;
      role_id = role.id;
      role_revision = role.revision;
      inviter_id = actor.user_id;
      token_hash = t.hash t.new_token;
      expires_at = t.now + 172800;
      revoked_at = none;
      accepted_at = none;
      totp_ciphertext = "";
    }
    done (record {
      access = record a { invitations = row ∷ a.invitations };
      effects = audited a.org_id actor.email "invitation.created" t.new_id ∷ [];
    })

  unfoldable pub revoke_invitation : Actor → Access → String → Answer Change
  unfolding access_lock revoke_row
  revoke_invitation actor a id = do
    own ← access_lock a actor.user_id "members.manage"
    refuse_if (not (any (λ i. i.id == id && is_open i) a.invitations)) denied
    done (record {
      access = record a { invitations = map (revoke_row t.now id) a.invitations };
      effects = audited a.org_id actor.email "invitation.revoked" id ∷ [];
    })

  -- `invitation`: the row of a token, if what it offers is still the inviter's to give.
  unfoldable pub invitation : Access → String → Answer Invitation
  unfolding invitation_by_token get_role permissions subset
  invitation a token = do
    refuse_if (not (eqb (len token) 64)) bad_invitation
    refuse_if (not a.active) bad_invitation
    i ← found (invitation_by_token t.now (t.hash token) a.invitations) bad_invitation
    role ← found (get_role i.role_id a.roles) bad_invitation
    refuse_if (not (eqb role.revision i.role_revision)) bad_invitation
    own ← found (permissions a i.inviter_id) bad_invitation
    refuse_if (not (contains own "members.manage") || not (subset role.permissions own))
        bad_invitation
    done i

  -- A pending seed is used again.
  unfoldable pub enroll : Access → Invitation → Answer (String × Access)
  enroll a i =
      if not (i.totp_ciphertext == "")
      then (do seed ← found (t.open_seed i.totp_ciphertext) internal; done (seed, a))
      else do
        seed ← found (t.generate_seed i.email) internal
        sealed ← found (t.seal seed) internal
        done (seed, record a { invitations = map (enroll_row i.id sealed) a.invitations })

  -- The answer is the seed, or "" for a user who is to sign in.
  unfoldable pub begin_invitation : Access → String → Answer (String × Access)
  unfolding invitation enroll
  begin_invitation a token = do
    t.within_limit
    i ← invitation a token
    if user_exists i.email a.users then done ("", a) else enroll a i

  -- The user who accepts: the one who is signed in, or a new one with a password and a seed.
  unfoldable pub accepting_user :
      Access → Invitation → String → String → Answer (String × List User)
  accepting_user a i password code =
      if user_exists i.email a.users
      then (do
        p ← found t.session unauthenticated
        refuse_if (not (p.email == i.email)) unauthenticated
        refuse_if (not p.mfa_disabled && ltb (p.mfa_at + 300) t.now)
            (conflict "Verify MFA before accepting this invitation.")
        done (p.user_id, a.users))
      else do
        refuse_if (ltb (len password) 12 || ltb 72 (len password))
            (invalid "Use a password between 12 and 72 bytes.")
        seed ←
            found (t.open_seed i.totp_ciphertext)
              (invalid "Begin enrollment and enter a current authenticator code.")
        refuse_if (not (t.check_totp code seed))
            (invalid "Begin enrollment and enter a current authenticator code.")
        hashed ← found (t.hash_password password) internal
        let user : User = record {
          id = t.new_id;
          email = i.email;
          active = true;
          global_admin = false;
        }
        done (t.new_id, user ∷ a.users)

  -- The row of `JoinMembership`.
  abbrev pub joined : Invitation → String → Member
  joined i uid = record {
    user_id = uid;
    permissions = [];
    role_id = some i.role_id;
    active = true;
    revision = 1;
  }

  unfoldable pub accept_invitation : Access → String → String → String → Answer Change
  unfolding invitation accepting_user get_member accept_row
  accept_invitation a token password code = do
    t.within_limit
    i ← invitation a token
    user ← accepting_user a i password code
    refuse_if (is_set (get_member user.0 a.members))
        (conflict "Membership already exists. Ask an administrator to update it.")
    refuse_if (not (any (λ j. j.id == i.id && is_usable t.now j) a.invitations))
        (conflict "Invitation is no longer available.")
    done (record {
      access = record a {
        users = user.1;
        members = joined i user.0 ∷ a.members;
        invitations = map (accept_row t.now i.id) a.invitations;
      };
      effects = audited a.org_id i.email "invitation.accepted" i.id ∷ [];
    })
