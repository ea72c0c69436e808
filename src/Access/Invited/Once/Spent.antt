-- ===== src/Access/Invited/Once/Spent.antt =====
-- Invitations whose token was used: no handler on access makes them usable again.
use providah_community.Prelude.{
  ℕ, ◌≡◌, ◌≢◌, refl, sym, subst, ◌==◌, ==_iff, ==_refl, Bool, true, false, ◌&&◌, ◌||◌, String, none,
  some, List, [], ◌∷◌, any, map, All, In, Distinct, arith, if◌then◌else◌, inl, inr, Bool-cases,
  lt→ltb,
}
use providah_community.Operation.Tables.{is_set}
use providah_community.Operation.Review.{Actor}
use providah_community.Access.{Access, Change, Invitation}
use providah_community.Access.Roles.{RoleInput, save_role}
use providah_community.Access.Members.{MemberInput, update_member}
use providah_community.Access.Teams.{TeamInput, save_team, delete_team}
use providah_community.Access.Invitations.{
  Tools, is_open, is_usable, invitation_by_token, accept_row, revoke_row, enroll_row,
  create_invitation, revoke_invitation, enroll, begin_invitation, accept_invitation,
}
use providah_community.Access.Changes.{
  AccessStep, AccessSteps, role_saved, member_updated, team_saved, team_deleted, invited, revoked,
  enrolled, joined, stay, then_on,
}
use providah_community.Access.Outcomes.{OnDone, OnDone->>=, OnDone->>, OnDone-done, either}
use providah_community.Access.Invited.{IsInvited}

abbrev pub hashes : List Invitation → List String
hashes rows = map (λ i. i.token_hash) rows

abbrev is_spent : String → Invitation → Bool
is_spent h i = i.token_hash == h && is_set i.accepted_at

-- Whether an invitation with the token was accepted.
unfoldable pub spent : String → List Invitation → Bool
spent h rows = any (is_spent h) rows

-- A token that no row has is not found.
absent :
    (now : ℕ) (h : String) (rows : List Invitation)
    → All (λ k. h ≢ k) (hashes rows)
    → invitation_by_token now h rows ≡ none
unfolding invitation_by_token
absent now h [] new = refl
absent now h (x ∷ rows) (differs, new) =
    ground (arith, ==_iff x.token_hash h, absent now h rows new)

absent_unspent :
    (h : String) (rows : List Invitation)
    → All (λ k. h ≢ k) (hashes rows)
    → any (is_spent h) rows ≡ true
    → ⊥
absent_unspent h [] new e = cc
absent_unspent h (x ∷ rows) (differs, new) e =
    ground (arith, ==_iff x.token_hash h, absent_unspent h rows new)

-- A token that was used finds nothing, where no two rows have the same token.
pub spent-not_found :
    (now : ℕ) (h : String) (rows : List Invitation)
    → Distinct (hashes rows)
    → spent h rows ≡ true
    → invitation_by_token now h rows ≡ none
unfolding spent invitation_by_token is_usable
spent-not_found now h [] unique e = refl
spent-not_found now h (x ∷ rows) (differs, unique) e = elim (Bool-cases (x.token_hash == h)) [
  | inl same ↦
      let others =
        subst (λ k. All (λ j. k ≢ j) (hashes rows)) ((==_iff x.token_hash h).0 same) differs in
      let none_here = absent now h rows others in
      let unspent = absent_unspent h rows others in ground (arith, none_here, unspent)
  | inr other ↦ let rest = spent-not_found now h rows unique (ground arith) in ground (arith, rest)
]

-- What keeps a row's token and its acceptance keeps tokens used.
map-spent :
    (h : String) (f : Invitation → Invitation)
    → ((i : Invitation)
        → ((f i).token_hash ≡ i.token_hash)
          × (is_set i.accepted_at ≡ true → is_set (f i).accepted_at ≡ true))
    → (rows : List Invitation) → spent h rows ≡ true
    → spent h (map f rows) ≡ true
unfolding spent
map-spent h f keeps [] e = e
map-spent h f keeps (x ∷ rows) e =
    let rest = map-spent h f keeps rows in
    let (token, accepted) = keeps x in
    one (is_spent h x) (is_spent h (f x)) _ _ (λ spent. ground (arith, token, accepted)) rest e
  where
    one :
        (a b : Bool) (c d : Bool)
        → (a ≡ true → b ≡ true)
        → (c ≡ true → d ≡ true)
        → (a || c) ≡ true
        → (b || d) ≡ true
    one a b c d p q e = ground arith

accept_row-keeps :
    (now : ℕ) (id : String) (i : Invitation)
    → ((accept_row now id i).token_hash ≡ i.token_hash)
      × (is_set i.accepted_at ≡ true → is_set (accept_row now id i).accepted_at ≡ true)
unfolding accept_row
accept_row-keeps now id i = go (i.id == id && is_usable now i)
  where
    go :
        (b : Bool)
        → ((if b then record i { accepted_at = some now; totp_ciphertext = "" } else i).token_hash
            ≡ i.token_hash)
          × (is_set i.accepted_at ≡ true
              → is_set
                  (if b
                    then record i { accepted_at = some now; totp_ciphertext = "" }
                    else i).accepted_at
                ≡ true)
    go true = (refl, λ h. refl)
    go false = (refl, λ h. h)

revoke_row-keeps :
    (now : ℕ) (id : String) (i : Invitation)
    → ((revoke_row now id i).token_hash ≡ i.token_hash)
      × (is_set i.accepted_at ≡ true → is_set (revoke_row now id i).accepted_at ≡ true)
unfolding revoke_row
revoke_row-keeps now id i = elim (Bool-cases (i.id == id && is_open i)) [
  | inl written ↦ rw written (refl, λ h. h)
  | inr other ↦ rw other (refl, λ h. h)
]

enroll_row-keeps :
    (id seed : String) (i : Invitation)
    → ((enroll_row id seed i).token_hash ≡ i.token_hash)
      × (is_set i.accepted_at ≡ true → is_set (enroll_row id seed i).accepted_at ≡ true)
enroll_row-keeps id seed i = elim (Bool-cases (i.id == id)) [
  | inl written ↦ rw written (refl, λ h. h)
  | inr other ↦ rw other (refl, λ h. h)
]

-- The row that is accepted has used its token.
marks :
    (now : ℕ) (h : String) (i : Invitation) (rows : List Invitation)
    → In i rows
    → (i.token_hash == h) ≡ true
    → is_usable now i ≡ true
    → spent h (map (accept_row now i.id) rows) ≡ true
unfolding spent accept_row
marks now h i [] m token usable = elim m [ ]
marks now h i (x ∷ rows) (In.here e) token usable =
    let this : is_spent h (accept_row now i.id i) ≡ true = rw (==_refl i.id, usable, token) in
    let here = subst (λ j. is_spent h (accept_row now i.id j) ≡ true) (sym e) this in ground arith
marks now h i (x ∷ rows) (In.there m) token usable =
    let rest = marks now h i rows m token usable in ground arith

pub accept-spent :
    (t : Tools) (a : Access) (token : String) (change : Change)
    → IsInvited t a token change
    → spent (t.hash token) change.access.invitations ≡ true
unfolding is_usable
accept-spent t a token change r =
    subst (λ rows. spent (t.hash token) rows ≡ true) (sym r.invitations)
      (marks t.now (t.hash token) r.i a.invitations r.stored r.has_token
        (rw (r.not_revoked, r.not_accepted, lt→ltb t.now r.i.expires_at r.in_time)))

-- A handler keeps used tokens used.
abbrev Keeps : String → Access → Access → Type 0
Keeps h a b = spent h a.invitations ≡ true → spent h b.invitations ≡ true

abbrev Saves : String → Access → Change → Type 0
Saves h a change = Keeps h a change.access

-- The invitations are the same.
abbrev Same : Access → Change → Type 0
Same a change = change.access.invitations ≡ a.invitations

save_role-Same :
    (actor : Actor) (new_id : String) (a : Access) (input : RoleInput)
    → OnDone (Same a) (save_role actor new_id a input)
unfolding save_role
save_role-Same actor new_id a input = search (OnDone->>=, OnDone->>) depth 12

update_member-Same :
    (recovery_missing : Access → Bool) (actor : Actor) (a : Access) (input : MemberInput)
    → OnDone (Same a) (update_member recovery_missing actor a input)
unfolding update_member
update_member-Same missing actor a input = search (OnDone->>=, OnDone->>) depth 14

save_team-Same :
    (actor : Actor) (new_id : String) (a : Access) (input : TeamInput)
    → OnDone (Same a) (save_team actor new_id a input)
unfolding save_team
save_team-Same actor new_id a input = search (OnDone->>=, OnDone->>) depth 12

delete_team-Same :
    (actor : Actor) (new_id : String) (a : Access) (id : String) (revision : ℕ)
    → OnDone (Same a) (delete_team actor new_id a id revision)
unfolding delete_team
delete_team-Same actor new_id a id revision = search (OnDone->>=, OnDone->>) depth 12

added :
    (h : String) (row : Invitation) (rows : List Invitation)
    → spent h rows ≡ true
    → spent h (row ∷ rows) ≡ true
unfolding spent
added h row rows e = ground arith

create_invitation-Saves :
    (h : String) (t : Tools) (actor : Actor) (a : Access) (address role_id : String)
    → OnDone (Saves h a) (create_invitation t actor a address role_id)
unfolding create_invitation
create_invitation-Saves h t actor a address role_id = search (OnDone->>=, OnDone->>, added) depth 12

revoke_invitation-Saves :
    (h : String) (t : Tools) (actor : Actor) (a : Access) (id : String)
    → OnDone (Saves h a) (revoke_invitation t actor a id)
unfolding revoke_invitation
revoke_invitation-Saves h t actor a id =
    search (OnDone->>=, OnDone->>, map-spent, revoke_row-keeps) depth 12

accept_invitation-Saves :
    (h : String) (t : Tools) (a : Access) (token password code : String)
    → OnDone (Saves h a) (accept_invitation t a token password code)
unfolding accept_invitation
accept_invitation-Saves h t a token password code =
    search (OnDone->>=, OnDone->>, map-spent, accept_row-keeps) depth 12

abbrev Begins : String → Access → String × Access → Type 0
Begins h a answer = Keeps h a answer.1

begin_invitation-Begins :
    (h : String) (t : Tools) (a : Access) (token : String)
    → OnDone (Begins h a) (begin_invitation t a token)
unfolding begin_invitation enroll
begin_invitation-Begins h t a token =
    search (OnDone->>=, OnDone->>, either, map-spent, enroll_row-keeps) depth 14

same_rows : (h : String) (a b : Access) → b.invitations ≡ a.invitations → Keeps h a b
same_rows h a b e before = subst (λ rows. spent h rows ≡ true) (sym e) before

step-spent : (h : String) {a b : Access} → AccessStep a b → Keeps h a b
step-spent h (role_saved actor new_id a input change e) =
    same_rows h a change.access
      (OnDone-done (Same a) _ change (save_role-Same actor new_id a input) e)
step-spent h (member_updated missing actor a input change e) =
    same_rows h a change.access
      (OnDone-done (Same a) _ change (update_member-Same missing actor a input) e)
step-spent h (team_saved actor new_id a input change e) =
    same_rows h a change.access
      (OnDone-done (Same a) _ change (save_team-Same actor new_id a input) e)
step-spent h (team_deleted actor new_id a id revision change e) =
    same_rows h a change.access
      (OnDone-done (Same a) _ change (delete_team-Same actor new_id a id revision) e)
step-spent h (invited t actor a address role_id change e) =
    OnDone-done (Saves h a) _ change (create_invitation-Saves h t actor a address role_id) e
step-spent h (revoked t actor a id change e) =
    OnDone-done (Saves h a) _ change (revoke_invitation-Saves h t actor a id) e
step-spent h (enrolled t a token seed after e) =
    OnDone-done (Begins h a) _ (seed, after) (begin_invitation-Begins h t a token) e
step-spent h (joined t a token password code change e) =
    OnDone-done (Saves h a) _ change (accept_invitation-Saves h t a token password code) e

-- A token that was used stays used, whatever requests are answered.
pub steps-spent : (h : String) {a b : Access} → AccessSteps a b → Keeps h a b
steps-spent h (stay a) e = e
steps-spent h (then_on step rest) e = steps-spent h rest (step-spent h step e)
