-- ===== src/Access/Invited/Once.antt =====
-- An invitation that was accepted is not accepted again, whatever happens after it.
pub mod Spent
use providah_community.Prelude.{◌≡◌, sym, ◌∙◌, subst, true, false, String, none, some, Distinct}
use providah_community.Operation.Tables.{done}
use providah_community.Access.{Access, Change}
use providah_community.Access.Invitations.{Tools, accept_invitation}
use providah_community.Access.Changes.{AccessSteps}
use providah_community.Access.Outcomes.{succeeds, refused}
use providah_community.Access.Invited.{accept-IsInvited, invitation_found}
use providah_community.Access.Invited.Once.Spent.{
  hashes, spent, spent-not_found, accept-spent, steps-spent,
}

-- Once an invitation is accepted, its token is refused after any further requests on access that
-- are answered, at every time and whoever presents it, where the table then has no two invitations
-- with the same token, as its unique index demands.
pub accepted_once :
    (t later : Tools) (a b : Access) (token password code : String) (change : Change)
    → later.hash token ≡ t.hash token
    → accept_invitation t a token password code ≡ done change
    → AccessSteps change.access b
    → Distinct (hashes b.invitations)
    → (password' code' : String)
    → succeeds (accept_invitation later b token password' code') ≡ false
accepted_once t later a b token password code change hash h steps unique password' code' =
    refused (accept_invitation later b token password' code') (λ again e.
      let (i, found) = invitation_found later b token password' code' again e in
      not_both (
        sym (
          spent-not_found later.now (later.hash token) b.invitations unique (
            subst (λ k. spent k b.invitations ≡ true) (sym hash)
              (steps-spent (t.hash token) steps (
                accept-spent t a token change
                  (accept-IsInvited t a token password code change h)))))
        ∙ found))
  where
    not_both : {A : Type 0} {a : A} → none ≡ some a → ⊥
    not_both e = cc
