-- ===== src/Provider/Trust/Approved.antt =====
-- What a runtime trust allows, and the provenance that it reports.
use providah_community.Prelude.{
  ℕ, ◌≤◌, ◌≡◌, ==_iff, arith, true, String, List, [], ◌∷◌, some, In, here, there, contains-In,
  Bool-cases, inl, inr, refl, ◌<◌,
}
use providah_community.Provider.Trust.{
  TrustedRelease, RuntimeTrust, approves, any_approves, allows, first_approval, approval,
}

any_approves-antitone :
    (releases : List TrustedRelease) (image cloud : String) (early late : ℕ)
    → early ≤ late
    → any_approves releases image cloud late ≡ true
    → any_approves releases image cloud early ≡ true
unfolding any_approves
any_approves-antitone [] image cloud early late order h = h
any_approves-antitone (r ∷ releases) image cloud early late order h =
    ground (arith, any_approves-antitone releases image cloud early late)

first_approval-release :
    (format : ℕ → String) (releases : List TrustedRelease) (image cloud : String) (now : ℕ)
    → any_approves releases image cloud now ≡ true
    → (r : TrustedRelease) × In r releases
      × (approves r image cloud now ≡ true)
      × (first_approval format releases image cloud now ≡ (r.key_id, format r.release.expires_at))
unfolding any_approves first_approval
first_approval-release format [] image cloud now h = cc
first_approval-release format (r ∷ releases) image cloud now h =
    elim (Bool-cases (approves r image cloud now)) [
      | inl e ↦ (r, here refl, e, ground arith)
      | inr e ↦
          let (s, m, a, p) =
            first_approval-release format releases image cloud now (ground arith) in
          (s, there m, a, ground (arith, p))
    ]

-- What a trust allows at an instant it allowed at every earlier one, and the provenance that it
-- reports is the publisher and the expiry of one of its releases that names the image and the
-- cloud and has not expired.
pub allows-approval :
    (format : ℕ → String) (t : RuntimeTrust) (image cloud : String) (early now : ℕ)
    → early ≤ now
    → allows (some t) image cloud now ≡ true
    → (allows (some t) image cloud early ≡ true)
      × ((r : TrustedRelease) × In r t.releases
          × (r.release.image ≡ image)
          × (now < r.release.expires_at)
          × In cloud r.release.providers
          × (approval format (some t) image cloud now ≡ (r.key_id, format r.release.expires_at)))
unfolding allows approval
allows-approval format t image cloud early now order h =
    let (r, listed, approved, reported) =
      first_approval-release format t.releases image cloud now h in
    (
      any_approves-antitone t.releases image cloud early now order h,
      (
        r,
        listed,
        unfold approves in ground (arith, ==_iff r.release.image image),
        unfold approves in ground arith,
        contains-In r.release.providers cloud (unfold approves in ground arith),
        reported,
      ),
    )
