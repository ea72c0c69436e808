-- ===== src/Maintenance/Restricted.antt =====
-- What it means that the policies restrict nothing.
use providah_community.Prelude.{
  ℕ, ◌≡◌, ◌≤◌, ◌<◌, refl, sym, ◌∙◌, ap, subst, Bool, true, false, not, ◌||◌, String, List, [], ◌∷◌,
  All, if◌then◌else◌, ltb, eqb, ltb→lt, arith, inl, inr, ◌⊎◌, Bool-cases,
}
use Prim.Native.String.{◌++◌, len}
use text.Mathlib.TextPositions.{len-append}
use providah_community.Operation.Tables.{Answer, done, >>=-eq-done, done_same}
use providah_community.Schedule.{Calendar}
use providah_community.Maintenance.{
  Policy, applies, policy_window, restriction_from, maintenance_restriction, closed_text,
}

-- The first end, or the earlier of two.
earlier :
    (at end until : ℕ)
    → at < end
    → (until ≡ 0) ⊎ (at < until)
    → let next = if eqb until 0 || ltb end until then end else until in
      (at < next) × (next ≤ end) × ((until ≡ 0) ⊎ (next ≤ until))
earlier at end until later (inl none) = (ground arith, ground arith, inl none)
earlier at end until later (inr some) = (ground arith, ground arith, inr (ground arith))

abbrev closing : String
closing = ". Request fresh review; this action will not wait for a later window."

-- A window that is not open ends the loop with a restriction.
opened :
    (open_now : Bool) (name : String) (rest : Answer (String × ℕ)) (after : ℕ)
    → (if not open_now then done (closed_text name, 0) else rest) ≡ done ("", after)
    → (open_now ≡ true) × (rest ≡ done ("", after))
opened true name rest after h = (refl, h)
opened false name rest after h = absurd (closed name (ap (λ r. r.0) (done_same _ _ h)))
  where
    closed : (name : String) → closed_text name ≡ "" → ⊥
    closed name e =
        let size = sym (len-append "Maintenance window closed: " (name ++ closing)) ∙ ap len e in
        omega arith

module _ (k : Calendar) (connection : String) (at : ℕ) where
  -- A policy that applies has a window that is open at the instant, and until some end at least.
  abbrev pub IsOpen : ℕ → Policy → Type 0
  IsOpen until p =
      applies p connection ≡ true
      → (end : ℕ) × (policy_window k connection at p ≡ done end) × (at < until) × (until ≤ end)

  -- An end that is none, or lies after the instant.
  abbrev pub IsEnd : ℕ → Type 0
  IsEnd until = (until ≡ 0) ⊎ (at < until)

  -- The end that follows on an end, if that is one.
  abbrev Follows : ℕ → ℕ → Type 0
  Follows until after = (until ≡ 0) ⊎ ((at < after) × (after ≤ until))

  restriction_from-AllOpen :
      (policies : List Policy) (until after : ℕ)
      → IsEnd until
      → restriction_from k connection at policies until ≡ done ("", after)
      → All (IsOpen after) policies × IsEnd after × Follows until after
  unfolding restriction_from
  restriction_from-AllOpen [] until after e h =
      let same : until ≡ after = ap (λ r. r.1) (done_same _ _ h) in
      (tt, subst IsEnd same e, subst (Follows until) same (kept until e))
    where
      kept : (until : ℕ) → IsEnd until → Follows until until
      kept until (inl none) = inl none
      kept until (inr later) = inr (later, omega arith)
  restriction_from-AllOpen (p ∷ policies) until after e h =
      elim (Bool-cases (applies p connection)) [
        | inr other ↦
            let (others, ends, follows) =
              restriction_from-AllOpen policies until after e (rw other at h) in
            (((λ applied. absurd (ground arith)), others), ends, follows)
        | inl applied ↦
            let (end, window, h1) =
              >>=-eq-done (policy_window k connection at p) _ (rw applied at h) in
            let (opens, h2) = opened (ltb at end) p.name _ after h1 in
            let (later, within, earlier_than) = earlier at end until (ltb→lt at end opens) e in
            let next = if eqb until 0 || ltb end until then end else until in
            let (others, ends, follows) =
              restriction_from-AllOpen policies next after (inr later) h2 in
            let (after_at, after_next) = positive next after later follows in
            (
              ((λ _. (end, window, after_at, omega arith)), others),
              ends,
              chain until next after after_at after_next earlier_than,
            )
      ]
    where
      positive : (next after : ℕ) → at < next → Follows next after → (at < after) × (after ≤ next)
      positive next after later (inl none) = absurd (omega arith)
      positive next after later (inr both) = both

      chain :
          (until next after : ℕ)
          → at < after
          → after ≤ next
          → (until ≡ 0) ⊎ (next ≤ until)
          → Follows until after
      chain until next after h h1 (inl none) = inl none
      chain until next after h h1 (inr le) = inr (h, omega arith)

  -- Where the policies restrict nothing, each that applies has a window that is open at the instant,
  -- the answered end is no later than the end of any of these windows, and it lies after the instant
  -- or no policy gave one.
  pub restriction-IsOpen :
      (policies : List Policy) (until : ℕ)
      → maintenance_restriction k connection at policies ≡ done ("", until)
      → All (IsOpen until) policies × IsEnd until
  unfolding maintenance_restriction
  restriction-IsOpen policies until h =
      let (each, end, _) = restriction_from-AllOpen policies 0 until (inl refl) h in (each, end)
