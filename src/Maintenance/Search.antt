-- ===== src/Maintenance/Search.antt =====
-- The search for a window: it ends before its limit of iterations, and finds no end that is too late.
use providah_community.Prelude.{
  ℕ, zero, suc, ◌+◌, ◌*◌, ◌%◌, ◌≤◌, ◌<◌, ◌≡◌, ap, sym, ◌∙◌, true, false, arith, inl, inr, ◌⊎◌,
  Bool-cases,
}
use providah_community.Schedule.{Calendar, ScheduleSpec, Zone}
use providah_community.Maintenance.Window.{extend, is_past, search_windows}

-- The method `Next` of a rule: no time, or a later one at a whole minute.
abbrev pub Advances : (ℕ → ℕ) → Type 0
Advances next = (wall : ℕ) → (next wall ≡ 0) ⊎ ((wall < next wall) × (next wall % 60 ≡ 0))

-- A start within the limit is a whole minute, at least a minute after the one before it.
minute_later :
    (limit wall next : ℕ)
    → wall % 60 ≡ 0
    → (next ≡ 0) ⊎ ((wall < next) × (next % 60 ≡ 0))
    → is_past limit next ≡ false
    → (wall + 60 ≤ next) × (next ≤ limit) × (next % 60 ≡ 0)
unfolding is_past
minute_later limit wall next whole (inl none) go = absurd (ground arith)
minute_later limit wall next whole (inr (later, minute)) go = (omega arith, ground arith, minute)

first_minute :
    (limit wall next : ℕ)
    → (next ≡ 0) ⊎ ((wall < next) × (next % 60 ≡ 0))
    → is_past limit next ≡ false
    → (wall < next) × (next % 60 ≡ 0)
unfolding is_past
first_minute limit wall next (inl none) go = absurd (ground arith)
first_minute limit wall next (inr (later, minute)) go = (later, minute)

module _ (k : Calendar) (spec : ScheduleSpec) (zone : Zone) (seconds after at : ℕ) where
  abbrev pub search : (ℕ → ℕ) → ℕ → ℕ → ℕ → ℕ → ℕ
  search = search_windows k spec zone seconds after at

  stopped :
      (next : ℕ → ℕ) (limit fuel wall until : ℕ)
      → is_past limit (next wall) ≡ true
      → search next limit (suc fuel) wall until ≡ until
  unfolding search_windows
  stopped next limit fuel wall until past =
      ap
        (λ b. elim b [
          | true ↦ until
          | false ↦
              search next limit fuel (next wall)
                (extend k spec zone seconds after at (next wall) until)
        ])
        past

  moved :
      (next : ℕ → ℕ) (limit fuel wall until : ℕ)
      → is_past limit (next wall) ≡ false
      → search next limit (suc fuel) wall until
        ≡ search next limit fuel (next wall) (extend k spec zone seconds after at (next wall) until)
  unfolding search_windows
  moved next limit fuel wall until within =
      ap
        (λ b. elim b [
          | true ↦ until
          | false ↦
              search next limit fuel (next wall)
                (extend k spec zone seconds after at (next wall) until)
        ])
        within

  -- Two limits of iterations agree if they agree after the next start.
  one_more :
      (next : ℕ → ℕ) (limit fuel more wall until : ℕ)
      → (is_past limit (next wall) ≡ false
          → search next limit more
              (next wall)
              (extend k spec zone seconds after at (next wall) until)
            ≡ search next limit fuel
                (next wall)
                (extend k spec zone seconds after at (next wall) until))
      → search next limit (suc more) wall until ≡ search next limit (suc fuel) wall until
  one_more next limit fuel more wall until rest = elim (Bool-cases (is_past limit (next wall))) [
    | inl past ↦
        stopped next limit more wall until past ∙ sym (stopped next limit fuel wall until past)
    | inr within ↦
        moved next limit more wall until within
        ∙ rest within
        ∙ sym (moved next limit fuel wall until within)
  ]

  -- From a whole minute, one more iteration than there are minutes to the limit is enough.
  search-stops :
      (next : ℕ → ℕ) (limit fuel more wall until : ℕ)
      → Advances next
      → wall % 60 ≡ 0
      → limit < wall + 60 * fuel + 60
      → fuel ≤ more
      → search next limit (suc more) wall until ≡ search next limit (suc fuel) wall until
  search-stops next limit zero more wall until advances whole near le =
      one_more next limit zero more wall until (λ within.
        let (later, reached, minute) =
          minute_later limit wall (next wall) whole (advances wall) within in
        absurd (omega arith))
  search-stops next limit (suc fuel) zero wall until advances whole near le = absurd (omega arith)
  search-stops next limit (suc fuel) (suc more) wall until advances whole near le =
      one_more next limit (suc fuel) (suc more) wall until (λ within.
        let (later, reached, minute) =
          minute_later limit wall (next wall) whole (advances wall) within in
        search-stops next limit fuel more (next wall)
          (extend k spec zone seconds after at (next wall) until) advances minute (omega arith)
          (omega arith))

  -- A search over at most four days ends before its limit of 6,000 iterations: no higher limit
  -- would give another result.
  pub search-enough :
      (next : ℕ → ℕ) (limit more wall until : ℕ)
      → Advances next
      → limit ≤ wall + 345600
      → 6000 ≤ more
      → search next limit more wall until ≡ search next limit 6000 wall until
  search-enough next limit zero wall until advances near le = absurd (omega arith)
  search-enough next limit (suc zero) wall until advances near le = absurd (omega arith)
  search-enough next limit (suc (suc more)) wall until advances near le =
      one_more next limit 5999 (suc more) wall until (λ within.
        let (later, minute) = first_minute limit wall (next wall) (advances wall) within in
        search-stops next limit 5998 more (next wall)
          (extend k spec zone seconds after at (next wall) until) advances minute (omega arith)
          (omega arith))
