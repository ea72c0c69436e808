-- ===== src/Schedule/Next/Scanned.antt =====
-- What the scan over the rules of a schedule, or its one time, finds.
use Prim.Native.String.{compare}
use text.Mathlib.Text.{is_lt}
use providah_community.Prelude.{
  ltb→lt, ◌<◌, ℕ, zero, suc, ◌≡◌, refl, subst, ◌==◌, Bool, true, false, not, ◌&&◌, ◌||◌, ◌++◌,
  String, some, List, [], ◌∷◌, if◌then◌else◌, any, ltb, eqb, contains, In, arith, inl, inr, ◌⊎◌,
  Bool-cases, and_parts,
}
use providah_community.Operation.Tables.{done, found, internal, >>=-eq-done, >>-eq-done, done_same}
use providah_community.Operation.Request.Reviewed.{found-some}
use providah_community.Schedule.Wall.{resolve_wall}
use providah_community.Schedule.{Calendar, ScheduleSpec, Zone}
use providah_community.Schedule.Next.{
  Occurrence, Scan, slot_of, no_occurrence, eligible, consider, precedes, scan_ends, scan_rule,
  scan_rules, scan_start, block, make_occurrence, next_of_rules, next_once,
}

-- An occurrence after an instant, or at the instant and in a later slot than a prior one that there
-- is.
abbrev pub Follows : ℕ → String → String → Occurrence → Type 0
Follows after prior_local prior_action o =
    (after < o.due)
    ⊎ ((eqb o.due after ≡ true)
        × ((prior_local == "") ≡ false)
        × (is_lt (compare (slot_of prior_local prior_action) (slot_of o.local o.action)) ≡ true))

-- The rules of a schedule that recurs, each with the action it is for.
abbrev pub rules_of : ScheduleSpec → List (String × String)
rules_of spec =
    if spec.action == "window"
    then (spec.cron, "start") ∷ (spec.stop_cron, "shutdown") ∷ []
    else (spec.cron, spec.action) ∷ []

-- A wall time that a specification names for an action: its one time, or the next time of one of its
-- rules after some other.
abbrev pub Names : Calendar → ScheduleSpec → ℕ → String → Type 0
Names k spec wall action =
    (((spec.run_at == "") ≡ false)
      × (k.parse_local spec.run_at ≡ some wall)
      × (action ≡ spec.action))
    ⊎ (((spec.run_at == "") ≡ true)
        × (rule : String) × In (rule, action) (rules_of spec)
        × (next : ℕ → ℕ) × (k.parse_rule rule ≡ some next)
        × (from : ℕ) × (wall ≡ next from))

-- An occurrence of a named wall time: at the instant it resolves to, for its action, and to be
-- skipped on a date of the exceptions and where the wall time does not exist.
abbrev pub IsAt : Calendar → ScheduleSpec → Zone → (ℕ → String → Type 0) → Occurrence → Type 0
IsAt k spec zone named o =
    (wall : ℕ) × (action : String) × named wall action
    × (o.due ≡ (resolve_wall zone wall).0)
    × (o.action ≡ action)
    × ((contains spec.exceptions (k.date_text wall) || (resolve_wall zone wall).1) ≡ true
        → (o.skip == "") ≡ false)

module _ (k : Calendar) (spec : ScheduleSpec) (zone : Zone) (after : ℕ)
    (prior_local prior_action : String) (named : ℕ → String → Type 0) where
  -- No occurrence was found, or one of a named time that comes after the prior one.
  abbrev pub IsLater : Occurrence → Type 0
  IsLater o =
      (o.due ≡ 0)
      ⊎ ((eligible k spec zone after prior_local prior_action o ≡ true) × IsAt k spec zone named o)

  make-IsAt :
      (wall : ℕ) (action : String)
      → named wall action
      → IsAt k spec zone named
          (make_occurrence k spec zone after prior_local prior_action wall action)
  unfolding make_occurrence ◌==◌
  make-IsAt wall action is_named = (
    wall,
    action,
    is_named,
    refl,
    refl,
    skipped (contains spec.exceptions (k.date_text wall)) (resolve_wall zone wall).1,
  )
    where
      skipped :
          (closed missing : Bool)
          → (closed || missing) ≡ true
          → ((if closed
                then "Calendar exception."
                else if missing
                then "Local time does not exist at the DST transition."
                else "")
              == "")
            ≡ false
      skipped true missing h = refl
      skipped false true h = refl
      skipped false false h = cc

  chosen :
      (b : Bool) (x y : Occurrence)
      → (b ≡ true → IsLater x)
      → IsLater y
      → IsLater (if b then x else y)
  chosen true x y hx hy = hx refl
  chosen false x y hx hy = hy

  consider-IsLater :
      (o : Occurrence) (s : Scan)
      → IsAt k spec zone named o
      → IsLater s.next
      → IsLater (consider k spec zone after prior_local prior_action o s).next
  unfolding consider
  consider-IsLater o s at h = go (ltb o.due after)
    where
      go :
          (b : Bool)
          → IsLater
              (if b then s else record {
                next =
                    if eligible k spec zone after prior_local prior_action o
                      && precedes k spec zone after prior_local prior_action o s.next
                    then o
                    else s.next;
                candidates = s.candidates ++ o ∷ [];
              }).next
      go true = h
      go false =
          chosen
            (eligible k spec zone after prior_local prior_action o
              && precedes k spec zone after prior_local prior_action o s.next)
            o s.next (λ b. inr ((and_parts _ _ b).0, at)) h

  stop_or :
      (b : Bool) (s t : Scan)
      → IsLater s.next
      → IsLater t.next
      → IsLater (elim b as (λ x. Scan) [ true ↦ s | false ↦ t ]).next
  stop_or true s t hs ht = hs
  stop_or false s t hs ht = ht

  scan_rule-IsLater :
      (rule : ℕ → ℕ) (action : String)
      → ((from : ℕ) → named (rule from) action)
      → (fuel wall : ℕ) (s : Scan) → IsLater s.next
      → IsLater (scan_rule k spec zone after prior_local prior_action rule action fuel wall s).next
  unfolding scan_rule
  scan_rule-IsLater rule action all zero wall s h = h
  scan_rule-IsLater rule action all (suc fuel) wall s h =
      let considered =
        consider k spec zone after prior_local prior_action
          (make_occurrence k spec zone after prior_local prior_action (rule wall) action) s in
      stop_or (scan_ends k spec zone after prior_local prior_action (rule wall) s) s
        (scan_rule k spec zone after prior_local prior_action rule action fuel (rule wall)
          considered)
        h
        (scan_rule-IsLater rule action all fuel (rule wall) considered (
          consider-IsLater
            (make_occurrence k spec zone after prior_local prior_action (rule wall) action) s
            (make-IsAt (rule wall) action (all wall)) h))

  scan_rules-IsLater :
      (start : ℕ) (rules : List (String × String)) (s result : Scan)
      → ((rule action : String) (next : ℕ → ℕ)
          → In (rule, action) rules
          → k.parse_rule rule ≡ some next
          → (from : ℕ) → named (next from) action)
      → IsLater s.next
      → scan_rules k spec zone after prior_local prior_action start rules s ≡ done result
      → IsLater result.next
  unfolding scan_rules
  scan_rules-IsLater start [] s result each h e = subst (λ r. IsLater r.next) (done_same _ _ e) h
  scan_rules-IsLater start ((rule, action) ∷ rules) s result each h e =
      let (next, read, e1) = >>=-eq-done (found (k.parse_rule rule) internal) _ e in
      scan_rules-IsLater start rules _ result (λ r a n m. each r a n (In.there m))
        (scan_rule-IsLater next action (each rule action next (In.here refl) (found-some _ _ read))
          6000 start s h)
        e1

  -- What `IsLater` is of an occurrence that was found.
  abbrev pub IsFound : Occurrence → Type 0
  IsFound o =
      (eligible k spec zone after prior_local prior_action o ≡ true) × IsAt k spec zone named o

  -- A block changes nothing but the reason to skip, and gives one.
  blocked :
      (b : Bool) (o : Occurrence)
      → IsFound o
      → IsFound (
          if b
          then record o { skip = "Paired actions overlap at the same instant; neither will run." }
          else o)
  unfolding eligible ◌==◌
  blocked true o (later, (wall, action, is_named, due, act, skip)) =
      (later, (wall, action, is_named, due, act, λ h. refl))
  blocked false o h = h

  block-IsFound :
      (s : Scan) → IsFound s.next → IsFound (block k spec zone after prior_local prior_action s)
  unfolding block
  block-IsFound s h =
      blocked
        (s.next.skip == ""
          && any (λ c. c.skip == "" && eqb c.due s.next.due && not (c.action == s.next.action))
              s.candidates)
        s.next h

  not_none : (o : Occurrence) → IsLater o → eqb o.due 0 ≡ false → IsFound o
  not_none o (inl none) e = absurd (ground arith)
  not_none o (inr later) e = later

  pub next_of_rules-IsFound :
      (o : Occurrence)
      → ((rule action : String) (next : ℕ → ℕ)
          → In (rule, action) (rules_of spec)
          → k.parse_rule rule ≡ some next
          → (from : ℕ) → named (next from) action)
      → next_of_rules k spec zone after prior_local prior_action ≡ done o
      → IsFound o
  unfolding next_of_rules
  next_of_rules-IsFound o each h =
      let start = scan_start k spec zone after prior_local prior_action in
      let empty : Scan = record { next = no_occurrence; candidates = [] } in
      let (s, scanned, h1) =
        >>=-eq-done
          (scan_rules k spec zone after prior_local prior_action start (rules_of spec) empty) _ h in
      let (some_time, h2) = >>-eq-done (eqb s.next.due 0) _ _ h1 in
      let later = scan_rules-IsLater start (rules_of spec) empty s each (inl refl) scanned in
      subst IsFound (done_same _ _ h2) (block-IsFound s (not_none s.next later some_time))

  after_is_eligible :
      (o : Occurrence)
      → ltb after o.due ≡ true
      → eligible k spec zone after prior_local prior_action o ≡ true
  unfolding eligible
  after_is_eligible o b = ground arith

  pub next_once-IsLater :
      (o : Occurrence)
      → ((wall : ℕ) → k.parse_local spec.run_at ≡ some wall → named wall spec.action)
      → next_once k spec zone after prior_local prior_action ≡ done o
      → IsLater o
  unfolding next_once
  next_once-IsLater o each h =
      let (wall, read, h1) = >>=-eq-done (found (k.parse_local spec.run_at) internal) _ h in
      let this = make_occurrence k spec zone after prior_local prior_action wall spec.action in
      subst IsLater (done_same _ _ h1) (
        chosen (ltb after this.due) this no_occurrence
          (λ b. inr (
            after_is_eligible this b,
            make-IsAt wall spec.action (each wall (found-some _ _ read)),
          ))
          (inl refl))

  -- What makes an occurrence eligible.
  pub advances :
      (o : Occurrence)
      → eligible k spec zone after prior_local prior_action o ≡ true
      → Follows after prior_local prior_action o
  unfolding eligible
  advances o h = elim (Bool-cases (ltb after o.due)) [
    | inl later ↦ inl (ltb→lt after o.due later)
    | inr same ↦ inr (same_instant (ltb after o.due) (eqb o.due after) (prior_local == "") _ same h)
  ]
    where
      same_instant :
          (l e n r : Bool)
          → l ≡ false
          → (l || e && not n && r) ≡ true
          → (e ≡ true) × (n ≡ false) × (r ≡ true)
      same_instant l e n r hl h = (ground arith, ground arith, ground arith)
