-- ===== src/Maintenance/Enough.antt =====
-- The search of `maintenanceWindow` ends before its limit of iterations.
use providah_community.Prelude.{
  ℕ, ◌+◌, ◌-◌, ◌≤◌, ◌≡◌, arith, ℤ, pos, negsuc, pos_part, neg_part, ◌-ℤ◌, -ℤ_parts, ◌≤ℤ◌,
}
use providah_community.Schedule.{Calendar, ScheduleSpec, Zone}
use providah_community.Schedule.Wall.{local_time, ahead}
use providah_community.Maintenance.Window.{min_ℤ, max_ℤ, two_days, window_padding, search_windows}
use providah_community.Maintenance.Search.{Advances, search-enough}

max_ℤ_bounds : (a b : ℤ) → (a ≤ℤ max_ℤ a b) × (b ≤ℤ max_ℤ a b)
max_ℤ_bounds a b = (ground arith, ground arith)

min_ℤ_bounds : (a b : ℤ) → (min_ℤ a b ≤ℤ a) × (min_ℤ a b ≤ℤ b)
min_ℤ_bounds a b = (ground arith, ground arith)

-- The greatest of a start and three further values is at least the start and the second.
max_chain :
    (m a b c : ℤ) → (m ≤ℤ max_ℤ (max_ℤ (max_ℤ m a) b) c) × (b ≤ℤ max_ℤ (max_ℤ (max_ℤ m a) b) c)
max_chain m a b c =
    let (h1, _) = max_ℤ_bounds m a in
    let (h2, h3) = max_ℤ_bounds (max_ℤ m a) b in
    let (h4, _) = max_ℤ_bounds (max_ℤ (max_ℤ m a) b) c in (omega arith, omega arith)

min_chain :
    (m a b c : ℤ) → (min_ℤ (min_ℤ (min_ℤ m a) b) c ≤ℤ m) × (min_ℤ (min_ℤ (min_ℤ m a) b) c ≤ℤ b)
min_chain m a b c =
    let (h1, _) = min_ℤ_bounds m a in
    let (h2, h3) = min_ℤ_bounds (min_ℤ m a) b in
    let (h4, _) = min_ℤ_bounds (min_ℤ (min_ℤ m a) b) c in (omega arith, omega arith)

-- The padding is at least the difference of the offsets at the two ends of the search.
padding_covers :
    (zone : Zone) (after at : ℕ)
    → pos_part (zone.offset at) + neg_part (zone.offset after)
      ≤ pos_part (zone.offset after) + neg_part (zone.offset at) + window_padding zone after at
unfolding window_padding
padding_covers zone after at =
    let o = zone.offset in
    let high1 =
      max_ℤ (max_ℤ (max_ℤ (o at) (o (after - two_days))) (o after)) (o (after + two_days)) in
    let high2 = max_ℤ (max_ℤ (max_ℤ high1 (o (at - two_days))) (o at)) (o (at + two_days)) in
    let low1 =
      min_ℤ (min_ℤ (min_ℤ (o at) (o (after - two_days))) (o after)) (o (after + two_days)) in
    let low2 = min_ℤ (min_ℤ (min_ℤ low1 (o (at - two_days))) (o at)) (o (at + two_days)) in
    let (_, h_at) = max_chain high1 (o (at - two_days)) (o at) (o (at + two_days)) in
    let (l1, _) = min_chain low1 (o (at - two_days)) (o at) (o (at + two_days)) in
    let (_, l2) = min_chain (o at) (o (after - two_days)) (o after) (o (after + two_days)) in
    covers high2 low1 low2 (o at) (o after) h_at l1 l2
  where
    covers :
        (high low1 low2 a b : ℤ)
        → a ≤ℤ high
        → low2 ≤ℤ low1
        → low1 ≤ℤ b
        → pos_part a + neg_part b ≤ pos_part b + neg_part a + pos_part (high -ℤ low2)
    covers high low1 low2 a b h l1 l2 = let parts = -ℤ_parts high low2 in omega arith

-- The wall times at the ends of the search are at most four days apart.
search_range :
    (at seconds padding : ℕ) (a b : ℤ)
    → pos_part a + neg_part b ≤ pos_part b + neg_part a + padding
    → padding ≤ 86400
    → seconds ≤ 86400
    → ahead at a + padding ≤ ahead (at - seconds) b - padding + 345600
search_range at seconds padding (pos n) (pos m) h hp hs = omega arith
search_range at seconds padding (pos n) (negsuc m) h hp hs = omega arith
search_range at seconds padding (negsuc n) (pos m) h hp hs = omega arith
search_range at seconds padding (negsuc n) (negsuc m) h hp hs = omega arith

-- Where the offsets around the window differ by at most a day, and the rule advances by whole
-- minutes, a higher limit of iterations would give the same end of the window.
pub window_search-enough :
    (k : Calendar) (spec : ScheduleSpec) (zone : Zone) (next : ℕ → ℕ) (seconds at more : ℕ)
    → Advances next
    → window_padding zone (at - seconds) at ≤ 86400
    → seconds ≤ 86400
    → 6000 ≤ more
    → search_windows k spec zone seconds
        (at - seconds)
        at
        next
        (local_time zone at + window_padding zone (at - seconds) at)
        more
        (local_time zone (at - seconds) - window_padding zone (at - seconds) at)
        0
      ≡ search_windows k spec zone seconds
          (at - seconds)
          at
          next
          (local_time zone at + window_padding zone (at - seconds) at)
          6000
          (local_time zone (at - seconds) - window_padding zone (at - seconds) at)
          0
window_search-enough k spec zone next seconds at more advances padding short le =
    search-enough k spec zone seconds (at - seconds) at next _ more _ 0 advances
      (search_range at seconds (window_padding zone (at - seconds) at) (zone.offset at)
        (zone.offset (at - seconds)) (padding_covers zone (at - seconds) at) padding short)
      le
