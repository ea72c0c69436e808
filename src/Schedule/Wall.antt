-- ===== src/Schedule/Wall.antt =====
-- Which instant a wall time stands for (`wallOffsets` and `resolveWall`).
use providah_community.Prelude.{
  ℕ, ◌+◌, ◌-◌, ◌*◌, ◌/◌, ◌%◌, Bool, true, false, ◌&&◌, ◌||◌, List, [], ◌∷◌, if◌then◌else◌, ltb, eqb,
  ℤ, pos, negsuc,
}
use providah_community.Schedule.{Zone}

-- `t.Add(offset)` and `t.Add(-offset)`; wall times and instants lie more than two days after 0.
abbrev pub ahead : ℕ → ℤ → ℕ
ahead t (pos n) = t + n
ahead t (negsuc n) = t - (n + 1)

abbrev pub behind : ℕ → ℤ → ℕ
behind t (pos n) = t - n
behind t (negsuc n) = t + (n + 1)

-- `t.In(loc)`, as a wall time.
abbrev pub local_time : Zone → ℕ → ℕ
local_time zone t = ahead t (zone.offset t)

-- The same text in the layout `2006-01-02T15:04`.
abbrev pub same_minute : ℕ → ℕ → Bool
same_minute s t = eqb (s / 60) (t / 60)

abbrev day : ℕ
day = 86400

-- The offsets in effect around the minute of a wall time. The source keeps them as a set.
unfoldable pub wall_offsets : Zone → ℕ → List ℤ
wall_offsets zone wall =
    let anchor = zone.date (wall - wall % 60) in
    zone.offset (anchor - 2 * day)
    ∷ zone.offset (anchor - day)
    ∷ zone.offset anchor
    ∷ zone.offset (anchor + day)
    ∷ zone.offset (anchor + 2 * day)
    ∷ []

-- The loop of `resolveWall`: the first instant that shows the wall time, and the last candidate;
-- 0 where there is none.
unfoldable pub resolve_over : Zone → ℕ → List ℤ → ℕ × ℕ → ℕ × ℕ
resolve_over zone wall [] found = found
resolve_over zone wall (offset ∷ offsets) (first, fallback) =
    let candidate = behind wall offset in
    resolve_over zone wall offsets (
      if same_minute (local_time zone candidate) wall && (eqb first 0 || ltb candidate first)
          then candidate
          else first,
      if ltb fallback candidate then candidate else fallback,
    )

-- The instant, and whether the wall time is missing.
unfoldable pub resolve_wall : Zone → ℕ → ℕ × Bool
unfolding wall_offsets resolve_over
resolve_wall zone wall =
    let found = resolve_over zone wall (wall_offsets zone wall) (0, 0) in
    if eqb found.0 0 then (found.1, true) else (found.0, false)
