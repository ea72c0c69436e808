-- ===== src/Schedule/Earliest.antt =====
-- The instant that a wall time resolves to is the earliest one that shows it.
use providah_community.Prelude.{ℕ, ◌≡◌, Bool, true, false, ◌&&◌, ◌||◌, if◌then◌else◌, ltb, eqb, ◌⊎◌}
use providah_community.Schedule.{Zone}
use providah_community.Schedule.Wall.{local_time, same_minute}

-- An instant shows the wall time, to the minute.
abbrev pub shows : Zone → ℕ → ℕ → Bool
shows zone wall t = same_minute (local_time zone t) wall

-- What the loop has found: no instant or one that shows the wall time.
abbrev IsFound : Zone → ℕ → ℕ → Type 0
IsFound zone wall first = (first ≡ 0) ⊎ (shows zone wall first ≡ true)

abbrev better : Bool → ℕ → ℕ → ℕ
better fits candidate first =
    if fits && (eqb first 0 || ltb candidate first) then candidate else first

-- What the loop found decides the answer.
abbrev answer_of : ℕ × ℕ → ℕ × Bool
answer_of found = if eqb found.0 0 then (found.1, true) else (found.0, false)
