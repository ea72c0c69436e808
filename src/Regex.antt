-- ===== src/Regex.antt =====
-- Regular expressions of the Go standard library (package regexp), as far as the source uses them:
-- anchored patterns over character classes, with bounded and unbounded repetition. A pattern is
-- matched by taking its derivative at each character.
use providah_community.Prelude.{
  ℕ, zero, suc, Bool, true, false, ◌&&◌, ◌||◌, List, [], ◌∷◌, String, codes, leb,
}

pub data Regex : Type 0 where
  nothing empty : Regex
  class : List (ℕ × ℕ) → Regex
  seq alt : Regex → Regex → Regex
  star : Regex → Regex

unfoldable pub in_class : List (ℕ × ℕ) → ℕ → Bool
in_class [] c = false
in_class ((low, high) ∷ ranges) c = leb low c && leb c high || in_class ranges c

unfoldable pub nullable : Regex → Bool
nullable nothing = false
nullable empty = true
nullable (class ranges) = false
nullable (seq a b) = nullable a && nullable b
nullable (alt a b) = nullable a || nullable b
nullable (star a) = true

unfoldable pub seq' : Regex → Regex → Regex
seq' nothing b = nothing
seq' empty b = b
seq' a b = seq a b

unfoldable pub alt' : Regex → Regex → Regex
alt' nothing b = b
alt' a nothing = a
alt' a b = alt a b

-- What the rest of a text must match after the character `c`.
unfoldable pub derivative : ℕ → Regex → Regex
unfolding in_class nullable seq' alt'
derivative c nothing = nothing
derivative c empty = nothing
derivative c (class ranges) = elim (in_class ranges c) [ true ↦ empty | false ↦ nothing ]
derivative c (seq a b) = elim (nullable a) [
  | true ↦ alt' (seq' (derivative c a) b) (derivative c b)
  | false ↦ seq' (derivative c a) b
]
derivative c (alt a b) = alt' (derivative c a) (derivative c b)
derivative c (star a) = seq' (derivative c a) (star a)

unfoldable pub matches_codes : Regex → List ℕ → Bool
unfolding nullable derivative
matches_codes r [] = nullable r
matches_codes r (c ∷ s) = matches_codes (derivative c r) s

-- `regexp.MustCompile(pattern).MatchString(s)` for a pattern between `^` and `$`.
unfoldable pub matches : Regex → String → Bool
unfolding matches_codes
matches r s = matches_codes r (codes s)

-- `r{0,n}`.
unfoldable pub up_to : ℕ → Regex → Regex
up_to zero r = empty
up_to (suc n) r = alt empty (seq r (up_to n r))

-- `r{n}` followed by `rest`.
unfoldable pub times : ℕ → Regex → Regex → Regex
times zero r rest = rest
times (suc n) r rest = seq r (times n r rest)

-- `r{n,n+m}`.
unfoldable pub between : ℕ → ℕ → Regex → Regex
unfolding up_to times
between n m r = times n r (up_to m r)

-- `r+`.
abbrev pub plus : Regex → Regex
plus r = seq r (star r)

-- `r?`.
abbrev pub optional : Regex → Regex
optional r = alt empty r

-- A text that stands for itself, followed by `rest`.
abbrev pub literal_codes : List ℕ → Regex → Regex
literal_codes [] rest = rest
literal_codes (c ∷ s) rest = seq (class ((c, c) ∷ [])) (literal_codes s rest)

abbrev pub literal : String → Regex → Regex
literal s rest = literal_codes (codes s) rest
