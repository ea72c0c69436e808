-- ===== src/Prelude/Texts.antt =====
-- Texts of the Go code: `String` where it compares whole texts, code points where it reads
-- characters; `slices.Contains` over texts, and the `strings` searches. `strings.ToLower` is
-- modelled on the ASCII letters.
use Prim.Native.Nat.{ℕ, ◌+◌}
use Prim.Native.Char.{code}
use Prim.Native.String.{String}
use mathlib.Core.Path.{◌≡◌, sym}
use mathlib.Core.Logic.{◌↔◌, inl, inr}
use mathlib.Core.Bool.{Bool, true, false, not, ◌&&◌, ◌||◌}
use mathlib.Core.List.{List, [], ◌∷◌, map}
use native.Mathlib.Omega.{arith}
use text.Mathlib.Text.{◌==◌ as str_eq}
use text.Mathlib.TextEquality.{eq_iff}
use text.Mathlib.TextPositions.{eq_refl}
use providah_community.Prelude.Tests.{Bool-cases, and_parts, leb, eqb, if◌then◌else◌}
use providah_community.Prelude.Lists.{In, here, there, All}

-- The code points of a text: its bytes, if it is ASCII.
abbrev pub codes : String → List ℕ
codes String.[] = []
codes (String.◌∷◌ c s) = code c ∷ codes s

-- `==` on texts. It stays shut in proofs, which use the laws below.
infix 50 ◌==◌
unfoldable pub ◌==◌ : String → String → Bool
s == t = str_eq s t

pub ==_iff : (s t : String) → ((s == t) ≡ true) ↔ (s ≡ t)
unfolding ◌==◌
==_iff s t = eq_iff s t

pub ==_refl : (s : String) → (s == s) ≡ true
unfolding ◌==◌
==_refl s = eq_refl s

pub ==_sym : (s t : String) → (s == t) ≡ (t == s)
==_sym s t = ground (arith, ==_iff s t, ==_iff t s)

-- A text equals at most one of several distinct texts.
abbrev pub Apart : String → List String → Type 0
Apart s [] = Unit
Apart s (a ∷ rest) = All (λ b. ((s == a) && (s == b)) ≡ false) rest × Apart s rest

abbrev differs : String → List String → Bool
differs a [] = true
differs a (b ∷ rest) = not (str_eq a b) && differs a rest

abbrev distinct : List String → Bool
distinct [] = true
distinct (a ∷ rest) = differs a rest && distinct rest

apart_from :
    (s a : String) (rest : List String)
    → differs a rest ≡ true
    → All (λ b. ((s == a) && (s == b)) ≡ false) rest
apart_from s a [] h = tt
apart_from s a (b ∷ rest) h =
    let (here_differs, later) = and_parts (not (str_eq a b)) (differs a rest) h in
    (ground (arith, ==_iff s a, ==_iff s b, eq_iff a b), apart_from s a rest later)

pub apart : (s : String) (texts : List String) → distinct texts ≡ true → Apart s texts
apart s [] h = tt
apart s (a ∷ rest) h =
    let (first, later) = and_parts (differs a rest) (distinct rest) h in
    (apart_from s a rest first, apart s rest later)

-- `slices.Contains`.
abbrev pub contains : List String → String → Bool
contains [] s = false
contains (x ∷ xs) s = s == x || contains xs s

pub contains-In : (xs : List String) (s : String) → contains xs s ≡ true → In s xs
contains-In [] s h = cc
contains-In (x ∷ xs) s h = elim (Bool-cases (s == x)) [
  | inl e ↦ here (sym ((==_iff s x).0 e))
  | inr e ↦ there (contains-In xs s (ground arith))
]

pub In-contains : {s : String} {xs : List String} → In s xs → contains xs s ≡ true
In-contains {s} (here {x} {xs} e) = ground (arith, ==_iff s x, sym e)
In-contains {s} (there {x} {xs} later) = ground (arith, In-contains later)

abbrev pub codes_eq : List ℕ → List ℕ → Bool
codes_eq [] [] = true
codes_eq (x ∷ xs) (y ∷ ys) = eqb x y && codes_eq xs ys
codes_eq _ _ = false

abbrev pub contains_codes : List (List ℕ) → List ℕ → Bool
contains_codes [] s = false
contains_codes (x ∷ xs) s = codes_eq x s || contains_codes xs s

-- `strings.ToLower` of one ASCII character.
unfoldable pub lower : ℕ → ℕ
lower c = if leb b'A' c && leb c b'Z' then c + 32 else c

unfoldable pub lower_codes : String → List ℕ
unfolding lower
lower_codes s = map lower (codes s)

-- Whether the second list begins with the first.
unfoldable pub begins : List ℕ → List ℕ → Bool
begins [] s = true
begins (p ∷ ps) [] = false
begins (p ∷ ps) (c ∷ s) = eqb p c && begins ps s

-- `strings.Contains`: whether the first list stands somewhere in the second.
unfoldable pub occurs : List ℕ → List ℕ → Bool
unfolding begins
occurs p [] = begins p []
occurs p (c ∷ s) = begins p (c ∷ s) || occurs p s

-- `strings.HasSuffix`.
unfoldable pub ends : List ℕ → List ℕ → Bool
ends p [] = codes_eq p []
ends p (c ∷ s) = codes_eq p (c ∷ s) || ends p s

-- The code points that `unicode.IsSpace` accepts.
unfoldable pub is_space : ℕ → Bool
is_space c =
    leb 9 c && leb c 13
    || eqb c 0x20
    || eqb c 0x85
    || eqb c 0xa0
    || eqb c 0x1680
    || leb 0x2000 c && leb c 0x200a
    || eqb c 0x2028
    || eqb c 0x2029
    || eqb c 0x202f
    || eqb c 0x205f
    || eqb c 0x3000

unfoldable pub trim_left : String → String
unfolding is_space
trim_left String.[] = String.[]
trim_left (String.◌∷◌ c s) =
    let rest = trim_left s in if is_space (code c) then rest else String.◌∷◌ c s

unfoldable pub is_blank : String → Bool
unfolding is_space
is_blank String.[] = true
is_blank (String.◌∷◌ c s) = is_space (code c) && is_blank s

unfoldable pub trim_right : String → String
unfolding is_blank
trim_right String.[] = String.[]
trim_right (String.◌∷◌ c s) =
    if is_blank (String.◌∷◌ c s) then String.[] else String.◌∷◌ c (trim_right s)

-- `strings.TrimSpace`.
unfoldable pub trim_space : String → String
unfolding trim_left trim_right
trim_space s = trim_right (trim_left s)
