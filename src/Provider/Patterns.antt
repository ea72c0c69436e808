-- ===== src/Provider/Patterns.antt =====
-- The regular expressions of sdk/provider, each between `^` and `$` in the source.
use providah_community.Prelude.{ℕ, ◌++◌, List, [], ◌∷◌}
use providah_community.Regex.{
  Regex, empty, class, seq, alt, star, up_to, times, between, plus, optional, literal,
}

abbrev pub digit : List (ℕ × ℕ)
digit = (b'0', b'9') ∷ []

abbrev pub lowercase : List (ℕ × ℕ)
lowercase = (b'a', b'z') ∷ []

abbrev pub hex : List (ℕ × ℕ)
hex = (b'a', b'f') ∷ digit

abbrev pub lowercase_digit : List (ℕ × ℕ)
lowercase_digit = lowercase ++ digit

abbrev pub alphanumeric : List (ℕ × ℕ)
alphanumeric = lowercase ++ (b'A', b'Z') ∷ digit

abbrev pub letter : List (ℕ × ℕ)
letter = lowercase ++ (b'A', b'Z') ∷ []

abbrev pub dash : List (ℕ × ℕ)
dash = (b'-', b'-') ∷ []

-- `[a-f0-9]{64}`.
unfoldable pub identifier : Regex
unfolding times
identifier = times 64 (class hex) empty

-- `sha256:[a-f0-9]{64}`.
unfoldable pub image_id : Regex
unfolding identifier
image_id = literal "sha256:" identifier

-- `[a-z0-9-]{1,64}`.
unfoldable pub region : Regex
unfolding between
region = between 1 63 (class (lowercase_digit ++ dash))

-- `[1-9][0-9]{0,17}`.
unfoldable pub positive_id : Regex
unfolding up_to
positive_id = seq (class ((b'1', b'9') ∷ [])) (up_to 17 (class digit))

-- `[a-f0-9]{8,17}` after a prefix.
unfoldable pub hex_id : Regex
unfolding between
hex_id = between 8 9 (class hex)

-- `[a-f0-9]{8}-[a-f0-9]{4}-[a-f0-9]{4}-[a-f0-9]{4}-[a-f0-9]{12}`.
unfoldable pub uuid : Regex
unfolding times
uuid =
    let group = λ (n : ℕ) (rest : Regex). times n (class hex) (literal "-" rest) in
    group 8 (group 4 (group 4 (group 4 (times 12 (class hex) empty))))

-- `[a-zA-Z0-9-]{1,128}`.
unfoldable pub database_identity : Regex
unfolding between
database_identity = between 1 127 (class (alphanumeric ++ dash))

-- `[a-zA-Z0-9-]+`.
unfoldable pub action_id : Regex
action_id = plus (class (alphanumeric ++ dash))

-- `[a-zA-Z][a-zA-Z0-9-]{0,62}`.
unfoldable pub database_id : Regex
unfolding up_to
database_id = seq (class letter) (up_to 62 (class (alphanumeric ++ dash)))

-- `[a-zA-Z][a-zA-Z0-9-]{0,254}`.
unfoldable pub snapshot_id : Regex
unfolding up_to
snapshot_id = seq (class letter) (up_to 254 (class (alphanumeric ++ dash)))

-- `[a-zA-Z0-9](?:[a-zA-Z0-9-]{0,30}[a-zA-Z0-9])?`.
unfoldable pub classic_load_balancer : Regex
unfolding up_to
classic_load_balancer =
    seq (class alphanumeric)
      (optional (seq (up_to 30 (class (alphanumeric ++ dash))) (class alphanumeric)))

-- `arn:aws(?:-[a-z]+)*:elasticloadbalancing:[a-z]{2}(?:-[a-z]+)+-[0-9]+:[0-9]{12}:loadbalancer/`
-- `(?:app|net|gwy)/[a-zA-Z0-9-]{1,32}/[a-f0-9]{16}`.
unfoldable pub load_balancer_arn : Regex
unfolding times between
load_balancer_arn =
    let words = literal "-" (plus (class lowercase)) in
    let name = between 1 31 (class (alphanumeric ++ dash)) in
    let tail = seq name (literal "/" (times 16 (class hex) empty)) in
    let kind = alt (literal "app" empty) (alt (literal "net" empty) (literal "gwy" empty)) in
    let account = times 12 (class digit) (literal ":loadbalancer/" (seq kind (literal "/" tail))) in
    let area =
      times 2 (class lowercase)
        (seq (plus words) (literal "-" (seq (plus (class digit)) (literal ":" account)))) in
    literal "arn:aws" (seq (star words) (literal ":elasticloadbalancing:" area))

-- `[a-z][a-z0-9.-]{0,63}`.
unfoldable pub server_size : Regex
unfolding up_to
server_size = seq (class lowercase) (up_to 63 (class (lowercase_digit ++ (b'.', b'.') ∷ dash)))

-- `[a-z][a-z0-9-]{0,61}[a-z0-9]`.
unfoldable pub server_name : Regex
unfolding up_to
server_name =
    seq (class lowercase) (seq (up_to 61 (class (lowercase_digit ++ dash))) (class lowercase_digit))

-- `[a-z0-9-]+\.[a-z0-9]+`.
unfoldable pub instance_type : Regex
instance_type =
    seq (plus (class (lowercase_digit ++ dash))) (literal "." (plus (class lowercase_digit)))

-- `[a-z0-9][a-z0-9-]{0,63}`.
unfoldable pub plain_size : Regex
unfolding up_to
plain_size = seq (class lowercase_digit) (up_to 63 (class (lowercase_digit ++ dash)))

-- `[A-Za-z0-9:_-]{1,255}`.
unfoldable pub writable_named_tag : Regex
unfolding between
writable_named_tag = between 1 254 (class (alphanumeric ++ (b':', b':') ∷ (b'_', b'_') ∷ dash))
