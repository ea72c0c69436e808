-- ===== src/Prelude/Errors.antt =====
-- Go's `error` results: `none` is nil, `some message` an error with its text.
use Prim.Native.String.{String}
use mathlib.Core.Path.{◌≡◌, refl}
use mathlib.Core.Bool.{Bool, true, false}
use mathlib.Core.Option.{Option, none, some}
use mathlib.Core.List.{List, [], ◌∷◌}
use native.Mathlib.Omega.{arith}
use providah_community.Prelude.Lists.{All}

abbrev pub Error : Type 0
Error = Option String

-- `if test { return errors.New(message) }`.
abbrev pub fail_if : Bool → String → Error
fail_if true message = some message
fail_if false message = none

-- One check, and the rest of the function if it passes.
infixr 6 ◌>>>◌
abbrev pub ◌>>>◌ : Error → Error → Error
none >>> rest = rest
some message >>> rest = some message

-- `if e := check(x); e != nil`: whether the call fails.
abbrev pub failed : Error → Bool
failed none = false
failed (some message) = true

pub fail_if-none : (b : Bool) (m : String) → fail_if b m ≡ none → b ≡ false
fail_if-none b m h = ground arith

pub >>>-none : (a b : Error) → (a >>> b) ≡ none → (a ≡ none) × (b ≡ none)
>>>-none a b h = ground arith

pub failed-false : (e : Error) → failed e ≡ false → e ≡ none
failed-false e h = ground arith

module _ {ℓ} {A : Type ℓ} where
  -- `for _, x := range xs { if e := check(x); e != nil { return e } }`.
  abbrev pub each : (A → Error) → List A → Error
  each check [] = none
  each check (x ∷ xs) = check x >>> each check xs

  pub each-none :
      (check : A → Error) (xs : List A) → each check xs ≡ none → All (λ x. check x ≡ none) xs
  each-none check [] h = tt
  each-none check (x ∷ xs) h =
      let (first, rest) = >>>-none (check x) (each check xs) h in (first, each-none check xs rest)

-- A value with an `error`: the value, or the text of the error.
pub data Result {ℓ} (A : Type ℓ) : Type ℓ where
  ok : A → Result A
  err : String → Result A

-- `x, e := f(y); if e != nil { return e }`, and the rest of the function on `x`.
infixl 5 ◌>>=◌
abbrev pub ◌>>=◌ {ℓ κ} : {X : Type ℓ} {Y : Type κ} → Result X → (X → Result Y) → Result Y
ok x >>= next = next x
err message >>= next = err message

infixl 5 ◌>>◌
abbrev pub ◌>>◌ {ℓ} : {B : Type ℓ} → Error → Result B → Result B
none >> rest = rest
some e >> rest = err e

pub >>=-eq-ok {ℓ κ} :
    {X : Type ℓ} {Y : Type κ} (first : Result X) (next : X → Result Y) {y : Y}
    → (first >>= next) ≡ ok y
    → (x : X) × (first ≡ ok x) × (next x ≡ ok y)
>>=-eq-ok (err message) next passed = cc
>>=-eq-ok (ok x) next passed = (x, refl, passed)

pub >>-eq-ok {ℓ} :
    {B : Type ℓ} (e : Error) (rest : Result B) {b : B}
    → (e >> rest) ≡ ok b
    → (e ≡ none) × (rest ≡ ok b)
>>-eq-ok none rest h = (refl, h)
>>-eq-ok (some e) rest h = cc

-- The value of an option, or an error where it has none.
abbrev pub or_err {ℓ} : {A : Type ℓ} → Option A → String → Result A
or_err none e = err e
or_err (some a) e = ok a

pub or_err-eq-ok {ℓ} :
    {A : Type ℓ} (o : Option A) (e : String) {a : A} → or_err o e ≡ ok a → o ≡ some a
or_err-eq-ok none e h = cc
or_err-eq-ok (some b) e h = cc
