-- ===== src/Access/Outcomes.antt =====
-- Predicates on what a chain of checks and reads answers when it succeeds.
use providah_community.Prelude.{◌≡◌, refl, subst, Bool, true, false, not, if◌then◌else◌}
use providah_community.Operation.Tables.{
  Answer, done, fault, Fault, refuse_if, ◌>>=◌, ◌>>◌, done_same,
}

module _ {A : Type 0} (P : A → Type 0) where
  -- The predicate holds of the value, if there is one.
  abbrev pub OnDone : Answer A → Type 0
  OnDone (done a) = P a
  OnDone (fault e) = Unit

  pub OnDone->>= :
      {B : Type 0} (m : Answer B) (f : B → Answer A) → ((b : B) → OnDone (f b)) → OnDone (m >>= f)
  OnDone->>= (done b) f h = h b
  OnDone->>= (fault e) f h = tt

  pub OnDone->> : (m : Answer (Unit {0})) (rest : Answer A) → OnDone rest → OnDone (m >> rest)
  OnDone->> (done a) rest h = h
  OnDone->> (fault e) rest h = tt

  pub OnDone-done : (m : Answer A) (a : A) → OnDone m → m ≡ done a → P a
  OnDone-done (done b) a h e = subst P (done_same _ _ e) h
  OnDone-done (fault x) a h e = absurd cc

-- What holds of the first part's value may be used for the rest.
pub through :
    {A B : Type 0} (P : A → Type 0) (Q : B → Type 0) (m : Answer B) (f : B → Answer A)
    → OnDone Q m
    → ((b : B) → Q b → OnDone P (f b))
    → OnDone P (m >>= f)
through P Q (done b) f q h = h b q
through P Q (fault e) f q h = tt

pub either :
    {A : Type 0} (P : A → Type 0) (b : Bool) (x y : Answer A)
    → OnDone P x
    → OnDone P y
    → OnDone P (if b then x else y)
either P true x y hx hy = hx
either P false x y hx hy = hy

-- What a test has refused does not hold of what follows.
pub guarded :
    {A : Type 0} (P : A → Type 0) (b : Bool) (e : Fault) (rest : Answer A)
    → (b ≡ true → OnDone P rest)
    → OnDone P (refuse_if (not b) e >> rest)
guarded P true e rest h = h refl
guarded P false e rest h = tt

abbrev pub succeeds : {A : Type 0} → Answer A → Bool
succeeds (done a) = true
succeeds (fault e) = false

pub refused : {A : Type 0} (m : Answer A) → ((a : A) → m ≡ done a → ⊥) → succeeds m ≡ false
refused (done a) h = absurd (h a refl)
refused (fault e) h = refl
