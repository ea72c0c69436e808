-- ===== src/Operation/Tick/Selected.antt =====
-- The jobs that a query with a limit selects.
use providah_community.Prelude.{
  ℕ, zero, suc, ◌+◌, ◌≤◌, ◌≡◌, refl, subst, ◌==◌, ==_refl, Bool, true, false, List, [], ◌∷◌, any,
  In, arith, inl, inr, Bool-cases, if◌then◌else◌,
}
use providah_community.Operation.Tables.{Operation}
use providah_community.Operation.Tick.{select}

-- How many rows meet a condition.
unfoldable pub count : (Operation → Bool) → List Operation → ℕ
count meets [] = 0
count meets (o ∷ rows) = (if meets o then 1 else 0) + count meets rows

-- The queries select a job for each row that meets the condition, if there are not too many.
not_counted : (c n : ℕ) → 0 + c ≤ n → c ≤ n
not_counted c n h = omega arith

beyond :
    (meets : Operation → Bool) (x o : Operation) (rows : List Operation)
    → In o (x ∷ rows)
    → meets x ≡ false
    → meets o ≡ true
    → In o rows
beyond meets x o rows (In.here e) past h = absurd (wrong (subst (λ y. meets y ≡ false) e past) h)
  where
    wrong : {b : Bool} → b ≡ false → b ≡ true → ⊥
    wrong e h = cc
beyond meets x o rows (In.there m) past h = m

taken :
    (n : ℕ) (meets : Operation → Bool) (x o : Operation) (rows : List Operation)
    → In o (x ∷ rows)
    → (In o rows → any (λ j. j.id == o.id) (select n meets rows) ≡ true)
    → any (λ j. j.id == o.id) (x ∷ select n meets rows) ≡ true
taken n meets x o rows (In.here e) rest = rw (e, ==_refl o.id) refl
taken n meets x o rows (In.there m) rest = let found = rest m in ground arith

pub select-any :
    (n : ℕ) (meets : Operation → Bool) (rows : List Operation) (o : Operation)
    → count meets rows ≤ n
    → In o rows
    → meets o ≡ true
    → any (λ j. j.id == o.id) (select n meets rows) ≡ true
unfolding count select
select-any n meets [] o few m h = elim m [ ]
select-any zero meets (x ∷ rows) o few m h = elim (Bool-cases (meets x)) [
  | inl met ↦ let none_left = rw met at few in absurd (omega (arith, none_left))
  | inr past ↦ absurd (
      no_job (
        select-any zero meets rows o (not_counted _ _ (rw past at few))
          (beyond meets x o rows m past h) h))
]
  where
    no_job : false ≡ true → ⊥
    no_job e = cc
select-any (suc n) meets (x ∷ rows) o few m h = elim (Bool-cases (meets x)) [
  | inl met ↦ rw met (
      taken n meets x o rows m
        (λ later. select-any n meets rows o (one_less n _ (rw met at few)) later h))
  | inr past ↦ rw past (
      select-any (suc n) meets rows o (not_counted _ _ (rw past at few))
        (beyond meets x o rows m past h) h)
]
  where
    one_less : (n c : ℕ) → 1 + c ≤ suc n → c ≤ n
    one_less n c h = omega arith
