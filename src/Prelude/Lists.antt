-- ===== src/Prelude/Lists.antt =====
-- Lists over the native numbers: length, tests by a Boolean predicate, and predicates by recursion.
use Prim.Native.Nat.{ℕ, suc, ◌+◌, ◌≤◌}
use mathlib.Core.Path.{◌≡◌, refl}
use mathlib.Core.Bool.{Bool, true, false, ◌||◌}
use mathlib.Core.Logic.{◌⊎◌, inl, inr}
use mathlib.Core.List.{List, [], ◌∷◌, ◌++◌}
use native.Mathlib.Omega.{arith}
use llm_trade.Prelude.Tests.{if◌then◌else◌, Bool-cases}

module _ {ℓ} {A : Type ℓ} where
  abbrev pub length : List A → ℕ
  length [] = 0
  length (x ∷ xs) = suc (length xs)

  -- `any(test(x) for x in xs)`
  abbrev pub any : (A → Bool) → List A → Bool
  any test [] = false
  any test (x ∷ xs) = test x || any test xs

  -- `[x for x in xs if test(x)]`
  abbrev pub filter : (A → Bool) → List A → List A
  filter test [] = []
  filter test (x ∷ xs) = if test x then x ∷ filter test xs else filter test xs

  abbrev pub All {κ} : (A → Type κ) → List A → Type κ
  All P [] = Unit
  All P (x ∷ xs) = P x × All P xs

  pub length-append : (xs ys : List A) → length (xs ++ ys) ≡ length xs + length ys
  length-append [] ys = omega arith
  length-append (x ∷ xs) ys = omega (arith, length-append xs ys)

  pub length-filter-le : (test : A → Bool) (xs : List A) → length (filter test xs) ≤ length xs
  length-filter-le test [] = omega arith
  length-filter-le test (x ∷ xs) = ground (arith, length-filter-le test xs)

  pub All-filter {κ} :
      (P : A → Type κ) (test : A → Bool) (xs : List A)
      → All P xs
      → All (λ x. (test x ≡ true) × P x) (filter test xs)
  All-filter P test [] h = tt
  All-filter P test (x ∷ xs) (h, hs) = elim (Bool-cases (test x)) [
    | inl kept ↦ rw kept ((kept, h), All-filter P test xs hs)
    | inr dropped ↦ rw dropped (All-filter P test xs hs)
  ]

  pub All-map {κ κ'} :
      (P : A → Type κ) (Q : A → Type κ') (xs : List A) → ((x : A) → P x → Q x) → All P xs → All Q xs
  All-map P Q [] f h = tt
  All-map P Q (x ∷ xs) f (h, hs) = (f x h, All-map P Q xs f hs)

-- The members of a list, as evidence.
abbrev pub IsIn : {A : Type 0} → A → List A → Type 0
IsIn x [] = ⊥
IsIn x (y ∷ ys) = (x ≡ y) ⊎ IsIn x ys

pub All-IsIn : {A : Type 0} (xs : List A) → All (λ x. IsIn x xs) xs
All-IsIn [] = tt
All-IsIn (x ∷ xs) =
    (inl refl, All-map (λ y. IsIn y xs) (λ y. IsIn y (x ∷ xs)) xs (λ y h. inr h) (All-IsIn xs))
