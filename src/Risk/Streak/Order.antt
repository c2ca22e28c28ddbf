-- ===== src/Risk/Streak/Order.antt =====
-- The sort of the closed trades: a permutation, newest first.
use mathlib.Core.List.{Perm}
use mathlib.Core.List.Perm
use llm_trade.Prelude.{
  ℕ, ◌≡◌, refl, inl, inr, true, false, Option, none, some, List, [], ◌∷◌, arith, All, Bool-cases,
}
use llm_trade.Risk.Streak.{Closed, is_newer, insert_newest, newest_first}

is_newer_trans :
    (a b c : Option ℕ) → is_newer a b ≡ false → is_newer b c ≡ false → is_newer a c ≡ false
is_newer_trans none b c p q = refl
is_newer_trans (some a) none c p q = cc
is_newer_trans (some a) (some b) none p q = cc
is_newer_trans (some a) (some b) (some c) p q = ground arith

is_newer_asymm : (a b : Option ℕ) → is_newer a b ≡ true → is_newer b a ≡ false
is_newer_asymm a b p = ground arith

module _ {F : Type 0} where
  -- No later entry is newer than an earlier one.
  abbrev pub IsNewestFirst : List (Closed F) → Type 0
  IsNewestFirst [] = Unit
  IsNewestFirst (x ∷ xs) = All (λ y. is_newer y.closed_at x.closed_at ≡ false) xs × IsNewestFirst xs

  insert_newest-perm : (x : Closed F) (ys : List (Closed F)) → Perm (insert_newest x ys) (x ∷ ys)
  unfolding insert_newest
  insert_newest-perm x [] = Perm.refl _
  insert_newest-perm x (y ∷ ys) = elim (Bool-cases (is_newer y.closed_at x.closed_at)) [
    | inl newer ↦ rw newer (Perm.trans (Perm.cons y (insert_newest-perm x ys)) (Perm.swap x y ys))
    | inr older ↦ rw older (Perm.refl _)
  ]

  pub newest_first-perm : (xs : List (Closed F)) → Perm (newest_first xs) xs
  unfolding newest_first
  newest_first-perm [] = Perm.refl _
  newest_first-perm (x ∷ xs) =
      Perm.trans (insert_newest-perm x (newest_first xs)) (Perm.cons x (newest_first-perm xs))

  All-older :
      (x y : Closed F) (ys : List (Closed F))
      → is_newer y.closed_at x.closed_at ≡ false
      → All (λ z. is_newer z.closed_at y.closed_at ≡ false) ys
      → All (λ z. is_newer z.closed_at x.closed_at ≡ false) ys
  All-older x y [] h a = tt
  All-older x y (z ∷ zs) h (a, as') =
      (is_newer_trans z.closed_at y.closed_at x.closed_at a h, All-older x y zs h as')

  module _ {κ} (P : Closed F → Type κ) where
    pub All-insert_newest :
        (x : Closed F) (ys : List (Closed F)) → P x → All P ys → All P (insert_newest x ys)
    unfolding insert_newest
    All-insert_newest x [] p a = (p, tt)
    All-insert_newest x (y ∷ ys) p (q, a) = elim (Bool-cases (is_newer y.closed_at x.closed_at)) [
      | inl newer ↦ rw newer (q, All-insert_newest x ys p a)
      | inr older ↦ rw older (p, (q, a))
    ]

    pub All-newest_first : (xs : List (Closed F)) → All P xs → All P (newest_first xs)
    unfolding newest_first
    All-newest_first [] a = tt
    All-newest_first (x ∷ xs) (p, a) =
        All-insert_newest x (newest_first xs) p (All-newest_first xs a)

  insert_newest-IsNewestFirst :
      (x : Closed F) (ys : List (Closed F)) → IsNewestFirst ys → IsNewestFirst (insert_newest x ys)
  unfolding insert_newest
  insert_newest-IsNewestFirst x [] s = (tt, tt)
  insert_newest-IsNewestFirst x (y ∷ ys) (a, s) =
      elim (Bool-cases (is_newer y.closed_at x.closed_at)) [
        | inl newer ↦ rw newer (
          All-insert_newest (λ z. is_newer z.closed_at y.closed_at ≡ false) x ys
              (is_newer_asymm y.closed_at x.closed_at newer) a,
          insert_newest-IsNewestFirst x ys s,
        )
        | inr older ↦ rw older ((older, All-older x y ys older a), (a, s))
      ]

  pub newest_first-IsNewestFirst : (xs : List (Closed F)) → IsNewestFirst (newest_first xs)
  unfolding newest_first
  newest_first-IsNewestFirst [] = tt
  newest_first-IsNewestFirst (x ∷ xs) =
      insert_newest-IsNewestFirst x (newest_first xs) (newest_first-IsNewestFirst xs)
