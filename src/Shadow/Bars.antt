-- ===== src/Shadow/Bars.antt =====
-- The bars that are used: those of the window, in the order of time.
use mathlib.Core.List.{Perm}
use mathlib.Core.List.Perm
use llm_trade.Prelude.{
  ℕ, ◌≡◌, refl, Bool, true, Option, none, some, List, [], ◌∷◌, arith, All, inl, inr, Bool-cases,
  leb,
}
use llm_trade.Float.{Float}
use llm_trade.Shadow.{Bar, UsableBar, insert_bar, sort_bars, maybe_bar, usable_at, usable_bars}

module _ {F : Type 0} where
  -- No bar is before an earlier one.
  abbrev pub IsChronological : List (UsableBar F) → Type 0
  IsChronological [] = Unit
  IsChronological (b ∷ bs) = All (λ x. leb b.stamp x.stamp ≡ true) bs × IsChronological bs

  module _ (P : UsableBar F → Type 0) where
    All-insert_bar :
        (b : UsableBar F) (bs : List (UsableBar F)) → P b → All P bs → All P (insert_bar b bs)
    All-insert_bar b [] h a = (h, tt)
    All-insert_bar b (x ∷ xs) h (g, a) = elim (Bool-cases (leb b.stamp x.stamp)) [
      | inl first ↦ rw first (h, (g, a))
      | inr later ↦ rw later (g, All-insert_bar b xs h a)
    ]

    pub All-sort_bars : (bs : List (UsableBar F)) → All P bs → All P (sort_bars bs)
    unfolding sort_bars
    All-sort_bars [] a = tt
    All-sort_bars (b ∷ bs) (h, a) = All-insert_bar b (sort_bars bs) h (All-sort_bars bs a)

  All-later :
      (b x : UsableBar F) (xs : List (UsableBar F))
      → leb b.stamp x.stamp ≡ true
      → All (λ y. leb x.stamp y.stamp ≡ true) xs
      → All (λ y. leb b.stamp y.stamp ≡ true) xs
  All-later b x [] h a = tt
  All-later b x (y ∷ ys) h (g, a) = (ground arith, All-later b x ys h a)

  insert_bar-IsChronological :
      (b : UsableBar F) (bs : List (UsableBar F))
      → IsChronological bs
      → IsChronological (insert_bar b bs)
  insert_bar-IsChronological b [] c = (tt, tt)
  insert_bar-IsChronological b (x ∷ xs) (a, c) = elim (Bool-cases (leb b.stamp x.stamp)) [
    | inl first ↦ rw first ((first, All-later b x xs first a), (a, c))
    | inr later ↦ rw later (
      All-insert_bar (λ y. leb x.stamp y.stamp ≡ true) b xs (ground arith) a,
      insert_bar-IsChronological b xs c,
    )
  ]

  pub sort_bars-IsChronological : (bs : List (UsableBar F)) → IsChronological (sort_bars bs)
  unfolding sort_bars
  sort_bars-IsChronological [] = tt
  sort_bars-IsChronological (b ∷ bs) =
      insert_bar-IsChronological b (sort_bars bs) (sort_bars-IsChronological bs)

  insert_bar-perm : (b : UsableBar F) (bs : List (UsableBar F)) → Perm (insert_bar b bs) (b ∷ bs)
  insert_bar-perm b [] = Perm.refl _
  insert_bar-perm b (x ∷ xs) = elim (Bool-cases (leb b.stamp x.stamp)) [
    | inl first ↦ rw first (Perm.refl _)
    | inr later ↦ rw later (Perm.trans (Perm.cons x (insert_bar-perm b xs)) (Perm.swap b x xs))
  ]

  pub sort_bars-perm : (bs : List (UsableBar F)) → Perm (sort_bars bs) bs
  unfolding sort_bars
  sort_bars-perm [] = Perm.refl _
  sort_bars-perm (b ∷ bs) =
      Perm.trans (insert_bar-perm b (sort_bars bs)) (Perm.cons b (sort_bars-perm bs))

module _ {F : Type 0} ⦃fl : Float F⦄ (within : ℕ → Bool) where
  open fl use {is_finite}

  -- The bar has a time of the window and finite prices, and is read as they are.
  pub record IsReadAs (time : Option ℕ) (high low close : Option F) (b : UsableBar F) : Type 0 where
    pub time_is : time ≡ some b.stamp
    pub inside : within b.stamp ≡ true
    pub high_is : high ≡ some b.high
    pub low_is : low ≡ some b.low
    pub close_is : close ≡ some b.close
    pub high_finite : is_finite b.high ≡ true
    pub low_finite : is_finite b.low ≡ true
    pub close_finite : is_finite b.close ≡ true

  abbrev pub IsUsed : Bar F → UsableBar F → Type 0
  IsUsed bar b = IsReadAs bar.time bar.high bar.low bar.close b

  -- Every bar that can be used is, in the order of the input, and no other.
  pub data AreUsed : List (Bar F) → List (UsableBar F) → Type 0 where
    all_used : AreUsed [] []
    used :
        {bar : Bar F} {b : UsableBar F} {bars : List (Bar F)} {kept : List (UsableBar F)}
        → IsUsed bar b
        → AreUsed bars kept
        → AreUsed (bar ∷ bars) (b ∷ kept)
    skipped :
        {bar : Bar F} {bars : List (Bar F)} {kept : List (UsableBar F)}
        → ((b : UsableBar F) → ¬ IsUsed bar b)
        → AreUsed bars kept
        → AreUsed (bar ∷ bars) kept

  usable_at-IsUsed :
      (bar : Bar F) (time : Option ℕ) (high low close : Option F) (b : UsableBar F)
      → bar.time ≡ time
      → bar.high ≡ high
      → bar.low ≡ low
      → bar.close ≡ close
      → usable_at within time bar ≡ some b
      → IsReadAs time high low close b
  usable_at-IsUsed bar none high low close b t h l c e = cc
  usable_at-IsUsed bar (some stamp) none low close b t h l c e = ground arith
  usable_at-IsUsed bar (some stamp) (some high) none close b t h l c e = ground arith
  usable_at-IsUsed bar (some stamp) (some high) (some low) none b t h l c e = ground arith
  usable_at-IsUsed bar (some stamp) (some high) (some low) (some close) b t h l c e = record {
    time_is = ground arith;
    inside = ground arith;
    high_is = ground arith;
    low_is = ground arith;
    close_is = ground arith;
    high_finite = ground arith;
    low_finite = ground arith;
    close_finite = ground arith;
  }

  IsUsed-usable_at :
      (bar : Bar F) (b : UsableBar F) → IsUsed bar b → usable_at within bar.time bar ≡ some b
  IsUsed-usable_at bar b u =
      let time_is = u.time_is in
      let inside = u.inside in
      let high_is = u.high_is in
      let low_is = u.low_is in
      let close_is = u.close_is in
      let high_finite = u.high_finite in
      let low_finite = u.low_finite in
      let close_finite = u.close_finite in
      rw time_is (
        rw inside (
          rw high_is
            (rw low_is (rw close_is (rw high_finite (rw low_finite (rw close_finite refl)))))))

  maybe_bar-AreUsed :
      (bar : Bar F) (found : Option (UsableBar F)) {bars : List (Bar F)} {kept : List (UsableBar F)}
      → usable_at within bar.time bar ≡ found
      → AreUsed bars kept
      → AreUsed (bar ∷ bars) (maybe_bar found kept)
  maybe_bar-AreUsed bar none h a = skipped (λ b u. cc (h, IsUsed-usable_at bar b u)) a
  maybe_bar-AreUsed bar (some b) h a = used (usable_at-IsUsed bar _ _ _ _ b refl refl refl refl h) a

  pub usable_bars-AreUsed : (bars : List (Bar F)) → AreUsed bars (usable_bars within bars)
  usable_bars-AreUsed [] = all_used
  usable_bars-AreUsed (bar ∷ bars) = maybe_bar-AreUsed bar _ refl (usable_bars-AreUsed bars)
