-- ===== src/Structure/Gaps.antt =====
-- Fair value gaps are real gaps of the candles that a scan covers.
use llm_trade.Prelude.{
  ◌≡◌, refl, true, List, [], ◌∷◌, ◌++◌, All, length, ◌-◌, ◌⊎◌, inl, inr, Bool-cases,
}
use llm_trade.Float.{Float, gt}
use llm_trade.Structure.{bullish, bearish, Candle, Gap, drop_first, gap_over, gaps, detect_fvgs}

module _ {F : Type 0} ⦃fl : Float F⦄ where
  open fl use {sub, lt}

  -- The gap lies strictly between the candles on its sides, its size is their distance, and the
  -- candle in the middle moved in its direction.
  pub record IsGap (first middle third : Candle F) (gap : Gap F) : Type 0 where
    pub real : lt gap.bottom gap.top ≡ true
    pub size : gap.gap_size ≡ sub gap.top gap.bottom
    pub at_middle : gap.time ≡ middle.time
    pub up :
        gap.direction ≡ bullish
        → (gap.bottom ≡ first.high)
          × (gap.top ≡ third.low)
          × (gt middle.close middle.open_price ≡ true)
    pub down :
        gap.direction ≡ bearish
        → (gap.bottom ≡ third.high)
          × (gap.top ≡ first.low)
          × (lt middle.close middle.open_price ≡ true)

  -- Three candles in a row of the list that a gap is over.
  abbrev pub HasGap : List (Candle F) → Gap F → Type 0
  HasGap [] gap = ⊥
  HasGap (a ∷ []) gap = ⊥
  HasGap (a ∷ b ∷ []) gap = ⊥
  HasGap (a ∷ b ∷ c ∷ cs) gap = IsGap a b c gap ⊎ HasGap (b ∷ c ∷ cs) gap

  gap_over-IsGap : (a b c : Candle F) → All (IsGap a b c) (gap_over a b c)
  gap_over-IsGap a b c = elim (Bool-cases (gt c.low a.high)) [
    | inl rises ↦ elim (Bool-cases (gt b.close b.open_price)) [
      | inl strong ↦
          rw (rises, strong)
            (
              record {
                real = rises;
                size = refl;
                at_middle = refl;
                up = λ e. (refl, refl, strong);
                down = λ e. cc;
              },
              tt,
            )
      | inr weak ↦ rw (rises, weak) tt
    ]
    | inr flat ↦ elim (Bool-cases (lt c.high a.low)) [
      | inl falls ↦ elim (Bool-cases (lt b.close b.open_price)) [
        | inl strong ↦
            rw (flat, falls, strong)
              (
                record {
                  real = falls;
                  size = refl;
                  at_middle = refl;
                  up = λ e. cc;
                  down = λ e. (refl, refl, strong);
                },
                tt,
              )
        | inr weak ↦ rw (flat, falls, weak) tt
      ]
      | inr still ↦ rw (flat, still) tt
    ]
  ]

  All-append : (P : Gap F → Type 0) (xs ys : List (Gap F)) → All P xs → All P ys → All P (xs ++ ys)
  All-append P [] ys f g = g
  All-append P (x ∷ xs) ys (p, f) g = (p, All-append P xs ys f g)

  All-weaken :
      (P Q : Gap F → Type 0) (xs : List (Gap F)) → ((x : Gap F) → P x → Q x) → All P xs → All Q xs
  All-weaken P Q [] f g = tt
  All-weaken P Q (x ∷ xs) f (p, g) = (f x p, All-weaken P Q xs f g)

  gaps-HasGap : (candles : List (Candle F)) → All (HasGap candles) (gaps candles)
  unfolding gaps
  gaps-HasGap [] = tt
  gaps-HasGap (a ∷ []) = tt
  gaps-HasGap (a ∷ b ∷ []) = tt
  gaps-HasGap (a ∷ b ∷ c ∷ cs) =
      All-append (HasGap (a ∷ b ∷ c ∷ cs)) (gap_over a b c) (gaps (b ∷ c ∷ cs))
        (All-weaken (IsGap a b c) (HasGap (a ∷ b ∷ c ∷ cs)) (gap_over a b c) (λ g p. inl p)
          (gap_over-IsGap a b c))
        (All-weaken (HasGap (b ∷ c ∷ cs)) (HasGap (a ∷ b ∷ c ∷ cs)) (gaps (b ∷ c ∷ cs))
          (λ g p. inr p) (gaps-HasGap (b ∷ c ∷ cs)))

  -- Every gap that is reported is over three candles in a row of the last seventeen: it lies strictly
  -- between the first and the third, has their distance as its size and the time of the middle one,
  -- and the middle one moved in its direction.
  pub detect_fvgs-HasGap :
      (candles : List (Candle F))
      → All (HasGap (drop_first (length candles - 17) candles)) (detect_fvgs candles)
  unfolding detect_fvgs
  detect_fvgs-HasGap candles = gaps-HasGap (drop_first (length candles - 17) candles)
