-- ===== src/Float/Order.antt =====
-- The operations of `float`, comparisons by Python's names, `min`, `max`, and the laws of the order.
use llm_trade.Prelude.{ℕ, ◌≡◌, Bool, true, false, not, ◌&&◌, ◌⊎◌, Option, arith, if◌then◌else◌}
use llm_trade.Prelude.Int.{ℤ, pos}

-- `dec m k` is the literal m * 10 ** -k; `floor` and `ceil` are those of `math`, which raise on NaN
-- and on an infinity (`none`); `round k` is `round(x, k)`; `of_int` is `float(n)`.
pub record Float (F : Type 0) : Type 0 where
  pub dec : ℕ → ℕ → F
  pub infinity : F
  pub add : F → F → F
  pub sub : F → F → F
  pub mul : F → F → F
  pub div : F → F → F
  pub neg : F → F
  pub abs : F → F
  pub lt : F → F → Bool
  pub le : F → F → Bool
  pub is_finite : F → Bool
  pub floor : F → Option ℤ
  pub ceil : F → Option ℤ
  pub round : ℕ → F → F
  pub of_int : ℤ → F

module _ {F : Type 0} ⦃fl : Float F⦄ where
  open fl use {dec, lt, le}

  abbrev pub nought : F
  nought = dec 0 0

  abbrev pub gt : F → F → Bool
  gt x y = lt y x

  abbrev pub ge : F → F → Bool
  ge x y = le y x

  -- `x == y`
  abbrev pub eq : F → F → Bool
  eq x y = le x y && le y x

  -- `max(x, y)` keeps its first argument unless the second is greater; so does `min`.
  abbrev pub max : F → F → F
  max x y = if lt x y then y else x

  abbrev pub min : F → F → F
  min x y = if lt y x then y else x

  infix 4 ◌≼◌
  abbrev pub ◌≼◌ : F → F → Type 0
  x ≼ y = le x y ≡ true

  -- A value that is not NaN.
  abbrev pub IsNumber : F → Type 0
  IsNumber x = x ≼ x

-- What IEEE comparisons promise: NaN is the value that is not `<=` itself, and every comparison
-- with it is false; away from it the order is total.
pub record IsOrdered (F : Type 0) ⦃fl : Float F⦄ : Type 0 where
  pub refl_of_le : (x y : F) → x ≼ y → (x ≼ x) × (y ≼ y)
  pub le_trans : (x y z : F) → x ≼ y → y ≼ z → x ≼ z
  pub le_total : (x y : F) → x ≼ x → y ≼ y → (x ≼ y) ⊎ (y ≼ x)
  pub lt-eq-not-le : (x y : F) → x ≼ x → y ≼ y → fl.lt x y ≡ not (fl.le y x)
  pub number_of_lt : (x y : F) → fl.lt x y ≡ true → (x ≼ x) × (y ≼ y)
  pub number_of_finite : (x : F) → fl.is_finite x ≡ true → x ≼ x
  pub nought_finite : fl.is_finite nought ≡ true
  pub infinity_top : (x : F) → x ≼ x → x ≼ fl.infinity

-- Correct rounding keeps the order of exact results, so a difference falls as more is taken away.
pub record IsMonotone (F : Type 0) ⦃fl : Float F⦄ : Type 0 where
  pub sub_anti :
      (z x y : F)
      → z ≼ z
      → fl.is_finite x ≡ true
      → fl.is_finite y ≡ true
      → x ≼ y
      → fl.sub z y ≼ fl.sub z x
  pub finite_between :
      (x y : F) → nought ≼ x → x ≼ y → fl.is_finite y ≡ true → fl.is_finite x ≡ true

-- Signs: an absolute value is not negative, adding what is not negative takes nothing away, a sum or
-- difference is finite only of finite values, and an integer that no float holds counts as infinite.
pub record IsSigned (F : Type 0) ⦃fl : Float F⦄ : Type 0 where
  pub abs_nonneg : (x : F) → x ≼ x → nought ≼ fl.abs x
  pub add_grows : (x y : F) → nought ≼ x → nought ≼ y → x ≼ fl.add x y
  pub sub_shrinks : (x y : F) → fl.is_finite (fl.sub x y) ≡ true → nought ≼ y → fl.sub x y ≼ x
  pub mul_nonneg :
      (x y : F)
      → fl.is_finite x ≡ true
      → fl.is_finite y ≡ true
      → nought ≼ x
      → nought ≼ y
      → nought ≼ fl.mul x y
  pub mul_nonneg_finite :
      (x y : F) → nought ≼ x → nought ≼ y → fl.is_finite (fl.mul x y) ≡ true → nought ≼ fl.mul x y
  pub add_finite : (x y : F) → fl.is_finite (fl.add x y) ≡ true → fl.is_finite y ≡ true
  pub sub_finite : (x y : F) → fl.is_finite (fl.sub x y) ≡ true → fl.is_finite y ≡ true
  pub of_int_nonneg : (n : ℕ) → nought ≼ fl.of_int (pos n)

module _ {F : Type 0} ⦃fl : Float F⦄ (laws : IsOrdered F) where
  open laws use {refl_of_le, le_trans, le_total, lt-eq-not-le, number_of_lt}

  pub le_of_lt : (x y : F) → fl.lt x y ≡ true → x ≼ y
  le_of_lt x y h =
      let n = number_of_lt x y h in ground (arith, lt-eq-not-le x y n.0 n.1, le_total x y n.0 n.1)

  pub not-le_of_lt : (x y : F) → fl.lt x y ≡ true → fl.le y x ≡ false
  not-le_of_lt x y h = let n = number_of_lt x y h in ground (arith, lt-eq-not-le x y n.0 n.1)

  pub le_of_not-lt : (x y : F) → x ≼ x → y ≼ y → fl.lt x y ≡ false → y ≼ x
  le_of_not-lt x y nx ny h = ground (arith, lt-eq-not-le x y nx ny)

  pub nought_not_lt : fl.lt nought nought ≡ false
  nought_not_lt =
      let n = laws.number_of_finite nought laws.nought_finite in
      ground (arith, lt-eq-not-le nought nought n n)

  pub min-le-left : (x y : F) → x ≼ x → min x y ≼ x
  min-le-left x y nx = ground (arith, le_of_lt y x)

  pub min-le-right : (x y : F) → x ≼ x → y ≼ y → min x y ≼ y
  min-le-right x y nx ny = ground (arith, le_of_not-lt y x ny nx)

  pub le-max-left : (x y : F) → x ≼ x → x ≼ max x y
  le-max-left x y nx = ground (arith, le_of_lt x y)

  pub le-max-right : (x y : F) → x ≼ x → y ≼ y → y ≼ max x y
  le-max-right x y nx ny = ground (arith, le_of_not-lt x y nx ny)

  pub min_mono : (x y u v : F) → x ≼ u → y ≼ v → min x y ≼ min u v
  min_mono x y u v p q =
      let (nx, nu) = refl_of_le x u p in
      let (ny, nv) = refl_of_le y v q in
      let l = le_trans _ _ _ (min-le-left x y nx) p in
      let r = le_trans _ _ _ (min-le-right x y nx ny) q in ground arith

  pub max_mono : (x y u v : F) → x ≼ u → y ≼ v → max x y ≼ max u v
  max_mono x y u v p q =
      let (nx, nu) = refl_of_le x u p in
      let (ny, nv) = refl_of_le y v q in
      let l = le_trans _ _ _ p (le-max-left u v nu) in
      let r = le_trans _ _ _ q (le-max-right u v nu nv) in ground arith
