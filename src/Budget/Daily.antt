-- ===== src/Budget/Daily.antt =====
-- The budget falls as the losses of the day grow.
use llm_trade.Prelude.{◌≡◌, Bool, true, false, Option, arith, if◌then◌else◌}
use llm_trade.Float.{
  Float, nought, ◌≼◌, min, IsOrdered, IsMonotone, min_mono, max_mono, le-max-left, le_of_lt,
}
use llm_trade.Account.{Account}
use llm_trade.Settings.{Settings}
use llm_trade.Budget.{
  is_nonneg, percent_of, risk_capital, daily_loss_limit, usable_budget, with_close_limit,
  remaining_daily, chosen_percent, entry_refused, entry_risk_budget,
}

module _ {F : Type 0} ⦃fl : Float F⦄ (laws : IsOrdered F) (mono : IsMonotone F) where
  open laws use {number_of_finite, number_of_lt, le_trans, refl_of_le, infinity_top, nought_finite}
  open mono use {sub_anti, finite_between}

  limit_number :
      (account : Account F) (config : Settings F)
      → daily_loss_limit account config ≼ daily_loss_limit account config
  unfolding daily_loss_limit
  limit_number account config =
      let dollar = config.max_daily_loss_usd in
      let share = percent_of (risk_capital account) config.max_daily_loss_pct in
      ground (
        arith,
        nought_finite,
        number_of_finite nought,
        number_of_lt nought dollar,
        number_of_lt nought share,
        infinity_top nought,
        refl_of_le nought fl.infinity,
      )

  remaining_anti :
      (account : Account F) (config : Settings F) (a b : F)
      → is_nonneg a ≡ true
      → is_nonneg b ≡ true
      → a ≼ b
      → remaining_daily account config b ≼ remaining_daily account config a
  remaining_anti account config a b ha hb ab =
      let zero_number = number_of_finite nought nought_finite in
      max_mono laws nought _ nought _ zero_number
        (sub_anti _ a b (limit_number account config) (ground arith) (ground arith) ab)

  usable_mono : (x y : F) → x ≼ y → fl.is_finite y ≡ true → usable_budget x ≼ usable_budget y
  usable_mono x y xy fy = ground (
    arith,
    nought_finite,
    number_of_finite nought,
    le_of_lt laws nought y,
    le_of_lt laws nought x,
    le_trans nought x y,
    refl_of_le x y,
    laws.lt-eq-not-le nought y,
    laws.lt-eq-not-le nought x,
    le_trans y nought x,
    le_trans x y nought,
  )

  close_mono :
      (config : Settings F) (x y : F)
      → x ≼ y
      → fl.is_finite y ≡ true
      → with_close_limit config x ≼ with_close_limit config y
  close_mono config x y xy fy =
      let dollar = config.auto_close_loss_usd in
      ground (
        arith,
        usable_mono x y xy fy,
        usable_mono (min x dollar) (min y dollar),
        min_mono laws x dollar y dollar xy,
        number_of_finite dollar,
        number_of_finite nought nought_finite,
      )

  -- The lesser of a finite share and of what is left is finite.
  lesser_finite :
      (share left : F)
      → fl.is_finite share ≡ true
      → nought ≼ left
      → fl.is_finite (min share left) ≡ true
  lesser_finite share left fs nl =
      ground (arith, finite_between left share nl, le_of_lt laws left share)

  nought-le-remaining :
      (account : Account F) (config : Settings F) (loss : F)
      → nought ≼ remaining_daily account config loss
  nought-le-remaining account config loss =
      le-max-left laws nought _ (number_of_finite nought nought_finite)

  -- Whether the inputs are refused does not depend on the loss, once it is finite and not negative.
  refused_same :
      (account : Account F) (percent a b : F)
      → is_nonneg a ≡ true
      → is_nonneg b ≡ true
      → entry_refused account percent a ≡ entry_refused account percent b
  unfolding entry_refused
  refused_same account percent a b ha hb = ground (
    arith,
    nought_finite,
    number_of_finite nought,
    number_of_finite a,
    number_of_finite b,
    laws.lt-eq-not-le a nought,
    laws.lt-eq-not-le b nought,
  )

  guarded_mono :
      (refused : Bool) (x y : F)
      → x ≼ y
      → (if refused then nought else x) ≼ (if refused then nought else y)
  guarded_mono true x y xy = number_of_finite nought nought_finite
  guarded_mono false x y xy = xy

  -- With the same account and settings a larger loss of the day never gives a larger budget, where
  -- both losses are finite and not negative and the percentage of the capital is finite.
  pub entry_risk_budget_anti :
      (account : Account F) (config : Settings F) (percent : Option F) (a b : F)
      → is_nonneg a ≡ true
      → is_nonneg b ≡ true
      → fl.is_finite (percent_of (risk_capital account) (chosen_percent config percent)) ≡ true
      → a ≼ b
      → entry_risk_budget account config percent b ≼ entry_risk_budget account config percent a
  unfolding entry_risk_budget
  entry_risk_budget_anti account config percent a b ha hb fs ab =
      let share = percent_of (risk_capital account) (chosen_percent config percent) in
      let left = remaining_daily account config in
      let shrinks =
        min_mono laws share (left b) share (left a) (number_of_finite share fs)
          (remaining_anti account config a b ha hb ab) in
      let ordered =
        close_mono config _ _ shrinks
          (lesser_finite share (left a) fs (nought-le-remaining account config a)) in
      rw (refused_same account (chosen_percent config percent) a b ha hb)
        (guarded_mono (entry_refused account (chosen_percent config percent) b) _ _ ordered)
