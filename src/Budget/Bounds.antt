-- ===== src/Budget/Bounds.antt =====
-- The budget of an entry never exceeds any of the limits that it combines.
use llm_trade.Prelude.{◌≡◌, refl, true, ◌⊎◌, inl, inr, Option, arith, ◌&&◌, Bool-cases}
use llm_trade.Float.{
  Float, nought, gt, ◌≼◌, min, IsOrdered, min-le-left, min-le-right, nought_not_lt, le_of_lt,
  le_of_not-lt,
}
use llm_trade.Cell.{Cell, number, required}
use llm_trade.Account.{Account}
use llm_trade.Settings.{Settings}
use llm_trade.Budget.{
  is_positive, percent_of, least_capital, risk_capital, least_limit, daily_loss_limit,
  with_close_limit, remaining_daily, chosen_percent, entry_refused, entry_risk_budget,
}

module _ {F : Type 0} ⦃fl : Float F⦄ where
  -- Both fields are present and positive, and the capital is not above either.
  pub record IsBacked (balance equity : Cell F) (capital : F) : Type 0 where
    pub b : F
    pub e : F
    pub balance_is : balance ≡ number b
    pub equity_is : equity ≡ number e
    pub positive : (is_positive b ≡ true) × (is_positive e ≡ true)
    pub above : gt capital nought ≡ true
    pub within : (capital ≼ b) × (capital ≼ e)

  -- A positive limit is not above any positive limit of the configuration.
  pub record IsDailyCap (dollar share limit : F) : Type 0 where
    pub under_dollar : gt dollar nought ≡ true → limit ≼ dollar
    pub under_share : gt share nought ≡ true → limit ≼ share

  -- What a usable budget promises.
  pub record IsEntryCap (account : Account F) (config : Settings F) (percent loss budget : F)
      : Type 0 where
    pub usable : is_positive budget ≡ true
    pub under_percent : budget ≼ percent_of (risk_capital account) percent
    pub under_daily : budget ≼ remaining_daily account config loss
    pub under_close :
        config.auto_close_loss_enabled ≡ true
        → gt config.auto_close_loss_usd nought ≡ true
        → budget ≼ config.auto_close_loss_usd

module _ {F : Type 0} ⦃fl : Float F⦄ (laws : IsOrdered F) where
  open laws use {number_of_finite, number_of_lt, le_trans, refl_of_le, infinity_top, nought_finite}

  least_capital-IsBacked :
      (x y : Cell F)
      → (least_capital (required x) (required y) ≡ nought)
        ⊎ IsBacked x y (least_capital (required x) (required y))
  least_capital-IsBacked (number b) (number e) =
      elim (Bool-cases (is_positive b && is_positive e)) [
        | inl good ↦ inr (
            rw good record {
              b = b;
              e = e;
              balance_is = refl;
              equity_is = refl;
              positive = ground arith;
              above = ground arith;
              within = ground (
                arith,
                min-le-left laws b e,
                min-le-right laws b e,
                number_of_finite b,
                number_of_finite e,
              );
            })
        | inr bad ↦ inl (rw bad)
      ]
  least_capital-IsBacked (number b) _ = inl refl
  least_capital-IsBacked _ y = inl refl

  -- The capital is nothing, or both the balance and the equity are known, finite and positive, and
  -- it is positive and exceeds neither of them.
  pub risk_capital_bounds :
      (account : Account F)
      → (risk_capital account ≡ nought)
        ⊎ IsBacked account.balance account.equity (risk_capital account)
  unfolding risk_capital
  risk_capital_bounds account = least_capital-IsBacked account.balance account.equity

  least_limit-IsDailyCap : (dollar share : F) → IsDailyCap dollar share (least_limit dollar share)
  least_limit-IsDailyCap dollar share = ground (
    arith,
    min-le-left laws dollar share,
    min-le-right laws dollar share,
    number_of_lt nought dollar,
    number_of_lt nought share,
  )

  -- A positive daily limit is at most the dollar limit and at most the percentage of the capital,
  -- each where it is set above zero.
  pub daily_loss_limit_bounds :
      (account : Account F) (config : Settings F)
      → gt (daily_loss_limit account config) nought ≡ true
      → IsDailyCap config.max_daily_loss_usd
          (percent_of (risk_capital account) config.max_daily_loss_pct)
          (daily_loss_limit account config)
  unfolding daily_loss_limit
  daily_loss_limit_bounds account config h =
      let dollar = config.max_daily_loss_usd in
      let share = percent_of (risk_capital account) config.max_daily_loss_pct in
      ground (arith, nought_not_lt laws, least_limit-IsDailyCap dollar share)

  abbrev IsCloseCap : Settings F → F → Type 0
  IsCloseCap config budget =
      config.auto_close_loss_enabled ≡ true
      → gt config.auto_close_loss_usd nought ≡ true
      → budget ≼ config.auto_close_loss_usd

  close_limit_cap :
      (config : Settings F) (budget : F)
      → (with_close_limit config budget ≡ nought)
        ⊎ ((is_positive (with_close_limit config budget) ≡ true)
            × (with_close_limit config budget ≼ budget)
            × IsCloseCap config (with_close_limit config budget))
  close_limit_cap config budget =
      let dollar = config.auto_close_loss_usd in
      ground (
        arith,
        le_of_lt laws dollar budget,
        le_of_not-lt laws dollar budget,
        number_of_finite dollar,
        number_of_finite budget,
      )

  -- What is left of the day is a number, even if the limit minus the loss is not.
  remaining_number :
      (account : Account F) (config : Settings F) (loss : F)
      → remaining_daily account config loss ≼ remaining_daily account config loss
  remaining_number account config loss = ground (
    arith,
    nought_finite,
    number_of_finite nought,
    number_of_lt nought (fl.sub (daily_loss_limit account config) loss),
  )

  min_cap : (x y : F) → y ≼ y → min x y ≼ min x y → (min x y ≼ x) × (min x y ≼ y)
  min_cap x y ny n = ground (arith, le_of_lt laws y x, le_of_not-lt laws y x ny)

  with_close_limit-IsEntryCap :
      (account : Account F) (config : Settings F) (percent loss : F)
      → let budget =
          with_close_limit config (
            min
              (percent_of (risk_capital account) percent)
              (remaining_daily account config loss)) in
        (budget ≡ nought) ⊎ IsEntryCap account config percent loss budget
  with_close_limit-IsEntryCap account config percent loss =
      let share = percent_of (risk_capital account) percent in
      let left = remaining_daily account config loss in
      elim (close_limit_cap config (min share left)) [
        | inl refused ↦ inl refused
        | inr (usable, under, close) ↦
            let caps =
              min_cap share left (remaining_number account config loss) (refl_of_le _ _ under).1 in
            inr record {
              usable = usable;
              under_percent = le_trans _ _ _ under caps.0;
              under_daily = le_trans _ _ _ under caps.1;
              under_close = close;
            }
      ]

  -- A budget is nothing, or it is finite and positive and at most each of the percentage of the
  -- capital, what is left of the daily limit and, if it is enabled and positive, the dollar limit.
  pub entry_risk_budget_bounds :
      (account : Account F) (config : Settings F) (percent : Option F) (loss : F)
      → (entry_risk_budget account config percent loss ≡ nought)
        ⊎ IsEntryCap account config
            (chosen_percent config percent)
            loss
            (entry_risk_budget account config percent loss)
  unfolding entry_risk_budget
  entry_risk_budget_bounds account config percent loss =
      elim (Bool-cases (entry_refused account (chosen_percent config percent) loss)) [
        | inl refused ↦ inl (rw refused)
        | inr taken ↦
            rw taken
              (with_close_limit-IsEntryCap account config (chosen_percent config percent) loss)
      ]
