-- ===== src/Budget.antt =====
-- risk/budget.py: the capital that may be risked, the daily loss limit, and the budget of one entry.
-- The settings are floats already, so the conversions of them cannot raise.
pub mod Bounds
pub mod Daily
mod Tests
use llm_trade.Prelude.{Bool, true, false, not, ◌&&◌, ◌||◌, Option, none, some, if◌then◌else◌}
use llm_trade.Float.{Float, nought, gt, ge, min, max}
use llm_trade.Cell.{required}
use llm_trade.Account.{Account}
use llm_trade.Settings.{Settings}

module _ {F : Type 0} ⦃fl : Float F⦄ where
  open fl use {dec, infinity, sub, mul, div, le, lt, is_finite}

  -- `math.isfinite(v) and v > 0`
  abbrev pub is_positive : F → Bool
  is_positive v = is_finite v && gt v nought

  -- `math.isfinite(v) and v >= 0`
  abbrev pub is_nonneg : F → Bool
  is_nonneg v = is_finite v && ge v nought

  -- `x * percent / 100`
  abbrev pub percent_of : F → F → F
  percent_of x percent = div (mul x percent) (dec 100 0)

  -- `min(values)` if both are usable
  abbrev pub least_capital : Option F → Option F → F
  least_capital (some b) (some e) = if is_positive b && is_positive e then min b e else nought
  least_capital _ _ = nought

  unfoldable pub risk_capital : Account F → F
  risk_capital account = least_capital (required account.balance) (required account.equity)

  -- `min(limits) if limits else math.inf`, over the two limits that are above zero
  abbrev pub least_limit : F → F → F
  least_limit dollar share =
      if gt dollar nought
      then (if gt share nought then min dollar share else dollar)
      else if gt share nought
      then share
      else infinity

  unfoldable pub daily_loss_limit : Account F → Settings F → F
  daily_loss_limit account config =
      let capital = risk_capital account in
      let dollar = config.max_daily_loss_usd in
      let percent = config.max_daily_loss_pct in
      if le capital nought
      then nought
      else if not (is_nonneg dollar && is_nonneg percent)
      then nought
      else least_limit dollar (percent_of capital percent)

  -- `budget if math.isfinite(budget) and budget > 0 else 0.0`
  abbrev pub usable_budget : F → F
  usable_budget budget = if is_positive budget then budget else nought

  -- The dollar limit of an automatic close, when it is enabled.
  abbrev pub with_close_limit : Settings F → F → F
  with_close_limit config budget =
      let dollar = config.auto_close_loss_usd in
      if config.auto_close_loss_enabled
      then if not (is_finite dollar) || lt dollar nought
        then nought
        else usable_budget (if gt dollar nought then min budget dollar else budget)
      else usable_budget budget

  -- What is left of the daily limit.
  abbrev pub remaining_daily : Account F → Settings F → F → F
  remaining_daily account config loss = max nought (sub (daily_loss_limit account config) loss)

  abbrev pub chosen_percent : Settings F → Option F → F
  chosen_percent config none = config.risk_percent
  chosen_percent config (some percent) = percent

  -- The inputs that leave no budget at all.
  unfoldable pub entry_refused : Account F → F → F → Bool
  entry_refused account percent loss =
      le (risk_capital account) nought
      || not (is_finite percent)
      || le percent nought
      || not (is_finite loss)
      || lt loss nought

  unfoldable pub entry_risk_budget : Account F → Settings F → Option F → F → F
  entry_risk_budget account config risk_percent loss =
      let percent = chosen_percent config risk_percent in
      if entry_refused account percent loss
      then nought
      else with_close_limit config
          (min (percent_of (risk_capital account) percent) (remaining_daily account config loss))
