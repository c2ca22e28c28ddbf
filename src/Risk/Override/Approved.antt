-- ===== src/Risk/Override/Approved.antt =====
-- An approved override has passed every gate, and its order fits the budget and the margin.
use llm_trade.Prelude.{
  ℕ, ◌≡◌, refl, Bool, false, Option, none, some, List, length, any, arith, Bool-cases, inl, inr,
}
use llm_trade.Prelude.Int.{pos, leb_ℤ}
use llm_trade.Float.{Float, nought, ge, IsOrdered, IsSigned}
use llm_trade.Settings.{Settings}
use llm_trade.Account.{Account}
use llm_trade.Text.{Text}
use llm_trade.Budget.{daily_loss_limit}
use llm_trade.Risk.Trade.{Trade, Side}
use llm_trade.Risk.State.{State}
use llm_trade.Risk.Reason.{Reason}
use llm_trade.Risk.Sizing.{Decision, Sizing, SizingResult, sized, refused, crashed, stuck}
use llm_trade.Risk.Sizing.Sized.{IsSized, compute_lot_size-IsSized}
use llm_trade.Risk.Checks.{
  Position, is_duplicate, check_spread, check_max_positions, check_duplicate, check_daily_loss,
  check_drawdown, check_free_margin, check_margin_level, check_margin_usage,
}
use llm_trade.Risk.Checks.Passed.{also-none, HasMargin, gates-HasMargin}
use llm_trade.Risk.Exposure.{check_portfolio_risk, check_margin_for_lot}
use llm_trade.Risk.Exposure.Bounded.{
  IsBounded, HasCover, check_portfolio_risk-IsBounded, check_margin_for_lot-HasCover,
}
use llm_trade.Risk.Override.{
  Moments, Validation, approved, gates, manual_options, decide, confirm, after_gates,
  validate_manual_override,
}

module _ {F : Type 0} ⦃fl : Float F⦄ (config : Settings F) (moments : Moments F) (symbol : Text)
    (now : ℕ) (s : State F) (account : Account F) (has_snapshot : Bool) (decision : Decision F)
    (positions : List (Position F)) (history : List (Trade F)) where
  open fl use {dec, add, lt, le}

  -- The state of the account and of the market before sizing.
  pub record IsOpen (side : Side) : Type 0 where
    pub quoted : check_spread config moments.at_spread symbol has_snapshot decision ≡ none
    pub room : leb_ℤ config.max_open_positions (pos (length positions)) ≡ false
    pub fresh : any (is_duplicate symbol (some side)) positions ≡ false
    pub limited : le (daily_loss_limit account config) nought ≡ false
    pub below_limit : ge s.daily_loss_usd (daily_loss_limit account config) ≡ false
    pub undrawn : check_drawdown config s account ≡ none
    pub level : check_margin_level config account ≡ none
    pub margin : HasMargin config account

  pub record IsApproved (side : Side) (lot : F) (sizing : Sizing F) : Type 0 where
    pub open_account : IsOpen side
    pub within :
        IsSized config moments.at_sizing symbol s account decision
          (manual_options config moments symbol)
          lot
          sizing
    pub rewarding : lt (add sizing.rr (dec 1 9)) config.min_risk_reward_ratio ≡ false
    pub bounded : IsBounded config moments.at_portfolio s account positions sizing.risk_usd
    pub covered : HasCover config moments.at_margin account lot symbol (some side)

  record ArePassed (side : Side) : Type 0 where
    at_spread : check_spread config moments.at_spread symbol has_snapshot decision ≡ none
    at_room : check_max_positions config positions ≡ none
    at_duplicate : check_duplicate symbol (some side) positions ≡ none
    at_daily : check_daily_loss config s account ≡ none
    at_drawdown : check_drawdown config s account ≡ none
    at_free : check_free_margin config account ≡ none
    at_level : check_margin_level config account ≡ none
    at_usage : check_margin_usage config account ≡ none

  gates-ArePassed :
      (side : Side)
      → gates config moments symbol s account has_snapshot decision positions (some side) ≡ none
      → ArePassed side
  gates-ArePassed side h =
      let (h0, h1) =
        also-none (check_spread config moments.at_spread symbol has_snapshot decision) _ h in
      let (room, h2) = also-none (check_max_positions config positions) _ h1 in
      let (fresh, h3) = also-none (check_duplicate symbol (some side) positions) _ h2 in
      let (daily, h4) = also-none (check_daily_loss config s account) _ h3 in
      let (drawn, h5) = also-none (check_drawdown config s account) _ h4 in
      let (free, h6) = also-none (check_free_margin config account) _ h5 in
      let (level, usage) = also-none (check_margin_level config account) _ h6 in
      record {
        at_spread = h0;
        at_room = room;
        at_duplicate = fresh;
        at_daily = daily;
        at_drawdown = drawn;
        at_free = free;
        at_level = level;
        at_usage = usage;
      }

  room_left :
      check_max_positions config positions ≡ none
      → leb_ℤ config.max_open_positions (pos (length positions)) ≡ false
  unfolding check_max_positions
  room_left h = ground arith

  none_duplicate :
      (side : Side)
      → check_duplicate symbol (some side) positions ≡ none
      → any (is_duplicate symbol (some side)) positions ≡ false
  unfolding check_duplicate
  none_duplicate side h = ground arith

  loss_below :
      check_daily_loss config s account ≡ none
      → (le (daily_loss_limit account config) nought ≡ false)
        × (ge s.daily_loss_usd (daily_loss_limit account config) ≡ false)
  unfolding check_daily_loss
  loss_below h = ground arith

  gates-IsOpen : (side : Side) → ArePassed side → IsOpen side
  gates-IsOpen side p = record {
    quoted = p.at_spread;
    room = room_left p.at_room;
    fresh = none_duplicate side p.at_duplicate;
    limited = (loss_below p.at_daily).0;
    below_limit = (loss_below p.at_daily).1;
    undrawn = p.at_drawdown;
    level = p.at_level;
    margin = gates-HasMargin config account p.at_free p.at_usage;
  }

  decide-approved :
      (l : F) (z : Sizing F) (o : Option Reason) {lot : F} {sizing : Sizing F}
      → decide config moments symbol l z o ≡ approved lot sizing
      → (o ≡ none) × (l ≡ lot) × (z ≡ sizing)
  decide-approved l z none h = (refl, ground arith, ground arith)
  decide-approved l z (some reason) h = cc

  -- The sizing and the gates after it, behind an approval.
  record IsConfirmed (side : Side) (lot : F) (sizing : Sizing F) (r : SizingResult F) : Type 0 where
    result : r ≡ sized lot sizing
    ratio : lt (add sizing.rr (dec 1 9)) config.min_risk_reward_ratio ≡ false
    portfolio :
        check_portfolio_risk config moments.at_portfolio s account positions sizing.risk_usd ≡ none
    margin : check_margin_for_lot config moments.at_margin account lot symbol (some side) ≡ none

  confirm-IsConfirmed :
      (side : Side) (r : SizingResult F) {lot : F} {sizing : Sizing F}
      → confirm config moments symbol s account positions (some side) r ≡ approved lot sizing
      → IsConfirmed side lot sizing r
  confirm-IsConfirmed side (refused reason) h = cc
  confirm-IsConfirmed side crashed h = cc
  confirm-IsConfirmed side stuck h = cc
  confirm-IsConfirmed side (sized l z) {lot = lot} {sizing = sizing} h =
      elim (Bool-cases (lt (add z.rr (dec 1 9)) config.min_risk_reward_ratio)) [
        | inl poor ↦ ground arith
        | inr good ↦
            let (passed, same_lot, same) =
              decide-approved l z _ {lot = lot} {sizing = sizing} (ground arith) in
            let (portfolio, margin) = also-none _ _ passed in
            record {
              result = rw (same_lot, same) refl;
              ratio = rw (← same) good;
              portfolio = rw (← same) portfolio;
              margin = rw (← same_lot) margin;
            }
      ]

  after_gates-approved :
      (o : Option Reason) (next : Validation F) {lot : F} {sizing : Sizing F}
      → after_gates config moments symbol o next ≡ approved lot sizing
      → (o ≡ none) × (next ≡ approved lot sizing)
  after_gates-approved none next h = (refl, h)
  after_gates-approved (some reason) next h = cc

  -- An override is approved only for a side, if the spread gate passed, there is room for a position
  -- and none of the symbol and side is open, the loss of the day is below a positive limit, and the
  -- drawdown, the margin level, the free margin and the margin usage are within their limits; and
  -- then its volume is sized within the entry's budget, its ratio plus 1e-9 is not below the
  -- minimum, all stops together are within the portfolio's and the day's limits, and the free margin
  -- covers the margin of the volume.
  pub validate_manual_override-IsApproved :
      (laws : IsOrdered F) (signs : IsSigned F) (action : Option Side) {lot : F} {sizing : Sizing F}
      → validate_manual_override config moments symbol now s account has_snapshot decision positions
          history action
        ≡ approved lot sizing
      → (side : Side) × (action ≡ some side) × IsApproved side lot sizing
  unfolding validate_manual_override
  validate_manual_override-IsApproved laws signs none h = cc
  validate_manual_override-IsApproved laws signs (some side) h =
      let (passed, next) = after_gates-approved _ _ h in
      let c = confirm-IsConfirmed side _ next in
      (
        side,
        refl,
        record {
          open_account = gates-IsOpen side (gates-ArePassed side passed);
          within =
              compute_lot_size-IsSized laws config moments.at_sizing symbol now s account decision
                history (manual_options config moments symbol) c.result;
          rewarding = c.ratio;
          bounded =
              check_portfolio_risk-IsBounded laws signs config moments.at_portfolio s account
                positions _ c.portfolio;
          covered =
              check_margin_for_lot-HasCover config moments.at_margin account _ symbol _ c.margin;
        },
      )
