-- ===== src/Risk/State.antt =====
-- The counters of `RiskManager`: losses of the day, the operator's reset markers, the peak balance
-- and the time of the last loss. `now` is what `datetime.now(timezone.utc)` returned in the call.
use llm_trade.Prelude.{
  ℕ, ◌+◌, Bool, true, false, not, ◌&&◌, Option, none, some, if◌then◌else◌, ◌==◌, leb, ltb,
}
use llm_trade.Float.{Float, nought, gt, ge}
use llm_trade.Settings.{Settings}
use llm_trade.Account.{Account}
use llm_trade.Budget.{daily_loss_limit}
use llm_trade.Risk.Trade.{Stamp, parse_utc_datetime, is_loss, day_of, microseconds_per_minute}

pub record State (F : Type 0) : Type 0 where
  pub daily_loss_usd : F
  pub daily_reset_date : Option ℕ
  pub daily_loss_reset_after : Option ℕ
  pub loss_cooldown_reset_after : Option ℕ
  pub loss_streak_reset_after : Option ℕ
  pub peak_balance : F
  pub last_loss_time : Option ℕ

abbrev pub is_day : Option ℕ → ℕ → Bool
is_day none day = false
is_day (some d) day = d == day

-- `marker is None or t > marker`
abbrev pub is_after : Option ℕ → ℕ → Bool
is_after none t = true
is_after (some m) t = ltb m t

-- `max(parsed, current) if current is not None else parsed`
abbrev pub later_of : ℕ → Option ℕ → ℕ
later_of t none = t
later_of t (some m) = if ltb t m then m else t

-- `reset_at or datetime.now(timezone.utc)`
abbrev pub or_now : Option ℕ → ℕ → ℕ
or_now none now = now
or_now (some t) now = t

-- `None` where the last loss is not later than the marker
abbrev forget_until : ℕ → Option ℕ → Option ℕ
forget_until t none = none
forget_until t (some last) = if leb last t then none else some last

module _ {F : Type 0} ⦃fl : Float F⦄ where
  -- `_reset_daily_state`, which is also `reset_for_account`
  unfoldable pub fresh_state : State F
  fresh_state = record {
    daily_loss_usd = nought;
    daily_reset_date = none;
    daily_loss_reset_after = none;
    loss_cooldown_reset_after = none;
    loss_streak_reset_after = none;
    peak_balance = nought;
    last_loss_time = none;
  }

  unfoldable pub maybe_reset_daily : ℕ → State F → State F
  maybe_reset_daily now s = if is_day s.daily_reset_date (day_of now) then s else record s {
    daily_loss_usd = nought;
    daily_reset_date = some (day_of now);
    daily_loss_reset_after = none;
    loss_cooldown_reset_after = none;
  }

  abbrev set_daily_reset : ℕ → State F → State F
  set_daily_reset t s = record s {
    daily_loss_reset_after = some t;
    loss_cooldown_reset_after = some t;
    daily_loss_usd = nought;
    last_loss_time = none;
  }

  -- Sets the marker, if the time parses and lies on the day of `now`.
  abbrev restore_on_day : (ℕ → State F → State F) → ℕ → Option ℕ → State F → Bool × State F
  restore_on_day change now none s = (false, s)
  restore_on_day change now (some t) s =
      if day_of t == day_of now then (true, change t s) else (false, s)

  unfoldable pub restore_daily_loss_reset : ℕ → Stamp → State F → Bool × State F
  unfolding maybe_reset_daily
  restore_daily_loss_reset now reset_at s =
      restore_on_day set_daily_reset now (parse_utc_datetime reset_at) (maybe_reset_daily now s)

  abbrev set_cooldown_reset : ℕ → State F → State F
  set_cooldown_reset t s =
      let effective = later_of t s.loss_cooldown_reset_after in
      record s {
        loss_cooldown_reset_after = some effective;
        last_loss_time = forget_until effective s.last_loss_time;
      }

  unfoldable pub restore_loss_cooldown_reset : ℕ → Stamp → State F → Bool × State F
  unfolding maybe_reset_daily
  restore_loss_cooldown_reset now reset_at s =
      restore_on_day set_cooldown_reset now (parse_utc_datetime reset_at) (maybe_reset_daily now s)

  unfoldable pub reset_loss_cooldown : ℕ → Option ℕ → State F → ℕ × State F
  unfolding maybe_reset_daily
  reset_loss_cooldown now reset_at s =
      let marker = or_now reset_at now in
      let s' = maybe_reset_daily marker s in
      (marker, record s' { loss_cooldown_reset_after = some marker; last_loss_time = none })

  -- A marker more than a minute ahead of the clock is refused.
  abbrev restore_streak : ℕ → Option ℕ → State F → Bool × State F
  restore_streak now none s = (false, s)
  restore_streak now (some t) s =
      if ltb (now + microseconds_per_minute) t
      then (false, s)
      else (true, record s { loss_streak_reset_after = some t })

  unfoldable pub restore_losing_streak_reset : ℕ → Stamp → State F → Bool × State F
  restore_losing_streak_reset now reset_at = restore_streak now (parse_utc_datetime reset_at)

  unfoldable pub reset_losing_streak : ℕ → Option ℕ → State F → ℕ × State F
  reset_losing_streak now reset_at s =
      let marker = or_now reset_at now in
      (marker, record s { loss_streak_reset_after = some marker })

  unfoldable pub reset_daily_loss_for_today : ℕ → Option ℕ → State F → ℕ × State F
  unfolding maybe_reset_daily
  reset_daily_loss_for_today now reset_at s =
      let marker = or_now reset_at now in
      (marker, set_daily_reset marker (maybe_reset_daily marker s))

  unfoldable pub update_peak_balance : F → State F → State F
  update_peak_balance balance s =
      if gt balance s.peak_balance then record s { peak_balance = balance } else s

  abbrev record_loss : ℕ → F → State F → State F
  record_loss now profit s =
      if is_loss profit
      then record s {
        daily_loss_usd = fl.add s.daily_loss_usd (fl.abs profit);
        last_loss_time = some now;
      }
      else s

  unfoldable pub record_trade_closed : ℕ → F → F → Bool → State F → State F
  unfolding update_peak_balance
  record_trade_closed now profit balance strategy_owned s =
      if not strategy_owned then s else update_peak_balance balance (record_loss now profit s)

  -- The first part of the result; the text that goes with it is left out.
  unfoldable pub daily_loss_status : ℕ → Account F → Settings F → State F → Bool × State F
  unfolding maybe_reset_daily
  daily_loss_status now account config s =
      let s' = maybe_reset_daily now s in
      let limit = daily_loss_limit account config in
      (not (fl.le limit nought) && not (ge s'.daily_loss_usd limit), s')
