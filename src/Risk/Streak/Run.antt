-- ===== src/Risk/Streak/Run.antt =====
-- The streak is the run of losses at the head of the counted trades, newest first, until the
-- penalty window has passed.
use mathlib.Core.List.{Perm}
use llm_trade.Prelude.{
  ℕ, suc, ◌≡◌, refl, inl, inr, Bool, true, false, Option, some, List, [], ◌∷◌, ◌++◌, arith, length,
  All, Bool-cases, ap, ◌&&◌,
}
use llm_trade.Float.{Float}
use llm_trade.Settings.{Settings}
use llm_trade.Risk.Trade.{Trade, profit_of, is_loss, parse_utc_datetime, get_or_stamp}
use llm_trade.Risk.Streak.{
  Closed, is_newer, closed_trades, insert_newest, newest_first, count_losses, is_expired,
  effective_losing_streak, before_reset,
}
use llm_trade.Risk.Streak.Order.{
  IsNewestFirst, newest_first-perm, newest_first-IsNewestFirst, All-newest_first,
}

and_false : (b : Bool) → (b && false) ≡ false
and_false true = refl
and_false false = refl

module _ {F : Type 0} ⦃fl : Float F⦄ where
  abbrev trade_time : Trade F → Option ℕ
  trade_time trade = parse_utc_datetime (get_or_stamp trade.close_time trade.time)

  abbrev starts_with_loss : List (Closed F) → Bool
  starts_with_loss [] = false
  starts_with_loss (x ∷ xs) = is_loss x.profit

  -- `n` losses stand at the head, and no more.
  pub record IsLosingRun (ordered : List (Closed F)) (n : ℕ) : Type 0 where
    pub losses : List (Closed F)
    pub rest : List (Closed F)
    pub split : ordered ≡ losses ++ rest
    pub count : length losses ≡ n
    pub losing : All (λ x. is_loss x.profit ≡ true) losses
    pub maximal : starts_with_loss rest ≡ false

  -- The streak of a list of counted trades, with no word on how it is computed.
  pub record IsStreak (config : Settings F) (now : ℕ) (counted : List (Closed F)) (n : ℕ)
      : Type 0 where
    pub ordered : List (Closed F)
    pub same_trades : Perm ordered counted
    pub newest : IsNewestFirst ordered
    pub expired : is_expired config now ordered ≡ true → n ≡ 0
    pub current : is_expired config now ordered ≡ false → IsLosingRun ordered n

  count_losses-IsLosingRun : (xs : List (Closed F)) → IsLosingRun xs (count_losses xs)
  unfolding count_losses
  count_losses-IsLosingRun [] = record {
    losses = [];
    rest = [];
    split = refl;
    count = refl;
    losing = tt;
    maximal = refl;
  }
  count_losses-IsLosingRun (x ∷ xs) = elim (Bool-cases (is_loss x.profit)) [
    | inl lost ↦
        let run = count_losses-IsLosingRun xs in
        rw lost record {
          losses = x ∷ run.losses;
          rest = run.rest;
          split = ap (λ l. x ∷ l) run.split;
          count = ap suc run.count;
          losing = (lost, run.losing);
          maximal = run.maximal;
        }
    | inr kept ↦ rw kept record {
      losses = [];
      rest = x ∷ xs;
      split = refl;
      count = refl;
      losing = tt;
      maximal = kept;
    }
  ]

  -- The streak is the number of losses before the first trade that is none, in an order of the
  -- counted trades from the newest to the oldest; it is zero once the window after the newest of
  -- them has passed.
  pub effective_losing_streak-IsStreak :
      (config : Settings F) (history : List (Trade F)) (now : ℕ) (reset : Option ℕ)
      → IsStreak config now
          (closed_trades reset history)
          (effective_losing_streak config history now reset)
  unfolding effective_losing_streak
  effective_losing_streak-IsStreak config history now reset =
      let ordered = newest_first (closed_trades reset history) in
      let run = count_losses-IsLosingRun ordered in
      record {
        ordered = ordered;
        same_trades = newest_first-perm (closed_trades reset history);
        newest = newest_first-IsNewestFirst (closed_trades reset history);
        expired = λ e. rw e (ground arith);
        current = λ e. rw (e, and_false _) run;
      }

  -- What an operator's reset leaves out: undated trades, and those closed by then.
  abbrev IsBeforeReset : ℕ → Trade F → Type 0
  IsBeforeReset reset trade = before_reset (some reset) (trade_time trade) ≡ true

  closed_trades-reset :
      (reset : ℕ) (history : List (Trade F))
      → All (IsBeforeReset reset) history
      → closed_trades (some reset) history ≡ []
  unfolding closed_trades
  closed_trades-reset reset [] a = refl
  closed_trades-reset reset (trade ∷ history) (b, a) =
      ground (arith, closed_trades-reset reset history a)

  -- After an operator's reset the streak is zero until a trade closes later than the reset.
  pub effective_losing_streak-reset :
      (config : Settings F) (history : List (Trade F)) (now reset : ℕ)
      → All (IsBeforeReset reset) history
      → effective_losing_streak config history now (some reset) ≡ 0
  unfolding effective_losing_streak
  effective_losing_streak-reset config history now reset a =
      rw (closed_trades-reset reset history a) refl

  -- A counted trade that is no loss.
  pub record IsCountedWin (reset : Option ℕ) (trade : Trade F) : Type 0 where
    pub pnl : F
    pub is_profit : profit_of trade ≡ some pnl
    pub finite : fl.is_finite pnl ≡ true
    pub kept : is_loss pnl ≡ false
    pub closed : trade.status_closed ≡ true
    pub after : before_reset reset (trade_time trade) ≡ false

  count-insert_newest :
      (x : Closed F) (ys : List (Closed F))
      → is_loss x.profit ≡ false
      → All (λ y. is_newer y.closed_at x.closed_at ≡ false) ys
      → count_losses (insert_newest x ys) ≡ 0
  unfolding count_losses insert_newest
  count-insert_newest x [] w a = rw w
  count-insert_newest x (y ∷ ys) w (o, a) = rw o (rw w)

  -- A winning or flat trade that no counted trade is newer than ends the streak, whatever the rest
  -- of the history holds.
  pub effective_losing_streak-win :
      (config : Settings F) (trade : Trade F) (history : List (Trade F)) (now : ℕ)
      (reset : Option ℕ)
      → IsCountedWin reset trade
      → All (λ y. is_newer y.closed_at (trade_time trade) ≡ false) (closed_trades reset history)
      → effective_losing_streak config (trade ∷ history) now reset ≡ 0
  unfolding effective_losing_streak closed_trades newest_first
  effective_losing_streak-win config trade history now reset w a =
      let rest = closed_trades reset history in
      let x : Closed F = record { closed_at = trade_time trade; profit = w.pnl } in
      let none_newer = All-newest_first (λ y. is_newer y.closed_at x.closed_at ≡ false) rest a in
      rw (w.closed, w.is_profit, w.finite, w.after)
        (rw (count-insert_newest x (newest_first rest) w.kept none_newer) refl)
