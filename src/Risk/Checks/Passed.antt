-- ===== src/Risk/Checks/Passed.antt =====
-- What the gates guarantee when they pass.
use llm_trade.Prelude.{
  ℕ, suc, ◌+◌, ◌*◌, ◌≤◌, ◌≡◌, refl, true, false, Option, none, some, List, [], ◌∷◌, All, arith,
  Option-cases, inl, inr,
}
use llm_trade.Prelude.Int.{pos}
use llm_trade.Float.{Float, nought, ge}
use llm_trade.Cell.{Cell, number, required, or_default}
use llm_trade.Settings.{Settings}
use llm_trade.Account.{Account}
use llm_trade.Risk.Trade.{Trade, parse_utc_datetime, or_stamp, profit_of, microseconds_per_minute}
use llm_trade.Risk.State.{State, later_of}
use llm_trade.Risk.Reason.{Reason}
use llm_trade.Risk.Checks.{
  ◌also◌, loss_after, loss_time, later, latest_loss, cooling, check_loss_cooldown,
  check_margin_free, check_free_margin, usage_pct, check_usage, check_margin_usage,
}

pub also-none : (a b : Option Reason) → (a also b) ≡ none → (a ≡ none) × (b ≡ none)
also-none none b h = (refl, h)
also-none (some r) b h = cc

later-after : (t : ℕ) (o : Option ℕ) {last : ℕ} → later (some t) o ≡ some last → t ≤ last
later-after t none h = ground arith
later-after t (some m) h = ground arith

later-other : (o : Option ℕ) (m : ℕ) → (last : ℕ) × (later o (some m) ≡ some last) × (m ≤ last)
later-other none m = (m, refl, omega arith)
later-other (some t) m = (later_of t (some m), refl, ground arith)

cooling-none :
    (minutes now : ℕ) (o : Option ℕ) (last : ℕ)
    → cooling minutes now o ≡ none
    → o ≡ some last
    → last + minutes * microseconds_per_minute ≤ now
cooling-none minutes now none last h e = cc
cooling-none minutes now (some m) last h e = ground arith

module _ {F : Type 0} ⦃fl : Float F⦄ where
  open fl use {lt, le, is_finite}

  -- A loss of the history that counts, and when it was.
  abbrev pub IsLossAt : Option ℕ → Trade F → ℕ → Type 0
  IsLossAt marker trade t =
      (pnl : F) × (parse_utc_datetime (or_stamp trade.close_time trade.time) ≡ some t)
      × (profit_of trade ≡ some pnl)
      × (loss_after marker t pnl ≡ true)

  -- Every loss that counts has been over for the minutes.
  abbrev pub AreCooled : Option ℕ → ℕ → ℕ → List (Trade F) → Type 0
  AreCooled marker minutes now =
      All (λ trade. (t : ℕ) → IsLossAt marker trade t → t + minutes * microseconds_per_minute ≤ now)

  abbrev HasLater : Option ℕ → List (Trade F) → ℕ → Type 0
  HasLater marker trades t = (last : ℕ) × (latest_loss marker trades ≡ some last) × (t ≤ last)

  latest_loss-head :
      (marker : Option ℕ) (trade : Trade F) (trades : List (Trade F)) (t : ℕ)
      → IsLossAt marker trade t
      → HasLater marker (trade ∷ trades) t
  unfolding latest_loss
  latest_loss-head marker trade trades t (pnl, time, profit, counts) =
      elim (Option-cases (latest_loss marker trades)) [
        | inl empty ↦ rw (time, profit, counts, empty) (t, refl, omega arith)
        | inr (m, is) ↦ rw (time, profit, counts, is) (later_of t (some m), refl, ground arith)
      ]

  latest_loss-tail :
      (marker : Option ℕ) (trade : Trade F) (trades : List (Trade F)) (t : ℕ)
      → HasLater marker trades t
      → HasLater marker (trade ∷ trades) t
  unfolding latest_loss
  latest_loss-tail marker trade trades t (m, is, under) =
      let (last, l, n) =
        later-other
          (loss_time marker (parse_utc_datetime (or_stamp trade.close_time trade.time))
            (profit_of trade))
          m in
      (last, rw is l, omega (arith, under, n))

  All-HasLater :
      (marker : Option ℕ) (minutes now : ℕ) (trades : List (Trade F))
      → ((t : ℕ) → HasLater marker trades t → t + minutes * microseconds_per_minute ≤ now)
      → AreCooled marker minutes now trades
  All-HasLater marker minutes now [] f = tt
  All-HasLater marker minutes now (trade ∷ trades) f = (
    λ t l. f t (latest_loss-head marker trade trades t l),
    All-HasLater marker minutes now trades (λ t h. f t (latest_loss-tail marker trade trades t h)),
  )

  -- With a positive cooldown and a history, the cooldown gate passes only if every finite loss that
  -- closed after the operator's reset lies at least the cooldown back.
  pub check_loss_cooldown-AreCooled :
      (config : Settings F) (now minutes : ℕ) (s : State F) (history : List (Trade F))
      → config.loss_cooldown_minutes ≡ pos (suc minutes)
      → check_loss_cooldown config now s (some history) ≡ none
      → AreCooled s.loss_cooldown_reset_after (suc minutes) now history
  unfolding check_loss_cooldown
  check_loss_cooldown-AreCooled config now minutes s history positive h =
      All-HasLater s.loss_cooldown_reset_after (suc minutes) now history (λ t (last, is, under).
        omega (arith, under, cooling-none (suc minutes) now _ last (ground arith) is))

  -- The margins of an account are known and within the limits.
  pub record HasMargin (config : Settings F) (account : Account F) : Type 0 where
    pub free : F
    pub equity : F
    pub margin : F
    pub free_is : account.margin_free ≡ number free
    pub equity_is : account.equity ≡ number equity
    pub margin_is : or_default nought account.margin ≡ some margin
    pub finite : (is_finite free ≡ true) × (is_finite equity ≡ true) × (is_finite margin ≡ true)
    pub enough : lt free config.min_free_margin_usd ≡ false
    pub usage : ge (usage_pct margin equity) config.max_margin_usage_pct ≡ false

  required-number : (c : Cell F) {x : F} → required c ≡ some x → c ≡ number x
  required-number (Cell.number y) h = ground arith
  required-number Cell.absent h = cc
  required-number Cell.empty h = cc
  required-number Cell.invalid h = cc

  check_margin_free-none :
      (config : Settings F) (o : Option F)
      → check_margin_free config o ≡ none
      → (free : F) × (o ≡ some free)
        × (is_finite free ≡ true)
        × (lt free config.min_free_margin_usd ≡ false)
  check_margin_free-none config none h = cc
  check_margin_free-none config (some free) h = (free, refl, ground arith, ground arith)

  check_usage-none :
      (config : Settings F) (o p : Option F)
      → check_usage config o p ≡ none
      → (equity margin : F) × (o ≡ some equity)
        × (p ≡ some margin)
        × (is_finite equity ≡ true)
        × (is_finite margin ≡ true)
        × (ge (usage_pct margin equity) config.max_margin_usage_pct ≡ false)
  check_usage-none config (some e) (some m) h =
      (e, m, refl, refl, ground arith, ground arith, ground arith)
  check_usage-none config (some e) none h = cc
  check_usage-none config none p h = cc

  pub gates-HasMargin :
      (config : Settings F) (account : Account F)
      → check_free_margin config account ≡ none
      → check_margin_usage config account ≡ none
      → HasMargin config account
  unfolding check_free_margin check_margin_usage
  gates-HasMargin config account h k =
      let (free, is_free, finite, enough) = check_margin_free-none config _ h in
      let (equity, margin, e, m, fe, fm, usage) = check_usage-none config _ _ k in
      record {
        free = free;
        equity = equity;
        margin = margin;
        free_is = required-number account.margin_free is_free;
        equity_is = required-number account.equity e;
        margin_is = m;
        finite = (finite, fe, fm);
        enough = enough;
        usage = usage;
      }
