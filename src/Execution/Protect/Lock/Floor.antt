-- ===== src/Execution/Protect/Lock/Floor.antt =====
-- What holds of a stop that locks a profit.
use llm_trade.Prelude.{
  ℕ, zero, suc, ◌<◌, ◌≡◌, refl, sym, subst, ◌≤◌, true, false, not, ◌||◌, Option, none, some, List,
  [], ◌∷◌, arith, ◌⊎◌, inl, inr, Bool-cases,
}
use llm_trade.Float.{Float, nought, max}
use llm_trade.Settings.{Settings}
use llm_trade.Instruments.{SymbolInfo, Tick}
use llm_trade.Instruments.Spread.{or_nought, pip_size}
use llm_trade.Costs.{configured_execution_cost_usd}
use llm_trade.Execution.{ExecError, OpenPosition}
use llm_trade.Execution.ModifyResult.{or_else_float}
use llm_trade.Execution.Gates.{entry_of, normalize_price}
use llm_trade.Execution.Close.{opposite}
use llm_trade.Execution.Protect.{
  ProtectMoments, Levels, LockStep, step_failed, step_reached, step_next, beyond, has_worse,
}
use llm_trade.Execution.Protect.Better.{IsBetter, has_worse-IsBetter}
use llm_trade.Execution.Protect.Lock.{
  is_unreached, is_too_close, check_lock, follow, step_of, projected_at, search_lock, check_found,
  search_from, lock_priced, lock_with, lock_costed, lock_quoted, lock_position, choose_lock,
  next_lock, lock_rounding,
}

module _ {F : Type 0} ⦃fl : Float F⦄ (config : Settings F) (m : ProtectMoments F) (ticket : ℕ) where
  open fl use {dec, add, sub, mul, div, lt, le, is_finite}

  -- The broker projects at least the target at the stop, up to a rounding error.
  pub record IsPriced (p : OpenPosition F) (target sl : F) : Type 0 where
    pub left : ℕ
    pub in_three : left < 3
    pub projected : F
    pub projected_is :
        (m.at_projection left).broker.order_calc_profit p.side p.symbol p.volume p.price_open sl
        ≡ some projected
    pub finite : is_finite projected ≡ true
    pub covered : le (sub target projected) (dec 1 8) ≡ true

  pub record IsPlaceable (p : OpenPosition F) (info : SymbolInfo F) (current sl : F) : Type 0 where
    pub better : has_worse p sl ≡ false
    pub nearer : IsBetter p sl
    pub behind : is_unreached p.side sl current ≡ false
    pub distant : is_too_close info current sl ≡ false

  pub record IsLocked (floor : F) (l : Levels F) : Type 0 where
    pub position : OpenPosition F
    pub others : List (OpenPosition F)
    pub position_is : m.at_position.positions_of_ticket ticket ≡ some (position ∷ others)
    pub info : SymbolInfo F
    pub info_is : m.at_info.broker.symbol_info position.symbol ≡ some info
    pub tick : Tick F
    pub tick_is : m.at_tick.broker.symbol_info_tick position.symbol ≡ some tick
    pub cost : F
    pub cost_is :
        configured_execution_cost_usd config position.symbol info position.volume ≡ some cost
    pub priced : IsPriced position (sub (add cost floor) (or_nought position.swap)) l.sl_price
    pub placeable : IsPlaceable position info (entry_of (opposite position.side) tick) l.sl_price
    pub target_kept : l.tp_price ≡ none

  next_lock_proceeds : (sl : Option F) → next_lock sl ≡ step_reached → ⊥
  next_lock_proceeds none h = cc
  next_lock_proceeds (some x) h = cc

  module _ (p : OpenPosition F) (info : SymbolInfo F) (target per_pip step : F) where
    reached-IsPriced :
        (left : ℕ) (sl : F) (found : Option F)
        → left < 3
        → projected_at config m ticket p info target per_pip step left sl ≡ found
        → step_of config m ticket p info target per_pip step sl found ≡ step_reached
        → IsPriced p target sl
    reached-IsPriced left sl none l is h = cc
    reached-IsPriced left sl (some projected) l is h =
        let correction = max step (mul (div (sub target projected) per_pip) (pip_size info)) in
        let never =
          next_lock_proceeds
            (normalize_price info (lock_rounding p.side) (beyond p.side sl correction)) in
        record {
          left = left;
          in_three = l;
          projected = projected;
          projected_is = is;
          finite = ground (arith, never);
          covered = ground (arith, never);
        }

    follow-IsPriced :
        (left : ℕ) (sl : F) (s : LockStep F) {found : F}
        → left < 3
        → step_of config m ticket p info target per_pip step sl
            (projected_at config m ticket p info target per_pip step left sl)
          ≡ s
        → ((x : F)
            → search_lock config m ticket p info target per_pip step left x ≡ inr found
            → IsPriced p target found)
        → follow sl s (λ next. search_lock config m ticket p info target per_pip step left next)
          ≡ inr found
        → IsPriced p target found
    follow-IsPriced left sl (step_failed error) l is f h = cc
    follow-IsPriced left sl step_reached l is f h =
        subst (IsPriced p target) (ground arith) (reached-IsPriced left sl _ l refl is)
    follow-IsPriced left sl (step_next x) l is f h = f x h

    search_lock-IsPriced :
        (left : ℕ) (sl : F) {found : F}
        → left ≤ 3
        → search_lock config m ticket p info target per_pip step left sl ≡ inr found
        → IsPriced p target found
    unfolding search_lock
    search_lock-IsPriced zero sl l h = cc
    search_lock-IsPriced (suc left) sl l h =
        follow-IsPriced left sl _ (omega arith) refl
          (λ x. search_lock-IsPriced left x (omega arith)) h

  check_lock-IsPlaceable :
      (p : OpenPosition F) (info : SymbolInfo F) (current sl : F) {l : Levels F}
      → check_lock p info current sl ≡ inr l
      → (l.sl_price ≡ sl) × (l.tp_price ≡ none) × IsPlaceable p info current sl
  check_lock-IsPlaceable p info current sl h = (
    ground arith,
    ground arith,
    record {
      better = ground arith;
      nearer = has_worse-IsBetter p sl (ground arith);
      behind = ground arith;
      distant = ground arith;
    },
  )

  -- The part of a locked stop that the search and its last checks give.
  abbrev IsFound : OpenPosition F → SymbolInfo F → F → F → Levels F → Type 0
  IsFound p info target current l =
      IsPriced p target l.sl_price × IsPlaceable p info current l.sl_price × (l.tp_price ≡ none)

  check_found-IsFound :
      (p : OpenPosition F) (info : SymbolInfo F) (target per_pip step current : F)
      (found : ExecError ⊎ F) {l : Levels F}
      → ((sl : F) → found ≡ inr sl → IsPriced p target sl)
      → check_found config m ticket p info target per_pip step current found ≡ inr l
      → IsFound p info target current l
  check_found-IsFound p info target per_pip step current (inl error) f h = cc
  check_found-IsFound p info target per_pip step current (inr sl) {l = l} f h =
      let (sl_is, tp_is, placeable) = check_lock-IsPlaceable p info current sl {l = l} h in
      (
        subst (IsPriced p target) (sym sl_is) (f sl refl),
        subst (IsPlaceable p info current) (sym sl_is) placeable,
        tp_is,
      )

  search_from-IsFound :
      (p : OpenPosition F) (info : SymbolInfo F) (target per_pip step current : F) (sl : Option F)
      {l : Levels F}
      → search_from config m ticket p info target per_pip step current sl ≡ inr l
      → IsFound p info target current l
  search_from-IsFound p info target per_pip step current none h = cc
  search_from-IsFound p info target per_pip step current (some sl) h =
      check_found-IsFound p info target per_pip step current _
        (λ x e. search_lock-IsPriced p info target per_pip step 3 sl (omega arith) e) h

  module _ (floor : F) (p : OpenPosition F) (ps : List (OpenPosition F))
      (found : m.at_position.positions_of_ticket ticket ≡ some (p ∷ ps)) where
    lock_priced-IsFound :
        (info : SymbolInfo F) (current cost per_pip : F) {l : Levels F}
        → lock_priced config m ticket floor p info current cost per_pip ≡ inr l
        → IsFound p info (sub (add cost floor) (or_nought p.swap)) current l
    lock_priced-IsFound info current cost per_pip h =
        let step = or_else_float info.trade_tick_size info.point in
        let target = sub (add cost floor) (or_nought p.swap) in
        let distance = mul (div target per_pip) (pip_size info) in
        let first_stop =
          normalize_price info (lock_rounding p.side) (beyond p.side p.price_open distance) in
        elim (Bool-cases (not (is_finite (or_nought p.swap)) || not (is_finite cost))) [
          | inl invalid ↦ ground arith
          | inr valid ↦ elim (Bool-cases (not (is_finite step) || le step nought)) [
            | inl invalid ↦ ground arith
            | inr usable ↦
                search_from-IsFound p info target per_pip step current first_stop (ground arith)
          ]
        ]

    lock_with-IsFound :
        (info : SymbolInfo F) (current cost : F) (per_pip : Option F) {l : Levels F}
        → lock_with config m ticket floor p info current cost per_pip ≡ inr l
        → IsFound p info (sub (add cost floor) (or_nought p.swap)) current l
    lock_with-IsFound info current cost none h = cc
    lock_with-IsFound info current cost (some per_pip) h =
        lock_priced-IsFound info current cost per_pip (ground arith)

    lock_costed-IsLocked :
        (info : SymbolInfo F) (tick : Tick F) (cost : Option F) {l : Levels F}
        → m.at_info.broker.symbol_info p.symbol ≡ some info
        → m.at_tick.broker.symbol_info_tick p.symbol ≡ some tick
        → configured_execution_cost_usd config p.symbol info p.volume ≡ cost
        → lock_costed config m ticket floor p info (entry_of (opposite p.side) tick) cost ≡ inr l
        → IsLocked floor l
    lock_costed-IsLocked info tick none i t c h = cc
    lock_costed-IsLocked info tick (some cost) i t c h =
        let (priced, placeable, target_kept) =
          lock_with-IsFound info (entry_of (opposite p.side) tick) cost _ h in
        record {
          position = p;
          others = ps;
          position_is = found;
          info = info;
          info_is = i;
          tick = tick;
          tick_is = t;
          cost = cost;
          cost_is = c;
          priced = priced;
          placeable = placeable;
          target_kept = target_kept;
        }

    lock_quoted-IsLocked :
        (info : Option (SymbolInfo F)) (tick : Option (Tick F)) {l : Levels F}
        → m.at_info.broker.symbol_info p.symbol ≡ info
        → m.at_tick.broker.symbol_info_tick p.symbol ≡ tick
        → lock_quoted config m ticket floor p info tick ≡ inr l
        → IsLocked floor l
    lock_quoted-IsLocked none tick i t h = cc
    lock_quoted-IsLocked (some info) none i t h = cc
    lock_quoted-IsLocked (some info) (some tick) i t h =
        lock_costed-IsLocked info tick _ i t refl (ground arith)

  lock_position-IsLocked :
      (floor : F) (positions : Option (List (OpenPosition F))) {l : Levels F}
      → m.at_position.positions_of_ticket ticket ≡ positions
      → lock_position config m ticket floor positions ≡ inr l
      → IsLocked floor l
  lock_position-IsLocked floor none is h = cc
  lock_position-IsLocked floor (some []) is h = cc
  lock_position-IsLocked floor (some (p ∷ ps)) is h =
      lock_quoted-IsLocked floor p ps is _ _ refl refl h

  -- A stop that locks a profit is of the first position of the ticket. The broker itself projects at it,
  -- in one of at most three tries, a profit of at least the costs and the floor less the swap, up to a
  -- rounding error. It is better than the stop that there was, behind the price at which the position
  -- would close now and not nearer to that than the broker allows.
  pub choose_lock-IsLocked :
      (floor : F) {l : Levels F} → choose_lock config m ticket floor ≡ inr l → IsLocked floor l
  unfolding choose_lock
  choose_lock-IsLocked floor h = elim (Bool-cases (not (is_finite floor) || lt floor nought)) [
    | inl invalid ↦ ground arith
    | inr valid ↦ lock_position-IsLocked floor _ refl (ground arith)
  ]
