-- ===== src/Shadow/Touch.antt =====
-- The first touch decides: what a resolved candidate says of its bars.
use llm_trade.Prelude.{
  ◌≡◌, refl, ap, Bool, true, false, Option, none, some, List, [], ◌∷◌, ◌++◌, arith, All, ◌⊎◌, inl,
  inr,
}
use llm_trade.Float.{Float, max}
use llm_trade.Risk.Trade.{Side, buy, sell}
use llm_trade.Shadow.{
  UsableBar, Plan, Status, ambiguous, take_profit_first, stop_loss_first, Resolution, resolved,
  Touched, neither, both, target_only, stop_only, touched_by, target_hit, stop_hit, Scan, last_bar,
  touch, gain, favorable, stop_or, scan_from, resolve_touch, resolve_timeout, resolve, evaluate,
}

module _ {F : Type 0} ⦃fl : Float F⦄ where
  open fl use {dec, sub, div, neg, abs, le, is_finite}

  -- A buy is at its target where the high reaches it and at its stop where the low falls to it; a sell
  -- the other way round.
  abbrev pub IsAtTarget : Side → F → UsableBar F → Bool → Type 0
  IsAtTarget buy target b answer = le target b.high ≡ answer
  IsAtTarget sell target b answer = le b.low target ≡ answer

  abbrev pub IsAtStop : Side → F → UsableBar F → Bool → Type 0
  IsAtStop buy stop b answer = le b.low stop ≡ answer
  IsAtStop sell stop b answer = le stop b.high ≡ answer

  abbrev pub Touches : Plan F → UsableBar F → Touched → Type 0
  Touches p b neither = IsAtTarget p.side p.target b false × IsAtStop p.side p.stop b false
  Touches p b both = IsAtTarget p.side p.target b true × IsAtStop p.side p.stop b true
  Touches p b target_only = IsAtTarget p.side p.target b true × IsAtStop p.side p.stop b false
  Touches p b stop_only = IsAtTarget p.side p.target b false × IsAtStop p.side p.stop b true

  target_hit-IsAtTarget :
      (side : Side) (target : F) (b : UsableBar F) (answer : Bool)
      → target_hit side target b ≡ answer
      → IsAtTarget side target b answer
  target_hit-IsAtTarget buy target b answer h = h
  target_hit-IsAtTarget sell target b answer h = h

  stop_hit-IsAtStop :
      (side : Side) (stop : F) (b : UsableBar F) (answer : Bool)
      → stop_hit side stop b ≡ answer
      → IsAtStop side stop b answer
  stop_hit-IsAtStop buy stop b answer h = h
  stop_hit-IsAtStop sell stop b answer h = h

  touched_by-Touches :
      (p : Plan F) (b : UsableBar F) (target stop : Bool)
      → target_hit p.side p.target b ≡ target
      → stop_hit p.side p.stop b ≡ stop
      → Touches p b (touched_by target stop)
  touched_by-Touches p b false false t s =
      (target_hit-IsAtTarget p.side p.target b false t, stop_hit-IsAtStop p.side p.stop b false s)
  touched_by-Touches p b true true t s =
      (target_hit-IsAtTarget p.side p.target b true t, stop_hit-IsAtStop p.side p.stop b true s)
  touched_by-Touches p b true false t s =
      (target_hit-IsAtTarget p.side p.target b true t, stop_hit-IsAtStop p.side p.stop b false s)
  touched_by-Touches p b false true t s =
      (target_hit-IsAtTarget p.side p.target b false t, stop_hit-IsAtStop p.side p.stop b true s)

  -- The first of the bars that touches a level.
  pub record IsFirstTouch (p : Plan F) (bars : List (UsableBar F)) (b : UsableBar F) (t : Touched)
      : Type 0 where
    pub earlier : List (UsableBar F)
    pub later : List (UsableBar F)
    pub bars_are : bars ≡ earlier ++ b ∷ later
    pub untouched : All (λ x. Touches p x neither) earlier
    pub touch_is : Touches p b t

  skip_bar :
      (p : Plan F) (x : UsableBar F) (bars : List (UsableBar F)) (b : UsableBar F) (t : Touched)
      → Touches p x neither
      → IsFirstTouch p bars b t
      → IsFirstTouch p (x ∷ bars) b t
  skip_bar p x bars b t h f = record {
    earlier = x ∷ f.earlier;
    later = f.later;
    bars_are = ap (λ l. x ∷ l) f.bars_are;
    untouched = (h, f.untouched);
    touch_is = f.touch_is;
  }

  -- What the end of the loop says of the bars.
  abbrev IsEndOf : Plan F → List (UsableBar F) → Option (UsableBar F × Touched) → Type 0
  IsEndOf p bars none = All (λ x. Touches p x neither) bars
  IsEndOf p bars (some (b, t)) = IsFirstTouch p bars b t

  skip_end :
      (p : Plan F) (x : UsableBar F) (bars : List (UsableBar F))
      (hit : Option (UsableBar F × Touched))
      → Touches p x neither
      → IsEndOf p bars hit
      → IsEndOf p (x ∷ bars) hit
  skip_end p x bars none h e = (h, e)
  skip_end p x bars (some (b, t)) h e = skip_bar p x bars b t h e

  stop-IsEndOf :
      (p : Plan F) (b : UsableBar F) (bs : List (UsableBar F)) (t : Touched) (mfe mae : F)
      (rest : Scan F)
      → Touches p b t
      → IsEndOf p bs rest.hit
      → IsEndOf p (b ∷ bs) (stop_or b t mfe mae rest).hit
  stop-IsEndOf p b bs neither mfe mae rest h e = skip_end p b bs rest.hit h e
  stop-IsEndOf p b bs both mfe mae rest h e = record {
    earlier = [];
    later = bs;
    bars_are = refl;
    untouched = tt;
    touch_is = h;
  }
  stop-IsEndOf p b bs target_only mfe mae rest h e = record {
    earlier = [];
    later = bs;
    bars_are = refl;
    untouched = tt;
    touch_is = h;
  }
  stop-IsEndOf p b bs stop_only mfe mae rest h e = record {
    earlier = [];
    later = bs;
    bars_are = refl;
    untouched = tt;
    touch_is = h;
  }

  scan_from-IsEndOf :
      (p : Plan F) (next_mae : F → UsableBar F → F) (mfe mae : F) (bars : List (UsableBar F))
      → IsEndOf p bars (scan_from p next_mae mfe mae bars).hit
  scan_from-IsEndOf p next_mae mfe mae [] = tt
  scan_from-IsEndOf p next_mae mfe mae (b ∷ bs) =
      stop-IsEndOf p b bs (touch p b) _ _ _ (touched_by-Touches p b _ _ refl refl)
        (scan_from-IsEndOf p next_mae (max mfe (favorable p b)) (next_mae mae b) bs)

  -- What a resolution says of the bar that touched first.
  abbrev pub IsTouchOutcome : Plan F → UsableBar F → Touched → Resolution F → Type 0
  IsTouchOutcome p b neither r = ⊥
  IsTouchOutcome p b both r =
      (r.status ≡ ambiguous) × (r.outcome_r ≡ none) × (r.exit_price ≡ b.close)
  IsTouchOutcome p b target_only r =
      (r.status ≡ take_profit_first)
      × (r.outcome_r ≡ some (div (abs (sub p.target p.entry)) p.risk))
      × (r.exit_price ≡ p.target)
  IsTouchOutcome p b stop_only r =
      (r.status ≡ stop_loss_first) × (r.outcome_r ≡ some (neg (dec 1 0))) × (r.exit_price ≡ p.stop)

  pub record IsTouched (p : Plan F) (bars : List (UsableBar F)) (r : Resolution F) : Type 0 where
    pub bar : UsableBar F
    pub touched : Touched
    pub first_touch : IsFirstTouch p bars bar touched
    pub resolved_at : r.resolved_at ≡ bar.stamp
    pub outcome : IsTouchOutcome p bar touched r

  pub record IsTimeout (p : Plan F) (status : F → Status) (late : Bool) (bars : List (UsableBar F))
      (r : Resolution F) : Type 0 where
    pub untouched : All (λ x. Touches p x neither) bars
    pub is_late : late ≡ true
    pub bar : UsableBar F
    pub others : List (UsableBar F)
    pub bars_are : bars ≡ bar ∷ others
    pub price_is : r.exit_price ≡ (last_bar bar others).close
    pub resolved_at : r.resolved_at ≡ (last_bar bar others).stamp
    pub outcome_is : r.outcome_r ≡ some (gain p (last_bar bar others).close)
    pub status_is : r.status ≡ status (gain p (last_bar bar others).close)

  resolve_touch-IsTouched :
      (p : Plan F) (bars : List (UsableBar F)) (s : Scan F) (delta : F → Option F) (b : UsableBar F)
      (t : Touched) {r : Resolution F}
      → IsFirstTouch p bars b t
      → resolve_touch p s delta b t ≡ resolved r
      → IsTouched p bars r
  resolve_touch-IsTouched p bars s delta b neither f h = cc
  resolve_touch-IsTouched p bars s delta b both f h = record {
    bar = b;
    touched = both;
    first_touch = f;
    resolved_at = ground arith;
    outcome = (ground arith, ground arith, ground arith);
  }
  resolve_touch-IsTouched p bars s delta b target_only f h = record {
    bar = b;
    touched = target_only;
    first_touch = f;
    resolved_at = ground arith;
    outcome = (ground arith, ground arith, ground arith);
  }
  resolve_touch-IsTouched p bars s delta b stop_only f h = record {
    bar = b;
    touched = stop_only;
    first_touch = f;
    resolved_at = ground arith;
    outcome = (ground arith, ground arith, ground arith);
  }

  resolve_timeout-IsTimeout :
      (p : Plan F) (s : Scan F) (status : F → Status) (delta : F → Option F) (late : Bool)
      (bars : List (UsableBar F)) {r : Resolution F}
      → All (λ x. Touches p x neither) bars
      → resolve_timeout p s status delta late bars ≡ resolved r
      → IsTimeout p status late bars r
  resolve_timeout-IsTimeout p s status delta late [] a h = cc
  resolve_timeout-IsTimeout p s status delta false (b ∷ bs) a h = cc
  resolve_timeout-IsTimeout p s status delta true (b ∷ bs) a h = record {
    untouched = a;
    is_late = refl;
    bar = b;
    others = bs;
    bars_are = refl;
    price_is = ground arith;
    resolved_at = ground arith;
    outcome_is = ground arith;
    status_is = ground arith;
  }

  resolve-IsEnd :
      (p : Plan F) (status : F → Status) (delta : F → Option F) (late : Bool)
      (bars : List (UsableBar F)) (s : Scan F) (hit : Option (UsableBar F × Touched))
      {r : Resolution F}
      → IsEndOf p bars hit
      → resolve p status delta late bars s hit ≡ resolved r
      → IsTouched p bars r ⊎ IsTimeout p status late bars r
  resolve-IsEnd p status delta late bars s none e h =
      inr (resolve_timeout-IsTimeout p s status delta late bars e h)
  resolve-IsEnd p status delta late bars s (some (b, t)) e h =
      inl (resolve_touch-IsTouched p bars s delta b t e h)

  pub evaluate-IsEnd :
      (p : Plan F) (begin : F) (next_mae : F → UsableBar F → F) (status : F → Status)
      (delta : F → Option F) (late : Bool) (bars : List (UsableBar F)) {r : Resolution F}
      → evaluate p begin next_mae status delta late bars ≡ resolved r
      → IsTouched p bars r ⊎ IsTimeout p status late bars r
  evaluate-IsEnd p begin next_mae status delta late bars h =
      resolve-IsEnd p status delta late bars (scan_from p next_mae begin begin bars) _
        (scan_from-IsEndOf p next_mae begin begin bars) h
