-- ===== src/Execution/Open/Ended.antt =====
-- What the outcome of an opening says about the broker.
use llm_trade.Prelude.{
  ◌≡◌, refl, sym, subst, Bool, true, false, Option, none, some, List, ◌⊎◌, inl, inr, if◌then◌else◌,
}
use llm_trade.Float.{Float}
use llm_trade.Settings.{Settings}
use llm_trade.Timebase.{Offsets}
use llm_trade.Instruments.{SymbolInfo, Tick}
use llm_trade.Execution.{ExecError, OpenPosition, Request, check_failed}
use llm_trade.Execution.Results.{completed_retcode, parse_result}
use llm_trade.Execution.OpenResult.{reconcile_open_result}
use llm_trade.Execution.OpenResult.Bound.{IsBound, reconcile_open_result-IsBound}
use llm_trade.Execution.OpenResult.Changed.{reconcile_open_result-changed}
use llm_trade.Execution.{Submission, unsent}
use llm_trade.Execution.Open.{
  OpenMoments, OpenOrder, refused_open, request_of, simulated, reads, check_again, with_snapshot,
  place_unless, with_levels, with_quote, after_checks, unless_refused, submit_open,
}

module _ {F : Type 0} ⦃fl : Float F⦄ (config : Settings F) (m : OpenMoments F)
    (o : OpenOrder F) where
  -- The submission ended before the broker was asked for anything.
  pub record IsUnsent (s : Submission F) : Type 0 where
    pub sent_none : s.sent ≡ none
    pub answer_none : s.answer ≡ none
    pub unchanged : s.result.state_changed ≡ false
    pub only_dry : s.result.success ≡ true → config.dry_run ≡ true

  -- The request went to the broker, and the result is what its answer was reconciled to.
  pub record IsAnswered (s : Submission F) : Type 0 where
    pub request : Request F
    pub sent_is : s.sent ≡ some request
    pub answer_is : s.answer ≡ m.at_send.order_send request
    pub before : List (OpenPosition F)
    pub before_is : m.at_snapshot.positions_of_symbol o.symbol ≡ some before
    pub info : SymbolInfo F
    pub info_is : m.at_quote.broker.symbol_info o.symbol ≡ some info
    pub result_is :
        s.result
        ≡ reconcile_open_result config.strategy_magic s.answer
            (parse_result s.answer)
            o.side
            o.lot
            before
            info
            (reads config m o)

  abbrev pub IsEnded : Submission F → Type 0
  IsEnded s = IsUnsent s ⊎ IsAnswered s

  refused_open-IsEnded : (e : ExecError) → IsEnded (refused_open e)
  refused_open-IsEnded e =
      inl record { sent_none = refl; answer_none = refl; unchanged = refl; only_dry = λ h. cc }

  check_again-IsEnded :
      (request : Request F) (info : SymbolInfo F) (before : List (OpenPosition F))
      (verdict : Option ExecError)
      → m.at_quote.broker.symbol_info o.symbol ≡ some info
      → m.at_snapshot.positions_of_symbol o.symbol ≡ some before
      → IsEnded (check_again config m o request info before verdict)
  check_again-IsEnded request info before (some e) i b = refused_open-IsEnded e
  check_again-IsEnded request info before none i b = inr record {
    request = request;
    sent_is = refl;
    answer_is = refl;
    before = before;
    before_is = b;
    info = info;
    info_is = i;
    result_is = refl;
  }

  with_snapshot-IsEnded :
      (request : Request F) (info : SymbolInfo F) (snapshot : Option (List (OpenPosition F)))
      → m.at_quote.broker.symbol_info o.symbol ≡ some info
      → m.at_snapshot.positions_of_symbol o.symbol ≡ snapshot
      → IsEnded (with_snapshot config m o request info snapshot)
  with_snapshot-IsEnded request info none i b = refused_open-IsEnded _
  with_snapshot-IsEnded request info (some before) i b =
      check_again-IsEnded request info before _ i b

  checked-IsEnded :
      (price : F) (request : Request F) (info : SymbolInfo F)
      (snapshot : Option (List (OpenPosition F))) (dry checked : Bool)
      → config.dry_run ≡ dry
      → m.at_quote.broker.symbol_info o.symbol ≡ some info
      → m.at_snapshot.positions_of_symbol o.symbol ≡ snapshot
      → IsEnded (
          if dry
          then unsent (simulated config m o price)
          else if checked
          then with_snapshot config m o request info snapshot
          else refused_open check_failed)
  checked-IsEnded price request info snapshot true checked is i b =
      inl record { sent_none = refl; answer_none = refl; unchanged = refl; only_dry = λ h. is }
  checked-IsEnded price request info snapshot false true is i b =
      with_snapshot-IsEnded request info snapshot i b
  checked-IsEnded price request info snapshot false false is i b = refused_open-IsEnded _

  place_unless-IsEnded :
      (price sl tp : F) (info : SymbolInfo F) (verdict : Option ExecError)
      → m.at_quote.broker.symbol_info o.symbol ≡ some info
      → IsEnded (place_unless config m o price sl tp info verdict)
  place_unless-IsEnded price sl tp info (some e) i = refused_open-IsEnded e
  place_unless-IsEnded price sl tp info none i =
      checked-IsEnded price (request_of config m o price sl tp info) info _ config.dry_run _ refl i
        refl

  with_levels-IsEnded :
      (price : F) (info : SymbolInfo F) (sl tp : Option F)
      → m.at_quote.broker.symbol_info o.symbol ≡ some info
      → IsEnded (with_levels config m o price info sl tp)
  with_levels-IsEnded price info none tp i = refused_open-IsEnded _
  with_levels-IsEnded price info (some sl) none i = refused_open-IsEnded _
  with_levels-IsEnded price info (some sl) (some tp) i = place_unless-IsEnded price sl tp info _ i

  with_quote-IsEnded :
      (info : Option (SymbolInfo F)) (tick : Option (Tick F))
      → m.at_quote.broker.symbol_info o.symbol ≡ info
      → IsEnded (with_quote config m o info tick)
  with_quote-IsEnded none tick i = refused_open-IsEnded _
  with_quote-IsEnded (some info) none i = refused_open-IsEnded _
  with_quote-IsEnded (some info) (some tick) i = with_levels-IsEnded _ info _ _ i

  after_checks-IsEnded : (verdict : Option ExecError) → IsEnded (after_checks config m o verdict)
  after_checks-IsEnded (some e) = refused_open-IsEnded e
  after_checks-IsEnded none = with_quote-IsEnded _ _ refl

  unless_refused-IsEnded :
      (offsets : Offsets) (verdict : Option ExecError)
      → IsEnded (unless_refused config m o offsets verdict).0
  unless_refused-IsEnded offsets (some e) = refused_open-IsEnded e
  unless_refused-IsEnded offsets none = after_checks-IsEnded _

  pub submit_open-IsEnded : (offsets : Offsets) → IsEnded (submit_open config m o offsets).0
  unfolding submit_open
  submit_open-IsEnded offsets = unless_refused-IsEnded offsets _

  -- What a successful opening rests on, if it was sent.
  pub record IsFilled (s : Submission F) : Type 0 where
    pub request : Request F
    pub sent_is : s.sent ≡ some request
    pub answer_is : s.answer ≡ m.at_send.order_send request
    pub completed : completed_retcode s.answer ≡ true
    pub before : List (OpenPosition F)
    pub before_is : m.at_snapshot.positions_of_symbol o.symbol ≡ some before
    pub info : SymbolInfo F
    pub info_is : m.at_quote.broker.symbol_info o.symbol ≡ some info
    pub bound : IsBound config.strategy_magic o.side o.lot before info (reads config m o) s.result

  answered-IsFilled : (s : Submission F) → IsAnswered s → s.result.success ≡ true → IsFilled s
  answered-IsFilled s a h =
      let (completed, bound) =
        reconcile_open_result-IsBound config.strategy_magic s.answer o.side o.lot a.before a.info
          (reads config m o) (subst (λ r. r.success ≡ true) a.result_is h) in
      record {
        request = a.request;
        sent_is = a.sent_is;
        answer_is = a.answer_is;
        completed = completed;
        before = a.before;
        before_is = a.before_is;
        info = a.info;
        info_is = a.info_is;
        bound =
            subst
              (λ r. IsBound config.strategy_magic o.side o.lot a.before a.info (reads config m o) r)
              (sym a.result_is) bound;
      }

  -- An opening is successful either as a dry run, which sends nothing and changes nothing, or because the
  -- broker completed the request that it was sent and shows a position of the strategy on the right
  -- side, which is that of the result's ticket. It has grown since the snapshot just before the order by
  -- the reported volume, which is above the tolerance of the quoted symbol and not above the requested
  -- volume by more than it.
  pub submit_open-IsFilled :
      (offsets : Offsets)
      → let s = (submit_open config m o offsets).0 in
        s.result.success ≡ true → (config.dry_run ≡ true × IsUnsent s) ⊎ IsFilled s
  submit_open-IsFilled offsets h = elim (submit_open-IsEnded offsets) [
    | inl u ↦ inl (u.only_dry h, u)
    | inr a ↦ inr (answered-IsFilled _ a h)
  ]

  ended_changed :
      (s : Submission F) → IsEnded s → s.result.state_changed ≡ completed_retcode s.answer
  unfolding completed_retcode
  ended_changed s (inl u) = rw u.answer_none u.unchanged
  ended_changed s (inr a) = rw a.result_is (
      reconcile_open_result-changed config.strategy_magic s.answer o.side o.lot a.before a.info
        (reads config m o))

  -- An opening reports a change exactly if the broker's answer to it is that the order was completed,
  -- wholly or in part; where nothing was sent there is no answer.
  pub submit_open-changed :
      (offsets : Offsets)
      → let s = (submit_open config m o offsets).0 in
        s.result.state_changed ≡ completed_retcode s.answer
  submit_open-changed offsets = ended_changed _ (submit_open-IsEnded offsets)
