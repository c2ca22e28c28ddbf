-- ===== src/Execution/Modify/Sent.antt =====
-- When a change of levels reaches the broker, and what its outcome says.
use llm_trade.Prelude.{
  ℕ, ◌≡◌, refl, Bool, true, false, Option, none, some, List, [], ◌∷◌, ◌⊎◌, inl, inr, if◌then◌else◌,
}
use llm_trade.Float.{Float}
use llm_trade.Settings.{Settings}
use llm_trade.Instruments.{SymbolInfo, Tick}
use llm_trade.Execution.{
  ExecError, OpenPosition, Request, Submission, unsent, failed, check_failed, dry_run_modify,
}
use llm_trade.Execution.Results.{completed_retcode}
use llm_trade.Execution.ModifyResult.Kept.{IsKept, reconcile_modify_result-IsKept}
use llm_trade.Execution.Gates.{ExpectedAccount, validate_account_identity, entry_of, validate_stops}
use llm_trade.Execution.Close.{opposite}
use llm_trade.Execution.Modify.{
  ModifyMoments, new_stop, new_target, level_on, refused_modify, reads, modify_request,
  verify_modify, check_modify, with_price, kept_levels, are_kept, change_to, modify_levels,
  modify_known, modify_position, submit_modify,
}

module _ {F : Type 0} ⦃fl : Float F⦄ (config : Settings F) (m : ModifyMoments F)
    (expected : Option ExpectedAccount) (ticket : ℕ) where
  pub record IsRefused (s : Submission F) : Type 0 where
    pub sent_none : s.sent ≡ none
    pub failed_is : s.result.success ≡ false
    pub unchanged : s.result.state_changed ≡ false

  -- The position has the levels already, and the account is the right one.
  pub record IsRepeated (p : OpenPosition F) (info : SymbolInfo F) (sl tp : F) (s : Submission F)
      : Type 0 where
    pub sent_none : s.sent ≡ none
    pub kept : are_kept p info sl tp ≡ true
    pub identified : validate_account_identity config m.at_identity expected ≡ none
    pub unchanged : s.result.state_changed ≡ false

  -- The request, and what its outcome says.
  pub record IsChange (p : OpenPosition F) (info : SymbolInfo F) (sl tp : F) (s : Submission F)
      : Type 0 where
    pub tick : Tick F
    pub tick_is : m.at_tick.broker.symbol_info_tick p.symbol ≡ some tick
    pub different : are_kept p info sl tp ≡ false
    pub stops :
        validate_stops config m.at_stops p.symbol p.side (entry_of (opposite p.side) tick) sl tp
        ≡ none
    pub sent_is : s.sent ≡ some (modify_request config m expected ticket p sl tp)
    pub checked : m.at_check.order_check (modify_request config m expected ticket p sl tp) ≡ true
    pub identified : validate_account_identity config m.at_identity expected ≡ none
    pub kept :
        s.result.success ≡ true
        → (completed_retcode s.answer ≡ true)
          × IsKept sl tp info (reads config m expected ticket) ticket s.result
    pub changed : s.result.state_changed ≡ completed_retcode s.answer

  abbrev pub IsSent : OpenPosition F → SymbolInfo F → F → F → Submission F → Type 0
  IsSent p info sl tp s = IsRefused s ⊎ IsRepeated p info sl tp s ⊎ IsChange p info sl tp s

  refused : (error : ExecError) → IsRefused (refused_modify config m expected ticket error)
  refused error = record { sent_none = refl; failed_is = refl; unchanged = refl }

  module _ (p : OpenPosition F) (info : SymbolInfo F) (sl tp : F) where
    abbrev request : Request F
    request = modify_request config m expected ticket p sl tp

    verify_modify-IsSent :
        (tick : Tick F)
        → m.at_tick.broker.symbol_info_tick p.symbol ≡ some tick
        → are_kept p info sl tp ≡ false
        → validate_stops config m.at_stops p.symbol p.side (entry_of (opposite p.side) tick) sl tp
          ≡ none
        → m.at_check.order_check request ≡ true
        → (verdict : Option ExecError)
        → validate_account_identity config m.at_identity expected ≡ verdict
        → IsSent p info sl tp (verify_modify config m expected ticket p request info verdict)
    verify_modify-IsSent tick t d s c (some error) is =
        inl record { sent_none = refl; failed_is = refl; unchanged = refl }
    verify_modify-IsSent tick t d s c none is =
        let (kept, changed) =
          reconcile_modify_result-IsKept (m.at_send.order_send request) ticket sl tp info
            (reads config m expected ticket) in
        inr (
          inr record {
            tick = tick;
            tick_is = t;
            different = d;
            stops = s;
            sent_is = refl;
            checked = c;
            identified = is;
            kept = kept;
            changed = changed;
          })

    checked-IsSent :
        (tick : Tick F) (checked : Bool)
        → m.at_tick.broker.symbol_info_tick p.symbol ≡ some tick
        → are_kept p info sl tp ≡ false
        → validate_stops config m.at_stops p.symbol p.side (entry_of (opposite p.side) tick) sl tp
          ≡ none
        → m.at_check.order_check request ≡ checked
        → IsSent p info sl tp (
            if checked
            then verify_modify config m expected ticket p request info
                (validate_account_identity config m.at_identity expected)
            else unsent (failed (some p.ticket) check_failed))
    checked-IsSent tick true t d s c = verify_modify-IsSent tick t d s c _ refl
    checked-IsSent tick false t d s c =
        inl record { sent_none = refl; failed_is = refl; unchanged = refl }

    check_modify-IsSent :
        (tick : Tick F) (verdict : Option ExecError)
        → m.at_tick.broker.symbol_info_tick p.symbol ≡ some tick
        → are_kept p info sl tp ≡ false
        → validate_stops config m.at_stops p.symbol p.side (entry_of (opposite p.side) tick) sl tp
          ≡ verdict
        → IsSent p info sl tp (check_modify config m expected ticket p request info verdict)
    check_modify-IsSent tick (some error) t d s = inl (refused error)
    check_modify-IsSent tick none t d s = checked-IsSent tick _ t d s refl

    with_price-IsSent :
        (tick : Option (Tick F))
        → m.at_tick.broker.symbol_info_tick p.symbol ≡ tick
        → are_kept p info sl tp ≡ false
        → IsSent p info sl tp (with_price config m expected ticket p request info tick)
    with_price-IsSent none t d = inl (refused _)
    with_price-IsSent (some tick) t d = check_modify-IsSent tick _ t d refl

    kept_levels-IsSent :
        (verdict : Option ExecError)
        → validate_account_identity config m.at_identity expected ≡ verdict
        → are_kept p info sl tp ≡ true
        → IsSent p info sl tp (kept_levels config m expected ticket p verdict)
    kept_levels-IsSent (some error) is k =
        inl record { sent_none = refl; failed_is = refl; unchanged = refl }
    kept_levels-IsSent none is k =
        inr (inl record { sent_none = refl; kept = k; identified = is; unchanged = refl })

    change_when-IsSent :
        (kept : Bool)
        → are_kept p info sl tp ≡ kept
        → IsSent p info sl tp (
            if kept
            then kept_levels config m expected ticket p
                (validate_account_identity config m.at_identity expected)
            else with_price config m expected ticket p request info
                (m.at_tick.broker.symbol_info_tick p.symbol))
    change_when-IsSent true k = kept_levels-IsSent _ refl k
    change_when-IsSent false k = with_price-IsSent _ refl k

    change_to-IsSent : IsSent p info sl tp (change_to config m expected ticket p info sl tp)
    change_to-IsSent = change_when-IsSent _ refl

  -- The change is of the first position that the ticket names, to the levels on its grid.
  pub record IsModified (sl_price tp_price : Option F) (s : Submission F) : Type 0 where
    pub position : OpenPosition F
    pub others : List (OpenPosition F)
    pub position_is : m.at_position.positions_of_ticket ticket ≡ some (position ∷ others)
    pub live : config.dry_run ≡ false
    pub info : SymbolInfo F
    pub info_is : m.at_info.broker.symbol_info position.symbol ≡ some info
    pub sl : F
    pub sl_is : new_stop position info sl_price ≡ some sl
    pub tp : F
    pub tp_is : new_target position info tp_price ≡ some tp
    pub outcome :
        IsRepeated position info (level_on info sl) (level_on info tp) s
        ⊎ IsChange position info (level_on info sl) (level_on info tp) s

  abbrev pub IsModifyEnded : Option F → Option F → Submission F → Type 0
  IsModifyEnded sl_price tp_price s = IsRefused s ⊎ IsModified sl_price tp_price s

  module _ (sl_price tp_price : Option F) (p : OpenPosition F) (ps : List (OpenPosition F))
      (found : m.at_position.positions_of_ticket ticket ≡ some (p ∷ ps))
      (live : config.dry_run ≡ false) where
    ended :
        (info : SymbolInfo F) (sl tp : F) (s : Submission F)
        → m.at_info.broker.symbol_info p.symbol ≡ some info
        → new_stop p info sl_price ≡ some sl
        → new_target p info tp_price ≡ some tp
        → IsSent p info (level_on info sl) (level_on info tp) s
        → IsModifyEnded sl_price tp_price s
    ended info sl tp s i sl_is tp_is (inl r) = inl r
    ended info sl tp s i sl_is tp_is (inr outcome) = inr record {
      position = p;
      others = ps;
      position_is = found;
      live = live;
      info = info;
      info_is = i;
      sl = sl;
      sl_is = sl_is;
      tp = tp;
      tp_is = tp_is;
      outcome = outcome;
    }

    modify_levels-IsModifyEnded :
        (info : SymbolInfo F) (sl tp : Option F)
        → m.at_info.broker.symbol_info p.symbol ≡ some info
        → new_stop p info sl_price ≡ sl
        → new_target p info tp_price ≡ tp
        → IsModifyEnded sl_price tp_price (modify_levels config m expected ticket p info sl tp)
    modify_levels-IsModifyEnded info none tp i sl_is tp_is = inl (refused _)
    modify_levels-IsModifyEnded info (some sl) none i sl_is tp_is = inl (refused _)
    modify_levels-IsModifyEnded info (some sl) (some tp) i sl_is tp_is =
        ended info sl tp _ i sl_is tp_is
          (change_to-IsSent p info (level_on info sl) (level_on info tp))

    modify_known-IsModifyEnded :
        (info : Option (SymbolInfo F))
        → m.at_info.broker.symbol_info p.symbol ≡ info
        → IsModifyEnded sl_price tp_price
            (modify_known config m expected ticket sl_price tp_price p info)
    modify_known-IsModifyEnded none i = inl (refused _)
    modify_known-IsModifyEnded (some info) i = modify_levels-IsModifyEnded info _ _ i refl refl

  modify_live-IsModifyEnded :
      (sl_price tp_price : Option F) (p : OpenPosition F) (ps : List (OpenPosition F)) (dry : Bool)
      → m.at_position.positions_of_ticket ticket ≡ some (p ∷ ps)
      → config.dry_run ≡ dry
      → IsModifyEnded sl_price tp_price (
          if dry
          then refused_modify config m expected ticket dry_run_modify
          else modify_known config m expected ticket sl_price tp_price p
              (m.at_info.broker.symbol_info p.symbol))
  modify_live-IsModifyEnded sl_price tp_price p ps true found d = inl (refused _)
  modify_live-IsModifyEnded sl_price tp_price p ps false found d =
      modify_known-IsModifyEnded sl_price tp_price p ps found d _ refl

  modify_position-IsModifyEnded :
      (sl_price tp_price : Option F) (positions : Option (List (OpenPosition F)))
      → m.at_position.positions_of_ticket ticket ≡ positions
      → IsModifyEnded sl_price tp_price
          (modify_position config m expected ticket sl_price tp_price positions)
  modify_position-IsModifyEnded sl_price tp_price none found = inl (refused _)
  modify_position-IsModifyEnded sl_price tp_price (some []) found = inl (refused _)
  modify_position-IsModifyEnded sl_price tp_price (some (p ∷ ps)) found =
      modify_live-IsModifyEnded sl_price tp_price p ps _ found refl

  -- A change of levels is refused, with nothing sent; or it is not sent since the first position of the
  -- ticket has these levels already, rounded as the broker's; or it is sent, outside a dry run, on the
  -- verified account, with levels that are valid and that the broker's check accepted. A level that was
  -- not given stays that of the position. A sent change is a success only if the broker completed it and
  -- shows both levels, and it reports a change exactly if the broker completed it.
  pub submit_modify-IsModifyEnded :
      (sl_price tp_price : Option F)
      → IsModifyEnded sl_price tp_price (submit_modify config m expected ticket sl_price tp_price)
  unfolding submit_modify
  submit_modify-IsModifyEnded sl_price tp_price =
      modify_position-IsModifyEnded sl_price tp_price _ refl
