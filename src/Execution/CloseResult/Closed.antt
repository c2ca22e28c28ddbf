-- ===== src/Execution/CloseResult/Closed.antt =====
-- A close counts as done only when the broker shows the volume that should be left.
use llm_trade.Prelude.{
  ◌≡◌, refl, sym, ◌∙◌, subst, Bool, true, false, Option, none, some, List, [], ◌∷◌, arith,
  Bool-cases, ◌⊎◌, inl, inr,
}
use llm_trade.Float.{Float, nought, max}
use llm_trade.Instruments.{SymbolInfo}
use llm_trade.Execution.{Retcode, ExecutionResult, OpenPosition, SendResult}
use llm_trade.Execution.Results.{completed_retcode, parse_result, volume_tolerance}
use llm_trade.Execution.OpenResult.Changed.{parse_result-uncompleted}
use llm_trade.Execution.CloseResult.{
  Remaining, unread, volume_left, is_complete, find_remaining, close_remaining, closed_volume,
  reconcile_close_result,
}

module _ {F : Type 0} ⦃fl : Float F⦄ where
  open fl use {sub, abs, le}

  -- One of the reads shows the volume, which is zero if the position is gone.
  abbrev pub IsLeft : List (Option (List (OpenPosition F))) → F → Type 0
  IsLeft [] left = ⊥
  IsLeft (none ∷ reads) left = IsLeft reads left
  IsLeft (some positions ∷ reads) left = (left ≡ volume_left positions) ⊎ IsLeft reads left

  -- What a successful close promises.
  pub record IsClosed (p : OpenPosition F) (requested : F) (info : SymbolInfo F)
      (reads : List (Option (List (OpenPosition F)))) (result : ExecutionResult F) : Type 0 where
    pub left : F
    pub shown : IsLeft reads left
    pub as_expected :
        le (abs (sub left (max nought (sub p.volume requested)))) (volume_tolerance info) ≡ true
    pub ticket_is : result.ticket ≡ some p.ticket
    pub volume_is : result.volume ≡ some (max nought (sub p.volume left))
    pub remaining_is : result.remaining_volume ≡ some left
    pub verified_is : (result.verified ≡ true) × (result.partial ≡ false)

  -- A complete outcome of the reads was shown by one of them.
  record IsShown (expected tolerance : F) (reads : List (Option (List (OpenPosition F))))
      (r : Remaining F) : Type 0 where
    left : F
    shown : IsLeft reads left
    remaining_is : r.remaining ≡ some left
    fits : is_complete expected tolerance left ≡ true

  later-IsLeft :
      (read : Option (List (OpenPosition F))) (reads : List (Option (List (OpenPosition F))))
      (left : F)
      → IsLeft reads left
      → IsLeft (read ∷ reads) left
  later-IsLeft none reads left h = h
  later-IsLeft (some positions) reads left h = inr h

  find_remaining-IsShown :
      (expected tolerance : F) (r : Remaining F) (reads : List (Option (List (OpenPosition F))))
      → r.complete ≡ false
      → (find_remaining expected tolerance r reads).complete ≡ true
      → IsShown expected tolerance reads (find_remaining expected tolerance r reads)
  unfolding find_remaining
  find_remaining-IsShown expected tolerance r [] n = λ c. cc
  find_remaining-IsShown expected tolerance r (none ∷ reads) n = λ c.
      let s =
        find_remaining-IsShown expected tolerance (record r { query_failed = true }) reads n c in
      record { left = s.left; shown = s.shown; remaining_is = s.remaining_is; fits = s.fits }
  find_remaining-IsShown expected tolerance r (some positions ∷ reads) n =
      let left = volume_left positions in
      elim (Bool-cases (is_complete expected tolerance left)) [
        | inl good ↦
            rw (find_remaining, good)
              (λ c. record { left = left; shown = inl refl; remaining_is = refl; fits = good })
        | inr bad ↦
            rw (find_remaining, bad)
              (λ c.
                let s =
                  find_remaining-IsShown expected tolerance
                    (record { query_failed = false; remaining = some left; complete = false }) reads
                    refl c in
                record {
                  left = s.left;
                  shown = inr s.shown;
                  remaining_is = s.remaining_is;
                  fits = s.fits;
                })
      ]

  close_remaining_complete :
      (code : Retcode) (parsed : ExecutionResult F) (p : OpenPosition F) (requested tolerance : F)
      (query_failed : Bool) (o : Option F) (complete : Bool)
      → (close_remaining code parsed p requested tolerance query_failed o complete).success ≡ true
      → (complete ≡ true)
        × ((left : F) × (o ≡ some left)
            × (close_remaining code parsed p requested tolerance query_failed o complete
                ≡ closed_volume code parsed p requested tolerance left true))
  close_remaining_complete code parsed p requested tolerance false (some left) true s =
      (refl, (left, refl, refl))
  close_remaining_complete code parsed p requested tolerance false (some left) false s = cc
  close_remaining_complete code parsed p requested tolerance false none complete s = cc
  close_remaining_complete code parsed p requested tolerance true o complete s = cc

  closed_volume-IsClosed :
      (code : Retcode) (parsed : ExecutionResult F) (p : OpenPosition F) (requested left : F)
      (info : SymbolInfo F) (reads : List (Option (List (OpenPosition F))))
      → IsLeft reads left
      → is_complete (max nought (sub p.volume requested)) (volume_tolerance info) left ≡ true
      → IsClosed p requested info reads
          (closed_volume code parsed p requested (volume_tolerance info) left true)
  closed_volume-IsClosed code parsed p requested left info reads shown fits = record {
    left = left;
    shown = shown;
    as_expected = fits;
    ticket_is = refl;
    volume_is = refl;
    remaining_is = refl;
    verified_is = (refl, refl);
  }

  some_injective : {x y : F} → some x ≡ some y → x ≡ y
  some_injective h = ground arith

  remaining-IsClosed :
      (answer : SendResult F) (p : OpenPosition F) (requested : F) (info : SymbolInfo F)
      (reads : List (Option (List (OpenPosition F)))) (r : Remaining F)
      → find_remaining (max nought (sub p.volume requested)) (volume_tolerance info) unread reads
        ≡ r
      → let result =
          close_remaining answer.retcode
            (parse_result (some answer))
            p
            requested
            (volume_tolerance info)
            r.query_failed
            r.remaining
            r.complete in
        result.success ≡ true → IsClosed p requested info reads result
  remaining-IsClosed answer p requested info reads r is s =
      let parsed = parse_result (some answer) in
      let tolerance = volume_tolerance info in
      let expected = max nought (sub p.volume requested) in
      let (done, (left, known, same)) =
        close_remaining_complete answer.retcode parsed p requested tolerance r.query_failed
          r.remaining r.complete s in
      let shown = subst (IsShown expected tolerance reads) is (
        find_remaining-IsShown expected tolerance unread reads refl
          (subst (λ x. x.complete ≡ true) (sym is) done)) in
      let equal : shown.left ≡ left = some_injective (sym shown.remaining_is ∙ known) in
      subst (IsClosed p requested info reads) (sym same) (
        closed_volume-IsClosed answer.retcode parsed p requested left info reads
          (subst (IsLeft reads) equal shown.shown)
          (subst (λ x. is_complete expected tolerance x ≡ true) equal shown.fits))

  -- A close is successful only if the broker completed it and one of the reads shows a remaining
  -- volume, zero if the position is gone, that is within the tolerance of the one expected; the result
  -- carries that volume and the volume that was closed, and is no partial close.
  pub reconcile_close_result-IsClosed :
      (answer : Option (SendResult F)) (p : OpenPosition F) (requested : F) (info : SymbolInfo F)
      (reads : List (Option (List (OpenPosition F))))
      → let result = reconcile_close_result answer (parse_result answer) p requested info reads in
        result.success ≡ true
        → (completed_retcode answer ≡ true) × IsClosed p requested info reads result
  unfolding reconcile_close_result completed_retcode
  reconcile_close_result-IsClosed none p requested info reads =
      λ s. cc ((parse_result-uncompleted {F = F} none refl).0, s)
  reconcile_close_result-IsClosed (some answer) p requested info reads =
      elim (Bool-cases (completed_retcode (some answer))) [
        | inr pending ↦ rw pending (λ s. cc ((parse_result-uncompleted (some answer) pending).0, s))
        | inl done ↦
            rw done (λ s. (refl, remaining-IsClosed answer p requested info reads _ refl s))
      ]
