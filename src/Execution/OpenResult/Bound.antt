-- ===== src/Execution/OpenResult/Bound.antt =====
-- What a reconciled opening says of the broker's positions.
use llm_trade.Prelude.{
  ℕ, ◌≡◌, ◌++◌, refl, ap, subst, Bool, true, false, Option, none, some, List, [], ◌∷◌, ◌==◌, All,
  All-filter, All-map, All-IsIn, IsIn, filter, arith, ◌⊎◌, inl, inr, Bool-cases,
}
use llm_trade.Float.{Float, nought, gt, max}
use llm_trade.Risk.Trade.{Side}
use llm_trade.Instruments.{SymbolInfo}
use llm_trade.Instruments.Spread.{or_nought}
use llm_trade.Execution.{ExecutionResult, OpenPosition, SendResult}
use llm_trade.Execution.Results.{completed_retcode, parse_result, volume_tolerance}
use llm_trade.Execution.OpenResult.{
  same_side, volume_before, is_candidate, or_rest, find_candidates, is_named, only, or_only,
  bind_volume, bind_position, bind_candidates, reconcile_open_result,
}
use llm_trade.Execution.OpenResult.Changed.{parse_result-uncompleted}

module _ {F : Type 0} where
  -- The position was in an answer that was read.
  abbrev pub IsReported : List (Option (List (OpenPosition F))) → OpenPosition F → Type 0
  IsReported [] p = ⊥
  IsReported (none ∷ reads) p = IsReported reads p
  IsReported (some positions ∷ reads) p = IsIn p positions ⊎ IsReported reads p

module _ {F : Type 0} ⦃fl : Float F⦄ where
  open fl use {add, sub, lt, le, dec}

  -- The last position of the ticket has the volume.
  pub record HasLast (ticket : ℕ) (ps : List (OpenPosition F)) (volume : F) : Type 0 where
    pub earlier : List (OpenPosition F)
    pub last : OpenPosition F
    pub later : List (OpenPosition F)
    pub list_is : ps ≡ earlier ++ last ∷ later
    pub ticket_is : (last.ticket == ticket) ≡ true
    pub none_later : All (λ q. (q.ticket == ticket) ≡ false) later
    pub volume_is : volume ≡ last.volume

  -- The volume that a ticket had: that of its last position, and zero without one.
  abbrev pub HadVolume : ℕ → List (OpenPosition F) → F → Type 0
  HadVolume ticket ps volume =
      HasLast ticket ps volume ⊎ (All (λ q. (q.ticket == ticket) ≡ false) ps × (volume ≡ nought))

  -- What the reads add to the volume that a position had.
  abbrev pub filled : F → OpenPosition F → F
  filled prior p = max nought (sub p.volume prior)

  -- What a successful opening promises.
  pub record IsBound (magic : ℕ) (side : Side) (requested : F) (before : List (OpenPosition F))
      (info : SymbolInfo F) (reads : List (Option (List (OpenPosition F))))
      (result : ExecutionResult F) : Type 0 where
    pub position : OpenPosition F
    pub reported : IsReported reads position
    pub ticket_is : result.ticket ≡ some position.ticket
    pub side_is : same_side position.side side ≡ true
    pub magic_is : (position.magic == magic) ≡ true
    pub prior : F
    pub had : HadVolume position.ticket before prior
    pub grown : gt (or_nought position.volume) (add prior (dec 1 9)) ≡ true
    pub volume_is : result.volume ≡ some (filled prior position)
    pub filled_some : le (filled prior position) (volume_tolerance info) ≡ false
    pub filled_within : gt (filled prior position) (add requested (volume_tolerance info)) ≡ false
    pub partial_is :
        result.partial ≡ lt (add (filled prior position) (volume_tolerance info)) requested
    pub verified_is : (result.verified ≡ true) × (result.state_changed ≡ true)

  has_later :
      (ticket : ℕ) (p : OpenPosition F) (ps : List (OpenPosition F)) (volume : F)
      → HasLast ticket ps volume
      → HasLast ticket (p ∷ ps) volume
  has_later ticket p ps volume h = record {
    earlier = p ∷ h.earlier;
    last = h.last;
    later = h.later;
    list_is = ap (λ l. p ∷ l) h.list_is;
    ticket_is = h.ticket_is;
    none_later = h.none_later;
    volume_is = h.volume_is;
  }

  -- The loop over the positions before the order, from what it has found so far.
  volume_before_found :
      (acc : F) (ps : List (OpenPosition F)) (ticket : ℕ)
      → HasLast ticket ps (volume_before acc ps ticket)
        ⊎ (All (λ p. (p.ticket == ticket) ≡ false) ps × (volume_before acc ps ticket ≡ acc))
  volume_before_found acc [] ticket = inr (tt, refl)
  volume_before_found acc (p ∷ ps) ticket = elim (Bool-cases (p.ticket == ticket)) [
    | inl same ↦ rw same (elim (volume_before_found p.volume ps ticket) [
      | inl found ↦ inl (has_later ticket p ps _ found)
      | inr (none_later, is) ↦ inl record {
        earlier = [];
        last = p;
        later = ps;
        list_is = refl;
        ticket_is = same;
        none_later = none_later;
        volume_is = is;
      }
    ])
    | inr other ↦ rw other (elim (volume_before_found acc ps ticket) [
      | inl found ↦ inl (has_later ticket p ps _ found)
      | inr (none_there, is) ↦ inr ((refl, none_there), is)
    ])
  ]

  abbrev IsFound :
      (OpenPosition F → Bool) → List (Option (List (OpenPosition F))) → OpenPosition F → Type 0
  IsFound wanted reads p = (wanted p ≡ true) × IsReported reads p

  first_found-All :
      (P : OpenPosition F → Type 0) (found : List (OpenPosition F))
      (rest : Bool × List (OpenPosition F))
      → All P found
      → All P rest.1
      → All P (or_rest found rest).1
  first_found-All P [] rest h r = r
  first_found-All P (p ∷ ps) rest h r = h

  find_candidates-IsFound :
      (wanted : OpenPosition F → Bool) (query_failed : Bool)
      (reads : List (Option (List (OpenPosition F))))
      → All (IsFound wanted reads) (find_candidates wanted query_failed [] reads).1
  unfolding find_candidates
  find_candidates-IsFound wanted query_failed [] = tt
  find_candidates-IsFound wanted query_failed (none ∷ reads) =
      find_candidates-IsFound wanted true reads
  find_candidates-IsFound wanted query_failed (some positions ∷ reads) =
      let reported = IsFound wanted (some positions ∷ reads) in
      first_found-All reported (filter wanted positions) (find_candidates wanted false [] reads)
        (All-map (λ p. (wanted p ≡ true) × IsIn p positions) reported (filter wanted positions)
          (λ p (w, m). (w, inl m))
          (All-filter (λ p. IsIn p positions) wanted positions (All-IsIn positions)))
        (All-map (IsFound wanted reads) reported _ (λ p (w, m). (w, inr m))
          (find_candidates-IsFound wanted false reads))

  only-All :
      (P : OpenPosition F → Type 0) (xs : List (OpenPosition F)) {p : OpenPosition F}
      → All P xs
      → only xs ≡ some p
      → P p
  only-All P [] h e = cc
  only-All P (x ∷ []) h e = subst P (ground arith) h.0
  only-All P (x ∷ y ∷ ys) h e = cc

  or_only-All :
      (P : OpenPosition F → Type 0) (preferred : Option (OpenPosition F))
      (xs : List (OpenPosition F)) {p : OpenPosition F}
      → ((q : OpenPosition F) → preferred ≡ some q → P q)
      → All P xs
      → or_only preferred xs ≡ some p
      → P p
  or_only-All P none xs f h e = only-All P xs h e
  or_only-All P (some q) xs {p = p} f h e = f p e

  -- The position that an answer is bound to is one of the candidates.
  bound-All :
      (P : OpenPosition F → Type 0) (answer : SendResult F) (xs : List (OpenPosition F))
      {p : OpenPosition F}
      → All P xs
      → or_only (only (filter (is_named answer) xs)) xs ≡ some p
      → P p
  bound-All P answer xs h =
      or_only-All P (only (filter (is_named answer) xs)) xs
        (λ q e.
          (only-All (λ x. (is_named answer x ≡ true) × P x) (filter (is_named answer) xs)
            (All-filter P (is_named answer) xs h) e).1)
        h

  module _ (magic : ℕ) (side : Side) (requested : F) (before : List (OpenPosition F))
      (info : SymbolInfo F) (reads : List (Option (List (OpenPosition F))))
      (parsed : ExecutionResult F) where
    abbrev IsSuccess : ExecutionResult F → Type 0
    IsSuccess result = result.success ≡ true → IsBound magic side requested before info reads result

    bind_volume-IsBound :
        (p : OpenPosition F)
        → IsFound (is_candidate magic side before) reads p
        → IsSuccess (
            bind_volume parsed requested
              (volume_tolerance info)
              p
              (filled (volume_before nought before p.ticket) p))
    bind_volume-IsBound p (wanted, reported) =
        elim (Bool-cases
          (le (filled (volume_before nought before p.ticket) p) (volume_tolerance info))) [
            | inl empty ↦ rw empty (λ s. cc)
            | inr some_volume ↦
                elim (Bool-cases (
                  gt (filled (volume_before nought before p.ticket) p)
                    (add requested (volume_tolerance info)))) [
                      | inl excess ↦ rw (some_volume, excess) (λ s. cc)
                      | inr fits ↦
                          rw (some_volume, fits)
                            (λ s. record {
                              position = p;
                              reported = reported;
                              ticket_is = refl;
                              side_is = ground arith;
                              magic_is = ground arith;
                              prior = volume_before nought before p.ticket;
                              had = volume_before_found nought before p.ticket;
                              grown = ground arith;
                              volume_is = refl;
                              filled_some = some_volume;
                              filled_within = fits;
                              partial_is = refl;
                              verified_is = (refl, refl);
                            })
                    ]
          ]

    bind_position-IsBound :
        (o : Option (OpenPosition F))
        → ((p : OpenPosition F) → o ≡ some p → IsFound (is_candidate magic side before) reads p)
        → IsSuccess (bind_position parsed requested before info o)
    bind_position-IsBound none f s = cc
    bind_position-IsBound (some p) f s = bind_volume-IsBound p (f p refl) s

    bind_candidates-IsBound :
        (answer : SendResult F) (found : Bool × List (OpenPosition F))
        → All (IsFound (is_candidate magic side before) reads) found.1
        → IsSuccess (bind_candidates answer parsed requested before info found)
    bind_candidates-IsBound answer (true, cs) h s = cc
    bind_candidates-IsBound answer (false, []) h s = cc
    bind_candidates-IsBound answer (false, c ∷ cs) h s =
        bind_position-IsBound _
          (λ p e. bound-All (IsFound (is_candidate magic side before) reads) answer (c ∷ cs) h e) s

  completed_open :
      (magic : ℕ) (answer : SendResult F) (side : Side) (requested : F)
      (before : List (OpenPosition F)) (info : SymbolInfo F)
      (reads : List (Option (List (OpenPosition F))))
      → completed_retcode (some answer) ≡ true
      → IsSuccess magic side requested before info reads (parse_result (some answer)) (
          bind_candidates answer
            (parse_result (some answer))
            requested
            before
            info
            (find_candidates (is_candidate magic side before) false [] reads))
      → IsSuccess magic side requested before info reads (parse_result (some answer)) (
          reconcile_open_result magic
            (some answer)
            (parse_result (some answer))
            side
            requested
            before
            info
            reads)
  unfolding reconcile_open_result completed_retcode
  completed_open magic answer side requested before info reads done bound = rw done bound

  -- An opening is successful only if the broker completed the order and one of the reads of its
  -- positions has one of the strategy, on the right side, that has grown since before the order: the
  -- result carries its ticket and the volume by which it grew, which is more than the tolerance and
  -- not above the requested volume by more than it; and the result is marked verified.
  pub reconcile_open_result-IsBound :
      (magic : ℕ) (answer : Option (SendResult F)) (side : Side) (requested : F)
      (before : List (OpenPosition F)) (info : SymbolInfo F)
      (reads : List (Option (List (OpenPosition F))))
      → let result =
          reconcile_open_result magic answer
            (parse_result answer)
            side
            requested
            before
            info
            reads in
        result.success ≡ true
        → (completed_retcode answer ≡ true) × IsBound magic side requested before info reads result
  unfolding reconcile_open_result completed_retcode
  reconcile_open_result-IsBound magic none side requested before info reads s =
      cc ((parse_result-uncompleted {F = F} none refl).0, s)
  reconcile_open_result-IsBound magic (some answer) side requested before info reads s =
      elim (Bool-cases (completed_retcode (some answer))) [
        | inr open_order ↦ ground (arith, parse_result-uncompleted (some answer) open_order)
        | inl done ↦
            let bound =
              bind_candidates-IsBound magic side requested before info reads
                (parse_result (some answer)) answer
                (find_candidates (is_candidate magic side before) false [] reads)
                (find_candidates-IsFound (is_candidate magic side before) false reads) in
            (done, completed_open magic answer side requested before info reads done bound s)
      ]
