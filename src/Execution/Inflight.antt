-- ===== src/Execution/Inflight.antt =====
-- The guard of `MT5OrderExecutor` against duplicates: a public operation enters with its key in the
-- set of requests in flight, and leaves it in a `finally`. The keys "SYMBOL:SIDE", "CLOSE:ticket" and
-- "MODIFY:ticket" are constructors; a full and a partial close share one.
pub mod Exclusive
use llm_trade.Prelude.{
  ℕ, Bool, true, false, not, ◌&&◌, ◌||◌, Option, none, some, List, [], ◌∷◌, any, filter,
  if◌then◌else◌, ◌==◌, ◌≡◌,
}
use llm_trade.Text.{Text, same_text}
use llm_trade.Risk.Trade.{Side, buy, sell}
use llm_trade.Execution.{ExecError, shutting_down, duplicate_request}
use llm_trade.Execution.OpenResult.{same_side}

pub data Key : Type 0 where
  open_key : Text → Side → Key
  close_key modify_key : ℕ → Key

abbrev pub same_key : Key → Key → Bool
same_key (open_key s a) (open_key t b) = same_text s t && same_side a b
same_key (close_key m) (close_key n) = m == n
same_key (modify_key m) (modify_key n) = m == n
same_key _ _ = false

abbrev pub has : Key → List Key → Bool
has key = any (same_key key)

-- `running` is not in the object: the operations that have entered and not left.
pub record Executor : Type 0 where
  pub accepting_work : Bool
  pub inflight : List Key
  pub running : List Key

unfoldable pub new_executor : Executor
new_executor = record { accepting_work = true; inflight = []; running = [] }

-- The guards of a public operation; `none` is an entry.
unfoldable pub enter : Key → Executor → Option ExecError × Executor
enter key s =
    if not s.accepting_work
    then (some shutting_down, s)
    else if has key s.inflight
    then (some duplicate_request, s)
    else (none, record s { inflight = key ∷ s.inflight; running = key ∷ s.running })

abbrev pub remove_first : Key → List Key → List Key
remove_first key [] = []
remove_first key (k ∷ ks) = if same_key key k then ks else k ∷ remove_first key ks

-- `self._inflight.discard(key)` when an operation ends
unfoldable pub leave : Key → Executor → Executor
leave key s = record s {
  inflight = filter (λ k. not (same_key key k)) s.inflight;
  running = remove_first key s.running;
}

unfoldable pub begin_shutdown : Executor → Executor
begin_shutdown s = record s { accepting_work = false }

unfoldable pub resume : Executor → Executor
resume s = record s { accepting_work = true }

-- Operations interleave: any may enter at any time, and those that run may end in any order.
pub data Step (s : Executor) : Executor → Type 0 where
  enters : (key : Key) → Step s (enter key s).1
  leaves : (key : Key) → has key s.running ≡ true → Step s (leave key s)
  shuts_down : Step s (begin_shutdown s)
  resumes : Step s (resume s)

pub data Reach (s : Executor) : Executor → Type 0 where
  here : Reach s s
  next : {t u : Executor} → Reach s t → Step t u → Reach s u
