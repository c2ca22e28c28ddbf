-- ===== src/Universe.antt =====
-- core/market_universe.py: the batch of markets that a scan looks at, with a cursor that rotates
-- through the broker's catalog. The cursor is a number that an earlier call returned, or zero.
pub mod Rotation
mod Tests
use llm_trade.Prelude.{
  ℕ, zero, suc, ◌+◌, ◌%◌, Bool, true, false, not, ◌&&◌, ◌||◌, List, [], ◌∷◌, ◌++◌, length,
  if◌then◌else◌, leb, ◌==◌,
}
use llm_trade.Text.{Text, upper, member}

abbrev pub is_space : ℕ → Bool
is_space c = c == b' ' || (leb 9 c && leb c 13) || (leb 28 c && leb c 31)

abbrev pub is_empty : Text → Bool
is_empty [] = true
is_empty (c ∷ cs) = false

abbrev pub strip_left : Text → Text
strip_left [] = []
strip_left (c ∷ cs) = if is_space c then strip_left cs else c ∷ cs

abbrev pub strip_right : Text → Text
strip_right [] = []
strip_right (c ∷ cs) =
    let rest = strip_right cs in if is_space c && is_empty rest then [] else c ∷ rest

-- `name.strip().upper()`
unfoldable pub market_name : Text → Text
market_name name = upper (strip_right (strip_left name))

-- The names that are not known yet, without those that are empty and without repetitions.
unfoldable pub new_names : List Text → List Text → List Text
new_names known [] = []
new_names known (name ∷ names) =
    let market = market_name name in
    if is_empty market || member market known
    then new_names known names
    else market ∷ new_names (market ∷ known) names

-- A set, as a list in no particular order, with more members.
abbrev pub set_of : List Text → List Text → List Text
set_of known [] = known
set_of known (x ∷ xs) = set_of (x ∷ known) xs

abbrev pub name_at : List Text → ℕ → Text
name_at [] i = []
name_at (name ∷ names) zero = name
name_at (name ∷ names) (suc i) = name_at names i

-- `universe[(start + visited) % len(universe)].strip().upper()`
abbrev pub market_at : List Text → ℕ → ℕ → Text
market_at universe start visited =
    market_name (name_at universe ((start + visited) % length universe))

-- What the loop returns: the extras, and how far it came.
pub record Gathered : Type 0 where
  pub extras : List Text
  pub visited : ℕ

abbrev pub with_extra : Text → Gathered → Gathered
with_extra market rest = record { extras = market ∷ rest.extras; visited = rest.visited }

-- The loop, while markets of the catalog are left that it has not visited and there is room for
-- another extra.
unfoldable pub gather : List Text → ℕ → ℕ → ℕ → ℕ → List Text → Gathered
gather universe start zero visited room known = record { extras = []; visited = visited }
gather universe start (suc left) visited zero known = record { extras = []; visited = visited }
gather universe start (suc left) visited (suc room) known =
    let market = market_at universe start visited in
    if is_empty market || member market known
    then gather universe start left (suc visited) (suc room) known
    else with_extra market (gather universe start left (suc visited) room (market ∷ known))

-- `max(1, batch_size)`
abbrev pub batch_room : ℕ → ℕ
batch_room zero = 1
batch_room (suc n) = suc n

abbrev pub with_priority : List Text → ℕ → ℕ → Gathered → List Text × ℕ
with_priority priority start size found = (priority ++ found.extras, (start + found.visited) % size)

abbrev pub rotate : List Text → List Text → ℕ → ℕ → List Text × ℕ
rotate priority [] cursor batch_size = (priority, 0)
rotate priority (u ∷ us) cursor batch_size =
    let universe = u ∷ us in
    let size = length universe in
    let start = cursor % size in
    with_priority priority start size
      (gather universe start size 0 (batch_room batch_size) (set_of [] priority))

unfoldable pub discovery_batch : List Text → List Text → List Text → ℕ → ℕ → List Text × ℕ
discovery_batch configured selected universe cursor batch_size =
    rotate (new_names [] (configured ++ selected)) universe cursor batch_size
