-- ===== src/Universe/Rotation.antt =====
-- A batch has no repetitions, respects its bound, and skips no market of the catalog.
use llm_trade.Prelude.{
  from_first, ℕ, zero, suc, ◌+◌, ◌%◌, ◌≤◌, ◌<◌, ◌≡◌, refl, ap, true, false, ◌||◌, List, [], ◌∷◌,
  ◌++◌, length, arith, Bool-cases, inl, inr,
}
use llm_trade.Text.{Text, member, same_text}
use llm_trade.Universe.{
  is_empty, market_name, new_names, set_of, market_at, Gathered, gather, batch_room, rotate,
  discovery_batch,
}

-- No name of the list is in the set or occurs earlier in the list.
abbrev pub AreFresh : List Text → List Text → Type 0
AreFresh known [] = Unit
AreFresh known (x ∷ xs) = (member x known ≡ false) × AreFresh (x ∷ known) xs

new_names-AreFresh : (known names : List Text) → AreFresh known (new_names known names)
unfolding new_names
new_names-AreFresh known [] = tt
new_names-AreFresh known (name ∷ names) =
    elim (Bool-cases (is_empty (market_name name) || member (market_name name) known)) [
      | inl skipped ↦ rw skipped (new_names-AreFresh known names)
      | inr fresh ↦ rw fresh (ground arith, new_names-AreFresh (market_name name ∷ known) names)
    ]

append-AreFresh :
    (known xs ys : List Text)
    → AreFresh known xs
    → AreFresh (set_of known xs) ys
    → AreFresh known (xs ++ ys)
append-AreFresh known [] ys f g = g
append-AreFresh known (x ∷ xs) ys (f, fs) g = (f, append-AreFresh (x ∷ known) xs ys fs g)

member-append : (x : Text) (xs ys : List Text) → member x (xs ++ ys) ≡ (member x xs || member x ys)
member-append x [] ys = refl
member-append x (y ∷ xs) ys = ground (arith, member-append x xs ys)

member-set_of :
    (x : Text) (known xs : List Text) → member x (set_of known xs) ≡ (member x known || member x xs)
member-set_of x known [] = ground arith
member-set_of x known (y ∷ xs) = ground (arith, member-set_of x (y ∷ known) xs)

pub same_text_refl : (x : Text) → same_text x x ≡ true
same_text_refl [] = refl
same_text_refl (c ∷ cs) = ground (arith, same_text_refl cs)

batch_room-positive : (n : ℕ) → 1 ≤ batch_room n
batch_room-positive zero = omega arith
batch_room-positive (suc n) = omega arith

in_batch :
    (xs ys : List Text) (x : Text)
    → member x (set_of (set_of [] xs) ys) ≡ true
    → member x (xs ++ ys) ≡ true
in_batch xs ys x h =
    ground (arith, member-set_of x (set_of [] xs) ys, member-set_of x [] xs, member-append x xs ys)

module _ (universe : List Text) (start : ℕ) where
  -- What the loop promises, from a set, a position and the room for extras.
  record IsGathered (left visited room : ℕ) (known : List Text) (found : Gathered) : Type 0 where
    fresh : AreFresh known found.extras
    bounded : length found.extras ≤ room
    forward : visited ≤ found.visited
    within : found.visited ≤ visited + left
    moves : 1 ≤ left → 1 ≤ room → visited < found.visited
    seen :
        (i : ℕ)
        → visited ≤ i
        → i < found.visited
        → is_empty (market_at universe start i) ≡ false
        → member (market_at universe start i) (set_of known found.extras) ≡ true
    exhausted : found.visited < visited + left → length found.extras ≡ room

  gather-IsGathered :
      (left visited room : ℕ) (known : List Text)
      → IsGathered left visited room known (gather universe start left visited room known)
  unfolding gather
  gather-IsGathered zero visited room known = record {
    fresh = tt;
    bounded = omega arith;
    forward = omega arith;
    within = omega arith;
    moves = λ l r. absurd (omega arith);
    seen = λ i l h e. absurd (omega arith);
    exhausted = λ h. absurd (omega arith);
  }
  gather-IsGathered (suc left) visited zero known = record {
    fresh = tt;
    bounded = omega arith;
    forward = omega arith;
    within = omega arith;
    moves = λ l r. absurd (omega arith);
    seen = λ i l h e. absurd (omega arith);
    exhausted = λ h. refl;
  }
  gather-IsGathered (suc left) visited (suc room) known =
      let market = market_at universe start visited in
      elim (Bool-cases (is_empty market || member market known)) [
        | inl skipped ↦
            let rest = gather-IsGathered left (suc visited) (suc room) known in
            let found = gather universe start left (suc visited) (suc room) known in
            rw skipped record {
              fresh = rest.fresh;
              bounded = rest.bounded;
              forward = omega (arith, rest.forward);
              within = omega (arith, rest.within);
              moves = λ l r. omega (arith, rest.forward);
              seen =
                  from_first visited
                    (λ h e. ground (arith, member-set_of market known found.extras)) rest.seen;
              exhausted = λ h. rest.exhausted (omega (arith, h));
            }
        | inr taken ↦
            let rest = gather-IsGathered left (suc visited) room (market ∷ known) in
            let found = gather universe start left (suc visited) room (market ∷ known) in
            rw taken record {
              fresh = (ground arith, rest.fresh);
              bounded = omega (arith, rest.bounded);
              forward = omega (arith, rest.forward);
              within = omega (arith, rest.within);
              moves = λ l r. omega (arith, rest.forward);
              seen =
                  from_first visited
                    (λ h e. ground (
                      arith,
                      member-set_of market (market ∷ known) found.extras,
                      same_text_refl market,
                    ))
                    rest.seen;
              exhausted = λ h. ap suc (rest.exhausted (omega (arith, h)));
            }
      ]

-- What a batch promises: the configured and selected markets first, then at most the allowed number
-- of extras, no market twice, and a cursor that has moved past markets that are all in the batch;
-- fewer extras than allowed only after a whole round.
pub record IsBatch (priority universe : List Text) (cursor room : ℕ) (batch : List Text × ℕ)
    : Type 0 where
  pub extras : List Text
  pub visited : ℕ
  pub batch_is : batch.0 ≡ priority ++ extras
  pub distinct : AreFresh [] batch.0
  pub bounded : length extras ≤ room
  pub moved : (1 ≤ visited) × (visited ≤ length universe)
  pub cursor_is : batch.1 ≡ (cursor % length universe + visited) % length universe
  pub in_range : batch.1 < length universe
  pub seen :
      (i : ℕ)
      → i < visited
      → is_empty (market_at universe (cursor % length universe) i) ≡ false
      → member (market_at universe (cursor % length universe) i) batch.0 ≡ true
  pub exhausted : visited < length universe → length extras ≡ room

rotate-IsBatch :
    (priority : List Text) (u : Text) (us : List Text) (cursor batch_size : ℕ)
    → AreFresh [] priority
    → IsBatch priority
        (u ∷ us)
        cursor
        (batch_room batch_size)
        (rotate priority (u ∷ us) cursor batch_size)
rotate-IsBatch priority u us cursor batch_size f =
    let universe = u ∷ us in
    let start = cursor % length universe in
    let room = batch_room batch_size in
    let known = set_of [] priority in
    let found = gather universe start (length universe) 0 room known in
    let g = gather-IsGathered universe start (length universe) 0 room known in
    record {
      extras = found.extras;
      visited = found.visited;
      batch_is = refl;
      distinct = append-AreFresh [] priority found.extras f g.fresh;
      bounded = g.bounded;
      moved = (g.moves (omega arith) (batch_room-positive batch_size), omega (arith, g.within));
      cursor_is = refl;
      in_range = omega arith;
      seen = λ i h e. in_batch priority found.extras _ (g.seen i (omega arith) h e);
      exhausted = λ h. g.exhausted (omega (arith, h));
    }

-- With a catalog, a batch holds the configured and selected markets, then at most the allowed number
-- of new ones, and no market twice; the cursor moves on by at least one place and at most a round;
-- every named market that it moves past is in the batch, so rotation skips none; and there are fewer
-- new ones than allowed only after a whole round.
pub discovery_batch-IsBatch :
    (configured selected : List Text) (u : Text) (us : List Text) (cursor batch_size : ℕ)
    → IsBatch
        (new_names [] (configured ++ selected))
        (u ∷ us)
        cursor
        (batch_room batch_size)
        (discovery_batch configured selected (u ∷ us) cursor batch_size)
unfolding discovery_batch
discovery_batch-IsBatch configured selected u us cursor batch_size =
    rotate-IsBatch (new_names [] (configured ++ selected)) u us cursor batch_size
      (new_names-AreFresh [] (configured ++ selected))
