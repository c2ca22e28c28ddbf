-- ===== src/Execution/Inflight/Exclusive.antt =====
-- No two operations with one key run at the same time.
use mathlib.Core.Logic.{◌↔◌}
use llm_trade.Prelude.{
  ◌≡◌, refl, sym, subst, ◌∙◌, true, false, not, ◌&&◌, none, List, [], ◌∷◌, filter, arith,
  Bool-cases, inl, inr,
}
use llm_trade.Text.{Text, same_text}
use llm_trade.Universe.Rotation.{same_text_refl}
use llm_trade.Risk.Trade.{Side}
use llm_trade.Execution.OpenResult.{same_side}
use llm_trade.Execution.Inflight.{
  Key, open_key, close_key, modify_key, same_key, has, Executor, new_executor, enter, remove_first,
  leave, begin_shutdown, resume, Step, enters, leaves, shuts_down, resumes, Reach, here, next,
}

same_text_sound : (x y : Text) → same_text x y ≡ true → x ≡ y
same_text_sound [] [] h = refl
same_text_sound (c ∷ cs) (d ∷ ds) h = ground (arith, same_text_sound cs ds)
same_text_sound [] (d ∷ ds) h = cc
same_text_sound (c ∷ cs) [] h = cc

same_key_sound : (j k : Key) → same_key j k ≡ true → j ≡ k
same_key_sound (open_key s a) (open_key t b) h = ground (arith, same_text_sound s t)
same_key_sound (close_key m) (close_key n) h = ground arith
same_key_sound (modify_key m) (modify_key n) h = ground arith
same_key_sound (open_key s a) (close_key n) h = cc
same_key_sound (open_key s a) (modify_key n) h = cc
same_key_sound (close_key m) (open_key t b) h = cc
same_key_sound (close_key m) (modify_key n) h = cc
same_key_sound (modify_key m) (open_key t b) h = cc
same_key_sound (modify_key m) (close_key n) h = cc

abbrev pub AreDistinct : List Key → Type 0
AreDistinct [] = Unit
AreDistinct (k ∷ ks) = (has k ks ≡ false) × AreDistinct ks

-- The keys in flight are those of the running operations, which have different ones.
pub record IsExclusive (s : Executor) : Type 0 where
  pub distinct : AreDistinct s.running
  pub tracked : (key : Key) → has key s.inflight ≡ has key s.running

same_side_refl : (a : Side) → same_side a a ≡ true
same_side_refl a = ground arith

same_key_refl : (k : Key) → same_key k k ≡ true
same_key_refl (open_key s a) = ground (arith, same_text_refl s, same_side_refl a)
same_key_refl (close_key n) = ground arith
same_key_refl (modify_key n) = ground arith

same_key_sym : (j k : Key) → same_key j k ≡ true → same_key k j ≡ true
same_key_sym j k h = subst (λ x. same_key k x ≡ true) (sym (same_key_sound j k h)) (same_key_refl k)

same_key_trans : (i j k : Key) → same_key i j ≡ true → same_key j k ≡ true → same_key i k ≡ true
same_key_trans i j k h g = subst (λ x. same_key i x ≡ true) (same_key_sound j k g) h

has-filter :
    (key k : Key) (ks : List Key)
    → has key (filter (λ x. not (same_key k x)) ks) ≡ (not (same_key k key) && has key ks)
has-filter key k [] = ground arith
has-filter key k (x ∷ xs) =
    ground (
      arith,
      has-filter key k xs,
      same_key_sym key x,
      same_key_trans k x key,
      same_key_trans k key x,
    )

has_fresh :
    (key x : Key) (xs : List Key) → has x xs ≡ false → same_key x key ≡ true → has key xs ≡ false
has_fresh key x xs h s = subst (λ y. has y xs ≡ false) (same_key_sound x key s) h

has-remove_first :
    (key k : Key) (ks : List Key)
    → AreDistinct ks
    → has key (remove_first k ks) ≡ (not (same_key k key) && has key ks)
has-remove_first key k [] d = ground arith
has-remove_first key k (x ∷ xs) (fresh, d) = elim (Bool-cases (same_key k x)) [
  | inl same ↦ ground (
    arith,
    has_fresh key x xs fresh,
    same_key_sym key x,
    same_key_trans k x key,
    same_key_trans x k key,
    same_key_sym k x,
  )
  | inr other ↦
      ground (arith, has-remove_first key k xs d, same_key_sym key x, same_key_trans k key x)
]

remove_first-AreDistinct :
    (k : Key) (ks : List Key) → AreDistinct ks → AreDistinct (remove_first k ks)
remove_first-AreDistinct k [] d = tt
remove_first-AreDistinct k (x ∷ xs) (fresh, d) = elim (Bool-cases (same_key k x)) [
  | inl same ↦ rw same d
  | inr other ↦
      rw other (ground (arith, has-remove_first x k xs d), remove_first-AreDistinct k xs d)
]

enter-IsExclusive : (key : Key) (s : Executor) → IsExclusive s → IsExclusive (enter key s).1
unfolding enter
enter-IsExclusive key s e = elim (Bool-cases (not s.accepting_work)) [
  | inl shut ↦ rw shut e
  | inr accepts ↦ elim (Bool-cases (has key s.inflight)) [
    | inl held ↦ rw (accepts, held) e
    | inr free ↦
        rw (accepts, free)
          record {
            distinct = (sym (e.tracked key) ∙ free, e.distinct);
            tracked = λ k. ground (arith, e.tracked k);
          }
  ]
]

leave-IsExclusive : (key : Key) (s : Executor) → IsExclusive s → IsExclusive (leave key s)
unfolding leave
leave-IsExclusive key s e = record {
  distinct = remove_first-AreDistinct key s.running e.distinct;
  tracked = λ k. ground (
    arith,
    has-filter k key s.inflight,
    has-remove_first k key s.running e.distinct,
    e.tracked k,
  );
}

Step-IsExclusive : {s t : Executor} → Step s t → IsExclusive s → IsExclusive t
unfolding begin_shutdown resume
Step-IsExclusive {s = s} (enters key) e = enter-IsExclusive key s e
Step-IsExclusive {s = s} (leaves key runs) e = leave-IsExclusive key s e
Step-IsExclusive shuts_down e = record { distinct = e.distinct; tracked = e.tracked }
Step-IsExclusive resumes e = record { distinct = e.distinct; tracked = e.tracked }

Reach-IsExclusive : {s t : Executor} → IsExclusive s → Reach s t → IsExclusive t
Reach-IsExclusive e here = e
Reach-IsExclusive e (next r st) = Step-IsExclusive st (Reach-IsExclusive e r)

enter_iff :
    (key : Key) (s : Executor)
    → IsExclusive s
    → ((enter key s).0 ≡ none) ↔ ((s.accepting_work ≡ true) × (has key s.running ≡ false))
unfolding enter
enter_iff key s e = ((λ h. ground (arith, e.tracked key)), λ h. ground (arith, e.tracked key))

-- Whatever operations enter and leave, in any order and with any shutdowns between, the running ones
-- have different keys and are the ones in flight; and an operation is let in exactly where the
-- executor accepts work and none with its key runs.
pub running-IsExclusive :
    {s : Executor}
    → Reach new_executor s
    → IsExclusive s
      × ((key : Key)
          → ((enter key s).0 ≡ none) ↔ ((s.accepting_work ≡ true) × (has key s.running ≡ false)))
unfolding new_executor
running-IsExclusive {s = s} r =
    let e = Reach-IsExclusive (record { distinct = tt; tracked = λ k. refl }) r in
    (e, λ key. enter_iff key s e)
