-- ===== src/Server/Throttle/Cas.antt =====
-- src/server_adaptor/network_module.cpp, the loops of the Get…Cas and Put…Cas functions as other
-- threads see them. `__sync_bool_compare_and_swap` fails where the counter is no longer the value
-- that was read; the values that a call meets are a list of attempts, which the other threads
-- choose.
use mathlib.Core.Option
use global_cache_adaptor.Common.{
  ℕ, suc, ◌+◌, ◌-◌, ◌≤◌, ◌<◌, ◌≡◌, ◌≢◌, Bool-cases, ◌⊎◌, inl, inr, List, [], ◌∷◌, ◌++◌, Option,
  none, some, arith, ◌==◌, ltb, if◌then◌else◌, u64, length,
}
use global_cache_adaptor.Server.Throttle.{Counters, Limits, get_write_bw_cas, put_write_bw_cas}

-- One round of a loop: the value that the test before the round reads (Put…Cas only), the value
-- that is taken for the old one, and the value of the counter at the compare-and-swap.
pub record Attempt : Type 0 where
  pub tested : ℕ
  pub seen : ℕ
  pub actual : ℕ

-- A round in which no other thread runs.
abbrev pub calm : ℕ → Attempt
calm v = record { tested = v; seen = v; actual = v }

-- The loop of a Get…Cas function: the old value and the one written, or `none` while it still spins.
unfoldable pub get_loop : ℕ → List Attempt → Option (ℕ × ℕ)
get_loop c [] = none
get_loop c (a ∷ as') =
    if a.seen == a.actual then some (a.seen, u64 (a.seen + c)) else get_loop c as'

pub data Put : Type 0 where
  spins : Put
  gives_up : Put
  writes : ℕ → ℕ → Put

-- The loop of PutWriteBWCas, and of the other Put…Cas functions with a guard `counter < c`; those with
-- the guard `counter == 0` are the case c = 1.
unfoldable pub put_loop : ℕ → List Attempt → Put
put_loop c [] = spins
put_loop c (a ∷ as') =
    let rest = put_loop c as' in
    if ltb a.tested c
    then gives_up
    else if a.seen == a.actual
    then writes a.seen (u64 (a.seen + 18446744073709551616 - c))
    else rest

-- The wait that follows a Get…Cas loop: the counter and the limit at each wakeup. It ends when the
-- counter is not above the limit, or the limit is lifted (a limit of 0; the limit of GetlwtCas is
-- fixed, so there only the counter ends it); the result is the number of sleeps.
unfoldable pub wait_loop : ℕ → ℕ → List (ℕ × ℕ) → Option ℕ
wait_loop old limit [] = if ltb limit old then none else some 0
wait_loop old limit ((v, l) ∷ rest) =
    let more = if l == 0 then some 0 else wait_loop v l rest in
    if ltb limit old then Option.map suc more else some 0

-- Without contention the loops are the functions of one step.
pub calm_bw :
    (l : Limits) (c : ℕ) (t : Counters)
    → l.write_bw_limit ≢ 0
    → c < 18446744073709551616
    → t.write_bw < 18446744073709551616
    → (get_loop c (calm t.write_bw ∷ []) ≡ some (t.write_bw, (get_write_bw_cas l c t).0.write_bw))
      × ((put_loop c (calm t.write_bw ∷ []) ≡ gives_up) × (put_write_bw_cas c t ≡ t)
          ⊎ (put_loop c (calm t.write_bw ∷ []) ≡ writes t.write_bw (put_write_bw_cas c t).write_bw))
unfolding get_loop put_loop get_write_bw_cas put_write_bw_cas
calm_bw l c t on hc ht = ground arith

-- The guard and the read of the old value are two reads of the counter: whenever the counter
-- falls below `c` between them, the function wraps the counter round instead of leaving it alone.
pub put_loop_race :
    (c v : ℕ) (a : Attempt) (as' : List Attempt)
    → a.seen ≡ v
    → a.actual ≡ v
    → c ≤ a.tested
    → v < c
    → c < 18446744073709551616
    → put_loop c (a ∷ as') ≡ writes v (18446744073709551616 - (c - v))
unfolding put_loop
put_loop_race c v a as' s e t h b = ground arith

wait_loop_low : (xs : List (ℕ × ℕ)) (old limit : ℕ) → old ≤ limit → wait_loop old limit xs ≡ some 0
unfolding wait_loop
wait_loop_low [] old limit h = ground arith
wait_loop_low ((v, l) ∷ xs) old limit h = ground arith

-- One wakeup: the wait was over before it, or it is over after one more sleep than the rest.
wait_loop_step :
    (xs : List (ℕ × ℕ)) (old limit v l n k : ℕ)
    → (l ≡ 0) ⊎ (wait_loop v l xs ≡ some n)
    → n ≤ k
    → (m : ℕ) × (wait_loop old limit ((v, l) ∷ xs) ≡ some m) × (m ≤ k + 1)
unfolding wait_loop
wait_loop_step xs old limit v l n k h b = elim (Bool-cases (ltb limit old)) [
  | inr low ↦ (0, ground arith, omega arith)
  | inl high ↦ elim (Bool-cases (l == 0)) [
    | inl lifted ↦ (1, ground arith, omega arith)
    | inr set ↦ (suc n, ground arith, omega arith)
  ]
]

-- A wait ends, at the latest at the first wakeup that finds the counter at or under its limit or the
-- limit lifted.
pub wait_loop_ends :
    (xs ys : List (ℕ × ℕ)) (old limit v l : ℕ)
    → (v ≤ l) ⊎ (l ≡ 0)
    → (n : ℕ) × (wait_loop old limit (xs ++ (v, l) ∷ ys) ≡ some n) × (n ≤ length xs + 1)
wait_loop_ends [] ys old limit v l (inl low) =
    wait_loop_step ys old limit v l 0 0 (inr (wait_loop_low ys v l low)) (omega arith)
wait_loop_ends [] ys old limit v l (inr lifted) =
    wait_loop_step ys old limit v l 0 0 (inl lifted) (omega arith)
wait_loop_ends ((w, m) ∷ xs) ys old limit v l h =
    let (n, e, b) = wait_loop_ends xs ys w m v l h in
    let (k, e', b') =
      wait_loop_step (xs ++ (v, l) ∷ ys) old limit w m n (length xs + 1) (inr e) b in
    (k, e', omega arith)
