-- ===== src/Proxy/Semaphore.antt =====
-- src/ceph_proxy/utils.h, class Semaphore: an atomic counter in front of a blocking one. A call of
-- PostOne or Wait is two atomic steps, between which other threads run; the numbers of threads
-- between their steps are part of the state. `Sem` is a condition variable: who finds its count at 0
-- sleeps, and a post wakes one sleeper in a step behind that of the count. The counters are of type
-- int; a step that would wrap one is left out by its premise.
pub mod Permits
use global_cache_adaptor.Common.{ℕ, ◌+◌, ◌-◌, ◌≤◌, ◌<◌, ◌≡◌, ◌==◌, Bool, true, false, if◌then◌else◌}
use global_cache_adaptor.Common.Int.{ℤ, pos, negsuc, succ, pred, is_neg, pos_part, neg_part}

pub record Semaphore : Type 0 where
  pub count : ℤ  -- `count`, of the fast path
  pub sem : ℕ  -- `semaphore.count`, which is never below 0
  pub posting : ℕ  -- threads in PostOne, before `++count` of `semaphore.Post()`
  pub notifying : ℕ  -- threads in `semaphore.Post()`, before `cv.notify_one()`
  pub waiting : ℕ  -- threads in `semaphore.Wait()`, before the test of its condition
  pub asleep : ℕ  -- threads in `cv.wait`, asleep
  pub posts : ℕ  -- calls of PostOne so far
  pub passed : ℕ  -- calls of Wait that have returned so far

-- Semaphore(c).
unfoldable pub create : ℕ → Semaphore
create c = record {
  count = pos c;
  sem = 0;
  posting = 0;
  notifying = 0;
  waiting = 0;
  asleep = 0;
  posts = 0;
  passed = 0;
}

-- PostOne: `fetch_add`, and the test of the value before it.
unfoldable pub post_one : Semaphore → Semaphore
post_one s =
    let t = record s { count = succ s.count; posts = s.posts + 1 } in
    if is_neg s.count then record t { posting = s.posting + 1 } else t

-- Sem::Post, under its lock.
unfoldable pub sem_post : Semaphore → Semaphore
sem_post s = record s { sem = s.sem + 1; posting = s.posting - 1; notifying = s.notifying + 1 }

-- `cv.notify_one()`, which does nothing when no thread sleeps.
unfoldable pub notify_one : Semaphore → Semaphore
notify_one s =
    let t = record s { notifying = s.notifying - 1 } in
    if s.asleep == 0 then t else record t { asleep = s.asleep - 1; waiting = s.waiting + 1 }

-- `c < 1`.
abbrev pub below_one : ℤ → Bool
below_one c = is_neg (pred c)

-- Wait: `fetch_sub`, and the test of the value before it.
unfoldable pub wait : Semaphore → Semaphore
wait s =
    let t = record s { count = pred s.count } in
    if below_one s.count
    then record t { waiting = s.waiting + 1 }
    else record t { passed = s.passed + 1 }

-- Sem::Wait: `--count` where the condition holds, and else the sleep.
unfoldable pub sem_wait : Semaphore → Semaphore
sem_wait s = record s { sem = s.sem - 1; waiting = s.waiting - 1; passed = s.passed + 1 }

unfoldable pub sleep : Semaphore → Semaphore
sleep s = record s { waiting = s.waiting - 1; asleep = s.asleep + 1 }

-- A sleeper that wakes without a notification.
unfoldable pub wake : Semaphore → Semaphore
wake s = record s { asleep = s.asleep - 1; waiting = s.waiting + 1 }

pub data Step : Semaphore → Semaphore → Type 0 where
  posts_one : (s : Semaphore) → pos_part s.count < 2147483647 → Step s (post_one s)
  sem_posts : (s : Semaphore) → 0 < s.posting → s.sem < 2147483647 → Step s (sem_post s)
  notifies : (s : Semaphore) → 0 < s.notifying → Step s (notify_one s)
  waits : (s : Semaphore) → neg_part s.count < 2147483648 → Step s (wait s)
  sem_waits : (s : Semaphore) → 0 < s.waiting → 0 < s.sem → Step s (sem_wait s)
  sleeps : (s : Semaphore) → 0 < s.waiting → s.sem ≡ 0 → Step s (sleep s)
  wakes : (s : Semaphore) → 0 < s.asleep → Step s (wake s)

pub data Reach (c : ℕ) : Semaphore → Type 0 where
  here : c ≤ 2147483647 → Reach c (create c)
  next : {s t : Semaphore} → Reach c s → Step s t → Reach c t
