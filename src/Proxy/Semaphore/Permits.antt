-- ===== src/Proxy/Semaphore/Permits.antt =====
-- What every interleaving of the callers of the semaphore keeps.
use global_cache_adaptor.Common.{ℕ, ◌+◌, ◌≤◌, ◌<◌, ◌≡◌, arith}
use global_cache_adaptor.Common.Int.{pos_part, neg_part}
use global_cache_adaptor.Proxy.Semaphore.{
  Semaphore, create, post_one, sem_post, wait, sem_wait, Step, posts_one, sem_posts, waits,
  sem_waits, notify_one, sleep, wake, notifies, sleeps, wakes, Reach, here, next,
}

-- Every waiter is covered by a post that is on its way, or by a debt of the counter; every permit is in
-- the counter, on its way, or used; and while a thread sleeps, there is a thread for each count of the
-- inner semaphore that will test it or that will notify.
pub record Inv (c : ℕ) (s : Semaphore) : Type 0 where
  pub covered : s.waiting + s.asleep ≡ s.sem + s.posting + neg_part s.count
  pub conserved : c + s.posts ≡ s.passed + s.sem + s.posting + pos_part s.count
  pub awake : 0 < s.asleep → s.sem ≤ s.waiting + s.notifying

Step-Inv : {c : ℕ} {s t : Semaphore} → Step s t → Inv c s → Inv c t
unfolding post_one sem_post notify_one wait sem_wait sleep wake
Step-Inv (posts_one s b) v = ground arith
Step-Inv (sem_posts s h b) v = ground arith
Step-Inv (notifies s h) v = ground arith
Step-Inv (waits s b) v = ground arith
Step-Inv (sem_waits s h k) v = ground arith
Step-Inv (sleeps s h e) v = ground arith
Step-Inv (wakes s h) v = ground arith

Reach-Inv : {c : ℕ} {s : Semaphore} → Reach c s → Inv c s
unfolding create
Reach-Inv (here b) = ground arith
Reach-Inv (next r st) = Step-Inv st (Reach-Inv r)

-- From a semaphore with at most 2^31 - 1 permits, as long as its two counters stay within int: in every
-- state that any interleaving of calls of PostOne and Wait reaches, no more calls of Wait have returned
-- than there were permits at the start and posts since.
pub passed-le : {c : ℕ} {s : Semaphore} → Reach c s → s.passed ≤ c + s.posts
passed-le r = let v = Reach-Inv r in omega arith
