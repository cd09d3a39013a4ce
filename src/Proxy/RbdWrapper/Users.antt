-- ===== src/Proxy/RbdWrapper/Users.antt =====
-- src/ceph_proxy/RbdWrapper.cc: threads that use the shared client at the same time. Each step is one
-- section under the lock of `gProxyCtx`, or work between two of them.
use global_cache_adaptor.Common.{
  ℕ, zero, suc, ◌<◌, ◌==◌, ◌≡◌, refl, ap, sym, arith, Bool, true, false, List, [], if◌then◌else◌,
}
use mathlib.Core.Path.{subst}
use global_cache_adaptor.Common.Bytes.{Bytes}
use global_cache_adaptor.Common.Int.{is_neg}
use global_cache_adaptor.Proxy.RbdWrapper.{
  Call, Cluster, ProxyCtx, World, init_client, shutdown_client,
}
use global_cache_adaptor.Proxy.RbdWrapper.Client.{
  less_ref, more_ref, first_ref, clear_flag, init_locked, fast_init_rados, rados_shutdown,
}
use global_cache_adaptor.Proxy.RbdWrapper.Balance.{
  left, init_locked-Ends, rados_shutdown-left, fast_init_rados-ctx,
}
use global_cache_adaptor.Proxy.RbdWrapper.Steps.{NoPositive, entered, entered_first}
use global_cache_adaptor.Proxy.RbdWrapper.Survey.{on_failure, on_success}

-- The static variable at the start.
abbrev pub fresh : World
fresh = record {
  ctx = record { init_flag = false; ref = 0; clients = 0; contexts = 0; images = 0 };
  calls = [];
}

-- The numbers say how many threads are between RadosInit and RadosShutdown; they stay below what an
-- `int` counts.
pub data Step (k : Cluster) : ℕ → World → ℕ → World → Type 0 where
  -- The first section of RadosInit, when the client is there.
  joins :
      (m : List (Bytes × Bytes)) (n : ℕ) (w : World)
      → w.ctx.init_flag ≡ true
      → n < 2147483646
      → Step k n w (suc n) (fast_init_rados k m w)
  -- The first section of RadosInit, when it is not.
  passes : (n : ℕ) (w : World) → w.ctx.init_flag ≡ false → Step k n w n w
  -- The second section.
  enters :
      (m : List (Bytes × Bytes)) (n : ℕ) (w : World)
      → is_neg (init_locked k m w).0 ≡ false
      → n < 2147483646
      → Step k n w (suc n) (init_locked k m w).1
  fails :
      (m : List (Bytes × Bytes)) (n : ℕ) (w : World)
      → is_neg (init_locked k m w).0 ≡ true
      → Step k n w n (init_locked k m w).1
  -- Calls, contexts and images of a thread that uses the client.
  works :
      (n contexts images : ℕ) (calls : List Call) (w : World)
      → Step k
          (suc n)
          w
          (suc n)
          (record { ctx = record w.ctx { contexts = contexts; images = images }; calls = calls })
  leaves : (n : ℕ) (w : World) → Step k (suc n) w n (rados_shutdown k w)

pub data Reach (k : Cluster) : ℕ → World → Type 0 where
  start : Reach k 0 fresh
  next : (n m : ℕ) (w w' : World) → Reach k n w → Step k n w m w' → Reach k m w'

-- The client is there, and connected once, while there are users, and the counter is their number.
abbrev pub Shared : ℕ → ProxyCtx → Type 0
Shared zero c = (c.init_flag ≡ false) × (c.ref ≡ 0) × (c.clients ≡ 0)
Shared (suc n) c = (c.init_flag ≡ true) × (c.ref ≡ suc n) × (c.clients ≡ 1) × (suc n < 2147483647)

join-Shared :
    (n : ℕ) (c : ProxyCtx)
    → Shared n c
    → c.init_flag ≡ true
    → n < 2147483646
    → Shared (suc n) (more_ref c)
join-Shared zero c s f h = ground arith
join-Shared (suc n) c (s, r, l, b) f h = (s, omega arith, l, omega arith)

entered-Shared : (n : ℕ) (c : ProxyCtx) → Shared n c → n < 2147483646 → Shared (suc n) (entered c)
entered-Shared zero c s h =
    subst (Shared 1) (sym (entered_first c s.0)) (refl, refl, omega arith, omega arith)
entered-Shared (suc n) c s h =
    let more : entered c ≡ more_ref c =
      ap (λ b. if b then more_ref c else first_ref (init_client c)) s.0 in
    subst (Shared (suc (suc n))) (sym more) (join-Shared (suc n) c s s.0 h)

left_by :
    (b : Bool) (c : ProxyCtx)
    → ((less_ref c).ref == 0) ≡ b
    → left c ≡ (if b then clear_flag (shutdown_client (less_ref c)) else less_ref c)
left_by b c q = ap (λ x. if x then clear_flag (shutdown_client (less_ref c)) else less_ref c) q

left-Shared : (n : ℕ) (c : ProxyCtx) → Shared (suc n) c → Shared n (left c)
left-Shared zero c (s, r, l, b) =
    let last : ((less_ref c).ref == 0) ≡ true = ground arith in
    subst (Shared 0) (sym (left_by true c last)) (refl, omega arith, omega arith)
left-Shared (suc n) c (s, r, l, b) =
    let others : ((less_ref c).ref == 0) ≡ false = ground arith in
    subst (Shared (suc n)) (sym (left_by false c others)) (s, omega arith, l, omega arith)

step-Shared :
    (k : Cluster)
    → NoPositive k
    → (n m : ℕ) (w w' : World) → Step k n w m w'
    → Shared n w.ctx
    → Shared m w'.ctx
step-Shared k p _ _ _ _ (joins c n w f h) s =
    subst (Shared (suc n)) (sym (fast_init_rados-ctx k c w f)) (join-Shared n w.ctx s f h)
step-Shared k p _ _ _ _ (passes n w f) s = s
step-Shared k p _ _ _ _ (enters c n w f h) s =
    subst (Shared (suc n)) (sym (on_success _ _ (init_locked k c w) (init_locked-Ends k p c w) f))
      (entered-Shared n w.ctx s h)
step-Shared k p _ _ _ _ (fails c n w f) s =
    subst (Shared n) (sym (on_failure _ _ (init_locked k c w) (init_locked-Ends k p c w) f)) s
step-Shared k p _ _ _ _ (works n contexts images calls w) s = s
step-Shared k p _ _ _ _ (leaves n w) s =
    subst (Shared n) (sym (rados_shutdown-left k w)) (left-Shared n w.ctx s)

-- If no call of librados or of the configuration library gives a positive code where 0 is success, then
-- threads that use the functions at the same time, in any interleaving of their sections, keep this:
-- without a user the client is not there, nothing is connected and the counter is 0; with users the
-- client is there, it is connected exactly once, and the counter is the number of the users.
pub Reach-Shared : (k : Cluster) → NoPositive k → (n : ℕ) (w : World) → Reach k n w → Shared n w.ctx
Reach-Shared k p _ _ start = (refl, refl, refl)
Reach-Shared k p _ _ (next n m w w' r step) = step-Shared k p n m w w' step (Reach-Shared k p n w r)
