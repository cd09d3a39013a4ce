-- ===== src/Proxy/RadosWorker/Placing.antt =====
-- RadosWorker::Queue: the requests of an object wait in one queue, in their order.
use global_cache_adaptor.Common.{
  ℕ, zero, suc, ◌%◌, ◌≡◌, refl, sym, ap, arith, false, List, [], ◌∷◌, ◌++◌, some, ◌==◌, ==_refl,
  u32, get_elem?, append_assoc,
}
use mathlib.Core.Option
use global_cache_adaptor.Common.Bytes.{Bytes}
use global_cache_adaptor.Common.Int.{ℤ, pos, negsuc, neg}
use global_cache_adaptor.Common.OrdMap.{lookup, insert, lookup-insert}
use global_cache_adaptor.Proxy.RadosWorker.{
  RequestCtx, Workers, push_at, get_io_worker, rados_worker_queue,
}

push_at_end :
    (i : ℕ) (ctx : RequestCtx) (qs : List (List RequestCtx)) (q : List RequestCtx)
    → get_elem? qs i ≡ some q
    → get_elem? (push_at i ctx qs) i ≡ some (q ++ ctx ∷ [])
push_at_end i ctx [] q h = ground arith
push_at_end zero ctx (p ∷ qs) q h = ap (λ o. Option.map (λ r. r ++ ctx ∷ []) o) h
push_at_end (suc i) ctx (p ∷ qs) q h = push_at_end i ctx qs q h

queued :
    (hash : Bytes → ℕ) (n pool : ℕ) (c : RequestCtx) (ws : Workers)
    → c.pool_id ≡ pos pool
    → rados_worker_queue hash n (some c) ws
      ≡ (pos 0, insert pool (push_at (u32 (hash c.object_id) % n) c (get_io_worker n pool ws)) ws)
unfolding rados_worker_queue
queued hash n pool c ws e = by_pool c.pool_id e
  where
    by_pool :
        (z : ℤ)
        → z ≡ pos pool
        → ◌≡◌ {A = ℤ × Workers}
            (elim z [
              | negsuc m ↦ (neg 1, ws)
              | pos j ↦ (
                pos 0,
                insert j (push_at (u32 (hash c.object_id) % n) c (get_io_worker n j ws)) ws,
              )
            ])
            (
              pos 0,
              insert pool (push_at (u32 (hash c.object_id) % n) c (get_io_worker n pool ws)) ws,
            )
    by_pool z q = rw (q) refl

get_io_worker-insert :
    (n pool : ℕ) (qs : List (List RequestCtx)) (ws : Workers)
    → get_io_worker n pool (insert pool qs ws) ≡ qs
unfolding get_io_worker
get_io_worker-insert n pool qs ws =
    rw (get_io_worker, lookup-insert pool pool qs ws, ==_refl pool) refl

-- When the queue of a pool that the hash of an object picks holds the requests `q`, and a request
-- for the object and then a second one are queued, both calls succeed, and the same queue of the
-- pool, and no queue of another pool, holds `q`, the first and the second request in this order.
pub rados_worker_queue-order :
    (hash : Bytes → ℕ) (n pool : ℕ) (a b : RequestCtx) (q : List RequestCtx) (ws : Workers) (p : ℕ)
    → (pool == p) ≡ false
    → a.pool_id ≡ pos pool
    → b.pool_id ≡ pos pool
    → b.object_id ≡ a.object_id
    → get_elem? (get_io_worker n pool ws) (u32 (hash a.object_id) % n) ≡ some q
    → let first = rados_worker_queue hash n (some a) ws in
      let second = rados_worker_queue hash n (some b) first.1 in
      (first.0 ≡ pos 0)
      × (second.0 ≡ pos 0)
      × (get_elem? (get_io_worker n pool second.1) (u32 (hash a.object_id) % n)
          ≡ some (q ++ a ∷ b ∷ []))
      × (lookup p second.1 ≡ lookup p ws)
rados_worker_queue-order hash n pool a b q ws p np ea eb eo h =
    rw
      (
        queued hash n pool a ws ea,
        queued hash n pool b ws1 eb,
        same_index,
        get_io_worker-insert n pool qs1 ws,
        get_io_worker-insert n pool qs2 ws1,
        lookup-insert pool p qs2 ws1,
        lookup-insert pool p qs1 ws,
        np,
      )
      (refl, refl, last, refl)
  where
    i : ℕ
    i = u32 (hash a.object_id) % n

    same_index : u32 (hash b.object_id) % n ≡ u32 (hash a.object_id) % n
    same_index = ap (λ t. u32 (hash t) % n) eo

    qs1 : List (List RequestCtx)
    qs1 = push_at i a (get_io_worker n pool ws)

    ws1 : Workers
    ws1 = insert pool qs1 ws

    qs2 : List (List RequestCtx)
    qs2 = push_at i b qs1

    last : get_elem? qs2 i ≡ some (q ++ a ∷ b ∷ [])
    last =
        rw (sym (append_assoc q (a ∷ []) (b ∷ [])))
          (push_at_end i b qs1 (q ++ a ∷ []) (push_at_end i a (get_io_worker n pool ws) q h))
