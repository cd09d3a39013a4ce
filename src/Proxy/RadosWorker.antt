-- ===== src/Proxy/RadosWorker.antt =====
-- src/ceph_proxy/RadosWorker.h and RadosWorker.cc: the requests that wait for a pool's threads, and
-- the loop of one thread (OpHandler), as steps that may come in any order. A queue is the list that
-- Proxy.ConcurrentQueue implements, and a semaphore the number of its permits, which is an int: a post
-- has a premise that it does not wrap.
pub mod Serving
pub mod Placing
use global_cache_adaptor.Common.{
  ℕ, zero, suc, ◌%◌, ◌<◌, Bool, true, false, ◌≡◌, List, [], ◌∷◌, ◌++◌, Option, none, some, u32,
  replicate,
}
use global_cache_adaptor.Common.Bytes.{Bytes}
use global_cache_adaptor.Common.Int.{ℤ, pos, negsuc, neg, is_neg}
use global_cache_adaptor.Common.OrdMap.{OrdMap, lookup, insert}

-- An operation with its completion.
pub record RequestCtx : Type 0 where
  pub pool_id : ℤ
  pub object_id : Bytes
  pub tag : ℕ

-- What becomes of a request: its callback is called with a code, or it is sent, and librados calls
-- the callback later.
pub data Outcome : Type 0 where
  answered : ℤ → Outcome
  sent : Outcome

-- Where a thread is: at the test of the stop flag, in Wait, in the inner loop, or at its end.
pub data Place : Type 0 where
  testing waiting draining ended : Place

-- One thread with its queue and semaphore. `posting` counts the calls of PostOne that are still to
-- come, `done` is what it has handled, and `accepted` all that was put into the queue.
pub record IoWorker : Type 0 where
  pub queue : List RequestCtx
  pub permits : ℕ
  pub posting : ℕ
  pub stop : Bool
  pub place : Place
  pub done : List (RequestCtx × Outcome)
  pub accepted : List RequestCtx

unfoldable pub new_io_worker : IoWorker
new_io_worker = record {
  queue = [];
  permits = 0;
  posting = 0;
  stop = false;
  place = testing;
  done = [];
  accepted = [];
}

-- GetIoCtxWithClient, where `none` is a null pointer, and RadosOperationAioOperate.
pub record Rados : Type 0 where
  pub get_io_ctx_with_client : ℤ → Option ℕ
  pub aio_operate : RequestCtx → ℕ → ℤ

-- The body of the inner loop.
unfoldable pub handle : Rados → RequestCtx → Outcome
handle io ctx = elim (io.get_io_ctx_with_client ctx.pool_id) [
  | none ↦ answered (neg 2)
  | some ioctx ↦
      let ret = io.aio_operate ctx ioctx in elim (is_neg ret) [ true ↦ answered ret | false ↦ sent ]
]

-- RadosIOWorker::Queue up to PostOne.
abbrev pub enqueue : RequestCtx → IoWorker → IoWorker
enqueue ctx w = record w {
  queue = w.queue ++ ctx ∷ [];
  posting = suc w.posting;
  accepted = w.accepted ++ ctx ∷ [];
}

-- The steps of a thread, of those that queue requests, and of Stop. WaitForEmpty sets the flag and
-- then posts.
pub data Step (io : Rados) : IoWorker → IoWorker → Type 0 where
  queues : (ctx : RequestCtx) (w : IoWorker) → Step io w (enqueue ctx w)
  posts :
      (n : ℕ) (w : IoWorker)
      → w.posting ≡ suc n
      → w.permits < 2147483647
      → Step io w (record w { posting = n; permits = suc w.permits })
  stops : (w : IoWorker) → Step io w (record w { stop = true; posting = suc w.posting })
  goes_on :
      (w : IoWorker) → w.place ≡ testing → w.stop ≡ false → Step io w (record w { place = waiting })
  ends : (w : IoWorker) → w.place ≡ testing → w.stop ≡ true → Step io w (record w { place = ended })
  wakes :
      (n : ℕ) (w : IoWorker)
      → w.place ≡ waiting
      → w.permits ≡ suc n
      → Step io w (record w { place = draining; permits = n })
  takes :
      (ctx : RequestCtx) (rest : List RequestCtx) (w : IoWorker)
      → w.place ≡ draining
      → w.queue ≡ ctx ∷ rest
      → Step io w (record w { queue = rest; done = w.done ++ (ctx, handle io ctx) ∷ [] })
  finds_none :
      (w : IoWorker) → w.place ≡ draining → w.queue ≡ [] → Step io w (record w { place = testing })

pub data Reach (io : Rados) : IoWorker → Type 0 where
  start : Reach io new_io_worker
  next : {w w' : IoWorker} → Reach io w → Step io w w' → Reach io w'

-- The queues of the threads of each pool.
abbrev pub Workers : Type 0
Workers = OrdMap (List (List RequestCtx))

-- `queue[index]->Enqueue(ctx)`.
abbrev pub push_at : ℕ → RequestCtx → List (List RequestCtx) → List (List RequestCtx)
push_at i ctx [] = []
push_at zero ctx (q ∷ qs) = (q ++ ctx ∷ []) ∷ qs
push_at (suc i) ctx (q ∷ qs) = q ∷ push_at i ctx qs

-- GetIOWorker, and CreateIOWorker where there is none: the pool's queues.
unfoldable pub get_io_worker : ℕ → ℕ → Workers → List (List RequestCtx)
get_io_worker thread_num pool ws = elim (lookup pool ws) [
  | none ↦ replicate thread_num []
  | some qs ↦ qs
]

-- RadosWorker::Queue: the code, and the queues. `none` is a null operation or completion.
unfoldable pub rados_worker_queue : (Bytes → ℕ) → ℕ → Option RequestCtx → Workers → ℤ × Workers
rados_worker_queue hash thread_num none ws = (neg 1, ws)
rados_worker_queue hash thread_num (some ctx) ws = elim ctx.pool_id [
  | negsuc n ↦ (neg 1, ws)
  | pos pool ↦ (
    pos 0,
    insert pool
        (push_at (u32 (hash ctx.object_id) % thread_num) ctx (get_io_worker thread_num pool ws)) ws,
  )
]
