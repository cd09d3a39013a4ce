-- ===== src/Proxy/Tests/Workers.antt =====
-- Runs of the models of src/ceph_proxy/RadosWorker.cc and CephProxy.cc on concrete inputs.
use global_cache_adaptor.Common.{
  ℕ, ◌%◌, ◌≡◌, refl, arith, Bool, true, [], ◌∷◌, ◌++◌, some, u32, get_elem?,
}
use global_cache_adaptor.Common.Bytes.{Bytes, bytes}
use global_cache_adaptor.Common.Int.{pos}
use global_cache_adaptor.Common.OrdMap.{lookup}
use global_cache_adaptor.Proxy.IoCtx.{CephProxy, get_io_ctx_with_client}
use global_cache_adaptor.Proxy.IoCtx.Complete.{IsComplete, Given, get_io_ctx_with_client-Given}
use global_cache_adaptor.Proxy.RadosWorker.{
  RequestCtx, IoWorker, new_io_worker, Rados, enqueue, queues, goes_on, posts, wakes, takes, Reach,
  start, next, get_io_worker, rados_worker_queue, waiting, draining, handle,
}
use global_cache_adaptor.Proxy.RadosWorker.Serving.{IsServing, Reach-IsServing}
use global_cache_adaptor.Proxy.RadosWorker.Placing.{rados_worker_queue-order}

abbrev request : ℕ → RequestCtx
request n = record { pool_id = pos 3; object_id = bytes "obj"; tag = n }

abbrev cluster : Rados
cluster = record { get_io_ctx_with_client = λ p. some 1; aio_operate = λ c io. pos 0 }

-- A thread that waits takes the first of two requests.
abbrev asleep : IoWorker
asleep = record new_io_worker { place = waiting }

abbrev awake : IoWorker
awake = record (enqueue (request 2) (enqueue (request 1) asleep)) { posting = 1; place = draining }

served :
    Reach cluster
      (record awake { queue = request 2 ∷ []; done = (request 1, handle cluster (request 1)) ∷ [] })
unfolding new_io_worker
served =
    next
      (next
        (next
          (next (next (next start (goes_on new_io_worker refl refl)) (queues (request 1) asleep))
            (queues (request 2) (enqueue (request 1) asleep)))
          (posts 1 (enqueue (request 2) (enqueue (request 1) asleep)) refl (omega arith)))
        (wakes 0
          (record (enqueue (request 2) (enqueue (request 1) asleep)) { posting = 1; permits = 1 })
          refl refl))
      (takes (request 1) (request 2 ∷ []) awake refl refl)

Reach-IsServing_example :
    IsServing cluster
      (record awake { queue = request 2 ∷ []; done = (request 1, handle cluster (request 1)) ∷ [] })
Reach-IsServing_example = Reach-IsServing cluster served

abbrev sum : Bytes → ℕ
sum [] = 0
sum (b ∷ s) = b

rados_worker_queue-order_example :
    let first = rados_worker_queue sum 4 (some (request 1)) [] in
    let second = rados_worker_queue sum 4 (some (request 2)) first.1 in
    (first.0 ≡ pos 0)
    × (second.0 ≡ pos 0)
    × (get_elem? (get_io_worker 4 3 second.1) (u32 (sum (bytes "obj")) % 4)
        ≡ some ([] ++ request 1 ∷ request 2 ∷ []))
    × (lookup 5 second.1 ≡ lookup 5 [])
unfolding get_io_worker
rados_worker_queue-order_example =
    rados_worker_queue-order sum 4 3 (request 1) (request 2) [] [] 5 refl refl refl refl refl

-- Two clients, of which it is the second one's turn, and no pool.
abbrev two_clients : CephProxy
two_clients = record {
  io_client_vec = 10 ∷ 20 ∷ [];
  vec_mask = 1;
  count = 3;
  p_map = [];
  attempts = 0;
}

abbrev always : ℕ → Bool
always n = true

two_clients-IsComplete : IsComplete two_clients
two_clients-IsComplete pool m h = ground arith

get_io_ctx_with_client-Given_example :
    Given 4 20 two_clients (get_io_ctx_with_client always 4 two_clients)
get_io_ctx_with_client-Given_example =
    get_io_ctx_with_client-Given always 4 20 two_clients two_clients-IsComplete refl
