-- ===== src/Server/Dispatch/Passes.antt =====
-- One pass of the worker's loop over `dealQueue`, in src/server_adaptor/network_module.cpp.
use global_cache_adaptor.Common.{
  ℕ, ◌+◌, ◌≡◌, ◌≢◌, refl, Bool, List, [], ◌∷◌, ◌++◌, Option, none, some, u64, arith, length,
}
use global_cache_adaptor.Common.Bytes.{Bytes}
use global_cache_adaptor.Server.Throttle.{Limits, Counters, get_lwt_cas, put_lwt_cas, release}
use global_cache_adaptor.Server.MsgModule.{Buffer}
use global_cache_adaptor.Server.OpRequest.{
  MosdOp, SaOpReq, Outcome, done, refused, dropped, thrown, process_op_req,
}
use global_cache_adaptor.Server.Dispatch.{
  ClientOpQueue, Worker, Shared, Network, create_work_thread, pop_heads, settle, deal_one,
  finish_cache_ops, einval, Reach,
}
use global_cache_adaptor.Server.Dispatch.Order.{dispatch-Serves}

module _ (b : Buffer) (read_stat : Bool) where
  -- In every reachable state, a pass over a `dealQueue` that is not empty pops no empty queue: it ends
  -- with a next state, unless ProcessOpReq throws on its head.
  pub deal_one_defined :
      (hash : Bytes → ℕ) (queue_num capacity : ℕ) (l : Limits) (t : Counters) {n : Network}
      → Reach b read_stat hash queue_num capacity l (create_work_thread t) n
      → (i : ℕ) (m : MosdOp) (ms : List MosdOp) → (n.workers i).deal.req_queue ≡ m ∷ ms
      → process_op_req b read_stat m ≢ thrown
      → (w : Worker) × (s : Shared) × (deal_one b read_stat l (n.workers i) n.shared ≡ some (w, s))
  unfolding deal_one
  deal_one_defined hash queue_num capacity l t {n} r i m ms e h =
      let v = dispatch-Serves b read_stat hash queue_num capacity l t r i in
      by_heads (n.workers i) (n.workers i).deal.req_queue (n.workers i).deal.ts_queue
        (n.workers i).deal.period e v.deal.ts v.deal.period
    where
      Next : Option (Worker × Shared) → Type 0
      Next o = (w : Worker) × (s : Shared) × (o ≡ some (w, s))

      by_outcome : (o : Outcome SaOpReq) (w : Worker) → o ≢ thrown → Next (settle l m o w n.shared)
      by_outcome (done r) w h = (_, _, refl)
      by_outcome refused w h = (_, _, refl)
      by_outcome dropped w h = (_, _, refl)
      by_outcome thrown w h = ground (arith, h refl)

      by_heads :
          (w : Worker) (qs : List MosdOp) (ts ps : List ℕ)
          → qs ≡ m ∷ ms
          → length ts ≡ length qs
          → length ps ≡ length qs
          → Next (elim (pop_heads qs ts ps) as (λ _. Option (Worker × Shared)) [
            | none ↦ none
            | some (k, rest) ↦
                settle l k
                  (process_op_req b read_stat k)
                  (record w { deal = rest; handled = w.handled ++ k ∷ [] })
                  n.shared
          ])
      by_heads w [] ts ps e lt lp = cc
      by_heads w (k ∷ qs) [] ps e lt lp = cc
      by_heads w (k ∷ qs) (x ∷ ts) [] e lt lp = cc
      by_heads w (k ∷ qs) (x ∷ ts) (y ∷ ps) e lt lp =
          let same : k ≡ m = cc in rw same (by_outcome (process_op_req b read_stat m) _ h)

  -- While the number of requests is limited: a request that is refused for its name, at the head of
  -- `dealQueue`, is answered with -EINVAL and taken off the count of the
  -- requests in progress, on which it was never put: the count goes down by one modulo 2^64. So when
  -- there is no request in progress, the count becomes 2^64 - 1, and that is the value on which the
  -- next GetlwtCas then waits.
  pub deal_one-refused :
      (l : Limits) (w : Worker) (s : Shared) (m : MosdOp) (ms : List MosdOp) (ts ps : List ℕ)
      (x p : ℕ)
      → w.deal.req_queue ≡ m ∷ ms
      → w.deal.ts_queue ≡ x ∷ ts
      → w.deal.period ≡ p ∷ ps
      → process_op_req b read_stat m ≡ refused
      → s.counters.sa_op_throttle ≢ 0
      → (w' : Worker) × (s' : Shared) × (deal_one b read_stat l w s ≡ some (w', s'))
        × (s'.replies ≡ s.replies ++ (m, einval) ∷ [])
        × (s'.counters.lwt_count ≡ u64 (s.counters.lwt_count + 18446744073709551615))
        × (s.counters.lwt_count ≡ 0 → (get_lwt_cas 1 s'.counters).1 ≡ some 18446744073709551615)
  unfolding deal_one finish_cache_ops get_lwt_cas release put_lwt_cas
  deal_one-refused l w s m ms ts ps x p eq et ep r h =
      let rest : ClientOpQueue = record { req_queue = ms; ts_queue = ts; period = ps } in
      let after : Worker = record w { deal = rest; handled = w.handled ++ m ∷ [] } in
      let t : Counters = put_lwt_cas s.counters in
      let s' : Shared = record s { counters = t; replies = s.replies ++ (m, einval) ∷ [] } in
      (after, s', rw (eq, et, ep, r), refl, ground arith, ground arith)
