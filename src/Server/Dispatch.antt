-- ===== src/Server/Dispatch.antt =====
-- src/server_adaptor/client_op_queue.h and src/server_adaptor/network_module.cpp: the queues between
-- the messenger's threads, which call EnqueueClientop, and the worker threads, which run
-- OpHandlerThread. A mutex guards each queue, so a call under it is one step.
pub mod Order
pub mod Passes
use global_cache_adaptor.Common.{
  ℕ, ◌+◌, ◌%◌, ◌≡◌, Bool, true, false, List, [], ◌∷◌, ◌++◌, Option, none, some, ◌==◌, ltb,
  if◌then◌else◌, length,
}
use global_cache_adaptor.Common.Bytes.{Bytes}
use global_cache_adaptor.Common.Int.{ℤ, negsuc}
use global_cache_adaptor.Server.Throttle.{
  Limits, Counters, OptionType, gcache_default, admit, release,
}
use global_cache_adaptor.Server.MsgModule.{Buffer}
use global_cache_adaptor.Server.OpRequest.{
  MosdOp, SaOpReq, Outcome, done, refused, dropped, thrown, process_op_req,
}

-- Three queues, which are pushed and swapped together.
pub record ClientOpQueue : Type 0 where
  pub req_queue : List MosdOp
  pub ts_queue : List ℕ
  pub period : List ℕ

unfoldable pub en_queue : MosdOp → ℕ → ℕ → ClientOpQueue → ClientOpQueue
en_queue m ts p q = record {
  req_queue = q.req_queue ++ m ∷ [];
  ts_queue = q.ts_queue ++ ts ∷ [];
  period = q.period ++ p ∷ [];
}

abbrev pub get_size : ClientOpQueue → ℕ
get_size q = length q.req_queue

abbrev pub is_empty : ClientOpQueue → Bool
is_empty q = get_size q == 0

abbrev pub no_queue : ClientOpQueue
no_queue = record { req_queue = []; ts_queue = []; period = [] }

-- A worker thread with its queue. `handled` and `passed` record the calls of ProcessOpReq and of
-- DoOneOps, in their order.
pub record Worker : Type 0 where
  pub queue : ClientOpQueue
  pub waiting : List MosdOp  -- the calls of EnqueueClientop that wait on `cond`
  pub deal : ClientOpQueue  -- dealQueue, dealTs and periodTs
  pub holding : Option (MosdOp × SaOpReq)  -- counted in, and before DoOneOps
  pub copyup_flag : Bool
  pub handled : List MosdOp
  pub passed : List MosdOp

-- What the threads share.
pub record Shared : Type 0 where
  pub counters : Counters
  pub in_flight : List (MosdOp × SaOpReq)
  pub replies : List (MosdOp × ℤ)

-- `arrived` records the calls of EnQueue on all queues, in their order.
pub record Network : Type 0 where
  pub workers : ℕ → Worker
  pub shared : Shared
  pub arrived : List MosdOp

-- CreateWorkThread: no thread has anything to do.
abbrev pub new_worker : Worker
new_worker = record {
  queue = no_queue;
  waiting = [];
  deal = no_queue;
  holding = none;
  copyup_flag = false;
  handled = [];
  passed = [];
}

unfoldable pub create_work_thread : Counters → Network
create_work_thread t = record {
  workers = λ i. new_worker;
  shared = record { counters = t; in_flight = []; replies = [] };
  arrived = [];
}

abbrev pub set_worker : ℕ → Worker → (ℕ → Worker) → ℕ → Worker
set_worker i w ws j = if j == i then w else ws j

-- FinishCacheOps: the reply, and the counters.
unfoldable pub finish_cache_ops : MosdOp → OptionType → ℕ → ℤ → Shared → Shared
finish_cache_ops m kind len r s = record s {
  counters = release kind len s.counters;
  replies = s.replies ++ (m, r) ∷ [];
}

-- -EINVAL.
abbrev pub einval : ℤ
einval = negsuc 21

-- The rest of the pass over `dealQueue`, up to the wait for `copyupFlag`, when ProcessOpReq has
-- ended. An exception ends the process.
abbrev pub settle : Limits → MosdOp → Outcome SaOpReq → Worker → Shared → Option (Worker × Shared)
settle l m (done r) w s = some (
  record w { holding = some (m, r) },
  record s { counters = admit l r.option_type r.option_length s.counters },
)
settle l m refused w s = some (w, finish_cache_ops m gcache_default 0 einval s)
settle l m dropped w s = some (w, s)
settle l m thrown w s = none

-- The three pops at the head of a pass; on an empty queue they are undefined.
abbrev pub pop_heads : List MosdOp → List ℕ → List ℕ → Option (MosdOp × ClientOpQueue)
pop_heads (m ∷ ms) (t ∷ ts) (p ∷ ps) =
    some (m, record { req_queue = ms; ts_queue = ts; period = ps })
pop_heads _ _ _ = none

abbrev pub pop : ClientOpQueue → Option (MosdOp × ClientOpQueue)
pop q = pop_heads q.req_queue q.ts_queue q.period

-- The worker swaps its queue for the empty one that it has worked off.
unfoldable pub swap_queues : Worker → Worker
swap_queues w = record w { queue = w.deal; deal = w.queue }

-- DoOneOps, and the flag that a copyup leaves set until it is done.
unfoldable pub do_one_ops : MosdOp → SaOpReq → Worker → Shared → Worker × Shared
do_one_ops m r w s = (
  record w { holding = none; copyup_flag = r.exits_copy_up; passed = w.passed ++ m ∷ [] },
  record s { in_flight = (m, r) ∷ s.in_flight },
)

module _ (b : Buffer) (read_stat : Bool) where
  -- One pass of the loop over `dealQueue`.
  unfoldable pub deal_one : Limits → Worker → Shared → Option (Worker × Shared)
  deal_one l w s = elim (pop w.deal) [
    | none ↦ none
    | some (m, rest) ↦
        settle l m (process_op_req b read_stat m)
          (record w { deal = rest; handled = w.handled ++ m ∷ [] }) s
  ]

module _ (hash : Bytes → ℕ) (queue_num : ℕ) where
  -- The queue of an object: std::hash of its name, modulo the number of queues.
  unfoldable pub queue_index : MosdOp → ℕ
  queue_index m = hash m.name % queue_num

module _ (hash : Bytes → ℕ) (queue_num capacity : ℕ) where
  -- EnqueueClientop behind its wait.
  unfoldable pub push_op : MosdOp → ℕ → ℕ → Network → Network
  unfolding queue_index
  push_op m ts p n =
      let i = queue_index hash queue_num m in
      let w = n.workers i in
      record n {
        workers = set_worker i (record w { queue = en_queue m ts p w.queue }) n.workers;
        arrived = n.arrived ++ m ∷ [];
      }

  -- EnqueueClientop: a queue above its capacity makes the call wait, once.
  unfoldable pub enqueue_clientop : MosdOp → ℕ → ℕ → Network → Network
  unfolding queue_index push_op
  enqueue_clientop m ts p n =
      let i = queue_index hash queue_num m in
      let w = n.workers i in
      let waits : Network = record n {
        workers = set_worker i (record w { waiting = m ∷ w.waiting }) n.workers;
      } in
      if ltb capacity (get_size w.queue) then waits else push_op m ts p n

-- Everything that can happen, in any order.
pub data Step (b : Buffer) (read_stat : Bool) (hash : Bytes → ℕ) (queue_num capacity : ℕ)
    (l : Limits) : Network → Network → Type 0 where
  enqueues :
      (n : Network) (m : MosdOp) (ts p : ℕ)
      → Step b read_stat hash queue_num capacity l n
          (enqueue_clientop hash queue_num capacity m ts p n)
  -- A notification, or a wake-up without one, lets a waiting call go on.
  wakes :
      (n : Network) (i : ℕ) (xs : List MosdOp) (m : MosdOp) (ys : List MosdOp) (ts p : ℕ)
      → (n.workers i).waiting ≡ xs ++ m ∷ ys
      → Step b read_stat hash queue_num capacity l n (
          push_op hash queue_num capacity m ts p (record n {
            workers = set_worker i (record (n.workers i) { waiting = xs ++ ys }) n.workers;
          }))
  swaps :
      (n : Network) (i : ℕ)
      → is_empty (n.workers i).queue ≡ false
      → (n.workers i).deal.req_queue ≡ []
      → (n.workers i).holding ≡ none
      → Step b read_stat hash queue_num capacity l n
          (record n { workers = set_worker i (swap_queues (n.workers i)) n.workers })
  deals :
      (n : Network) (i : ℕ) (w : Worker) (s : Shared)
      → (n.workers i).holding ≡ none
      → deal_one b read_stat l (n.workers i) n.shared ≡ some (w, s)
      → Step b read_stat hash queue_num capacity l n
          (record n { workers = set_worker i w n.workers; shared = s })
  passes :
      (n : Network) (i : ℕ) (m : MosdOp) (r : SaOpReq)
      → (n.workers i).holding ≡ some (m, r)
      → (n.workers i).copyup_flag ≡ false
      → Step b read_stat hash queue_num capacity l n (record n {
        workers = set_worker i (do_one_ops m r (n.workers i) n.shared).0 n.workers;
        shared = (do_one_ops m r (n.workers i) n.shared).1;
      })
  clears :
      (n : Network) (i : ℕ)
      → Step b read_stat hash queue_num capacity l n (record n {
        workers = set_worker i (record (n.workers i) { copyup_flag = false }) n.workers;
      })
  finishes :
      (n : Network) (xs : List (MosdOp × SaOpReq)) (m : MosdOp) (r : SaOpReq)
      (ys : List (MosdOp × SaOpReq)) (res : ℤ)
      → n.shared.in_flight ≡ xs ++ (m, r) ∷ ys
      → Step b read_stat hash queue_num capacity l n (record n {
        shared =
            finish_cache_ops m r.option_type r.option_length res
              (record n.shared { in_flight = xs ++ ys });
      })

pub data Reach (b : Buffer) (read_stat : Bool) (hash : Bytes → ℕ) (queue_num capacity : ℕ)
    (l : Limits) (n : Network) : Network → Type 0 where
  here : Reach b read_stat hash queue_num capacity l n n
  next :
      {x y : Network}
      → Reach b read_stat hash queue_num capacity l n x
      → Step b read_stat hash queue_num capacity l x y
      → Reach b read_stat hash queue_num capacity l n y
