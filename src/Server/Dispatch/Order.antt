-- ===== src/Server/Dispatch/Order.antt =====
-- The order in which the worker threads of src/server_adaptor/network_module.cpp serve the operations.
use global_cache_adaptor.Common.{
  ℕ, ◌%◌, ◌≡◌, refl, sym, ap, ◌∙◌, Bool, true, false, List, [], ◌∷◌, ◌++◌, Option, none, some, ◌==◌,
  ltb, if◌then◌else◌, length, keep, keep-append, append-nil, append_assoc, length-append, arith,
}
use global_cache_adaptor.Common.Bytes.{Bytes}
use global_cache_adaptor.Server.Throttle.{Limits, Counters}
use global_cache_adaptor.Server.MsgModule.{Buffer}
use global_cache_adaptor.Server.OpRequest.{
  MosdOp, SaOpReq, Outcome, done, refused, dropped, thrown, process_op_req,
}
use global_cache_adaptor.Server.Dispatch.{
  ClientOpQueue, en_queue, Worker, Shared, Network, create_work_thread, set_worker, pop_heads,
  settle, swap_queues, do_one_ops, deal_one, queue_index, push_op, enqueue_clientop, Step, Reach,
  enqueues, wakes, swaps, deals, passes, clears, finishes, here, next,
}

abbrev is_done : Outcome SaOpReq → Bool
is_done (done r) = true
is_done _ = false

-- ProcessOpReq makes a request of the operation.
abbrev pub accepted : Buffer → Bool → MosdOp → Bool
accepted b read_stat m = is_done (process_op_req b read_stat m)

abbrev pub held : Option (MosdOp × SaOpReq) → List MosdOp
held none = []
held (some (m, r)) = m ∷ []

abbrev pub goes_to : (Bytes → ℕ) → ℕ → ℕ → MosdOp → Bool
goes_to hash queue_num i m = i == queue_index hash queue_num m

abbrev left_with : Worker → Shared → Option (Worker × Shared)
left_with w s = some (w, s)

-- The three queues have one length.
pub record IsParallel (q : ClientOpQueue) : Type 0 where
  pub ts : length q.ts_queue ≡ length q.req_queue
  pub period : length q.period ≡ length q.req_queue

-- A worker that was given the operations `ms`, in this order.
pub record Serves (acc : MosdOp → Bool) (ms : List MosdOp) (w : Worker) : Type 0 where
  pub order : ms ≡ w.handled ++ w.deal.req_queue ++ w.queue.req_queue
  pub sent : keep acc w.handled ≡ w.passed ++ held w.holding
  pub queue : IsParallel w.queue
  pub deal : IsParallel w.deal

module _ {A : Type 0} where
  swap_lists : (h d q ms : List A) → d ≡ [] → ms ≡ h ++ d ++ q → ms ≡ h ++ q ++ d
  swap_lists h [] q ms e f = f ∙ ap (λ l. l ++ q) (append-nil h) ∙ sym (append-nil (h ++ q))
  swap_lists h (x ∷ d) q ms e f = cc

en_queue-IsParallel :
    (m : MosdOp) (ts p : ℕ) (q : ClientOpQueue) → IsParallel q → IsParallel (en_queue m ts p q)
unfolding en_queue
en_queue-IsParallel m ts p q h = record {
  ts = omega (arith, h.ts, length-append q.ts_queue (ts ∷ []), length-append q.req_queue (m ∷ []));
  period =
      omega (arith, h.period, length-append q.period (p ∷ []), length-append q.req_queue (m ∷ []));
}

module _ (acc : MosdOp → Bool) where
  en_queue-Serves :
      (ms : List MosdOp) (m : MosdOp) (ts p : ℕ) (w : Worker)
      → Serves acc ms w
      → Serves acc (ms ++ m ∷ []) (record w { queue = en_queue m ts p w.queue })
  unfolding en_queue
  en_queue-Serves ms m ts p w h = record {
    order =
        ap (λ l. l ++ m ∷ []) h.order
        ∙ append_assoc (w.handled ++ w.deal.req_queue) w.queue.req_queue (m ∷ []);
    sent = h.sent;
    queue = en_queue-IsParallel m ts p w.queue h.queue;
    deal = h.deal;
  }

  swap_queues-Serves :
      (ms : List MosdOp) (w : Worker)
      → w.deal.req_queue ≡ []
      → Serves acc ms w
      → Serves acc ms (swap_queues w)
  unfolding swap_queues
  swap_queues-Serves ms w e h = record {
    order = swap_lists w.handled w.deal.req_queue w.queue.req_queue ms e h.order;
    sent = h.sent;
    queue = h.deal;
    deal = h.queue;
  }

  do_one_ops-Serves :
      (ms : List MosdOp) (m : MosdOp) (r : SaOpReq) (w : Worker) (s : Shared)
      → w.holding ≡ some (m, r)
      → Serves acc ms w
      → Serves acc ms (do_one_ops m r w s).0
  unfolding do_one_ops
  do_one_ops-Serves ms m r w s e h = record {
    order = h.order;
    sent = h.sent ∙ ap (λ o. w.passed ++ held o) e ∙ sym (append-nil (w.passed ++ m ∷ []));
    queue = h.queue;
    deal = h.deal;
  }

  moved :
      (ms : List MosdOp) (w w' : Worker) (s s' : Shared)
      → left_with w s ≡ left_with w' s'
      → Serves acc ms w
      → Serves acc ms w'
  moved ms w w' s s' e h = let same : w' ≡ w = cc in rw same h

  idle :
      (m : MosdOp) (w : Worker) (t : Bool)
      → w.holding ≡ none
      → t ≡ false
      → keep acc w.handled ≡ (if t then w.passed ++ m ∷ [] else w.passed)
      → keep acc w.handled ≡ w.passed ++ held w.holding
  idle m w true e a k = cc
  idle m w false e a k = k ∙ sym (append-nil w.passed) ∙ ap (λ o. w.passed ++ held o) (sym e)

  -- The worker between ProcessOpReq and what follows it.
  settle-Serves :
      (l : Limits) (ms : List MosdOp) (m : MosdOp) (out : Outcome SaOpReq) (w w' : Worker)
      (s s' : Shared)
      → w.holding ≡ none
      → acc m ≡ is_done out
      → ms ≡ w.handled ++ w.deal.req_queue ++ w.queue.req_queue
      → keep acc w.handled ≡ (if acc m then w.passed ++ m ∷ [] else w.passed)
      → IsParallel w.queue
      → IsParallel w.deal
      → settle l m out w s ≡ some (w', s')
      → Serves acc ms w'
  settle-Serves l ms m (done r) w w' s s' e a o k q d h =
      let k' : keep acc w.handled ≡ w.passed ++ m ∷ [] =
        k ∙ ap (λ t. if t then w.passed ++ m ∷ [] else w.passed) a in
      moved ms (record w { holding = some (m, r) }) w' _ s' h
        (record { order = o; sent = k'; queue = q; deal = d })
  settle-Serves l ms m refused w w' s s' e a o k q d h =
      moved ms w w' _ s' h
        (record { order = o; sent = idle m w (acc m) e a k; queue = q; deal = d })
  settle-Serves l ms m dropped w w' s s' e a o k q d h =
      moved ms w w' _ s' h
        (record { order = o; sent = idle m w (acc m) e a k; queue = q; deal = d })
  settle-Serves l ms m thrown w w' s s' e a o k q d h = cc

module _ (b : Buffer) (read_stat : Bool) where
  handled-keep :
      (m : MosdOp) (w : Worker)
      → w.holding ≡ none
      → keep (accepted b read_stat) w.handled ≡ w.passed ++ held w.holding
      → keep (accepted b read_stat) (w.handled ++ m ∷ [])
        ≡ (if accepted b read_stat m then w.passed ++ m ∷ [] else w.passed)
  handled-keep m w e h =
      keep-append (accepted b read_stat) w.handled (m ∷ [])
      ∙ ap (λ l. l ++ keep (accepted b read_stat) (m ∷ []))
          (h ∙ ap (λ o. w.passed ++ held o) e ∙ append-nil w.passed)
      ∙ by_test (accepted b read_stat m)
    where
      by_test :
          (t : Bool)
          → w.passed ++ (if t then m ∷ [] else []) ≡ (if t then w.passed ++ m ∷ [] else w.passed)
      by_test true = refl
      by_test false = append-nil w.passed

  deal_one-Serves :
      (l : Limits) (ms : List MosdOp) (w w' : Worker) (s s' : Shared)
      → w.holding ≡ none
      → deal_one b read_stat l w s ≡ some (w', s')
      → Serves (accepted b read_stat) ms w
      → Serves (accepted b read_stat) ms w'
  unfolding deal_one
  deal_one-Serves l ms w w' s s' e d h =
      by_heads w.deal.req_queue w.deal.ts_queue w.deal.period h.order h.deal.ts h.deal.period d
    where
      after : MosdOp → ClientOpQueue → Worker
      after m rest = record w { deal = rest; handled = w.handled ++ m ∷ [] }

      by_heads :
          (qs : List MosdOp) (ts ps : List ℕ)
          → ms ≡ w.handled ++ qs ++ w.queue.req_queue
          → length ts ≡ length qs
          → length ps ≡ length qs
          → elim (pop_heads qs ts ps) as (λ _. Option (Worker × Shared)) [
            | none ↦ none
            | some (m, rest) ↦ settle l m (process_op_req b read_stat m) (after m rest) s
          ]
            ≡ some (w', s')
          → Serves (accepted b read_stat) ms w'
      by_heads (m ∷ qs) (t ∷ ts) (p ∷ ps) o lt lp d =
          let rest : ClientOpQueue = record { req_queue = qs; ts_queue = ts; period = ps } in
          settle-Serves (accepted b read_stat) l ms m (process_op_req b read_stat m) (after m rest)
            w' s s' e refl
            (o ∙ ap (λ l. l ++ w.queue.req_queue) (sym (append_assoc w.handled (m ∷ []) qs)))
            (handled-keep m w e h.sent) h.queue
            (record { ts = omega (arith, lt); period = omega (arith, lp) }) d
      by_heads [] ts ps o lt lp d = cc
      by_heads (m ∷ qs) [] ps o lt lp d = cc
      by_heads (m ∷ qs) (t ∷ ts) [] o lt lp d = cc

-- Every worker serves the operations that arrived for it.
abbrev Inv : Buffer → Bool → (Bytes → ℕ) → ℕ → Network → Type 0
Inv b read_stat hash queue_num n =
    (i : ℕ)
    → Serves (accepted b read_stat) (keep (goes_to hash queue_num i) n.arrived) (n.workers i)

module _ (b : Buffer) (read_stat : Bool) (hash : Bytes → ℕ) (queue_num : ℕ) where
  -- A change of one worker.
  one_worker :
      (i : ℕ) (w : Worker) (n : Network)
      → Serves (accepted b read_stat) (keep (goes_to hash queue_num i) n.arrived) w
      → Inv b read_stat hash queue_num n
      → (s : Shared)
      → Inv b read_stat hash queue_num (record n { workers = set_worker i w n.workers; shared = s })
  one_worker i w n h inv s j = by_index (j == i) (ground arith)
    where
      by_index :
          (t : Bool)
          → (t ≡ true → j ≡ i)
          → Serves
              (accepted b read_stat)
              (keep (goes_to hash queue_num j) n.arrived)
              (if t then w else n.workers j)
      by_index false e = inv j
      by_index true e = rw (e refl) h

  arrives :
      (capacity : ℕ) (m : MosdOp) (ts p : ℕ) (n : Network)
      → Inv b read_stat hash queue_num n
      → Inv b read_stat hash queue_num (push_op hash queue_num capacity m ts p n)
  unfolding push_op queue_index
  arrives capacity m ts p n inv j =
      rw (keep-append (goes_to hash queue_num j) n.arrived (m ∷ []))
        (by_index (j == i) (ground arith))
    where
      i : ℕ
      i = hash m.name % queue_num

      by_index :
          (t : Bool)
          → (t ≡ true → j ≡ i)
          → Serves
              (accepted b read_stat)
              (keep (goes_to hash queue_num j) n.arrived ++ (if t then m ∷ [] else []))
              (if t
                then record (n.workers i) { queue = en_queue m ts p (n.workers i).queue }
                else n.workers j)
      by_index false e = rw (append-nil (keep (goes_to hash queue_num j) n.arrived)) (inv j)
      by_index true e =
          rw (e refl) (en_queue-Serves (accepted b read_stat) _ m ts p (n.workers i) (inv i))

  same-Serves :
      {ms : List MosdOp} {w w' : Worker}
      → w'.queue ≡ w.queue
      → w'.deal ≡ w.deal
      → w'.holding ≡ w.holding
      → w'.handled ≡ w.handled
      → w'.passed ≡ w.passed
      → Serves (accepted b read_stat) ms w
      → Serves (accepted b read_stat) ms w'
  same-Serves q d o a p h = record {
    order = rw (q, d, a, h.order);
    sent = rw (a, p, o, h.sent);
    queue = rw q h.queue;
    deal = rw d h.deal;
  }

  enqueue_clientop-Inv :
      (capacity : ℕ) (m : MosdOp) (ts p : ℕ) (n : Network)
      → Inv b read_stat hash queue_num n
      → Inv b read_stat hash queue_num (enqueue_clientop hash queue_num capacity m ts p n)
  unfolding enqueue_clientop queue_index
  enqueue_clientop-Inv capacity m ts p n inv =
      by_size (ltb capacity (length (n.workers (hash m.name % queue_num)).queue.req_queue))
    where
      i : ℕ
      i = hash m.name % queue_num

      waits : Network
      waits = record n {
        workers =
            set_worker i (record (n.workers i) { waiting = m ∷ (n.workers i).waiting }) n.workers;
      }

      by_size :
          (t : Bool)
          → Inv b read_stat hash queue_num
              (if t then waits else push_op hash queue_num capacity m ts p n)
      by_size false = arrives capacity m ts p n inv
      by_size true = one_worker i _ n (same-Serves refl refl refl refl refl (inv i)) inv n.shared

  Step-Inv :
      (capacity : ℕ) (l : Limits) {x y : Network}
      → Inv b read_stat hash queue_num x
      → Step b read_stat hash queue_num capacity l x y
      → Inv b read_stat hash queue_num y
  Step-Inv capacity l inv (enqueues n m ts p) = enqueue_clientop-Inv capacity m ts p n inv
  Step-Inv capacity l inv (wakes n i xs m ys ts p e) =
      arrives capacity m ts p _
        (one_worker i _ n (same-Serves refl refl refl refl refl (inv i)) inv n.shared)
  Step-Inv capacity l inv (swaps n i _ e _) =
      one_worker i _ n (swap_queues-Serves (accepted b read_stat) _ (n.workers i) e (inv i)) inv
        n.shared
  Step-Inv capacity l inv (deals n i w s e d) =
      one_worker i w n (deal_one-Serves b read_stat l _ (n.workers i) w n.shared s e d (inv i)) inv
        s
  Step-Inv capacity l inv (passes n i m r e _) =
      one_worker i _ n
        (do_one_ops-Serves (accepted b read_stat) _ m r (n.workers i) n.shared e (inv i)) inv
        (do_one_ops m r (n.workers i) n.shared).1
  Step-Inv capacity l inv (clears n i) =
      one_worker i _ n (same-Serves refl refl refl refl refl (inv i)) inv n.shared
  Step-Inv capacity l inv (finishes n xs m r ys res e) = λ j. inv j

  start-Inv : (t : Counters) → Inv b read_stat hash queue_num (create_work_thread t)
  unfolding create_work_thread
  start-Inv t i = record {
    order = refl;
    sent = refl;
    queue = record { ts = refl; period = refl };
    deal = record { ts = refl; period = refl };
  }

  -- In every interleaving, worker `i` has called ProcessOpReq on the operations whose names hash to `i`
  -- in the order in which EnQueue was called on them, with those in `dealQueue` and then those in its
  -- queue still to come; and it has called DoOneOps, in the same order, on exactly those of the handled
  -- ones that ProcessOpReq made a request of, but for the one that it may hold. The three queues of a
  -- worker have one length, and so have the three that it works off.
  pub dispatch-Serves :
      (capacity : ℕ) (l : Limits) (t : Counters) {n : Network}
      → Reach b read_stat hash queue_num capacity l (create_work_thread t) n
      → (i : ℕ)
      → Serves (accepted b read_stat) (keep (goes_to hash queue_num i) n.arrived) (n.workers i)
  dispatch-Serves capacity l t here = start-Inv t
  dispatch-Serves capacity l t (next r s) = Step-Inv capacity l (dispatch-Serves capacity l t r) s
