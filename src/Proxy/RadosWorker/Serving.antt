-- ===== src/Proxy/RadosWorker/Serving.antt =====
-- OpHandler: no request is lost, doubled or overtaken, and no thread sleeps on requests.
use global_cache_adaptor.Common.{
  ℕ, suc, ◌+◌, ◌≤◌, ◌≡◌, refl, sym, ap, ◌⊎◌, inl, inr, arith, List, [], ◌∷◌, ◌++◌, append_assoc,
}
use global_cache_adaptor.Proxy.RadosWorker.{
  RequestCtx, Outcome, Place, testing, waiting, draining, ended, IoWorker, new_io_worker, Rados,
  handle, Step, queues, posts, stops, goes_on, ends, wakes, takes, finds_none, Reach, start, next,
}

-- The outcomes of requests in their order.
abbrev pub outcomes : Rados → List RequestCtx → List (RequestCtx × Outcome)
outcomes io [] = []
outcomes io (c ∷ cs) = (c, handle io c) ∷ outcomes io cs

outcomes-append :
    (io : Rados) (a b : List RequestCtx) → outcomes io (a ++ b) ≡ outcomes io a ++ outcomes io b
outcomes-append io [] b = refl
outcomes-append io (c ∷ a) b = ap (λ r. (c, handle io c) ∷ r) (outcomes-append io a b)

-- A thread that is not in its inner loop has no requests, or there is or will be a permit for it.
abbrev pub IsAwake : Place → List RequestCtx → ℕ → Type 0
IsAwake testing q n = (q ≡ []) ⊎ (1 ≤ n)
IsAwake waiting q n = (q ≡ []) ⊎ (1 ≤ n)
IsAwake draining q n = Unit
IsAwake ended q n = Unit

pub record IsServing (io : Rados) (w : IoWorker) : Type 0 where
  pub in_order : w.done ++ outcomes io w.queue ≡ outcomes io w.accepted
  pub awake : IsAwake w.place w.queue (w.permits + w.posting)

more : (p : Place) (q r : List RequestCtx) (n : ℕ) → 1 ≤ n → IsAwake p r n
more testing q r n h = inr h
more waiting q r n h = inr h
more draining q r n h = tt
more ended q r n h = tt

weaken : (p : Place) (q : List RequestCtx) (m n : ℕ) → m ≤ n → IsAwake p q m → IsAwake p q n
weaken testing q m n h (inl e) = inl e
weaken testing q m n h (inr g) = inr (omega arith)
weaken waiting q m n h (inl e) = inl e
weaken waiting q m n h (inr g) = inr (omega arith)
weaken draining q m n h a = tt
weaken ended q m n h a = tt

Step-IsServing : (io : Rados) (w w' : IoWorker) → IsServing io w → Step io w w' → IsServing io w'
Step-IsServing io w _ s (queues ctx _) = record {
  in_order =
      rw
        (
          outcomes-append io w.queue (ctx ∷ []),
          outcomes-append io w.accepted (ctx ∷ []),
          sym (append_assoc w.done (outcomes io w.queue) ((ctx, handle io ctx) ∷ [])),
          s.in_order,
        )
        refl;
  awake = more w.place w.queue (w.queue ++ ctx ∷ []) (w.permits + suc w.posting) (omega arith);
}
Step-IsServing io w _ s (posts n _ e b) = record {
  in_order = s.in_order;
  awake = weaken w.place w.queue (w.permits + w.posting) (suc w.permits + n) (omega arith) s.awake;
}
Step-IsServing io w _ s (stops _) = record {
  in_order = s.in_order;
  awake =
      weaken w.place w.queue (w.permits + w.posting) (w.permits + suc w.posting) (omega arith)
        s.awake;
}
Step-IsServing io w _ s (goes_on _ e f) = record { in_order = s.in_order; awake = rw e at s.awake }
Step-IsServing io w _ s (ends _ e f) = record { in_order = s.in_order; awake = tt }
Step-IsServing io w _ s (wakes n _ e f) = record { in_order = s.in_order; awake = tt }
Step-IsServing io w _ s (takes ctx rest _ e f) = record {
  in_order =
      rw (append_assoc w.done ((ctx, handle io ctx) ∷ []) (outcomes io rest))
        (by_queue (w.queue) f s.in_order);
  awake = rw (e) tt;
}
  where
    by_queue :
        (q : List RequestCtx)
        → q ≡ ctx ∷ rest
        → w.done ++ outcomes io q ≡ outcomes io w.accepted
        → w.done ++ (ctx, handle io ctx) ∷ outcomes io rest ≡ outcomes io w.accepted
    by_queue q g h = rw g at h
Step-IsServing io w _ s (finds_none _ e f) = record { in_order = s.in_order; awake = inl f }

-- In every state that the steps of a thread, of those that queue requests and of Stop lead to, while
-- the permits of the thread's semaphore stay within int (no post comes when there are 2^31 - 1), what
-- the thread has handled and what is still in its queue are the accepted requests, each once and in
-- the order in which they were put in, with the outcome of the loop's body for each; and if requests
-- are in the queue while the thread is at its test or in Wait, there is a permit or a PostOne to come.
pub Reach-IsServing : (io : Rados) {w : IoWorker} → Reach io w → IsServing io w
unfolding new_io_worker
Reach-IsServing io start = record { in_order = refl; awake = inl refl }
Reach-IsServing io (next {w} {w'} r s) = Step-IsServing io w w' (Reach-IsServing io r) s
