-- ===== src/Proxy/ConcurrentQueue/Refinement.antt =====
-- The linked list of src/ceph_proxy/utils.h against a list of values.
use mathlib.Core.Option
use global_cache_adaptor.Common.{
  ap, ℕ, suc, ◌≤◌, ◌<◌, ◌≡◌, refl, List, [], ◌∷◌, ◌++◌, Option, none, some, arith,
}
use global_cache_adaptor.Proxy.ConcurrentQueue.{
  ConcurrentQueue, QueueItem, write, empty, enqueue, dequeue,
}

module _ {ℓ} {A : Type ℓ} where
  -- From the node at `p`, with value `v`, the nodes of `xs` follow, up to `t`. Addresses rise.
  abbrev pub Chain : (ℕ → Option (QueueItem A)) → ℕ → Option A → List A → ℕ → Type ℓ
  Chain h p v [] t = (p ≡ t) × (h p ≡ some (record { value = v; next = none }))
  Chain h p v (x ∷ xs) t =
      (q : ℕ) × (h p ≡ some (record { value = v; next = some q }))
      × (p < q)
      × Chain h q (some x) xs t

  -- The queue holds `xs`, oldest first.
  abbrev pub Represents : ConcurrentQueue A → List A → Type ℓ
  Represents q xs = (v : Option A) × Chain q.heap q.head v xs q.tail × (q.tail < q.fresh)

  Chain-le :
      (h : ℕ → Option (QueueItem A)) (p : ℕ) (v : Option A) (xs : List A) (t : ℕ)
      → Chain h p v xs t
      → p ≤ t
  Chain-le h p v [] t c = omega arith
  Chain-le h p v (x ∷ xs) t (q, e, l, c) = omega (arith, Chain-le h q (some x) xs t c)

  Chain-write_above :
      (h : ℕ → Option (QueueItem A)) (p : ℕ) (v : Option A) (xs : List A) (t a : ℕ)
      (i : Option (QueueItem A))
      → Chain h p v xs t
      → t < a
      → Chain (write h a i) p v xs t
  Chain-write_above h p v [] t a i c lt = ground arith
  Chain-write_above h p v (x ∷ xs) t a i (q, e, l, c) lt = (
    q,
    ground (arith, Chain-le h q (some x) xs t c),
    l,
    Chain-write_above h q (some x) xs t a i c lt,
  )

  Chain-write_below :
      (h : ℕ → Option (QueueItem A)) (p : ℕ) (v : Option A) (xs : List A) (t a : ℕ)
      (i : Option (QueueItem A))
      → Chain h p v xs t
      → a < p
      → Chain (write h a i) p v xs t
  Chain-write_below h p v [] t a i c lt = ground arith
  Chain-write_below h p v (x ∷ xs) t a i (q, e, l, c) lt =
      (q, ground arith, l, Chain-write_below h q (some x) xs t a i c (omega arith))

  -- The node that `tail` points to is there, and is the last one.
  Chain-last :
      (h : ℕ → Option (QueueItem A)) (p : ℕ) (v : Option A) (xs : List A) (t : ℕ)
      → Chain h p v xs t
      → (w : Option A) × (h t ≡ some (record { value = w; next = none }))
  Chain-last h p v [] t c = (v, ground arith)
  Chain-last h p v (x ∷ xs) t (q, e, l, c) = Chain-last h q (some x) xs t c

  -- Linking a node `a` behind the last one appends its value.
  Chain-link :
      (h : ℕ → Option (QueueItem A)) (p : ℕ) (v w : Option A) (xs : List A) (t a : ℕ) (x : A)
      → Chain h p v xs t
      → t < a
      → h t ≡ some (record { value = w; next = none })
      → h a ≡ some (record { value = some x; next = none })
      → Chain (write h t (some (record { value = w; next = some a }))) p v (xs ++ x ∷ []) a
  Chain-link h p v w [] t a x c lt et ea = (a, ground arith, omega arith, (refl, ground arith))
  Chain-link h p v w (y ∷ xs) t a x (q, e, l, c) lt et ea = (
    q,
    ground (arith, Chain-le h q (some y) xs t c),
    l,
    Chain-link h q (some y) w xs t a x c lt et ea,
  )

  first_node :
      (h : ℕ → Option (QueueItem A)) (p : ℕ) (v : Option A) (xs : List A) (t : ℕ)
      → Chain h p v xs t
      → (n : Option ℕ) × (h p ≡ some (record { value = v; next = n }))
  first_node h p v [] t c = (none, c.1)
  first_node h p v (x ∷ xs) t (q, e, l, c) = (some q, e)

  pub empty-Represents : Represents empty []
  unfolding empty
  empty-Represents = (none, (refl, refl), omega arith)

  pub enqueue-Represents :
      (x : A) (q : ConcurrentQueue A) (xs : List A)
      → Represents q xs
      → (q' : ConcurrentQueue A) × (enqueue x q ≡ some q') × Represents q' (xs ++ x ∷ [])
  unfolding enqueue
  enqueue-Represents x q xs (v, c, lt) =
      let (w, e) = Chain-last q.heap q.head v xs q.tail c in
      let h = write q.heap q.fresh (some (record { value = some x; next = none })) in
      (
        record {
          heap = write h q.tail (some (record { value = w; next = some q.fresh }));
          fresh = suc q.fresh;
          head = q.head;
          tail = q.fresh;
        },
        ground arith,
        (
          v,
          Chain-link h q.head v w xs q.tail q.fresh x
              (Chain-write_above q.heap q.head v xs q.tail q.fresh _ c lt) lt (ground arith)
              (ground arith),
          omega arith,
        ),
      )

  -- The first value leaves, its node becomes the dummy, and the old dummy is freed.
  pub dequeue-Represents :
      (x : A) (q : ConcurrentQueue A) (xs : List A)
      → Represents q (x ∷ xs)
      → (q' : ConcurrentQueue A) × (dequeue q ≡ some (some x, q'))
        × Represents q' xs
        × (q'.heap q.head ≡ none)
  unfolding dequeue
  dequeue-Represents x q xs (v, (p, e, l, c), lt) = (
    record q { heap = write q.heap q.head none; head = p },
    ground (arith, first_node q.heap p (some x) xs q.tail c),
    (some x, Chain-write_below q.heap p (some x) xs q.tail q.head none c l, lt),
    ground arith,
  )

  pub dequeue_empty : (q : ConcurrentQueue A) → Represents q [] → dequeue q ≡ some (none, q)
  unfolding dequeue
  dequeue_empty q (v, c, lt) = ground arith

-- A client's calls, and what they return: `none` for `false`.
pub data Call {ℓ} (A : Type ℓ) : Type ℓ where
  enqueues : A → Call A
  dequeues : Call A

module _ {ℓ} {A : Type ℓ} where
  -- The results of the `dequeues` of a history on the linked list; the outer `none` is a fault.
  abbrev pub run : List (Call A) → ConcurrentQueue A → Option (List (Option A))
  run [] q = some []
  run (enqueues x ∷ cs) q = elim (enqueue x q) [ none ↦ none | some q' ↦ run cs q' ]
  run (dequeues ∷ cs) q = elim (dequeue q) [
    | none ↦ none
    | some (r, q') ↦ Option.map (◌∷◌ r) (run cs q')
  ]

  -- The same history on a list.
  abbrev pub run_list : List (Call A) → List A → List (Option A)
  run_list [] xs = []
  run_list (enqueues x ∷ cs) xs = run_list cs (xs ++ x ∷ [])
  run_list (dequeues ∷ cs) [] = none ∷ run_list cs []
  run_list (dequeues ∷ cs) (x ∷ xs) = some x ∷ run_list cs xs

  pub run-eq-run_list :
      (cs : List (Call A)) (q : ConcurrentQueue A) (xs : List A)
      → Represents q xs
      → run cs q ≡ some (run_list cs xs)
  run-eq-run_list [] q xs r = refl
  run-eq-run_list (enqueues x ∷ cs) q xs r =
      let (q', e, r') = enqueue-Represents x q xs r in
      rw (e, run) (run-eq-run_list cs q' (xs ++ x ∷ []) r')
  run-eq-run_list (dequeues ∷ cs) q [] r =
      rw (dequeue_empty q r, run) (ap (Option.map (◌∷◌ none)) (run-eq-run_list cs q [] r))
  run-eq-run_list (dequeues ∷ cs) q (x ∷ xs) r =
      let (q', e, r', freed) = dequeue-Represents x q xs r in
      rw (e, run) (ap (Option.map (◌∷◌ (some x))) (run-eq-run_list cs q' xs r'))

  -- Any history on a new queue runs without a fault, and returns what a first-in first-out list
  -- returns.
  pub run-empty : (cs : List (Call A)) → run cs empty ≡ some (run_list cs [])
  run-empty cs = run-eq-run_list cs empty [] empty-Represents
