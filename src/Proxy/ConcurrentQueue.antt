-- ===== src/Proxy/ConcurrentQueue.antt =====
-- src/ceph_proxy/utils.h, class ConcurrentQueue: a linked list behind a dummy node, with a pointer
-- to its last node. Nodes stand on an explicit heap; `new` gives the address `fresh`, which was
-- never given before. Each method holds `queueMutex` while it touches a pointer, so it is one step.
pub mod Refinement
use global_cache_adaptor.Common.{ℕ, suc, ◌≡◌, Option, none, some, ◌==◌, if◌then◌else◌}

-- The value of the first dummy node is never written.
pub record QueueItem {ℓ} (A : Type ℓ) : Type ℓ where
  pub value : Option A
  pub next : Option ℕ

pub record ConcurrentQueue {ℓ} (A : Type ℓ) : Type ℓ where
  pub heap : ℕ → Option (QueueItem A)
  pub fresh : ℕ
  pub head : ℕ
  pub tail : ℕ

module _ {ℓ} {A : Type ℓ} where
  abbrev pub write : (ℕ → Option A) → ℕ → Option A → ℕ → Option A
  write h p v k = if k == p then v else h k

module _ {ℓ} {A : Type ℓ} where
  -- ConcurrentQueue().
  unfoldable pub empty : ConcurrentQueue A
  empty = record {
    heap = write (λ k. none) 0 (some (record { value = none; next = none }));
    fresh = 1;
    head = 0;
    tail = 0;
  }

  -- `p->next = q`; `none` is an access through a dangling pointer.
  abbrev pub set_next : (ℕ → Option (QueueItem A)) → ℕ → ℕ → Option (ℕ → Option (QueueItem A))
  set_next h p q = elim (h p) [
    | none ↦ none
    | some item ↦ some (write h p (some (record item { next = some q })))
  ]

  -- Enqueue and EnqueueWithLock.
  unfoldable pub enqueue : A → ConcurrentQueue A → Option (ConcurrentQueue A)
  enqueue v q =
      let h = write q.heap q.fresh (some (record { value = some v; next = none })) in
      elim (set_next h q.tail q.fresh) [
        | none ↦ none
        | some h' ↦ some (record { heap = h'; fresh = suc q.fresh; head = q.head; tail = q.fresh })
      ]

  -- The rest of DequeueWithLock, for a first node `n` at address `p`.
  abbrev pub advance :
      ConcurrentQueue A → ℕ → Option (QueueItem A) → Option (Option A × ConcurrentQueue A)
  advance q p none = none
  advance q p (some n) = some (n.value, record q { heap = write q.heap q.head none; head = p })

  abbrev pub dequeue_at :
      ConcurrentQueue A → Option (QueueItem A) → Option (Option A × ConcurrentQueue A)
  dequeue_at q none = none
  dequeue_at q (some dummy) = elim dummy.next [
    | none ↦ some (none, q)
    | some p ↦ advance q p (q.heap p)
  ]

  -- Dequeue and DequeueWithLock: the outer `none` is a fault, the inner one is `false`.
  unfoldable pub dequeue : ConcurrentQueue A → Option (Option A × ConcurrentQueue A)
  dequeue q = dequeue_at q (q.heap q.head)
