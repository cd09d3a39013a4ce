-- ===== src/Server/Tests/Queues.antt =====
-- The queues of the worker threads, and the copyup, run.
use global_cache_adaptor.Common.{
  ℕ, ◌+◌, ◌≡◌, ◌≢◌, refl, sym, ap, ◌∙◌, arith, Bool, true, false, List, [], ◌∷◌, ◌++◌, some, keep,
  length, u64,
}
use global_cache_adaptor.Common.Bytes.{Bytes}
use global_cache_adaptor.Server.Op.{OpCode, OpRequestOps, new_op}
use global_cache_adaptor.Server.Throttle.{Limits, Counters, get_lwt_cas}
use global_cache_adaptor.Server.Throttle.Balance.{start}
use global_cache_adaptor.Server.OpRequest.{
  SaOpReq, Outcome, process_op_req, refused, thrown, sections, is_rbd_data,
}
use global_cache_adaptor.Server.Dispatch.{
  Worker, Shared, Network, create_work_thread, enqueue_clientop, push_op, queue_index, swap_queues,
  deal_one, new_worker, en_queue, set_worker, einval, Reach, here, next, enqueues, swaps,
}
use global_cache_adaptor.Server.Dispatch.Order.{Serves, accepted, goes_to, dispatch-Serves}
use global_cache_adaptor.Server.Dispatch.Passes.{deal_one_defined, deal_one-refused}
use global_cache_adaptor.Server.CopyUp.{CopyupEnd, writes, undefined, merge_copyup}
use global_cache_adaptor.Server.CopyUp.Merge.{
  IsOverlay, IsWhole, merge_copyup-IsOverlay, merge_copyup-overrun, merge_copyup-rejects,
}
use global_cache_adaptor.Server.Tests.Data.{buffer, bad_message, lost_message}

abbrev limits : Limits
limits = record {
  write_op = 10;
  read_op = 10;
  write_bw_limit = 100;
  read_bw_limit = 100;
  write_iops_limit = 50;
}

abbrev hash : Bytes → ℕ
hash s = length s

abbrev counters : Counters
counters = (start 5000 1).counters

-- Two messages arrive, on the queues 2 and 3, and the first one's worker takes it over.
abbrev created : Network
created = create_work_thread counters

abbrev one_arrived : Network
one_arrived = enqueue_clientop hash 4 16 bad_message 100 101 created

abbrev two_arrived : Network
two_arrived = enqueue_clientop hash 4 16 lost_message 102 103 one_arrived

abbrev swapped : Network
swapped = record two_arrived {
  workers = set_worker 2 (swap_queues (two_arrived.workers 2)) two_arrived.workers;
}

Reach-swapped : Reach buffer false hash 4 16 limits created swapped
unfolding create_work_thread enqueue_clientop push_op queue_index en_queue
Reach-swapped =
    next
      (next (next here (enqueues created bad_message 100 101))
        (enqueues one_arrived lost_message 102 103))
      (swaps two_arrived 2 refl refl refl)

dispatch-Serves_example :
    Serves (accepted buffer false) (keep (goes_to hash 4 2) swapped.arrived) (swapped.workers 2)
dispatch-Serves_example = dispatch-Serves buffer false hash 4 16 limits counters Reach-swapped 2

bad_message-refused : process_op_req buffer false bad_message ≡ refused
unfolding process_op_req sections is_rbd_data
bad_message-refused = refl

abbrev is_thrown : Outcome SaOpReq → Bool
is_thrown thrown = true
is_thrown _ = false

not_thrown : process_op_req buffer false bad_message ≢ thrown
not_thrown = λ e.
    let clash : is_thrown refused ≡ is_thrown thrown = ap is_thrown (sym bad_message-refused ∙ e) in
    cc

swapped-deal : (swapped.workers 2).deal.req_queue ≡ bad_message ∷ []
unfolding create_work_thread enqueue_clientop push_op queue_index swap_queues en_queue
swapped-deal = refl

deal_one_defined_example :
    (w : Worker) × (s : Shared) × (deal_one buffer false limits (swapped.workers 2) swapped.shared
      ≡ some (w, s))
deal_one_defined_example =
    deal_one_defined buffer false hash 4 16 limits counters Reach-swapped 2 bad_message []
      swapped-deal not_thrown

-- The same worker, written out.
abbrev worker : Worker
worker = record new_worker {
  deal = record { req_queue = bad_message ∷ []; ts_queue = 100 ∷ []; period = 101 ∷ [] };
}

abbrev shared : Shared
shared = record { counters = counters; in_flight = []; replies = [] }

deal_one-refused_example :
    (w' : Worker) × (s' : Shared) × (deal_one buffer false limits worker shared ≡ some (w', s'))
    × (s'.replies ≡ shared.replies ++ (bad_message, einval) ∷ [])
    × (s'.counters.lwt_count ≡ u64 (shared.counters.lwt_count + 18446744073709551615))
    × (shared.counters.lwt_count ≡ 0 → (get_lwt_cas 1 s'.counters).1 ≡ some 18446744073709551615)
deal_one-refused_example =
    deal_one-refused buffer false limits worker shared bad_message [] [] [] 100 101 refl refl refl
      bad_message-refused (omega arith)

abbrev write_at : ℕ → ℕ → Bytes → OpRequestOps
write_at offset len input = record (new_op []) {
  op_sub_type = OpCode.write;
  obj_offset = offset;
  in_data_len = len;
  in_data = input;
}

abbrev copyup : OpRequestOps
copyup = record (new_op []) { op_sub_type = OpCode.call }

abbrev parent : Bytes
parent = 1 ∷ 2 ∷ 3 ∷ 4 ∷ 5 ∷ []

abbrev two_writes : List OpRequestOps
two_writes = write_at 1 3 (7 ∷ 8 ∷ 9 ∷ []) ∷ write_at 2 1 (6 ∷ []) ∷ []

merge_copyup-IsOverlay_example :
    (d' : Bytes) × (w : OpRequestOps) × (merge_copyup copyup two_writes 5 parent ≡ writes w)
    × IsWhole copyup 5 d' w
    × IsOverlay two_writes parent d'
merge_copyup-IsOverlay_example =
    merge_copyup-IsOverlay copyup two_writes parent (omega arith)
      ((λ _. (omega arith, omega arith)), ((λ _. (omega arith, omega arith)), tt))

merge_copyup-overrun_example :
    merge_copyup copyup (write_at 4294967295 2 (7 ∷ 8 ∷ []) ∷ []) 5 parent ≡ undefined
merge_copyup-overrun_example =
    merge_copyup-overrun copyup (write_at 4294967295 2 (7 ∷ 8 ∷ [])) [] parent refl (omega arith)
      (omega arith)

-- The second write ends past the parent's data.
merge_copyup-rejects_example :
    merge_copyup copyup
      ((write_at 1 2 (7 ∷ 8 ∷ []) ∷ []) ++ write_at 4 2 (7 ∷ 8 ∷ []) ∷ [])
      5
      parent
    ≡ CopyupEnd.einval
merge_copyup-rejects_example =
    merge_copyup-rejects copyup (write_at 4 2 (7 ∷ 8 ∷ [])) (write_at 1 2 (7 ∷ 8 ∷ []) ∷ []) []
      parent (omega arith) ((λ _. (omega arith, omega arith)), tt) refl (omega arith) (omega arith)
