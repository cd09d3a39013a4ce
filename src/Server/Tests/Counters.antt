-- ===== src/Server/Tests/Counters.antt =====
-- The counters of the requests in progress, run.
use global_cache_adaptor.Common.{ℕ, ◌+◌, ◌≤◌, ◌≡◌, inl, refl, arith, [], ◌∷◌, none, some}
use global_cache_adaptor.Server.Throttle.{Limits, put_lwt_cas}
use global_cache_adaptor.Server.Throttle.Balance.{
  Kind, any_op, write_load, Item, Flight, start, count_in, counter, count_out, counts, tests, swaps,
  refuses, Reach, here, next, IsBalanced, counters_exact,
}
use global_cache_adaptor.Server.Throttle.Cas.{wait_loop, wait_loop_ends}

abbrev all_limits : Limits
all_limits = record {
  write_op = 10;
  read_op = 10;
  write_bw_limit = 100;
  read_bw_limit = 100;
  write_iops_limit = 50;
}

abbrev item : Kind → Item
item k = record { kind = k; tested = none }

-- The kilobytes of a write and an operation are counted, and the kilobytes are tested.
abbrev write_counted : Flight
write_counted = record (start 5000 1) {
  counters = count_in all_limits (write_load 4) (start 5000 1).counters;
  items = item (write_load 4) ∷ [];
}

abbrev both_counted : Flight
both_counted = record write_counted {
  counters = count_in all_limits any_op write_counted.counters;
  items = item any_op ∷ item (write_load 4) ∷ [];
}

abbrev seen : ℕ
seen = counter (write_load 4) both_counted.counters

abbrev write_tested : Flight
write_tested = record both_counted {
  items = item any_op ∷ record { kind = write_load 4; tested = some seen } ∷ [];
}

-- A message is refused, and the kilobytes are counted out.
abbrev one_refused : Flight
one_refused = record write_tested { counters = put_lwt_cas write_tested.counters; refused = 0 + 1 }

abbrev write_out : Flight
write_out = record one_refused {
  counters = count_out (write_load 4) seen one_refused.counters;
  items = item any_op ∷ [];
}

write_out-Reach : Reach all_limits (start 5000 1) write_out
write_out-Reach =
    next
      (next
        (next
          (next (next here (counts (start 5000 1) (write_load 4) (omega arith)))
            (counts write_counted any_op (omega arith)))
          (tests both_counted (item any_op ∷ []) (item (write_load 4)) [] refl))
        (refuses write_tested))
      (swaps one_refused (item any_op ∷ []) (write_load 4) seen [] refl)

counters_exact_example : IsBalanced write_out
counters_exact_example =
    counters_exact all_limits 5000 1 write_out
      (record {
        all_ops = omega arith;
        gc = omega arith;
        write_op = omega arith;
        read_op = omega arith;
        write_bw = omega arith;
        read_bw = omega arith;
        write_iops = omega arith;
      })
      write_out-Reach

wait_loop_ends_example :
    (n : ℕ) × (wait_loop 12 10 ((11, 10) ∷ (9, 10) ∷ (20, 10) ∷ []) ≡ some n) × (n ≤ 2)
wait_loop_ends_example =
    wait_loop_ends ((11, 10) ∷ []) ((20, 10) ∷ []) 12 10 9 10 (inl (omega arith))
