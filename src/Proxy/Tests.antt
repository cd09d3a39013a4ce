-- ===== src/Proxy/Tests.antt =====
-- Runs of the model of src/ceph_proxy on concrete inputs.
mod Contexts
mod Images
mod Maps
mod Omap
mod Pages
mod Starts
mod Workers
use global_cache_adaptor.Common.{
  ℕ, ◌+◌, ◌*◌, ◌/◌, ◌≤◌, ◌≡◌, refl, arith, true, List, [], ◌∷◌, none, some, if◌then◌else◌, u64,
}
use global_cache_adaptor.Common.Bytes.{Bytes, bytes, same, tokens}
use global_cache_adaptor.Common.Int.{pos, neg}
use global_cache_adaptor.Common.Number.{strtol, digits_value, skip_space}
use global_cache_adaptor.Common.OrdMap.{lookup}
use global_cache_adaptor.Server.OpRequest.{c_str}
use global_cache_adaptor.Proxy.ConcurrentQueue.{empty}
use global_cache_adaptor.Proxy.ConcurrentQueue.Refinement.{
  Call, enqueues, dequeues, run, run_list, run-empty,
}
use global_cache_adaptor.Proxy.Semaphore.{
  Semaphore, create, post_one, sem_post, wait, sleep, Reach, posts_one, sem_posts, waits, sleeps,
  here, next,
}
use global_cache_adaptor.Proxy.Semaphore.Permits.{passed-le}
use global_cache_adaptor.Proxy.CcmAdaptor.{
  NotifyFn, register_pool_create_report_fn, report_create_pool, register_all, somes,
  register_pool_create_report_fn-first,
}
use global_cache_adaptor.Proxy.PoolStat.{
  Doubles, PoolUsageInfo, PoolUsageStat, new_stat, entry, no_info, copy_info, compare_pools,
  get_pool_all_used_and_avail, get_pool_usage_info, get_pool_info,
}
use global_cache_adaptor.Proxy.PoolStat.Merge.{Known, compare_pools-Known}
use global_cache_adaptor.Proxy.PoolStat.Answers.{
  all_used, some_avail, get_pool_all_used_and_avail_lem, compare_pools-answers,
}
use global_cache_adaptor.Proxy.PoolStat.Collect.{
  Cluster, df_command, pool_command, trans_str_unit_to_num, is_ec_pool, stripe_size,
  get_default_ec_stripe_unit, get_pool_replication_size, trans_str_to_num,
}
use global_cache_adaptor.Proxy.PoolStat.Collect.Round.{
  ok, record_lines, record_pool, parse_to_record_info, parse_field, num_unit_of, cal_pool_size,
  update_pool_usage,
}
use global_cache_adaptor.Proxy.PoolStat.Collect.Failures.{final, Grows, record_lines-Grows}
use global_cache_adaptor.Proxy.PoolStat.Collect.Rounds.{update_pool_usage-leftover}

abbrev history : List (Call ℕ)
history =
    dequeues ∷ enqueues 3 ∷ enqueues 4 ∷ dequeues ∷ enqueues 5 ∷ dequeues ∷ dequeues ∷ dequeues ∷ []

run-empty_example : run history empty ≡ some (run_list history [])
run-empty_example = run-empty history

-- A thread waits on no permit and falls asleep, and another one posts up to its notification.
abbrev one_post : Semaphore
one_post = sem_post (post_one (sleep (wait (create 0))))

Reach-post : Reach 0 one_post
unfolding create wait sleep post_one
Reach-post =
    next
      (next
        (next (next (here (omega arith)) (waits (create 0) (omega arith)))
          (sleeps (wait (create 0)) (omega arith) refl))
        (posts_one (sleep (wait (create 0))) (omega arith)))
      (sem_posts (post_one (sleep (wait (create 0)))) (omega arith) (omega arith))

passed-le_example : one_post.passed ≤ 0 + one_post.posts
passed-le_example = passed-le Reach-post

abbrev accepts : NotifyFn
accepts pools = pos 0

abbrev declines : NotifyFn
declines pools = neg 1

-- Whole numbers in place of `double`.
abbrev wholes : Doubles ℕ
wholes = record {
  zero = 0;
  from_nat = λ n. n;
  mul = λ a b. a * b;
  div = λ a b. a / b;
  to_u64 = λ d. u64 d;
  to_float = λ d. d;
}

abbrev used_info : ℕ → ℕ → PoolUsageInfo ℕ
used_info used avail = record (no_info wholes) { used_size = used; max_avail = avail }

-- Pool 3 is gone, pool 5 stays, and pool 9 is new.
abbrev changed : PoolUsageStat ℕ
changed = record new_stat {
  pool_info_map = (3, used_info 30 0) ∷ (5, used_info 50 8) ∷ [];
  tmp_pool_info_map = (5, used_info 55 7) ∷ (9, used_info 90 6) ∷ [];
  pool_list = 5 ∷ 9 ∷ [];
}

compare_pools-Known_example :
    Known true
      (used_info 55 7)
      (used_info 50 8)
      (lookup 5 (compare_pools wholes changed).pool_info_map)
compare_pools-Known_example = compare_pools-Known wholes 5 changed (omega arith, (omega arith, tt))

get_pool_all_used_and_avail_lem_example :
    ((get_pool_all_used_and_avail changed).0 ≡ u64 (all_used changed.pool_info_map))
    × ((get_pool_all_used_and_avail changed).1 ≡ some_avail changed.pool_info_map)
get_pool_all_used_and_avail_lem_example = get_pool_all_used_and_avail_lem changed

-- A cluster that lists pool 9 alone, which is replicated.
abbrev cluster : Cluster ℕ
cluster = record {
  match_size = λ s. none;
  match_profile = λ s. none;
  match_setting = λ s. none;
  match_pool = λ line. some (bytes "rbd" ∷ bytes "9" ∷ []);
  strtod = λ s. some 1;
  mon_command = λ c.
      if same c df_command
      then (pos 0, bytes "rbd 9")
      else if same c (pool_command (bytes "rbd"))
      then (neg 13, [])
      else (pos 0, 10 ∷ []);
  pool_stat = λ id. some (4, 8);
}

abbrev lines : List Bytes
lines = tokens 10 (c_str (cluster.mon_command df_command).1)

-- Pool 5 was left in the list by a round that failed.
abbrev leftover : PoolUsageStat ℕ
leftover = record new_stat {
  pool_info_map = (5, used_info 50 8) ∷ [];
  tmp_pool_info_map = (5, used_info 55 7) ∷ [];
  pool_list = 5 ∷ [];
}

abbrev recorded : PoolUsageStat ℕ
recorded = final (record_lines wholes cluster lines leftover)

leftover-recorded : record_lines wholes cluster lines leftover ≡ ok 0 recorded
unfolding record_lines record_pool parse_to_record_info parse_field num_unit_of is_ec_pool
    cal_pool_size stripe_size get_default_ec_stripe_unit trans_str_to_num trans_str_unit_to_num
    get_pool_replication_size strtol digits_value skip_space
leftover-recorded = refl

update_pool_usage-leftover_example :
    lookup 5 (final (update_pool_usage wholes cluster leftover)).pool_info_map
    ≡ some (
        copy_info
          (entry wholes 5 recorded.tmp_pool_info_map)
          (entry wholes 5 leftover.pool_info_map))
update_pool_usage-leftover_example =
    update_pool_usage-leftover wholes cluster leftover recorded 0 5 (omega arith, tt) refl
      leftover-recorded refl
