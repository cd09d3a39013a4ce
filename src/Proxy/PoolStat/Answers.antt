-- ===== src/Proxy/PoolStat/Answers.antt =====
-- What PoolUsageStat of src/ceph_proxy/RadosMonitor.cc answers about the pools.
use global_cache_adaptor.Common.{
  ℕ, ◌+◌, ◌<◌, ◌≡◌, refl, ◌∙◌, Bool, true, false, not, ◌&&◌, [], ◌∷◌, Option, none, some, ◌==◌,
  if◌then◌else◌, u64, arith,
}
use global_cache_adaptor.Common.Int.{ℤ, pos, neg}
use global_cache_adaptor.Common.OrdMap.{OrdMap, From, lookup}
use global_cache_adaptor.Proxy.PoolStat.{
  Doubles, PoolUsageInfo, PoolUsageStat, sum_pools, first_avail, get_pool_all_used_and_avail, entry,
  copy_info, mem, compare_pools, usage_of, get_pool_usage_info, get_pool_info,
}
use global_cache_adaptor.Proxy.PoolStat.Merge.{lookup-compare_pools}

module _ {D : Type 0} where
  -- The sum of the used sizes, with no bound.
  abbrev pub all_used : OrdMap (PoolUsageInfo D) → ℕ
  all_used [] = 0
  all_used ((k, i) ∷ rest) = i.used_size + all_used rest

  -- The first available size that is not 0, in the order of the pools' numbers, and 0 without one.
  abbrev pub some_avail : OrdMap (PoolUsageInfo D) → ℕ
  some_avail [] = 0
  some_avail ((k, i) ∷ rest) = if i.max_avail == 0 then some_avail rest else i.max_avail

  sum_pools_used :
      (t : OrdMap (PoolUsageInfo D)) (used avail : ℕ)
      → used < 18446744073709551616
      → (sum_pools t used avail).0 ≡ u64 (used + all_used t)
  unfolding sum_pools
  sum_pools_used [] used avail h = omega arith
  sum_pools_used ((k, i) ∷ t) used avail h = omega (
    arith,
    sum_pools_used t (u64 (used + i.used_size))
        (if avail == 0 && not (i.max_avail == 0) then i.max_avail else avail) (omega arith),
  )

  sum_pools_avail :
      (t : OrdMap (PoolUsageInfo D)) (used avail : ℕ)
      → (sum_pools t used avail).1 ≡ (if avail == 0 then some_avail t else avail)
  unfolding sum_pools
  sum_pools_avail [] used avail = ground arith
  sum_pools_avail ((k, i) ∷ t) used avail = ground (
    arith,
    sum_pools_avail t (u64 (used + i.used_size))
        (if avail == 0 && not (i.max_avail == 0) then i.max_avail else avail),
  )

  -- GetPoolAllUsedAndAvail answers the sum of the used sizes modulo 2^64, and the first available size
  -- that is not 0.
  pub get_pool_all_used_and_avail_lem :
      (s : PoolUsageStat D)
      → ((get_pool_all_used_and_avail s).0 ≡ u64 (all_used s.pool_info_map))
        × ((get_pool_all_used_and_avail s).1 ≡ some_avail s.pool_info_map)
  unfolding get_pool_all_used_and_avail
  get_pool_all_used_and_avail_lem s = (
    omega (arith, sum_pools_used s.pool_info_map 0 (first_avail s.pool_info_map) (omega arith)),
    sum_pools_avail s.pool_info_map 0 (first_avail s.pool_info_map) ∙ by_first s.pool_info_map,
  )
    where
      by_first :
          (t : OrdMap (PoolUsageInfo D))
          → (if first_avail t == 0 then some_avail t else first_avail t) ≡ some_avail t
      by_first [] = refl
      by_first ((k, i) ∷ t) = ground arith

module _ {D : Type 0} (fl : Doubles D) where
  -- After Compare, for a map whose keys rise, GetPoolUsageInfo and GetPoolInfo answer for exactly the
  -- pools of `poolList`, with the sizes and the erasure code that were recorded for them, and else with
  -- -1 and with -ENOENT.
  pub compare_pools-answers :
      (id : ℕ) (s : PoolUsageStat D)
      → From 0 s.pool_info_map
      → let new = entry fl id s.tmp_pool_info_map in
        (get_pool_usage_info id (compare_pools fl s)
          ≡ (if mem id s.pool_list then (pos 0, some (usage_of new)) else (neg 1, none)))
        × (get_pool_info id (compare_pools fl s) ≡ (
            if mem id s.pool_list
            then (pos 0, some (new.k, new.m, new.stripe_unit))
            else (neg 2, none)))
  unfolding get_pool_usage_info get_pool_info
  compare_pools-answers id s f =
      by_mem (mem id s.pool_list) (lookup id (compare_pools fl s).pool_info_map)
        (lookup-compare_pools fl id s f)
    where
      by_mem :
          (t : Bool) (o : Option (PoolUsageInfo D))
          → o ≡ (
              if t
              then some (copy_info (entry fl id s.tmp_pool_info_map) (entry fl id s.pool_info_map))
              else none)
          → let new = entry fl id s.tmp_pool_info_map in
            (elim o as (λ _. ℤ × Option (ℕ × ℕ × ℕ × D × ℕ)) [
              | none ↦ (neg 1, none)
              | some i ↦ (pos 0, some (usage_of i))
            ]
              ≡ (if t then (pos 0, some (usage_of new)) else (neg 1, none)))
            × (elim o as (λ _. ℤ × Option (ℕ × ℕ × ℕ)) [
              | none ↦ (neg 2, none)
              | some i ↦ (pos 0, some (i.k, i.m, i.stripe_unit))
            ]
                ≡ (if t then (pos 0, some (new.k, new.m, new.stripe_unit)) else (neg 2, none)))
      by_mem true o e = rw e (refl, refl)
      by_mem false o e = rw e (refl, refl)
