-- ===== src/Proxy/PoolStat/Collect/Rounds.antt =====
-- The rounds of PoolUsageStat in src/ceph_proxy/RadosMonitor.cc in which every line is recorded.
use global_cache_adaptor.Common.{
  ℕ, ◌≡◌, refl, ap, ◌∙◌, Bool, true, false, List, [], ◌∷◌, ◌++◌, Option, none, some, if◌then◌else◌,
  arith,
}
use global_cache_adaptor.Common.Bytes.{tokens}
use global_cache_adaptor.Common.Int.{is_neg, is_zero}
use global_cache_adaptor.Common.OrdMap.{From, lookup}
use global_cache_adaptor.Server.OpRequest.{c_str}
use global_cache_adaptor.Proxy.CcmAdaptor.{NotifyFn, report_create_pool}
use global_cache_adaptor.Proxy.PoolStat.{
  Doubles, PoolUsageStat, entry, copy_info, copy_pools, mem, compare_pools,
}
use global_cache_adaptor.Proxy.PoolStat.Merge.{Known, copied-Known, lookup-compare_pools}
use global_cache_adaptor.Proxy.PoolStat.Collect.{Cluster, df_command}
use global_cache_adaptor.Proxy.PoolStat.Collect.Round.{
  ok, fails, record_lines, update_pool_list, update_pool_usage,
}
use global_cache_adaptor.Proxy.PoolStat.Collect.Listed.{listed, record_lines-listed}
use global_cache_adaptor.Proxy.PoolStat.Collect.Failures.{final, Grows, record_lines-Grows}

-- The fields that Compare leaves alone.
record Same {D : Type 0} (s t : PoolUsageStat D) : Type 0 where
  pool_list : t.pool_list ≡ s.pool_list
  notify : t.notify_create_func ≡ s.notify_create_func
  report : t.report ≡ s.report

-- The calls of the registered function in a round that ends with the pools `ids`.
abbrev pub calls : Option NotifyFn → List ℕ → List (List ℕ)
calls none ids = []
calls (some f) ids = ids ∷ []

report-calls : (ids : List ℕ) (o : Option NotifyFn) → (report_create_pool ids o).1 ≡ calls o ids
unfolding report_create_pool
report-calls ids none = refl
report-calls ids (some f) = refl

-- What a round leaves whose lines have all been recorded, with the state `mid` behind them.
pub record IsRecorded {D : Type 0} (fl : Doubles D) (s mid s' : PoolUsageStat D) : Type 0 where
  pub pool_list : s'.pool_list ≡ []
  pub tmp : s'.tmp_pool_info_map ≡ []
  pub told : s'.report ≡ s.report ++ calls s.notify_create_func mid.pool_list
  pub pools :
      (id : ℕ)
      → Known
          (mem id mid.pool_list)
          (entry fl id mid.tmp_pool_info_map)
          (entry fl id s.pool_info_map)
          (lookup id s'.pool_info_map)
  entries :
      (id : ℕ)
      → lookup id s'.pool_info_map ≡ (
          if mem id mid.pool_list
          then some (copy_info (entry fl id mid.tmp_pool_info_map) (entry fl id s.pool_info_map))
          else none)

mem-append : (id : ℕ) (xs ys : List ℕ) → mem id xs ≡ true → mem id (xs ++ ys) ≡ true
mem-append id [] ys h = cc
mem-append id (x ∷ xs) ys h = ground (arith, mem-append id xs ys)

module _ {D : Type 0} (fl : Doubles D) where
  copy_pools-Same : (ids : List ℕ) (s : PoolUsageStat D) → Same s (copy_pools fl ids s)
  unfolding copy_pools
  copy_pools-Same [] s = record { pool_list = refl; notify = refl; report = refl }
  copy_pools-Same (id ∷ ids) s =
      let h = copy_pools-Same ids _ in
      record { pool_list = h.pool_list; notify = h.notify; report = h.report }

  compare_pools-Same : (s : PoolUsageStat D) → Same s (compare_pools fl s)
  unfolding compare_pools
  compare_pools-Same s =
      let h = copy_pools-Same s.pool_list s in
      record { pool_list = h.pool_list; notify = h.notify; report = h.report }

module _ {D : Type 0} (fl : Doubles D) (cl : Cluster D) where
  -- The end of a round.
  update_pool_list-IsRecorded :
      (s mid : PoolUsageStat D)
      → From 0 s.pool_info_map
      → Grows s mid
      → IsRecorded fl s mid (final (update_pool_list fl cl (compare_pools fl mid)))
  unfolding update_pool_list
  update_pool_list-IsRecorded s mid f g =
      by_answer (is_zero (report_create_pool next.pool_list next.notify_create_func).0)
    where
      next : PoolUsageStat D
      next = compare_pools fl mid

      same : Same mid next
      same = compare_pools-Same fl mid

      ended : PoolUsageStat D
      ended = record next {
        pool_list = [];
        tmp_pool_info_map = [];
        report = next.report ++ (report_create_pool next.pool_list next.notify_create_func).1;
      }

      stored :
          (id : ℕ)
          → lookup id next.pool_info_map ≡ (
              if mem id mid.pool_list
              then some
                  (copy_info (entry fl id mid.tmp_pool_info_map) (entry fl id s.pool_info_map))
              else none)
      stored id =
          lookup-compare_pools fl id mid (rw g.info f)
          ∙ ap
              (λ t.
                if mem id mid.pool_list
                then some (copy_info (entry fl id mid.tmp_pool_info_map) (entry fl id t))
                else none)
              g.info

      recorded : IsRecorded fl s mid ended
      recorded = record {
        pool_list = refl;
        tmp = refl;
        told =
            rw
              (
                same.report,
                same.pool_list,
                same.notify,
                g.report,
                g.notify,
                report-calls mid.pool_list s.notify_create_func,
              )
              refl;
        pools = λ id.
            copied-Known (mem id mid.pool_list) (entry fl id mid.tmp_pool_info_map)
              (entry fl id s.pool_info_map) _ (stored id);
        entries = stored;
      }

      by_answer :
          (t : Bool) → IsRecorded fl s mid (final {A = ℕ} (if t then ok 0 ended else fails ended))
      by_answer true = recorded
      by_answer false = recorded

  pub update_pool_usage-IsRecorded :
      (s mid : PoolUsageStat D) (n : ℕ)
      → From 0 s.pool_info_map
      → is_neg (cl.mon_command df_command).0 ≡ false
      → record_lines fl cl (tokens 10 (c_str (cl.mon_command df_command).1)) s ≡ ok n mid
      → (mid.pool_list ≡ s.pool_list ++ listed cl (tokens 10 (c_str (cl.mon_command df_command).1)))
        × IsRecorded fl s mid (final (update_pool_usage fl cl s))
  unfolding update_pool_usage
  update_pool_usage-IsRecorded s mid n f d e = (
    record_lines-listed fl cl (tokens 10 (c_str (cl.mon_command df_command).1)) s mid n e,
    rw (d, e)
        (update_pool_list-IsRecorded s mid f
          (rw e at (record_lines-Grows fl cl (tokens 10 (c_str (cl.mon_command df_command).1)) s))),
  )

  -- When the monitor answers and every line of its list of pools is recorded, from a map whose keys
  -- rise: a pool that stands in `poolList` when the round starts, as a round that failed leaves it, is
  -- answered for after the round, whether or not the cluster still lists it.
  pub update_pool_usage-leftover :
      (s mid : PoolUsageStat D) (n id : ℕ)
      → From 0 s.pool_info_map
      → is_neg (cl.mon_command df_command).0 ≡ false
      → record_lines fl cl (tokens 10 (c_str (cl.mon_command df_command).1)) s ≡ ok n mid
      → mem id s.pool_list ≡ true
      → lookup id (final (update_pool_usage fl cl s)).pool_info_map
        ≡ some (copy_info (entry fl id mid.tmp_pool_info_map) (entry fl id s.pool_info_map))
  update_pool_usage-leftover s mid n id f d e h =
      (update_pool_usage-IsRecorded s mid n f d e).1.entries id
      ∙ ap
          (λ t.
            if t
            then some (copy_info (entry fl id mid.tmp_pool_info_map) (entry fl id s.pool_info_map))
            else none)
          (ap (mem id) g.list ∙ mem-append id s.pool_list g.ids h)
    where
      g : Grows s mid
      g = rw e at (record_lines-Grows fl cl (tokens 10 (c_str (cl.mon_command df_command).1)) s)
