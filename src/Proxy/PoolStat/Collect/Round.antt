-- ===== src/Proxy/PoolStat/Collect/Round.antt =====
-- src/ceph_proxy/RadosMonitor.cc: Record, for one line of the list of pools, and UpdatePoolUsage, the
-- whole round.
use global_cache_adaptor.Common.{
  ℕ, suc, ◌+◌, false, List, [], ◌∷◌, ◌++◌, Option, none, some, ◌==◌, if◌then◌else◌, u32,
}
use global_cache_adaptor.Common.Bytes.{Bytes, bytes, same, tokens}
use global_cache_adaptor.Common.Int.{is_neg, is_zero, pos_part}
use global_cache_adaptor.Common.Number.{strtol, to_int}
use global_cache_adaptor.Common.OrdMap.{insert}
use global_cache_adaptor.Server.OpRequest.{c_str}
use global_cache_adaptor.Proxy.CcmAdaptor.{report_create_pool}
use global_cache_adaptor.Proxy.PoolStat.{
  Doubles, PoolUsageInfo, PoolUsageStat, entry, compare_pools,
}
use global_cache_adaptor.Proxy.PoolStat.Collect.{
  Cluster, RecordInfo, EcSize, trans_str_unit_to_num, df_command, profile_command, is_ec_pool,
  parse_lines, stripe_size, get_pool_replication_size,
}

-- How a function that returns 0 or a negative code ends, with the state that it leaves.
pub data Ended (S A : Type 0) : Type 0 where
  ok : A → S → Ended S A
  fails : S → Ended S A
  throws : S → Ended S A

module _ {D : Type 0} (fl : Doubles D) (cl : Cluster D) where
  -- StrToDouble, then a field.
  abbrev with_double : Bytes → (D → RecordInfo D) → Option (RecordInfo D)
  with_double g f = elim (cl.strtod (c_str g)) [ none ↦ none | some d ↦ some (f d) ]

  -- StrToInt, with the test for a negative number.
  abbrev pool_number : Bytes → RecordInfo D → Option (RecordInfo D)
  pool_number g info =
      let n = strtol (c_str g) in
      let id = to_int n.value in
      if n.failed
      then none
      else if is_neg id
      then none
      else some (record info { pool_id = pos_part id })

  -- The factor of the number of objects.
  unfoldable pub num_unit_of : Bytes → ℕ → ℕ
  num_unit_of [] old = 1
  num_unit_of (c ∷ g) old =
      if same (c_str (c ∷ g)) (bytes "k")
      then 1024
      else if same (c_str (c ∷ g)) (bytes "m")
      then 1048576
      else old

  -- Group `i` of the line, in the loop of ParseToRecordInfo; `none` is -1.
  unfoldable pub parse_field : ℕ → Bytes → RecordInfo D → Option (RecordInfo D)
  unfolding trans_str_unit_to_num num_unit_of
  parse_field i g info =
      if i == 1
      then some (record info { pool_name = c_str g })
      else if i == 2
      then pool_number g info
      else if i == 3
      then with_double g (λ d. record info { stored_size = d })
      else if i == 4
      then some (record info { stored_size_unit = trans_str_unit_to_num (c_str g) })
      else if i == 5
      then with_double g (λ d. record info { objects_num = d })
      else if i == 6
      then some (record info { num_unit = num_unit_of g info.num_unit })
      else if i == 7
      then with_double g (λ d. record info { used_size = d })
      else if i == 8
      then some (record info { used_size_unit = trans_str_unit_to_num (c_str g) })
      else if i == 9
      then with_double g (λ d. record info { use_ratio = d })
      else if i == 10
      then with_double g (λ d. record info { max_avail = d })
      else if i == 11
      then some (record info { max_avail_unit = trans_str_unit_to_num (c_str g) })
      else some info

  abbrev pub parse_fields : ℕ → List Bytes → RecordInfo D → Option (RecordInfo D)
  parse_fields i [] info = some info
  parse_fields i (g ∷ gs) info = elim (parse_field i g info) [
    | none ↦ none
    | some info' ↦ parse_fields (suc i) gs info'
  ]

  -- ParseToRecordInfo, with the groups from the first on.
  unfoldable pub parse_to_record_info : List Bytes → RecordInfo D → Option (RecordInfo D)
  unfolding parse_field is_ec_pool
  parse_to_record_info gs info = elim (parse_fields 1 gs info) [
    | none ↦ none
    | some info' ↦
        let (ret, info'') = is_ec_pool fl cl info' in if is_zero ret then some info'' else none
  ]

  -- GetECProfileSize; its code is 0 or not.
  unfoldable pub get_ec_profile_size :
      Bytes → EcSize → PoolUsageStat D → Ended (PoolUsageStat D) EcSize
  unfolding stripe_size
  get_ec_profile_size profile e s =
      let (ret, out) = cl.mon_command (profile_command profile) in
      if is_zero ret
      then elim (stripe_size fl cl s) [
        | none ↦ throws s
        | some (unit, s') ↦
            ok (parse_lines fl cl (tokens 10 (c_str out)) (record e { stripe_unit = unit })) s'
      ]
      else fails s

  -- CalPoolSize.
  unfoldable pub cal_pool_size :
      RecordInfo D → PoolUsageStat D → Ended (PoolUsageStat D) (RecordInfo D)
  unfolding stripe_size get_ec_profile_size get_pool_replication_size
  cal_pool_size info s =
      if info.is_ec
      then elim (get_ec_profile_size info.profile
          (record { k = info.ec_k; m = info.ec_m; stripe_unit = info.stripe_unit }) s) [
            | ok e s' ↦
                ok
                  (record info {
                    ec_k = e.k;
                    ec_m = e.m;
                    stripe_unit = e.stripe_unit;
                    rep = fl.div (fl.from_nat (u32 (e.k + e.m))) (fl.from_nat e.k);
                  })
                  s'
            | fails s' ↦ fails s'
            | throws s' ↦ throws s'
          ]
      else elim (stripe_size fl cl s) [
        | none ↦ throws s
        | some (unit, s') ↦ elim (get_pool_replication_size fl cl info.pool_id) [
          | none ↦ fails s'
          | some r ↦ ok (record info { ec_k = 1; ec_m = 2; stripe_unit = unit; rep = r }) s'
        ]
      ]

  -- The local RecordInfo of Record, before it is parsed.
  abbrev pub no_record : RecordInfo D
  no_record = record {
    pool_id = 0;
    stored_size = fl.zero;
    stored_size_unit = 1;
    objects_num = fl.zero;
    num_unit = 1;
    used_size = fl.zero;
    used_size_unit = 1;
    max_avail = fl.zero;
    max_avail_unit = 1;
    use_ratio = fl.zero;
    pool_name = [];
    profile = [];
    is_ec = false;
    ec_k = 0;
    ec_m = 0;
    stripe_unit = 0;
    rep = fl.zero;
  }

  abbrev scaled : D → ℕ → D
  scaled d unit = fl.mul d (fl.from_nat unit)

  -- What Record writes to an entry of `tmpPoolInfoMap`.
  abbrev pub usage_info : RecordInfo D → PoolUsageInfo D → PoolUsageInfo D
  usage_info i old = record {
    stored_size = fl.to_u64 (scaled i.stored_size i.stored_size_unit);
    objects_num = fl.to_u64 (scaled i.objects_num i.num_unit);
    used_size = fl.to_u64 (scaled i.used_size i.used_size_unit);
    use_ratio = fl.to_float i.use_ratio;
    max_avail = fl.to_u64 (fl.mul (scaled i.max_avail i.max_avail_unit) i.rep);
    version = old.version;
    k = i.ec_k;
    m = i.ec_m;
    stripe_unit = i.stripe_unit;
    is_ec = i.is_ec;
  }

  abbrev pub enter_pool : RecordInfo D → PoolUsageStat D → PoolUsageStat D
  enter_pool i s = record s {
    tmp_pool_info_map =
        insert i.pool_id (usage_info i (entry fl i.pool_id s.tmp_pool_info_map))
          s.tmp_pool_info_map;
    pool_list = s.pool_list ++ i.pool_id ∷ [];
  }

  -- Record.
  unfoldable pub record_pool : List Bytes → PoolUsageStat D → Ended (PoolUsageStat D) ℕ
  unfolding parse_to_record_info cal_pool_size
  record_pool gs s = elim (parse_to_record_info gs no_record) [
    | none ↦ fails s
    | some info ↦ elim (cal_pool_size info s) [
      | ok info' s' ↦ ok info'.pool_id (enter_pool info' s')
      | fails s' ↦ fails s'
      | throws s' ↦ throws s'
    ]
  ]

  -- The loop of GetPoolStorageUsage over the lines of the list; a line that does not match is skipped.
  unfoldable pub record_lines : List Bytes → PoolUsageStat D → Ended (PoolUsageStat D) ℕ
  unfolding record_pool
  record_lines [] s = ok 0 s
  record_lines (line ∷ lines) s = elim (cl.match_pool line) [
    | none ↦ record_lines lines s
    | some gs ↦ elim (record_pool gs s) [
      | ok id s' ↦ record_lines lines s'
      | fails s' ↦ fails s'
      | throws s' ↦ throws s'
    ]
  ]

  -- UpdatePoolList and ReportPoolNewAndDel.
  unfoldable pub update_pool_list : PoolUsageStat D → Ended (PoolUsageStat D) ℕ
  update_pool_list s =
      let (ret, calls) = report_create_pool s.pool_list s.notify_create_func in
      let s' : PoolUsageStat D = record s {
        pool_list = [];
        tmp_pool_info_map = [];
        report = s.report ++ calls;
      } in
      if is_zero ret then ok 0 s' else fails s'

  -- UpdatePoolUsage with GetPoolStorageUsage.
  unfoldable pub update_pool_usage : PoolUsageStat D → Ended (PoolUsageStat D) ℕ
  unfolding record_lines update_pool_list
  update_pool_usage s =
      let (ret, out) = cl.mon_command df_command in
      if is_neg ret then fails s else elim (record_lines (tokens 10 (c_str out)) s) [
        | ok n s' ↦ update_pool_list (compare_pools fl s')
        | fails s' ↦ fails s'
        | throws s' ↦ throws s'
      ]
