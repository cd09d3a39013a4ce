-- ===== src/Proxy/PoolStat/Collect/Failures.antt =====
-- The rounds of PoolUsageStat in src/ceph_proxy/RadosMonitor.cc that fail, and what they leave to the
-- rounds behind them.
use global_cache_adaptor.Common.{
  ℕ, ◌+◌, u32, ◌≡◌, ◌≢◌, refl, sym, ap, ◌∙◌, Bool-cases, inl, inr, List, [], ◌∷◌, ◌++◌, Option,
  none, some, Option-cases, append-nil, append_assoc, ◌⊎◌, ◌==◌, arith,
}
use global_cache_adaptor.Common.Bytes.{Bytes}
use global_cache_adaptor.Common.Int.{is_zero}
use global_cache_adaptor.Proxy.PoolStat.{Doubles, PoolUsageStat}
use global_cache_adaptor.Proxy.PoolStat.Collect.{
  Cluster, RecordInfo, EcSize, stripe_size, get_pool_replication_size, profile_command,
  get_default_ec_stripe_unit,
}
use global_cache_adaptor.Proxy.PoolStat.Collect.Round.{
  Ended, ok, fails, throws, no_record, parse_to_record_info, get_ec_profile_size, cal_pool_size,
  enter_pool, record_pool, record_lines,
}

-- The state that an end leaves.
abbrev pub final : {S A : Type 0} → Ended S A → S
final (ok a s) = s
final (fails s) = s
final (throws s) = s

-- Only more pools are recorded, and a stripe unit that is known stays.
pub record Grows {D : Type 0} (s s' : PoolUsageStat D) : Type 0 where
  pub ids : List ℕ
  pub list : s'.pool_list ≡ s.pool_list ++ ids
  pub info : s'.pool_info_map ≡ s.pool_info_map
  pub notify : s'.notify_create_func ≡ s.notify_create_func
  pub report : s'.report ≡ s.report
  pub stripe : s.global_stripe_size ≢ 0 → s'.global_stripe_size ≡ s.global_stripe_size

module _ {D : Type 0} where
  stays : (s : PoolUsageStat D) → Grows s s
  stays s = record {
    ids = [];
    list = sym (append-nil s.pool_list);
    info = refl;
    notify = refl;
    report = refl;
    stripe = λ _. refl;
  }

  further : {r s t : PoolUsageStat D} → Grows r s → Grows s t → Grows r t
  further {r} {s} {t} g h = record {
    ids = g.ids ++ h.ids;
    list = h.list ∙ ap (λ l. l ++ h.ids) g.list ∙ append_assoc r.pool_list g.ids h.ids;
    info = h.info ∙ g.info;
    notify = h.notify ∙ g.notify;
    report = h.report ∙ g.report;
    stripe = λ k. h.stripe (rw (g.stripe k) k) ∙ g.stripe k;
  }

module _ {D : Type 0} (fl : Doubles D) (cl : Cluster D) where
  -- How the stripe unit is found.
  stripe_size-cases :
      (s : PoolUsageStat D)
      → (stripe_size fl cl s ≡ none)
        ⊎ ((unit : ℕ) × (s' : PoolUsageStat D) × (stripe_size fl cl s ≡ some (unit, s'))
            × Grows s s')
  unfolding stripe_size
  stripe_size-cases s = elim (Bool-cases (s.global_stripe_size == 0)) [
    | inr e ↦ inr (s.global_stripe_size, s, rw e, stays s)
    | inl e ↦ elim (Option-cases (get_default_ec_stripe_unit fl cl)) [
      | inl f ↦ inl (rw (e, f))
      | inr (unit, f) ↦ inr (
        unit,
        record s { global_stripe_size = unit },
        rw (e, f),
        record {
          ids = [];
          list = sym (append-nil s.pool_list);
          info = refl;
          notify = refl;
          report = refl;
          stripe = λ h. ground (arith, h);
        },
      )
    ]
  ]

  get_ec_profile_size-Grows :
      (profile : Bytes) (e : EcSize) (s : PoolUsageStat D)
      → Grows s (final (get_ec_profile_size fl cl profile e s))
  unfolding get_ec_profile_size
  get_ec_profile_size-Grows profile e s =
      elim (Bool-cases (is_zero (cl.mon_command (profile_command profile)).0)) [
        | inr z ↦ rw z (stays s)
        | inl z ↦ elim (stripe_size-cases s) [
          | inl f ↦ rw (z, f) (stays s)
          | inr (u, s', f, g) ↦ rw (z, f) g
        ]
      ]

  cal_pool_size-Grows :
      (info : RecordInfo D) (s : PoolUsageStat D) → Grows s (final (cal_pool_size fl cl info s))
  unfolding cal_pool_size
  cal_pool_size-Grows info s = elim (Bool-cases info.is_ec) [
    | inl e ↦ rw e (
        by_size
          (get_ec_profile_size fl cl info.profile
            (record { k = info.ec_k; m = info.ec_m; stripe_unit = info.stripe_unit }) s)
          (get_ec_profile_size-Grows info.profile
            (record { k = info.ec_k; m = info.ec_m; stripe_unit = info.stripe_unit }) s))
    | inr e ↦ elim (stripe_size-cases s) [
      | inl f ↦ rw (e, f) (stays s)
      | inr (u, s', f, g) ↦ elim (Option-cases (get_pool_replication_size fl cl info.pool_id)) [
        | inl r ↦ rw (e, f, r) g
        | inr (rep, r) ↦ rw (e, f, r) g
      ]
    ]
  ]
    where
      by_size :
          (o : Ended (PoolUsageStat D) EcSize)
          → Grows s (final o)
          → Grows s (
              final (elim o as (λ _. Ended (PoolUsageStat D) (RecordInfo D)) [
                | ok e s' ↦
                    ok
                      (record info {
                        ec_k = e.k;
                        ec_m = e.m;
                        stripe_unit = e.stripe_unit;
                        rep = fl.div (fl.from_nat (u32 (e.k + e.m))) (fl.from_nat e.k);
                      })
                      s'
                | fails s' ↦ fails s'
                | throws s' ↦ throws s'
              ]))
      by_size (ok e s') g = g
      by_size (fails s') g = g
      by_size (throws s') g = g

  record_pool-Grows :
      (gs : List Bytes) (s : PoolUsageStat D) → Grows s (final (record_pool fl cl gs s))
  unfolding record_pool
  record_pool-Grows gs s = by_parse (parse_to_record_info fl cl gs (no_record fl cl))
    where
      sized : Ended (PoolUsageStat D) (RecordInfo D) → Ended (PoolUsageStat D) ℕ
      sized o = elim o [
        | ok info s' ↦ ok info.pool_id (enter_pool fl cl info s')
        | fails s' ↦ fails s'
        | throws s' ↦ throws s'
      ]

      by_size :
          (o : Ended (PoolUsageStat D) (RecordInfo D))
          → Grows s (final o)
          → Grows s (final (sized o))
      by_size (ok info s') g = further g (record {
        ids = info.pool_id ∷ [];
        list = refl;
        info = refl;
        notify = refl;
        report = refl;
        stripe = λ _. refl;
      })
      by_size (fails s') g = g
      by_size (throws s') g = g

      by_parse :
          (p : Option (RecordInfo D))
          → Grows s (
              final (elim p as (λ _. Ended (PoolUsageStat D) ℕ) [
                | none ↦ fails s
                | some info ↦ sized (cal_pool_size fl cl info s)
              ]))
      by_parse none = stays s
      by_parse (some info) = by_size (cal_pool_size fl cl info s) (cal_pool_size-Grows info s)

  -- However the loop over the lines of the list of pools ends, by an exception too, it has only entered
  -- pools in `poolList` behind those that stood there: what is answered about the pools is as before,
  -- nobody was told of anything, and a stripe unit that is known has stayed.
  pub record_lines-Grows :
      (lines : List Bytes) (s : PoolUsageStat D) → Grows s (final (record_lines fl cl lines s))
  unfolding record_lines
  record_lines-Grows [] s = stays s
  record_lines-Grows (line ∷ lines) s = elim (Option-cases (cl.match_pool line)) [
    | inl e ↦ rw (final, e) (record_lines-Grows lines s)
    | inr (gs, e) ↦
        rw (final, e)
          (by_record (record_pool fl cl gs s) (record_pool-Grows gs s)
            (λ s'. record_lines-Grows lines s'))
  ]
    where
      by_record :
          (o : Ended (PoolUsageStat D) ℕ)
          → Grows s (final o)
          → ((s' : PoolUsageStat D) → Grows s' (final (record_lines fl cl lines s')))
          → Grows s (
              final (elim o as (λ _. Ended (PoolUsageStat D) ℕ) [
                | ok id s' ↦ record_lines fl cl lines s'
                | fails s' ↦ fails s'
                | throws s' ↦ throws s'
              ]))
      by_record (ok id s') g rest = further g (rest s')
      by_record (fails s') g rest = g
      by_record (throws s') g rest = g
