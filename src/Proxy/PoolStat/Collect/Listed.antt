-- ===== src/Proxy/PoolStat/Collect/Listed.antt =====
-- Which pools PoolUsageStat of src/ceph_proxy/RadosMonitor.cc records, by the lines of the list.
use global_cache_adaptor.Common.{
  ℕ, suc, ◌≡◌, refl, sym, ap, ◌∙◌, false, inl, inr, List, [], ◌∷◌, ◌++◌, none, some, Option-cases,
  append-nil, append_assoc, ◌==◌, if◌then◌else◌, arith,
}
use global_cache_adaptor.Common.Bytes.{Bytes}
use global_cache_adaptor.Common.Int.{pos_part, is_zero}
use global_cache_adaptor.Common.Number.{strtol, to_int}
use global_cache_adaptor.Server.OpRequest.{c_str}
use global_cache_adaptor.Proxy.PoolStat.{Doubles, PoolUsageStat}
use global_cache_adaptor.Proxy.PoolStat.Collect.{Cluster, RecordInfo, stripe_size, is_ec_pool}
use global_cache_adaptor.Proxy.PoolStat.Collect.Round.{
  Ended, ok, fails, throws, no_record, parse_field, parse_fields, parse_to_record_info,
  get_ec_profile_size, cal_pool_size, enter_pool, record_pool, record_lines,
}

-- The pool of a line, by the groups that it matches: the number in the second one.
abbrev pub pool_of : List Bytes → ℕ
pool_of [] = 0
pool_of (name ∷ []) = 0
pool_of (name ∷ number ∷ gs) = pos_part (to_int (strtol (c_str number)).value)

-- The pools of the lines that match, in their order.
abbrev pub listed : {D : Type 0} → Cluster D → List Bytes → List ℕ
listed cl [] = []
listed cl (line ∷ lines) =
    let rest = listed cl lines in
    elim (cl.match_pool line) [ none ↦ rest | some gs ↦ pool_of gs ∷ rest ]

module _ {D : Type 0} (fl : Doubles D) (cl : Cluster D) where
  parse_field-id :
      (i : ℕ) (g : Bytes) (info info' : RecordInfo D)
      → (i == 2) ≡ false
      → parse_field fl cl i g info ≡ some info'
      → info'.pool_id ≡ info.pool_id
  unfolding parse_field
  parse_field-id i g info info' h e = ground arith

  parse_fields-id :
      (i : ℕ) (gs : List Bytes) (info info' : RecordInfo D)
      → parse_fields fl cl (suc (suc (suc i))) gs info ≡ some info'
      → info'.pool_id ≡ info.pool_id
  parse_fields-id i [] info info' e = cc
  parse_fields-id i (g ∷ gs) info info' e =
      elim (Option-cases (parse_field fl cl (suc (suc (suc i))) g info)) [
        | inl n ↦ absurd (cc (rw (n, parse_fields) at e))
        | inr (next, s) ↦
            parse_fields-id (suc i) gs next info' (rw (s, parse_fields) at e)
            ∙ parse_field-id (suc (suc (suc i))) g info next (ground arith) s
      ]

  is_ec_pool-id : (info : RecordInfo D) → (is_ec_pool fl cl info).1.pool_id ≡ info.pool_id
  unfolding is_ec_pool
  is_ec_pool-id info = ground arith

  cal_pool_size-keeps :
      (info info' : RecordInfo D) (s s' : PoolUsageStat D)
      → cal_pool_size fl cl info s ≡ ok info' s'
      → (info'.pool_id ≡ info.pool_id) × (s'.pool_list ≡ s.pool_list)
  unfolding cal_pool_size get_ec_profile_size stripe_size
  cal_pool_size-keeps info info' s s' e = ground arith

  second_field :
      (number : Bytes) (info info' : RecordInfo D)
      → parse_field fl cl 2 number info ≡ some info'
      → info'.pool_id ≡ pos_part (to_int (strtol (c_str number)).value)
  unfolding parse_field
  second_field number info info' e = ground arith

  parse_fields-pool :
      (gs : List Bytes) (info : RecordInfo D)
      → parse_fields fl cl 1 gs (no_record fl cl) ≡ some info
      → info.pool_id ≡ pool_of gs
  parse_fields-pool [] info e = cc
  parse_fields-pool (name ∷ []) info e =
      elim (Option-cases (parse_field fl cl 1 name (no_record fl cl))) [
        | inl n ↦ absurd (cc (rw (n, parse_fields) at e))
        | inr (next, s) ↦
            let same : next ≡ info = cc (rw (s, parse_fields) at e) in
            sym (ap (λ i. i.pool_id) same) ∙ parse_field-id 1 name (no_record fl cl) next refl s
      ]
  parse_fields-pool (name ∷ number ∷ gs) info e =
      elim (Option-cases (parse_field fl cl 1 name (no_record fl cl))) [
        | inl n ↦ absurd (cc (rw (n, parse_fields) at e))
        | inr (next, s) ↦ by_number next (rw (s, parse_fields) at e)
      ]
    where
      by_number :
          (next : RecordInfo D)
          → parse_fields fl cl 2 (number ∷ gs) next ≡ some info
          → info.pool_id ≡ pos_part (to_int (strtol (c_str number)).value)
      by_number next e = elim (Option-cases (parse_field fl cl 2 number next)) [
        | inl n ↦ absurd (cc (rw (n, parse_fields) at e))
        | inr (third, s) ↦
            parse_fields-id 0 gs third info (rw (s, parse_fields) at e)
            ∙ second_field number next third s
      ]

  parse_to_record_info-pool :
      (gs : List Bytes) (info : RecordInfo D)
      → parse_to_record_info fl cl gs (no_record fl cl) ≡ some info
      → info.pool_id ≡ pool_of gs
  unfolding parse_to_record_info
  parse_to_record_info-pool gs info e =
      elim (Option-cases (parse_fields fl cl 1 gs (no_record fl cl))) [
        | inl n ↦ absurd (cc (rw (n, parse_to_record_info) at e))
        | inr (found, s) ↦
            by_kind found (parse_fields-pool gs found s) (rw (s, parse_to_record_info) at e)
      ]
    where
      by_kind :
          (found : RecordInfo D)
          → found.pool_id ≡ pool_of gs
          → (let (ret, info'') = is_ec_pool fl cl found in
              if is_zero ret then some info'' else none)
            ≡ some info
          → info.pool_id ≡ pool_of gs
      by_kind found p e = ground (arith, is_ec_pool-id found)

  record_pool-list :
      (gs : List Bytes) (s s' : PoolUsageStat D) (id : ℕ)
      → record_pool fl cl gs s ≡ ok id s'
      → s'.pool_list ≡ s.pool_list ++ pool_of gs ∷ []
  unfolding record_pool
  record_pool-list gs s s' id e =
      elim (Option-cases (parse_to_record_info fl cl gs (no_record fl cl))) [
        | inl n ↦ absurd (cc (rw (n, record_pool) at e))
        | inr (info, p) ↦
            by_size info (parse_to_record_info-pool gs info p) (cal_pool_size fl cl info s)
              (λ info' t q. cal_pool_size-keeps info info' s t q) (rw (p, record_pool) at e)
      ]
    where
      by_size :
          (info : RecordInfo D)
          → info.pool_id ≡ pool_of gs
          → (o : Ended (PoolUsageStat D) (RecordInfo D))
          → ((info' : RecordInfo D) (t : PoolUsageStat D)
              → o ≡ ok info' t
              → (info'.pool_id ≡ info.pool_id) × (t.pool_list ≡ s.pool_list))
          → elim o as (λ _. Ended (PoolUsageStat D) ℕ) [
            | ok info' t ↦ ok info'.pool_id (enter_pool fl cl info' t)
            | fails t ↦ fails t
            | throws t ↦ throws t
          ]
            ≡ ok id s'
          → s'.pool_list ≡ s.pool_list ++ pool_of gs ∷ []
      by_size info p (ok info' t) k e =
          let (q, l) = k info' t refl in
          let same : enter_pool fl cl info' t ≡ s' = cc in
          sym (ap (λ u. u.pool_list) same) ∙ rw (l, q, p) refl
      by_size info p (fails t) k e = cc
      by_size info p (throws t) k e = cc

  -- Where the loop over the lines of the list of pools ends well, the pools of these lines, in their
  -- order, stand in `poolList` behind those that stood there.
  pub record_lines-listed :
      (lines : List Bytes) (s mid : PoolUsageStat D) (n : ℕ)
      → record_lines fl cl lines s ≡ ok n mid
      → mid.pool_list ≡ s.pool_list ++ listed cl lines
  unfolding record_lines
  record_lines-listed [] s mid n e =
      let same : s ≡ mid = cc in sym (ap (λ u. u.pool_list) same) ∙ sym (append-nil s.pool_list)
  record_lines-listed (line ∷ lines) s mid n e = elim (Option-cases (cl.match_pool line)) [
    | inl m ↦ rw (m, listed) (record_lines-listed lines s mid n (rw (m, record_lines) at e))
    | inr (gs, m) ↦
        rw (m, listed)
          (by_record gs (record_pool fl cl gs s) (λ s' id q. record_pool-list gs s s' id q)
            (λ s' q. record_lines-listed lines s' mid n q) (rw (m, record_lines) at e))
  ]
    where
      by_record :
          (gs : List Bytes) (o : Ended (PoolUsageStat D) ℕ)
          → ((s' : PoolUsageStat D) (id : ℕ)
              → o ≡ ok id s'
              → s'.pool_list ≡ s.pool_list ++ pool_of gs ∷ [])
          → ((s' : PoolUsageStat D)
              → record_lines fl cl lines s' ≡ ok n mid
              → mid.pool_list ≡ s'.pool_list ++ listed cl lines)
          → elim o as (λ _. Ended (PoolUsageStat D) ℕ) [
            | ok id s' ↦ record_lines fl cl lines s'
            | fails s' ↦ fails s'
            | throws s' ↦ throws s'
          ]
            ≡ ok n mid
          → mid.pool_list ≡ s.pool_list ++ pool_of gs ∷ listed cl lines
      by_record gs (ok id s') k rest e =
          rest s' e
          ∙ ap (λ l. l ++ listed cl lines) (k s' id refl)
          ∙ append_assoc s.pool_list (pool_of gs ∷ []) (listed cl lines)
      by_record gs (fails s') k rest e = cc
      by_record gs (throws s') k rest e = cc
