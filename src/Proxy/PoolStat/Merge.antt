-- ===== src/Proxy/PoolStat/Merge.antt =====
-- Compare of src/ceph_proxy/RadosMonitor.cc against the list of the pools that were reported.
use global_cache_adaptor.Common.{
  ℕ, ◌≡◌, refl, sym, ap, ◌∙◌, Bool, true, false, ◌⊎◌, inl, inr, ◌||◌, List, [], ◌∷◌, Option, none,
  some, ◌==◌, if◌then◌else◌, arith,
}
use global_cache_adaptor.Common.OrdMap.{
  OrdMap, lookup, insert, erase, keys, From, lookup-insert, insert-From, erase-From, lookup-erase,
}
use global_cache_adaptor.Proxy.PoolStat.{
  Doubles, PoolUsageInfo, PoolUsageStat, no_info, entry, copy_info, copy_pools, mem, deleted_pools,
  erase_all, compare_pools,
}

-- The nine fields of `i` are those of `new`, and its version is that of `old`.
pub record IsCopied {D : Type 0} (new old i : PoolUsageInfo D) : Type 0 where
  pub stored_size : i.stored_size ≡ new.stored_size
  pub objects_num : i.objects_num ≡ new.objects_num
  pub used_size : i.used_size ≡ new.used_size
  pub use_ratio : i.use_ratio ≡ new.use_ratio
  pub max_avail : i.max_avail ≡ new.max_avail
  pub k : i.k ≡ new.k
  pub m : i.m ≡ new.m
  pub stripe_unit : i.stripe_unit ≡ new.stripe_unit
  pub is_ec : i.is_ec ≡ new.is_ec
  pub version : i.version ≡ old.version

-- What is known of the pool: if it is in the list, an entry copied from `new`, and else nothing.
abbrev pub Known :
    {D : Type 0} → Bool → PoolUsageInfo D → PoolUsageInfo D → Option (PoolUsageInfo D) → Type 0
Known {D} b new old o =
    ((b ≡ true) × (i : PoolUsageInfo D) × (o ≡ some i) × IsCopied new old i)
    ⊎ ((b ≡ false) × (o ≡ none))

pub copied-Known :
    {D : Type 0} (b : Bool) (new old : PoolUsageInfo D) (o : Option (PoolUsageInfo D))
    → o ≡ (if b then some (copy_info new old) else none)
    → Known b new old o
copied-Known true new old o e = inl (
  refl,
  copy_info new old,
  e,
  record {
    stored_size = refl;
    objects_num = refl;
    used_size = refl;
    use_ratio = refl;
    max_avail = refl;
    k = refl;
    m = refl;
    stripe_unit = refl;
    is_ec = refl;
    version = refl;
  },
)
copied-Known false new old o e = inr (refl, e)

module _ {D : Type 0} (fl : Doubles D) where
  entry-insert :
      (k id : ℕ) (v : PoolUsageInfo D) (t : OrdMap (PoolUsageInfo D))
      → entry fl id (insert k v t) ≡ (if k == id then v else entry fl id t)
  entry-insert k id v t =
      ap (λ o. elim o as (λ _. PoolUsageInfo D) [ none ↦ no_info fl | some i ↦ i ])
        (lookup-insert k id v t)
      ∙ by_test (k == id)
    where
      by_test :
          (b : Bool)
          → elim (if b then some v else lookup id t) as (λ _. PoolUsageInfo D) [
            | none ↦ no_info fl
            | some i ↦ i
          ]
            ≡ (if b then v else entry fl id t)
      by_test true = refl
      by_test false = refl

  copy_pools-From :
      (ids : List ℕ) (s : PoolUsageStat D)
      → From 0 s.pool_info_map
      → From 0 (copy_pools fl ids s).pool_info_map
  unfolding copy_pools
  copy_pools-From [] s f = f
  copy_pools-From (k ∷ ids) s f =
      copy_pools-From ids _ (insert-From 0 k _ s.pool_info_map (omega arith) f)

  lookup-copy_pools :
      (ids : List ℕ) (id : ℕ) (s : PoolUsageStat D)
      → lookup id (copy_pools fl ids s).pool_info_map ≡ (
          if mem id ids
          then some (copy_info (entry fl id s.tmp_pool_info_map) (entry fl id s.pool_info_map))
          else lookup id s.pool_info_map)
  unfolding copy_pools
  lookup-copy_pools [] id s = refl
  lookup-copy_pools (k ∷ ids) id s = lookup-copy_pools ids id next ∙ by_key (k == id) refl
    where
      new : PoolUsageInfo D
      new = entry fl k s.tmp_pool_info_map

      old : PoolUsageInfo D
      old = entry fl k s.pool_info_map

      next : PoolUsageStat D
      next = record s {
        pool_info_map = insert k (copy_info new old) s.pool_info_map;
        tmp_pool_info_map = insert k new s.tmp_pool_info_map;
      }

      by_mem : (t : Bool) (c : PoolUsageInfo D) → (if t then some c else some c) ≡ some c
      by_mem true c = refl
      by_mem false c = refl

      by_key :
          (t : Bool)
          → (k == id) ≡ t
          → (if mem id ids
              then some
                  (copy_info (entry fl id next.tmp_pool_info_map) (entry fl id next.pool_info_map))
              else lookup id next.pool_info_map)
            ≡ (if k == id || mem id ids
                then some
                    (copy_info (entry fl id s.tmp_pool_info_map) (entry fl id s.pool_info_map))
                else lookup id s.pool_info_map)
      by_key true e =
          let same : k ≡ id = ground (arith, e) in
          let c : PoolUsageInfo D = copy_info new old in
          let found : lookup id (insert k c s.pool_info_map) ≡ some c =
            lookup-insert k id c s.pool_info_map
            ∙ ap (λ t. if t then some c else lookup id s.pool_info_map) e in
          let in_tmp : entry fl id next.tmp_pool_info_map ≡ new =
            entry-insert k id new s.tmp_pool_info_map
            ∙ ap (λ t. if t then new else entry fl id s.tmp_pool_info_map) e in
          let in_info : entry fl id next.pool_info_map ≡ c =
            entry-insert k id c s.pool_info_map
            ∙ ap (λ t. if t then c else entry fl id s.pool_info_map) e in
          rw (found, in_tmp, in_info, e, sym same) (by_mem (mem k ids) c)
      by_key false e = rw (
        e,
        entry-insert k id new s.tmp_pool_info_map,
        entry-insert k id (copy_info new old) s.pool_info_map,
        lookup-insert k id (copy_info new old) s.pool_info_map,
        e,
      )

  lookup-erase_all :
      (ks : List ℕ) (id : ℕ) (t : OrdMap (PoolUsageInfo D))
      → From 0 t
      → lookup id (erase_all ks t) ≡ (if mem id ks then none else lookup id t)
  lookup-erase_all [] id t f = refl
  lookup-erase_all (k ∷ ks) id t f =
      ground
        (arith, lookup-erase_all ks id (erase k t) (erase-From 0 k t f), lookup-erase k id 0 t f)

  mem-deleted_pools :
      (ids ks : List ℕ) (id : ℕ)
      → mem id (deleted_pools ids ks) ≡ (if mem id ids then false else mem id ks)
  mem-deleted_pools ids [] id = ground arith
  mem-deleted_pools ids (k ∷ ks) id = by_key (mem k ids) same_mem (mem-deleted_pools ids ks id)
    where
      same_mem : (k == id) ≡ true → mem k ids ≡ mem id ids
      same_mem e = let same : k ≡ id = ground (arith, e) in ap (λ j. mem j ids) same

      rest : List ℕ
      rest = deleted_pools ids ks

      by_key :
          (b : Bool)
          → ((k == id) ≡ true → b ≡ mem id ids)
          → mem id rest ≡ (if mem id ids then false else mem id ks)
          → mem id (if b then rest else k ∷ rest)
            ≡ (if mem id ids then false else (k == id) || mem id ks)
      by_key true h ih = ground arith
      by_key false h ih = ground arith

  mem-keys : (id : ℕ) (t : OrdMap (PoolUsageInfo D)) → mem id (keys t) ≡ false → lookup id t ≡ none
  mem-keys id [] h = refl
  mem-keys id ((k, i) ∷ t) h = ground (arith, mem-keys id t)

  pub compare_pools-From :
      (s : PoolUsageStat D) → From 0 s.pool_info_map → From 0 (compare_pools fl s).pool_info_map
  unfolding compare_pools
  compare_pools-From s f =
      erased (deleted_pools s.pool_list (keys (copy_pools fl s.pool_list s).pool_info_map))
        (copy_pools fl s.pool_list s).pool_info_map (copy_pools-From s.pool_list s f)
    where
      erased : (ks : List ℕ) (t : OrdMap (PoolUsageInfo D)) → From 0 t → From 0 (erase_all ks t)
      erased [] t f = f
      erased (k ∷ ks) t f = erased ks (erase k t) (erase-From 0 k t f)

  pub lookup-compare_pools :
      (id : ℕ) (s : PoolUsageStat D)
      → From 0 s.pool_info_map
      → lookup id (compare_pools fl s).pool_info_map ≡ (
          if mem id s.pool_list
          then some (copy_info (entry fl id s.tmp_pool_info_map) (entry fl id s.pool_info_map))
          else none)
  unfolding compare_pools
  lookup-compare_pools id s f =
      let t = (copy_pools fl s.pool_list s).pool_info_map in
      lookup-erase_all (deleted_pools s.pool_list (keys t)) id t (copy_pools-From s.pool_list s f)
      ∙ ap (λ d. if d then none else lookup id t) (mem-deleted_pools s.pool_list (keys t) id)
      ∙ by_mem (mem id s.pool_list) (mem id (keys t)) (lookup id t) _ _
          (lookup-copy_pools s.pool_list id s) (mem-keys id t)
    where
      by_mem :
          (a b : Bool) (o : Option (PoolUsageInfo D)) (new : PoolUsageInfo D)
          (old : Option (PoolUsageInfo D))
          → o ≡ (if a then some new else old)
          → (b ≡ false → o ≡ none)
          → (if (if a then false else b) then none else o) ≡ (if a then some new else none)
      by_mem true b o new old e h = e
      by_mem false true o new old e h = refl
      by_mem false false o new old e h = h refl

  -- For a map whose keys rise, Compare leaves exactly the pools of `poolList`: each with the stored,
  -- used and available sizes, the number of objects, the ratio, k, m, the stripe unit and the erasure
  -- code flag that were recorded for it, and with the version that it had (that of a new entry, where
  -- it had none).
  pub compare_pools-Known :
      (id : ℕ) (s : PoolUsageStat D)
      → From 0 s.pool_info_map
      → Known
          (mem id s.pool_list)
          (entry fl id s.tmp_pool_info_map)
          (entry fl id s.pool_info_map)
          (lookup id (compare_pools fl s).pool_info_map)
  compare_pools-Known id s f = copied-Known _ _ _ _ (lookup-compare_pools id s f)
