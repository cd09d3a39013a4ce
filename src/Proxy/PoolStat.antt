-- ===== src/Proxy/PoolStat.antt =====
-- src/ceph_proxy/RadosMonitor.h and src/ceph_proxy/RadosMonitor.cc, class PoolUsageStat: what it stores
-- of each pool, what it answers, and Compare. `mutex` is held around each change, so each is one step.
pub mod Merge
pub mod Answers
pub mod Collect
use global_cache_adaptor.Common.{
  ℕ, ◌+◌, ◌*◌, Bool, false, ◌||◌, not, List, [], ◌∷◌, ◌++◌, Option, none, some, ◌==◌, ◌&&◌,
  if◌then◌else◌, u64,
}
use global_cache_adaptor.Common.Int.{ℤ, pos, neg}
use global_cache_adaptor.Common.OrdMap.{OrdMap, lookup, insert, erase, keys}

-- What the source does with a `double`.
pub record Doubles (D : Type 0) : Type 0 where
  pub zero : D
  pub from_nat : ℕ → D
  pub mul : D → D → D
  pub div : D → D → D
  pub to_u64 : D → ℕ
  pub to_float : D → D

pub record PoolUsageInfo (D : Type 0) : Type 0 where
  pub stored_size : ℕ
  pub objects_num : ℕ
  pub used_size : ℕ
  pub use_ratio : D
  pub max_avail : ℕ
  pub version : ℕ
  pub k : ℕ
  pub m : ℕ
  pub stripe_unit : ℕ
  pub is_ec : Bool

-- `report` records the calls of the function that RegisterPoolNewNotifyFn has registered.
pub record PoolUsageStat (D : Type 0) : Type 0 where
  pub pool_info_map : OrdMap (PoolUsageInfo D)
  pub tmp_pool_info_map : OrdMap (PoolUsageInfo D)
  pub pool_list : List ℕ
  pub global_stripe_size : ℕ
  pub notify_create_func : Option (List ℕ → ℤ)
  pub report : List (List ℕ)

abbrev pub new_stat : {D : Type 0} → PoolUsageStat D
new_stat = record {
  pool_info_map = [];
  tmp_pool_info_map = [];
  pool_list = [];
  global_stripe_size = 0;
  notify_create_func = none;
  report = [];
}

module _ {D : Type 0} where
  -- What GetPoolUsageInfo copies.
  abbrev pub usage_of : PoolUsageInfo D → ℕ × ℕ × ℕ × D × ℕ
  usage_of i = (i.stored_size, i.objects_num, i.used_size, i.use_ratio, i.max_avail)

  -- GetPoolUsageInfo: the code, and what it writes on success.
  unfoldable pub get_pool_usage_info : ℕ → PoolUsageStat D → ℤ × Option (ℕ × ℕ × ℕ × D × ℕ)
  get_pool_usage_info id s = elim (lookup id s.pool_info_map) [
    | none ↦ (neg 1, none)
    | some i ↦ (pos 0, some (usage_of i))
  ]

  -- The loop of GetPoolAllUsedAndAvail, from its two running values.
  unfoldable pub sum_pools : OrdMap (PoolUsageInfo D) → ℕ → ℕ → ℕ × ℕ
  sum_pools [] used avail = (used, avail)
  sum_pools ((k, i) ∷ rest) used avail =
      sum_pools rest (u64 (used + i.used_size))
        (if avail == 0 && not (i.max_avail == 0) then i.max_avail else avail)

  abbrev pub first_avail : OrdMap (PoolUsageInfo D) → ℕ
  first_avail [] = 0
  first_avail ((k, i) ∷ rest) = i.max_avail

  -- GetPoolAllUsedAndAvail.
  unfoldable pub get_pool_all_used_and_avail : PoolUsageStat D → ℕ × ℕ
  unfolding sum_pools
  get_pool_all_used_and_avail s = sum_pools s.pool_info_map 0 (first_avail s.pool_info_map)

  -- GetPoolInfo; -ENOENT is -2.
  unfoldable pub get_pool_info : ℕ → PoolUsageStat D → ℤ × Option (ℕ × ℕ × ℕ)
  get_pool_info id s = elim (lookup id s.pool_info_map) [
    | none ↦ (neg 2, none)
    | some i ↦ (pos 0, some (i.k, i.m, i.stripe_unit))
  ]

module _ {D : Type 0} where
  -- The nine fields that Compare copies.
  abbrev pub copy_info : PoolUsageInfo D → PoolUsageInfo D → PoolUsageInfo D
  copy_info new old = record new { version = old.version }

module _ {D : Type 0} (fl : Doubles D) where
  abbrev pub no_info : PoolUsageInfo D
  no_info = record {
    stored_size = 0;
    objects_num = 0;
    used_size = 0;
    use_ratio = fl.zero;
    max_avail = 0;
    version = 0;
    k = 0;
    m = 0;
    stripe_unit = 0;
    is_ec = false;
  }

  -- operator[] of the map: a missing entry is all zero.
  abbrev pub entry : ℕ → OrdMap (PoolUsageInfo D) → PoolUsageInfo D
  entry id t = elim (lookup id t) [ none ↦ no_info | some i ↦ i ]

  -- The first loop of Compare; operator[] also enters a missing pool in `tmpPoolInfoMap`.
  unfoldable pub copy_pools : List ℕ → PoolUsageStat D → PoolUsageStat D
  copy_pools [] s = s
  copy_pools (id ∷ ids) s =
      let new = entry id s.tmp_pool_info_map in
      copy_pools ids (record s {
        pool_info_map = insert id (copy_info new (entry id s.pool_info_map)) s.pool_info_map;
        tmp_pool_info_map = insert id new s.tmp_pool_info_map;
      })

-- find(list.begin(), list.end(), id) != list.end().
abbrev pub mem : ℕ → List ℕ → Bool
mem id [] = false
mem id (x ∷ xs) = x == id || mem id xs

-- The second loop of Compare.
abbrev pub deleted_pools : List ℕ → List ℕ → List ℕ
deleted_pools ids [] = []
deleted_pools ids (k ∷ ks) = let rest = deleted_pools ids ks in if mem k ids then rest else k ∷ rest

-- The third loop of Compare.
abbrev pub erase_all : {D : Type 0} → List ℕ → OrdMap (PoolUsageInfo D) → OrdMap (PoolUsageInfo D)
erase_all [] t = t
erase_all (k ∷ ks) t = erase_all ks (erase k t)

module _ {D : Type 0} (fl : Doubles D) where
  unfoldable pub compare_pools : PoolUsageStat D → PoolUsageStat D
  unfolding copy_pools
  compare_pools s =
      let t = copy_pools fl s.pool_list s in
      record t {
        pool_info_map =
            erase_all (deleted_pools s.pool_list (keys t.pool_info_map)) t.pool_info_map;
      }
