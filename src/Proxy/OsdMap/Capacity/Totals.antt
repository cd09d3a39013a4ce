-- ===== src/Proxy/OsdMap/Capacity/Totals.antt =====
-- CephDf: the totals of a poll.
use global_cache_adaptor.Common.{
  ℕ, ◌+◌, ◌<◌, ◌≡◌, refl, ap, arith, List, [], ◌∷◌, Option, none, some, leb, if◌then◌else◌, u32,
  u64,
}
use global_cache_adaptor.Common.Bytes.{Bytes}
use global_cache_adaptor.Common.Int.{ℤ, pos}
use global_cache_adaptor.Proxy.OsdMap.{OsdMapApi}
use global_cache_adaptor.Proxy.OsdMap.Capacity.{
  PoolInfo, ClusterData, PoolJson, pools_array, Libraries, get_pool_base_info, or_default,
  raw_avail, json_parse_ceph_df, add_pools, ceph_df, get_pool_all_used_and_avail,
}

abbrev pub larger : ℕ → ℕ → ℕ
larger a b = if leb b a then a else b

-- What an entry of the answer stands for: the bytes used and the raw bytes available, or nothing.
abbrev pub Share : Type 0
Share = Option (ℕ × ℕ)

abbrev pub used_of : List Share → ℕ
used_of [] = 0
used_of (none ∷ es) = used_of es
used_of (some (u, a) ∷ es) = u + used_of es

abbrev pub most_of : List Share → ℕ
most_of [] = 0
most_of (none ∷ es) = most_of es
most_of (some (u, a) ∷ es) = larger a (most_of es)

abbrev pub totals : List Share → ClusterData
totals es = record { all_pool_used = u64 (used_of es); all_pool_avail = most_of es }

module _ {Map Inc : Type 0} (api : OsdMapApi Map Inc) (lib : Libraries) (o : Map) where
  -- An entry with numbers, of a pool that is laid out over `k` data and `m` check blocks: what is
  -- available of it is scaled to the raw bytes.
  pub record IsReadable (p : Bytes) (used raw : ℕ) : Type 0 where
    pub json : PoolJson
    pub id : ℕ
    pub layout : ℤ × PoolInfo
    pub texts : Bytes × Bytes
    pub avail : ℕ
    pub parsed : lib.parse p ≡ some json
    pub id_read : lib.stoull json.id ≡ some id
    pub laid_out : get_pool_base_info api lib o (u32 id) lib.info ≡ some layout
    pub has_stats : json.stats ≡ some texts
    pub used_read : lib.stoull texts.0 ≡ some used
    pub avail_read : lib.stoull texts.1 ≡ some avail
    pub scaled : raw_avail api lib (or_default api lib layout) avail ≡ some raw

  -- An entry that is no JSON stands for nothing.
  abbrev pub Stands : Bytes → Share → Type 0
  Stands p none = lib.parse p ≡ none
  Stands p (some (u, a)) = IsReadable p u a

  abbrev pub AllStand : List Bytes → List Share → Type 0
  AllStand [] [] = Unit
  AllStand [] (e ∷ es) = ⊥
  AllStand (p ∷ ps) [] = ⊥
  AllStand (p ∷ ps) (e ∷ es) = Stands p e × AllStand ps es

  counted :
      (p : Bytes) (u a used avail : ℕ)
      → IsReadable p u a
      → json_parse_ceph_df api lib o p (used, avail)
        ≡ some (pos 0, (u64 (used + u), larger avail a))
  unfolding json_parse_ceph_df
  counted p u a used avail h =
      rw
        (
          json_parse_ceph_df, h.parsed, h.id_read, h.laid_out, h.has_stats, h.used_read,
          h.avail_read, h.scaled,
        )
        refl

  sums :
      (u a : ℕ) (es : List Share) (used avail : ℕ)
      → ◌≡◌ {A = ℕ × ℕ}
          (u64 (u64 (used + u) + used_of es), larger (larger avail a) (most_of es))
          (u64 (used + (u + used_of es)), larger avail (larger a (most_of es)))
  sums u a es used avail =
      let n : u64 (u64 (used + u) + used_of es) ≡ u64 (used + (u + used_of es)) = omega arith in
      let l : larger (larger avail a) (most_of es) ≡ larger avail (larger a (most_of es)) =
        ground arith in
      rw (n, l) refl

  add_pools_lem :
      (ps : List Bytes) (es : List Share)
      → AllStand ps es
      → (used avail : ℕ) → used < 18446744073709551616
      → add_pools api lib o ps (used, avail)
        ≡ some (u64 (used + used_of es), larger avail (most_of es))
  unfolding add_pools json_parse_ceph_df
  add_pools_lem [] [] h used avail b =
      let n : u64 (used + 0) ≡ used = omega arith in
      let l : larger avail 0 ≡ avail = ground arith in rw (n, l) refl
  add_pools_lem [] (e ∷ es) h used avail b = ground arith
  add_pools_lem (p ∷ ps) [] h used avail b = ground arith
  add_pools_lem (p ∷ ps) (none ∷ es) h used avail b =
      rw (add_pools, json_parse_ceph_df, h.0) (add_pools_lem ps es h.1 used avail b)
  add_pools_lem (p ∷ ps) (some (u, a) ∷ es) h used avail b =
      rw
        (
          add_pools,
          counted p u a used avail h.0,
          add_pools_lem ps es h.1 (u64 (used + u)) (larger avail a) (omega arith),
        )
        (ap some (sums u a es used avail))

  -- When every entry of the answer is a pool with readable numbers and a layout, or no JSON at all,
  -- CephDf succeeds and leaves, for GetPoolAllUsedAndAvail, the sum of the bytes used modulo 2^64 and
  -- the largest of the pools' raw bytes available, and 0 for no pool; what was there before is gone.
  pub ceph_df-totals :
      (ps : List Bytes) (es : List Share)
      → AllStand ps es
      → (c : ClusterData)
      → (ceph_df api lib o (pools_array ps) c ≡ some (pos 0, totals es))
        × (get_pool_all_used_and_avail (totals es) ≡ (pos 0, (u64 (used_of es), most_of es)))
  unfolding ceph_df get_pool_all_used_and_avail
  ceph_df-totals ps es h c =
      (rw (add_pools_lem ps es h 0 0 (omega arith), none_yet, most) refl, refl)
    where
      most : larger 0 (most_of es) ≡ most_of es
      most = ground arith

      none_yet : 0 + used_of es ≡ used_of es
      none_yet = omega arith
