-- ===== src/Proxy/OsdMap/Capacity.antt =====
-- src/ceph_proxy/CephMsgr.cc: the layout of a pool, and the totals of "ceph df". JSON, the library's
-- conversions of texts and the configuration are parameters. An outer `none` is an exception of a
-- conversion, or a division by zero; either leaves the poll.
pub mod Totals
use global_cache_adaptor.Common.{
  ℕ, suc, ◌+◌, ◌*◌, ◌/◌, ◌≤◌, ◌≡◌, refl, ◌⊎◌, inl, inr, arith, Bool, true, false, List, [], ◌∷◌,
  Option, none, some, ltb, leb, ◌==◌, ==_refl, if◌then◌else◌, u32, u64,
}
use mathlib.Core.Option
use global_cache_adaptor.Common.Bytes.{Bytes, bytes, same}
use global_cache_adaptor.Common.Int.{ℤ, pos, negsuc, neg, is_neg}
use global_cache_adaptor.Common.Number.{to_u32}
use global_cache_adaptor.Server.MsgModule.{◌>>=◌}
use global_cache_adaptor.Proxy.OsdMap.{OsdMapApi, PgPool}

pub record PoolInfo : Type 0 where
  pub k : ℕ
  pub m : ℕ
  pub stripe_unit : ℕ

-- The members that CephDf writes and GetPoolAllUsedAndAvail reads.
pub record ClusterData : Type 0 where
  pub all_pool_used : ℕ
  pub all_pool_avail : ℕ

-- An entry of "pools": its "id", and "bytes_used" and "max_avail" of its "stats".
pub record PoolJson : Type 0 where
  pub id : Bytes
  pub stats : Option (Bytes × Bytes)

-- The answer of the monitors to "df": a failed command, no "pools", "pools" that are no array, and
-- the array.
pub data DfReply : Type 0 where
  failed : ℕ → DfReply
  no_pools : DfReply
  no_array : DfReply
  pools_array : List Bytes → DfReply

-- The libraries: `none` of a conversion is its exception. `info` is what an uninitialised PoolInfo
-- holds.
pub record Libraries : Type 0 where
  pub parse : Bytes → Option PoolJson
  pub stoull : Bytes → Option ℕ
  pub stoi : Bytes → Option ℤ
  pub default_stripe_unit : ℕ
  pub info : PoolInfo

abbrev pub find_pool : ℕ → List (ℤ × PgPool) → Option PgPool
find_pool n [] = none
find_pool n ((pos i, p) ∷ ps) = if i == n then some p else find_pool n ps
find_pool n ((negsuc i, p) ∷ ps) = find_pool n ps

abbrev pub find_text : Bytes → List (Bytes × Bytes) → Option Bytes
find_text name [] = none
find_text name ((key, value) ∷ rest) = if same name key then some value else find_text name rest

-- `k` and `m` of a profile, which are set together or not at all.
unfoldable pub profile_layout :
    (Bytes → Option ℤ) → List (Bytes × Bytes) → PoolInfo → Option PoolInfo
profile_layout stoi profile info = elim (find_text (bytes "m") profile) [
  | none ↦ some info
  | some m ↦ elim (find_text (bytes "k") profile) [
    | none ↦ some info
    | some k ↦ do k1 ← stoi k; m1 ← stoi m; some (record info { k = to_u32 k1; m = to_u32 m1 })
  ]
]

-- The stripe unit of a profile, or the configured one.
unfoldable pub profile_stripe : Libraries → List (Bytes × Bytes) → PoolInfo → Option PoolInfo
profile_stripe lib profile info = elim (find_text (bytes "stripe_unit") profile) [
  | none ↦ some (record info { stripe_unit = u32 lib.default_stripe_unit })
  | some t ↦ Option.map (λ z. record info { stripe_unit = to_u32 z }) (lib.stoi t)
]

module _ {Map Inc : Type 0} (api : OsdMapApi Map Inc) (lib : Libraries) where
  -- ProxyMsgr::GetPoolBaseInfo: the code, and the caller's PoolInfo.
  unfoldable pub get_pool_base_info : Map → ℕ → PoolInfo → Option (ℤ × PoolInfo)
  get_pool_base_info o pool_id info = elim (find_pool pool_id (api.pools o)) [
    | none ↦ some (neg 2, info)
    | some p ↦
        if p.is_replicated
        then some (
          pos 0,
          record {
            k = 1;
            m = u32 (p.size + 4294967295);
            stripe_unit = u32 lib.default_stripe_unit;
          },
        )
        else do
          i ← profile_layout lib.stoi (api.profile o p.erasure_code_profile) info
          j ← profile_stripe lib (api.profile o p.erasure_code_profile) i
          some (pos 0, j)
  ]

  -- The layout that JsonParseCephDF goes on with: DEFAULT_M for a pool that the map does not have.
  abbrev pub or_default : ℤ × PoolInfo → PoolInfo
  or_default (pos c, info) = info
  or_default (negsuc c, info) = if c == 1 then record info { k = 1; m = 2 } else info

  -- `avail * (m + k) / k`.
  unfoldable pub raw_avail : PoolInfo → ℕ → Option ℕ
  raw_avail info avail =
      if info.k == 0 then none else some (u64 (avail * u32 (info.m + info.k)) / info.k)

  -- JsonParseCephDF: the code, and the two totals.
  unfoldable pub json_parse_ceph_df : Map → Bytes → ℕ × ℕ → Option (ℤ × (ℕ × ℕ))
  json_parse_ceph_df o pool (used, avail) = elim (lib.parse pool) [
    | none ↦ some (neg 22, (used, avail))
    | some j ↦ do
      id ← lib.stoull j.id
      info ← get_pool_base_info o (u32 id) lib.info
      elim j.stats [
        | none ↦ some (neg 22, (used, avail))
        | some (u, a) ↦ do
          u1 ← lib.stoull u
          a1 ← lib.stoull a
          raw ← raw_avail (or_default info) a1
          some (pos 0, (u64 (used + u1), if leb raw avail then avail else raw))
      ]
  ]

  -- The loop of CephDf, which passes over the pools that cannot be read.
  unfoldable pub add_pools : Map → List Bytes → ℕ × ℕ → Option (ℕ × ℕ)
  add_pools o [] totals = some totals
  add_pools o (p ∷ ps) totals = elim (json_parse_ceph_df o p totals) [
    | none ↦ none
    | some (ret, totals1) ↦ add_pools o ps totals1
  ]

  -- CephDf: the code, and the cluster's data.
  unfoldable pub ceph_df : Map → DfReply → ClusterData → Option (ℤ × ClusterData)
  ceph_df o (failed n) c = some (negsuc n, c)
  ceph_df o no_pools c = some (pos 0, c)
  ceph_df o no_array c = some (neg 22, c)
  ceph_df o (pools_array ps) c =
      Option.map (λ t. (pos 0, record { all_pool_used = t.0; all_pool_avail = t.1 }))
        (add_pools o ps (0, 0))

-- GetPoolAllUsedAndAvail: the code, the used size and the available one.
unfoldable pub get_pool_all_used_and_avail : ClusterData → ℤ × (ℕ × ℕ)
get_pool_all_used_and_avail c = (pos 0, (c.all_pool_used, c.all_pool_avail))
