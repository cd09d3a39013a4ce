-- ===== src/Proxy/PoolStat/Collect.antt =====
-- src/ceph_proxy/RadosMonitor.cc, class PoolUsageStat: the round that asks the cluster for its
-- pools. An outer `none` is an exception that the C++ library throws; it leaves the round.
-- Allocations succeed.
pub mod Round
pub mod Listed
pub mod Failures
pub mod Rounds
use global_cache_adaptor.Common.{
  ℕ, suc, ◌+◌, ◌*◌, Bool, true, false, List, [], ◌∷◌, ◌++◌, Option, none, some, ◌==◌, if◌then◌else◌,
  u32, u64,
}
use global_cache_adaptor.Common.Bytes.{Bytes, bytes, same, tokens}
use global_cache_adaptor.Common.Int.{ℤ, pos, negsuc, neg, is_neg, neg_part}
use global_cache_adaptor.Common.Number.{strtol, to_u32, to_int}
use global_cache_adaptor.Common.OrdMap.{insert}
use global_cache_adaptor.Server.OpRequest.{c_str}
use global_cache_adaptor.Proxy.PoolStat.{Doubles, PoolUsageStat}

-- The libraries: std::regex_match on the patterns of the source, with the texts of its groups; strtod,
-- where `none` is the failure that the source tests for; and librados, with the code and the output of
-- a command of the monitor, and the objects and the copies that a pool's statistics count.
pub record Cluster (D : Type 0) : Type 0 where
  pub match_size : Bytes → Option (Bytes × Bytes)
  pub match_profile : Bytes → Option Bytes
  pub match_setting : Bytes → Option (Bytes × Bytes)
  pub match_pool : Bytes → Option (List Bytes)
  pub strtod : Bytes → Option D
  pub mon_command : Bytes → ℤ × Bytes
  pub pool_stat : ℕ → Option (ℕ × ℕ)

-- TransStrUnitToNum; the last branch is also that of "B".
unfoldable pub trans_str_unit_to_num : Bytes → ℕ
trans_str_unit_to_num u =
    if same (bytes "PiB") u
    then 1125899906842624
    else if same (bytes "TiB") u
    then 1099511627776
    else if same (bytes "GiB") u
    then 1073741824
    else if same (bytes "G") u
    then 1073741824
    else if same (bytes "MiB") u
    then 1048576
    else if same (bytes "M") u
    then 1048576
    else if same (bytes "KiB") u
    then 1024
    else if same (bytes "K") u
    then 1024
    else 1

pub record RecordInfo (D : Type 0) : Type 0 where
  pub pool_id : ℕ
  pub stored_size : D
  pub stored_size_unit : ℕ
  pub objects_num : D
  pub num_unit : ℕ
  pub used_size : D
  pub used_size_unit : ℕ
  pub max_avail : D
  pub max_avail_unit : ℕ
  pub use_ratio : D
  pub pool_name : Bytes
  pub profile : Bytes
  pub is_ec : Bool
  pub ec_k : ℕ
  pub ec_m : ℕ
  pub stripe_unit : ℕ
  pub rep : D

-- GetECProfileSize's `k`, `m` and `stripeUnit`.
pub record EcSize : Type 0 where
  pub k : ℕ
  pub m : ℕ
  pub stripe_unit : ℕ

-- The commands to the monitor.
abbrev pub df_command : Bytes
df_command = bytes "{\"prefix\":\"df\"}"

abbrev pub pool_command : Bytes → Bytes
pool_command name =
    bytes "{\"var\": \"erasure_code_profile\", \"prefix\": \"osd pool get\", \"pool\": \""
    ++ (name ++ bytes "\"}")

abbrev pub profile_command : Bytes → Bytes
profile_command name =
    bytes "{\"prefix\": \"osd erasure-code-profile get\", \"name\": \"" ++ (name ++ bytes "\"}")

abbrev pub stripe_command : Bytes
stripe_command =
    bytes
      "{\"prefix\": \"config get\", \"who\": \"osd.-1\", \"key\": \"osd_pool_erasure_code_stripe_unit\"}"

-- unit.replace(unit.find("\n"), 1, ""), which throws without a newline.
abbrev pub remove_newline : Bytes → Option Bytes
remove_newline [] = none
remove_newline (c ∷ s) = elim (remove_newline s) [
  | none ↦ if c == 10 then some s else none
  | some t ↦ if c == 10 then some s else some (c ∷ t)
]

module _ {D : Type 0} (fl : Doubles D) (cl : Cluster D) where
  -- TransStrToNum, which leaves `num` as it was when it fails.
  unfoldable pub trans_str_to_num : Bytes → ℕ → ℕ
  unfolding trans_str_unit_to_num
  trans_str_to_num s num = elim (cl.match_size s) [
    | none ↦ num
    | some (digits, unit) ↦
        let n = strtol (c_str digits) in
        if n.failed then num else u64 (to_u32 n.value * trans_str_unit_to_num (c_str unit))
  ]

  -- The code of IsECPool, and its `ecProfile` and `isEC`.
  unfoldable pub is_ec_pool : RecordInfo D → ℤ × RecordInfo D
  is_ec_pool info =
      let (ret, out) = cl.mon_command (pool_command info.pool_name) in
      if is_neg ret
      then if neg_part ret == 13 then (pos 0, record info { is_ec = false }) else (ret, info)
      else elim (cl.match_profile out) [
        | none ↦ (neg 1, record info { is_ec = true })
        | some p ↦ (pos 0, record info { is_ec = true; profile = c_str p })
      ]

  -- ParseECProfile.
  unfoldable pub parse_ec_profile : Bytes → EcSize → EcSize
  unfolding trans_str_to_num
  parse_ec_profile line e = elim (cl.match_setting line) [
    | none ↦ e
    | some (name, value) ↦
        if same name (bytes "k")
        then record e { k = to_u32 (strtol (c_str value)).value }
        else if same name (bytes "m")
        then record e { m = to_u32 (strtol (c_str value)).value }
        else if same name (bytes "stripe_unit")
        then (let val = trans_str_to_num (c_str value) 0 in
            if val == 0 then e else record e { stripe_unit = u32 val })
        else e
  ]

  abbrev pub parse_lines : List Bytes → EcSize → EcSize
  parse_lines [] e = e
  parse_lines (line ∷ lines) e = parse_lines lines (parse_ec_profile line e)

  -- GetDefaultECStripeUnit; a failure's negative code is returned as an unsigned number.
  unfoldable pub get_default_ec_stripe_unit : Option ℕ
  unfolding trans_str_to_num
  get_default_ec_stripe_unit =
      let (ret, out) = cl.mon_command stripe_command in
      if is_neg ret then some (to_u32 ret) else elim (remove_newline out) [
        | none ↦ none
        | some unit ↦ let num = trans_str_to_num unit 0 in some (if num == 0 then 4096 else u32 num)
      ]

  -- The stripe unit that is asked for once: `globalStripeSize`.
  unfoldable pub stripe_size : PoolUsageStat D → Option (ℕ × PoolUsageStat D)
  unfolding get_default_ec_stripe_unit
  stripe_size s =
      if s.global_stripe_size == 0
      then elim get_default_ec_stripe_unit [
        | none ↦ none
        | some unit ↦ some (unit, record s { global_stripe_size = unit })
      ]
      else some (s.global_stripe_size, s)

  -- GetPoolReplicationSize.
  unfoldable pub get_pool_replication_size : ℕ → Option D
  get_pool_replication_size id = elim (cl.pool_stat id) [
    | none ↦ none
    | some (objects, copies) ↦
        if objects == 0
        then some (fl.from_nat 3)
        else if copies == 0
        then some (fl.from_nat 3)
        else some (fl.div (fl.from_nat copies) (fl.from_nat objects))
  ]
