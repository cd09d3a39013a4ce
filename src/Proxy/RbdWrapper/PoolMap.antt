-- ===== src/Proxy/RbdWrapper/PoolMap.antt =====
-- src/ceph_proxy/RbdWrapper.cc: the pools of the cluster, and how many blocks of data and of parity each
-- of them writes.
use global_cache_adaptor.Common.{
  ℕ, ◌+◌, Bool, true, false, ◌&&◌, ◌||◌, not, List, [], ◌∷◌, ◌++◌, Option, none, some, ◌==◌, leb,
  if◌then◌else◌, length,
}
use global_cache_adaptor.Common.Bytes.{Bytes, bytes, same, tokens}
use global_cache_adaptor.Common.OrdMap.{OrdMap, insert}
use global_cache_adaptor.Common.Int.{ℤ, pos, neg, pos_part}
use global_cache_adaptor.Common.Number.{strtol, is_space, to_u32, skip_space}
use global_cache_adaptor.Server.OpRequest.{c_str}
use global_cache_adaptor.Proxy.RbdWrapper.{Call, Cluster, World, check, perform, is_code, empty}

-- SigPoolInfo, with the 32 bits of `k` and `m`. Its identifier is never negative. The fields that the
-- source leaves unset are 0 here; CalPoolProperty writes `isEC`, `k` and `m` before they are read.
pub record SigPoolInfo : Type 0 where
  pub pool_id : ℕ
  pub pool_name : Bytes
  pub is_ec : Bool
  pub k : ℕ
  pub m : ℕ
  pub usage : ℕ
  pub ec_profile_name : Bytes

-- The classes \d and \w of a regular expression.
abbrev pub is_decimal : ℕ → Bool
is_decimal c = leb b'0' c && leb c b'9'

abbrev pub is_word : ℕ → Bool
is_word c =
    is_decimal c || ((leb b'a' c && leb c b'z') || ((leb b'A' c && leb c b'Z') || c == b'_'))

abbrev pub not_space : ℕ → Bool
not_space c = not (is_space c)

-- The longest part in front whose bytes are in a class, and what is behind it.
abbrev pub span : (ℕ → Bool) → Bytes → Bytes × Bytes
span p [] = ([], [])
span p (c ∷ s) = let (word, rest) = span p s in if p c then (c ∷ word, rest) else ([], c ∷ s)

-- A word that takes the whole text.
abbrev pub only : (ℕ → Bool) → Bytes → Option Bytes
only p s = if not (empty s) && empty (span p s).1 then some s else none

-- `\s*(\d+)\s+(\S+)`: the two groups of a match.
unfoldable pub match_pool : Bytes → Option (Bytes × Bytes)
match_pool s =
    let (digits, rest) = span is_decimal (skip_space s) in
    if empty digits || empty (span is_space rest).0
    then none
    else elim (only not_space (skip_space rest)) [ none ↦ none | some name ↦ some (digits, name) ]

-- `(\w+)=(\w+)`.
unfoldable pub match_setting : Bytes → Option (Bytes × Bytes)
match_setting s =
    let (key, rest) = span is_word s in
    if empty key then none else elim rest [
      | [] ↦ none
      | c ∷ value ↦
          if c == b'='
          then elim (only is_word value) [ none ↦ none | some v ↦ some (key, v) ]
          else none
    ]

-- A text behind a prefix.
abbrev pub behind : Bytes → Bytes → Option Bytes
behind [] s = some s
behind (c ∷ p) [] = none
behind (c ∷ p) (d ∷ s) = if c == d then behind p s else none

-- `(\S+)\n?`.
abbrev pub name_and_line : Bytes → Option Bytes
name_and_line s =
    let (name, rest) = span not_space s in
    if empty name then none else if empty rest || same rest (10 ∷ []) then some name else none

-- `erasure_code_profile:\s(\S+)\n?`.
unfoldable pub match_profile : Bytes → Option Bytes
match_profile s = elim (behind (bytes "erasure_code_profile:") s) [
  | none ↦ none
  | some t ↦ elim t [ [] ↦ none | c ∷ rest ↦ if is_space c then name_and_line rest else none ]
]

-- One line of `ceph osd lspools`; `none` is the `break`.
abbrev pub parse_pool : Bytes → OrdMap SigPoolInfo → Option (OrdMap SigPoolInfo)
parse_pool line pool_map = elim (match_pool line) [
  | none ↦ some pool_map
  | some (digits, name) ↦
      let n = strtol digits in
      if n.failed
      then none
      else some (
          insert (pos_part n.value)
            (record {
              pool_id = pos_part n.value;
              pool_name = name;
              is_ec = false;
              k = 0;
              m = 0;
              usage = 0;
              ec_profile_name = [];
            })
            pool_map)
]

-- The loop of ParsePoolMap.
unfoldable pub parse_pools : List Bytes → OrdMap SigPoolInfo → OrdMap SigPoolInfo
parse_pools [] pool_map = pool_map
parse_pools (line ∷ lines) pool_map = elim (parse_pool line pool_map) [
  | none ↦ pool_map
  | some more ↦ parse_pools lines more
]

-- The loop of GetECPoolScale.
unfoldable pub read_scale : List Bytes → SigPoolInfo → SigPoolInfo
read_scale [] info = info
read_scale (line ∷ lines) info = elim (match_setting line) [
  | none ↦ read_scale lines info
  | some (key, value) ↦
      let n = strtol value in
      let with_k = record info { k = to_u32 n.value } in
      let with_m = record info { m = to_u32 n.value } in
      if same key (bytes "k")
      then (if n.failed then with_k else read_scale lines with_k)
      else if same key (bytes "m")
      then (if n.failed then with_m else read_scale lines with_m)
      else read_scale lines info
]

-- The `if` of CalPoolProperty: a pool without a profile (-EACCES) keeps three copies.
abbrev pub replica_property : ℤ → SigPoolInfo → World → ℤ × (SigPoolInfo × World)
replica_property r info w = (
  if is_code 13 r then pos 0 else r,
  (if is_code 13 r then record info { is_ec = false; k = 1; m = 2 } else info, w),
)

module _ (c : Cluster) where
  -- MonCommand: the code, and `_outs`.
  unfoldable pub mon_command : Bytes → World → ℤ × (Bytes × World)
  mon_command cmd w =
      if not w.ctx.init_flag
      then (neg 1, ([], w))
      else check (perform c (Call.mon_command cmd) w) (λ r w1. (r, ([], w1)))
          λ r w1. (pos 0, (c_str (c.text w1.calls), w1))

  -- ParsePoolMap.
  unfoldable pub parse_pool_map : Bytes → World → ℤ × (OrdMap SigPoolInfo × World)
  parse_pool_map outs w =
      check (perform c (Call.allocate (length outs + 1)) w) (λ r w1. (neg 1, ([], w1)))
        λ r w1. (pos 0, (parse_pools (tokens 10 outs) [], w1))

  -- GetECPoolScale.
  unfoldable pub get_ec_pool_scale : SigPoolInfo → World → ℤ × (SigPoolInfo × World)
  get_ec_pool_scale info w =
      check
        (mon_command
          (bytes "{\"prefix\": \"osd erasure-code-profile get\", \"name\": \""
            ++ (info.ec_profile_name ++ bytes "\"}"))
          w)
        (λ r rest. (r, (info, rest.1)))
        λ r rest.
          check (perform c (Call.allocate (length rest.0 + 1)) rest.1)
            (λ r2 w2. (neg 1, (info, w2)))
            (λ r2 w2. (pos 0, (read_scale (tokens 10 rest.0) info, w2)))

  -- The `else` of CalPoolProperty: a pool with erasure coding, whose profile the text names.
  unfoldable pub ec_property : Bytes → SigPoolInfo → World → ℤ × (SigPoolInfo × World)
  ec_property outs info w =
      let fresh = record info { is_ec = true; k = 0; m = 0 } in
      elim (match_profile outs) [
        | none ↦ (neg 1, (fresh, w))
        | some profile ↦
            check (get_ec_pool_scale (record fresh { ec_profile_name = profile }) w)
              (λ r rest. (r, rest))
              λ r rest. (if rest.0.k == 0 || rest.0.m == 0 then neg 1 else pos 0, rest)
      ]

  -- The body of the loop of CalPoolProperty.
  unfoldable pub pool_property : SigPoolInfo → World → ℤ × (SigPoolInfo × World)
  pool_property info w =
      check
        (mon_command
          (bytes "{\"var\": \"erasure_code_profile\", \"prefix\": \"osd pool get\", \"pool\": \""
            ++ (info.pool_name ++ bytes "\"}"))
          w)
        (λ r rest. replica_property r info rest.1) (λ r rest. ec_property rest.0 info rest.1)

  -- CalPoolProperty: the code, and the pools.
  unfoldable pub cal_pool_property : OrdMap SigPoolInfo → World → ℤ × (OrdMap SigPoolInfo × World)
  cal_pool_property [] w = (pos 0, ([], w))
  cal_pool_property ((id, info) ∷ pools) w =
      check (pool_property info w) (λ r rest. (r, ((id, rest.0) ∷ pools, rest.1)))
        λ r rest.
          let others = cal_pool_property pools rest.1 in
          (others.0, ((id, rest.0) ∷ others.1.0, others.1.1))
