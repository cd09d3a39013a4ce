-- ===== src/Proxy/RbdWrapper/Scale.antt =====
-- src/ceph_proxy/RbdWrapper.cc: the division at the end of CephLibrbdDiskUsage.
use global_cache_adaptor.Common.{
  ℕ, ◌≤◌, ◌==◌, ◌||◌, ◌≡◌, inl, inr, arith, true, false, [], ◌∷◌, if◌then◌else◌, Bool-cases,
  Option-cases,
}
use global_cache_adaptor.Common.Bytes.{Bytes}
use global_cache_adaptor.Common.OrdMap.{OrdMap}
use global_cache_adaptor.Common.Int.{ℤ, pos, neg, is_neg}
use global_cache_adaptor.Proxy.RbdWrapper.{Cluster, World, is_code}
use global_cache_adaptor.Proxy.RbdWrapper.Steps.{check_lem}
use global_cache_adaptor.Proxy.RbdWrapper.PoolMap.{
  SigPoolInfo, replica_property, ec_property, pool_property, cal_pool_property, match_profile,
}
use global_cache_adaptor.Proxy.RbdWrapper.DiskUsage.{extend, cal_pool_usage, survey}

-- A pool writes blocks of data and of parity.
abbrev pub HasScale : SigPoolInfo → Type 0
HasScale info = (1 ≤ extend info.k) × (1 ≤ info.m)

abbrev pub HaveScale : OrdMap SigPoolInfo → Type 0
HaveScale [] = Unit
HaveScale ((id, info) ∷ pools) = HasScale info × HaveScale pools

abbrev PoolScaled : ℤ × (SigPoolInfo × World) → Type 0
PoolScaled x = is_neg x.0 ≡ false → HasScale x.1.0

abbrev PoolsScaled : ℤ × (OrdMap SigPoolInfo × World) → Type 0
PoolsScaled x = is_neg x.0 ≡ false → HaveScale x.1.0

replica_property-PoolScaled :
    (r : ℤ) (info : SigPoolInfo) (w : World)
    → is_neg r ≡ true
    → PoolScaled (replica_property r info w)
replica_property-PoolScaled r info w h = elim (Bool-cases (is_code 13 r)) [
  | inl y ↦ rw y λ _. omega arith
  | inr y ↦ rw y λ q. cc
]

-- The test behind GetECPoolScale.
scale_tested :
    (k m : ℕ)
    → is_neg (if k == 0 || m == 0 then neg 1 else pos 0) ≡ false
    → (1 ≤ extend k) × (1 ≤ m)
scale_tested k m h = ground arith

module _ (c : Cluster) where
  ec_property-PoolScaled :
      (outs : Bytes) (info : SigPoolInfo) (w : World) → PoolScaled (ec_property c outs info w)
  unfolding ec_property
  ec_property-PoolScaled outs info w = elim (Option-cases (match_profile outs)) [
    | inl e ↦ rw (ec_property, e) λ q. cc
    | inr (name, e) ↦
        rw (ec_property, e) (check_lem PoolScaled _ _ _ (λ h q. cc) λ h q. scale_tested _ _ q)
  ]

  pool_property-PoolScaled : (info : SigPoolInfo) (w : World) → PoolScaled (pool_property c info w)
  unfolding pool_property
  pool_property-PoolScaled info w =
      check_lem PoolScaled _ _ _ (λ h. replica_property-PoolScaled _ info w h)
        (λ _. ec_property-PoolScaled _ info _)

  cal_pool_property-PoolsScaled :
      (pools : OrdMap SigPoolInfo) (w : World) → PoolsScaled (cal_pool_property c pools w)
  unfolding cal_pool_property
  cal_pool_property-PoolsScaled [] w = λ _. tt
  cal_pool_property-PoolsScaled ((id, info) ∷ pools) w =
      check_lem PoolsScaled _ _ _ (λ h q. cc)
        λ h q. (pool_property-PoolScaled info w h, cal_pool_property-PoolsScaled pools _ q)

  cal_pool_usage-HaveScale :
      (pools : OrdMap SigPoolInfo) (r : ℤ) (w : World)
      → HaveScale pools
      → PoolsScaled (cal_pool_usage c pools r w)
  unfolding cal_pool_usage
  cal_pool_usage-HaveScale [] r w h = λ _. tt
  cal_pool_usage-HaveScale ((id, info) ∷ pools) r w h =
      check_lem PoolsScaled _ _ _ (λ f q. cc) λ f q. (h.0, cal_pool_usage-HaveScale pools _ _ h.1 q)

  -- If the survey that CephLibrbdDiskUsage makes of the pools gives no negative code, then every pool it
  -- gives has a number of data blocks other than 0, as the operand of the division that it becomes, and
  -- a number of parity blocks other than 0.
  pub survey-HaveScale : (w : World) → is_neg (survey c w).0 ≡ false → HaveScale (survey c w).1.0
  unfolding survey
  survey-HaveScale w =
      check_lem PoolsScaled _ _ _ (λ h q. cc)
        λ h1.
          check_lem PoolsScaled _ _ _ (λ h q. cc)
            λ h2.
              check_lem PoolsScaled _ _ _ (λ h q. cc)
                λ h3. cal_pool_usage-HaveScale _ _ _ (cal_pool_property-PoolsScaled _ _ h3)
