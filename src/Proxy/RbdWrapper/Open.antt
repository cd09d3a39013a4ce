-- ===== src/Proxy/RbdWrapper/Open.antt =====
-- src/ceph_proxy/RbdWrapper.cc: the functions below those of the interface close the contexts and images
-- that they open.
use global_cache_adaptor.Common.{
  ◌+◌, ◌-◌, ◌≡◌, refl, ap, ◌∙◌, arith, not, [], ◌∷◌, Option, Option-cases, inl, inr,
}
use global_cache_adaptor.Common.Bytes.{Bytes}
use global_cache_adaptor.Common.OrdMap.{OrdMap}
use global_cache_adaptor.Common.Int.{ℤ}
use global_cache_adaptor.Proxy.RbdWrapper.{
  Cluster, ProxyCtx, World, open_context, close_context, add_image, drop_image,
}
use global_cache_adaptor.Proxy.RbdWrapper.Steps.{check_lem, flag_lem, IsCtx, Ends}
use global_cache_adaptor.Proxy.RbdWrapper.Image.{ioctx_set_namespace, ioctx_init, ioctx_open_image}
use global_cache_adaptor.Proxy.RbdWrapper.PoolMap.{
  SigPoolInfo, mon_command, parse_pool_map, get_ec_pool_scale, ec_property, pool_property,
  cal_pool_property, match_profile,
}
use global_cache_adaptor.Proxy.RbdWrapper.DiskUsage.{open_read_only}

-- The same for results with a value.
abbrev pub Keeps {ℓ} : {A : Type ℓ} → ProxyCtx → ℤ × (A × World) → Type 0
Keeps c x = x.1.1.ctx ≡ c

pub closed_context : (c : ProxyCtx) → close_context (open_context c) ≡ c
closed_context c =
    let q : c.contexts + 1 - 1 ≡ c.contexts = omega arith in ap (λ n. record c { contexts = n }) q

pub closed_image : (c : ProxyCtx) → drop_image (add_image c) ≡ c
closed_image c =
    let q : c.images + 1 - 1 ≡ c.images = omega arith in ap (λ n. record c { images = n }) q

module _ (k : Cluster) where
  set_namespace-ctx : (name : Bytes) (w : World) → IsCtx w.ctx (ioctx_set_namespace k name w)
  unfolding ioctx_set_namespace
  set_namespace-ctx [] w = refl
  set_namespace-ctx (c ∷ s) w =
      check_lem (IsCtx w.ctx) _ _ _ (λ _. refl)
        λ _.
          flag_lem {0, 0, 0} (λ (_ : Unit) x. IsCtx w.ctx x) (k.exists _) tt tt _ _ (λ _. refl)
            (λ _. refl)

  pub ioctx_init-Ends :
      (name : Bytes) (id : ℤ) (space : Bytes) (w : World)
      → Ends w.ctx (open_context w.ctx) (ioctx_init k name id space w)
  unfolding ioctx_init
  ioctx_init-Ends name id space w =
      let P = Ends w.ctx (open_context w.ctx) in
      flag_lem {0, 0, 0} (λ (_ : Unit) x. P x) (not w.ctx.init_flag) tt tt _ _ (λ _. refl)
        λ _.
          check_lem P _ _ _ (λ h. rw h refl)
            λ _.
              check_lem P _ _ _
                (λ h. rw h (ap close_context (set_namespace-ctx space _) ∙ closed_context w.ctx))
                (λ h. rw h (set_namespace-ctx space _))

  pub ioctx_open_image-Ends :
      (name id : Bytes) (w : World) → Ends w.ctx (add_image w.ctx) (ioctx_open_image k name id w)
  unfolding ioctx_open_image
  ioctx_open_image-Ends name id w =
      check_lem (Ends w.ctx (add_image w.ctx)) _ _ _ (λ h. rw h refl) (λ h. rw h refl)

  pub mon_command-Keeps : (cmd : Bytes) (w : World) → Keeps w.ctx (mon_command k cmd w)
  unfolding mon_command
  mon_command-Keeps cmd w =
      let P : ℤ × (Bytes × World) → Type 0 = Keeps w.ctx in
      flag_lem {0, 0, 0} (λ (_ : Unit) x. P x) (not w.ctx.init_flag) tt tt _ _ (λ _. refl)
        λ _. check_lem P _ _ _ (λ _. refl) (λ _. refl)

  pub parse_pool_map-Keeps : (outs : Bytes) (w : World) → Keeps w.ctx (parse_pool_map k outs w)
  unfolding parse_pool_map
  parse_pool_map-Keeps outs w = check_lem (Keeps w.ctx) _ _ _ (λ _. refl) (λ _. refl)

  get_ec_pool_scale-Keeps :
      (info : SigPoolInfo) (w : World) → Keeps w.ctx (get_ec_pool_scale k info w)
  unfolding get_ec_pool_scale
  get_ec_pool_scale-Keeps info w =
      check_lem (Keeps w.ctx) _ _ _ (λ _. mon_command-Keeps _ w)
        λ _. check_lem (Keeps w.ctx) _ _ _ (λ _. mon_command-Keeps _ w) (λ _. mon_command-Keeps _ w)

  ec_property-Keeps :
      (outs : Bytes) (info : SigPoolInfo) (w : World) → Keeps w.ctx (ec_property k outs info w)
  unfolding ec_property
  ec_property-Keeps outs info w = elim (Option-cases (match_profile outs)) [
    | inl e ↦ rw (ec_property, e) refl
    | inr (name, e) ↦
        rw (ec_property, e)
          (check_lem (Keeps w.ctx) _ _ _ (λ _. get_ec_pool_scale-Keeps _ w)
            λ _. get_ec_pool_scale-Keeps _ w)
  ]

  pool_property-Keeps : (info : SigPoolInfo) (w : World) → Keeps w.ctx (pool_property k info w)
  unfolding pool_property
  pool_property-Keeps info w =
      check_lem (Keeps w.ctx) _ _ _ (λ _. mon_command-Keeps _ w)
        (λ _. ec_property-Keeps _ info _ ∙ mon_command-Keeps _ w)

  pub cal_pool_property-Keeps :
      (pools : OrdMap SigPoolInfo) (w : World) → Keeps w.ctx (cal_pool_property k pools w)
  unfolding cal_pool_property
  cal_pool_property-Keeps [] w = refl
  cal_pool_property-Keeps ((id, info) ∷ pools) w =
      check_lem (Keeps w.ctx) _ _ _ (λ _. pool_property-Keeps info w)
        λ _. cal_pool_property-Keeps pools _ ∙ pool_property-Keeps info w

  pub open_read_only-Ends :
      (name : Bytes) (snap : Option Bytes) (w : World)
      → Ends w.ctx (add_image w.ctx) (open_read_only k name snap w)
  unfolding open_read_only
  open_read_only-Ends name snap w =
      check_lem (Ends w.ctx (add_image w.ctx)) _ _ _ (λ h. rw h refl) (λ h. rw h refl)
