-- ===== src/Proxy/RbdWrapper/Survey.antt =====
-- src/ceph_proxy/RbdWrapper.cc: the survey of the images closes what it opens.
use global_cache_adaptor.Common.{
  ℕ, ◌≡◌, refl, ap, ◌∙◌, true, false, List, [], ◌∷◌, Option, none, some,
}
use global_cache_adaptor.Common.Bytes.{Bytes}
use global_cache_adaptor.Common.OrdMap.{OrdMap}
use global_cache_adaptor.Common.Int.{ℤ, pos, is_neg}
use global_cache_adaptor.Proxy.RbdWrapper.{Cluster, ProxyCtx, World, close_context, drop_image}
use global_cache_adaptor.Proxy.RbdWrapper.Steps.{check_lem, Ends}
use global_cache_adaptor.Proxy.RbdWrapper.Image.{ioctx_init}
use global_cache_adaptor.Proxy.RbdWrapper.PoolMap.{SigPoolInfo}
use global_cache_adaptor.Proxy.RbdWrapper.DiskUsage.{
  open_read_only, diff_snaps, sum_image, cal_image_usage, cal_images, pool_usage, cal_pool_usage,
  survey,
}
use global_cache_adaptor.Proxy.RbdWrapper.Open.{
  Keeps, closed_context, closed_image, ioctx_init-Ends, mon_command-Keeps, parse_pool_map-Keeps,
  cal_pool_property-Keeps, open_read_only-Ends,
}

pub on_failure : (d e : ProxyCtx) (x : ℤ × World) → Ends d e x → is_neg x.0 ≡ true → x.1.ctx ≡ d
on_failure d e x q h = rw h at q

pub on_success : (d e : ProxyCtx) (x : ℤ × World) → Ends d e x → is_neg x.0 ≡ false → x.1.ctx ≡ e
on_success d e x q h = rw h at q

module _ (k : Cluster) where
  open_read_only-failed :
      (name : Bytes) (snap : Option Bytes) (w : World)
      → is_neg (open_read_only k name snap w).0 ≡ true
      → (open_read_only k name snap w).1.ctx ≡ w.ctx
  open_read_only-failed name snap w =
      on_failure _ _ (open_read_only k name snap w) (open_read_only-Ends k name snap w)

  open_read_only-closed :
      (name : Bytes) (snap : Option Bytes) (w : World)
      → is_neg (open_read_only k name snap w).0 ≡ false
      → drop_image (open_read_only k name snap w).1.ctx ≡ w.ctx
  open_read_only-closed name snap w h =
      ap drop_image
        (on_success _ _ (open_read_only k name snap w) (open_read_only-Ends k name snap w) h)
      ∙ closed_image w.ctx

  diff_snaps-Keeps :
      (name : Bytes) (snaps : List (Bytes × ℕ)) (r : ℤ) (from : Option Bytes) (last : Bytes)
      (usage : ℕ) (w : World)
      → Keeps w.ctx (diff_snaps k name snaps r from last usage w)
  unfolding diff_snaps
  diff_snaps-Keeps name [] r from last usage w = refl
  diff_snaps-Keeps name ((snap, size) ∷ snaps) r from last usage w =
      check_lem (Keeps w.ctx) _ _ _ (open_read_only-failed name (some snap) w) λ h.
        check_lem (Keeps w.ctx) _ _ _ (λ _. open_read_only-closed name (some snap) w h)
          λ _. diff_snaps-Keeps name snaps _ _ snap _ _ ∙ open_read_only-closed name (some snap) w h

  abbrev Drops {ℓ} : {A : Type ℓ} → ProxyCtx → ℤ × (A × World) → Type 0
  Drops c x = x.1.1.ctx ≡ drop_image c

  sum_image-Drops : (name : Bytes) (usage : ℕ) (w : World) → Drops w.ctx (sum_image k name usage w)
  unfolding sum_image
  sum_image-Drops name usage w =
      check_lem (Drops w.ctx) _ _ _ (λ _. refl)
        λ _.
          check_lem (Drops w.ctx) _ _ _ (λ _. refl)
            λ _.
              check_lem (Drops w.ctx) _ _ _ (λ _. ap drop_image (diff_snaps-Keeps name _ _ _ _ _ _))
                λ _.
                  check_lem (Drops w.ctx) _ _ _
                    (λ _. ap drop_image (diff_snaps-Keeps name _ _ _ _ _ _))
                    (λ _. ap drop_image (diff_snaps-Keeps name _ _ _ _ _ _))

  cal_image_usage-Keeps :
      (name : Bytes) (usage : ℕ) (w : World) → Keeps w.ctx (cal_image_usage k name usage w)
  unfolding cal_image_usage
  cal_image_usage-Keeps name usage w =
      check_lem (Keeps w.ctx) _ _ _ (open_read_only-failed name none w)
        λ h. sum_image-Drops name usage _ ∙ open_read_only-closed name none w h

  cal_images-Keeps :
      (names : List Bytes) (r : ℤ) (usage : ℕ) (w : World)
      → Keeps w.ctx (cal_images k names r usage w)
  unfolding cal_images
  cal_images-Keeps [] r usage w = refl
  cal_images-Keeps (name ∷ names) r usage w =
      check_lem (Keeps w.ctx) _ _ _ (λ _. cal_image_usage-Keeps name usage w)
        λ _. cal_images-Keeps names _ _ _ ∙ cal_image_usage-Keeps name usage w

  pool_usage-Keeps : (info : SigPoolInfo) (w : World) → Keeps w.ctx (pool_usage k info w)
  unfolding pool_usage
  pool_usage-Keeps info w =
      let made = ioctx_init-Ends k info.pool_name (pos 0) [] w in
      check_lem (Keeps w.ctx) _ _ _ (on_failure _ _ (ioctx_init k info.pool_name (pos 0) [] w) made)
        λ h.
          let closed =
            ap close_context (on_success _ _ (ioctx_init k info.pool_name (pos 0) [] w) made h)
            ∙ closed_context w.ctx in
          check_lem (Keeps w.ctx) _ _ _ (λ _. closed)
            λ _.
              check_lem (Keeps w.ctx) _ _ _
                (λ _. ap close_context (cal_images-Keeps _ _ _ _) ∙ closed)
                (λ _. ap close_context (cal_images-Keeps _ _ _ _) ∙ closed)

  cal_pool_usage-Keeps :
      (pools : OrdMap SigPoolInfo) (r : ℤ) (w : World) → Keeps w.ctx (cal_pool_usage k pools r w)
  unfolding cal_pool_usage
  cal_pool_usage-Keeps [] r w = refl
  cal_pool_usage-Keeps ((id, info) ∷ pools) r w =
      check_lem (Keeps w.ctx) _ _ _ (λ _. pool_usage-Keeps info w)
        λ _. cal_pool_usage-Keeps pools _ _ ∙ pool_usage-Keeps info w

  pub survey-Keeps : (w : World) → Keeps w.ctx (survey k w)
  unfolding survey
  survey-Keeps w =
      check_lem (Keeps w.ctx) _ _ _ (λ _. mon_command-Keeps k _ w)
        λ _.
          let a = parse_pool_map-Keeps k _ _ ∙ mon_command-Keeps k _ w in
          check_lem (Keeps w.ctx) _ _ _ (λ _. a)
            λ _.
              let b = cal_pool_property-Keeps k _ _ ∙ a in
              check_lem (Keeps w.ctx) _ _ _ (λ _. b) λ _. cal_pool_usage-Keeps _ _ _ ∙ b
