-- ===== src/Proxy/RbdWrapper/Requests.antt =====
-- src/ceph_proxy/RbdWrapper.cc: what the functions of the interface leave of the shared client.
use global_cache_adaptor.Common.{
  ℕ, ◌==◌, ◌||◌, ◌≡◌, refl, ap, ◌∙◌, Bool, true, false, List, [], Option, none, some,
}
use global_cache_adaptor.Common.Bytes.{Bytes}
use global_cache_adaptor.Common.Int.{ℤ, is_neg, is_zero}
use global_cache_adaptor.Proxy.RbdWrapper.{Cluster, World, empty, close_context, drop_image}
use global_cache_adaptor.Proxy.RbdWrapper.Client.{rados_init}
use global_cache_adaptor.Proxy.RbdWrapper.Balance.{IsSound, rados_init-Ends, rados_shutdown-entered}
use global_cache_adaptor.Proxy.RbdWrapper.Steps.{check_lem, flag_lem, NoPositive, IsCtx, entered}
use global_cache_adaptor.Proxy.RbdWrapper.Image.{
  ioctx_init, ioctx_open_image, write_through, remove_snap, ceph_librbd_snap_remove, image_info,
  ceph_librbd_get_image_info,
}
use global_cache_adaptor.Proxy.RbdWrapper.DiskUsage.{ceph_librbd_disk_usage}
use global_cache_adaptor.Proxy.RbdWrapper.Open.{
  Keeps, closed_context, closed_image, ioctx_init-Ends, ioctx_open_image-Ends,
}
use global_cache_adaptor.Proxy.RbdWrapper.Survey.{on_failure, on_success, survey-Keeps}

-- A call of CephLibrbdSnapRemove, CephLibrbdGetImageInfo or CephLibrbdDiskUsage.
pub data Request : Type 0 where
  snap_remove : ℤ → Option Bytes → Option Bytes → ℕ → Bool → Request
  get_image_info : ℤ → Option Bytes → Bool → Request
  disk_usage : Bool → Request

abbrev pub after : Cluster → Request → World → World
after k (Request.snap_remove pool space image snap force) w =
    (ceph_librbd_snap_remove k pool space image snap force w).1
after k (Request.get_image_info pool image num_objs) w =
    (ceph_librbd_get_image_info k pool image num_objs w).1.1
after k (Request.disk_usage usage) w = (ceph_librbd_disk_usage k usage w).1.1

module _ (k : Cluster) where
  -- What a function finds behind a successful IoctxInit and IoctxOpenImage, and closes again.
  context_closed :
      (name : Bytes) (id : ℤ) (space : Bytes) (w : World)
      → is_neg (ioctx_init k name id space w).0 ≡ false
      → close_context (ioctx_init k name id space w).1.ctx ≡ w.ctx
  context_closed name id space w h =
      ap close_context
        (on_success _ _ (ioctx_init k name id space w) (ioctx_init-Ends k name id space w) h)
      ∙ closed_context w.ctx

  context_failed :
      (name : Bytes) (id : ℤ) (space : Bytes) (w : World)
      → is_neg (ioctx_init k name id space w).0 ≡ true
      → (ioctx_init k name id space w).1.ctx ≡ w.ctx
  context_failed name id space w =
      on_failure _ _ (ioctx_init k name id space w) (ioctx_init-Ends k name id space w)

  image_closed :
      (name id : Bytes) (w : World)
      → is_neg (ioctx_open_image k name id w).0 ≡ false
      → drop_image (ioctx_open_image k name id w).1.ctx ≡ w.ctx
  image_closed name id w h =
      ap drop_image
        (on_success _ _ (ioctx_open_image k name id w) (ioctx_open_image-Ends k name id w) h)
      ∙ closed_image w.ctx

  image_failed :
      (name id : Bytes) (w : World)
      → is_neg (ioctx_open_image k name id w).0 ≡ true
      → (ioctx_open_image k name id w).1.ctx ≡ w.ctx
  image_failed name id w =
      on_failure _ _ (ioctx_open_image k name id w) (ioctx_open_image-Ends k name id w)

  user_entered :
      NoPositive k
      → (m : List (Bytes × Bytes)) (w : World) → is_neg (rados_init k m w).0 ≡ false
      → (rados_init k m w).1.ctx ≡ entered w.ctx
  user_entered n m w = on_success _ _ (rados_init k m w) (rados_init-Ends k n m w)

  user_failed :
      NoPositive k
      → (m : List (Bytes × Bytes)) (w : World) → is_neg (rados_init k m w).0 ≡ true
      → (rados_init k m w).1.ctx ≡ w.ctx
  user_failed n m w = on_failure _ _ (rados_init k m w) (rados_init-Ends k n m w)

  remove_snap-IsCtx :
      NoPositive k
      → (id : ℤ) (space image : Bytes) (snap : ℕ) (force : Bool) (w : World) → IsSound w.ctx
      → IsCtx w.ctx (remove_snap k id space image snap force w)
  unfolding remove_snap
  remove_snap-IsCtx n id space image snap force w sound =
      let P = IsCtx w.ctx in
      let leave = rados_shutdown-entered k w.ctx sound in
      check_lem P _ _ _ (user_failed n write_through w) λ h1.
        let e1 = user_entered n write_through w h1 in
        check_lem P _ _ _ (λ h. leave _ (context_failed [] id space _ h ∙ e1))
          λ h2.
            let e2 = context_closed [] id space _ h2 ∙ e1 in
            check_lem P _ _ _ (λ h. leave _ (ap close_context (image_failed [] image _ h) ∙ e2))
              (λ h. leave _ (ap close_context (image_closed [] image _ h) ∙ e2))

  image_info-Keeps :
      NoPositive k
      → (id : ℤ) (image : Bytes) (w : World) → IsSound w.ctx
      → Keeps w.ctx (image_info k id image w)
  unfolding image_info
  image_info-Keeps n id image w sound =
      let P : ℤ × (Option ℤ × World) → Type 0 = Keeps w.ctx in
      let leave = rados_shutdown-entered k w.ctx sound in
      check_lem P _ _ _ (user_failed n [] w) λ h1.
        let e1 = user_entered n [] w h1 in
        check_lem P _ _ _ (λ h. leave _ (context_failed [] id [] _ h ∙ e1))
          λ h2.
            let e2 = context_closed [] id [] _ h2 ∙ e1 in
            check_lem P _ _ _ (λ h. leave _ (ap close_context (image_failed [] image _ h) ∙ e2))
              λ h3.
                let e3 = ap close_context (image_closed [] image _ h3) ∙ e2 in
                check_lem P _ _ _ (λ _. leave _ e3) (λ _. leave _ e3)

  disk_usage-Keeps :
      NoPositive k → (w : World) → IsSound w.ctx → Keeps w.ctx (ceph_librbd_disk_usage k true w)
  unfolding ceph_librbd_disk_usage
  disk_usage-Keeps n w sound =
      let P : ℤ × (Option ℕ × World) → Type 0 = Keeps w.ctx in
      let leave = rados_shutdown-entered k w.ctx sound in
      check_lem P _ _ _ (user_failed n write_through w) λ h1.
        let e1 = survey-Keeps k _ ∙ user_entered n write_through w h1 in
        check_lem P _ _ _ (λ _. leave _ e1) (λ _. leave _ e1)

  -- If no call of librados or of the configuration library gives a positive code where 0 is success, and
  -- the counter of the shared client is at least 1 and below 2^31 - 1 while the client is there and 0
  -- otherwise, then CephLibrbdSnapRemove, CephLibrbdGetImageInfo and CephLibrbdDiskUsage leave the
  -- counter, the flag, and the numbers of open clients, contexts and images as they found them, on every
  -- path.
  pub request-IsCtx :
      NoPositive k → (r : Request) (w : World) → IsSound w.ctx → (after k r w).ctx ≡ w.ctx
  unfolding ceph_librbd_snap_remove ceph_librbd_get_image_info ceph_librbd_disk_usage
  request-IsCtx n (Request.snap_remove pool none image snap force) w h = refl
  request-IsCtx n (Request.snap_remove pool (some space) none snap force) w h = refl
  request-IsCtx n (Request.snap_remove pool (some space) (some image) snap force) w h =
      flag_lem {0, 0, 0} (λ (_ : Unit) x. IsCtx w.ctx x)
        (is_zero pool || (empty image || snap == 0)) tt tt _ _ (λ _. refl)
        (λ _. remove_snap-IsCtx n pool space image snap force w h)
  request-IsCtx n (Request.get_image_info pool none num_objs) w h = refl
  request-IsCtx n (Request.get_image_info pool (some image) false) w h = refl
  request-IsCtx n (Request.get_image_info pool (some image) true) w h =
      image_info-Keeps n pool image w h
  request-IsCtx n (Request.disk_usage false) w h = refl
  request-IsCtx n (Request.disk_usage true) w h = disk_usage-Keeps n w h
