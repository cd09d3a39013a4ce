-- ===== src/Proxy/RbdWrapper/Image.antt =====
-- src/ceph_proxy/RbdWrapper.cc: contexts and images, and the functions that remove a snapshot and count
-- the objects of an image.
use global_cache_adaptor.Common.{
  ℕ, Bool, ◌||◌, not, List, [], ◌∷◌, Option, none, some, ◌==◌, if◌then◌else◌,
}
use global_cache_adaptor.Common.Bytes.{Bytes, bytes}
use global_cache_adaptor.Common.Int.{ℤ, pos, neg, is_zero}
use global_cache_adaptor.Common.Number.{to_int}
use global_cache_adaptor.Proxy.RbdWrapper.{
  Call, Cluster, World, check, perform, run, change, is_code, empty, open_context, close_context,
  add_image, drop_image,
}
use global_cache_adaptor.Proxy.RbdWrapper.Client.{rados_init, rados_shutdown}

-- EINVAL, ENOENT and RBD_SNAP_REMOVE_FORCE.
abbrev pub e_inval : ℤ
e_inval = neg 22

abbrev pub e_noent : ℕ
e_noent = 2

abbrev rbd_snap_remove_force : ℕ
rbd_snap_remove_force = 2

-- `confMap` with its one entry.
abbrev pub write_through : List (Bytes × Bytes)
write_through = (bytes "rbd_cache_writethrough_until_flush", bytes "false") ∷ []

-- What the source does with a code before its `goto`: a missing object is no error.
abbrev pub forgive : ℤ → ℤ
forgive r = if is_code e_noent r then pos 0 else r

module _ (k : Cluster) where
  -- IoCtxDestroy.
  abbrev pub ioctx_destroy : World → World
  ioctx_destroy w = change close_context (run k Call.ioctx_close w)

  -- IoctxSetNamespace.
  unfoldable pub ioctx_set_namespace : Bytes → World → ℤ × World
  ioctx_set_namespace name w =
      if empty name
      then (pos 0, run k (Call.set_namespace name) w)
      else check (perform k (Call.namespace_exists name) w) (λ r w1. (r, w1))
          λ r w1.
            if k.exists w1.calls
            then (pos 0, run k (Call.set_namespace name) w1)
            else (neg e_noent, w1)

  -- IoctxInit.
  unfoldable pub ioctx_init : Bytes → ℤ → Bytes → World → ℤ × World
  ioctx_init pool_name pool_id namespace_name w =
      let create =
        if empty pool_name then Call.ioctx_create2 pool_id else Call.ioctx_create pool_name in
      if not w.ctx.init_flag
      then (neg 1, w)
      else check (perform k create w) (λ r w1. (r, w1))
          λ r w1.
            check (ioctx_set_namespace namespace_name (change open_context w1))
              (λ r2 w2. (r2, ioctx_destroy w2)) (λ r2 w2. (r2, w2))

  -- IoctxCloseImage.
  abbrev pub ioctx_close_image : World → World
  ioctx_close_image w = change drop_image (run k Call.image_close w)

  -- IoctxOpenImage.
  unfoldable pub ioctx_open_image : Bytes → Bytes → World → ℤ × World
  ioctx_open_image image_name image_id w =
      check
        (perform k
          (if empty image_id then Call.open_by_name image_name else Call.open_by_id image_id) w)
        (λ r w1. (r, w1)) (λ r w1. (r, change add_image w1))

  -- ImageState.
  abbrev image_state : World → ℤ × World
  image_state w = perform k Call.stat w

  -- ImageRemoveSnap.
  abbrev pub image_remove_snap : Bytes → ℕ → Bool → World → ℤ × World
  image_remove_snap snap_name snap_id force w =
      perform k
        (if empty snap_name
          then Call.snap_remove_by_id snap_id
          else Call.snap_remove2 snap_name (if force then rbd_snap_remove_force else 0))
        w

  -- CephLibrbdSnapRemove behind its checks.
  unfoldable pub remove_snap : ℤ → Bytes → Bytes → ℕ → Bool → World → ℤ × World
  remove_snap pool_id namespace_name image_id snap_id force w =
      check (rados_init k write_through w) (λ r w1. (r, w1))
        λ r w1.
          check (ioctx_init [] pool_id namespace_name w1)
            (λ r2 w2. (forgive r2, rados_shutdown k w2))
            λ r2 w2.
              check (ioctx_open_image [] image_id (run k Call.set_osdmap_full_try w2))
                (λ r3 w3. (forgive r3, rados_shutdown k (ioctx_destroy w3)))
                λ r3 w3.
                  let r4 = image_remove_snap [] snap_id force w3 in
                  (forgive r4.0, rados_shutdown k (ioctx_destroy (ioctx_close_image r4.1)))

  -- CephLibrbdSnapRemove, where `none` is a null pointer.
  unfoldable pub ceph_librbd_snap_remove :
      ℤ → Option Bytes → Option Bytes → ℕ → Bool → World → ℤ × World
  ceph_librbd_snap_remove pool_id none image_id snap_id force w = (e_inval, w)
  ceph_librbd_snap_remove pool_id (some namespace_name) none snap_id force w = (e_inval, w)
  ceph_librbd_snap_remove pool_id (some namespace_name) (some image_id) snap_id force w =
      if is_zero pool_id || (empty image_id || snap_id == 0)
      then (e_inval, w)
      else remove_snap pool_id namespace_name image_id snap_id force w

  -- CephLibrbdGetImageInfo behind its check: the code, and what it writes to `*num_objs`.
  unfoldable pub image_info : ℤ → Bytes → World → ℤ × (Option ℤ × World)
  image_info pool_id image_id w =
      check (rados_init k [] w) (λ r w1. (r, (none, w1)))
        λ r w1.
          check (ioctx_init [] pool_id [] w1) (λ r2 w2. (r2, (none, rados_shutdown k w2)))
            λ r2 w2.
              check (ioctx_open_image [] image_id w2)
                (λ r3 w3. (r3, (none, rados_shutdown k (ioctx_destroy w3))))
                λ r3 w3.
                  check (image_state w3)
                    (λ r4 w4. (r4, (none, rados_shutdown k (ioctx_destroy (ioctx_close_image w4)))))
                    λ r4 w4. (
                      r4,
                      (
                        some (to_int (pos (k.num_objs w4.calls))),
                        rados_shutdown k (ioctx_destroy (ioctx_close_image w4)),
                      ),
                    )

  -- CephLibrbdGetImageInfo; the flag says that `num_objs` is not null.
  unfoldable pub ceph_librbd_get_image_info :
      ℤ → Option Bytes → Bool → World → ℤ × (Option ℤ × World)
  ceph_librbd_get_image_info pool_id none num_objs w = (e_inval, (none, w))
  ceph_librbd_get_image_info pool_id (some image_id) num_objs w =
      if num_objs then image_info pool_id image_id w else (e_inval, (none, w))
