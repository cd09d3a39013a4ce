-- ===== src/Proxy/RbdWrapper/DiskUsage.antt =====
-- src/ceph_proxy/RbdWrapper.cc: the space that the images of all pools take.
use global_cache_adaptor.Common.{
  ℕ, ◌+◌, ◌*◌, ◌/◌, Bool, true, false, List, [], ◌∷◌, Option, none, some, ltb, if◌then◌else◌, u32,
  u64,
}
use global_cache_adaptor.Common.Bytes.{Bytes, bytes}
use global_cache_adaptor.Common.OrdMap.{OrdMap}
use global_cache_adaptor.Common.Int.{ℤ, pos}
use global_cache_adaptor.Proxy.RbdWrapper.{
  Call, Cluster, World, check, perform, change, empty, add_image,
}
use global_cache_adaptor.Proxy.RbdWrapper.Client.{rados_init, rados_shutdown}
use global_cache_adaptor.Proxy.RbdWrapper.Image.{
  e_inval, write_through, ioctx_init, ioctx_destroy, ioctx_close_image,
}
use global_cache_adaptor.Proxy.RbdWrapper.PoolMap.{
  SigPoolInfo, mon_command, parse_pool_map, cal_pool_property,
}

-- An `int` as an operand of `uint64_t`.
abbrev pub extend : ℕ → ℕ
extend x = if ltb x 2147483648 then x else x + 18446744069414584320

-- The last loop of CephLibrbdDiskUsage. (`k + m` overflows an `int` only for numbers that no profile
-- has; it wraps here.)
unfoldable pub add_usage : ℕ → OrdMap SigPoolInfo → ℕ
add_usage acc [] = acc
add_usage acc ((id, info) ∷ pools) =
    add_usage (u64 (acc + u64 (info.usage * extend (u32 (info.k + info.m))) / extend info.k)) pools

-- DiffCallback, called for each extent in turn.
unfoldable pub diff_callback : ℕ → List (ℕ × Bool) → ℕ
diff_callback used [] = used
diff_callback used ((len, exists) ∷ extents) =
    diff_callback (if exists then u64 (used + len) else used) extents

-- `snapFrom` points into `lastSnap`, from the first name on that is not empty.
abbrev pub next_from : Option Bytes → Bytes → Option Bytes
next_from snap_from last_snap =
    if empty last_snap
    then elim snap_from [ none ↦ none | some s ↦ some last_snap ]
    else some last_snap

module _ (k : Cluster) where
  -- diff_iterate2: the code, and what `used` has become.
  abbrev pub diff : Option Bytes → ℕ → World → ℤ × (ℕ × World)
  diff snap_from size w =
      let done = perform k (Call.diff_iterate2 snap_from size) w in
      (done.0, (diff_callback 0 (k.extents done.1.calls), done.1))

  -- rbd.open_read_only.
  unfoldable pub open_read_only : Bytes → Option Bytes → World → ℤ × World
  open_read_only name snap w =
      check (perform k (Call.open_read_only name snap) w) (λ r w1. (r, w1))
        λ r w1. (r, change add_image w1)

  -- The loop over the snapshots: the code, and `snapFrom` of the image and the usage. The destructor of
  -- `snap_image` closes it at the end of a pass.
  unfoldable pub diff_snaps :
      Bytes
      → List (Bytes × ℕ)
      → ℤ
      → Option Bytes
      → Bytes
      → ℕ
      → World
      → ℤ × ((Option Bytes × ℕ) × World)
  diff_snaps name [] ret snap_from last_snap usage w =
      (ret, ((next_from snap_from last_snap, usage), w))
  diff_snaps name ((snap, size) ∷ snaps) ret snap_from last_snap usage w =
      let from = next_from snap_from last_snap in
      check (open_read_only name (some snap) w) (λ r w1. (r, ((snap_from, usage), w1)))
        λ r w1.
          check (diff from size w1) (λ r2 rest. (r2, ((from, usage), ioctx_close_image k rest.1)))
            λ r2 rest.
              diff_snaps name snaps r2 from snap (u64 (usage + rest.0)) (ioctx_close_image k rest.1)

  -- CalImageUsage behind the opening of the image.
  unfoldable pub sum_image : Bytes → ℕ → World → ℤ × (ℕ × World)
  sum_image name usage w =
      check (perform k Call.stat w) (λ r w1. (r, (usage, ioctx_close_image k w1)))
        λ r w1.
          check (perform k Call.snap_list w1) (λ r2 w2. (r2, (usage, ioctx_close_image k w2)))
            λ r2 w2.
              check (diff_snaps name (k.snaps w2.calls) r2 none [] usage w2)
                (λ r3 rest. (r3, (rest.0.1, ioctx_close_image k rest.1)))
                λ r3 rest.
                  check (diff rest.0.0 (k.size w1.calls) rest.1)
                    (λ r4 last. (r4, (rest.0.1, ioctx_close_image k last.1)))
                    (λ r4 last. (r4, (u64 (rest.0.1 + last.0), ioctx_close_image k last.1)))

  -- CalImageUsage: the code, and `info.usage`.
  unfoldable pub cal_image_usage : Bytes → ℕ → World → ℤ × (ℕ × World)
  cal_image_usage name usage w =
      check (open_read_only name none w) (λ r w1. (r, (usage, w1))) λ r w1. sum_image name usage w1

  -- The loop over the images of a pool, with the `ret` before it.
  unfoldable pub cal_images : List Bytes → ℤ → ℕ → World → ℤ × (ℕ × World)
  cal_images [] ret usage w = (ret, (usage, w))
  cal_images (name ∷ names) ret usage w =
      check (cal_image_usage name usage w) (λ r rest. (r, rest))
        λ r rest. cal_images names r rest.0 rest.1

  -- The body of the loop of CalPoolUsage: the code, and `info.usage`.
  unfoldable pub pool_usage : SigPoolInfo → World → ℤ × (ℕ × World)
  pool_usage info w =
      check (ioctx_init k info.pool_name (pos 0) [] w) (λ r w1. (r, (info.usage, w1)))
        λ r w1.
          check (perform k Call.list2 w1) (λ r2 w2. (r2, (info.usage, ioctx_destroy k w2)))
            λ r2 w2.
              check (cal_images (k.images w2.calls) r2 info.usage w2)
                (λ r3 rest. (r3, (rest.0, ioctx_destroy k rest.1)))
                (λ r3 rest. (r3, (rest.0, ioctx_destroy k rest.1)))

  -- CalPoolUsage, with the `ret` before it: the code, and the pools.
  unfoldable pub cal_pool_usage : OrdMap SigPoolInfo → ℤ → World → ℤ × (OrdMap SigPoolInfo × World)
  cal_pool_usage [] ret w = (ret, ([], w))
  cal_pool_usage ((id, info) ∷ pools) ret w =
      check (pool_usage info w)
        (λ r rest. (r, ((id, record info { usage = rest.0 }) ∷ pools, rest.1)))
        λ r rest.
          let others = cal_pool_usage pools r rest.1 in
          (others.0, ((id, record info { usage = rest.0 }) ∷ others.1.0, others.1.1))

  -- CephLibrbdDiskUsage behind the initialisation: the code, and the pools.
  unfoldable pub survey : World → ℤ × (OrdMap SigPoolInfo × World)
  survey w =
      check (mon_command k (bytes "{\"prefix\":\"osd lspools\"}") w) (λ r rest. (r, ([], rest.1)))
        λ r rest.
          check (parse_pool_map k rest.0 rest.1) (λ r2 p. (r2, p))
            λ r2 p.
              check (cal_pool_property k p.0 p.1) (λ r3 q. (r3, q))
                λ r3 q. cal_pool_usage q.0 (pos 0) q.1

  -- CephLibrbdDiskUsage: the code, and what it writes to `*usage`. The flag says that `usage` is not
  -- null.
  unfoldable pub ceph_librbd_disk_usage : Bool → World → ℤ × (Option ℕ × World)
  ceph_librbd_disk_usage false w = (e_inval, (none, w))
  ceph_librbd_disk_usage true w =
      check (rados_init k write_through w) (λ r w1. (r, (none, w1)))
        λ r w1.
          check (survey w1) (λ r2 rest. (r2, (none, rados_shutdown k rest.1)))
            λ r2 rest. (r2, (some (add_usage 0 rest.0 / 1048576), rados_shutdown k rest.1))
