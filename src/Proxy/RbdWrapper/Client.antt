-- ===== src/Proxy/RbdWrapper/Client.antt =====
-- src/ceph_proxy/RbdWrapper.cc: RadosInit and RadosShutdown, the users of the shared client.
use global_cache_adaptor.Common.{
  ℕ, zero, suc, ◌+◌, ◌*◌, ◌^◌, true, false, List, [], ◌∷◌, ◌==◌, if◌then◌else◌, u32,
}
use global_cache_adaptor.Common.Bytes.{Bytes, bytes, same}
use global_cache_adaptor.Common.Int.{ℤ, pos}
use global_cache_adaptor.Proxy.RbdWrapper.{
  Call, Cluster, ProxyCtx, World, check, check_zero, perform, run, change, client_shutdown,
  init_client,
}

-- RADOS_CONNECT_RETRY and CONNECT_WAIT_TIME.
abbrev pub rados_connect_retry : ℕ
rados_connect_retry = 5

abbrev pub connect_wait_time : ℕ
connect_wait_time = 5

abbrev pub less_ref : ProxyCtx → ProxyCtx
less_ref c = record c { ref = u32 (c.ref + 4294967295) }

abbrev pub more_ref : ProxyCtx → ProxyCtx
more_ref c = record c { ref = u32 (c.ref + 1) }

abbrev pub clear_flag : ProxyCtx → ProxyCtx
clear_flag c = record c { init_flag = false }

abbrev pub first_ref : ProxyCtx → ProxyCtx
first_ref c = record c { ref = 1; init_flag = true }

module _ (k : Cluster) where
  -- RadosShutdown.
  unfoldable pub rados_shutdown : World → World
  rados_shutdown w =
      let less = change less_ref w in
      if less.ctx.ref == 0 then change clear_flag (client_shutdown k less) else less

  -- The loop of FastInitRados.
  unfoldable pub set_each : List (Bytes × Bytes) → World → World
  set_each [] w = w
  set_each ((key, value) ∷ m) w = set_each m (run k (Call.conf_set key value) w)

  -- FastInitRados.
  unfoldable pub fast_init_rados : List (Bytes × Bytes) → World → World
  fast_init_rados conf_map w = if w.ctx.init_flag then set_each conf_map (change more_ref w) else w

  -- The label `shutdown` of RadosInit, and the same two lines where the source writes them out.
  abbrev pub give_up : ℤ → World → ℤ × World
  give_up ret w = (ret, client_shutdown k w)

  -- GetCephPath: `confPath`, `keyPath`.
  unfoldable pub get_ceph_path : World → ℤ × ((Bytes × Bytes) × World)
  get_ceph_path w =
      check_zero (perform k (Call.get_cfg_item_cstr (bytes "proxy") (bytes "ceph_conf_path")) w)
        (λ r w1. (r, (([], []), w1)))
        λ r w1.
          check_zero
            (perform k (Call.get_cfg_item_cstr (bytes "proxy") (bytes "ceph_keyring_path")) w1)
            (λ r2 w2. (r2, (([], []), w2)))
            (λ r2 w2. (pos 0, ((k.text w1.calls, k.text w2.calls), w2)))

  -- The loop over `conf_map` that stops at a failure, with the `ret` before it.
  unfoldable pub set_all : List (Bytes × Bytes) → ℤ → World → ℤ × World
  set_all [] ret w = (ret, w)
  set_all ((key, value) ∷ m) ret w =
      check (perform k (Call.conf_set key value) w) (λ r w1. (r, w1)) (set_all m)

  -- The loop around `connect`, for the attempts that are left.
  unfoldable pub connect_loop : ℕ → ℕ → ℤ → World → ℤ × World
  connect_loop zero retry_count ret w = (ret, w)
  connect_loop (suc left) retry_count ret w =
      check (perform k Call.connect w)
        (λ r w1.
          connect_loop left (suc retry_count) r
            (run k (Call.sleep (connect_wait_time * 2 ^ suc retry_count)) w1))
        (λ r w1. (r, w1))

  -- RadosInit from the settings of the caller on.
  unfoldable pub configure_and_connect : List (Bytes × Bytes) → ℤ → World → ℤ × World
  configure_and_connect conf_map ret w = check (set_all conf_map ret w) give_up λ r w1.
      check (connect_loop rados_connect_retry 0 r w1) give_up λ r2 w2. (pos 0, change first_ref w2)

  -- RadosInit from the name of the authentication on.
  unfoldable pub set_keyring :
      List (Bytes × Bytes) → (key_path auth_name : Bytes) → ℤ → World → ℤ × World
  set_keyring conf_map key_path auth_name ret w =
      if same auth_name (bytes "cephx")
      then check (perform k (Call.conf_set (bytes "keyring") key_path) w) give_up
          (configure_and_connect conf_map)
      else configure_and_connect conf_map ret w

  -- RadosInit behind GetCephPath.
  unfoldable pub authenticate :
      List (Bytes × Bytes) → (conf_path key_path : Bytes) → World → ℤ × World
  authenticate conf_map conf_path key_path w =
      check_zero (perform k (Call.conf_read_file conf_path) w) give_up λ r w1.
        check_zero (perform k (Call.conf_get (bytes "auth_cluster_required")) w1) give_up
          λ r2 w2. set_keyring conf_map key_path (k.text w2.calls) r2 w2

  -- RadosInit from `client.init` on.
  unfoldable pub make_client : List (Bytes × Bytes) → World → ℤ × World
  make_client conf_map w =
      check_zero (perform k Call.init w) (λ r w1. (r, w1))
        λ r w1.
          check_zero (get_ceph_path (change init_client w1)) (λ r2 rest. give_up r2 rest.1)
            λ r2 rest. authenticate conf_map rest.0.0 rest.0.1 rest.1

  -- RadosInit from its second lock on.
  unfoldable pub init_locked : List (Bytes × Bytes) → World → ℤ × World
  init_locked conf_map w =
      if w.ctx.init_flag then (pos 0, fast_init_rados conf_map w) else make_client conf_map w

  -- RadosInit, when no other thread runs between its two locks.
  unfoldable pub rados_init : List (Bytes × Bytes) → World → ℤ × World
  rados_init conf_map w =
      if w.ctx.init_flag then (pos 0, fast_init_rados conf_map w) else init_locked conf_map w
