-- ===== src/Proxy/RbdWrapper/Balance.antt =====
-- src/ceph_proxy/RbdWrapper.cc: each function leaves the shared client as it finds it, and closes what it
-- opens.
use global_cache_adaptor.Common.{
  ℕ, zero, suc, ◌+◌, ◌-◌, ◌%◌, ◌≤◌, ◌<◌, ◌==◌, ◌≡◌, refl, ap, ◌∙◌, arith, Bool, true, false, List,
  [], ◌∷◌, if◌then◌else◌,
}
use global_cache_adaptor.Common.Bytes.{Bytes, bytes, same}
use global_cache_adaptor.Common.Int.{ℤ, is_neg, is_zero}
use global_cache_adaptor.Proxy.RbdWrapper.{
  Call, Cluster, ProxyCtx, World, perform, change, init_client, shutdown_client,
}
use global_cache_adaptor.Proxy.RbdWrapper.Client.{
  less_ref, more_ref, first_ref, clear_flag, rados_shutdown, set_each, fast_init_rados,
  get_ceph_path, set_all, connect_loop, configure_and_connect, authenticate, make_client,
  set_keyring, init_locked, rados_init,
}
use global_cache_adaptor.Proxy.RbdWrapper.Steps.{
  check_lem, check_zero_lem, flag_lem, NoPositive, IsCtx, Ends, entered, Ends-change, entered_first,
  not_zero-is_neg,
}

module _ (k : Cluster) where
  set_each-ctx : (m : List (Bytes × Bytes)) (w : World) → (set_each k m w).ctx ≡ w.ctx
  unfolding set_each
  set_each-ctx [] w = refl
  set_each-ctx ((key, value) ∷ m) w = set_each-ctx m _

  set_all-ctx : (m : List (Bytes × Bytes)) (r : ℤ) (w : World) → IsCtx w.ctx (set_all k m r w)
  unfolding set_all
  set_all-ctx [] r w = refl
  set_all-ctx ((key, value) ∷ m) r w =
      check_lem (IsCtx w.ctx) _ _ _ (λ _. refl) λ _. set_all-ctx m _ _

  connect_loop-ctx : (n c : ℕ) (r : ℤ) (w : World) → IsCtx w.ctx (connect_loop k n c r w)
  unfolding connect_loop
  connect_loop-ctx zero c r w = refl
  connect_loop-ctx (suc n) c r w =
      check_lem (IsCtx w.ctx) _ _ _ (λ _. connect_loop-ctx n _ _ _) λ _. refl

  get_ceph_path-ctx : (w : World) → (get_ceph_path k w).1.1.ctx ≡ w.ctx
  unfolding get_ceph_path
  get_ceph_path-ctx w =
      let P : ℤ × ((Bytes × Bytes) × World) → Type 0 = λ x. x.1.1.ctx ≡ w.ctx in
      check_zero_lem P _ _ _ (λ _. refl) λ _. check_zero_lem P _ _ _ (λ _. refl) λ _. refl

  get_ceph_path-is_neg :
      NoPositive k
      → (w : World) → is_zero (get_ceph_path k w).0 ≡ false
      → is_neg (get_ceph_path k w).0 ≡ true
  unfolding get_ceph_path
  get_ceph_path-is_neg n w =
      let P : ℤ × ((Bytes × Bytes) × World) → Type 0 =
        λ x. is_zero x.0 ≡ false → is_neg x.0 ≡ true in
      check_zero_lem P _ _ _ (λ h _. not_zero-is_neg k n _ h)
        λ _. check_zero_lem P _ _ _ (λ h _. not_zero-is_neg k n _ h) λ _ h. cc

  configure_and_connect-Ends :
      (m : List (Bytes × Bytes)) (r : ℤ) (w : World)
      → Ends (shutdown_client w.ctx) (first_ref w.ctx) (configure_and_connect k m r w)
  unfolding configure_and_connect
  configure_and_connect-Ends m r w =
      let P = Ends (shutdown_client w.ctx) (first_ref w.ctx) in
      let set = set_all-ctx m r w in
      check_lem P _ _ _ (λ h. rw h (ap shutdown_client set))
        λ _.
          check_lem P _ _ _ (λ h. rw h (ap shutdown_client (connect_loop-ctx _ _ _ _ ∙ set)))
            (λ _. ap first_ref (connect_loop-ctx _ _ _ _ ∙ set))

  set_keyring-Ends :
      (m : List (Bytes × Bytes)) (b a : Bytes) (r : ℤ) (w : World)
      → Ends (shutdown_client w.ctx) (first_ref w.ctx) (set_keyring k m b a r w)
  unfolding set_keyring
  set_keyring-Ends m b a r w =
      let P = Ends (shutdown_client w.ctx) (first_ref w.ctx) in
      flag_lem {0, 0, 0} (λ (_ : Unit) x. P x) (same a (bytes "cephx")) tt tt _ _
        (λ _. check_lem P _ _ _ (λ h. rw h refl) λ _. configure_and_connect-Ends m _ _)
        (λ _. configure_and_connect-Ends m r w)

  authenticate-Ends :
      NoPositive k
      → (m : List (Bytes × Bytes)) (a b : Bytes) (w : World)
      → Ends (shutdown_client w.ctx) (first_ref w.ctx) (authenticate k m a b w)
  unfolding authenticate
  authenticate-Ends n m a b w =
      let P = Ends (shutdown_client w.ctx) (first_ref w.ctx) in
      check_zero_lem P _ _ _ (λ h. rw (not_zero-is_neg k n _ h) refl)
        λ _.
          check_zero_lem P _ _ _ (λ h. rw (not_zero-is_neg k n _ h) refl)
            λ _. set_keyring-Ends m _ _ _ _

  pub fast_init_rados-ctx :
      (m : List (Bytes × Bytes)) (w : World)
      → w.ctx.init_flag ≡ true
      → (fast_init_rados k m w).ctx ≡ more_ref w.ctx
  unfolding fast_init_rados
  fast_init_rados-ctx m w h = rw h (set_each-ctx m _)

  closed_client : (c : ProxyCtx) → shutdown_client (init_client c) ≡ c
  closed_client c = ap (λ n. record c { clients = n }) (omega arith)

  make_client-Ends :
      NoPositive k
      → (m : List (Bytes × Bytes)) (w : World)
      → Ends w.ctx (first_ref (init_client w.ctx)) (make_client k m w)
  unfolding make_client
  make_client-Ends n m w =
      let P = Ends w.ctx (first_ref (init_client w.ctx)) in
      let path = get_ceph_path k (change init_client (perform k Call.init w).1) in
      let same_ctx = get_ceph_path-ctx (change init_client (perform k Call.init w).1) in
      let back = ap shutdown_client same_ctx ∙ closed_client w.ctx in
      check_zero_lem P _ _ _ (λ h. rw (not_zero-is_neg k n _ h) refl)
        λ _.
          check_zero_lem P _ _ _ (λ h. rw (get_ceph_path-is_neg n _ h) back)
            λ _.
              Ends-change back (ap first_ref same_ctx)
                (authenticate k m path.1.0.0 path.1.0.1 path.1.1) (authenticate-Ends n m _ _ _)

  pub init_locked-Ends :
      NoPositive k
      → (m : List (Bytes × Bytes)) (w : World) → Ends w.ctx (entered w.ctx) (init_locked k m w)
  unfolding init_locked
  init_locked-Ends n m w =
      flag_lem (Ends w.ctx) w.ctx.init_flag _ _ _ _ (fast_init_rados-ctx m w)
        λ _. make_client-Ends n m w

  pub rados_init-Ends :
      NoPositive k
      → (m : List (Bytes × Bytes)) (w : World) → Ends w.ctx (entered w.ctx) (rados_init k m w)
  unfolding rados_init
  rados_init-Ends n m w =
      flag_lem (Ends w.ctx) w.ctx.init_flag _ _ _ _ (fast_init_rados-ctx m w) λ h.
        Ends-change {d = w.ctx} refl (entered_first w.ctx h) (init_locked k m w)
          (init_locked-Ends n m w)

-- The counter is that of a client that is there, or 0.
abbrev pub SoundRef : Bool → ℕ → Type 0
SoundRef true ref = (1 ≤ ref) × (ref < 2147483647)
SoundRef false ref = ref ≡ 0

abbrev pub IsSound : ProxyCtx → Type 0
IsSound c = SoundRef c.init_flag c.ref

abbrev pub left : ProxyCtx → ProxyCtx
left c = if (less_ref c).ref == 0 then clear_flag (shutdown_client (less_ref c)) else less_ref c

left-entered :
    (flag : Bool) (ref clients contexts images : ℕ)
    → SoundRef flag ref
    → let c : ProxyCtx = record {
      init_flag = flag;
      ref = ref;
      clients = clients;
      contexts = contexts;
      images = images;
    } in
      left (entered c) ≡ c
left-entered true ref clients contexts images h =
    let same_ref : ((ref + 1) % 4294967296 + 4294967295) % 4294967296 ≡ ref = omega (arith, h) in
    let stays : (ref == 0) ≡ false = ground (arith, h) in rw same_ref (rw stays refl)
left-entered false ref clients contexts images h =
    let same_clients : clients + 1 - 1 ≡ clients = omega arith in rw (same_clients, h) refl

ctx_of : (b : Bool) (x y : World) → (if b then x else y).ctx ≡ (if b then x.ctx else y.ctx)
ctx_of true x y = refl
ctx_of false x y = refl

module _ (k : Cluster) where
  pub rados_shutdown-left : (w : World) → (rados_shutdown k w).ctx ≡ left w.ctx
  unfolding rados_shutdown
  rados_shutdown-left w = ctx_of ((less_ref w.ctx).ref == 0) _ _

  pub rados_shutdown-entered :
      (c : ProxyCtx) → IsSound c → (w : World) → w.ctx ≡ entered c → (rados_shutdown k w).ctx ≡ c
  rados_shutdown-entered c h w q =
      rados_shutdown-left w
      ∙ (ap left q ∙ left-entered c.init_flag c.ref c.clients c.contexts c.images h)
