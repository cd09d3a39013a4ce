-- ===== src/Proxy/Start/Clients.antt =====
-- src/ceph_proxy/CephProxy.cc: the clients of the cluster that RadosInit makes.
use global_cache_adaptor.Common.{
  ℕ, zero, suc, ◌+◌, ◌≡◌, refl, ap, ◌∙◌, inl, inr, arith, true, false, List, Option, none, some,
  length, Bool-cases,
}
use global_cache_adaptor.Common.Bytes.{Bytes, bytes, same}
use global_cache_adaptor.Common.Int.{ℤ, is_neg, is_zero}
use global_cache_adaptor.Proxy.RbdWrapper.Steps.{check_lem, check_zero_lem, flag_lem}
use global_cache_adaptor.Proxy.Settings.{ProxyControlCfg}
use global_cache_adaptor.Proxy.Start.{
  Call, Answers, Handles, push_back, connect_loop, set_timeouts, set_keyring, rados_client_init,
  init_clients, rados_init,
}

-- A client was made and is in the pointer, when the code says so.
abbrev Makes : ℕ → ℤ × (Option ℕ × Handles) → Type 0
Makes n x = is_neg x.0 ≡ false → (x.1.1.clients ≡ n) × ((c : ℕ) × (x.1.0 ≡ some c))

-- No call of librados gives a positive code.
abbrev pub NoPositive : Answers → Type 0
NoPositive k = (c : List Call) → is_neg (k.code c) ≡ false → is_zero (k.code c) ≡ true

length-push_back :
    (o : Option ℕ) (cs : List ℕ) (c : ℕ) → o ≡ some c → length (push_back o cs) ≡ suc (length cs)
length-push_back none cs c e = cc
length-push_back (some d) cs c e = refl

refused : (r : ℤ) → (is_neg r ≡ false → is_zero r ≡ true) → is_zero r ≡ false → is_neg r ≡ true
refused r n h = elim (Bool-cases (is_neg r)) [
  | inl y ↦ y
  | inr y ↦ let z : is_zero r ≡ true = n y in cc
]

module _ (k : Answers) (cfg : ProxyControlCfg) where
  connect_loop-clients :
      (left n : ℕ) (r : ℤ) (h : Handles) → (connect_loop k cfg left n r h).1.clients ≡ h.clients
  unfolding connect_loop
  connect_loop-clients zero n r h = refl
  connect_loop-clients (suc left) n r h =
      check_lem (λ (x : ℤ × Handles). x.1.clients ≡ h.clients) _ _ _
        (λ _. connect_loop-clients left _ _ _) (λ _. refl)

  set_timeouts-Makes :
      NoPositive k → (c : ℕ) (r : ℤ) (h : Handles) → Makes h.clients (set_timeouts k cfg c r h)
  unfolding set_timeouts
  set_timeouts-Makes n c r h =
      let P = Makes h.clients in
      check_zero_lem P _ _ _ (λ f q. let e = refused _ (n _) f in cc)
        λ _.
          check_zero_lem P _ _ _ (λ f q. let e = refused _ (n _) f in cc)
            λ _. check_lem P _ _ _ (λ f q. cc) λ _ q. (connect_loop-clients _ _ _ _, (c, refl))

  set_keyring-Makes :
      NoPositive k
      → (c : ℕ) (auth : Bytes) (r : ℤ) (h : Handles)
      → Makes h.clients (set_keyring k cfg c auth r h)
  unfolding set_keyring
  set_keyring-Makes n c auth r h =
      let P = Makes h.clients in
      flag_lem {0, 0, 0} (λ (_ : Unit) x. P x) (same auth (bytes "cephx")) tt tt _ _
        (λ _.
          check_zero_lem P _ _ _ (λ f q. let e = refused _ (n _) f in cc)
            λ _. set_timeouts-Makes n c _ _)
        (λ _. set_timeouts-Makes n c r h)

  pub rados_client_init-Makes :
      NoPositive k
      → (conf : Bytes) (h : Handles) → Makes (h.clients + 1) (rados_client_init k cfg conf h)
  unfolding rados_client_init
  rados_client_init-Makes n conf h =
      let P = Makes (h.clients + 1) in
      check_lem P _ _ _ (λ f q. cc)
        λ _.
          check_lem P _ _ _ (λ f q. cc)
            λ _.
              check_lem P _ _ _ (λ f q. cc)
                λ _.
                  check_zero_lem P _ _ _ (λ f q. let e = refused _ (n _) f in cc)
                    λ _. set_keyring-Makes n _ _ _ _

  -- So many clients were made and are in the vector, when the code says so.
  abbrev pub Fills : ℕ → Handles → ℤ × (List ℕ × Handles) → Type 0
  Fills left h x = is_neg x.0 ≡ false → (length x.1.0 ≡ left) × (x.1.1.clients ≡ h.clients + left)

  pub init_clients-Fills :
      NoPositive k → (left : ℕ) (h : Handles) → Fills left h (init_clients k cfg left h)
  unfolding init_clients
  init_clients-Fills n zero h = λ _. (refl, omega arith)
  init_clients-Fills n (suc left) h =
      check_lem (Fills (suc left) h) _ _ _ (λ f q. cc)
        λ f q.
          let (count, (c, some_c)) = rados_client_init-Makes n cfg.ceph_conf_path h f in
          let (len, live) = init_clients-Fills n left _ q in
          (length-push_back _ _ c some_c ∙ ap suc len, live ∙ omega (arith, count))

  -- The client of the members and those of the vector.
  abbrev pub Connects : ℕ → Handles → ℤ × ((Option ℕ × List ℕ) × Handles) → Type 0
  Connects n h x =
      is_neg x.0 ≡ false
      → (length x.1.0.1 ≡ n)
        × (x.1.1.clients ≡ h.clients + (1 + n))
        × ((c : ℕ) × (x.1.0.0 ≡ some c))

  pub rados_init-Connects :
      NoPositive k → (n : ℕ) (h : Handles) → Connects n h (rados_init k cfg n h)
  unfolding rados_init
  rados_init-Connects p n h =
      check_lem (Connects n h) _ _ _ (λ f q. cc)
        λ f q.
          let (count, (c, some_c)) = rados_client_init-Makes p cfg.ceph_conf_path h f in
          let (len, live) = init_clients-Fills p n _ q in
          (len, live ∙ omega (arith, count), (c, some_c))
