-- ===== src/Proxy/Start/Started.antt =====
-- src/ceph_proxy/CephProxy.cc: what Init makes ready, and what Shutdown takes back.
use global_cache_adaptor.Common.{
  not, ◌&&◌, ◌==◌, ℕ, ◌+◌, ◌-◌, ◌≤◌, ◌≡◌, refl, ap, ◌∙◌, arith, Bool, true, false, List, [], ◌∷◌,
  ◌++◌, Option, none, some, length, if◌then◌else◌,
}
use mathlib.Core.Path.{subst}
use global_cache_adaptor.Common.Int.{ℤ, is_neg}
use global_cache_adaptor.Proxy.RbdWrapper.Steps.{check_lem, flag_lem}
use global_cache_adaptor.Proxy.Settings.{ConfigFile, proxy_config_init, proxy_get_bind_core}
use global_cache_adaptor.Proxy.Start.{
  Answers, Handles, Proxy, CephProxyState, rados_client_shutdown, rados_init, parse_core_id,
}
use global_cache_adaptor.Proxy.Start.Align.{IsAligned, u32_align_up-IsAligned}
use global_cache_adaptor.Proxy.Start.Clients.{NoPositive, rados_init-Connects}
use global_cache_adaptor.Proxy.Start.Run.{
  member_init, release_all, shutdown_clients, shutdown, start_worker, bind_cores, start, init,
  stop_worker,
}

release_all-clients : (ios : List ℕ) (h : Handles) → (release_all ios h).clients ≡ h.clients
unfolding release_all
release_all-clients [] h = refl
release_all-clients (io ∷ ios) h = release_all-clients ios _

shutdown_clients-clients :
    (cs : List ℕ) (h : Handles) → (shutdown_clients cs h).clients ≡ h.clients - length cs
unfolding shutdown_clients
shutdown_clients-clients [] h = omega arith
shutdown_clients-clients (c ∷ cs) h = shutdown_clients-clients cs _ ∙ omega arith

-- The proxy works: a client for the calls without a pool, and for each counter a client whose turn it is.
abbrev pub IsReady : ℕ → Proxy → Type 0
IsReady n p =
    (p.state ≡ CephProxyState.active)
    × (length p.members.io_client_vec ≡ n)
    × (p.members.vec_mask ≡ n - 1)
    × ((c : ℕ) × (p.rados_client ≡ some c))

client_shutdown-clients :
    (o : Option ℕ) (c : ℕ) (h : Handles)
    → o ≡ some c
    → (rados_client_shutdown o h).clients ≡ h.clients - 1
client_shutdown-clients none c h e = cc
client_shutdown-clients (some d) c h e = refl

stop_worker-clients : (o : Option ℕ) (h : Handles) → (stop_worker o h).clients ≡ h.clients
stop_worker-clients none h = refl
stop_worker-clients (some n) h = refl

clients_of :
    (b : Bool) (g h : Handles) → g.clients ≡ h.clients → (if b then g else h).clients ≡ h.clients
clients_of true g h e = e
clients_of false g h e = refl

shutdown-clients :
    (n : ℕ) (p : Proxy) (h : Handles) → IsReady n p → (shutdown p h).1.clients ≡ h.clients - (1 + n)
unfolding shutdown
shutdown-clients n p h (active, len, mask, (c, client)) =
    let clients = p.members.io_client_vec in
    let before = release_all-clients _ _ ∙ stop_worker-clients p.worker h in
    let main =
      ap (λ m. m - 1 - length clients)
        (release_all-clients _ _ ∙ (clients_of p.msgr_handler _ _ refl ∙ before)) in
    shutdown_clients-clients clients _
    ∙ (ap (λ m. m - length clients) (client_shutdown-clients p.rados_client c _ client)
        ∙ (main ∙ omega (arith, len)))

-- Start leaves so many clients open, and a proxy that is ready.
abbrev pub Starts : ℕ → Handles → ℤ × (Proxy × Handles) → Type 0
Starts n h x = is_neg x.0 ≡ false → IsReady n x.1.0 × (x.1.1.clients ≡ h.clients + (1 + n))

-- What a proxy has behind RadosInit.
abbrev Has : ℕ → ℕ → Proxy → Handles → Type 0
Has n live p h =
    (length p.members.io_client_vec ≡ n)
    × (p.members.vec_mask ≡ n - 1)
    × ((c : ℕ) × (p.rados_client ≡ some c))
    × (h.clients ≡ live)

module _ (k : Answers) (n live : ℕ) where
  abbrev Ready : ℤ × (Proxy × Handles) → Type 0
  Ready x = is_neg x.0 ≡ false → IsReady n x.1.0 × (x.1.1.clients ≡ live)

  start_worker-Ready :
      (ids : List ℕ) (r : ℤ) (p : Proxy) (h : Handles)
      → Has n live p h
      → Ready (start_worker k ids r p h)
  unfolding start_worker
  start_worker-Ready ids r p h (len, mask, client, count) =
      check_lem Ready _ _ _ (λ f q. cc) λ f q. ((refl, len, mask, client), count)

  bind_cores-Ready :
      (linux : Bool) (r : ℤ) (p : Proxy) (h : Handles)
      → Has n live p h
      → Ready (bind_cores k linux r p h)
  unfolding bind_cores
  bind_cores-Ready linux r p h has =
      flag_lem {0, 0, 0} (λ (_ : Unit) x. Ready x)
        (not (linux && proxy_get_bind_core p.config == 1)) tt tt _ _
        (λ _. start_worker-Ready [] r p h has)
        (λ _.
          check_lem Ready (parse_core_id p.config.core_ids) (λ r1 ids. (r1, (p, h))) _ (λ f q. cc)
            λ _. start_worker-Ready _ _ p _ has)

start-Starts :
    (k : Answers)
    → NoPositive k
    → (linux : Bool) (p : Proxy) (h : Handles) → p.members.io_client_vec ≡ []
    → p.members.vec_mask ≡ p.client_num - 1
    → Starts p.client_num h (start k linux p h)
unfolding start
start-Starts k np linux p h none_yet mask =
    let n = p.client_num in
    check_lem (Starts n h) _ _ _ (λ f q. cc)
      λ f.
        let (len, live, client) = rados_init-Connects k p.config np n h f in
        check_lem (Starts n h) _ _ _ (λ g q. cc)
          λ g. bind_cores-Ready k n (h.clients + (1 + n)) linux _ _ _ (
            ap (λ v. length (v ++ (rados_init k p.config n h).1.0.1)) none_yet ∙ len,
            mask,
            client,
            live,
          )

-- What Init gives for so many contexts: as many clients as U32AlignUp makes of them and one more, a
-- ready proxy, and nothing that Shutdown does not close.
abbrev pub IsStarted : ℕ → Handles → ℤ × (Proxy × Handles) → Type 0
IsStarted x h r =
    (n : ℕ) × IsAligned x n
    × IsReady n r.1.0
    × (r.1.1.clients ≡ h.clients + (1 + n))
    × ((shutdown r.1.0 r.1.1).1.clients ≡ h.clients)

-- If no call of librados gives a positive code, the proxy has no clients yet, the settings (those of the
-- file or, where it could not be read, the ones that stand in for them) ask for 1 to 2^31 contexts, and
-- Init gives a code that is not negative, then the proxy is active; its vector has as many clients as
-- U32AlignUp makes of the contexts, its mask turns every counter into the remainder by that number, and
-- one more client serves the other calls. All these and no others were opened, and Shutdown brings the
-- number of open clients back to what it was before Init.
pub init-IsStarted :
    (k : Answers)
    → NoPositive k
    → (file : ConfigFile) (linux : Bool) (p : Proxy) (h : Handles) (r : ℤ × (Proxy × Handles))
    → p.members.io_client_vec ≡ []
    → 1 ≤ (proxy_config_init file).1.rados_ctx_num
    → (proxy_config_init file).1.rados_ctx_num ≤ 2147483648
    → init k file linux p h ≡ some r
    → is_neg r.0 ≡ false
    → IsStarted (proxy_config_init file).1.rados_ctx_num h r
unfolding init
init-IsStarted k np file linux p h r none_yet least most e ok =
    let cfg = (proxy_config_init file).1 in
    let (n, aligned, is_aligned) = u32_align_up-IsAligned cfg.rados_ctx_num least most in
    let begun = start k linux (member_init cfg n p) h in
    let e1 : some begun ≡ some r = rw (init, aligned) at e in
    let same : begun ≡ r = cc in
    let passed : is_neg begun.0 ≡ false = ap (λ x. is_neg x.0) same ∙ ok in
    let (ready, count) = start-Starts k np linux (member_init cfg n p) h none_yet refl passed in
    let stopped = shutdown-clients n _ _ ready ∙ omega (arith, count) in
    subst (IsStarted cfg.rados_ctx_num h) same (n, is_aligned, ready, count, stopped)
