-- ===== src/Proxy/Start/Run.antt =====
-- src/ceph_proxy/CephProxy.cc: MemberInit, Init, ClearIoctx and Shutdown.
use global_cache_adaptor.Common.{
  ℕ, ◌-◌, Bool, true, ◌&&◌, not, List, [], ◌∷◌, ◌++◌, Option, none, some, ◌==◌, if◌then◌else◌,
}
use global_cache_adaptor.Common.Int.{ℤ, neg}
use global_cache_adaptor.Common.OrdMap.{OrdMap}
use global_cache_adaptor.Proxy.RbdWrapper.{check}
use global_cache_adaptor.Proxy.Settings.{
  ConfigFile, ProxyControlCfg, proxy_config_init, proxy_get_bind_core,
}
use global_cache_adaptor.Proxy.Start.{
  Call, Answers, Handles, CephProxyState, Proxy, run, ask, rados_client_shutdown, parse_core_id,
  rados_init,
}
use global_cache_adaptor.Proxy.Start.Align.{u32_align_up}

-- MemberInit, for a number of clients; `ptable.Init()` empties the tables.
abbrev pub member_init : ProxyControlCfg → ℕ → Proxy → Proxy
member_init cfg client_num p = record p {
  config = cfg;
  client_num = client_num;
  members = record p.members { vec_mask = client_num - 1 };
  state = CephProxyState.initing;
  table1 = [];
  table2 = [];
}

-- What RadosInit leaves in the members; it appends to `ioClientVec`.
abbrev pub with_clients : Option ℕ → List ℕ → Proxy → Proxy
with_clients client clients p = record p {
  rados_client = client;
  members = record p.members { io_client_vec = p.members.io_client_vec ++ clients };
}

abbrev values : {K : Type 0} → List (K × ℕ) → List ℕ
values [] = []
values ((key, io) ∷ m) = io ∷ values m

-- RadosReleaseIoCtx for each context of a list.
unfoldable pub release_all : List ℕ → Handles → Handles
release_all [] h = h
release_all (io ∷ ios) h = release_all ios (run (Call.release_ioctx io) h)

-- The contexts that GetIoCtxWithClient made, in the order of ClearIoctx.
abbrev pub client_contexts : OrdMap (OrdMap ℕ) → List ℕ
client_contexts [] = []
client_contexts ((pool, m) ∷ pools) = values m ++ client_contexts pools

-- The last loop of Shutdown.
unfoldable pub shutdown_clients : List ℕ → Handles → Handles
shutdown_clients [] h = h
shutdown_clients (c ∷ cs) h = shutdown_clients cs (rados_client_shutdown (some c) h)

-- The first lines of Shutdown.
abbrev pub stop_worker : Option ℕ → Handles → Handles
stop_worker none h = h
stop_worker (some n) h = run Call.stop_worker h

-- Shutdown.
unfoldable pub shutdown : Proxy → Handles → Proxy × Handles
shutdown p h₀ =
    let h₁ = stop_worker p.worker h₀ in
    let h₂ = release_all (values p.table1 ++ values p.table2) h₁ in
    let h₃ = if p.msgr_handler then run Call.destroy_proxy_msgr h₂ else h₂ in
    let h₄ = release_all (client_contexts p.members.p_map) h₃ in
    let h₅ = rados_client_shutdown p.rados_client h₄ in
    (
      record p {
        worker = none;
        table1 = [];
        table2 = [];
        members = record p.members { p_map = [] };
        state = CephProxyState.down;
      },
      shutdown_clients p.members.io_client_vec h₅,
    )

module _ (k : Answers) where
  -- Init from `new RadosWorker` on, with the codes of the processor's cores and the `ret` before it.
  unfoldable pub start_worker : List ℕ → ℤ → Proxy → Handles → ℤ × (Proxy × Handles)
  start_worker core_ids ret p h =
      check (ask k p.config Call.allocate h) (λ r h1. (neg 1, (p, h1)))
        λ r h1. (
          ret,
          (
            record p { worker = some p.config.io_worker_num; state = CephProxyState.active },
            run (Call.start_worker core_ids) h1,
          ),
        )

  -- Init behind InitProxyMsgr; `linux` says that CephProxyGetPid gives a number.
  unfoldable pub bind_cores : Bool → ℤ → Proxy → Handles → ℤ × (Proxy × Handles)
  bind_cores linux ret p h =
      if not (linux && proxy_get_bind_core p.config == 1)
      then start_worker [] ret p h
      else check (parse_core_id p.config.core_ids) (λ r ids. (r, (p, h)))
          λ r ids. start_worker ids r p (run (Call.bind_msgr_worker ids) h)

  -- Init behind MemberInit.
  unfoldable pub start : Bool → Proxy → Handles → ℤ × (Proxy × Handles)
  start linux p h =
      check (rados_init k p.config p.client_num h)
        (λ r rest. (r, (with_clients rest.0.0 rest.0.1 p, rest.1)))
        λ r rest.
          let q = with_clients rest.0.0 rest.0.1 p in
          check (ask k p.config Call.init_proxy_msgr rest.1)
            (λ r2 h2. (r2, (q, rados_client_shutdown q.rados_client h2)))
            λ r2 h2. bind_cores linux r2 (record q { msgr_handler = true }) h2

  -- Init. A failure to read the settings is no failure; an outer `none` is a shift by 32 in U32AlignUp.
  unfoldable pub init : ConfigFile → Bool → Proxy → Handles → Option (ℤ × (Proxy × Handles))
  init file linux p h =
      let cfg = (proxy_config_init file).1 in
      elim (u32_align_up cfg.rados_ctx_num) [
        | none ↦ none
        | some n ↦ some (start linux (member_init cfg n p) h)
      ]
