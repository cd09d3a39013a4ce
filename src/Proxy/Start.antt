-- ===== src/Proxy/Start.antt =====
-- src/ceph_proxy/CephProxy.cc and RadosClientInit of src/ceph_proxy/RadosWrapper.cc: how the proxy starts
-- and stops. The calls of librados and of the parts that start are recorded, the newest first, and what
-- they answer depends on all of them.
pub mod Align
pub mod Clients
pub mod Run
pub mod Started
use global_cache_adaptor.Common.{
  ℕ, zero, suc, ◌+◌, ◌-◌, ◌*◌, ◌^◌, Bool, true, false, ◌&&◌, ◌||◌, not, List, [], ◌∷◌, ◌++◌, Option,
  none, some, ◌==◌, ltb, if◌then◌else◌, u32,
}
use global_cache_adaptor.Common.Bytes.{Bytes, bytes, same, tokens}
use global_cache_adaptor.Common.Int.{ℤ, pos, neg}
use global_cache_adaptor.Common.Number.{strtoull, digits_value, subject, starts_digit, to_string}
use global_cache_adaptor.Common.OrdMap.{OrdMap}
use global_cache_adaptor.Proxy.IoCtx.{CephProxy}
use global_cache_adaptor.Proxy.RbdWrapper.{check, check_zero}
use global_cache_adaptor.Proxy.Settings.{
  ConfigFile, ProxyControlCfg, proxy_config_init, proxy_get_bind_core,
}
use global_cache_adaptor.Proxy.Start.Align.{u32_align_up}

pub data Call : Type 0 where
  allocate : Call
  init : Bytes → Call
  conf_read_file : Bytes → Call
  conf_get : Bytes → Call
  conf_set : Bytes → Bytes → Call
  connect : Call
  sleep : ℕ → Call
  shutdown : Call
  init_proxy_msgr : Call
  bind_msgr_worker : List ℕ → Call
  start_worker : List ℕ → Call
  stop_worker : Call
  destroy_proxy_msgr : Call
  release_ioctx : ℕ → Call

-- What the last call of a list gives.
pub record Answers : Type 0 where
  pub code : List Call → ℤ
  pub text : List Call → Bytes

-- The Rados objects that were made and those that are not deleted, and the calls.
pub record Handles : Type 0 where
  pub made : ℕ
  pub clients : ℕ
  pub calls : List Call

-- CephProxyState, as far as Init and Shutdown set it.
pub data CephProxyState : Type 0 where
  initing : CephProxyState
  active : CephProxyState
  down : CephProxyState

-- The members of CephProxy; those that GetIoCtxWithClient uses are in `members`, and the contexts of the
-- two tables of `ptable` in `table1` and `table2`.
pub record Proxy : Type 0 where
  pub config : ProxyControlCfg
  pub members : CephProxy
  pub client_num : ℕ
  pub rados_client : Option ℕ
  pub msgr_handler : Bool
  pub worker : Option ℕ
  pub state : CephProxyState
  pub table1 : List (Bytes × ℕ)
  pub table2 : OrdMap ℕ

abbrev pub run : Call → Handles → Handles
run c h = record h { calls = c ∷ h.calls }

-- `new Rados()` and `delete rados`.
abbrev pub new_client : Handles → Handles
new_client h = record h { made = h.made + 1; clients = h.clients + 1 }

abbrev pub delete_client : Handles → Handles
delete_client h = record h { clients = h.clients - 1 }

-- RadosClientShutdown.
abbrev pub rados_client_shutdown : Option ℕ → Handles → Handles
rados_client_shutdown none h = h
rados_client_shutdown (some c) h = delete_client (run Call.shutdown h)

-- strtoul for one name of ParseCoreId, cut to 32 bits; `none` is a failure.
abbrev pub core_id : Bytes → Option ℕ
core_id p =
    if ltb 18446744073709551615 (digits_value 10 0 (subject 10 p))
      || not (starts_digit 10 (subject 10 p))
    then none
    else some (u32 (strtoull 10 p))

-- ParseCoreId: the code, and `vecCoreId`.
unfoldable pub parse_core_ids : List Bytes → ℤ × List ℕ
parse_core_ids [] = (pos 0, [])
parse_core_ids (p ∷ ps) =
    let rest = parse_core_ids ps in
    elim (core_id p) [ none ↦ (neg 1, []) | some id ↦ (rest.0, id ∷ rest.1) ]

abbrev pub parse_core_id : Bytes → ℤ × List ℕ
parse_core_id text = parse_core_ids (tokens b',' text)

-- `ioClientVec.push_back`, in front of what the rest of the loop appends.
abbrev pub push_back : Option ℕ → List ℕ → List ℕ
push_back none clients = clients
push_back (some c) clients = c ∷ clients

module _ (k : Answers) (cfg : ProxyControlCfg) where
  abbrev pub ask : Call → Handles → ℤ × Handles
  ask c h = (k.code (c ∷ h.calls), record h { calls = c ∷ h.calls })

  -- The label `client_init_out` of RadosClientInit.
  abbrev pub client_init_out : ℤ → Handles → ℤ × (Option ℕ × Handles)
  client_init_out ret h = (ret, (none, delete_client (run Call.shutdown h)))

  -- The loop around `connect`, for the attempts that are left.
  unfoldable pub connect_loop : ℕ → ℕ → ℤ → Handles → ℤ × Handles
  connect_loop zero retry_count ret h = (ret, h)
  connect_loop (suc left) retry_count ret h =
      check (ask Call.connect h)
        (λ r h1.
          connect_loop left (suc retry_count) r (run (Call.sleep (5 * 2 ^ suc retry_count)) h1))
        (λ r h1. (r, h1))

  -- RadosClientInit from the two timeouts on, with the object in hand.
  unfoldable pub set_timeouts : ℕ → ℤ → Handles → ℤ × (Option ℕ × Handles)
  set_timeouts client ret h =
      check_zero
        (ask (Call.conf_set (bytes "rados_mon_op_timeout") (to_string 20 cfg.mon_timeout)) h)
        client_init_out
        λ r h1.
          check_zero
            (ask (Call.conf_set (bytes "rados_osd_op_timeout") (to_string 20 cfg.osd_timeout)) h1)
            client_init_out
            λ r2 h2.
              check (connect_loop 5 0 r2 h2) client_init_out λ r3 h3. (pos 0, (some client, h3))

  unfoldable pub set_keyring : ℕ → Bytes → ℤ → Handles → ℤ × (Option ℕ × Handles)
  set_keyring client auth ret h =
      if same auth (bytes "cephx")
      then check_zero (ask (Call.conf_set (bytes "keyring") cfg.ceph_keyring_path) h)
          client_init_out (set_timeouts client)
      else set_timeouts client ret h

  -- RadosClientInit: the code, what it leaves in `*client` (`none`: null or unchanged).
  unfoldable pub rados_client_init : Bytes → Handles → ℤ × (Option ℕ × Handles)
  rados_client_init ceph_conf h =
      check (ask Call.allocate h) (λ r h1. (neg 1, (none, h1)))
        λ r h1.
          check (ask (Call.init (bytes "admin")) (new_client h1)) (λ r2 h2. (r2, (none, h2)))
            λ r2 h2. check (ask (Call.conf_read_file ceph_conf) h2) client_init_out λ r3 h3.
              check_zero (ask (Call.conf_get (bytes "auth_cluster_required")) h3) client_init_out
                λ r4 h4. set_keyring h.made (k.text h4.calls) r4 h4

  -- The loop of RadosInit, for the clients that are left: the code, and `ioClientVec`.
  unfoldable pub init_clients : ℕ → Handles → ℤ × (List ℕ × Handles)
  init_clients zero h = (pos 0, ([], h))
  init_clients (suc left) h =
      check (rados_client_init cfg.ceph_conf_path h) (λ r rest. (r, ([], rest.1)))
        λ r rest.
          let others = init_clients left rest.1 in
          (others.0, (push_back rest.0 others.1.0, others.1.1))

  -- RadosInit: the code, `radosClient` and `ioClientVec`.
  unfoldable pub rados_init : ℕ → Handles → ℤ × ((Option ℕ × List ℕ) × Handles)
  rados_init client_num h =
      check (rados_client_init cfg.ceph_conf_path h) (λ r rest. (r, ((none, []), rest.1)))
        λ r rest.
          let others = init_clients client_num rest.1 in
          (others.0, ((rest.0, others.1.0), others.1.1))
