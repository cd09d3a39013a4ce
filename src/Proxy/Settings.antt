-- ===== src/Proxy/Settings.antt =====
-- src/ceph_proxy/ConfigRead.cc: the settings of the proxy.
use global_cache_adaptor.Common.{ℕ, Option, none, some, u32}
use global_cache_adaptor.Common.Bytes.{Bytes, bytes}
use global_cache_adaptor.Common.Int.{ℤ, pos, negsuc, neg}

-- The configuration library: `none` is a code other than 0.
pub record ConfigFile : Type 0 where
  pub cfg_cstr : Bytes → Bytes → Option Bytes
  pub cfg_u32 : Bytes → Bytes → Option ℕ
  pub cfg_u64 : Bytes → Bytes → Option ℕ

-- ProxyControlCfg.
pub record ProxyControlCfg : Type 0 where
  pub ceph_conf_path : Bytes
  pub ceph_keyring_path : Bytes
  pub core_ids : Bytes
  pub worker_num : ℕ
  pub msgr_amount : ℕ
  pub bind_core : ℕ
  pub osd_timeout : ℕ
  pub mon_timeout : ℕ
  pub io_worker_num : ℕ
  pub rados_ctx_num : ℕ

-- memset and InitClusterCfg: g_ProxyCfg before the file is read.
abbrev pub init_cluster_cfg : ProxyControlCfg
init_cluster_cfg = record {
  ceph_conf_path = bytes "/etc/ceph/ceph.conf";
  ceph_keyring_path = bytes "/etc/ceph/ceph.client.admin.keyring";
  core_ids = bytes "26,27,28,29";
  worker_num = 1;
  msgr_amount = 3;
  bind_core = 1;
  osd_timeout = 0;
  mon_timeout = 0;
  io_worker_num = 1;
  rados_ctx_num = 1;
}

-- One item of ReadConfig: after a failure nothing more is read.
abbrev pub item {ℓ} :
    {A : Type ℓ}
    → Option A
    → (A → ProxyControlCfg → ProxyControlCfg)
    → ℤ × ProxyControlCfg
    → ℤ × ProxyControlCfg
item found set (pos n, c) = elim found [ none ↦ (neg 1, c) | some v ↦ (pos 0, set v c) ]
item found set (negsuc n, c) = (negsuc n, c)

module _ (f : ConfigFile) where
  abbrev cstr : Bytes → Option Bytes
  cstr key = f.cfg_cstr (bytes "proxy") key

  abbrev u32_item : Bytes → Option ℕ
  u32_item key = f.cfg_u32 (bytes "proxy") key

  abbrev u64_item : Bytes → Option ℕ
  u64_item key = f.cfg_u64 (bytes "proxy") key

  -- ReadConfig up to `proxy_worker_queue_num`.
  unfoldable pub read_most : ProxyControlCfg → ℤ × ProxyControlCfg
  read_most c₀ =
      let c₁ =
        item (cstr (bytes "ceph_conf_path")) (λ v c. record c { ceph_conf_path = v }) (pos 0, c₀) in
      let c₂ =
        item (cstr (bytes "ceph_keyring_path")) (λ v c. record c { ceph_keyring_path = v }) c₁ in
      let c₃ = item (cstr (bytes "core_number")) (λ v c. record c { core_ids = v }) c₂ in
      let c₄ = item (u64_item (bytes "bind_core")) (λ v c. record c { bind_core = v }) c₃ in
      let c₅ =
        item (u64_item (bytes "rados_mon_op_timeout")) (λ v c. record c { mon_timeout = v }) c₄ in
      let c₆ =
        item (u64_item (bytes "rados_osd_op_timeout")) (λ v c. record c { osd_timeout = v }) c₅ in
      item (u32_item (bytes "proxy_worker_queue_num")) (λ v c. record c { io_worker_num = v }) c₆

  -- ReadConfig: the code, and what it leaves in g_ProxyCfg.
  unfoldable pub read_config : ProxyControlCfg → ℤ × ProxyControlCfg
  read_config c =
      item (u32_item (bytes "proxy_rados_ctx_num")) (λ v d. record d { rados_ctx_num = v })
        (read_most c)

  -- ProxyConfigInit.
  unfoldable pub proxy_config_init : ℤ × ProxyControlCfg
  proxy_config_init = read_config init_cluster_cfg

-- ProxyGetBindCore.
abbrev pub proxy_get_bind_core : ProxyControlCfg → ℕ
proxy_get_bind_core c = u32 c.bind_core
