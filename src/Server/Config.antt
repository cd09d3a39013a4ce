-- ===== src/Server/Config.antt =====
-- src/server_adaptor/config_read.cpp and the first part of OSA_Init in src/server_adaptor/osa.cpp: the
-- settings, and the checks before the network module is built.
pub mod Accepted
use global_cache_adaptor.Common.{
  ℕ, ◌+◌, ◌/◌, Bool, true, false, ◌&&◌, ◌||◌, not, List, [], ◌∷◌, Option, none, some, ◌==◌, ltb,
  leb, if◌then◌else◌, u32, length,
}
use global_cache_adaptor.Common.Bytes.{Bytes, bytes, tokens}
use global_cache_adaptor.Common.Int.{ℤ, pos, negsuc, is_neg, pos_part}
use global_cache_adaptor.Common.Number.{strtol, to_int}
use global_cache_adaptor.Server.MsgModule.{◌>>=◌}

-- The configuration library, the machine's processors (get_nprocs_conf and sysconf) and CheckLocalIp,
-- which asks the machine for its addresses.
pub record Host : Type 0 where
  pub cfg_cstr : Bytes → Bytes → Option Bytes
  pub cfg_u64 : Bytes → Bytes → Option ℕ
  pub cpu_num : ℕ
  pub cpus_online : ℕ
  pub local_ip : Bytes → Bool

-- SA_ClusterControlCfg.
pub record ClusterControlCfg : Type 0 where
  pub listen_ip : Bytes
  pub listen_port : Bytes
  pub core_number : Bytes
  pub worker_core : Bytes
  pub queue_amount : ℕ
  pub queue_max_capacity : ℕ
  pub msgr_amount : ℕ
  pub bind_core : ℕ
  pub bind_queue_core : ℕ
  pub write_qos : ℕ
  pub get_quota_cyc : ℕ
  pub get_messenger_throttle : ℕ
  pub sa_op_throttle : ℕ
  pub read_stat : Bool

-- The size that SetCfgCorenum puts into its two keys.
abbrev pub core_keys : ℕ → Bytes × Bytes
core_keys cpus =
    if ltb cpus 96
    then (bytes "core_number_64", bytes "sa_worker_core_64")
    else if ltb cpus 128
    then (bytes "core_number_96", bytes "sa_worker_core_96")
    else if ltb cpus 256
    then (bytes "core_number_128", bytes "sa_worker_core_128")
    else (bytes "core_number_256", bytes "sa_worker_core_256")

module _ (h : Host) where
  -- SetCfgCorenum.
  abbrev set_cfg_corenum : Option (Bytes × Bytes)
  set_cfg_corenum =
      let (core, worker) = core_keys h.cpu_num in
      h.cfg_cstr (bytes "sa") core >>= λ c. h.cfg_cstr (bytes "sa") worker >>= λ w. some (c, w)

  -- ReadConfig and CacheClusterConfigInit; `none` is RETURN_ERROR.
  unfoldable pub read_config : Option ClusterControlCfg
  read_config = h.cfg_cstr (bytes "communicate") (bytes "public_ipv4_addr") >>= λ ip.
      h.cfg_cstr (bytes "communicate") (bytes "local_port") >>= λ port. set_cfg_corenum >>= λ cores.
      h.cfg_u64 (bytes "sa") (bytes "queue_amount") >>= λ amount.
      h.cfg_u64 (bytes "sa") (bytes "queue_max_capacity") >>= λ capacity.
      h.cfg_u64 (bytes "sa") (bytes "msgr_amount") >>= λ msgr.
      h.cfg_u64 (bytes "sa") (bytes "bind_core") >>= λ bind.
      h.cfg_u64 (bytes "sa") (bytes "bind_queue_core") >>= λ bind_queue.
      h.cfg_u64 (bytes "sa") (bytes "write_qos") >>= λ qos.
      h.cfg_u64 (bytes "sa") (bytes "get_quota_cyc") >>= λ cycle.
      h.cfg_u64 (bytes "sa") (bytes "enable_messenger_throttle") >>= λ enable.
      h.cfg_u64 (bytes "sa") (bytes "sa_op_throttle") >>= λ throttle.
      h.cfg_u64 (bytes "cache") (bytes "rcache_snapshot_enable") >>= λ stat. some (record {
        listen_ip = ip;
        listen_port = port;
        core_number = cores.0;
        worker_core = cores.1;
        queue_amount = amount;
        queue_max_capacity = capacity;
        msgr_amount = msgr;
        bind_core = bind;
        bind_queue_core = bind_queue;
        write_qos = qos;
        get_quota_cyc = cycle;
        get_messenger_throttle = enable;
        sa_op_throttle = throttle;
        read_stat = not (stat == 0);
      })

-- IsDigit.
unfoldable pub is_digit : Bytes → Bool
is_digit [] = true
is_digit (c ∷ s) = (leb b'0' c && leb c b'9') && is_digit s

-- CheckPort. (atoi of the GNU C library is strtol, cut to 32 bits.)
unfoldable pub check_port : Bytes → Bool
unfolding is_digit
check_port s =
    let port = to_int (strtol s).value in
    is_digit s && not (ltb 65535 (pos_part port) || (is_neg port || ltb (pos_part port) 1024))

abbrev pub all_ports : List Bytes → Bool
all_ports [] = true
all_ports (p ∷ ps) = check_port p && all_ports ps

-- ParsePortVec; `none` is ERROR_PORT.
unfoldable pub parse_port_vec : Bytes → Option (List Bytes)
parse_port_vec text =
    let ports = tokens b',' text in
    if (length text == 0 || not (all_ports ports)) || (length ports == 0 || ltb 8 (length ports))
    then none
    else some ports

-- CheckCoreId.
abbrev pub check_core_id : ℕ → ℤ → Bool
check_core_id cpus id = not (is_neg id) && ltb (pos_part id) cpus

abbrev pub parse_cores : ℕ → List Bytes → Option (List ℕ)
parse_cores cpus [] = some []
parse_cores cpus (p ∷ ps) =
    let n = strtol p in
    let id = to_int n.value in
    let rest = parse_cores cpus ps in
    if n.failed || not (check_core_id cpus id)
    then none
    else rest >>= λ ids. some (pos_part id ∷ ids)

-- ParseCore.
unfoldable pub parse_core : ℕ → Bytes → Option (List ℕ)
parse_core cpus text = parse_cores cpus (tokens b',' text)

pub record QosParam : Type 0 where
  pub limit_write : ℕ
  pub get_quota_cycle : ℕ
  pub enable_throttle : ℕ
  pub sa_op_throttle : ℕ

-- ParseQos; the getters cut to 32 bits, but for that of `saOpThrottle`.
unfoldable pub parse_qos : ClusterControlCfg → Option QosParam
parse_qos c =
    let cycle = u32 c.get_quota_cyc in
    let t = c.sa_op_throttle in
    if ltb cycle 1 || (not (t == 0) && (ltb t 2000 || ltb 30000 t))
    then none
    else some (record {
      limit_write = u32 c.write_qos;
      get_quota_cycle = cycle;
      enable_throttle = u32 c.get_messenger_throttle;
      sa_op_throttle = t;
    })

-- What OSA_Init hands to the network module.
pub record Settings : Type 0 where
  pub addr : Bytes
  pub ports : List Bytes
  pub cores : List ℕ
  pub worker_cores : List ℕ
  pub queue_amount : ℕ
  pub queue_max_capacity : ℕ
  pub msgr_amount : ℕ
  pub qos : QosParam

abbrev pub between : ℕ → ℕ → ℕ → Bool
between low high n = leb low n && leb n high

-- A test whose failure ends the function.
abbrev pub need : Bool → Option Bool
need t = if t then some t else none

-- The checks of OSA_Init, in their order.
unfoldable pub check_settings : Host → ClusterControlCfg → Option Settings
unfolding parse_port_vec parse_core parse_qos
check_settings h c = need (h.local_ip c.listen_ip) >>= λ _.
    parse_port_vec c.listen_port >>= λ ports. parse_core h.cpus_online c.core_number >>= λ cores.
    parse_core h.cpus_online c.worker_core >>= λ workers.
    need (between 4 5000 (u32 c.queue_amount)) >>= λ _.
    need (between 1 1024 (u32 c.queue_max_capacity)) >>= λ _.
    need (between 3 16 (u32 c.msgr_amount)) >>= λ _. parse_qos c >>= λ q. some (record {
      addr = c.listen_ip;
      ports = ports;
      cores = cores;
      worker_cores = workers;
      queue_amount = u32 c.queue_amount;
      queue_max_capacity = u32 c.queue_max_capacity;
      msgr_amount = u32 c.msgr_amount;
      qos = q;
    })

-- OSA_Init up to the creation of the network module; `none` is ERROR_PORT.
unfoldable pub osa_settings : Host → Option Settings
unfolding read_config check_settings
osa_settings h = read_config h >>= λ c. check_settings h c
