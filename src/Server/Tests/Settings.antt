-- ===== src/Server/Tests/Settings.antt =====
-- The settings of src/server_adaptor/osa.cpp, run.
use global_cache_adaptor.Common.{ℕ, ◌≡◌, refl, true, some, [], ◌∷◌, if◌then◌else◌}
use global_cache_adaptor.Common.Bytes.{Bytes, bytes, same}
use global_cache_adaptor.Common.Number.{strtol, digits_value, skip_space}
use global_cache_adaptor.Server.Config.{
  Host, Settings, osa_settings, read_config, check_settings, parse_port_vec, check_port, is_digit,
  parse_core, parse_qos,
}
use global_cache_adaptor.Server.Config.Accepted.{IsValid, osa_settings-IsValid}

abbrev number_of : Bytes → ℕ
number_of key =
    if same key (bytes "queue_amount")
    then 64
    else if same key (bytes "queue_max_capacity")
    then 512
    else if same key (bytes "msgr_amount")
    then 3
    else if same key (bytes "get_quota_cyc")
    then 100
    else 0

abbrev text_of : Bytes → Bytes
text_of key =
    if same key (bytes "local_port")
    then bytes "7880,7881"
    else if same key (bytes "public_ipv4_addr")
    then bytes "10.0.0.1"
    else bytes "1,2"

abbrev host : Host
host = record {
  cfg_cstr = λ unit key. some (text_of key);
  cfg_u64 = λ unit key. some (number_of key);
  cpu_num = 64;
  cpus_online = 64;
  local_ip = λ ip. true;
}

abbrev settings : Settings
settings = record {
  addr = bytes "10.0.0.1";
  ports = bytes "7880" ∷ bytes "7881" ∷ [];
  cores = 1 ∷ 2 ∷ [];
  worker_cores = 1 ∷ 2 ∷ [];
  queue_amount = 64;
  queue_max_capacity = 512;
  msgr_amount = 3;
  qos = record { limit_write = 0; get_quota_cycle = 100; enable_throttle = 0; sa_op_throttle = 0 };
}

host-settings : osa_settings host ≡ some settings
unfolding osa_settings read_config check_settings parse_port_vec check_port is_digit parse_core
    parse_qos strtol digits_value skip_space
host-settings = refl

osa_settings-IsValid_example : IsValid 64 settings
osa_settings-IsValid_example = osa_settings-IsValid host settings host-settings

-- A number of 33 bits passes as the port that its lower 32 bits spell.
wrapped_port : check_port (bytes "4294968320") ≡ true
unfolding check_port is_digit strtol digits_value skip_space
wrapped_port = refl
