-- ===== src/Proxy/Tests/Starts.antt =====
-- Runs of the model of src/ceph_proxy/CephProxy.cc and ConfigRead.cc.
use global_cache_adaptor.Common.{ℕ, ◌≤◌, ◌≡◌, refl, arith, true, false, [], ◌∷◌, none, some}
use global_cache_adaptor.Common.Bytes.{bytes}
use global_cache_adaptor.Common.Int.{ℤ, pos, is_neg}
use global_cache_adaptor.Common.Number.{strtoull, digits_value, skip_space}
use global_cache_adaptor.Proxy.RbdWrapper.{check, check_zero}
use global_cache_adaptor.Proxy.Settings.{
  ConfigFile, init_cluster_cfg, proxy_config_init, read_config, read_most,
}
use global_cache_adaptor.Proxy.Start.{
  Answers, Handles, CephProxyState, Proxy, rados_init, init_clients, rados_client_init, set_keyring,
  set_timeouts, connect_loop, parse_core_ids,
}
use global_cache_adaptor.Proxy.Start.Align.{
  u32_align_up, bit_length, IsAligned, u32_align_up-IsAligned,
}
use global_cache_adaptor.Proxy.Start.Run.{init, start, start_worker, bind_cores, member_init}
use global_cache_adaptor.Proxy.Start.Started.{IsStarted, init-IsStarted}

abbrev answers : Answers
answers = record { code = λ c. pos 0; text = λ c. bytes "cephx" }

abbrev three_contexts : ConfigFile
three_contexts = record {
  cfg_cstr = λ u key. some (bytes "4,5");
  cfg_u32 = λ u key. some 3;
  cfg_u64 = λ u key. some 1;
}

abbrev new_proxy : Proxy
new_proxy = record {
  config = init_cluster_cfg;
  members = record { io_client_vec = []; vec_mask = 0; count = 0; p_map = []; attempts = 0 };
  client_num = 0;
  rados_client = none;
  msgr_handler = false;
  worker = none;
  state = CephProxyState.down;
  table1 = [];
  table2 = [];
}

abbrev no_handles : Handles
no_handles = record { made = 0; clients = 0; calls = [] }

abbrev begun : ℤ × (Proxy × Handles)
begun = start answers true (member_init (proxy_config_init three_contexts).1 4 new_proxy) no_handles

begun-init : init answers three_contexts true new_proxy no_handles ≡ some begun
unfolding init u32_align_up bit_length proxy_config_init read_config read_most
begun-init = refl

begun_passed : is_neg begun.0 ≡ false
unfolding start start_worker bind_cores rados_init init_clients rados_client_init set_keyring
    set_timeouts connect_loop parse_core_ids check check_zero proxy_config_init read_config
    read_most strtoull digits_value skip_space
begun_passed = refl

begun_clients : begun.1.0.members.io_client_vec ≡ 1 ∷ 2 ∷ 3 ∷ 4 ∷ []
unfolding start start_worker bind_cores rados_init init_clients rados_client_init set_keyring
    set_timeouts connect_loop parse_core_ids check check_zero proxy_config_init read_config
    read_most strtoull digits_value skip_space
begun_clients = refl

contexts_least : 1 ≤ (proxy_config_init three_contexts).1.rados_ctx_num
unfolding proxy_config_init read_config read_most
contexts_least = omega arith

contexts_most : (proxy_config_init three_contexts).1.rados_ctx_num ≤ 2147483648
unfolding proxy_config_init read_config read_most
contexts_most = omega arith

init-IsStarted_example :
    IsStarted (proxy_config_init three_contexts).1.rados_ctx_num no_handles begun
init-IsStarted_example =
    init-IsStarted answers (λ c h. refl) three_contexts true new_proxy no_handles begun refl
      contexts_least contexts_most begun-init begun_passed

u32_align_up-IsAligned_example : (n : ℕ) × (u32_align_up 5 ≡ some n) × IsAligned 5 n
u32_align_up-IsAligned_example = u32_align_up-IsAligned 5 (omega arith) (omega arith)
