-- ===== src/Proxy/Tests/Maps.antt =====
-- Runs of the model of src/ceph_proxy/CephMsgr.cc on concrete inputs.
use global_cache_adaptor.Common.{ℕ, ◌≡◌, refl, arith, true, false, [], ◌∷◌, Option, none, some}
use global_cache_adaptor.Common.Bytes.{Bytes}
use global_cache_adaptor.Common.Int.{pos}
use global_cache_adaptor.Proxy.CcmAdaptor.{NotifyFn}
use global_cache_adaptor.Proxy.OsdMap.{OsdMapApi, MosdMap, handle_osd_map}
use global_cache_adaptor.Proxy.OsdMap.Epochs.{IsPublished}
use global_cache_adaptor.Proxy.OsdMap.Follow.{msgr, Followed, handle_osd_map-Followed}
use global_cache_adaptor.Proxy.OsdMap.Capacity.{
  Libraries, PoolJson, pools_array, ceph_df, get_pool_all_used_and_avail, get_pool_base_info,
  raw_avail,
}
use global_cache_adaptor.Proxy.OsdMap.Capacity.Totals.{IsReadable, totals, ceph_df-totals}

-- Maps that are their epochs, encoded in one byte. Pool 4 has three copies.
abbrev first_byte : Bytes → ℕ
first_byte [] = 0
first_byte (b ∷ bs) = b

abbrev plain_api : OsdMapApi ℕ ℕ
plain_api = record {
  fresh = 0;
  epoch = λ e. e;
  decode = λ o b. first_byte b;
  apply_incremental = λ o i. i;
  pause_rd = λ o. false;
  pause_wr = λ o. false;
  pools = λ o. (pos 4, record { is_replicated = true; size = 3; erasure_code_profile = [] }) ∷ [];
  profile = λ o name. [];
}

-- Epochs 6 and 7 as increments, 2 and 8 as whole maps; 9 is missing.
abbrev message : MosdMap ℕ
message = record {
  fsid = 1;
  oldest = 2;
  last = 9;
  incremental_maps = (6, 6) ∷ (7, 7) ∷ [];
  maps = (2, 2 ∷ []) ∷ (8, 8 ∷ []) ∷ [];
}

message-IsPublished : IsPublished plain_api (λ e. e) message
message-IsPublished = record {
  epoch_at = λ e h. refl;
  full = λ e b o h. ground arith;
  step = λ e i h. ground arith;
  range = omega arith;
  last-lt = omega arith;
}

abbrev told : NotifyFn
told pools = pos 0

handle_osd_map-Followed_example :
    Followed plain_api
      (λ e. e)
      message
      5
      true
      (some (some told))
      []
      (handle_osd_map plain_api 1 message (msgr plain_api 5 true (some (some told)) []))
handle_osd_map-Followed_example =
    handle_osd_map-Followed plain_api (λ e. e) message message-IsPublished 5 true (some (some told))
      [] (omega arith)

-- Numbers of one byte, and JSON that says the id, the bytes used and the bytes available in a byte each.
abbrev read_json : Bytes → Option PoolJson
read_json (i ∷ u ∷ a ∷ []) = some (record { id = i ∷ []; stats = some (u ∷ [], a ∷ []) })
read_json s = none

abbrev libraries : Libraries
libraries = record {
  parse = read_json;
  stoull = λ s. some (first_byte s);
  stoi = λ s. some (pos (first_byte s));
  default_stripe_unit = 4096;
  info = record { k = 0; m = 0; stripe_unit = 0 };
}

pool_four-IsReadable : IsReadable plain_api libraries 7 (4 ∷ 10 ∷ 50 ∷ []) 10 150
unfolding get_pool_base_info raw_avail
pool_four-IsReadable = record {
  json = record { id = 4 ∷ []; stats = some (10 ∷ [], 50 ∷ []) };
  id = 4;
  layout = (pos 0, record { k = 1; m = 2; stripe_unit = 4096 });
  texts = (10 ∷ [], 50 ∷ []);
  avail = 50;
  parsed = refl;
  id_read = refl;
  laid_out = refl;
  has_stats = refl;
  used_read = refl;
  avail_read = refl;
  scaled = refl;
}

ceph_df-totals_example :
    (ceph_df plain_api libraries 7
        (pools_array ((4 ∷ 10 ∷ 50 ∷ []) ∷ [] ∷ []))
        (record { all_pool_used = 1; all_pool_avail = 1 })
      ≡ some (pos 0, totals (some (10, 150) ∷ none ∷ [])))
    × (get_pool_all_used_and_avail (totals (some (10, 150) ∷ none ∷ [])) ≡ (pos 0, (10, 150)))
ceph_df-totals_example =
    ceph_df-totals plain_api libraries 7 ((4 ∷ 10 ∷ 50 ∷ []) ∷ [] ∷ []) (some (10, 150) ∷ none ∷ [])
      (pool_four-IsReadable, (refl, tt)) (record { all_pool_used = 1; all_pool_avail = 1 })
