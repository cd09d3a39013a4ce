-- ===== src/Proxy/Tests/Images.antt =====
-- Runs of the model of src/ceph_proxy/RbdWrapper.cc.
use global_cache_adaptor.Common.{
  ◌≡◌, refl, arith, Bool, true, false, not, List, [], ◌∷◌, some, if◌then◌else◌,
}
use global_cache_adaptor.Common.Bytes.{Bytes, bytes, same}
use global_cache_adaptor.Common.Int.{ℤ, pos, neg, is_neg, is_zero}
use global_cache_adaptor.Common.Number.{skip_space, strtol}
use global_cache_adaptor.Proxy.RbdWrapper.{Call, Cluster, World, check, check_zero}
use global_cache_adaptor.Proxy.RbdWrapper.Client.{
  init_locked, make_client, authenticate, set_keyring, configure_and_connect, connect_loop, set_all,
  get_ceph_path, fast_init_rados, rados_init, rados_shutdown,
}
use global_cache_adaptor.Proxy.RbdWrapper.Image.{ioctx_init, ioctx_set_namespace}
use global_cache_adaptor.Proxy.RbdWrapper.PoolMap.{
  mon_command, parse_pool_map, parse_pools, match_pool, cal_pool_property, pool_property,
}
use global_cache_adaptor.Proxy.RbdWrapper.DiskUsage.{
  ceph_librbd_disk_usage, survey, cal_pool_usage, pool_usage, cal_images, cal_image_usage,
  sum_image, diff_snaps, open_read_only, diff_callback, add_usage,
}
use global_cache_adaptor.Proxy.RbdWrapper.Steps.{NoPositive}
use global_cache_adaptor.Proxy.RbdWrapper.Requests.{Request, after, request-IsCtx}
use global_cache_adaptor.Proxy.RbdWrapper.Users.{
  fresh, Reach, Shared, start, next, joins, enters, Reach-Shared,
}
use global_cache_adaptor.Proxy.RbdWrapper.Scale.{HaveScale, survey-HaveScale}

-- A cluster with one pool of three copies and one image with a snapshot.
abbrev lspools : Bytes
lspools = bytes "{\"prefix\":\"osd lspools\"}"

abbrev refused : Call → Bool
refused (Call.mon_command cmd) = not (same cmd lspools)
refused c = false

abbrev answer : List Call → ℤ
answer [] = pos 0
answer (c ∷ calls) = if refused c then neg 13 else pos 0

abbrev words : List Call → Bytes
words (Call.mon_command cmd ∷ calls) = bytes "1 rbd\n"
words calls = bytes "cephx"

abbrev cluster : Cluster
cluster = record {
  code = answer;
  text = words;
  exists = λ c. true;
  num_objs = λ c. 7;
  size = λ c. 4194304;
  snaps = λ c. (bytes "monday", 4194304) ∷ [];
  extents = λ c. (1048576, true) ∷ (1048576, false) ∷ [];
  images = λ c. bytes "disk" ∷ [];
}

never_positive :
    (b : Bool)
    → is_neg (if b then neg 13 else pos 0) ≡ false
    → is_zero (if b then neg 13 else pos 0) ≡ true
never_positive true h = cc
never_positive false h = refl

cluster-NoPositive : NoPositive cluster
cluster-NoPositive [] h = refl
cluster-NoPositive (c ∷ cs) h = never_positive (refused c) h

abbrev connected : World
connected = record {
  ctx = record { init_flag = true; ref = 1; clients = 1; contexts = 0; images = 0 };
  calls = [];
}

-- Two MB of the image and its snapshot, three times.
disk_usage_run : (ceph_librbd_disk_usage cluster true fresh).1.0 ≡ some 6
unfolding ceph_librbd_disk_usage survey cal_pool_usage pool_usage cal_images cal_image_usage
    sum_image diff_snaps open_read_only diff_callback add_usage mon_command parse_pool_map
    parse_pools match_pool cal_pool_property pool_property init_locked make_client authenticate
    set_keyring configure_and_connect connect_loop set_all get_ceph_path rados_init ioctx_init
    ioctx_set_namespace check check_zero rados_shutdown skip_space strtol
disk_usage_run = refl

request-IsCtx_example : (after cluster (Request.disk_usage true) connected).ctx ≡ connected.ctx
request-IsCtx_example =
    request-IsCtx cluster cluster-NoPositive (Request.disk_usage true) connected (omega arith)

abbrev first : World
first = (init_locked cluster [] fresh).1

first_user : Reach cluster 1 first
unfolding init_locked make_client authenticate set_keyring configure_and_connect connect_loop
    set_all get_ceph_path check check_zero
first_user = next 0 1 fresh first start (enters [] 0 fresh refl (omega arith))

second_user : Reach cluster 2 (fast_init_rados cluster [] first)
unfolding init_locked make_client authenticate set_keyring configure_and_connect connect_loop
    set_all get_ceph_path check check_zero
second_user = next 1 2 first _ first_user (joins [] 1 first refl (omega arith))

Reach-Shared_example : Shared 2 (fast_init_rados cluster [] first).ctx
Reach-Shared_example =
    Reach-Shared cluster cluster-NoPositive 2 (fast_init_rados cluster [] first) second_user

surveyed : is_neg (survey cluster connected).0 ≡ false
unfolding survey cal_pool_usage pool_usage cal_images cal_image_usage sum_image diff_snaps
    open_read_only diff_callback mon_command parse_pool_map parse_pools match_pool cal_pool_property
    pool_property ioctx_init ioctx_set_namespace check skip_space strtol
surveyed = refl

survey-HaveScale_example : HaveScale (survey cluster connected).1.0
survey-HaveScale_example = survey-HaveScale cluster connected surveyed
