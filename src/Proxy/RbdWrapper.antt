-- ===== src/Proxy/RbdWrapper.antt =====
-- src/ceph_proxy/RbdWrapper.cc: the functions of librbd that the proxy offers. They share one client of
-- the cluster (`gProxyCtx`), counted by its users. The calls of librados, librbd and the configuration
-- library are recorded in their order, the newest first, and what they answer depends on all of them.
pub mod Client
pub mod Image
pub mod PoolMap
pub mod DiskUsage
pub mod Steps
pub mod Balance
pub mod Open
pub mod Survey
pub mod Requests
pub mod Users
pub mod Scale
use global_cache_adaptor.Common.{
  ℕ, ◌+◌, ◌-◌, Bool, true, false, ◌&&◌, List, [], ◌∷◌, Option, none, some, ◌==◌, if◌then◌else◌, u32,
}
use global_cache_adaptor.Common.Bytes.{Bytes, bytes}
use global_cache_adaptor.Common.Int.{ℤ, is_neg, is_zero, neg_part}

pub data Call : Type 0 where
  init : Call
  get_cfg_item_cstr : Bytes → Bytes → Call
  conf_read_file : Bytes → Call
  conf_get : Bytes → Call
  conf_set : Bytes → Bytes → Call
  connect : Call
  sleep : ℕ → Call
  shutdown : Call
  mon_command : Bytes → Call
  ioctx_create : Bytes → Call
  ioctx_create2 : ℤ → Call
  ioctx_close : Call
  namespace_exists : Bytes → Call
  set_namespace : Bytes → Call
  set_osdmap_full_try : Call
  open_by_name : Bytes → Call
  open_by_id : Bytes → Call
  open_read_only : Bytes → Option Bytes → Call
  image_close : Call
  stat : Call
  snap_list : Call
  snap_remove2 : Bytes → ℕ → Call
  snap_remove_by_id : ℕ → Call
  diff_iterate2 : Option Bytes → ℕ → Call
  list2 : Call
  allocate : ℕ → Call  -- `new(std::nothrow)`, with a negative code for a null pointer

-- What the last call of a list gives: its code, and what it writes behind its pointers.
pub record Cluster : Type 0 where
  pub code : List Call → ℤ
  pub text : List Call → Bytes
  pub exists : List Call → Bool
  pub num_objs : List Call → ℕ
  pub size : List Call → ℕ
  pub snaps : List Call → List (Bytes × ℕ)
  pub extents : List Call → List (ℕ × Bool)
  pub images : List Call → List Bytes

-- ProxyCtx, with the 32 bits of `ref`, and how many clients, contexts and images are open.
pub record ProxyCtx : Type 0 where
  pub init_flag : Bool
  pub ref : ℕ
  pub clients : ℕ
  pub contexts : ℕ
  pub images : ℕ

pub record World : Type 0 where
  pub ctx : ProxyCtx
  pub calls : List Call

-- The test `ret < 0` behind a call, whose results are a code and the rest.
unfoldable pub check {ℓ κ} : {B : Type ℓ} {R : Type κ} → ℤ × B → (ℤ → B → R) → (ℤ → B → R) → R
check p fail next = if is_neg p.0 then fail p.0 p.1 else next p.0 p.1

-- The test `ret != 0`.
unfoldable pub check_zero {ℓ κ} : {B : Type ℓ} {R : Type κ} → ℤ × B → (ℤ → B → R) → (ℤ → B → R) → R
check_zero p fail next = if is_zero p.0 then next p.0 p.1 else fail p.0 p.1

-- `ret == -n`.
abbrev pub is_code : ℕ → ℤ → Bool
is_code n r = is_neg r && neg_part r == n

abbrev pub empty : Bytes → Bool
empty [] = true
empty (c ∷ s) = false

-- The calls that open and close something.
abbrev pub init_client : ProxyCtx → ProxyCtx
init_client c = record c { clients = c.clients + 1 }

abbrev pub shutdown_client : ProxyCtx → ProxyCtx
shutdown_client c = record c { clients = c.clients - 1 }

abbrev pub open_context : ProxyCtx → ProxyCtx
open_context c = record c { contexts = c.contexts + 1 }

abbrev pub close_context : ProxyCtx → ProxyCtx
close_context c = record c { contexts = c.contexts - 1 }

abbrev pub add_image : ProxyCtx → ProxyCtx
add_image c = record c { images = c.images + 1 }

abbrev pub drop_image : ProxyCtx → ProxyCtx
drop_image c = record c { images = c.images - 1 }

abbrev pub change : (ProxyCtx → ProxyCtx) → World → World
change f w = record w { ctx = f w.ctx }

module _ (k : Cluster) where
  abbrev pub perform : Call → World → ℤ × World
  perform c w = (k.code (c ∷ w.calls), record w { calls = c ∷ w.calls })

  -- A call without a result.
  abbrev pub run : Call → World → World
  run c w = record w { calls = c ∷ w.calls }

  -- `gProxyCtx.client.shutdown()`.
  abbrev pub client_shutdown : World → World
  client_shutdown w = change shutdown_client (run Call.shutdown w)
