-- ===== src/Proxy/OsdMap.antt =====
-- src/ceph_proxy/CephMsgr.cc, class ProxyMsgr: the local copy of the cluster's map, the messages that
-- bring new epochs of it, and the notice of its pools. An epoch is an unsigned of 32 bits. The locks
-- and the logging are left out: each handler runs under its lock.
use global_cache_adaptor.Common.{
  ℕ, zero, suc, ◌+◌, ◌-◌, Bool, true, false, ◌||◌, not, List, [], ◌∷◌, ◌++◌, Option, none, some,
  ltb, leb, ◌==◌, if◌then◌else◌, u32,
}
pub mod Epochs
pub mod Follow
pub mod Capacity
use mathlib.Core.Option
use global_cache_adaptor.Common.Bytes.{Bytes}
use global_cache_adaptor.Common.Int.{ℤ, pos, negsuc, neg, is_zero}
use global_cache_adaptor.Common.Number.{to_u32}
use global_cache_adaptor.Common.OrdMap.{OrdMap, lookup}
use global_cache_adaptor.Proxy.CcmAdaptor.{
  NotifyFn, report_create_pool, register_pool_create_report_fn,
}

-- A pool of Ceph's map, as far as the source reads it.
pub record PgPool : Type 0 where
  pub is_replicated : Bool
  pub size : ℕ
  pub erasure_code_profile : Bytes

-- Ceph's class OSDMap. `decode` reads an encoded map into an object, `fresh` is a new object.
pub record OsdMapApi (Map Inc : Type 0) : Type 0 where
  pub fresh : Map
  pub epoch : Map → ℕ
  pub decode : Map → Bytes → Map
  pub apply_incremental : Map → Inc → Map
  pub pause_rd : Map → Bool
  pub pause_wr : Map → Bool
  pub pools : Map → List (ℤ × PgPool)
  pub profile : Map → Bytes → List (Bytes × Bytes)

-- Ceph's message MOSDMap: `last` and `oldest` are what get_last() and get_oldest() answer.
pub record MosdMap (Inc : Type 0) : Type 0 where
  pub fsid : ℕ
  pub oldest : ℕ
  pub last : ℕ
  pub incremental_maps : OrdMap Inc
  pub maps : OrdMap Bytes

-- What ProxyMsgr asks of the monitor's client, and the calls of the function that is told of the
-- pools. The Boolean of `sub_want` is the flag CEPH_SUBSCRIBE_ONETIME.
pub data Event : Type 0 where
  sub_want : ℕ → Bool → Event
  renew_subs : Event
  sub_got : ℕ → Event
  notified : List ℕ → Event

pub record ProxyMsgr (Map : Type 0) : Type 0 where
  pub osdmap : Map
  pub need_sub_continuous : Bool
  pub ccm_adaptor : Option (Option NotifyFn)
  pub log : List Event

abbrev pub notices : List (List ℕ) → List Event
notices [] = []
notices (ps ∷ rest) = notified ps ∷ notices rest

-- The pools of the map that PoolChangeNotify reports: the identifiers that are not larger than an
-- unsigned of 32 bits, cast to one.
unfoldable pub reported_pools : List (ℤ × PgPool) → List ℕ
reported_pools [] = []
reported_pools ((pos n, p) ∷ ps) =
    let rest = reported_pools ps in if ltb 4294967295 n then rest else n ∷ rest
reported_pools ((negsuc n, p) ∷ ps) = to_u32 (negsuc n) ∷ reported_pools ps

module _ {Map Inc : Type 0} (api : OsdMapApi Map Inc) where
  -- The constructor, with the adaptor that InitCCMAdaptor allocates.
  unfoldable pub new_msgr : ProxyMsgr Map
  new_msgr = record {
    osdmap = api.fresh;
    need_sub_continuous = true;
    ccm_adaptor = some none;
    log = [];
  }

  unfoldable pub pool_change_notify : ProxyMsgr Map → ℤ × ProxyMsgr Map
  pool_change_notify s = elim s.ccm_adaptor [
    | none ↦ (pos 0, s)
    | some f ↦
        let (ret, calls) = report_create_pool (reported_pools (api.pools s.osdmap)) f in
        (if is_zero ret then pos 0 else neg 1, record s { log = s.log ++ notices calls })
  ]

  -- RegisterPoolNotifyFn: the first return drops the adaptor's answer, and what it registered stays.
  unfoldable pub register_pool_notify_fn : Option NotifyFn → ProxyMsgr Map → ℤ × ProxyMsgr Map
  register_pool_notify_fn fn s = elim s.ccm_adaptor [
    | none ↦ (neg 1, s)
    | some f ↦
        let (ret, g) = register_pool_create_report_fn fn f in
        let s1 = record s { ccm_adaptor = some g } in
        let (told, s2) = pool_change_notify s1 in
        if is_zero ret then if is_zero told then (pos 0, s2) else (neg 1, s2) else (neg 1, s1)
  ]

  unfoldable pub renew_osd_map : ℕ → ProxyMsgr Map → ProxyMsgr Map
  renew_osd_map e s =
      let need_sub_once =
        not (s.need_sub_continuous || api.pause_rd s.osdmap || api.pause_wr s.osdmap) in
      record s { log = s.log ++ sub_want e need_sub_once ∷ renew_subs ∷ [] }

  -- `osdmap->get_epoch() ? osdmap->get_epoch() + 1 : 0`.
  abbrev pub wanted : Map → ℕ
  wanted o = if api.epoch o == 0 then 0 else u32 (api.epoch o + 1)

  -- `needSubContinuous = false`, and the renewal behind it.
  unfoldable pub miss : ℕ → ProxyMsgr Map → ProxyMsgr Map
  miss e s = renew_osd_map e (record s { need_sub_continuous = false })

  -- `if (!needSubContinuous)`, and the renewal in it.
  unfoldable pub resume : ProxyMsgr Map → ProxyMsgr Map
  resume s =
      if s.need_sub_continuous
      then s
      else renew_osd_map (wanted s.osdmap) (record s { need_sub_continuous = true })

  -- The increment that the first test of the loop finds.
  abbrev pub incremental_at : MosdMap Inc → ℕ → Map → Option Inc
  incremental_at m e o = if e == u32 (api.epoch o + 1) then lookup e m.incremental_maps else none

  -- The loop of UpdateOSDMap from epoch `e`: the map, and whether the loop ran to its end. `none` is
  -- out of fuel.
  unfoldable pub update_loop : ℕ → MosdMap Inc → ℕ → Map → Option (Map × Bool)
  update_loop zero m e o = none
  update_loop (suc fuel) m e o = elim (leb e m.last) [
    | false ↦ some (o, true)
    | true ↦ elim (incremental_at m e o) [
      | some i ↦ update_loop fuel m (u32 (e + 1)) (api.apply_incremental o i)
      | none ↦ elim (lookup e m.maps) [
        | some b ↦ update_loop fuel m (u32 (e + 1)) (api.decode api.fresh b)
        | none ↦ elim (leb m.oldest e) [
          | true ↦ some (o, false)
          | false ↦ update_loop fuel m (u32 (m.oldest - 1 + 1)) o
        ]
      ]
    ]
  ]

  abbrev pub end_update : Map × Bool → ProxyMsgr Map → ProxyMsgr Map
  end_update (o, true) s = resume (record s { osdmap = o })
  end_update (o, false) s = miss (wanted o) (record s { osdmap = o })

  -- UpdateOSDMap, with one turn of the loop for each epoch up to the last, and two more.
  unfoldable pub update_osd_map : MosdMap Inc → ProxyMsgr Map → Option (ProxyMsgr Map)
  update_osd_map m s =
      Option.map (λ end. end_update end s)
        (update_loop (m.last + 2) m (u32 (api.epoch s.osdmap + 1)) s.osdmap)

  unfoldable pub init_osd_map : MosdMap Inc → ProxyMsgr Map → ProxyMsgr Map
  init_osd_map m s = elim (lookup m.last m.maps) [
    | some b ↦ resume (record s { osdmap = api.decode s.osdmap b })
    | none ↦ miss 0 s
  ]

  abbrev pub got : ProxyMsgr Map → ProxyMsgr Map
  got s = record s { log = s.log ++ sub_got (api.epoch s.osdmap) ∷ [] }

  -- handle_osd_map, for a cluster with identifier `fsid`.
  unfoldable pub handle_osd_map : ℕ → MosdMap Inc → ProxyMsgr Map → Option (ProxyMsgr Map)
  handle_osd_map fsid m s =
      if not (m.fsid == fsid)
      then some s
      else if leb m.last (api.epoch s.osdmap)
      then some (got (resume s))
      else Option.map (λ s1. (pool_change_notify (got s1)).1)
          (if api.epoch s.osdmap == 0 then some (init_osd_map m s) else update_osd_map m s)
