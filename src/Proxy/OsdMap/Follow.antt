-- ===== src/Proxy/OsdMap/Follow.antt =====
-- handle_osd_map: the local map follows the cluster's.
use global_cache_adaptor.Common.{
  ℕ, suc, ◌+◌, ◌≤◌, ◌<◌, ◌≡◌, refl, sym, ap, inl, inr, arith, Bool, true, false, ◌||◌, not, List,
  [], ◌∷◌, ◌++◌, Option, none, some, leb, ◌==◌, ==_refl, if◌then◌else◌, u32, Bool-cases,
  Option-cases, append-nil, append_assoc,
}
use mathlib.Core.Option
use global_cache_adaptor.Common.OrdMap.{lookup}
use global_cache_adaptor.Proxy.CcmAdaptor.{NotifyFn, report_create_pool}
use global_cache_adaptor.Proxy.OsdMap.{
  OsdMapApi, MosdMap, Event, sub_want, renew_subs, sub_got, ProxyMsgr, notices, reported_pools,
  pool_change_notify, resume, miss, got, update_loop, end_update, update_osd_map, init_osd_map,
  handle_osd_map, renew_osd_map,
}
use global_cache_adaptor.Proxy.OsdMap.Epochs.{
  IsPublished, Lacks, End, reached, stopped, u32-suc, update_loop-End,
}

module _ {Map Inc : Type 0} (api : OsdMapApi Map Inc) where
  abbrev pub msgr : Map → Bool → Option (Option NotifyFn) → List Event → ProxyMsgr Map
  msgr o n c l = record { osdmap = o; need_sub_continuous = n; ccm_adaptor = c; log = l }

  -- The epoch behind epoch `j`, and 0 for no map.
  abbrev pub behind : ℕ → ℕ
  behind j = if j == 0 then 0 else u32 (j + 1)

  -- What is asked of the monitors when the copy is up to date at epoch `j`, by the flag before.
  abbrev pub asks_more : Bool → ℕ → List Event
  asks_more n j = if n then [] else sub_want (behind j) false ∷ renew_subs ∷ []

  -- What is asked of them when an epoch behind `j` is missing: once, unless the cluster is paused.
  abbrev pub asks_missing : ℕ → Map → List Event
  asks_missing j o = sub_want (behind j) (not (api.pause_rd o || api.pause_wr o)) ∷ renew_subs ∷ []

  -- The call of the function that is told of the pools, where there is one.
  abbrev pub tells : Option (Option NotifyFn) → Map → List Event
  tells none o = []
  tells (some f) o = notices (report_create_pool (reported_pools (api.pools o)) f).1

  resume-msgr :
      (o : Map) (n : Bool) (c : Option (Option NotifyFn)) (l : List Event)
      → resume api (msgr o n c l) ≡ msgr o true c (l ++ asks_more n (api.epoch o))
  unfolding resume renew_osd_map
  resume-msgr o true c l = ap (msgr o true c) (sym (append-nil l))
  resume-msgr o false c l = refl

  notify-msgr :
      (o : Map) (n : Bool) (c : Option (Option NotifyFn)) (l : List Event)
      → (pool_change_notify api (got api (msgr o n c l))).1
        ≡ msgr o n c (l ++ sub_got (api.epoch o) ∷ tells c o)
  unfolding pool_change_notify
  notify-msgr o n none l = refl
  notify-msgr o n (some f) l =
      ap (msgr o n (some f)) (append_assoc l (sub_got (api.epoch o) ∷ []) (tells (some f) o))

  -- What a message of epochs up to `last` makes of a copy of epoch `k`.
  pub data Followed (at : ℕ → Map) (m : MosdMap Inc) (k : ℕ) (n : Bool)
      (c : Option (Option NotifyFn)) (l : List Event) : Option (ProxyMsgr Map) → Type 0 where
    up_to_date :
        m.last ≤ k
        → Followed at m k n c l (some (msgr (at k) true c (l ++ asks_more n k ++ sub_got k ∷ [])))
    caught_up :
        k < m.last
        → Followed at m k n c l (
            some (
              msgr
                (at m.last)
                true
                c
                (l ++ asks_more n m.last ++ sub_got m.last ∷ tells c (at m.last))))
    left_behind :
        (j e : ℕ)
        → k ≤ j
        → j < m.last
        → Lacks api m j e
        → Followed at m k n c l
            (some (msgr (at j) false c (l ++ asks_missing j (at j) ++ sub_got j ∷ tells c (at j))))
    left_empty :
        k ≡ 0
        → 0 < m.last
        → lookup m.last m.maps ≡ none
        → Followed at m k n c l
            (some (msgr (at 0) false c (l ++ asks_missing 0 (at 0) ++ sub_got 0 ∷ tells c (at 0))))

  module _ (at : ℕ → Map) (m : MosdMap Inc) (p : IsPublished api at m) where
    finish-Followed :
        (k : ℕ) (n : Bool) (c : Option (Option NotifyFn)) (l : List Event) (r : Option (Map × Bool))
        → k < m.last
        → End api at m k r
        → Followed at m k n c l (
            Option.map
              (λ s1. (pool_change_notify api (got api s1)).1)
              (Option.map (λ end. end_update api end (msgr (at k) n c l)) r))
    unfolding miss renew_osd_map
    finish-Followed k n c l r h reached =
        rw
          (
            resume-msgr (at m.last) n c l,
            notify-msgr (at m.last) true c (l ++ asks_more n (api.epoch (at m.last))),
            p.epoch_at m.last (omega (arith, p.last-lt)),
          )
          (caught_up h)
    finish-Followed k n c l r h (stopped j e g f x) =
        rw
          (
            notify-msgr (at j) false c (l ++ asks_missing (api.epoch (at j)) (at j)),
            p.epoch_at j (omega (arith, p.last-lt)),
          )
          (left_behind j e g f x)

    init-Followed :
        (n : Bool) (c : Option (Option NotifyFn)) (l : List Event)
        → 0 < m.last
        → Followed at m 0 n c l
            (some (pool_change_notify api (got api (init_osd_map api m (msgr (at 0) n c l)))).1)
    unfolding miss renew_osd_map init_osd_map
    init-Followed n c l h = elim (Option-cases (lookup m.last m.maps)) [
      | inr (b, f) ↦
          rw
            (
              init_osd_map,
              f,
              p.full m.last b (at 0) f,
              resume-msgr (at m.last) n c l,
              notify-msgr (at m.last) true c (l ++ asks_more n (api.epoch (at m.last))),
              p.epoch_at m.last (omega (arith, p.last-lt)),
            )
            (caught_up h)
      | inl f ↦
          rw
            (
              init_osd_map,
              f,
              notify-msgr (at 0) false c (l ++ asks_missing 0 (at 0)),
              p.epoch_at 0 (omega arith),
            )
            (left_empty refl h f)
    ]

    -- When the maps that a message holds are those of the cluster at their epochs, its oldest epoch is
    -- not behind its last, and that is below 2^32 - 1: handle_osd_map ends, and a copy that is the
    -- cluster's map of an epoch k below 2^32 is one of a later or the same epoch then. Either k is the
    -- message's last epoch or a later one, and the copy stays; or the copy is of the last epoch; in
    -- both cases the subscription is continuous, and renewed from the next epoch if it was not. Or the
    -- copy is of an epoch j before the last, the next one is asked for, once unless the cluster is
    -- paused, and the message lacks what follows: for the epoch e behind j it holds neither a whole
    -- map nor an increment, or e is its oldest, there is no whole map of it, and it is not the next.
    -- Or k is 0, the copy is empty, and the message has no whole map of its last epoch. The epoch of
    -- the copy is confirmed each time, and the pools are reported unless nothing is new.
    pub handle_osd_map-Followed :
        (k : ℕ) (n : Bool) (c : Option (Option NotifyFn)) (l : List Event)
        → k < 4294967296
        → Followed at m k n c l (handle_osd_map api m.fsid m (msgr (at k) n c l))
    unfolding handle_osd_map update_osd_map
    handle_osd_map-Followed k n c l b = elim (Bool-cases (leb m.last k)) [
      | inl y ↦
          rw
            (
              handle_osd_map,
              ==_refl m.fsid,
              p.epoch_at k b,
              y,
              resume-msgr (at k) n c l,
              p.epoch_at k b,
            )
            (up_to_date (ground arith))
      | inr y ↦ elim (Bool-cases (k == 0)) [
        | inl z ↦
            let q : k ≡ 0 = ground arith in
            rw (handle_osd_map, ==_refl m.fsid, p.epoch_at k b, y, z, q)
              (init-Followed n c l (ground arith))
        | inr z ↦
            rw (handle_osd_map, ==_refl m.fsid, p.epoch_at k b, y, z)
              (finish-Followed k n c l (update_loop api (m.last + 2) m (u32 (k + 1)) (at k))
                (ground arith)
                (rw (u32-suc api at m p k (ground arith)) (
                  update_loop-End api at m p (m.last + 2) (suc k) k (omega arith) (ground arith)
                    (inl refl) (omega arith))))
      ]
    ]
