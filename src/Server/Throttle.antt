-- ===== src/Server/Throttle.antt =====
-- src/server_adaptor/network_module.cpp, the counters of the requests in progress: the Get…Cas
-- functions count a request in, and tell the value that the caller then waits on; the Put…Cas
-- functions count it out. A Put…Cas function tests the counter before it reads the old value of its
-- compare-and-swap, so other threads run between the two: the functions with `_at` take the value that
-- was tested. Throttle/Cas has the loops themselves.
pub mod Cas
pub mod Balance
pub mod Drift
use global_cache_adaptor.Common.{
  ℕ, ◌+◌, ◌-◌, ◌≡◌, Bool, Option, none, some, ◌==◌, ltb, if◌then◌else◌, u64,
}

-- What the accelerator sets: `sa->GetWriteOpThrottle()` and the like. 0 is no limit.
pub record Limits : Type 0 where
  pub write_op : ℕ
  pub read_op : ℕ
  pub write_bw_limit : ℕ
  pub read_bw_limit : ℕ
  pub write_iops_limit : ℕ

-- The fields of NetworkModule that the functions below touch, all of 64 bits but `is_gc`.
pub record Counters : Type 0 where
  pub sa_op_throttle : ℕ  -- qosParam.saOpThrottle
  pub is_gc : ℕ  -- qosInfo.isGc
  pub lwt_count : ℕ
  pub lwt_write_count : ℕ
  pub lwt_read_count : ℕ
  pub write_bw : ℕ
  pub read_bw : ℕ
  pub write_iops : ℕ

-- What a Get…Cas call leaves: the counters, and the old value that it waits on, if it waits at all.
abbrev pub Counted : Type 0
Counted = Counters × Option ℕ

unfoldable pub get_lwt_cas : ℕ → Counters → Counted
get_lwt_cas c t =
    if t.sa_op_throttle == 0
    then (t, none)
    else (record t { lwt_count = u64 (t.lwt_count + c) }, some t.lwt_count)

-- `oldCount - 1` wraps at 0.
unfoldable pub put_lwt_cas : Counters → Counters
put_lwt_cas t =
    if t.sa_op_throttle == 0
    then t
    else record t { lwt_count = u64 (t.lwt_count + 18446744073709551615) }

unfoldable pub get_write_lwt_cas : Limits → ℕ → Counters → Counted
get_write_lwt_cas l c t =
    if l.write_op == 0
    then (t, none)
    else (record t { lwt_write_count = u64 (t.lwt_write_count + c) }, some t.lwt_write_count)

abbrev pub put_write_lwt_at : ℕ → Counters → Counters
put_write_lwt_at tested t =
    if tested == 0
    then t
    else record t { lwt_write_count = u64 (t.lwt_write_count + 18446744073709551615) }

-- Each call as a whole, with no other thread between its test and its swap, is put_…_cas.
unfoldable pub put_write_lwt_cas : Counters → Counters
put_write_lwt_cas t = put_write_lwt_at t.lwt_write_count t

unfoldable pub get_read_lwt_cas : Limits → ℕ → Counters → Counted
get_read_lwt_cas l c t =
    if l.read_op == 0
    then (t, none)
    else (record t { lwt_read_count = u64 (t.lwt_read_count + c) }, some t.lwt_read_count)

abbrev pub put_read_lwt_at : ℕ → Counters → Counters
put_read_lwt_at tested t =
    if tested == 0
    then t
    else record t { lwt_read_count = u64 (t.lwt_read_count + 18446744073709551615) }

unfoldable pub put_read_lwt_cas : Counters → Counters
put_read_lwt_cas t = put_read_lwt_at t.lwt_read_count t

unfoldable pub get_write_iops_cas : Limits → ℕ → Counters → Counted
get_write_iops_cas l c t =
    if l.write_iops_limit == 0
    then (t, none)
    else if t.is_gc == 0
    then (t, none)
    else (record t { write_iops = u64 (t.write_iops + c) }, some t.write_iops)

abbrev pub put_write_iops_at : ℕ → ℕ → Counters → Counters
put_write_iops_at tested c t =
    if ltb tested c
    then t
    else if t.is_gc == 0
    then t
    else record t { write_iops = u64 (t.write_iops + 18446744073709551616 - c) }

unfoldable pub put_write_iops_cas : ℕ → Counters → Counters
put_write_iops_cas c t = put_write_iops_at t.write_iops c t

unfoldable pub get_write_bw_cas : Limits → ℕ → Counters → Counted
get_write_bw_cas l c t =
    if l.write_bw_limit == 0
    then (t, none)
    else (record t { write_bw = u64 (t.write_bw + c) }, some t.write_bw)

abbrev pub put_write_bw_at : ℕ → ℕ → Counters → Counters
put_write_bw_at tested c t =
    if ltb tested c then t else record t { write_bw = u64 (t.write_bw + 18446744073709551616 - c) }

unfoldable pub put_write_bw_cas : ℕ → Counters → Counters
put_write_bw_cas c t = put_write_bw_at t.write_bw c t

unfoldable pub get_read_bw_cas : Limits → ℕ → Counters → Counted
get_read_bw_cas l c t =
    if l.read_bw_limit == 0
    then (t, none)
    else (record t { read_bw = u64 (t.read_bw + c) }, some t.read_bw)

abbrev pub put_read_bw_at : ℕ → ℕ → Counters → Counters
put_read_bw_at tested c t =
    if ltb tested c then t else record t { read_bw = u64 (t.read_bw + 18446744073709551616 - c) }

unfoldable pub put_read_bw_cas : ℕ → Counters → Counters
put_read_bw_cas c t = put_read_bw_at t.read_bw c t

-- SaOpReq.optionType: GCACHE_DEFAULT, GCACHE_WRITE and GCACHE_READ.
pub data OptionType : Type 0 where
  gcache_default gcache_write gcache_read : OptionType

-- The counters after the calls that OpHandlerThread makes for one request, in its order.
unfoldable pub admit : Limits → OptionType → ℕ → Counters → Counters
unfolding get_lwt_cas get_write_lwt_cas get_write_iops_cas get_write_bw_cas get_read_lwt_cas
    get_read_bw_cas
admit l gcache_default len t = (get_lwt_cas 1 t).0
admit l gcache_write len t =
    let t₁ = (get_lwt_cas 1 t).0 in
    let t₂ = (get_write_lwt_cas l 1 t₁).0 in
    let t₃ = (get_write_iops_cas l 1 t₂).0 in (get_write_bw_cas l len t₃).0
admit l gcache_read len t =
    let t₁ = (get_lwt_cas 1 t).0 in
    let t₂ = (get_read_lwt_cas l 1 t₁).0 in (get_read_bw_cas l len t₂).0

-- The counters after the calls that FinishCacheOps makes when the request is answered.
unfoldable pub release : OptionType → ℕ → Counters → Counters
unfolding put_lwt_cas put_write_lwt_cas put_write_iops_cas put_write_bw_cas put_read_lwt_cas
    put_read_bw_cas
release gcache_default len t = put_lwt_cas t
release gcache_write len t =
    put_lwt_cas (put_write_lwt_cas (put_write_iops_cas 1 (put_write_bw_cas len t)))
release gcache_read len t = put_lwt_cas (put_read_lwt_cas (put_read_bw_cas len t))
