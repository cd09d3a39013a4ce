-- ===== src/Server/Throttle/Drift.antt =====
-- The counters of src/server_adaptor/network_module.cpp when the limits change between the admission
-- of a request and its answer.
use global_cache_adaptor.Common.{
  ℕ, ◌+◌, ◌-◌, ◌≤◌, ◌<◌, ◌≡◌, ◌≢◌, arith, ◌==◌, ltb, u64, if◌then◌else◌,
}
use global_cache_adaptor.Server.Throttle.{Limits, Counters, gcache_write, admit, release}

-- With a limit on write operations per second: a write that is admitted during garbage collection
-- and answered after it leaves its operation in the counter of write operations per second for good.
pub write_iops_residue :
    (l : Limits) (n : ℕ) (t : Counters)
    → l.write_iops_limit ≢ 0
    → t.is_gc ≢ 0
    → t.write_iops + 1 < 18446744073709551616
    → (release gcache_write n (record (admit l gcache_write n t) { is_gc = 0 })).write_iops
      ≡ t.write_iops + 1
unfolding admit release
write_iops_residue l n t on gc b = ground arith

admit-write_bw :
    (l : Limits) (n : ℕ) (t : Counters)
    → (admit l gcache_write n t).write_bw
      ≡ (if l.write_bw_limit == 0 then t.write_bw else u64 (t.write_bw + n))
unfolding admit
admit-write_bw l n t = ground arith

release-write_bw :
    (n : ℕ) (t : Counters)
    → t.write_bw < 18446744073709551616
    → (release gcache_write n t).write_bw
      ≡ (if ltb t.write_bw n then t.write_bw else t.write_bw - n)
unfolding release
release-write_bw n t b = ground arith

-- From a counter of 0, and for 0 < d ≤ n < 2^64: a write of `d` that is admitted with no limit on
-- the bandwidth, and one of `n` that is admitted with one, leave `n - d` in the counter of the write
-- bandwidth when both are answered.
pub write_bw_residue :
    (free limited : Limits) (d n : ℕ) (t : Counters)
    → free.write_bw_limit ≡ 0
    → limited.write_bw_limit ≢ 0
    → t.write_bw ≡ 0
    → 0 < d
    → d ≤ n
    → n < 18446744073709551616
    → let t₁ = admit free gcache_write d t in
      let t₂ = admit limited gcache_write n t₁ in
      (release gcache_write n (release gcache_write d t₂)).write_bw ≡ n - d
write_bw_residue free limited d n t off on z pos le b =
    let t₁ = admit free gcache_write d t in
    let t₂ = admit limited gcache_write n t₁ in
    let in_range : t₂.write_bw < 18446744073709551616 =
      ground (arith, admit-write_bw limited n t₁) in
    let released : (release gcache_write d t₂).write_bw < 18446744073709551616 =
      ground (arith, release-write_bw d t₂ in_range) in
    ground (
      arith,
      admit-write_bw free d t,
      admit-write_bw limited n t₁,
      release-write_bw d t₂ in_range,
      release-write_bw n (release gcache_write d t₂) released,
    )
