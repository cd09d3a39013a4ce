-- ===== src/Server/Quota.antt =====
-- src/server_adaptor/network_module.cpp, LimitWriteIops and LimitWriteBw: a thread that has used up
-- the quota of a cycle sleeps until the cycle ends. The clock is given by its readings, in
-- nanoseconds, and the accelerator by its answers; the source's milliseconds are signed.
pub mod Pace
pub mod Stall
use global_cache_adaptor.Common.{
  ℕ, zero, suc, ◌+◌, ◌-◌, ◌*◌, ◌/◌, Bool, true, false, ◌||◌, List, [], ◌∷◌, Option, none, some, leb,
  ltb, ◌==◌, if◌then◌else◌, u32, u64,
}
use mathlib.Core.Option
use global_cache_adaptor.Common.Int.{ℤ, pos, negsuc, neg}
use global_cache_adaptor.Server.Op.{OpCode, OsdOp}

-- A cycle of a counter: when it began, what was counted in it, and its quota.
pub record Cycle : Type 0 where
  pub begin : ℕ
  pub period : ℕ
  pub quota : ℕ

-- The readings of the clock in one call, and what an uninitialised interval holds.
pub record Readings : Type 0 where
  pub junk : ℤ
  pub at_entry : ℕ
  pub at_begin : ℕ
  pub at_end : ℕ

-- `duration_cast<milliseconds>(now - begin)`.
abbrev pub elapsed : ℕ → ℕ → ℤ
elapsed begin now =
    if leb begin now then pos ((now - begin) / 1000000) else neg ((begin - now) / 1000000)

abbrev pub at_least : ℕ → ℤ → Bool
at_least cycle (pos n) = leb cycle n
at_least cycle (negsuc n) = false

abbrev pub at_most : ℕ → ℤ → Bool
at_most cycle (pos n) = leb n cycle
at_most cycle (negsuc n) = true

-- `uint iWait = getQuotaCycle - count`.
abbrev pub wait_ms : ℕ → ℤ → ℕ
wait_ms cycle (pos n) = u32 (cycle - n)
wait_ms cycle (negsuc n) = u32 (cycle + n + 1)

-- The microseconds of the last sleep, 0 for none.
unfoldable pub wait_out : ℕ → ℕ → ℕ → ℕ
wait_out cycle begin now =
    let t = elapsed begin now in if at_most cycle t then u32 (wait_ms cycle t * 1000) else 0

-- The interval that the loop tests, which is not set when the clock went back.
abbrev pub interval : Readings → ℕ → ℤ
interval r begin = if leb begin r.at_entry then pos ((r.at_entry - begin) / 1000000) else r.junk

abbrev pub is_write : OpCode → Bool
is_write OpCode.writefull = true
is_write OpCode.write = true
is_write c = false

unfoldable pub write_count : List OsdOp → ℕ
write_count [] = 0
write_count (o ∷ os) = (if is_write o.op then 1 else 0) + write_count os

unfoldable pub write_kb : List OsdOp → ℕ
write_kb [] = 0
write_kb (o ∷ os) = (if is_write o.op then o.len / 1024 else 0) + write_kb os

-- The quota of a cycle for a ratio per second: `writeRatio` has 32 bits, the throttle of the
-- operations has 64. `none` is the division by 0 of a cycle of 0.
unfoldable pub cycle_bw : ℕ → ℕ → Option ℕ
cycle_bw cycle ratio =
    if cycle == 0
    then none
    else some (if ltb cycle 1000 then ratio / (1000 / cycle) else u32 (ratio * (cycle / 1000)))

unfoldable pub cycle_iops : ℕ → ℕ → Option ℕ
cycle_iops cycle ratio =
    if cycle == 0
    then none
    else some (if ltb cycle 1000 then ratio / (1000 / cycle) else u64 (ratio * (cycle / 1000)))

-- The loops over the accelerator's answers, one for each cycle slept: the quota of the first that
-- lets writes pass. `none` is a loop that still waits, or that divides by 0; the quota is computed
-- before the ratio is tested.
unfoldable pub next_bw : ℕ → List ℕ → Option ℕ
next_bw cycle [] = none
next_bw cycle (r ∷ rs) =
    let rest = next_bw cycle rs in
    elim (cycle_bw cycle r) [ none ↦ none | some q ↦ if r == 0 then rest else some q ]

unfoldable pub next_iops : ℕ → List ℕ → Option ℕ
next_iops cycle [] = none
next_iops cycle (r ∷ rs) =
    let rest = next_iops cycle rs in
    elim (cycle_iops cycle r) [ none ↦ none | some q ↦ if q == 0 then rest else some q ]

-- The cycle to count in: the current one, or a new one with the quota that is waited for.
abbrev pub enter_cycle : ℕ → Readings → Option ℕ → Cycle → Option Cycle
enter_cycle cycle r quota c =
    if at_least cycle (interval r c.begin)
    then Option.map (λ q. record { begin = r.at_begin; period = 0; quota = q }) quota
    else some c

-- The count of a message, and the sleep if the quota is used up.
abbrev pub count_in : ℕ → Readings → ℕ → Cycle → Cycle × ℕ
count_in cycle r n c =
    let p = u64 (c.period + n) in
    (record c { period = p }, if leb c.quota p then wait_out cycle c.begin r.at_end else 0)

-- LimitWriteBw: the cycle, and the microseconds slept at the end.
unfoldable pub limit_write_bw : ℕ → Readings → List ℕ → List OsdOp → Cycle → Option (Cycle × ℕ)
limit_write_bw cycle r ratios ops c =
    Option.map (count_in cycle r (write_kb ops)) (enter_cycle cycle r (next_bw cycle ratios) c)

-- LimitWriteIops, where the first answer of the accelerator is the quota within a cycle.
unfoldable pub limit_write_iops :
    ℕ → Bool → Readings → ℕ → List ℕ → List OsdOp → Cycle → Option (Cycle × ℕ)
limit_write_iops cycle is_gc r first ratios ops c =
    if is_gc
    then Option.map (count_in cycle r (write_count ops))
        (enter_cycle cycle r (next_iops cycle ratios) (record c { quota = first }))
    else some (c, 0)
