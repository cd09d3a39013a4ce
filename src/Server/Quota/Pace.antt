-- ===== src/Server/Quota/Pace.antt =====
-- LimitWriteIops and LimitWriteBw: who uses up a quota returns at the end of its cycle.
use global_cache_adaptor.Common.{
  ℕ, ◌+◌, ◌*◌, ◌/◌, ◌≤◌, ◌<◌, ◌≡◌, ◌⊎◌, Option, some, ltb, if◌then◌else◌, u32, u64,
}
use mathlib.Core.Option
use global_cache_adaptor.Server.Quota.{Cycle, Readings}

-- A call that counts `n` and ends: it counts in a cycle that began in the call, with the quota `q`, if
-- the one before was over at the entry, and else in the one before; and if the quota is used up, the call returns no earlier than the cycle ends.
-- If it is not, the call does not sleep.
pub record IsPaced (cycle : ℕ) (r : Readings) (n q : ℕ) (c c' : Cycle) (us : ℕ) : Type 0 where
  pub counted :
      ((c.begin + cycle * 1000000 ≤ r.at_entry)
        × (c' ≡ record { begin = r.at_begin; period = u64 n; quota = q }))
      ⊎ ((r.at_entry < c.begin + cycle * 1000000) × (c' ≡ record c { period = u64 (c.period + n) }))
  pub paced : c'.quota ≤ c'.period → c'.begin + cycle * 1000000 ≤ r.at_end + us * 1000
  pub unhindered : c'.period < c'.quota → us ≡ 0

-- The call of a limit, with the cycle and the sleep at its end.
abbrev pub Paces : ℕ → Readings → ℕ → ℕ → Cycle → Option (Cycle × ℕ) → Type 0
Paces cycle r n q c result =
    (c' : Cycle) × (us : ℕ) × (result ≡ some (c', us)) × IsPaced cycle r n q c c' us

-- The kilobytes of a cycle of so many milliseconds for a ratio per second, in 32 bits: by the number
-- of cycles in a second, or by the number of seconds in a cycle.
abbrev pub quota_of : ℕ → ℕ → ℕ
quota_of cycle q = if ltb cycle 1000 then q / (1000 / cycle) else u32 (q * (cycle / 1000))
