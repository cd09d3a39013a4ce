-- ===== src/Server/Quota/Stall.antt =====
-- LimitWriteIops: a throttle that it never lets pass.
use global_cache_adaptor.Common.{
  ℕ, ◌/◌, ◌<◌, ◌≡◌, refl, inl, inr, arith, true, List, [], ◌∷◌, none, ltb, ◌==◌, Bool-cases,
}
use native.Mathlib.Nat.{div-eq_of_lt}
use global_cache_adaptor.Server.Op.{OsdOp}
use global_cache_adaptor.Server.Quota.{
  Cycle, Readings, at_least, interval, cycle_iops, next_iops, limit_write_iops,
}

-- Every answer is below the number of cycles in a second.
abbrev pub AreBelow : ℕ → List ℕ → Type 0
AreBelow n [] = Unit
AreBelow n (r ∷ rs) = (r < n) × AreBelow n rs

-- The next answer lets nothing pass.
next_iops_skip :
    (cycle ratio : ℕ) (rs : List ℕ)
    → cycle < 1000
    → ratio < 1000 / cycle
    → next_iops cycle rs ≡ none
    → next_iops cycle (ratio ∷ rs) ≡ none
unfolding next_iops cycle_iops
next_iops_skip cycle ratio rs h g e = elim (Bool-cases (cycle == 0)) [
  | inl z ↦ rw (next_iops, z) refl
  | inr z ↦
      let y : ltb cycle 1000 ≡ true = ground arith in
      let d : ratio / (1000 / cycle) ≡ 0 = div-eq_of_lt g in rw (next_iops, z, y, d) e
]

next_iops-none :
    (cycle : ℕ) (ratios : List ℕ)
    → cycle < 1000
    → AreBelow (1000 / cycle) ratios
    → next_iops cycle ratios ≡ none
unfolding next_iops
next_iops-none cycle [] h a = refl
next_iops-none cycle (r ∷ rs) h (g, a) = next_iops_skip cycle r rs h g (next_iops-none cycle rs h a)

-- During a collection of garbage, with cycles of less than a second, a call of LimitWriteIops that
-- finds its cycle over does not return as long as every throttle that the accelerator answers is
-- below the number of cycles in a second, even though it is not zero.
pub limit_write_iops_stalls :
    (cycle first : ℕ) (ratios : List ℕ) (r : Readings) (ops : List OsdOp) (c : Cycle)
    → cycle < 1000
    → AreBelow (1000 / cycle) ratios
    → at_least cycle (interval r c.begin) ≡ true
    → limit_write_iops cycle true r first ratios ops c ≡ none
unfolding limit_write_iops
limit_write_iops_stalls cycle first ratios r ops c h a y =
    rw (limit_write_iops, y, next_iops-none cycle ratios h a) refl
