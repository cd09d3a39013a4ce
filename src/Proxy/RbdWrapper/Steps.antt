-- ===== src/Proxy/RbdWrapper/Steps.antt =====
-- src/ceph_proxy/RbdWrapper.cc: the tests behind a call, and the context that a step leaves.
use global_cache_adaptor.Common.{
  ◌≡◌, refl, ap, inl, inr, Bool, true, false, List, if◌then◌else◌, Bool-cases,
}
use mathlib.Core.Path.{subst}
use global_cache_adaptor.Common.Int.{ℤ, is_neg, is_zero}
use global_cache_adaptor.Proxy.RbdWrapper.{
  Call, Cluster, ProxyCtx, World, check, check_zero, init_client,
}
use global_cache_adaptor.Proxy.RbdWrapper.Client.{more_ref, first_ref}

-- A property of what `check` gives holds when both ways give it.
pub check_lem {ℓ κ μ} :
    {B : Type ℓ} {R : Type κ} (P : R → Type μ) (p : ℤ × B) (fail next : ℤ → B → R)
    → (is_neg p.0 ≡ true → P (fail p.0 p.1))
    → (is_neg p.0 ≡ false → P (next p.0 p.1))
    → P (check p fail next)
unfolding check
check_lem P p fail next f g = elim (Bool-cases (is_neg p.0)) [
  | inl y ↦ rw y (f y)
  | inr y ↦ rw y (g y)
]

pub check_zero_lem {ℓ κ μ} :
    {B : Type ℓ} {R : Type κ} (P : R → Type μ) (p : ℤ × B) (fail next : ℤ → B → R)
    → (is_zero p.0 ≡ false → P (fail p.0 p.1))
    → (is_zero p.0 ≡ true → P (next p.0 p.1))
    → P (check_zero p fail next)
unfolding check_zero
check_zero_lem P p fail next f g = elim (Bool-cases (is_zero p.0)) [
  | inl y ↦ rw y (g y)
  | inr y ↦ rw y (f y)
]

-- The same for a test of both the function and its contract.
pub flag_lem {ℓ κ μ} :
    {R : Type ℓ} {C : Type κ} (P : C → R → Type μ) (b : Bool) (c d : C) (x y : R)
    → (b ≡ true → P c x)
    → (b ≡ false → P d y)
    → P (if b then c else d) (if b then x else y)
flag_lem P true c d x y f g = f refl
flag_lem P false c d x y f g = g refl

-- No call gives a positive code where the source takes each code but 0 for a failure.
abbrev pub NoPositive : Cluster → Type 0
NoPositive k = (c : List Call) → is_neg (k.code c) ≡ false → is_zero (k.code c) ≡ true

abbrev pub IsCtx : ProxyCtx → ℤ × World → Type 0
IsCtx c x = x.1.ctx ≡ c

-- The context behind a step: `d` if it failed, and `e` if not.
abbrev pub Ends : ProxyCtx → ProxyCtx → ℤ × World → Type 0
Ends d e x = x.1.ctx ≡ (if is_neg x.0 then d else e)

-- The context of one more user.
abbrev pub entered : ProxyCtx → ProxyCtx
entered c = if c.init_flag then more_ref c else first_ref (init_client c)

pub Ends-change :
    {d d' e e' : ProxyCtx} → d ≡ d' → e ≡ e' → (x : ℤ × World) → Ends d e x → Ends d' e' x
Ends-change {d} {e' = e'} p q x h = subst (λ z. Ends z e' x) p (subst (λ z. Ends d z x) q h)

pub entered_first : (c : ProxyCtx) → c.init_flag ≡ false → entered c ≡ first_ref (init_client c)
entered_first c h = ap (λ b. if b then more_ref c else first_ref (init_client c)) h

pub not_zero-is_neg :
    (k : Cluster)
    → NoPositive k
    → (c : List Call) → is_zero (k.code c) ≡ false
    → is_neg (k.code c) ≡ true
not_zero-is_neg k n c h = elim (Bool-cases (is_neg (k.code c))) [
  | inl y ↦ y
  | inr y ↦ let z : is_zero (k.code c) ≡ true = n c y in cc
]
