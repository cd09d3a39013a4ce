-- ===== src/Proxy/Start/Align.antt =====
-- src/ceph_proxy/CephProxy.cc, U32AlignUp: the number of clients, a power of two, so that a mask picks one
-- of them.
use global_cache_adaptor.Common.{
  ℕ, zero, suc, ◌+◌, ◌-◌, ◌*◌, ◌/◌, ◌%◌, ◌^◌, ◌≤◌, ◌<◌, ◌==◌, ◌≡◌, refl, sym, ap, ◌∙◌, ◌⊎◌, inl,
  inr, arith, false, Option, none, some, leb, if◌then◌else◌, Bool-cases,
}
use Prim.Native.Nat.{bit_and, bit_and-bitwise, digits, min}
use native.Mathlib.Nat.{mod-lt, mod-add-div', add-mul-mod_self_right, mod-eq_of_lt, zero-mod}

-- 32 - __builtin_clz(n), the number of digits, for a number of at most so many digits.
unfoldable pub bit_length : ℕ → ℕ → ℕ
bit_length zero n = 0
bit_length (suc left) n = let rest = bit_length left (n / 2) in if n == 0 then 0 else suc rest

-- U32AlignUp; `none` is a shift by 32, which is undefined.
unfoldable pub u32_align_up : ℕ → Option ℕ
u32_align_up x =
    let digits = bit_length 32 ((x + 4294967295) % 4294967296) in
    if x == 1 then some 1 else if leb 32 digits then none else some (2 ^ digits)

pow_suc : (k : ℕ) → 2 ^ suc k ≡ 2 * 2 ^ k
pow_suc k = omega arith

bit_length-lt : (left n : ℕ) → n < 2 ^ left → n < 2 ^ bit_length left n
unfolding bit_length
bit_length-lt zero n h = h
bit_length-lt (suc left) n h =
    ground (arith, bit_length-lt left (n / 2), pow_suc left, pow_suc (bit_length left (n / 2)))

zero_or_more : (n : ℕ) → (n ≡ 0) ⊎ (1 ≤ n)
zero_or_more zero = inl refl
zero_or_more (suc n) = inr (omega arith)

bit_length_zero : (left : ℕ) → bit_length left 0 ≡ 0
unfolding bit_length
bit_length_zero zero = refl
bit_length_zero (suc left) = refl

bit_length-least : (left n : ℕ) → 1 ≤ n → 2 ^ bit_length left n ≤ 2 * n
unfolding bit_length
bit_length-least zero n h = omega arith
bit_length-least (suc left) n h = elim (zero_or_more (n / 2)) [
  | inl none_left ↦
      let b : bit_length left (n / 2) ≡ 0 = rw none_left (bit_length_zero left) in
      ground (arith, b, h)
  | inr more ↦ ground (arith, bit_length-least left (n / 2) more, pow_suc (bit_length left (n / 2)))
]

bit_length-le : (left n k : ℕ) → n < 2 ^ k → bit_length left n ≤ k
unfolding bit_length
bit_length-le zero n k h = omega arith
bit_length-le (suc left) n zero h = ground arith
bit_length-le (suc left) n (suc k) h = ground (arith, bit_length-le left (n / 2) k, pow_suc k)

digits_le : (n a b : ℕ) → digits (λ b. zero) min n a b ≤ b
digits_le zero a b = omega arith
digits_le (suc n) zero b = omega arith
digits_le (suc n) (suc a) b =
    let rest = digits_le n (suc a / 2) (b / 2) in
    let low : min (suc a % 2) (b % 2) ≤ b % 2 = omega arith in omega (arith, rest, low)

pow_positive : (k : ℕ) → 1 ≤ 2 ^ k
pow_positive zero = omega arith
pow_positive (suc k) = omega (arith, pow_positive k, pow_suc k)

double_mul : (q m : ℕ) → 2 * (q * m) ≡ q * (2 * m)
double_mul q m = omega arith

mod-double : (a j : ℕ) → a % 2 ^ suc j ≡ a / 2 % 2 ^ j * 2 + a % 2
mod-double a j =
    let m = 2 ^ j in
    let q = a / 2 / m in
    let r = a / 2 % m * 2 + a % 2 in
    let low : a / 2 % m < m = mod-lt (a / 2) (pow_positive j) in
    let split : a ≡ r + 2 * (q * m) = omega (arith, mod-add-div' (a / 2) m) in
    let scaled : 2 * (q * m) ≡ q * 2 ^ suc j = rw (pow_suc j) (double_mul q m) in
    let whole : a % 2 ^ suc j ≡ (r + q * 2 ^ suc j) % 2 ^ suc j =
      ap (λ n. n % 2 ^ suc j) (split ∙ ap (λ n. r + n) scaled) in
    whole ∙ (add-mul-mod_self_right r q (2 ^ suc j) ∙ mod-eq_of_lt (omega (arith, low, pow_suc j)))

digits_mask : (k n a : ℕ) → a ≤ n → digits (λ b. zero) min n a (2 ^ k - 1) ≡ a % 2 ^ k
digits_mask zero n a h = omega (arith, digits_le n a 0)
digits_mask (suc j) zero a h =
    let none_left : a ≡ 0 = omega (arith, h) in rw none_left (sym (zero-mod (2 ^ suc j)))
digits_mask (suc j) (suc n) zero h = sym (zero-mod (2 ^ suc j))
digits_mask (suc j) (suc n) (suc a) h =
    let half : (2 ^ suc j - 1) / 2 ≡ 2 ^ j - 1 = omega (arith, pow_suc j, pow_positive j) in
    let odd : (2 ^ suc j - 1) % 2 ≡ 1 = omega (arith, pow_suc j, pow_positive j) in
    let rest = digits_mask j n (suc a / 2) (omega (arith, h)) in
    let low : min (suc a % 2) 1 ≡ suc a % 2 = omega arith in
    rw (half, odd, rest, low) (sym (mod-double (suc a) j))

u32_align_up-power :
    (x : ℕ)
    → 1 ≤ x
    → x ≤ 2147483648
    → (k : ℕ) × (u32_align_up x ≡ some (2 ^ k)) × (x ≤ 2 ^ k) × (2 ^ k < 2 * x)
unfolding u32_align_up
u32_align_up-power x h l = elim (Bool-cases (x == 1)) [
  | inl y ↦ (0, rw y refl, ground arith, ground arith)
  | inr y ↦
      let m = (x + 4294967295) % 4294967296 in
      let small : m ≡ x - 1 = omega (arith, h, l) in
      let few = bit_length-le 32 m 31 (omega (arith, small, l)) in
      let positive : 1 ≤ m = ground (arith, small, h, y) in
      let fits : leb 32 (bit_length 32 m) ≡ false = ground (arith, few) in
      (
        bit_length 32 m,
        rw (y, fits) refl,
        omega (arith, small, bit_length-lt 32 m (omega (arith, small, l))),
        omega (arith, small, bit_length-least 32 m positive),
      )
]

bit_and-mask : (a k : ℕ) → bit_and a (2 ^ k - 1) ≡ a % 2 ^ k
bit_and-mask a k = bit_and-bitwise a (2 ^ k - 1) ∙ digits_mask k a a (omega arith)

-- A number of clients for so many contexts: not fewer, less than twice as many, and the mask that
-- MemberInit makes of it turns a counter into its remainder by the number of clients.
abbrev pub IsAligned : ℕ → ℕ → Type 0
IsAligned x n = (x ≤ n) × (n < 2 * x) × ((count : ℕ) → bit_and count (n - 1) ≡ count % n)

-- For 1 to 2^31 contexts, U32AlignUp gives a number that is not below theirs and less than twice theirs,
-- and one less than it, as a mask, turns any counter into its remainder by that number.
pub u32_align_up-IsAligned :
    (x : ℕ) → 1 ≤ x → x ≤ 2147483648 → (n : ℕ) × (u32_align_up x ≡ some n) × IsAligned x n
u32_align_up-IsAligned x h l =
    let (k, power, low, high) = u32_align_up-power x h l in
    (2 ^ k, power, (low, high, λ count. bit_and-mask count k))
