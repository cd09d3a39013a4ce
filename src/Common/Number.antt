-- ===== src/Common/Number.antt =====
-- strtoull, strtoul and strtol of the C library, where `long` has 64 bits, and std::to_string.
use Prim.Native.Nat.{ℕ, zero, suc, ◌+◌, ◌-◌, ◌*◌, ◌/◌, ◌%◌, ◌<◌}
use mathlib.Core.Bool.{Bool, true, false, ◌&&◌, ◌||◌, not}
use mathlib.Core.List.{[], ◌∷◌, ◌++◌}
use native.Mathlib.Omega.{arith}
use global_cache_adaptor.Common.Tests.{ltb, leb, ◌==◌, if◌then◌else◌}
use global_cache_adaptor.Common.Bytes.{Bytes}
use global_cache_adaptor.Common.Int.{ℤ, pos, negsuc, neg}

-- isspace in the C locale.
abbrev pub is_space : ℕ → Bool
is_space c = c == 32 || (leb 9 c && leb c 13)

-- The value of a digit up to `z`, and 255 for any other byte.
abbrev pub digit : ℕ → ℕ
digit c =
    if leb b'0' c && leb c b'9'
    then c - b'0'
    else if leb b'a' c && leb c b'z'
    then c - b'a' + 10
    else if leb b'A' c && leb c b'Z'
    then c - b'A' + 10
    else 255

unfoldable pub skip_space : Bytes → Bytes
skip_space [] = []
skip_space (c ∷ s) = let rest = skip_space s in if is_space c then rest else c ∷ s

abbrev pub is_minus : Bytes → Bool
is_minus [] = false
is_minus (c ∷ s) = c == b'-'

abbrev pub skip_sign : Bytes → Bytes
skip_sign [] = []
skip_sign (c ∷ s) = if c == b'-' || c == b'+' then s else c ∷ s

abbrev pub starts_digit : ℕ → Bytes → Bool
starts_digit base [] = false
starts_digit base (c ∷ s) = ltb (digit c) base

-- "0x" counts as a prefix only in base 16 and before a digit.
abbrev pub skip_prefix : ℕ → Bytes → Bytes
skip_prefix base (z ∷ x ∷ s) =
    if (base == 16 && z == b'0') && ((x == b'x' || x == b'X') && starts_digit base s)
    then s
    else z ∷ x ∷ s
skip_prefix base s = s

-- The number that the leading digits of a text spell, with no bound.
unfoldable pub digits_value : ℕ → ℕ → Bytes → ℕ
digits_value base acc [] = acc
digits_value base acc (c ∷ s) =
    let rest = digits_value base (acc * base + digit c) s in
    if ltb (digit c) base then rest else acc

-- The subject of a conversion: the text behind spaces, sign and prefix.
abbrev pub subject : ℕ → Bytes → Bytes
subject base s = skip_prefix base (skip_sign (skip_space s))

-- strtoull(s, &end, base), and strtoul. A minus sign negates modulo 2^64.
unfoldable pub strtoull : ℕ → Bytes → ℕ
unfolding digits_value skip_space
strtoull base s =
    let v = digits_value base 0 (subject base s) in
    if ltb 18446744073709551615 v
    then 18446744073709551615
    else if is_minus (skip_space s)
    then (18446744073709551616 - v) % 18446744073709551616
    else v

-- What the source tests after a conversion: `errno == ERANGE || end == p`.
pub record Strtol : Type 0 where
  pub value : ℤ
  pub failed : Bool

-- strtol(s, &end, 10).
unfoldable pub strtol : Bytes → Strtol
unfolding digits_value skip_space
strtol s =
    let v = digits_value 10 0 (subject 10 s) in
    let no_digits = not (starts_digit 10 (subject 10 s)) in
    if is_minus (skip_space s)
    then if ltb 9223372036854775808 v
      then record { value = neg 9223372036854775808; failed = true }
      else record { value = neg v; failed = no_digits }
    else if ltb 9223372036854775807 v
    then record { value = pos 9223372036854775807; failed = true }
    else record { value = pos v; failed = no_digits }

-- Casts of a `long`.
abbrev pub to_u32 : ℤ → ℕ
to_u32 (pos n) = n % 4294967296
to_u32 (negsuc n) = 4294967295 - n % 4294967296

abbrev pub to_int : ℤ → ℤ
to_int z = let w = to_u32 z in if ltb w 2147483648 then pos w else negsuc (4294967295 - w)

-- Any text converts to a number of 64 bits.
pub strtoull-lt : (base : ℕ) (s : Bytes) → strtoull base s < 18446744073709551616
unfolding strtoull
strtoull-lt base s = ground arith

-- std::to_string, for at most so many digits.
abbrev pub to_string : ℕ → ℕ → Bytes
to_string zero n = []
to_string (suc left) n =
    let more = to_string left (n / 10) in
    if ltb n 10 then (b'0' + n) ∷ [] else more ++ (b'0' + n % 10) ∷ []
