-- ===== src/Server/OpRequest/NameFormat.antt =====
-- The names of RBD objects, as librbd writes them: "rbd_data.", for an image with a data pool the
-- pool's number, the image's id in hexadecimal, and the object's number in 16 hexadecimal digits. What
-- src/server_adaptor/network_module.cpp reads back from them.
pub mod Roundtrip
use native.Mathlib.Nat.{pow-zero, pow-suc, div-add-mod', mod-lt, div-lt_iff_lt-mul}
use global_cache_adaptor.Common.{
  ℕ, suc, zero, ◌+◌, ◌*◌, ◌/◌, ◌%◌, ◌^◌, ◌≡◌, ◌≢◌, ◌<◌, ◌≤◌, refl, Bool, true, false, ◌&&◌, List,
  [], ◌∷◌, ◌++◌, Option, none, some, arith, ap, ◌∙◌, leb, ltb, ◌==◌, if◌then◌else◌, length,
}
use global_cache_adaptor.Common.Bytes.{Bytes, bytes, scan, tokens, push_word}
use global_cache_adaptor.Common.Number.{strtoull, digits_value, digit, skip_space, subject}
use global_cache_adaptor.Server.OpRequest.{c_str, sections, rbd_objid}

-- The digit of a value below 16.
abbrev pub to_digit : ℕ → ℕ
to_digit d = if ltb d 10 then 48 + d else 87 + d

-- A number in a given number of digits.
abbrev pub print : ℕ → ℕ → ℕ → Bytes
print base zero n = []
print base (suc k) n = print base k (n / base) ++ to_digit (n % base) ∷ []

digit-to_digit : (d : ℕ) → d < 16 → digit (to_digit d) ≡ d
digit-to_digit d h = ground arith

digit-lt : (d base : ℕ) → d < base → base ≤ 16 → digit (to_digit d) < base
digit-lt d base h k = ground arith

-- All the bytes are digits of the base.
abbrev pub IsDigits : ℕ → Bytes → Type 0
IsDigits base [] = Unit
IsDigits base (c ∷ s) = (digit c < base) × IsDigits base s

digits_value-append :
    (base acc : ℕ) (xs ys : Bytes)
    → IsDigits base xs
    → digits_value base acc (xs ++ ys) ≡ digits_value base (digits_value base acc xs) ys
unfolding digits_value
digits_value-append base acc [] ys h = refl
digits_value-append base acc (c ∷ xs) ys h =
    ground (arith, digits_value-append base (acc * base + digit c) xs ys h.1)

IsDigits-append :
    (base : ℕ) (xs : Bytes) (c : ℕ)
    → IsDigits base xs
    → digit c < base
    → IsDigits base (xs ++ c ∷ [])
IsDigits-append base [] c h d = (d, tt)
IsDigits-append base (x ∷ xs) c h d = (h.0, IsDigits-append base xs c h.1 d)

print-IsDigits : (base k n : ℕ) → 0 < base → base ≤ 16 → IsDigits base (print base k n)
print-IsDigits base zero n p h = tt
print-IsDigits base (suc k) n p h =
    IsDigits-append base (print base k (n / base)) (to_digit (n % base))
      (print-IsDigits base k (n / base) p h) (digit-lt (n % base) base (mod-lt n p) h)

digits_value-digit :
    (base acc d : ℕ)
    → d < base
    → base ≤ 16
    → digits_value base acc (to_digit d ∷ []) ≡ acc * base + d
unfolding digits_value
digits_value-digit base acc d h k = ground (arith, digit-to_digit d)

-- The last digit joins the value of the others.
join_digit :
    (acc base k n : ℕ)
    → 0 < base
    → (acc * base ^ k + n / base) * base + n % base ≡ acc * base ^ suc k + n
join_digit acc base k n p = simp pow-suc (omega (arith, div-add-mod' n base))

digits_value-print :
    (base k n acc : ℕ)
    → 0 < base
    → base ≤ 16
    → n < base ^ k
    → digits_value base acc (print base k n) ≡ acc * base ^ k + n
unfolding digits_value
digits_value-print base zero n acc p h lt =
    let e : acc ≡ acc * base ^ zero + n = grind (arith, pow-zero) in e
digits_value-print base (suc k) n acc p h lt =
    digits_value-append base acc (print base k (n / base)) (to_digit (n % base) ∷ [])
      (print-IsDigits base k (n / base) p h)
    ∙ ap (λ v. digits_value base v (to_digit (n % base) ∷ []))
        (digits_value-print base k (n / base) acc p h ((div-lt_iff_lt-mul p).1 (rw pow-suc at lt)))
    ∙ digits_value-digit base (acc * base ^ k + n / base) (n % base) (mod-lt n p) h
    ∙ join_digit acc base k n p

-- No byte of a word separates sections or ends the string, and the word is not empty.
abbrev pub IsWord : Bytes → Type 0
IsWord [] = Unit
IsWord (c ∷ s) = (c ≢ b'.') × (c ≢ 0) × IsWord s

to_digit-IsWord : (d : ℕ) → (to_digit d ≢ b'.') × (to_digit d ≢ 0)
to_digit-IsWord d = ground arith

IsWord-append : (xs : Bytes) (c : ℕ) → IsWord xs → c ≢ b'.' → c ≢ 0 → IsWord (xs ++ c ∷ [])
IsWord-append [] c h d z = (d, z, tt)
IsWord-append (x ∷ xs) c h d z = (h.0, h.1, IsWord-append xs c h.2 d z)

print-IsWord : (base k n : ℕ) → IsWord (print base k n)
print-IsWord base zero n = tt
print-IsWord base (suc k) n =
    let (d, z) = to_digit-IsWord (n % base) in
    IsWord-append (print base k (n / base)) (to_digit (n % base)) (print-IsWord base k (n / base)) d
      z

c_str-word : (xs ys : Bytes) → IsWord xs → c_str (xs ++ ys) ≡ xs ++ c_str ys
c_str-word [] ys h = refl
c_str-word (x ∷ xs) ys h = ground (arith, c_str-word xs ys h.2)

-- A word before a separator is the first one.
scan-word :
    (xs ys : Bytes)
    → IsWord xs
    → scan b'.' (xs ++ b'.' ∷ ys) ≡ (xs, push_word (scan b'.' ys).0 (scan b'.' ys).1)
scan-word [] ys h = refl
scan-word (x ∷ xs) ys h = ground (arith, scan-word xs ys h.2)

scan-last : (xs : Bytes) → IsWord xs → scan b'.' xs ≡ (xs, [])
scan-last [] h = refl
scan-last (x ∷ xs) h = ground (arith, scan-last xs h.2)

-- The word is not empty.
abbrev pub IsFull : Bytes → Type 0
IsFull [] = ⊥
IsFull (c ∷ s) = Unit

IsFull-append : (xs : Bytes) (c : ℕ) → IsFull (xs ++ c ∷ [])
IsFull-append [] c = tt
IsFull-append (x ∷ xs) c = tt

push_word-full : (w : Bytes) (r : List Bytes) → IsFull w → push_word w r ≡ w ∷ r
push_word-full [] r f = absurd f
push_word-full (c ∷ w) r f = refl

-- Words, joined by separators, come back as the sections.
abbrev pub AreWords : List Bytes → Type 0
AreWords [] = Unit
AreWords (w ∷ ws) = IsWord w × IsFull w × AreWords ws

abbrev pub join : Bytes → List Bytes → Bytes
join w [] = w
join w (x ∷ ws) = w ++ b'.' ∷ join x ws

c_str-all : (xs : Bytes) → IsWord xs → c_str xs ≡ xs
c_str-all [] h = refl
c_str-all (x ∷ xs) h = ground (arith, c_str-all xs h.2)

c_str-join : (w : Bytes) (ws : List Bytes) → AreWords (w ∷ ws) → c_str (join w ws) ≡ join w ws
c_str-join w [] (h, f, t) = c_str-all w h
c_str-join w (x ∷ ws) (h, f, t) = c_str-word w _ h ∙ ap (λ s. w ++ b'.' ∷ s) (c_str-join x ws t)

tokens-join : (w : Bytes) (ws : List Bytes) → AreWords (w ∷ ws) → tokens b'.' (join w ws) ≡ w ∷ ws
tokens-join w [] (h, f, t) = rw (scan-last w h) (push_word-full w [] f)
tokens-join w (x ∷ ws) (h, f, t) =
    rw (scan-word w (join x ws) h) (rw (push_word-full w _ f) (ap (◌∷◌ w) (tokens-join x ws t)))

sections-join : (w : Bytes) (ws : List Bytes) → AreWords (w ∷ ws) → sections (join w ws) ≡ w ∷ ws
unfolding sections
sections-join w ws h = rw (c_str-join w ws h) (tokens-join w ws h)

subject-digits :
    (base : ℕ) (s : Bytes) → base ≤ 16 → IsDigits base s → (subject base s ≡ s) × (skip_space s ≡ s)
unfolding skip_space
subject-digits base [] b h = (refl, refl)
subject-digits base (c ∷ []) b h = ground arith
subject-digits base (c ∷ d ∷ s) b h = ground arith
