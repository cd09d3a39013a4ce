-- ===== src/Server/OpRequest/NameFormat/Roundtrip.antt =====
-- The identity that src/server_adaptor/network_module.cpp reads from the name of an RBD object.
use global_cache_adaptor.Common.{
  ℕ, suc, ◌+◌, ◌*◌, ◌/◌, ◌^◌, ◌≡◌, ◌<◌, ◌≤◌, refl, true, false, [], ◌∷◌, some, arith, ◌∙◌,
}
use global_cache_adaptor.Common.Bytes.{Bytes, bytes}
use global_cache_adaptor.Common.Number.{strtoull, digits_value, is_minus}
use global_cache_adaptor.Server.OpRequest.{
  sections, is_rbd_data, rbd_objid, format_specify, format_unspecify, sa_version,
}
use global_cache_adaptor.Server.OpRequest.NameFormat.{
  print, IsDigits, IsFull, join, print-IsDigits, print-IsWord, IsFull-append, digits_value-print,
  sections-join, subject-digits,
}

not_minus : (base : ℕ) (s : Bytes) → base ≤ 16 → IsDigits base s → is_minus s ≡ false
not_minus base [] b d = refl
not_minus base (c ∷ s) b d = ground arith

strtoull-digits :
    (base : ℕ) (s : Bytes)
    → base ≤ 16
    → IsDigits base s
    → digits_value base 0 s < 18446744073709551616
    → strtoull base s ≡ digits_value base 0 s
unfolding strtoull
strtoull-digits base s b d lt =
    let (sub, sp) = subject-digits base s b d in rw (sub, sp, not_minus base s b d) (ground arith)

strtoull-print :
    (base k n : ℕ)
    → 0 < base
    → base ≤ 16
    → n < base ^ k
    → n < 18446744073709551616
    → strtoull base (print base k n) ≡ n
strtoull-print base k n p b lt h =
    let v = digits_value-print base k n 0 p b lt in
    strtoull-digits base (print base k n) b (print-IsDigits base k n p b) (omega arith)
    ∙ v
    ∙ omega arith

-- The prefix "1" keeps the leading zeros of an image's id.
strtoull-prefixed :
    (k n : ℕ)
    → n < 16 ^ k
    → 2 * 16 ^ k ≤ 18446744073709551616
    → strtoull 16 (b'1' ∷ print 16 k n) ≡ 16 ^ k + n
unfolding digits_value
strtoull-prefixed k n lt h =
    let v = digits_value-print 16 k n 1 (omega arith) (omega arith) lt in
    strtoull-digits 16 (b'1' ∷ print 16 k n) (omega arith)
      (omega arith, print-IsDigits 16 k n (omega arith) (omega arith)) (omega arith)
    ∙ v
    ∙ omega arith

-- The name of object `number` of an image, whose id has `w + 1` digits.
abbrev pub image_name : ℕ → ℕ → ℕ → Bytes
image_name w image number =
    join (bytes "rbd_data") (print 16 (suc w) image ∷ print 16 16 number ∷ [])

-- The same for an image with a data pool, whose number has `d + 1` digits.
abbrev pub pooled_name : ℕ → ℕ → ℕ → ℕ → ℕ → Bytes
pooled_name d pool w image number =
    join (bytes "rbd_data")
      (print 10 (suc d) pool ∷ print 16 (suc w) image ∷ print 16 16 number ∷ [])

print-IsFull : (base k n : ℕ) → IsFull (print base (suc k) n)
print-IsFull base k n = IsFull-append (print base k (n / base)) _

image_sections :
    (w image number : ℕ)
    → sections (image_name w image number)
      ≡ bytes "rbd_data" ∷ print 16 (suc w) image ∷ print 16 16 number ∷ []
image_sections w image number = sections-join (bytes "rbd_data") _ (
  omega arith,
  tt,
  (
    print-IsWord 16 (suc w) image,
    print-IsFull 16 w image,
    (print-IsWord 16 16 number, print-IsFull 16 15 number, tt),
  ),
)

pooled_sections :
    (d pool w image number : ℕ)
    → sections (pooled_name d pool w image number)
      ≡ bytes "rbd_data" ∷ print 10 (suc d) pool ∷ print 16 (suc w) image ∷ print 16 16 number ∷ []
pooled_sections d pool w image number = sections-join (bytes "rbd_data") _ (
  omega arith,
  tt,
  (
    print-IsWord 10 (suc d) pool,
    print-IsFull 10 d pool,
    (
      print-IsWord 16 (suc w) image,
      print-IsFull 16 w image,
      (print-IsWord 16 16 number, print-IsFull 16 15 number, tt),
    ),
  ),
)

-- The name "rbd_data.<image>.<number>", where the image is below 16^(w+1), with 2 * 16^(w+1) at most
-- 2^64, and printed in w + 1 hexadecimal digits, and the number is below 2^40 and printed in 16
-- hexadecimal digits, is taken for the name of an RBD data object and gives 0 as the pool's id,
-- 16^(w+1) + image as the head, the number as the sequence, the format that says that no pool is
-- named, and the version of the server adaptor.
pub rbd_objid-image_name :
    (w image number : ℕ)
    → image < 16 ^ suc w
    → 2 * 16 ^ suc w ≤ 18446744073709551616
    → number < 1099511627776
    → let v = sections (image_name w image number) in
      (is_rbd_data v ≡ true)
      × (rbd_objid v
          ≡ some (record {
            pool_id = 0;
            head = 16 ^ suc w + image;
            seq = number;
            format = format_unspecify;
            version = sa_version;
          }))
unfolding is_rbd_data rbd_objid
rbd_objid-image_name w image number i f n = rw (image_sections w image number) (
  refl,
  rw
      (
        strtoull-prefixed (suc w) image i f,
        strtoull-print 16 16 number (omega arith) (omega arith) (omega arith) (omega arith),
      )
      (ground arith),
)

-- The name "rbd_data.<pool>.<image>.<number>", where the pool is below 2^32 and below 10^(d+1) and
-- printed in d + 1 decimal digits, the image is below 16^(w+1), with 2 * 16^(w+1) at most 2^64, and
-- printed in w + 1 hexadecimal digits, and the number is below 2^40 and printed in 16 hexadecimal
-- digits, is taken for the name of an RBD data object and gives the pool as the pool's id,
-- 16^(w+1) + image as the head, the number as the sequence, the format that says that a pool is
-- named, and the version of the server adaptor.
pub rbd_objid-pooled_name :
    (d pool w image number : ℕ)
    → pool < 10 ^ suc d
    → pool < 4294967296
    → image < 16 ^ suc w
    → 2 * 16 ^ suc w ≤ 18446744073709551616
    → number < 1099511627776
    → let v = sections (pooled_name d pool w image number) in
      (is_rbd_data v ≡ true)
      × (rbd_objid v
          ≡ some (record {
            pool_id = pool;
            head = 16 ^ suc w + image;
            seq = number;
            format = format_specify;
            version = sa_version;
          }))
unfolding is_rbd_data rbd_objid
rbd_objid-pooled_name d pool w image number p u i f n = rw (pooled_sections d pool w image number) (
  refl,
  ground (
    arith,
    strtoull-prefixed (suc w) image i f,
    strtoull-print 16 16 number (omega arith) (omega arith) (omega arith) (omega arith),
    strtoull-print 10 (suc d) pool (omega arith) (omega arith) p (omega arith),
  ),
)
