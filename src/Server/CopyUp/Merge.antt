-- ===== src/Server/CopyUp/Merge.antt =====
-- The merge of the writes of a request into the data of its copyup, in src/server_adaptor/osa.cpp.
use global_cache_adaptor.Common.{
  ℕ, zero, suc, ◌+◌, ◌-◌, ◌≤◌, ◌<◌, ◌≡◌, inl, inr, refl, ap, ◌∙◌, true, false, Bool-cases, ◌&&◌,
  List, [], ◌∷◌, ◌++◌, Option, none, some, ltb, leb, if◌then◌else◌, u32, length, get_elem?, arith,
}
use global_cache_adaptor.Common.Bytes.{Bytes}
use global_cache_adaptor.Server.Op.{OpCode, OpRequestOps}
use global_cache_adaptor.Server.CopyUp.{
  memcpy, merged, invalid, has_data, merge_ops, writes, einval, undefined, construct_write_op,
  merge_copyup,
}

-- A copy of `n` bytes of `s` to the place `off` of `d`, byte by byte.
pub record IsCopy (off n : ℕ) (s d d' : Bytes) : Type 0 where
  pub size : length d' ≡ length d
  pub byte :
      (p : ℕ)
      → get_elem? d' p
        ≡ (if leb off p && ltb p (off + n) then get_elem? s (p - off) else get_elem? d p)

memcpy-IsCopy :
    (off n : ℕ) (s d : Bytes)
    → off + n ≤ length d
    → n ≤ length s
    → (d' : Bytes) × (memcpy off n s d ≡ some d') × IsCopy off n s d d'
unfolding memcpy
memcpy-IsCopy zero zero s d h k = (d, refl, record { size = refl; byte = λ p. ground arith })
memcpy-IsCopy zero (suc n) [] d h k = ground arith
memcpy-IsCopy zero (suc n) (b ∷ s) [] h k = ground arith
memcpy-IsCopy zero (suc n) (b ∷ s) (x ∷ d) h k =
    let (d', e, c) = memcpy-IsCopy zero n s d (omega arith) (omega arith) in
    (b ∷ d', rw e, record { size = ap suc c.size; byte = by_place d' c.byte })
  where
    by_place :
        (d' : Bytes)
        → ((p : ℕ)
            → get_elem? d' p
              ≡ (if leb 0 p && ltb p (0 + n) then get_elem? s (p - 0) else get_elem? d p))
        → (p : ℕ)
        → get_elem? (b ∷ d') p ≡ (
            if leb 0 p && ltb p (0 + suc n) then get_elem? (b ∷ s) (p - 0) else get_elem? (x ∷ d) p)
    by_place d' f zero = ground arith
    by_place d' f (suc p) =
        let e : suc p - 0 ≡ suc p = omega arith in
        let e' : p - 0 ≡ p = omega arith in rw e (rw e' at (f p) ∙ ground arith)
memcpy-IsCopy (suc off) n s [] h k = ground arith
memcpy-IsCopy (suc off) n s (x ∷ d) h k =
    let (d', e, c) = memcpy-IsCopy off n s d (omega arith) k in
    (x ∷ d', rw e, record { size = ap suc c.size; byte = by_place d' c.byte })
  where
    by_place :
        (d' : Bytes)
        → ((p : ℕ)
            → get_elem? d' p
              ≡ (if leb off p && ltb p (off + n) then get_elem? s (p - off) else get_elem? d p))
        → (p : ℕ)
        → get_elem? (x ∷ d') p ≡ (
            if leb (suc off) p && ltb p (suc off + n)
            then get_elem? s (p - suc off)
            else get_elem? (x ∷ d) p)
    by_place d' f zero = ground arith
    by_place d' f (suc p) =
        let e : suc p - suc off ≡ p - off = omega arith in rw e (f p ∙ ground arith)

memcpy-overrun : (off n : ℕ) (s d : Bytes) → length d < off + n → memcpy off n s d ≡ none
unfolding memcpy
memcpy-overrun zero zero s d h = ground arith
memcpy-overrun zero (suc n) [] d h = refl
memcpy-overrun zero (suc n) (b ∷ s) [] h = refl
memcpy-overrun zero (suc n) (b ∷ s) (x ∷ d) h = rw (memcpy-overrun zero n s d (omega arith))
memcpy-overrun (suc off) n s [] h = refl
memcpy-overrun (suc off) n s (x ∷ d) h = rw (memcpy-overrun off n s d (omega arith))

-- An operation that is merged, and how it stands to an object of `n` bytes.
abbrev pub Fits : ℕ → OpRequestOps → Type 0
Fits n o =
    has_data o ≡ true → (o.obj_offset + o.in_data_len ≤ n) × (o.in_data_len ≤ length o.in_data)

abbrev pub All : (OpRequestOps → Type 0) → List OpRequestOps → Type 0
All P [] = Unit
All P (o ∷ os) = P o × All P os

-- Byte `p` after the writes: that of the last write that covers it, and else `v`.
abbrev pub overlay : List OpRequestOps → ℕ → Option ℕ → Option ℕ
overlay [] p v = v
overlay (o ∷ os) p v = overlay os p (
    if has_data o && (leb o.obj_offset p && ltb p (o.obj_offset + o.in_data_len))
    then get_elem? o.in_data (p - o.obj_offset)
    else v)

pub record IsOverlay (os : List OpRequestOps) (d d' : Bytes) : Type 0 where
  pub size : length d' ≡ length d
  pub byte : (p : ℕ) → get_elem? d' p ≡ overlay os p (get_elem? d p)

merge_ops-IsOverlay :
    (n : ℕ) (os : List OpRequestOps) (d : Bytes)
    → n < 4294967296
    → length d ≡ n
    → All (Fits n) os
    → (d' : Bytes) × (merge_ops n os d ≡ merged d') × IsOverlay os d d'
unfolding merge_ops
merge_ops-IsOverlay n [] d b l f = (d, refl, record { size = refl; byte = λ p. refl })
merge_ops-IsOverlay n (o ∷ os) d b l (f, fs) = elim (Bool-cases (has_data o)) [
  | inr e ↦
      let (d', m, v) = merge_ops-IsOverlay n os d b l fs in
      (d', rw (e, m), record { size = v.size; byte = λ p. rw (e, v.byte p) })
  | inl e ↦
      let (fit, src) = f e in
      let (d₁, c, w) = memcpy-IsCopy o.obj_offset o.in_data_len o.in_data d (omega arith) src in
      let (d', m, v) = merge_ops-IsOverlay n os d₁ b (w.size ∙ l) fs in
      let t : ltb n (u32 (o.obj_offset + o.in_data_len)) ≡ false = ground arith in
      (
        d',
        rw (e, t, c, m),
        record {
          size = v.size ∙ w.size;
          byte = λ p. v.byte p ∙ ap (overlay os p) (rw (w.byte p, e));
        },
      )
]

-- The operation `w` writes the `n` bytes `d` at the start of the object of `o`.
pub record IsWhole (o : OpRequestOps) (n : ℕ) (d : Bytes) (w : OpRequestOps) : Type 0 where
  pub sub_type : w.op_sub_type ≡ OpCode.write
  pub same_object : w.obj_name ≡ o.obj_name
  pub offset : w.obj_offset ≡ 0
  pub size : w.obj_length ≡ n
  pub contents : w.in_data ≡ d
  pub contents_len : w.in_data_len ≡ n

-- When every write behind the copyup fits in the parent's data, which has fewer than 2^32 bytes, and
-- has at least the bytes that its length says, the object is written once, at offset 0, with as many
-- bytes as the parent's data: each byte is that of the last write that covers it, and the parent's
-- where no write does.
pub merge_copyup-IsOverlay :
    (o : OpRequestOps) (os : List OpRequestOps) (d : Bytes)
    → length d < 4294967296
    → All (Fits (length d)) os
    → (d' : Bytes) × (w : OpRequestOps) × (merge_copyup o os (length d) d ≡ writes w)
      × IsWhole o (length d) d' w
      × IsOverlay os d d'
unfolding merge_copyup construct_write_op
merge_copyup-IsOverlay o os d b f =
    let (d', m, v) = merge_ops-IsOverlay (length d) os d b refl f in
    (
      d',
      construct_write_op o 0 (length d) d',
      rw m,
      record {
        sub_type = refl;
        same_object = refl;
        offset = refl;
        size = refl;
        contents = refl;
        contents_len = refl;
      },
      v,
    )

-- The test against the end of the parent's data adds in 32 bits. A write that starts and ends past that
-- end, by a sum that reaches 2^32 and wraps to within it, passes the test, and memcpy then writes out
-- of bounds.
pub merge_copyup-overrun :
    (o w : OpRequestOps) (os : List OpRequestOps) (d : Bytes)
    → has_data w ≡ true
    → length d < w.obj_offset + w.in_data_len
    → u32 (w.obj_offset + w.in_data_len) ≤ length d
    → merge_copyup o (w ∷ os) (length d) d ≡ undefined
unfolding merge_copyup merge_ops
merge_copyup-overrun o w os d h l u =
    let t : ltb (length d) (u32 (w.obj_offset + w.in_data_len)) ≡ false = ground arith in
    rw (h, t, memcpy-overrun w.obj_offset w.in_data_len w.in_data d l)

merge_ops-invalid :
    (n : ℕ) (w : OpRequestOps) (fit os : List OpRequestOps) (d : Bytes)
    → n < 4294967296
    → length d ≡ n
    → All (Fits n) fit
    → has_data w ≡ true
    → n < w.obj_offset + w.in_data_len
    → w.obj_offset + w.in_data_len < 4294967296
    → (d' : Bytes) × (merge_ops n (fit ++ w ∷ os) d ≡ invalid d')
unfolding merge_ops
merge_ops-invalid n w [] os d b e f h l u =
    let t : ltb n (u32 (w.obj_offset + w.in_data_len)) ≡ true = ground arith in (d, rw (h, t))
merge_ops-invalid n w (o ∷ fit) os d b e (f, fs) h l u = elim (Bool-cases (has_data o)) [
  | inr g ↦ let (d', m) = merge_ops-invalid n w fit os d b e fs h l u in (d', rw (g, m))
  | inl g ↦
      let (fits, src) = f g in
      let (d₁, c, v) = memcpy-IsCopy o.obj_offset o.in_data_len o.in_data d (omega arith) src in
      let (d', m) = merge_ops-invalid n w fit os d₁ b (v.size ∙ e) fs h l u in
      let t : ltb n (u32 (o.obj_offset + o.in_data_len)) ≡ false = ground arith in
      (d', rw (g, t, c, m))
]

-- For a parent's data of fewer than 2^32 bytes: a write that ends past the parent's data, by a sum that
-- does not reach 2^32, behind writes that fit in it and have at least the bytes that their lengths say
-- (or behind none), makes the copyup fail with -EINVAL, with nothing written to the object, whatever
-- comes behind it.
pub merge_copyup-rejects :
    (o w : OpRequestOps) (fit os : List OpRequestOps) (d : Bytes)
    → length d < 4294967296
    → All (Fits (length d)) fit
    → has_data w ≡ true
    → length d < w.obj_offset + w.in_data_len
    → w.obj_offset + w.in_data_len < 4294967296
    → merge_copyup o (fit ++ w ∷ os) (length d) d ≡ einval
unfolding merge_copyup
merge_copyup-rejects o w fit os d b f h l u =
    let (d', m) = merge_ops-invalid (length d) w fit os d b refl f h l u in rw m
