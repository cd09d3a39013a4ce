-- ===== src/Server/Replies/Decoding.antt =====
-- What a client of Ceph reads from the reply to omap_get_vals.
use global_cache_adaptor.Common.{
  ℕ, zero, suc, ◌≤◌, ◌<◌, ◌≡◌, refl, ap, arith, Bool, false, List, [], ◌∷◌, ◌++◌, Option, none,
  some, leb, u32, length, get_elem?, append_assoc, append-nil,
}
use mathlib.Core.Path.{subst}
use mathlib.Core.Option
use global_cache_adaptor.Common.Bytes.{Bytes}
use global_cache_adaptor.Common.Int.{ℤ}
use global_cache_adaptor.Common.Number.{to_u32}
use global_cache_adaptor.Server.Replies.Frame.{write_at-modify}
use global_cache_adaptor.Server.Replies.{
  ReplyOp, Encoding, modify, at_op, append, text_unless_empty, pairs, encode_omap_getvals,
}

-- Ceph's decoders, which read what the encoders append and leave the rest.
pub record Decoding (e : Encoding) : Type 0 where
  pub get_num32 : Bytes → Option (ℕ × Bytes)
  pub get_text : Bytes → Option (Bytes × Bytes)
  pub get_flag : Bytes → Option (Bool × Bytes)
  pub num32_read : (n : ℕ) (s : Bytes) → n < 4294967296 → get_num32 (e.num32 n ++ s) ≡ some (n, s)
  pub text_read : (t s : Bytes) → length t < 4294967296 → get_text (e.text t ++ s) ≡ some (t, s)
  pub flag_read : (b : Bool) (s : Bytes) → get_flag (e.flag b ++ s) ≡ some (b, s)

module _ (e : Encoding) (d : Decoding e) where
  unfoldable pub get_pairs : ℕ → Bytes → Option (List (Bytes × Bytes) × Bytes)
  get_pairs zero s = some ([], s)
  get_pairs (suc n) s = elim (d.get_text s) [
    | none ↦ none
    | some (k, s1) ↦ elim (d.get_text s1) [
      | none ↦ none
      | some (v, s2) ↦ Option.map (λ r. ((k, v) ∷ r.0, r.1)) (get_pairs n s2)
    ]
  ]

  -- A reply to omap_get_vals: the number of pairs, the pairs, and whether there are more.
  unfoldable pub read_vals : Bytes → Option (List (Bytes × Bytes) × Bool)
  read_vals s = elim (d.get_num32 s) [
    | none ↦ none
    | some (n, s1) ↦ elim (get_pairs n s1) [
      | none ↦ none
      | some (kvs, s2) ↦ Option.map (λ r. (kvs, r.0)) (d.get_flag s2)
    ]
  ]

  -- A text that is not empty, of a length that 32 bits count.
  abbrev pub IsShort : Bytes → Type 0
  IsShort t = (1 ≤ length t) × (length t < 4294967296)

  abbrev pub AreShort : List (Bytes × Bytes) → Type 0
  AreShort [] = Unit
  AreShort ((k, v) ∷ kvs) = IsShort k × IsShort v × AreShort kvs

  encoded : (t : Bytes) → IsShort t → text_unless_empty e t ≡ e.text t
  encoded [] h = ground arith
  encoded (c ∷ t) h = refl

  get_pairs-pairs :
      (kvs : List (Bytes × Bytes)) (s : Bytes)
      → AreShort kvs
      → get_pairs (length kvs) (pairs e kvs ++ s) ≡ some (kvs, s)
  unfolding get_pairs
  get_pairs-pairs [] s h = refl
  get_pairs-pairs ((k, v) ∷ kvs) s (a, b, h) =
      rw
        (
          encoded k a,
          encoded v b,
          append_assoc (e.text k ++ e.text v) (pairs e kvs) s,
          append_assoc (e.text k) (e.text v) (pairs e kvs ++ s),
          d.text_read k (e.text v ++ (pairs e kvs ++ s)) a.1,
          d.text_read v (pairs e kvs ++ s) b.1,
          get_pairs-pairs kvs s h,
        )
        refl

  changed :
      (n : ℕ) (f : ReplyOp → ReplyOp) (ops : List ReplyOp) (o : ReplyOp)
      → get_elem? ops n ≡ some o
      → get_elem? (modify n f ops) n ≡ some (f o)
  changed n f [] o h = ground arith
  changed zero f (p ∷ ops) o h = ap (λ q. Option.map f q) h
  changed (suc n) f (p ∷ ops) o h = changed n f ops o h

  in_range :
      (n : ℕ) (ops : List ReplyOp) (o : ReplyOp) → get_elem? ops n ≡ some o → suc n ≤ length ops
  in_range n [] o h = ground arith
  in_range zero (p ∷ ops) o h = omega arith
  in_range (suc n) (p ∷ ops) o h = omega (arith, in_range n ops o h)

  get_flag-flag : (b : Bool) → d.get_flag (e.flag b) ≡ some (b, [])
  get_flag-flag b =
      subst (λ s. d.get_flag s ≡ some (b, [])) (append-nil (e.flag b)) (d.flag_read b [])

  read_vals-pairs :
      (kvs : List (Bytes × Bytes))
      → AreShort kvs
      → length kvs < 4294967296
      → read_vals (e.num32 (u32 (length kvs)) ++ pairs e kvs ++ e.flag false) ≡ some (kvs, false)
  unfolding read_vals
  read_vals-pairs kvs a l =
      let q : u32 (length kvs) ≡ length kvs = omega arith in
      rw
        (
          read_vals,
          q,
          append_assoc (e.num32 (length kvs)) (pairs e kvs) (e.flag false),
          d.num32_read (length kvs) (pairs e kvs ++ e.flag false) l,
          get_pairs-pairs kvs (e.flag false) a,
          get_flag-flag false,
        )
        refl

  -- When an operation of the message has no data yet, and no key or value of a batch of fewer than
  -- 2^32 pairs is empty or as long as 2^32, EncodeOmapGetvals puts data there from which Ceph's
  -- decoders read the pairs of the batch in their order, and that there are no more.
  pub encode_omap_getvals-read :
      (kvs : List (Bytes × Bytes)) (i : ℤ) (ops : List ReplyOp) (o : ReplyOp)
      → get_elem? ops (to_u32 i) ≡ some o
      → o.outdata ≡ []
      → AreShort kvs
      → length kvs < 4294967296
      → (ops' : List ReplyOp) × (o' : ReplyOp) × (encode_omap_getvals e (some kvs) i (some ops)
          ≡ some ops')
        × (get_elem? ops' (to_u32 i) ≡ some o')
        × (read_vals o'.outdata ≡ some (kvs, false))
  unfolding encode_omap_getvals at_op
  encode_omap_getvals-read kvs i ops o h z a l = (
    modify (to_u32 i) f ops,
    f o,
    rw (at_op, inside) (write_at-modify (to_u32 i) f ops (in_range (to_u32 i) ops o h)),
    changed (to_u32 i) f ops o h,
    rw (z) (read_vals-pairs kvs a l),
  )
    where
      f : ReplyOp → ReplyOp
      f = append e (e.num32 (u32 (length kvs)) ++ pairs e kvs ++ e.flag false)

      inside : leb (length ops) (to_u32 i) ≡ false
      inside = ground (arith, in_range (to_u32 i) ops o h)
