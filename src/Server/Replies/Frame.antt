-- ===== src/Server/Replies/Frame.antt =====
-- The Encode functions change one operation, and nothing out of bounds.
use global_cache_adaptor.Common.{
  ℕ, zero, suc, ◌≤◌, ◌<◌, ◌≡◌, ◌≢◌, inl, inr, refl, ap, arith, true, false, List, [], ◌∷◌, Option,
  none, some, leb, length, get_elem?, Bool-cases,
}
use global_cache_adaptor.Common.Int.{ℤ}
use global_cache_adaptor.Common.Number.{to_u32}
use global_cache_adaptor.Server.Replies.{
  ReplyOp, Encoding, Result, omap_keys, omap_vals, omap_vals_by_keys, read, xattr, xattrs, op_stat,
  list_snaps, modify, write_at, at_op, encode_omap_getkeys, encode_omap_getvals,
  encode_omap_getvalsbykeys, encode_read, encode_xattr_get_xattr, encode_xattr_get_xattrs,
  encode_get_opstat, encode_list_snaps, encode_result, set_op_result,
}

-- A message behind a call for operation `i`: as many operations, no other than `i` changed, and none
-- at all if there is no operation `i`.
pub record IsLocal (i : ℕ) (ops ops' : List ReplyOp) : Type 0 where
  pub same_length : length ops' ≡ length ops
  pub others : (j : ℕ) → i ≢ j → get_elem? ops' j ≡ get_elem? ops j
  pub beyond : length ops ≤ i → ops' ≡ ops

-- A call that succeeds and is local.
abbrev pub EndsLocal : ℕ → List ReplyOp → Option (List ReplyOp) → Type 0
EndsLocal i ops r = (ops' : List ReplyOp) × (r ≡ some ops') × IsLocal i ops ops'

length-modify :
    (i : ℕ) (f : ReplyOp → ReplyOp) (ops : List ReplyOp) → length (modify i f ops) ≡ length ops
length-modify i f [] = refl
length-modify zero f (o ∷ ops) = refl
length-modify (suc i) f (o ∷ ops) = ap suc (length-modify i f ops)

modify_other :
    (i j : ℕ) (f : ReplyOp → ReplyOp) (ops : List ReplyOp)
    → i ≢ j
    → get_elem? (modify i f ops) j ≡ get_elem? ops j
modify_other i j f [] n = refl
modify_other zero zero f (o ∷ ops) n = absurd (n refl)
modify_other zero (suc j) f (o ∷ ops) n = refl
modify_other (suc i) zero f (o ∷ ops) n = refl
modify_other (suc i) (suc j) f (o ∷ ops) n = modify_other i j f ops (λ q. n (ap suc q))

pub write_at-modify :
    (i : ℕ) (f : ReplyOp → ReplyOp) (ops : List ReplyOp)
    → i < length ops
    → write_at i f ops ≡ some (modify i f ops)
write_at-modify i f [] h = ground arith
write_at-modify zero f (o ∷ ops) h = refl
write_at-modify (suc i) f (o ∷ ops) h = rw (write_at-modify i f ops (omega arith)) refl

unchanged : (i : ℕ) (ops : List ReplyOp) → EndsLocal i ops (some ops)
unchanged i ops =
    (ops, refl, record { same_length = refl; others = λ j n. refl; beyond = λ h. refl })

at_op-EndsLocal :
    (i : ℤ) (f : ReplyOp → ReplyOp) (ops : List ReplyOp)
    → EndsLocal (to_u32 i) ops (at_op i f (some ops))
unfolding at_op
at_op-EndsLocal i f ops = elim (Bool-cases (leb (length ops) (to_u32 i))) [
  | inl y ↦ rw (at_op, y) (unchanged (to_u32 i) ops)
  | inr y ↦
      rw (at_op, y, write_at-modify (to_u32 i) f ops (ground arith))
        (
          modify (to_u32 i) f ops,
          refl,
          record {
            same_length = length-modify (to_u32 i) f ops;
            others = λ j n. modify_other (to_u32 i) j f ops n;
            beyond = λ h. ground arith;
          },
        )
]

module _ (e : Encoding) where
  -- A call with a result for operation `i` of a message, whatever the result, and a call that sets
  -- its code, change no other operation, whatever the index. An index that is not that of an
  -- operation, a negative one among them, changes nothing. No call writes out of bounds.
  pub encode_result-EndsLocal :
      (r : Result) (ret i : ℤ) (ops : List ReplyOp)
      → EndsLocal (to_u32 i) ops (encode_result e r i (some ops))
        × EndsLocal (to_u32 i) ops (set_op_result i ret (some ops))
  unfolding set_op_result encode_result encode_omap_getkeys encode_omap_getvals
      encode_omap_getvalsbykeys encode_read encode_xattr_get_xattr encode_xattr_get_xattrs
      encode_get_opstat encode_list_snaps
  encode_result-EndsLocal r ret i ops = (by_result r, by_code)
    where
      by_code : EndsLocal (to_u32 i) ops (set_op_result i ret (some ops))
      by_code = at_op-EndsLocal i (λ o. record o { rval = ret }) ops

      by_result : (r : Result) → EndsLocal (to_u32 i) ops (encode_result e r i (some ops))
      by_result (omap_keys none) = unchanged (to_u32 i) ops
      by_result (omap_keys (some ks)) = at_op-EndsLocal i _ ops
      by_result (omap_vals none) = unchanged (to_u32 i) ops
      by_result (omap_vals (some kvs)) = at_op-EndsLocal i _ ops
      by_result (omap_vals_by_keys none) = unchanged (to_u32 i) ops
      by_result (omap_vals_by_keys (some kvs)) = at_op-EndsLocal i _ ops
      by_result (read sparse offset len none) = unchanged (to_u32 i) ops
      by_result (read true offset len (some buf)) = at_op-EndsLocal i _ ops
      by_result (read false offset len (some buf)) = at_op-EndsLocal i _ ops
      by_result (xattr none) = unchanged (to_u32 i) ops
      by_result (xattr (some vs)) = at_op-EndsLocal i _ ops
      by_result (xattrs none) = unchanged (to_u32 i) ops
      by_result (xattrs (some kvs)) = at_op-EndsLocal i _ ops
      by_result (op_stat size time) = at_op-EndsLocal i _ ops
      by_result (list_snaps none) = unchanged (to_u32 i) ops
      by_result (list_snaps (some [])) = unchanged (to_u32 i) ops
      by_result (list_snaps (some (c ∷ cs))) = at_op-EndsLocal i _ ops
