-- ===== src/Server/Replies.antt =====
-- src/server_adaptor/network_module.cpp, SetOpResult, ProcessBuf and the Encode functions: what the
-- accelerator calls to put the results of an operation into the client's message.
pub mod Frame
pub mod Decoding
use mathlib.Core.Option
use global_cache_adaptor.Common.{
  ℕ, zero, suc, ◌+◌, Bool, true, false, ◌||◌, List, [], ◌∷◌, ◌++◌, Option, none, some, leb, ltb,
  ◌==◌, if◌then◌else◌, u32, length,
}
use global_cache_adaptor.Common.Bytes.{Bytes, same}
use global_cache_adaptor.Common.Int.{ℤ}
use global_cache_adaptor.Common.Number.{to_u32}

-- What these functions write of an operation of Ceph's MOSDOp.
pub record ReplyOp : Type 0 where
  pub rval : ℤ
  pub outdata : Bytes

-- A clone of an object, as the accelerator gives it.
pub record CloneInfo : Type 0 where
  pub cloneid : ℕ
  pub obj_size : ℕ
  pub snaps : List ℕ
  pub overlaps : List (ℕ × ℕ)

-- Ceph's encodings, by the bytes that they append.
pub record Encoding : Type 0 where
  pub num32 : ℕ → Bytes
  pub num64 : ℕ → Bytes
  pub time : ℤ → Bytes
  pub flag : Bool → Bytes
  pub text : Bytes → Bytes
  pub text_map : List (Bytes × Bytes) → Bytes
  pub extents : List (ℕ × ℕ) → Bytes
  pub snap_response : ℕ → List CloneInfo → Bytes

-- The results that the accelerator has for an operation. A batch with null pointers is `none`, and
-- so is a null buffer; a key or value with a null buffer is an empty one.
pub data Result : Type 0 where
  omap_keys : Option (List Bytes) → Result
  omap_vals : Option (List (Bytes × Bytes)) → Result
  omap_vals_by_keys : Option (List (Bytes × Bytes)) → Result
  read : Bool → ℕ → ℕ → Option Bytes → Result
  xattr : Option (List Bytes) → Result
  xattrs : Option (List (Bytes × Bytes)) → Result
  op_stat : ℕ → ℤ → Result
  list_snaps : Option (List CloneInfo) → Result

-- `ops[i]`, changed; nothing behind the end.
abbrev pub modify : ℕ → (ReplyOp → ReplyOp) → List ReplyOp → List ReplyOp
modify i f [] = []
modify zero f (o ∷ ops) = f o ∷ ops
modify (suc i) f (o ∷ ops) = o ∷ modify i f ops

-- A write to `ops[i]`; `none` is a write out of bounds.
abbrev pub write_at : ℕ → (ReplyOp → ReplyOp) → List ReplyOp → Option (List ReplyOp)
write_at i f [] = none
write_at zero f (o ∷ ops) = some (f o ∷ ops)
write_at (suc i) f (o ∷ ops) = Option.map (λ ops'. o ∷ ops') (write_at i f ops)

-- A change of operation `i` behind the tests for a null message and for the index; `none` is a null
-- message, or a write out of bounds.
unfoldable pub at_op : ℤ → (ReplyOp → ReplyOp) → Option (List ReplyOp) → Option (List ReplyOp)
at_op i f none = none
at_op i f (some ops) = if leb (length ops) (to_u32 i) then some ops else write_at (to_u32 i) f ops

unfoldable pub set_op_result : ℤ → ℤ → Option (List ReplyOp) → Option (List ReplyOp)
set_op_result i ret = at_op i (λ o. record o { rval = ret })

-- std::string's order.
abbrev pub less : Bytes → Bytes → Bool
less [] [] = false
less [] (b ∷ bs) = true
less (a ∷ as') [] = false
less (a ∷ as') (b ∷ bs) = if a == b then less as' bs else ltb a b

-- std::map::insert, which keeps the value of a key that is there.
abbrev pub insert_new : Bytes → Bytes → List (Bytes × Bytes) → List (Bytes × Bytes)
insert_new k v [] = (k, v) ∷ []
insert_new k v ((j, w) ∷ m) =
    if same k j
    then (j, w) ∷ m
    else if less k j
    then (k, v) ∷ (j, w) ∷ m
    else (j, w) ∷ insert_new k v m

-- The map `out` that the loops of EncodeOmapGetvalsbykeys and EncodeXattrGetXattrs fill.
unfoldable pub collect : List (Bytes × Bytes) → List (Bytes × Bytes) → List (Bytes × Bytes)
collect [] out = out
collect ((k, v) ∷ kvs) out = collect kvs (insert_new k v out)

abbrev pub values : List Bytes → Bytes
values [] = []
values (v ∷ vs) = v ++ values vs

-- The sequence of EncodeListSnaps: the last clone before the head.
abbrev pub snap_seq_of : List CloneInfo → ℕ
snap_seq_of [] = 0
snap_seq_of (c ∷ []) = 0
snap_seq_of (c ∷ d ∷ []) = c.cloneid
snap_seq_of (c ∷ d ∷ e ∷ cs) = snap_seq_of (d ∷ e ∷ cs)

-- Its clones: the last one is the head, with the number -2, and without snapshots or overlaps.
unfoldable pub clones_of : List CloneInfo → List CloneInfo
clones_of [] = []
clones_of (c ∷ []) =
    record { cloneid = 18446744073709551614; obj_size = c.obj_size; snaps = []; overlaps = [] } ∷ []
clones_of (c ∷ d ∷ cs) = c ∷ clones_of (d ∷ cs)

module _ (e : Encoding) where
  abbrev pub append : Bytes → ReplyOp → ReplyOp
  append b o = record o { outdata = o.outdata ++ b }

  -- ProcessBuf does not test the index; `none` is an access outside of the operations.
  unfoldable pub process_buf :
      Option Bytes → ℕ → Option (List ReplyOp) → Option (Option (List ReplyOp))
  process_buf buf cnt none = some none
  process_buf none cnt (some ops) = some (some ops)
  process_buf (some b) cnt (some ops) =
      if leb (length ops) cnt then none else some (some (modify cnt (append (e.text b)) ops))

  abbrev pub texts : List Bytes → Bytes
  texts [] = []
  texts (k ∷ ks) = e.text k ++ texts ks

  -- EncodeOmapGetvals passes over an empty key or value.
  abbrev pub text_unless_empty : Bytes → Bytes
  text_unless_empty [] = []
  text_unless_empty (c ∷ s) = e.text (c ∷ s)

  abbrev pub pairs : List (Bytes × Bytes) → Bytes
  pairs [] = []
  pairs ((k, v) ∷ kvs) = (text_unless_empty k ++ text_unless_empty v) ++ pairs kvs

  unfoldable pub encode_omap_getkeys :
      Option (List Bytes) → ℤ → Option (List ReplyOp) → Option (List ReplyOp)
  encode_omap_getkeys none i ops = ops
  encode_omap_getkeys (some ks) i ops =
      at_op i (append (e.num32 (u32 (length ks)) ++ texts ks ++ e.flag false)) ops

  unfoldable pub encode_omap_getvals :
      Option (List (Bytes × Bytes)) → ℤ → Option (List ReplyOp) → Option (List ReplyOp)
  encode_omap_getvals none i ops = ops
  encode_omap_getvals (some kvs) i ops =
      at_op i (append (e.num32 (u32 (length kvs)) ++ pairs kvs ++ e.flag false)) ops

  unfoldable pub encode_omap_getvalsbykeys :
      Option (List (Bytes × Bytes)) → ℤ → Option (List ReplyOp) → Option (List ReplyOp)
  encode_omap_getvalsbykeys none i ops = ops
  encode_omap_getvalsbykeys (some kvs) i ops = at_op i (append (e.text_map (collect kvs []))) ops

  unfoldable pub encode_read :
      Bool → ℕ → ℕ → Option Bytes → ℤ → Option (List ReplyOp) → Option (List ReplyOp)
  encode_read sparse offset len none i ops = ops
  encode_read true offset len (some buf) i ops =
      at_op i (append (e.extents ((offset, len) ∷ []) ++ e.text buf)) ops
  encode_read false offset len (some buf) i ops = at_op i (append buf) ops

  unfoldable pub encode_xattr_get_xattr :
      Option (List Bytes) → ℤ → Option (List ReplyOp) → Option (List ReplyOp)
  encode_xattr_get_xattr none i ops = ops
  encode_xattr_get_xattr (some vs) i ops = at_op i (λ o. record o { outdata = values vs }) ops

  unfoldable pub encode_xattr_get_xattrs :
      Option (List (Bytes × Bytes)) → ℤ → Option (List ReplyOp) → Option (List ReplyOp)
  encode_xattr_get_xattrs none i ops = ops
  encode_xattr_get_xattrs (some kvs) i ops = at_op i (append (e.text_map (collect kvs []))) ops

  unfoldable pub encode_get_opstat : ℕ → ℤ → ℤ → Option (List ReplyOp) → Option (List ReplyOp)
  encode_get_opstat size time i ops = at_op i (append (e.num64 size ++ e.time time)) ops

  unfoldable pub encode_list_snaps :
      Option (List CloneInfo) → ℤ → Option (List ReplyOp) → Option (List ReplyOp)
  encode_list_snaps none i ops = ops
  encode_list_snaps (some []) i ops = ops
  encode_list_snaps (some (c ∷ cs)) i ops =
      at_op i (append (e.snap_response (snap_seq_of (c ∷ cs)) (clones_of (c ∷ cs)))) ops

  -- The call for a result.
  unfoldable pub encode_result : Result → ℤ → Option (List ReplyOp) → Option (List ReplyOp)
  encode_result (omap_keys ks) i ops = encode_omap_getkeys ks i ops
  encode_result (omap_vals kvs) i ops = encode_omap_getvals kvs i ops
  encode_result (omap_vals_by_keys kvs) i ops = encode_omap_getvalsbykeys kvs i ops
  encode_result (read sparse offset len buf) i ops = encode_read sparse offset len buf i ops
  encode_result (xattr vs) i ops = encode_xattr_get_xattr vs i ops
  encode_result (xattrs kvs) i ops = encode_xattr_get_xattrs kvs i ops
  encode_result (op_stat size time) i ops = encode_get_opstat size time i ops
  encode_result (list_snaps cs) i ops = encode_list_snaps cs i ops
