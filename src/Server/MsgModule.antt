-- ===== src/Server/MsgModule.antt =====
-- src/server_adaptor/msg_module.cpp: the translation of one operation of a client's message.
pub mod Classes
use Prim.Native.Nat.{bit_or}
use mathlib.Core.Option
use global_cache_adaptor.Common.{
  ℕ, ◌+◌, ◌/◌, Bool, true, false, ◌&&◌, List, [], ◌∷◌, ◌++◌, map, Option, none, some, if◌then◌else◌,
  u32, u64, length,
}
use global_cache_adaptor.Common.Bytes.{Bytes, bytes, same}
use global_cache_adaptor.Common.Int.{ℤ}
use global_cache_adaptor.Server.Op.{OpCode, CmpMode, OsdOp, OpRequestOps, Options}

-- `bp.copy(n, s)`: what is appended to `s`, what is left, and whether enough was there. If not, it
-- throws buffer::error.
pub record Copied : Type 0 where
  pub got : Bytes
  pub rest : Bytes
  pub enough : Bool

-- What the source uses of Ceph's bufferlist: `copy`, and the decoders of the OMAP arguments. `none` is
-- buffer::error. The decoded maps and sets come in the order of their keys.
pub record Buffer : Type 0 where
  pub copy : ℕ → Bytes → Copied
  pub decode_string : Bytes → Option (Bytes × Bytes)
  pub decode_u64 : Bytes → Option (ℕ × Bytes)
  pub decode_map : Bytes → Option (List (Bytes × Bytes))
  pub decode_set : Bytes → Option (List Bytes)
  pub decode_assertions : Bytes → Option (List (Bytes × Bytes × ℤ))
  pub decimal : ℕ → Bytes  -- std::to_string

infixl 5 ◌>>=◌
abbrev pub ◌>>=◌ {ℓ κ} : {A : Type ℓ} {B : Type κ} → Option A → (A → Option B) → Option B
none >>= f = none
some a >>= f = f a

-- READ_STAT_FLAG.
abbrev pub read_stat_flag : ℕ
read_stat_flag = 0x0400

-- The `result` of the source and what it leaves in `oneOp`, `optionType` and `optionLength`.
pub record Converted : Type 0 where
  pub copyup : Bool  -- `ret == 1`
  pub one_op : OpRequestOps
  pub options : Options

-- ConvertObjRw.
abbrev pub obj_rw : OpCode → OsdOp → OpRequestOps → OpRequestOps
obj_rw OpCode.read c o = record o { out_data_len = u32 c.len }
obj_rw OpCode.sparse_read c o = record o { out_data_len = u32 c.len }
obj_rw OpCode.sync_read c o = record o { out_data_len = u32 c.len }
obj_rw OpCode.write c o = record o { in_data = c.indata; in_data_len = u32 (length c.indata) }
obj_rw OpCode.writefull c o = record o { in_data = c.indata; in_data_len = u32 (length c.indata) }
obj_rw OpCode.writesame c o = record o { in_data = c.indata; in_data_len = u32 (length c.indata) }
obj_rw OpCode.cmpext c o = record o {
  out_data_len = u32 c.len;
  in_data = c.indata;
  in_data_len = u32 (length c.indata);
}
obj_rw _ c o = o

unfoldable pub convert_obj_rw : OsdOp → OpRequestOps → OpRequestOps
convert_obj_rw c o = obj_rw c.op c o

-- A key and its value are appended.
abbrev pub push : Bytes → Bytes → OpRequestOps → OpRequestOps
push k v o = record o { keys = o.keys ++ k ∷ []; values = o.values ++ v ∷ [] }

abbrev pub push_pairs : List (Bytes × Bytes) → OpRequestOps → OpRequestOps
push_pairs [] o = o
push_pairs ((k, v) ∷ kvs) o = push_pairs kvs (push k v o)

abbrev pub push_assertions : List (Bytes × Bytes × ℤ) → OpRequestOps → OpRequestOps
push_assertions [] o = o
push_assertions ((k, v, c) ∷ as') o =
    let o' = push k v o in push_assertions as' (record o' { subops = o'.subops ++ c ∷ [] })

-- The cases of the `switch`, grouped as there.
abbrev pub as_read : Bool → OsdOp → OpRequestOps → Options → Option Converted
as_read read_stat c o t =
    let o' = convert_obj_rw c (record o { obj_offset = u32 c.offset; obj_length = u32 c.len }) in
    some (record {
      copyup = false;
      one_op = if read_stat then record o' { op_flags = bit_or o'.op_flags read_stat_flag } else o';
      options = record t { read = u32 (t.read + 1); read_kb = u64 (t.read_kb + c.len / 1024) };
    })

abbrev pub as_write : ℕ → ℕ → OsdOp → OpRequestOps → Options → Option Converted
as_write offset len c o t = some (record {
  copyup = false;
  one_op = convert_obj_rw c (record o { obj_offset = u32 offset; obj_length = u32 len });
  options = record t { write = u32 (t.write + 1); write_kb = u64 (t.write_kb + len / 1024) };
})

abbrev pub unchanged : Options → OpRequestOps → Option Converted
unchanged t o = some (record { copyup = false; one_op = o; options = t })

module _ (b : Buffer) where
  -- `bp.copy` where nothing catches the exception.
  abbrev pub copy_or_throw : ℕ → Bytes → Option (Bytes × Bytes)
  copy_or_throw n s = let r = b.copy n s in if r.enough then some (r.got, r.rest) else none

  -- The value of a comparison, by its mode.
  abbrev pub cmp_value : CmpMode → OsdOp → Bytes → OpRequestOps → Option OpRequestOps
  cmp_value CmpMode.mode_string c bp o = do
    (val, rest) ← copy_or_throw c.value_len bp
    some (record o { values = o.values ++ val ∷ [] })
  cmp_value CmpMode.mode_u64 c bp o = do
    (val, rest) ← b.decode_u64 bp
    some (record o { u64vals = o.u64vals ++ val ∷ [] })
  cmp_value (CmpMode.mode_other n) c bp o = some o

  -- The part of ConvertAttrOp behind the name.
  abbrev pub attr_value : OpCode → OsdOp → Bytes → OpRequestOps → Option OpRequestOps
  attr_value OpCode.setxattr c bp o = do
    (val, rest) ← copy_or_throw c.value_len bp
    some (record o { values = o.values ++ val ∷ [] })
  attr_value OpCode.cmpxattr c bp o =
      cmp_value c.cmp_mode c bp (record o {
        subops = o.subops ++ c.cmp_op ∷ [];
        cmp_modes = o.cmp_modes ++ c.cmp_mode ∷ [];
      })
  attr_value _ c bp o = some o

  unfoldable pub convert_attr_op : OsdOp → OpRequestOps → Option OpRequestOps
  convert_attr_op c o = do
    (name, bp) ← copy_or_throw c.name_len c.indata
    attr_value c.op c bp (record o { keys = o.keys ++ name ∷ [] })

  -- ConvertOmapOp.
  abbrev pub omap_op : OpCode → OsdOp → OpRequestOps → Option OpRequestOps
  omap_op OpCode.omapgetvals c o = do
    (start_after, bp₁) ← b.decode_string c.indata
    (max_return, bp₂) ← b.decode_u64 bp₁
    (filter_prefix, bp₃) ← b.decode_string bp₂
    let o₁ = push (bytes "start_after") start_after o
    let o₂ = push (bytes "max_return") (b.decimal max_return) o₁
    some (push (bytes "filter_prefix") filter_prefix o₂)
  omap_op OpCode.omapsetvals c o = do to_set ← b.decode_map c.indata; some (push_pairs to_set o)
  omap_op OpCode.omapgetkeys c o = do
    (start_after, bp₁) ← b.decode_string c.indata
    (max_return, bp₂) ← b.decode_u64 bp₁
    let o₁ = push (bytes "start_after") start_after o
    some (push (bytes "max_return") (b.decimal max_return) o₁)
  omap_op OpCode.omaprmkeys c o = do
    keys_to_rm ← b.decode_set c.indata
    some (record o { keys = o.keys ++ keys_to_rm })
  omap_op OpCode.omapgetvalsbykeys c o = do
    keys_to_get ← b.decode_set c.indata
    some (record o { keys = o.keys ++ keys_to_get })
  omap_op OpCode.omapsetheader c o = some (record o { in_data_len = u32 c.len; in_data = c.indata })
  omap_op OpCode.omap_cmp c o = do
    assertions ← b.decode_assertions c.indata
    some (push_assertions assertions o)
  omap_op _ c o = some o

  unfoldable pub convert_omap_op : OsdOp → OpRequestOps → Option OpRequestOps
  convert_omap_op c o = omap_op c.op c o

  unfoldable pub convert_rollback_op : OsdOp → OpRequestOps → OpRequestOps
  convert_rollback_op c o = push (bytes "snapid") (b.decimal c.snapid) o

  -- The class and the method of a CALL. The copies stop at the first one that throws.
  abbrev pub call_names : OsdOp → Bytes × Bytes
  call_names c =
      let r = b.copy c.class_len c.indata in
      if r.enough then (r.got, (b.copy c.method_len r.rest).got) else (r.got, [])

  abbrev pub is_copyup : OsdOp → Bool
  is_copyup c =
      let (cname, mname) = call_names c in same cname (bytes "rbd") && same mname (bytes "copyup")

  abbrev pub convert : OpCode → Bool → OsdOp → OpRequestOps → Options → Option Converted
  convert OpCode.cmpext s c o t = as_read s c o t
  convert OpCode.sparse_read s c o t = as_read s c o t
  convert OpCode.sync_read s c o t = as_read s c o t
  convert OpCode.read s c o t = as_read s c o t
  convert OpCode.zero s c o t = as_write c.offset c.len c o t
  convert OpCode.truncate s c o t = as_write c.offset c.len c o t
  convert OpCode.writefull s c o t = as_write c.offset c.len c o t
  convert OpCode.write s c o t = as_write c.offset c.len c o t
  convert OpCode.getxattr s c o t = convert_attr_op c o >>= unchanged t
  convert OpCode.rmxattr s c o t = convert_attr_op c o >>= unchanged t
  convert OpCode.cmpxattr s c o t = convert_attr_op c o >>= unchanged t
  convert OpCode.setxattr s c o t = convert_attr_op c o >>= unchanged t
  convert OpCode.omapgetvals s c o t = convert_omap_op c o >>= unchanged t
  convert OpCode.omapsetvals s c o t = convert_omap_op c o >>= unchanged t
  convert OpCode.omapgetkeys s c o t = convert_omap_op c o >>= unchanged t
  convert OpCode.omaprmkeys s c o t = convert_omap_op c o >>= unchanged t
  convert OpCode.omapclear s c o t = convert_omap_op c o >>= unchanged t
  convert OpCode.omapgetvalsbykeys s c o t = convert_omap_op c o >>= unchanged t
  convert OpCode.omap_cmp s c o t = convert_omap_op c o >>= unchanged t
  convert OpCode.omapsetheader s c o t = convert_omap_op c o >>= unchanged t
  convert OpCode.omapgetheader s c o t = convert_omap_op c o >>= unchanged t
  convert OpCode.getxattrs s c o t = unchanged t (record o { op_flags = c.flags })
  convert OpCode.stat s c o t = unchanged t (record o { op_flags = c.flags })
  convert OpCode.call s c o t = some (record { copyup = is_copyup c; one_op = o; options = t })
  convert OpCode.list_snaps s c o t = unchanged t o
  convert OpCode.create s c o t = unchanged t (record o { op_flags = c.flags })
  convert OpCode.rollback s c o t = unchanged t (convert_rollback_op c o)
  convert OpCode.writesame s c o t = as_write c.same_offset c.same_len c o t
  convert (OpCode.other n) s c o t = unchanged t o

  -- ConvertClientopToOpreq; `s` is `readStatFlag`, and `none` an exception that leaves the function.
  unfoldable pub convert_clientop : Bool → OsdOp → OpRequestOps → Options → Option Converted
  unfolding convert_obj_rw convert_attr_op convert_omap_op convert_rollback_op
  convert_clientop s c o t = convert c.op s c (record o { op_sub_type = c.op }) t
