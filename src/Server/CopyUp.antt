-- ===== src/Server/CopyUp.antt =====
-- src/server_adaptor/osa.cpp: the "copyup" of OSA_ExecClass, which writes the parent image's data to a
-- new object after the writes of the same request have been merged into it.
pub mod Merge
use global_cache_adaptor.Common.{
  ℕ, zero, suc, ◌+◌, Bool, true, false, ◌&&◌, not, List, [], ◌∷◌, Option, none, some, ◌==◌, ltb,
  if◌then◌else◌, u32, length,
}
use global_cache_adaptor.Common.Bytes.{Bytes}
use global_cache_adaptor.Server.Op.{OpCode, OpRequestOps, new_op}

-- memcpy(data + off, s, n); `none` is an access outside of `s` or of `data`.
unfoldable pub memcpy : ℕ → ℕ → Bytes → Bytes → Option Bytes
memcpy zero zero s d = some d
memcpy zero (suc n) [] d = none
memcpy zero (suc n) (b ∷ s) [] = none
memcpy zero (suc n) (b ∷ s) (x ∷ d) = elim (memcpy zero n s d) [
  | none ↦ none
  | some d' ↦ some (b ∷ d')
]
memcpy (suc off) n s [] = none
memcpy (suc off) n s (x ∷ d) = elim (memcpy off n s d) [ none ↦ none | some d' ↦ some (x ∷ d') ]

abbrev pub is_write : OpCode → Bool
is_write OpCode.write = true
is_write _ = false

-- How the loop of MergeCopyup ends: with the merged data; with -EINVAL, and the data as merged so far;
-- or with an access out of bounds, which is undefined.
pub data Merged : Type 0 where
  merged : Bytes → Merged
  invalid : Bytes → Merged
  overrun : Merged

-- A write that MergeCopyup merges.
abbrev pub has_data : OpRequestOps → Bool
has_data o = is_write o.op_sub_type && not (o.in_data_len == 0)

-- The loop of MergeCopyup over the operations behind the copyup. The sum in its test has 32 bits.
unfoldable pub merge_ops : ℕ → List OpRequestOps → Bytes → Merged
unfolding memcpy
merge_ops len [] d = merged d
merge_ops len (o ∷ os) d =
    if has_data o
    then if ltb len (u32 (o.obj_offset + o.in_data_len))
      then invalid d
      else elim (memcpy o.obj_offset o.in_data_len o.in_data d) [
        | none ↦ overrun
        | some d' ↦ merge_ops len os d'
      ]
    else merge_ops len os d

-- ConstructWriteOp, for the copyup operation `o`.
unfoldable pub construct_write_op : OpRequestOps → ℕ → ℕ → Bytes → OpRequestOps
construct_write_op o off len d = record (new_op o.obj_name) {
  op_sub_type = OpCode.write;
  is_rbd = o.is_rbd;
  rbd_obj_id = o.rbd_obj_id;
  obj_offset = off;
  obj_length = len;
  in_data = d;
  in_data_len = len;
}

-- The operation of WriteSaRocache; the name is the message's.
unfoldable pub write_sa_rocache : Bytes → OpRequestOps → OpRequestOps
write_sa_rocache name o = record (new_op name) {
  op_sub_type = OpCode.other 0x5000;
  is_rbd = o.is_rbd;
  rbd_obj_id = o.rbd_obj_id;
}

-- What the branch "copyup" of OSA_ExecClass does; each way clears `copyupFlag`, but for the overrun.
pub data CopyupEnd : Type 0 where
  skips : CopyupEnd  -- 0, and nothing is written
  writes : OpRequestOps → CopyupEnd  -- cbFunc gets this operation alone
  einval : CopyupEnd
  undefined : CopyupEnd

abbrev pub end_merge : OpRequestOps → ℕ → Merged → CopyupEnd
end_merge o len (merged d) = writes (construct_write_op o 0 len d)
end_merge o len (invalid d) = einval
end_merge o len overrun = undefined

-- MergeCopyup.
unfoldable pub merge_copyup : OpRequestOps → List OpRequestOps → ℕ → Bytes → CopyupEnd
unfolding merge_ops construct_write_op
merge_copyup o os len d = end_merge o len (merge_ops len os d)

-- `exists_already` tells that cls_cxx_stat2 returns 0; `name` is the message's object.
unfoldable pub exec_copyup : Bool → Bytes → OpRequestOps → List OpRequestOps → Bytes → CopyupEnd
unfolding merge_copyup write_sa_rocache
exec_copyup exists_already name o os indata =
    if exists_already
    then skips
    else if length indata == 0
    then writes (write_sa_rocache name o)
    else merge_copyup o os (u32 (length indata)) indata
