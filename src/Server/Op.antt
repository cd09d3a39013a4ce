-- ===== src/Server/Op.antt =====
-- The operations that a client's message holds (Ceph's OSDOp) and the ones that the accelerator
-- takes (src/dependency/include/sa_def.h). Ceph lays the arguments of an operation over one another
-- in a union; here each has a field.
use global_cache_adaptor.Common.{ℕ, Bool, false, List, []}
use global_cache_adaptor.Common.Bytes.{Bytes}
use global_cache_adaptor.Common.Int.{ℤ}

-- CEPH_OSD_OP_…, as far as the source names them.
pub data OpCode : Type 0 where
  cmpext sparse_read sync_read read : OpCode
  zero truncate writefull write : OpCode
  getxattr rmxattr cmpxattr setxattr : OpCode
  omapgetvals omapsetvals omapgetkeys omaprmkeys omapclear omapgetvalsbykeys : OpCode
  omap_cmp omapsetheader omapgetheader : OpCode
  getxattrs stat call list_snaps create rollback writesame : OpCode
  other : ℕ → OpCode

-- op.xattr.cmp_mode: CEPH_OSD_CMPXATTR_MODE_STRING, _U64, or another number.
pub data CmpMode : Type 0 where
  mode_string mode_u64 : CmpMode
  mode_other : ℕ → CmpMode

pub record OsdOp : Type 0 where
  pub op : OpCode
  pub flags : ℕ
  pub offset : ℕ  -- extent.offset
  pub len : ℕ  -- extent.length
  pub same_offset : ℕ  -- writesame.offset
  pub same_len : ℕ  -- writesame.length
  pub class_len : ℕ  -- cls.class_len
  pub method_len : ℕ  -- cls.method_len
  pub name_len : ℕ  -- xattr.name_len
  pub value_len : ℕ  -- xattr.value_len
  pub cmp_op : ℤ  -- xattr.cmp_op
  pub cmp_mode : CmpMode  -- xattr.cmp_mode
  pub snapid : ℕ  -- snap.snapid
  pub indata : Bytes

-- RbdObjid; `seq` has 40 bits, `format` and `version` have 8.
pub record RbdObjid : Type 0 where
  pub pool_id : ℕ
  pub head : ℕ
  pub seq : ℕ
  pub format : ℕ
  pub version : ℕ

-- OpRequestOps. `in_data` is what the pointer `inData` points to.
pub record OpRequestOps : Type 0 where
  pub op_sub_type : OpCode
  pub obj_name : Bytes
  pub is_rbd : Bool
  pub rbd_obj_id : RbdObjid
  pub in_data : Bytes
  pub in_data_len : ℕ
  pub out_data_len : ℕ
  pub obj_offset : ℕ
  pub obj_length : ℕ
  pub op_flags : ℕ
  pub keys : List Bytes
  pub values : List Bytes
  pub subops : List ℤ
  pub u64vals : List ℕ
  pub cmp_modes : List CmpMode

abbrev pub no_rbd_id : RbdObjid
no_rbd_id = record { pool_id = 0; head = 0; seq = 0; format = 0; version = 0 }

-- A new OpRequestOps with its object's name set. (The source leaves `rbdObjId` unset.)
abbrev pub new_op : Bytes → OpRequestOps
new_op name = record {
  op_sub_type = OpCode.other 0;
  obj_name = name;
  is_rbd = false;
  rbd_obj_id = no_rbd_id;
  in_data = [];
  in_data_len = 0;
  out_data_len = 0;
  obj_offset = 0;
  obj_length = 0;
  op_flags = 0;
  keys = [];
  values = [];
  subops = [];
  u64vals = [];
  cmp_modes = [];
}

-- OptionsType and OptionsLength: the numbers of writes and of reads, and their kilobytes.
pub record Options : Type 0 where
  pub write : ℕ
  pub read : ℕ
  pub write_kb : ℕ
  pub read_kb : ℕ
