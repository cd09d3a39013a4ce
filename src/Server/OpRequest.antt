-- ===== src/Server/OpRequest.antt =====
-- src/server_adaptor/network_module.cpp, NetworkModule::ProcessOpReq: the translation of a client's
-- message into a request of the accelerator.
pub mod Names
pub mod NameFormat
pub mod Kinds
use global_cache_adaptor.Common.{
  ℕ, ◌+◌, ◌-◌, ◌/◌, ◌%◌, Bool, true, false, ◌||◌, List, [], ◌∷◌, ◌++◌, Option, none, some, ◌==◌,
  leb, ltb, if◌then◌else◌, length, get_or,
}
use global_cache_adaptor.Common.Bytes.{Bytes, bytes, same, tokens}
use global_cache_adaptor.Common.Number.{strtoull}
use global_cache_adaptor.Server.Op.{
  OpCode, OsdOp, RbdObjid, OpRequestOps, Options, new_op, no_rbd_id,
}
use global_cache_adaptor.Server.MsgModule.{Buffer, Converted, convert_clientop}
use global_cache_adaptor.Server.Throttle.{OptionType, gcache_write, gcache_read}

-- What the source reads of Ceph's MOSDOp.
pub record MosdOp : Type 0 where
  pub name : Bytes  -- get_oid().name
  pub pool : ℕ  -- get_pg().pool(), below 2^63
  pub tid : ℕ
  pub snap_id : ℕ
  pub seq : ℕ
  pub pt_id : ℕ  -- get_pg().m_seed
  pub snap_seq : ℕ
  pub snaps : List ℕ
  pub ops : List OsdOp

pub record SaOpReq : Type 0 where
  pub vec_ops : List OpRequestOps
  pub option_type : OptionType
  pub option_length : ℕ
  pub tid : ℕ
  pub snap_id : ℕ
  pub pool_id : ℕ
  pub pt_version : ℕ
  pub ops_sequence : ℕ
  pub pt_id : ℕ
  pub snap_seq : ℕ
  pub snaps : List ℕ
  pub exits_copy_up : Bool

-- std::string to a C string: the bytes up to the first 0.
abbrev pub c_str : Bytes → Bytes
c_str [] = []
c_str (c ∷ s) = if c == 0 then [] else c ∷ c_str s

-- `vecObj`: the sections of an object's name.
unfoldable pub sections : Bytes → List Bytes
sections name = tokens b'.' (c_str name)

unfoldable pub is_rbd_data : List Bytes → Bool
is_rbd_data [] = false
is_rbd_data (first ∷ rest) = same first (bytes "rbd_data")

-- `vecObj[vecObj.size() - k]`.
abbrev pub from_end : ℕ → List Bytes → Bytes
from_end k v = get_or v (length v - k) []

-- SA_VERSION, FORMAT_UNSPECIFY_MD_DATE_POOL and FORMAT_SPECIFY_MD_DATE_POOL.
abbrev pub sa_version : ℕ
sa_version = 1

abbrev pub format_unspecify : ℕ
format_unspecify = 0

abbrev pub format_specify : ℕ
format_specify = 1

-- The identity of an RBD object; `none` is a pool that does not fit 32 bits. Images get the prefix "1";
-- `seq` is a field of 40 bits.
unfoldable pub rbd_objid : List Bytes → Option RbdObjid
rbd_objid v =
    let id : RbdObjid = record {
      pool_id = 0;
      head = strtoull 16 (b'1' ∷ from_end 2 v);
      seq = strtoull 16 (from_end 1 v) % 1099511627776;
      format = format_unspecify;
      version = sa_version;
    } in
    let pool = strtoull 10 (from_end 3 v) in
    if ltb 3 (length v)
    then if ltb 0 (pool / 4294967296)
      then none
      else some (record id { pool_id = pool; format = format_specify })
    else some id

-- What the loop over the operations has filled in.
pub record Progress : Type 0 where
  pub vec_ops : List OpRequestOps
  pub exits_copy_up : Bool
  pub options : Options

-- How the function ends: 0 with a request; 1 after a reply with -EINVAL; -1, with no reply; or by an
-- exception of a decoder.
pub data Outcome (A : Type 0) : Type 0 where
  done : A → Outcome A
  refused : Outcome A
  dropped : Outcome A
  thrown : Outcome A

-- A new OpRequestOps for the object.
abbrev pub start_op : Bytes → Bool → List Bytes → Option OpRequestOps
start_op name false v = some (new_op (c_str name))
start_op name true v = elim (rbd_objid v) [
  | none ↦ none
  | some id ↦ some (record (new_op (c_str name)) { is_rbd = true; rbd_obj_id = id })
]

abbrev pub advance : Progress → Converted → Progress
advance p r = record {
  vec_ops = p.vec_ops ++ r.one_op ∷ [];
  exits_copy_up = p.exits_copy_up || r.copyup;
  options = r.options;
}

abbrev pub no_progress : Progress
no_progress = record {
  vec_ops = [];
  exits_copy_up = false;
  options = record { write = 0; read = 0; write_kb = 0; read_kb = 0 };
}

-- The request that is filled in after the loop.
abbrev pub finish : MosdOp → Progress → SaOpReq
finish m p = record {
  vec_ops = p.vec_ops;
  option_type = if p.options.write == 0 then gcache_read else gcache_write;
  option_length = if p.options.write == 0 then p.options.read_kb else p.options.write_kb;
  tid = m.tid;
  snap_id = m.snap_id;
  pool_id = m.pool % 4294967296;
  pt_version = m.pool / 4294967296;
  ops_sequence = m.seq;
  pt_id = m.pt_id;
  snap_seq = m.snap_seq;
  snaps = m.snaps;
  exits_copy_up = p.exits_copy_up;
}

abbrev pub end_loop : MosdOp → Outcome Progress → Outcome SaOpReq
end_loop m (done p) = done (finish m p)
end_loop m refused = refused
end_loop m dropped = dropped
end_loop m thrown = thrown

module _ (b : Buffer) (read_stat : Bool) where
  -- The loop over `op->ops`.
  unfoldable pub convert_ops : Bytes → Bool → List Bytes → List OsdOp → Progress → Outcome Progress
  convert_ops name rbd v [] p = done p
  convert_ops name rbd v (c ∷ cs) p = elim (start_op name rbd v) [
    | none ↦ dropped
    | some o ↦ elim (convert_clientop b read_stat c o p.options) [
      | none ↦ thrown
      | some r ↦ convert_ops name rbd v cs (advance p r)
    ]
  ]

  unfoldable pub process_op_req : MosdOp → Outcome SaOpReq
  unfolding sections is_rbd_data
  process_op_req m =
      let v = sections m.name in
      let rbd = is_rbd_data v in
      if rbd
      then if leb 3 (length v)
        then end_loop m (convert_ops m.name true v m.ops no_progress)
        else refused
      else end_loop m (convert_ops m.name false v m.ops no_progress)

abbrev pub is_plain_write : OpCode → Bool
is_plain_write OpCode.writefull = true
is_plain_write OpCode.write = true
is_plain_write _ = false

-- ContainWriteOp.
unfoldable pub contain_write_op : List OsdOp → Bool
contain_write_op [] = false
contain_write_op (c ∷ cs) = is_plain_write c.op || contain_write_op cs
