-- ===== src/Server/Tests/Data.antt =====
-- A buffer list, operations and messages for the runs of src/server_adaptor.
use global_cache_adaptor.Common.{ℕ, zero, suc, true, false, List, [], ◌∷◌, none}
use global_cache_adaptor.Common.Bytes.{Bytes, bytes}
use global_cache_adaptor.Common.Int.{pos}
use global_cache_adaptor.Server.Op.{OpCode, mode_string, OsdOp, Options}
use global_cache_adaptor.Server.MsgModule.{Buffer, Copied}
use global_cache_adaptor.Server.OpRequest.{
  MosdOp, SaOpReq, Outcome, done, refused, dropped, thrown, finish, no_progress, process_op_req,
}

abbrev pub copy_bytes : ℕ → Bytes → Copied
copy_bytes zero s = record { got = []; rest = s; enough = true }
copy_bytes (suc n) [] = record { got = []; rest = []; enough = false }
copy_bytes (suc n) (c ∷ s) =
    let r = copy_bytes n s in record { got = c ∷ r.got; rest = r.rest; enough = r.enough }

-- A buffer list that decodes nothing.
abbrev pub buffer : Buffer
buffer = record {
  copy = copy_bytes;
  decode_string = λ s. none;
  decode_u64 = λ s. none;
  decode_map = λ s. none;
  decode_set = λ s. none;
  decode_assertions = λ s. none;
  decimal = λ n. [];
}

abbrev pub client_op : OpCode → ℕ → ℕ → Bytes → OsdOp
client_op code offset len input = record {
  op = code;
  flags = 0;
  offset = offset;
  len = len;
  same_offset = 0;
  same_len = 0;
  class_len = 0;
  method_len = 0;
  name_len = 0;
  value_len = 0;
  cmp_op = pos 0;
  cmp_mode = mode_string;
  snapid = 0;
  indata = input;
}

abbrev pub write_two : OsdOp
write_two = client_op OpCode.write 1 2 (7 ∷ 8 ∷ [])

abbrev pub no_options : Options
no_options = record { write = 0; read = 0; write_kb = 0; read_kb = 0 }

abbrev pub message : Bytes → List OsdOp → MosdOp
message name ops = record {
  name = name;
  pool = 5;
  tid = 1;
  snap_id = 0;
  seq = 9;
  pt_id = 3;
  snap_seq = 0;
  snaps = [];
  ops = ops;
}

abbrev pub write_message : MosdOp
write_message = message (bytes "rbd_data.a.3") (write_two ∷ [])

-- A name with too few sections, and one with a data pool of more than 32 bits.
abbrev pub bad_message : MosdOp
bad_message = message (bytes "rbd_data.a") (write_two ∷ [])

abbrev pub lost_message : MosdOp
lost_message = message (bytes "rbd_data.4294967296.a.3") (write_two ∷ [])

abbrev request_of : MosdOp → Outcome SaOpReq → SaOpReq
request_of m (done r) = r
request_of m refused = finish m no_progress
request_of m dropped = finish m no_progress
request_of m thrown = finish m no_progress

abbrev pub write_request : SaOpReq
write_request = request_of write_message (process_op_req buffer false write_message)
