-- ===== src/Server/Tests/Quotas.antt =====
-- Runs of the model of the write quotas on concrete inputs.
use global_cache_adaptor.Common.{◌≡◌, refl, arith, true, [], ◌∷◌, none}
use global_cache_adaptor.Common.Int.{pos}
use global_cache_adaptor.Server.Op.{OpCode, OsdOp, mode_string}
use global_cache_adaptor.Server.Quota.{Cycle, Readings, limit_write_iops}
use global_cache_adaptor.Server.Quota.Stall.{limit_write_iops_stalls}

abbrev megabyte : OsdOp
megabyte = record {
  op = OpCode.write;
  flags = 0;
  offset = 0;
  len = 1048576;
  same_offset = 0;
  same_len = 0;
  class_len = 0;
  method_len = 0;
  name_len = 0;
  value_len = 0;
  cmp_op = pos 0;
  cmp_mode = mode_string;
  snapid = 0;
  indata = [];
}

abbrev old_cycle : Cycle
old_cycle = record { begin = 1000000; period = 7; quota = 100 }

-- The cycle of 200 ms is over at the entry, and a new one begins 500 ms after the old.
abbrev readings : Readings
readings = record { junk = pos 0; at_entry = 301000000; at_begin = 501000000; at_end = 502000000 }

limit_write_iops_stalls_example :
    limit_write_iops 200 true readings 4 (4 ∷ 3 ∷ []) (megabyte ∷ []) old_cycle ≡ none
limit_write_iops_stalls_example =
    limit_write_iops_stalls 200 4 (4 ∷ 3 ∷ []) readings (megabyte ∷ []) old_cycle (omega arith)
      (omega arith, (omega arith, tt)) refl
