-- ===== src/Proxy/Buffers/Writes.antt =====
-- RadosWriteOpWriteBl: the data of a write.
use global_cache_adaptor.Common.{◌++◌, Option}
use global_cache_adaptor.Common.Bytes.{Bytes}
use global_cache_adaptor.Proxy.Buffers.{AlignBuffer, WriteOp, prev_of, back_of}

-- The data of the next write of an operation: all that was put in its buffer before, and the new.
abbrev pub next_data : WriteOp → Option AlignBuffer → Bytes → Bytes
next_data w align written = w.bl ++ prev_of align ++ written ++ back_of align
