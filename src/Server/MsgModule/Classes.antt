-- ===== src/Server/MsgModule/Classes.antt =====
-- Which operations src/server_adaptor/msg_module.cpp counts as writes and as reads, and with which
-- length.
use global_cache_adaptor.Common.{
  ℕ, ◌+◌, ◌/◌, ◌≡◌, ◌<◌, refl, Bool, true, false, Option, none, some, arith, if◌then◌else◌, u32,
  u64,
}
use global_cache_adaptor.Server.Op.{OpCode, OsdOp, OpRequestOps, Options}
use global_cache_adaptor.Server.MsgModule.{
  Buffer, Converted, convert_clientop, convert, convert_attr_op, convert_omap_op, ◌>>=◌, unchanged,
}

-- The operations that a message's sums count as writes. ROLLBACK, CALL with a copyup, APPEND and
-- DELETE change an object too, and are not among them.
abbrev pub counted_as_write : OpCode → Bool
counted_as_write OpCode.zero = true
counted_as_write OpCode.truncate = true
counted_as_write OpCode.write = true
counted_as_write OpCode.writefull = true
counted_as_write OpCode.writesame = true
counted_as_write _ = false

-- The operations that a message's sums count as reads. CMPEXT, which compares, is among them.
abbrev pub counted_as_read : OpCode → Bool
counted_as_read OpCode.read = true
counted_as_read OpCode.sync_read = true
counted_as_read OpCode.sparse_read = true
counted_as_read OpCode.cmpext = true
counted_as_read _ = false

-- The bytes that an operation covers.
abbrev pub span : OpCode → OsdOp → ℕ
span OpCode.writesame c = c.same_len
span _ c = c.len

-- What an operation adds to the four sums.
abbrev pub write_ops : OsdOp → ℕ
write_ops c = if counted_as_write c.op then 1 else 0

abbrev pub read_ops : OsdOp → ℕ
read_ops c = if counted_as_read c.op then 1 else 0

abbrev pub write_kb : OsdOp → ℕ
write_kb c = if counted_as_write c.op then span c.op c / 1024 else 0

abbrev pub read_kb : OsdOp → ℕ
read_kb c = if counted_as_read c.op then span c.op c / 1024 else 0

-- The sums are values of their types.
pub record IsInRange (t : Options) : Type 0 where
  pub write_u32 : t.write < 4294967296
  pub read_u32 : t.read < 4294967296
  pub write_u64 : t.write_kb < 18446744073709551616
  pub read_u64 : t.read_kb < 18446744073709551616

-- The sums after an operation, in the arithmetic of their types.
pub record Adds (c : OsdOp) (t t' : Options) : Type 0 where
  pub writes : t'.write ≡ u32 (t.write + write_ops c)
  pub reads : t'.read ≡ u32 (t.read + read_ops c)
  pub writes_kb : t'.write_kb ≡ u64 (t.write_kb + write_kb c)
  pub reads_kb : t'.read_kb ≡ u64 (t.read_kb + read_kb c)

unchanged-options :
    (m : Option OpRequestOps) (t : Options) (r : Converted)
    → (m >>= unchanged t) ≡ some r
    → r.options ≡ t
unchanged-options none t r e = cc
unchanged-options (some o) t r e = cc

-- An operation that is neither counted as a write nor as a read, where the sums stay.
unchanged-Adds :
    (c : OsdOp) (m : Option OpRequestOps) (t : Options) (r : Converted)
    → counted_as_write c.op ≡ false
    → counted_as_read c.op ≡ false
    → IsInRange t
    → (m >>= unchanged t) ≡ some r
    → Adds c t r.options
unchanged-Adds c m t r w d v e = ground (arith, unchanged-options m t r)

module _ (b : Buffer) where
  Adds-convert :
      (k : OpCode) (s : Bool) (c : OsdOp) (o : OpRequestOps) (t : Options) (r : Converted)
      → c.op ≡ k
      → IsInRange t
      → convert b k s c o t ≡ some r
      → Adds c t r.options
  Adds-convert OpCode.cmpext s c o t r h v e = ground arith
  Adds-convert OpCode.sparse_read s c o t r h v e = ground arith
  Adds-convert OpCode.sync_read s c o t r h v e = ground arith
  Adds-convert OpCode.read s c o t r h v e = ground arith
  Adds-convert OpCode.zero s c o t r h v e = ground arith
  Adds-convert OpCode.truncate s c o t r h v e = ground arith
  Adds-convert OpCode.writefull s c o t r h v e = ground arith
  Adds-convert OpCode.write s c o t r h v e = ground arith
  Adds-convert OpCode.writesame s c o t r h v e = ground arith
  Adds-convert OpCode.call s c o t r h v e = ground arith
  Adds-convert OpCode.getxattr s c o t r h v e =
      unchanged-Adds c (convert_attr_op b c o) t r (rw h) (rw h) v e
  Adds-convert OpCode.rmxattr s c o t r h v e =
      unchanged-Adds c (convert_attr_op b c o) t r (rw h) (rw h) v e
  Adds-convert OpCode.cmpxattr s c o t r h v e =
      unchanged-Adds c (convert_attr_op b c o) t r (rw h) (rw h) v e
  Adds-convert OpCode.setxattr s c o t r h v e =
      unchanged-Adds c (convert_attr_op b c o) t r (rw h) (rw h) v e
  Adds-convert OpCode.omapgetvals s c o t r h v e =
      unchanged-Adds c (convert_omap_op b c o) t r (rw h) (rw h) v e
  Adds-convert OpCode.omapsetvals s c o t r h v e =
      unchanged-Adds c (convert_omap_op b c o) t r (rw h) (rw h) v e
  Adds-convert OpCode.omapgetkeys s c o t r h v e =
      unchanged-Adds c (convert_omap_op b c o) t r (rw h) (rw h) v e
  Adds-convert OpCode.omaprmkeys s c o t r h v e =
      unchanged-Adds c (convert_omap_op b c o) t r (rw h) (rw h) v e
  Adds-convert OpCode.omapclear s c o t r h v e =
      unchanged-Adds c (convert_omap_op b c o) t r (rw h) (rw h) v e
  Adds-convert OpCode.omapgetvalsbykeys s c o t r h v e =
      unchanged-Adds c (convert_omap_op b c o) t r (rw h) (rw h) v e
  Adds-convert OpCode.omap_cmp s c o t r h v e =
      unchanged-Adds c (convert_omap_op b c o) t r (rw h) (rw h) v e
  Adds-convert OpCode.omapsetheader s c o t r h v e =
      unchanged-Adds c (convert_omap_op b c o) t r (rw h) (rw h) v e
  Adds-convert OpCode.omapgetheader s c o t r h v e =
      unchanged-Adds c (convert_omap_op b c o) t r (rw h) (rw h) v e
  Adds-convert _ s c o t r h v e = ground arith

  -- Every operation that is translated, on counts within their words: ZERO, TRUNCATE, WRITE,
  -- WRITEFULL and WRITESAME add one write and the kilobytes that they cover, READ, SYNC_READ,
  -- SPARSE_READ and CMPEXT one read and the kilobytes that they cover, and every other operation,
  -- ROLLBACK, CALL, APPEND and DELETE among them, adds nothing to the four sums.
  pub convert_clientop-Adds :
      (s : Bool) (c : OsdOp) (o : OpRequestOps) (t : Options) (r : Converted)
      → IsInRange t
      → convert_clientop b s c o t ≡ some r
      → Adds c t r.options
  unfolding convert_clientop
  convert_clientop-Adds s c o t r v e =
      Adds-convert c.op s c (record o { op_sub_type = c.op }) t r refl v e
