-- ===== src/Server/OpRequest/Kinds.antt =====
-- Whether src/server_adaptor/network_module.cpp takes a message for a write or for a read, and how
-- long.
use global_cache_adaptor.Common.{
  ◌+◌, ◌≡◌, ◌<◌, ◌≤◌, leb, ◌↔◌, refl, Bool, true, false, List, [], ◌∷◌, Option, none, some, arith,
  ◌==◌, if◌then◌else◌, u32, u64, length, total, length-append, inl, inr, Bool-cases,
}
use global_cache_adaptor.Common.Bytes.{Bytes}
use global_cache_adaptor.Server.Op.{OpCode, OsdOp, OpRequestOps}
use global_cache_adaptor.Server.MsgModule.{Buffer, Converted, convert_clientop}
use global_cache_adaptor.Server.MsgModule.Classes.{
  counted_as_write, write_ops, read_ops, write_kb, read_kb, IsInRange, convert_clientop-Adds,
}
use global_cache_adaptor.Server.Throttle.{gcache_write}
use global_cache_adaptor.Server.OpRequest.{
  MosdOp, SaOpReq, Progress, Outcome, done, refused, dropped, thrown, start_op, advance,
  convert_ops, process_op_req, contain_write_op, is_plain_write, finish, end_loop, no_progress,
  sections, is_rbd_data,
}

-- The loop has added up the operations, and has one entry for each.
pub record Sums (cs : List OsdOp) (p q : Progress) : Type 0 where
  pub in_range : IsInRange q.options
  pub writes : q.options.write ≡ u32 (p.options.write + total write_ops cs)
  pub reads : q.options.read ≡ u32 (p.options.read + total read_ops cs)
  pub writes_kb : q.options.write_kb ≡ u64 (p.options.write_kb + total write_kb cs)
  pub reads_kb : q.options.read_kb ≡ u64 (p.options.read_kb + total read_kb cs)
  pub entries : length q.vec_ops ≡ length p.vec_ops + length cs

-- One round of the loop that ends with a result.
abbrev pub Round :
    Buffer → Bool → Bytes → Bool → List Bytes → OsdOp → List OsdOp → Progress → Progress → Type 0
Round b read_stat name rbd v c cs p q =
    (o : OpRequestOps) × (r : Converted) × (start_op name rbd v ≡ some o)
    × (convert_clientop b read_stat c o p.options ≡ some r)
    × (convert_ops b read_stat name rbd v cs (advance p r) ≡ done q)

module _ (b : Buffer) (read_stat : Bool) (name : Bytes) (rbd : Bool) (v : List Bytes) where
  pub convert_ops-Round :
      (c : OsdOp) (cs : List OsdOp) (p q : Progress)
      → convert_ops b read_stat name rbd v (c ∷ cs) p ≡ done q
      → Round b read_stat name rbd v c cs p q
  unfolding convert_ops
  convert_ops-Round c cs p q e = by_start (start_op name rbd v) refl e
    where
      by_result :
          (o : OpRequestOps) (m : Option Converted)
          → start_op name rbd v ≡ some o
          → convert_clientop b read_stat c o p.options ≡ m
          → elim m as (λ _. Outcome Progress) [
            | none ↦ thrown
            | some r ↦ convert_ops b read_stat name rbd v cs (advance p r)
          ]
            ≡ done q
          → Round b read_stat name rbd v c cs p q
      by_result o none s r e = cc
      by_result o (some x) s r e = (o, x, s, r, e)

      by_start :
          (m : Option OpRequestOps)
          → start_op name rbd v ≡ m
          → elim m as (λ _. Outcome Progress) [
            | none ↦ dropped
            | some o ↦ elim (convert_clientop b read_stat c o p.options) [
              | none ↦ thrown
              | some r ↦ convert_ops b read_stat name rbd v cs (advance p r)
            ]
          ]
            ≡ done q
          → Round b read_stat name rbd v c cs p q
      by_start none s e = cc
      by_start (some o) s e = by_result o (convert_clientop b read_stat c o p.options) s refl e

  convert_ops-Sums :
      (cs : List OsdOp) (p q : Progress)
      → IsInRange p.options
      → convert_ops b read_stat name rbd v cs p ≡ done q
      → Sums cs p q
  unfolding convert_ops
  convert_ops-Sums [] p q h e = ground arith
  convert_ops-Sums (c ∷ cs) p q h e =
      let (o, r, s, k, rest) = convert_ops-Round c cs p q e in
      let adds = convert_clientop-Adds b read_stat c o p.options r h k in
      let sums = convert_ops-Sums cs (advance p r) q (omega arith) rest in
      ground (arith, adds, sums, length-append p.vec_ops (r.one_op ∷ []))

module _ (b : Buffer) (read_stat : Bool) where
  -- A message that becomes a request has gone through the loop.
  process_op_req-done :
      (m : MosdOp) (r : SaOpReq)
      → process_op_req b read_stat m ≡ done r
      → (rbd : Bool) × (q : Progress) × (convert_ops b read_stat m.name rbd
            (sections m.name)
            m.ops
            no_progress
          ≡ done q)
        × (r ≡ finish m q)
  unfolding process_op_req
  process_op_req-done m r e = by_loop (is_rbd_data (sections m.name)) e
    where
      loop : Bool → Outcome Progress
      loop rbd = convert_ops b read_stat m.name rbd (sections m.name) m.ops no_progress

      by_end :
          (rbd : Bool) (o : Outcome Progress)
          → loop rbd ≡ o
          → end_loop m o ≡ done r
          → (rbd : Bool) × (q : Progress) × (loop rbd ≡ done q) × (r ≡ finish m q)
      by_end rbd (done q) l e = (rbd, q, l, cc)
      by_end rbd refused l e = cc
      by_end rbd dropped l e = cc
      by_end rbd thrown l e = cc

      by_loop :
          (rbd : Bool)
          → (if rbd
              then if leb 3 (length (sections m.name)) then end_loop m (loop true) else refused
              else end_loop m (loop false))
            ≡ done r
          → (rbd : Bool) × (q : Progress) × (loop rbd ≡ done q) × (r ≡ finish m q)
      by_loop false e = by_end false (loop false) refl e
      by_loop true e = elim (Bool-cases (leb 3 (length (sections m.name)))) [
        | inl long ↦ by_end true (loop true) refl (rw long at e)
        | inr short ↦ absurd (cc (rw short at e))
      ]

total-write_ops-le : (cs : List OsdOp) → total write_ops cs ≤ length cs
total-write_ops-le [] = omega arith
total-write_ops-le (c ∷ cs) = ground (arith, total-write_ops-le cs)

contains-total : (cs : List OsdOp) → contain_write_op cs ≡ true → 0 < total write_ops cs
unfolding contain_write_op
contains-total [] h = cc
contains-total (c ∷ cs) h = ground (arith, plain-changes c.op, contains-total cs)
  where
    plain-changes : (k : OpCode) → is_plain_write k ≡ true → counted_as_write k ≡ true
    plain-changes OpCode.write h = refl
    plain-changes OpCode.writefull h = refl
    plain-changes _ h = ground arith

module _ (b : Buffer) (read_stat : Bool) where
  pub process_op_req_kind :
      (m : MosdOp) (r : SaOpReq)
      → process_op_req b read_stat m ≡ done r
      → length m.ops < 4294967296
      → ((r.option_type ≡ gcache_write) ↔ (0 < total write_ops m.ops))
        × (r.option_length ≡ (
            if total write_ops m.ops == 0
            then u64 (total read_kb m.ops)
            else u64 (total write_kb m.ops)))
        × (length r.vec_ops ≡ length m.ops)
  process_op_req_kind m r e h =
      let (rbd, q, l, f) = process_op_req-done b read_stat m r e in
      let sums =
        convert_ops-Sums b read_stat m.name rbd (sections m.name) m.ops no_progress q (omega arith)
          l in
      ground (arith, sums, f, total-write_ops-le m.ops)

  -- What the write limits count as a write, the counters of the requests count as one too: a message
  -- of fewer than 2^32 operations that ContainWriteOp accepts and that becomes a request becomes a
  -- write.
  pub contain_write_op_kind :
      (m : MosdOp) (r : SaOpReq)
      → process_op_req b read_stat m ≡ done r
      → length m.ops < 4294967296
      → contain_write_op m.ops ≡ true
      → r.option_type ≡ gcache_write
  contain_write_op_kind m r e h c = (process_op_req_kind m r e h).0.1 (contains-total m.ops c)
