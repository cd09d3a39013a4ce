-- ===== src/Server/OpRequest/Names.antt =====
-- What the name of an object decides in src/server_adaptor/network_module.cpp, ProcessOpReq.
use global_cache_adaptor.Common.{
  ◌≡◌, ◌<◌, ◌≤◌, ◌↔◌, ◌⊎◌, refl, Bool, true, false, List, [], ◌∷◌, none, arith, sym, ◌∙◌, length,
  Option-cases, inl, inr,
}
use global_cache_adaptor.Common.Bytes.{Bytes}
use global_cache_adaptor.Common.Number.{strtoull}
use global_cache_adaptor.Server.Op.{OsdOp}
use global_cache_adaptor.Server.MsgModule.{Buffer, Converted, convert_clientop}
use global_cache_adaptor.Server.OpRequest.{
  MosdOp, Progress, Outcome, done, refused, dropped, thrown, start_op, advance, convert_ops,
  process_op_req, end_loop, no_progress, sections, is_rbd_data, rbd_objid, from_end,
}

module _ (b : Buffer) (read_stat : Bool) (name : Bytes) (v : List Bytes) where
  -- A round drops the message for want of an identity, throws, or goes on.
  round_cases :
      (rbd : Bool) (c : OsdOp) (cs : List OsdOp) (p : Progress)
      → ((start_op name rbd v ≡ none) × (convert_ops b read_stat name rbd v (c ∷ cs) p ≡ dropped))
        ⊎ (convert_ops b read_stat name rbd v (c ∷ cs) p ≡ thrown)
        ⊎ ((r : Converted) × (convert_ops b read_stat name rbd v (c ∷ cs) p
              ≡ convert_ops b read_stat name rbd v cs (advance p r)))
  unfolding convert_ops
  round_cases rbd c cs p = elim (Option-cases (start_op name rbd v)) [
    | inl no_id ↦ inl (no_id, rw (no_id, convert_ops))
    | inr (o, id) ↦ elim (Option-cases (convert_clientop b read_stat c o p.options)) [
      | inl bad ↦ inr (inl (rw (id, bad, convert_ops)))
      | inr (r, ok) ↦ inr (inr (r, rw (id, ok, convert_ops)))
    ]
  ]

  loop-ne-refused :
      (rbd : Bool) (cs : List OsdOp) (p : Progress)
      → ¬ (convert_ops b read_stat name rbd v cs p ≡ refused)
  unfolding convert_ops
  loop-ne-refused rbd [] p e = cc
  loop-ne-refused rbd (c ∷ cs) p e = elim (round_cases rbd c cs p) [
    | inl (no_id, d) ↦ cc
    | inr (inl t) ↦ cc
    | inr (inr (r, n)) ↦ loop-ne-refused rbd cs (advance p r) (sym n ∙ e)
  ]

  -- Only a missing identity makes the loop drop the message.
  loop_dropped :
      (rbd : Bool) (cs : List OsdOp) (p : Progress)
      → convert_ops b read_stat name rbd v cs p ≡ dropped
      → start_op name rbd v ≡ none
  unfolding convert_ops
  loop_dropped rbd [] p e = cc
  loop_dropped rbd (c ∷ cs) p e = elim (round_cases rbd c cs p) [
    | inl (no_id, d) ↦ no_id
    | inr (inl t) ↦ cc
    | inr (inr (r, n)) ↦ loop_dropped rbd cs (advance p r) (sym n ∙ e)
  ]

  drops_first :
      (rbd : Bool) (c : OsdOp) (cs : List OsdOp) (p : Progress)
      → start_op name rbd v ≡ none
      → convert_ops b read_stat name rbd v (c ∷ cs) p ≡ dropped
  unfolding convert_ops
  drops_first rbd c cs p e = rw (e, convert_ops)

-- The pool's section is read, and holds a number of more than 32 bits.
abbrev pub IsPoolOverflow : List Bytes → Type 0
IsPoolOverflow v = (3 < length v) × (4294967296 ≤ strtoull 10 (from_end 3 v))

rbd_objid-none : (v : List Bytes) → (rbd_objid v ≡ none) ↔ IsPoolOverflow v
unfolding rbd_objid
rbd_objid-none v = ground arith

start_op-none :
    (name : Bytes) (rbd : Bool) (v : List Bytes)
    → (start_op name rbd v ≡ none) ↔ ((rbd ≡ true) × IsPoolOverflow v)
start_op-none name false v = ground arith
start_op-none name true v = ground (arith, rbd_objid-none v)

end_loop-refused : (m : MosdOp) (o : Outcome Progress) → end_loop m o ≡ refused → o ≡ refused
end_loop-refused m (done p) e = cc
end_loop-refused m refused e = refl
end_loop-refused m dropped e = cc
end_loop-refused m thrown e = cc

end_loop-dropped : (m : MosdOp) (o : Outcome Progress) → (end_loop m o ≡ dropped) ↔ (o ≡ dropped)
end_loop-dropped m (done p) = (λ e. cc, λ e. cc)
end_loop-dropped m refused = (λ e. cc, λ e. cc)
end_loop-dropped m dropped = (λ e. refl, λ e. refl)
end_loop-dropped m thrown = (λ e. cc, λ e. cc)

module _ (b : Buffer) (read_stat : Bool) where
  -- A message is answered with -EINVAL exactly if the first section of the object's name is "rbd_data"
  -- and the name has fewer than three sections.
  pub process_op_req-refused :
      (m : MosdOp)
      → (process_op_req b read_stat m ≡ refused)
        ↔ ((is_rbd_data (sections m.name) ≡ true) × (length (sections m.name) < 3))
  unfolding process_op_req
  process_op_req-refused m = (
    λ e. ground (
      arith,
      end_loop-refused m (convert_ops b read_stat m.name true (sections m.name) m.ops no_progress),
      end_loop-refused m (convert_ops b read_stat m.name false (sections m.name) m.ops no_progress),
      loop-ne-refused b read_stat m.name (sections m.name) true m.ops no_progress,
      loop-ne-refused b read_stat m.name (sections m.name) false m.ops no_progress,
    ),
    λ h. ground arith,
  )

  -- A message with at least one operation is dropped with no reply exactly if its object is an RBD
  -- object whose name holds a data pool of more than 32 bits.
  pub process_op_req-dropped :
      (m : MosdOp) (c : OsdOp) (cs : List OsdOp)
      → m.ops ≡ c ∷ cs
      → (process_op_req b read_stat m ≡ dropped)
        ↔ ((is_rbd_data (sections m.name) ≡ true) × IsPoolOverflow (sections m.name))
  unfolding process_op_req
  process_op_req-dropped m c cs h =
      let v = sections m.name in
      let l = λ (rbd : Bool). convert_ops b read_stat m.name rbd v m.ops no_progress in
      (
        λ e. ground (
          arith,
          end_loop-dropped m (l true),
          end_loop-dropped m (l false),
          loop_dropped b read_stat m.name v true m.ops no_progress,
          loop_dropped b read_stat m.name v false m.ops no_progress,
          start_op-none m.name true v,
          start_op-none m.name false v,
        ),
        λ o.
            let first = drops_first b read_stat m.name v true c cs no_progress in
            ground (arith, end_loop-dropped m (l true), first, start_op-none m.name true v),
      )
