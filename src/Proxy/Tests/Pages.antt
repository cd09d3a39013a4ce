-- ===== src/Proxy/Tests/Pages.antt =====
-- Runs of the model of the page lists of src/ceph_proxy/RadosWrapper.cc on concrete inputs.
use global_cache_adaptor.Common.{
  ℕ, zero, suc, ◌≤◌, ◌≡◌, refl, arith, false, List, [], ◌∷◌, none, some, length, replicate,
  length-replicate,
}
use global_cache_adaptor.Common.Bytes.{Bytes}
use global_cache_adaptor.Proxy.Buffers.{
  ListEntry, GcBufferList, AlignBuffer, WriteOp, read_callback_bl,
}
use global_cache_adaptor.Proxy.Buffers.Contents.{AreBacked}
use global_cache_adaptor.Proxy.Buffers.Full.{AreSized}
use global_cache_adaptor.Proxy.Buffers.Reads.{IsRead, before, read_callback_bl-IsRead}

abbrev page : Bytes → ListEntry
page b = record { buf = b; len = length b }

-- Two lists, of two entries and of one, and an operation that has a write already.
abbrev two : GcBufferList
two = record { entry_sum_list = 2; entrys = page (1 ∷ 2 ∷ []) ∷ page (3 ∷ []) ∷ page (9 ∷ []) ∷ [] }

abbrev one : GcBufferList
one = record { entry_sum_list = 1; entrys = page (4 ∷ 5 ∷ 6 ∷ []) ∷ [] }

abbrev written_before : WriteOp
written_before = record { bl = 7 ∷ []; writes = (0, 7 ∷ []) ∷ [] }

abbrev front : AlignBuffer
front = record { prev_align_buffer = some (8 ∷ []); back_align_buffer = none }

replicate-AreBacked :
    (n : ℕ) (e : ListEntry) → e.len ≤ length e.buf → AreBacked false (replicate n e)
replicate-AreBacked zero e h = tt
replicate-AreBacked (suc n) e h = (h, replicate-AreBacked n e h)

replicate-AreSized : (n : ℕ) (e : ListEntry) → AreSized false (replicate n e)
replicate-AreSized zero e = tt
replicate-AreSized (suc n) e = (refl, replicate-AreSized n e)

abbrev full : GcBufferList
full = record { entry_sum_list = 64; entrys = replicate 64 (page (1 ∷ 2 ∷ [])) }

read_callback_bl-IsRead_example :
    (ls' : List GcBufferList) × (read_callback_bl false 5 (7 ∷ 8 ∷ 9 ∷ []) (full ∷ []) ≡ some ls')
    × IsRead false (7 ∷ 8 ∷ 9 ∷ []) (before false 5 (7 ∷ 8 ∷ 9 ∷ []) (full ∷ [])) ls'
read_callback_bl-IsRead_example =
    read_callback_bl-IsRead false 5 (7 ∷ 8 ∷ 9 ∷ []) (full ∷ [])
      (
        (
          refl,
          length-replicate 64 (page (1 ∷ 2 ∷ [])),
          replicate-AreBacked 64 (page (1 ∷ 2 ∷ [])) (omega arith),
          replicate-AreSized 64 (page (1 ∷ 2 ∷ [])),
        ),
        tt,
      )
      (omega arith) (omega arith)
