-- ===== src/Proxy/Buffers.antt =====
-- src/ceph_proxy/RadosWrapper.cc: the data of a write that is gathered from a chain of page lists
-- (Gcbufferlist.h), and the data of a read that is scattered over one. An address is the memory from
-- there on; `none` is an access outside of it, outside of an array, or through a null pointer. The
-- pages of a chain do not overlap.
pub mod Contents
pub mod Writes
pub mod Places
pub mod Full
pub mod Zeros
pub mod Reads
use global_cache_adaptor.Common.{
  ℕ, zero, suc, ◌-◌, Bool, true, false, List, [], ◌∷◌, ◌++◌, Option, none, some, leb, ◌==◌,
  if◌then◌else◌, u32, length, take, drop, overlay, replicate,
}
use mathlib.Core.Option
use global_cache_adaptor.Common.Bytes.{Bytes}

pub record ListEntry : Type 0 where
  pub buf : Bytes
  pub len : ℕ

-- A list of pages; `entrys` is its array of 64. The next list is the next of the chain.
pub record GcBufferList : Type 0 where
  pub entry_sum_list : ℕ
  pub entrys : List ListEntry

-- The bytes to put before and behind the data of a write; `none` is a null pointer.
pub record AlignBuffer : Type 0 where
  pub prev_align_buffer : Option Bytes
  pub back_align_buffer : Option Bytes

-- The members of RadosObjectWriteOp that a write changes: its buffer, and the writes of librados's
-- operation, which copies the buffer of each.
pub record WriteOp : Type 0 where
  pub bl : Bytes
  pub writes : List (ℕ × Bytes)

abbrev pub entry_per_bufflist : ℕ
entry_per_bufflist = 64

-- What std::min bounds by the rest of the data: the size of a page, or the entry's length.
abbrev pub page_len : Bool → ℕ → ℕ
page_len true len = 4096
page_len false len = len

abbrev pub min : ℕ → ℕ → ℕ
min a b = if leb a b then a else b

-- `bl.append(buf, n)`, by the bytes that it appends.
unfoldable pub read_page : ℕ → Bytes → Option Bytes
read_page n buf = if leb n (length buf) then some (take n buf) else none

-- memcpy(buf, data, length of data).
unfoldable pub write_page : Bytes → Bytes → Option Bytes
write_page written buf =
    if leb (length written) (length buf) then some (overlay written buf) else none

-- The loop of RadosWriteOpWriteBl within one list, from the entry that `entrys` begins with, of which
-- `n` are left: the bytes, and how many are still to come.
unfoldable pub gather_list : Bool → ℕ → List ListEntry → ℕ → Option (Bytes × ℕ)
gather_list rel n es zero = some ([], 0)
gather_list rel n [] (suc left) = none
gather_list rel n (e ∷ es) (suc left) =
    let size = min (page_len rel e.len) (suc left) in
    elim (read_page size e.buf) [
      | none ↦ none
      | some piece ↦ elim (leb n 1) [
        | true ↦ some (piece, suc left - size)
        | false ↦ elim (gather_list rel (n - 1) es (suc left - size)) [
          | none ↦ none
          | some (rest, l) ↦ some (piece ++ rest, l)
        ]
      ]
    ]

unfoldable pub gather : Bool → List GcBufferList → ℕ → Option Bytes
gather rel ls zero = some []
gather rel [] (suc left) = none
gather rel (b ∷ ls) (suc left) = elim (gather_list rel b.entry_sum_list b.entrys (suc left)) [
  | none ↦ none
  | some (piece, l) ↦ Option.map (λ rest. piece ++ rest) (gather rel ls l)
]

abbrev pub or_empty : Option Bytes → Bytes
or_empty none = []
or_empty (some b) = b

abbrev pub prev_of : Option AlignBuffer → Bytes
prev_of none = []
prev_of (some a) = or_empty a.prev_align_buffer

abbrev pub back_of : Option AlignBuffer → Bytes
back_of none = []
back_of (some a) = or_empty a.back_align_buffer

-- RadosWriteOpWriteBl of a write operation; the empty chain is a null pointer.
unfoldable pub write_op_write_bl :
    List GcBufferList → ℕ → ℕ → Option AlignBuffer → Bool → WriteOp → Option WriteOp
write_op_write_bl [] len1 off align rel w = some w
write_op_write_bl (b ∷ ls) len1 off align rel w =
    Option.map
      (λ written.
        let all = w.bl ++ prev_of align ++ written ++ back_of align in
        record { bl = all; writes = w.writes ++ (off, all) ∷ [] })
      (gather rel (b ∷ ls) (u32 len1))

-- RadosWriteOpWrite, where the buffer is not null.
unfoldable pub write_op_write : Bytes → ℕ → ℕ → WriteOp → Option WriteOp
write_op_write buffer len off w =
    Option.map
      (λ written. record { bl = w.bl ++ written; writes = w.writes ++ (off, w.bl ++ written) ∷ [] })
      (read_page len buffer)

-- memset of an entry's `len` bytes.
unfoldable pub zero_entry : ListEntry → Option ListEntry
zero_entry e = Option.map (λ b. record e { buf = b }) (write_page (replicate e.len 0) e.buf)

-- The first `n` entries of a list, set to zero.
unfoldable pub zero_list : ℕ → List ListEntry → Option (List ListEntry)
zero_list zero es = some es
zero_list (suc n) [] = none
zero_list (suc n) (e ∷ es) = elim (zero_entry e) [
  | none ↦ none
  | some e1 ↦ Option.map (λ es1. e1 ∷ es1) (zero_list n es)
]

unfoldable pub zero_chain : List GcBufferList → Option (List GcBufferList)
zero_chain [] = some []
zero_chain (b ∷ ls) = elim (zero_list b.entry_sum_list b.entrys) [
  | none ↦ none
  | some es ↦ Option.map (λ ls1. record b { entrys = es } ∷ ls1) (zero_chain ls)
]

-- The loop of ReadCallback within one list, of which `n` entries are left: the entries, and the data
-- that is still to be copied.
unfoldable pub scatter_list : Bool → ℕ → List ListEntry → Bytes → Option (List ListEntry × Bytes)
scatter_list rel n es [] = some (es, [])
scatter_list rel n [] (d ∷ ds) = none
scatter_list rel n (e ∷ es) (d ∷ ds) =
    let size = min (page_len rel e.len) (length (d ∷ ds)) in
    elim (write_page (take size (d ∷ ds)) e.buf) [
      | none ↦ none
      | some b ↦ elim (leb n 1) [
        | true ↦ some (record e { buf = b } ∷ es, drop size (d ∷ ds))
        | false ↦ elim (scatter_list rel (n - 1) es (drop size (d ∷ ds))) [
          | none ↦ none
          | some (es1, rest) ↦ some (record e { buf = b } ∷ es1, rest)
        ]
      ]
    ]

unfoldable pub scatter : Bool → List GcBufferList → Bytes → Option (List GcBufferList)
scatter rel ls [] = some ls
scatter rel [] (d ∷ ds) = none
scatter rel (b ∷ ls) (d ∷ ds) = elim (scatter_list rel entry_per_bufflist b.entrys (d ∷ ds)) [
  | none ↦ none
  | some (es, rest) ↦ Option.map (λ ls1. record b { entrys = es } ∷ ls1) (scatter rel ls rest)
]

-- The branch `readbl` of ReadCallback for a read of `len` bytes that succeeded: the page lists behind
-- it. The loop copies as many bytes as an unsigned of 32 bits counts.
unfoldable pub read_callback_bl : Bool → ℕ → Bytes → List GcBufferList → Option (List GcBufferList)
read_callback_bl rel len results ls =
    elim (if length results == len then some ls else zero_chain ls) [
      | none ↦ none
      | some ls1 ↦ scatter rel ls1 (take (u32 (length results)) results)
    ]
