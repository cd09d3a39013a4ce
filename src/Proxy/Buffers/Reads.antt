-- ===== src/Proxy/Buffers/Reads.antt =====
-- ReadCallback: the data of a read.
use global_cache_adaptor.Common.{
  ℕ, ◌≤◌, ◌<◌, ◌≡◌, refl, sym, inl, inr, arith, Bool, List, some, ◌==◌, if◌then◌else◌, u32, length,
  overlay, replicate, Bool-cases, length-overlay, take-overlay, take_all,
}
use global_cache_adaptor.Common.Bytes.{Bytes}
use global_cache_adaptor.Proxy.Buffers.{GcBufferList, zero_chain, gather, read_callback_bl}
use global_cache_adaptor.Proxy.Buffers.Contents.{contents, gather-contents}
use global_cache_adaptor.Proxy.Buffers.Full.{
  IsFull, place_chain, place_chain-IsChain, contents-place_chain, scatter-place_chain,
}
use global_cache_adaptor.Proxy.Buffers.Zeros.{
  zeros, zeroed_chain, length-zeros, zeroed_chain-IsFull, zero_chain-zeroed, contents-zeroed_chain,
}

-- What the pages hold before the data of a read of `len` bytes is placed.
abbrev pub before : Bool → ℕ → Bytes → List GcBufferList → Bytes
before rel len results ls =
    if length results == len then contents rel ls else replicate (length (contents rel ls)) 0

-- What a read leaves: page lists that hold its data over the rest, from which a write takes it again.
pub record IsRead (rel : Bool) (results rest : Bytes) (ls : List GcBufferList) : Type 0 where
  pub holds : contents rel ls ≡ overlay results rest
  pub gives_back : gather rel ls (length results) ≡ some results

placed-IsRead :
    (rel : Bool) (ls : List GcBufferList) (d : Bytes)
    → IsFull rel ls
    → length d ≤ length (contents rel ls)
    → IsRead rel d (contents rel ls) (place_chain rel d ls)
placed-IsRead rel ls d f g = record {
  holds = e;
  gives_back =
      rw
        (
          gather-contents rel (place_chain rel d ls) (length d) (place_chain-IsChain rel d ls f) l,
          e,
          take-overlay d (contents rel ls) g,
        )
        refl;
}
  where
    e : contents rel (place_chain rel d ls) ≡ overlay d (contents rel ls)
    e = contents-place_chain rel d ls f

    l : length d ≤ length (contents rel (place_chain rel d ls))
    l = rw (e) (omega (arith, length-overlay d (contents rel ls)))

read_callback_bl-place :
    (rel : Bool) (len : ℕ) (results : Bytes) (ls ls1 : List GcBufferList)
    → (if length results == len then some ls else zero_chain ls) ≡ some ls1
    → IsFull rel ls1
    → length results ≤ length (contents rel ls1)
    → length results < 4294967296
    → read_callback_bl rel len results ls ≡ some (place_chain rel results ls1)
unfolding read_callback_bl
read_callback_bl-place rel len results ls ls1 e f g h =
    let q : u32 (length results) ≡ length results = omega arith in
    rw (read_callback_bl, e, q, take_all results) (scatter-place_chain rel ls1 results f g)

-- When every list of a chain has all of its 64 entries, of pages as long as they say, a successful
-- read of no more bytes than the chain holds, and than 32 bits count, accesses nothing outside of it.
-- It leaves its data at the front of the chain, and behind that what the chain held before if the
-- read got as many bytes as it asked for, and zeros if not. A write takes the data out again.
pub read_callback_bl-IsRead :
    (rel : Bool) (len : ℕ) (results : Bytes) (ls : List GcBufferList)
    → IsFull rel ls
    → length results ≤ length (contents rel ls)
    → length results < 4294967296
    → (ls' : List GcBufferList) × (read_callback_bl rel len results ls ≡ some ls')
      × IsRead rel results (before rel len results ls) ls'
read_callback_bl-IsRead rel len results ls f g h = elim (Bool-cases (length results == len)) [
  | inl y ↦ (
    place_chain rel results ls,
    read_callback_bl-place rel len results ls ls (rw (y) refl) f g h,
    rw (y) (placed-IsRead rel ls results f g),
  )
  | inr y ↦ (
    place_chain rel results (zeroed_chain ls),
    read_callback_bl-place rel len results ls (zeroed_chain ls)
        (rw (y) (zero_chain-zeroed rel ls f)) full l h,
    rw (y, sym zs) (placed-IsRead rel (zeroed_chain ls) results full l),
  )
]
  where
    full : IsFull rel (zeroed_chain ls)
    full = zeroed_chain-IsFull rel ls f

    zs : contents rel (zeroed_chain ls) ≡ zeros (length (contents rel ls))
    zs = contents-zeroed_chain rel ls f

    l : length results ≤ length (contents rel (zeroed_chain ls))
    l = rw (zs, length-zeros (length (contents rel ls))) g
