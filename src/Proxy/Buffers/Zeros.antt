-- ===== src/Proxy/Buffers/Zeros.antt =====
-- The memset of ReadCallback.
use global_cache_adaptor.Common.{
  ℕ, zero, suc, ◌+◌, ◌≤◌, ◌≡◌, refl, ap, arith, Bool, true, List, [], ◌∷◌, ◌++◌, some, leb, length,
  take, overlay, replicate, length-take, length-overlay, length-append, length-replicate,
}
use global_cache_adaptor.Common.Bytes.{Bytes}
use global_cache_adaptor.Proxy.Buffers.{
  ListEntry, GcBufferList, page_len, write_page, zero_entry, zero_list, zero_chain,
}
use global_cache_adaptor.Proxy.Buffers.Contents.{held, held_all, AreBacked, contents}
use global_cache_adaptor.Proxy.Buffers.Full.{AreSized, IsFull, take_whole}

abbrev pub zeros : ℕ → Bytes
zeros n = replicate n 0

zeros-append : (a b : ℕ) → zeros (a + b) ≡ zeros a ++ zeros b
zeros-append zero b = let q : 0 + b ≡ b = omega arith in rw (q) refl
zeros-append (suc a) b =
    let q : suc a + b ≡ suc (a + b) = omega arith in rw (q, zeros-append a b) refl

pub length-zeros : (n : ℕ) → length (zeros n) ≡ n
length-zeros n = length-replicate n 0

-- memset of the entries.
abbrev pub zeroed : List ListEntry → List ListEntry
zeroed [] = []
zeroed (e ∷ es) = record e { buf = overlay (zeros e.len) e.buf } ∷ zeroed es

abbrev pub zeroed_chain : List GcBufferList → List GcBufferList
zeroed_chain [] = []
zeroed_chain (b ∷ ls) = record b { entrys = zeroed b.entrys } ∷ zeroed_chain ls

zero_list-zeroed :
    (rel : Bool) (n : ℕ) (es : List ListEntry)
    → n ≡ length es
    → AreBacked rel es
    → AreSized rel es
    → zero_list n es ≡ some (zeroed es)
unfolding zero_list zero_entry write_page
zero_list-zeroed rel zero [] h b z = refl
zero_list-zeroed rel zero (e ∷ es) h b z = ground arith
zero_list-zeroed rel (suc n) [] h b z = ground arith
zero_list-zeroed rel (suc n) (e ∷ es) h b z =
    let fits : e.len ≤ length e.buf = omega (arith, b.0, z.0) in
    let q : leb e.len (length e.buf) ≡ true = ground arith in
    rw
      (
        zero_list,
        zero_entry,
        write_page,
        length-zeros e.len,
        q,
        zero_list-zeroed rel n es (omega arith) b.1 z.1,
      )
      refl

length-zeroed : (es : List ListEntry) → length (zeroed es) ≡ length es
length-zeroed [] = refl
length-zeroed (e ∷ es) = ap suc (length-zeroed es)

take-zeros : (n m : ℕ) (b : Bytes) → n ≤ length b → n ≡ m → take n (overlay (zeros m) b) ≡ zeros n
take-zeros zero m b h q = refl
take-zeros (suc n) zero b h q = ground arith
take-zeros (suc n) (suc m) [] h q = ground arith
take-zeros (suc n) (suc m) (x ∷ b) h q =
    ap (λ zs. 0 ∷ zs) (take-zeros n m b (omega arith) (omega arith))

held_all-zeroed :
    (rel : Bool) (es : List ListEntry)
    → AreBacked rel es
    → AreSized rel es
    → held_all rel (zeroed es) ≡ zeros (length (held_all rel es))
held_all-zeroed rel [] b z = refl
held_all-zeroed rel (e ∷ es) b z =
    rw
      (
        length-append (held rel e) (held_all rel es),
        length-take (page_len rel e.len) e.buf b.0,
        zeros-append (page_len rel e.len) (length (held_all rel es)),
        held_all-zeroed rel es b.1 z.1,
        take-zeros (page_len rel e.len) e.len e.buf b.0 z.0,
      )
      refl

zeroed-AreBacked : (rel : Bool) (es : List ListEntry) → AreBacked rel es → AreBacked rel (zeroed es)
zeroed-AreBacked rel [] b = tt
zeroed-AreBacked rel (e ∷ es) b =
    (rw (length-overlay (zeros e.len) e.buf) b.0, zeroed-AreBacked rel es b.1)

zeroed-AreSized : (rel : Bool) (es : List ListEntry) → AreSized rel es → AreSized rel (zeroed es)
zeroed-AreSized rel [] z = tt
zeroed-AreSized rel (e ∷ es) z = (z.0, zeroed-AreSized rel es z.1)

pub zeroed_chain-IsFull :
    (rel : Bool) (ls : List GcBufferList) → IsFull rel ls → IsFull rel (zeroed_chain ls)
zeroed_chain-IsFull rel [] f = tt
zeroed_chain-IsFull rel (b ∷ ls) ((s, l, k, z), f) = (
  (
    s,
    omega (arith, length-zeroed b.entrys),
    zeroed-AreBacked rel b.entrys k,
    zeroed-AreSized rel b.entrys z,
  ),
  zeroed_chain-IsFull rel ls f,
)

pub zero_chain-zeroed :
    (rel : Bool) (ls : List GcBufferList) → IsFull rel ls → zero_chain ls ≡ some (zeroed_chain ls)
unfolding zero_chain
zero_chain-zeroed rel [] f = refl
zero_chain-zeroed rel (b ∷ ls) ((s, l, k, z), f) =
    rw
      (
        zero_chain,
        zero_list-zeroed rel b.entry_sum_list b.entrys (omega arith) k z,
        zero_chain-zeroed rel ls f,
      )
      refl

pub contents-zeroed_chain :
    (rel : Bool) (ls : List GcBufferList)
    → IsFull rel ls
    → contents rel (zeroed_chain ls) ≡ zeros (length (contents rel ls))
contents-zeroed_chain rel [] f = refl
contents-zeroed_chain rel (b ∷ ls) ((s, l, k, z), f) =
    let p : length (zeroed b.entrys) ≡ 64 = omega (arith, length-zeroed b.entrys) in
    rw
      (
        s,
        take_whole 64 b.entrys l,
        take_whole 64 (zeroed b.entrys) p,
        length-append (held_all rel b.entrys) (contents rel ls),
        zeros-append (length (held_all rel b.entrys)) (length (contents rel ls)),
        held_all-zeroed rel b.entrys k z,
        contents-zeroed_chain rel ls f,
      )
      refl
