-- ===== src/Proxy/Buffers/Full.antt =====
-- Chains of lists that have all of their entries, and the data of a read placed over one.
use global_cache_adaptor.Common.{
  ℕ, zero, suc, ◌+◌, ◌-◌, ◌≤◌, ◌≡◌, refl, sym, arith, Bool, List, [], ◌∷◌, some, length, take, drop,
  overlay, length-overlay, overlay-append, overlay-nil, length-append, take_all,
}
use global_cache_adaptor.Common.Bytes.{Bytes}
use global_cache_adaptor.Proxy.Buffers.{ListEntry, GcBufferList, page_len, scatter}
use global_cache_adaptor.Proxy.Buffers.Contents.{held_all, AreBacked, IsChain, contents}
use global_cache_adaptor.Proxy.Buffers.Places.{
  place, place_nil, length-place, held_all-place, scatter_list-place, drop_of_nil,
}

-- The length of each entry is that of its page.
abbrev pub AreSized : Bool → List ListEntry → Type 0
AreSized rel [] = Unit
AreSized rel (e ∷ es) = (page_len rel e.len ≡ e.len) × AreSized rel es

-- Every list of the chain has all of its 64 entries.
abbrev pub IsFull : Bool → List GcBufferList → Type 0
IsFull rel [] = Unit
IsFull rel (b ∷ ls) =
    ((b.entry_sum_list ≡ 64)
      × (length b.entrys ≡ 64)
      × AreBacked rel b.entrys
      × AreSized rel b.entrys)
    × IsFull rel ls

abbrev pub place_chain : Bool → Bytes → List GcBufferList → List GcBufferList
place_chain rel d [] = []
place_chain rel d (b ∷ ls) =
    record b { entrys = place rel d b.entrys }
    ∷ place_chain rel (drop (length (held_all rel b.entrys)) d) ls

place_chain_nil : (rel : Bool) (ls : List GcBufferList) → place_chain rel [] ls ≡ ls
place_chain_nil rel [] = refl
place_chain_nil rel (b ∷ ls) =
    rw
      (
        place_nil rel b.entrys,
        drop_of_nil {A = ℕ} (length (held_all rel b.entrys)),
        place_chain_nil rel ls,
      )
      refl

pub take_whole : {A : Type 0} (n : ℕ) (xs : List A) → length xs ≡ n → take n xs ≡ xs
take_whole n xs h = rw (sym h) (take_all xs)

backed-place :
    (rel : Bool) (d : Bytes) (es : List ListEntry)
    → AreBacked rel es
    → AreBacked rel (place rel d es)
backed-place rel d [] b = tt
backed-place rel d (e ∷ es) b = (
  rw (length-overlay (take (page_len rel e.len) d) e.buf) b.0,
  backed-place rel (drop (page_len rel e.len) d) es b.1,
)

pub place_chain-IsChain :
    (rel : Bool) (d : Bytes) (ls : List GcBufferList)
    → IsFull rel ls
    → IsChain rel (place_chain rel d ls)
place_chain-IsChain rel d [] f = tt
place_chain-IsChain rel d (b ∷ ls) ((s, l, k, z), f) = (
  (omega arith, omega (arith, length-place rel d b.entrys), backed-place rel d b.entrys k),
  place_chain-IsChain rel (drop (length (held_all rel b.entrys)) d) ls f,
)

pub contents-place_chain :
    (rel : Bool) (d : Bytes) (ls : List GcBufferList)
    → IsFull rel ls
    → contents rel (place_chain rel d ls) ≡ overlay d (contents rel ls)
contents-place_chain rel d [] f = sym (overlay-nil d)
contents-place_chain rel d (b ∷ ls) ((s, l, k, z), f) =
    let p : length (place rel d b.entrys) ≡ 64 = omega (arith, length-place rel d b.entrys) in
    rw
      (
        s,
        take_whole 64 b.entrys l,
        take_whole 64 (place rel d b.entrys) p,
        held_all-place rel d b.entrys k,
        contents-place_chain rel (drop (length (held_all rel b.entrys)) d) ls f,
        overlay-append d (held_all rel b.entrys) (contents rel ls),
      )
      refl

length-drop : (n : ℕ) (d : Bytes) → length (drop n d) ≡ length d - n
length-drop zero d = omega arith
length-drop (suc n) [] = omega arith
length-drop (suc n) (x ∷ d) = omega (arith, length-drop n d)

pub scatter-place_chain :
    (rel : Bool) (ls : List GcBufferList) (d : Bytes)
    → IsFull rel ls
    → length d ≤ length (contents rel ls)
    → scatter rel ls d ≡ some (place_chain rel d ls)
unfolding scatter
scatter-place_chain rel ls [] f g = rw (place_chain_nil rel ls) refl
scatter-place_chain rel [] (x ∷ d) f g = ground arith
scatter-place_chain rel (b ∷ ls) (x ∷ d) ((s, l, k, z), f) g =
    let c : length (contents rel (b ∷ ls))
        ≡ length (held_all rel b.entrys) + length (contents rel ls) =
      rw (s, take_whole 64 b.entrys l, length-append (held_all rel b.entrys) (contents rel ls))
        refl in
    rw
      (
        scatter,
        scatter_list-place rel 64 b.entrys (x ∷ d) (omega arith) (sym l) k,
        scatter-place_chain rel ls (drop (length (held_all rel b.entrys)) (x ∷ d)) f
            (omega (arith, length-drop (length (held_all rel b.entrys)) (x ∷ d))),
      )
      refl
