-- ===== src/Proxy/Buffers/Contents.antt =====
-- What the page lists hold: the data of a write, and of a read.
use global_cache_adaptor.Common.{
  ℕ, zero, suc, ◌+◌, ◌-◌, ◌≤◌, ◌≡◌, refl, sym, ap, inl, inr, arith, Bool, true, List, [], ◌∷◌, ◌++◌,
  some, leb, length, take, Bool-cases, length-append, append-nil, length-take,
}
use global_cache_adaptor.Common.Bytes.{Bytes}
use global_cache_adaptor.Proxy.Buffers.{
  ListEntry, GcBufferList, page_len, min, read_page, gather_list, gather,
}

-- What an entry holds, and what entries and lists hold in their order.
abbrev pub held : Bool → ListEntry → Bytes
held rel e = take (page_len rel e.len) e.buf

abbrev pub held_all : Bool → List ListEntry → Bytes
held_all rel [] = []
held_all rel (e ∷ es) = held rel e ++ held_all rel es

-- A list holds its first `entry_sum_list` entries.
abbrev pub contents : Bool → List GcBufferList → Bytes
contents rel [] = []
contents rel (b ∷ ls) = held_all rel (take b.entry_sum_list b.entrys) ++ contents rel ls

-- The memory of each entry is as long as the entry.
abbrev pub AreBacked : Bool → List ListEntry → Type 0
AreBacked rel [] = Unit
AreBacked rel (e ∷ es) = (page_len rel e.len ≤ length e.buf) × AreBacked rel es

-- Each list of the chain has between 1 and as many entries as its array, and all are backed.
abbrev pub IsChain : Bool → List GcBufferList → Type 0
IsChain rel [] = Unit
IsChain rel (b ∷ ls) =
    ((1 ≤ b.entry_sum_list) × (b.entry_sum_list ≤ length b.entrys) × AreBacked rel b.entrys)
    × IsChain rel ls

take_nil : {A : Type 0} (n : ℕ) → take {A = A} n [] ≡ []
take_nil zero = refl
take_nil (suc n) = refl

take_none : (n : ℕ) (xs : Bytes) → n ≡ 0 → take n xs ≡ []
take_none zero xs h = refl
take_none (suc n) xs h = ground arith

take-append : (n : ℕ) (xs ys : Bytes) → take n (xs ++ ys) ≡ take n xs ++ take (n - length xs) ys
take-append zero xs ys = sym (take_none (0 - length xs) ys (omega arith))
take-append (suc n) [] ys = let q : suc n ≡ suc n - 0 = omega arith in ap (λ k. take k ys) q
take-append (suc n) (x ∷ xs) ys =
    let q : suc n - suc (length xs) ≡ n - length xs = omega arith in
    rw (q, take-append n xs ys) refl

take-min : (a n : ℕ) (xs : Bytes) → take (min a n) xs ≡ take n (take a xs)
take-min a zero xs = take_none (min a 0) xs (ground arith)
take-min zero (suc n) xs = take_none (min 0 (suc n)) xs (ground arith)
take-min (suc a) (suc n) [] = take_nil (min (suc a) (suc n))
take-min (suc a) (suc n) (x ∷ xs) =
    let q : min (suc a) (suc n) ≡ suc (min a n) = ground arith in rw (q, take-min a n xs) refl

read_held :
    (rel : Bool) (e : ListEntry) (left : ℕ)
    → page_len rel e.len ≤ length e.buf
    → read_page (min (page_len rel e.len) left) e.buf ≡ some (take left (held rel e))
unfolding read_page
read_held rel e left h =
    let q : leb (min (page_len rel e.len) left) (length e.buf) ≡ true = ground arith in
    rw (q, take-min (page_len rel e.len) left e.buf) refl

rest_min : (a left : ℕ) → left - min a left ≡ left - a
rest_min a left = ground arith

take_one : {A : Type 0} (n : ℕ) (x : A) (xs : List A) → n ≡ 1 → take n (x ∷ xs) ≡ x ∷ []
take_one n x xs q = rw q refl

take_more :
    {A : Type 0} (n : ℕ) (x : A) (xs : List A) → 1 ≤ n → take n (x ∷ xs) ≡ x ∷ take (n - 1) xs
take_more zero x xs h = ground arith
take_more (suc n) x xs h = let q : n ≡ suc n - 1 = omega arith in ap (λ k. x ∷ take k xs) q

gather_list-held :
    (rel : Bool) (n : ℕ) (es : List ListEntry) (left : ℕ)
    → 1 ≤ n
    → n ≤ length es
    → AreBacked rel es
    → gather_list rel n es left
      ≡ some (take left (held_all rel (take n es)), left - length (held_all rel (take n es)))
unfolding gather_list
gather_list-held rel n es zero o g b = ap (λ n. some ([], n)) (omega arith)
gather_list-held rel n [] (suc left) o g b = ground arith
gather_list-held rel n (e ∷ es) (suc left) o g b = elim (Bool-cases (leb n 1)) [
  | inl y ↦
      rw
        (
          gather_list,
          read_held rel e (suc left) b.0,
          y,
          rest_min (page_len rel e.len) (suc left),
          take_one n e es (ground arith),
          append-nil (held rel e),
          length-take (page_len rel e.len) e.buf b.0,
        )
        refl
  | inr y ↦
      let back : Bytes = held_all rel (take (n - 1) es) in
      let q : suc left - page_len rel e.len - length back
          ≡ suc left - (page_len rel e.len + length back) =
        omega arith in
      rw
        (
          gather_list,
          read_held rel e (suc left) b.0,
          y,
          rest_min (page_len rel e.len) (suc left),
          gather_list-held rel (n - 1) es (suc left - page_len rel e.len) (ground arith)
              (omega arith) b.1,
          take_more n e es o,
          take-append (suc left) (held rel e) back,
          length-append (held rel e) back,
          length-take (page_len rel e.len) e.buf b.0,
          q,
        )
        refl
]

pub gather-contents :
    (rel : Bool) (ls : List GcBufferList) (left : ℕ)
    → IsChain rel ls
    → left ≤ length (contents rel ls)
    → gather rel ls left ≡ some (take left (contents rel ls))
unfolding gather
gather-contents rel ls zero h g = refl
gather-contents rel [] (suc left) h g = ground arith
gather-contents rel (b ∷ ls) (suc left) ((one, fits, backed), h) g =
    let front : Bytes = held_all rel (take b.entry_sum_list b.entrys) in
    let l : suc left - length front ≤ length (contents rel ls) =
      omega (arith, length-append front (contents rel ls)) in
    rw
      (
        gather,
        gather_list-held rel b.entry_sum_list b.entrys (suc left) one fits backed,
        gather-contents rel ls (suc left - length front) h l,
        take-append (suc left) front (contents rel ls),
      )
      refl
