-- ===== src/Proxy/Buffers/Places.antt =====
-- The loops of ReadCallback, by what they leave in the entries.
use global_cache_adaptor.Common.{
  ℕ, zero, suc, ◌+◌, ◌-◌, ◌≤◌, ◌≡◌, refl, sym, ap, arith, Bool, true, false, List, [], ◌∷◌, some,
  leb, length, take, drop, overlay, length-take, overlay-append, overlay-nil, length-append,
  append-nil,
}
use global_cache_adaptor.Common.Bytes.{Bytes}
use global_cache_adaptor.Proxy.Buffers.{ListEntry, page_len, min, write_page, scatter_list}
use global_cache_adaptor.Proxy.Buffers.Contents.{held, held_all, AreBacked}

-- The entries with the bytes placed over what they hold, in their order.
abbrev pub place : Bool → Bytes → List ListEntry → List ListEntry
place rel d [] = []
place rel d (e ∷ es) =
    record e { buf = overlay (take (page_len rel e.len) d) e.buf }
    ∷ place rel (drop (page_len rel e.len) d) es

take_of_nil : {A : Type 0} (n : ℕ) → take {A = A} n [] ≡ []
take_of_nil zero = refl
take_of_nil (suc n) = refl

pub drop_of_nil : {A : Type 0} (n : ℕ) → drop {A = A} n [] ≡ []
drop_of_nil zero = refl
drop_of_nil (suc n) = refl

pub place_nil : (rel : Bool) (es : List ListEntry) → place rel [] es ≡ es
place_nil rel [] = refl
place_nil rel (e ∷ es) =
    rw
      (
        take_of_nil {A = ℕ} (page_len rel e.len),
        drop_of_nil {A = ℕ} (page_len rel e.len),
        place_nil rel es,
      )
      refl

pub length-place :
    (rel : Bool) (d : Bytes) (es : List ListEntry) → length (place rel d es) ≡ length es
length-place rel d [] = refl
length-place rel d (e ∷ es) = ap suc (length-place rel (drop (page_len rel e.len) d) es)

take_over : (n : ℕ) (d b : Bytes) → take n (overlay (take n d) b) ≡ overlay d (take n b)
take_over zero d b = sym (overlay-nil d)
take_over (suc n) [] b = refl
take_over (suc n) (x ∷ d) [] = refl
take_over (suc n) (x ∷ d) (y ∷ b) = ap (λ zs. x ∷ zs) (take_over n d b)

pub held_all-place :
    (rel : Bool) (d : Bytes) (es : List ListEntry)
    → AreBacked rel es
    → held_all rel (place rel d es) ≡ overlay d (held_all rel es)
held_all-place rel d [] b = sym (overlay-nil d)
held_all-place rel d (e ∷ es) b =
    rw
      (
        take_over (page_len rel e.len) d e.buf,
        held_all-place rel (drop (page_len rel e.len) d) es b.1,
        overlay-append d (held rel e) (held_all rel es),
        length-take (page_len rel e.len) e.buf b.0,
      )
      refl

take_short : (n : ℕ) (d : Bytes) → take (min n (length d)) d ≡ take n d
take_short zero d = let q : min 0 (length d) ≡ 0 = ground arith in rw (q) refl
take_short (suc n) [] = let q : min (suc n) 0 ≡ 0 = ground arith in rw (q) refl
take_short (suc n) (x ∷ d) =
    let q : min (suc n) (suc (length d)) ≡ suc (min n (length d)) = ground arith in
    rw (q, take_short n d) refl

drop_short : (n : ℕ) (d : Bytes) → drop (min n (length d)) d ≡ drop n d
drop_short zero d = let q : min 0 (length d) ≡ 0 = ground arith in rw (q) refl
drop_short (suc n) [] = let q : min (suc n) 0 ≡ 0 = ground arith in rw (q) refl
drop_short (suc n) (x ∷ d) =
    let q : min (suc n) (suc (length d)) ≡ suc (min n (length d)) = ground arith in
    rw (q, drop_short n d) refl

drop-drop : (a b : ℕ) (d : Bytes) → drop (a + b) d ≡ drop b (drop a d)
drop-drop zero b d = let q : 0 + b ≡ b = omega arith in rw (q) refl
drop-drop (suc a) b [] =
    let q : suc a + b ≡ suc (a + b) = omega arith in rw (q, drop_of_nil {A = ℕ} b) refl
drop-drop (suc a) b (x ∷ d) =
    let q : suc a + b ≡ suc (a + b) = omega arith in rw (q, drop-drop a b d) refl

length-take-le : (n : ℕ) (d : Bytes) → length (take n d) ≤ n
length-take-le zero d = omega arith
length-take-le (suc n) [] = omega arith
length-take-le (suc n) (x ∷ d) = omega (arith, length-take-le n d)

written :
    (rel : Bool) (e : ListEntry) (d : Bytes)
    → page_len rel e.len ≤ length e.buf
    → write_page (take (min (page_len rel e.len) (length d)) d) e.buf
      ≡ some (overlay (take (page_len rel e.len) d) e.buf)
unfolding write_page
written rel e d h =
    let q : leb (length (take (page_len rel e.len) d)) (length e.buf) ≡ true =
      ground (arith, length-take-le (page_len rel e.len) d) in
    rw (take_short (page_len rel e.len) d, q) refl

pub scatter_list-place :
    (rel : Bool) (n : ℕ) (es : List ListEntry) (d : Bytes)
    → 1 ≤ n
    → n ≡ length es
    → AreBacked rel es
    → scatter_list rel n es d ≡ some (place rel d es, drop (length (held_all rel es)) d)
unfolding scatter_list
scatter_list-place rel n es [] o g b =
    rw (place_nil rel es, drop_of_nil {A = ℕ} (length (held_all rel es))) refl
scatter_list-place rel n [] (x ∷ d) o g b = ground arith
scatter_list-place rel n (e ∷ []) (x ∷ d) o g b =
    let q : leb n 1 ≡ true = ground arith in
    rw
      (
        scatter_list,
        written rel e (x ∷ d) b.0,
        q,
        drop_short (page_len rel e.len) (x ∷ d),
        append-nil (held rel e),
        length-take (page_len rel e.len) e.buf b.0,
      )
      refl
scatter_list-place rel n (e ∷ f ∷ es) (x ∷ d) o g b =
    let q : leb n 1 ≡ false = ground arith in
    rw
      (
        scatter_list,
        written rel e (x ∷ d) b.0,
        q,
        drop_short (page_len rel e.len) (x ∷ d),
        scatter_list-place rel (n - 1) (f ∷ es) (drop (page_len rel e.len) (x ∷ d)) (omega arith)
            (omega arith) b.1,
        length-append (held rel e) (held_all rel (f ∷ es)),
        length-take (page_len rel e.len) e.buf b.0,
        drop-drop (page_len rel e.len) (length (held_all rel (f ∷ es))) (x ∷ d),
      )
      refl
