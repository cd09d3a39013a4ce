-- ===== src/Proxy/IoCtx/Complete.antt =====
-- GetIoCtxWithClient: a pool has a context for every client, or none at all.
use global_cache_adaptor.Common.{
  ℕ, zero, suc, ◌+◌, ◌≡◌, refl, inl, inr, arith, Bool, List, [], ◌∷◌, Option, none, some, ◌==◌,
  ==_refl, u32, get_elem?, Bool-cases, Option-cases,
}
use mathlib.Core.Path.{subst}
use global_cache_adaptor.Common.OrdMap.{OrdMap, lookup, insert, lookup-insert}
use global_cache_adaptor.Proxy.IoCtx.{CephProxy, create_all, get_io_ctx_with_client}
use Prim.Native.Nat.{bit_and}

abbrev pub HasKey : OrdMap ℕ → ℕ → Type 0
HasKey m c = (io : ℕ) × (lookup c m ≡ some io)

abbrev pub HasKeys : List ℕ → OrdMap ℕ → Type 0
HasKeys [] m = Unit
HasKeys (c ∷ cs) m = HasKey m c × HasKeys cs m

-- Every pool of the map has a context for each client.
abbrev pub IsComplete : CephProxy → Type 0
IsComplete s = (pool : ℕ) (m : OrdMap ℕ) → lookup pool s.p_map ≡ some m → HasKeys s.io_client_vec m

insert-HasKey : (m : OrdMap ℕ) (c d v : ℕ) → HasKey m d → HasKey (insert c v m) d
insert-HasKey m c d v (io, h) = elim (Bool-cases (c == d)) [
  | inl y ↦ (v, rw (lookup-insert c d v m, y) refl)
  | inr y ↦ (io, rw (lookup-insert c d v m, y) h)
]

inserted-HasKey : (m : OrdMap ℕ) (c v : ℕ) → HasKey (insert c v m) c
inserted-HasKey m c v = (v, ground (arith, lookup-insert c c v m))

create_all-HasKey :
    (succeeds : ℕ → Bool) (n : ℕ) (cs : List ℕ) (m m' : OrdMap ℕ) (d : ℕ)
    → (create_all succeeds n cs m).1 ≡ some m'
    → HasKey m d
    → HasKey m' d
unfolding create_all
create_all-HasKey succeeds n [] m m' d e h = let q : m ≡ m' = cc in subst (λ x. HasKey x d) q h
create_all-HasKey succeeds n (c ∷ cs) m m' d e h = elim (Bool-cases (succeeds n)) [
  | inl y ↦
      let e1 : (create_all succeeds (suc n) cs (insert c n m)).1 ≡ some m' =
        rw (create_all, y) at e in
      create_all-HasKey succeeds (suc n) cs (insert c n m) m' d e1 (insert-HasKey m c d n h)
  | inr y ↦ let e1 : none ≡ some m' = rw (create_all, y) at e in ground arith
]

create_all-HasKeys :
    (succeeds : ℕ → Bool) (n : ℕ) (cs : List ℕ) (m m' : OrdMap ℕ)
    → (create_all succeeds n cs m).1 ≡ some m'
    → HasKeys cs m'
unfolding create_all
create_all-HasKeys succeeds n [] m m' e = tt
create_all-HasKeys succeeds n (c ∷ cs) m m' e = elim (Bool-cases (succeeds n)) [
  | inl y ↦
      let e1 : (create_all succeeds (suc n) cs (insert c n m)).1 ≡ some m' =
        rw (create_all, y) at e in
      (
        create_all-HasKey succeeds (suc n) cs (insert c n m) m' c e1 (inserted-HasKey m c n),
        create_all-HasKeys succeeds (suc n) cs (insert c n m) m' e1,
      )
  | inr y ↦ let e1 : none ≡ some m' = rw (create_all, y) at e in ground arith
]

get_elem-HasKey :
    (cs : List ℕ) (m : OrdMap ℕ) (i c : ℕ) → get_elem? cs i ≡ some c → HasKeys cs m → HasKey m c
get_elem-HasKey [] m i c e h = ground arith
get_elem-HasKey (b ∷ cs) m zero c e h = let q : b ≡ c = cc in subst (λ x. HasKey m x) q h.0
get_elem-HasKey (b ∷ cs) m (suc i) c e h = get_elem-HasKey cs m i c e h.1

inserted-HasKeys :
    (s : CephProxy) (pool : ℕ) (m : OrdMap ℕ) (p : ℕ) (m1 : OrdMap ℕ)
    → IsComplete s
    → HasKeys s.io_client_vec m
    → lookup p (insert pool m s.p_map) ≡ some m1
    → HasKeys s.io_client_vec m1
inserted-HasKeys s pool m p m1 c all h = elim (Bool-cases (pool == p)) [
  | inl y ↦
      let e : some m ≡ some m1 = rw (lookup-insert pool p m s.p_map, y) at h in
      let q : m ≡ m1 = cc in subst (λ x. HasKeys s.io_client_vec x) q all
  | inr y ↦ c p m1 (rw (lookup-insert pool p m s.p_map, y) at h)
]

-- A call that gives a context: of the client whose turn it is, from the map of the pool.
pub record IsGiven (pool client : ℕ) (s s' : CephProxy) (io : ℕ) : Type 0 where
  pub contexts : OrdMap ℕ
  pub stored : lookup pool s'.p_map ≡ some contexts
  pub taken : lookup client contexts ≡ some io
  pub complete : IsComplete s'
  pub same_clients : s'.io_client_vec ≡ s.io_client_vec

-- What a call comes to: a context; or none, and then the pool was not known, and is not now.
pub data Given (pool client : ℕ) (s : CephProxy)
    : Option ((ℕ × Option ℕ) × CephProxy) → Type 0 where
  given :
      (io : ℕ) (s' : CephProxy)
      → IsGiven pool client s s' io
      → Given pool client s (some ((client, some io), s'))
  refused :
      (s' : CephProxy)
      → lookup pool s.p_map ≡ none
      → s'.p_map ≡ s.p_map
      → s'.io_client_vec ≡ s.io_client_vec
      → Given pool client s (some ((client, none), s'))

-- When every pool that is known has a context for each client, and the turn is that of a client:
-- GetIoCtxWithClient picks that client, and either gives the context that the pool has for it, and
-- every known pool still has a context for each client; or it gives a null pointer, but only for a
-- pool that was not known, and the known pools and the clients are those before.
pub get_io_ctx_with_client-Given :
    (succeeds : ℕ → Bool) (pool client : ℕ) (s : CephProxy)
    → IsComplete s
    → get_elem? s.io_client_vec (bit_and s.count s.vec_mask) ≡ some client
    → Given pool client s (get_io_ctx_with_client succeeds pool s)
unfolding get_io_ctx_with_client
get_io_ctx_with_client-Given succeeds pool client s c e =
    elim (Option-cases (lookup pool s.p_map)) [
      | inr (m, l) ↦
          let (io, k) =
            get_elem-HasKey s.io_client_vec m (bit_and s.count s.vec_mask) client e (c pool m l) in
          rw (get_io_ctx_with_client, e, l, k)
            (given io (record s { count = u32 (s.count + 1) })
              (record {
                contexts = m;
                stored = l;
                taken = k;
                complete = λ p m1 h. c p m1 h;
                same_clients = refl;
              }))
      | inl l ↦ elim (Option-cases (create_all succeeds s.attempts s.io_client_vec []).1) [
        | inl f ↦
            rw (get_io_ctx_with_client, e, l, f)
              (refused
                (record s {
                  count = u32 (s.count + 1);
                  attempts = (create_all succeeds s.attempts s.io_client_vec []).0;
                })
                l refl refl)
        | inr (m, f) ↦
            let all : HasKeys s.io_client_vec m =
              create_all-HasKeys succeeds s.attempts s.io_client_vec [] m f in
            let (io, k) =
              get_elem-HasKey s.io_client_vec m (bit_and s.count s.vec_mask) client e all in
            rw (get_io_ctx_with_client, e, l, f, k)
              (given io
                (record s {
                  count = u32 (s.count + 1);
                  attempts = (create_all succeeds s.attempts s.io_client_vec []).0;
                  p_map = insert pool m s.p_map;
                })
                (record {
                  contexts = m;
                  stored = rw (lookup-insert pool pool m s.p_map, ==_refl pool) refl;
                  taken = k;
                  complete = λ p m1 h. inserted-HasKeys s pool m p m1 c all h;
                  same_clients = refl;
                }))
      ]
    ]
