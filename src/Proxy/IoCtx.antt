-- ===== src/Proxy/IoCtx.antt =====
-- src/ceph_proxy/CephProxy.cc, GetIoCtxWithClient: the contexts of a pool, one for each client of the
-- cluster, and the client whose turn it is. A context is named by the number of the attempt that
-- created it.
pub mod Complete
pub mod Table
use global_cache_adaptor.Common.{
  ℕ, suc, ◌+◌, Bool, true, false, List, [], ◌∷◌, Option, none, some, u32, get_elem?,
}
use global_cache_adaptor.Common.OrdMap.{OrdMap, lookup, insert}
use Prim.Native.Nat.{bit_and}

-- The members that the function uses; `attempts` counts the calls of RadosCreateIoCtx2.
pub record CephProxy : Type 0 where
  pub io_client_vec : List ℕ
  pub vec_mask : ℕ
  pub count : ℕ
  pub p_map : OrdMap (OrdMap ℕ)
  pub attempts : ℕ

-- The loop over the clients, where `succeeds` is RadosCreateIoCtx2: how many attempts were made, and
-- the map `tMap`, or `none` after a failure.
unfoldable pub create_all : (ℕ → Bool) → ℕ → List ℕ → OrdMap ℕ → ℕ × Option (OrdMap ℕ)
create_all succeeds n [] m = (n, some m)
create_all succeeds n (c ∷ cs) m = elim (succeeds n) [
  | false ↦ (suc n, none)
  | true ↦ create_all succeeds (suc n) cs (insert c n m)
]

-- GetIoCtxWithClient: the client and the context. An outer `none` is an access behind the end of the
-- clients, an inner one a null pointer.
unfoldable pub get_io_ctx_with_client :
    (ℕ → Bool) → ℕ → CephProxy → Option ((ℕ × Option ℕ) × CephProxy)
get_io_ctx_with_client succeeds pool s =
    elim (get_elem? s.io_client_vec (bit_and s.count s.vec_mask)) [
      | none ↦ none
      | some client ↦ elim (lookup pool s.p_map) [
        | some m ↦ some ((client, lookup client m), record s { count = u32 (s.count + 1) })
        | none ↦
            let made = create_all succeeds s.attempts s.io_client_vec [] in
            elim made.1 [
              | none ↦
                  some ((client, none), record s { count = u32 (s.count + 1); attempts = made.0 })
              | some m ↦ some (
                (client, lookup client m),
                record s {
                  count = u32 (s.count + 1);
                  attempts = made.0;
                  p_map = insert pool m s.p_map;
                },
              )
            ]
      ]
    ]
