-- ===== src/Proxy/IoCtx/Table/Held.antt =====
-- src/ceph_proxy/PoolContext.h: each context is in a table, but for those whose creation failed.
use global_cache_adaptor.Common.{
  ℕ, ◌+◌, ◌≡◌, refl, ◌⊎◌, inl, inr, arith, List, [], ◌∷◌, Option, none, some, length, Bool-cases,
  Option-cases, ==_refl,
}
use mathlib.Core.Path.{subst}
use global_cache_adaptor.Common.Bytes.{Bytes}
use global_cache_adaptor.Common.Int.{ℤ, is_neg}
use global_cache_adaptor.Common.OrdMap.{lookup, lookup-insert}
use global_cache_adaptor.Proxy.IoCtx.Table.{
  find, IoCtxTable, insert_name, insert_id, delete_name, delete_id, clear, create, get_io_ctx,
  get_io_ctx2, get_pool_id_by_pool_name, get_pool_name_by_pool_id, keep_name, keep_id,
}
use global_cache_adaptor.Proxy.IoCtx.Table.Maps.{
  length-put, length-remove, find-put, length-insert, length-erase,
}

-- The objects that are not deleted are those of the tables and those of failed attempts.
abbrev pub IsHeld : IoCtxTable → Type 0
IsHeld t = t.live ≡ length t.table1 + length t.table2 + t.failed

-- A call of the proxy that uses the tables.
pub data Request : Type 0 where
  by_name : Bytes → Request
  by_id : ℕ → Request
  drop_name : Bytes → Request
  drop_id : ℕ → Request
  drop_all : Request
  id_of : Bytes → Request
  name_of : ℕ → ℕ → Request

module _ (code : ℕ → ℤ) (get_id : ℕ → ℤ) (get_name : ℕ → Bytes) where
  abbrev pub after : Request → IoCtxTable → IoCtxTable
  after (Request.by_name name) t = (get_io_ctx code name t).1
  after (Request.by_id id) t = (get_io_ctx2 code id t).1
  after (Request.drop_name name) t = delete_name name t
  after (Request.drop_id id) t = delete_id id t
  after Request.drop_all t = clear t
  after (Request.id_of name) t = (get_pool_id_by_pool_name code get_id t).1
  after (Request.name_of id max_len) t = (get_pool_name_by_pool_id code get_name max_len t).1

  abbrev pub after_all : List Request → IoCtxTable → IoCtxTable
  after_all [] t = t
  after_all (r ∷ rs) t = after_all rs (after r t)

module _ (code : ℕ → ℤ) where
  keep_name-IsHeld :
      (name : Bytes) (t : IoCtxTable)
      → find name t.table1 ≡ none
      → IsHeld t
      → IsHeld (keep_name name (create code t)).1
  unfolding create insert_name
  keep_name-IsHeld name t e h = elim (Bool-cases (is_neg (code t.attempts))) [
    | inl y ↦ rw (create, y) (omega (arith, h))
    | inr y ↦ rw (create, y) (omega (arith, h, length-put name t.attempts t.table1 e))
  ]

  keep_id-IsHeld :
      (id : ℕ) (t : IoCtxTable)
      → lookup id t.table2 ≡ none
      → IsHeld t
      → IsHeld (keep_id id (create code t)).1
  unfolding create insert_id
  keep_id-IsHeld id t e h = elim (Bool-cases (is_neg (code t.attempts))) [
    | inl y ↦ rw (create, y) (omega (arith, h))
    | inr y ↦
        rw (create, y, insert_id, e) (omega (arith, h, length-insert id t.attempts t.table2 e))
  ]

  get_io_ctx-IsHeld : (name : Bytes) (t : IoCtxTable) → IsHeld t → IsHeld (get_io_ctx code name t).1
  unfolding get_io_ctx
  get_io_ctx-IsHeld name t h = elim (Option-cases (find name t.table1)) [
    | inl e ↦ rw (get_io_ctx, e) (keep_name-IsHeld name t e h)
    | inr (io, e) ↦ rw (get_io_ctx, e) h
  ]

  get_io_ctx2-IsHeld : (id : ℕ) (t : IoCtxTable) → IsHeld t → IsHeld (get_io_ctx2 code id t).1
  unfolding get_io_ctx2
  get_io_ctx2-IsHeld id t h = elim (Option-cases (lookup id t.table2)) [
    | inl e ↦ rw (get_io_ctx2, e) (keep_id-IsHeld id t e h)
    | inr (io, e) ↦ rw (get_io_ctx2, e) h
  ]

  delete_name-IsHeld : (name : Bytes) (t : IoCtxTable) → IsHeld t → IsHeld (delete_name name t)
  unfolding delete_name
  delete_name-IsHeld name t h = elim (Option-cases (find name t.table1)) [
    | inl e ↦ rw (delete_name, e) h
    | inr (io, e) ↦ rw (delete_name, e) (omega (arith, h, length-remove name io t.table1 e))
  ]

  delete_id-IsHeld : (id : ℕ) (t : IoCtxTable) → IsHeld t → IsHeld (delete_id id t)
  unfolding delete_id
  delete_id-IsHeld id t h = elim (Option-cases (lookup id t.table2)) [
    | inl e ↦ rw (delete_id, e) h
    | inr (io, e) ↦ rw (delete_id, e) (omega (arith, h, length-erase id io t.table2 e))
  ]

  clear-IsHeld : (t : IoCtxTable) → IsHeld t → IsHeld (clear t)
  unfolding clear
  clear-IsHeld t h = omega (arith, h)

  id_of-IsHeld :
      (get_id : ℕ → ℤ) (t : IoCtxTable)
      → IsHeld t
      → IsHeld (get_pool_id_by_pool_name code get_id t).1
  unfolding get_pool_id_by_pool_name create
  id_of-IsHeld get_id t h = elim (Bool-cases (is_neg (code t.attempts))) [
    | inl y ↦ rw (get_pool_id_by_pool_name, create, y) (omega (arith, h))
    | inr y ↦ rw (get_pool_id_by_pool_name, create, y) (omega (arith, h))
  ]

  name_of-IsHeld :
      (get_name : ℕ → Bytes) (max_len : ℕ) (t : IoCtxTable)
      → IsHeld t
      → IsHeld (get_pool_name_by_pool_id code get_name max_len t).1
  unfolding get_pool_name_by_pool_id create
  name_of-IsHeld get_name max_len t h = elim (Bool-cases (is_neg (code t.attempts))) [
    | inl y ↦ rw (get_pool_name_by_pool_id, create, y) (omega (arith, h))
    | inr y ↦ rw (get_pool_name_by_pool_id, create, y) (omega (arith, h))
  ]

module _ (code : ℕ → ℤ) (get_id : ℕ → ℤ) (get_name : ℕ → Bytes) where
  after-IsHeld : (r : Request) (t : IoCtxTable) → IsHeld t → IsHeld (after code get_id get_name r t)
  after-IsHeld (Request.by_name name) t h = get_io_ctx-IsHeld code name t h
  after-IsHeld (Request.by_id id) t h = get_io_ctx2-IsHeld code id t h
  after-IsHeld (Request.drop_name name) t h = delete_name-IsHeld code name t h
  after-IsHeld (Request.drop_id id) t h = delete_id-IsHeld code id t h
  after-IsHeld Request.drop_all t h = clear-IsHeld code t h
  after-IsHeld (Request.id_of name) t h = id_of-IsHeld code get_id t h
  after-IsHeld (Request.name_of id max_len) t h = name_of-IsHeld code get_name max_len t h

  -- If at first the IoCtx objects that are not deleted are as many as the contexts of the two tables and
  -- the failed attempts to create one, then they are so after any calls of GetIoCtx, GetIoCtx2, Delete,
  -- Clear, GetPoolIdByPoolName and GetPoolNameByPoolId, one at a time.
  pub after_all-IsHeld :
      (rs : List Request) (t : IoCtxTable) → IsHeld t → IsHeld (after_all code get_id get_name rs t)
  after_all-IsHeld [] t h = h
  after_all-IsHeld (r ∷ rs) t h =
      after_all-IsHeld rs (after code get_id get_name r t) (after-IsHeld r t h)

-- The kinds of keys that GetIoCtx and GetIoCtx2 take.
abbrev pub ask : (ℕ → ℤ) → Bytes ⊎ ℕ → IoCtxTable → Option ℕ × IoCtxTable
ask code (inl name) t = get_io_ctx code name t
ask code (inr id) t = get_io_ctx2 code id t

found_name :
    (code : ℕ → ℤ) (name : Bytes) (io : ℕ) (t : IoCtxTable)
    → find name t.table1 ≡ some io
    → get_io_ctx code name t ≡ (some io, t)
unfolding get_io_ctx
found_name code name io t e = rw (get_io_ctx, e) refl

found_id :
    (code : ℕ → ℤ) (id io : ℕ) (t : IoCtxTable)
    → lookup id t.table2 ≡ some io
    → get_io_ctx2 code id t ≡ (some io, t)
unfolding get_io_ctx2
found_id code id io t e = rw (get_io_ctx2, e) refl

-- A context behind a call is in the table.
abbrev Kept : (IoCtxTable → Option ℕ) → Option ℕ × IoCtxTable → Type 0
Kept look (none, t) = Unit
Kept look (some io, t) = look t ≡ some io

get_io_ctx-Kept :
    (code : ℕ → ℤ) (name : Bytes) (t : IoCtxTable)
    → Kept (λ u. find name u.table1) (get_io_ctx code name t)
unfolding get_io_ctx create insert_name
get_io_ctx-Kept code name t = elim (Option-cases (find name t.table1)) [
  | inr (io, e) ↦ rw (get_io_ctx, e) e
  | inl e ↦ elim (Bool-cases (is_neg (code t.attempts))) [
    | inl y ↦ rw (get_io_ctx, e, create, y) tt
    | inr y ↦ rw (get_io_ctx, e, create, y) (find-put name t.attempts t.table1)
  ]
]

get_io_ctx2-Kept :
    (code : ℕ → ℤ) (id : ℕ) (t : IoCtxTable)
    → Kept (λ u. lookup id u.table2) (get_io_ctx2 code id t)
unfolding get_io_ctx2 create insert_id
get_io_ctx2-Kept code id t = elim (Option-cases (lookup id t.table2)) [
  | inr (io, e) ↦ rw (get_io_ctx2, e) e
  | inl e ↦ elim (Bool-cases (is_neg (code t.attempts))) [
    | inl y ↦ rw (get_io_ctx2, e, create, y) tt
    | inr y ↦
        rw (get_io_ctx2, e, create, y, insert_id, e)
          (rw (lookup-insert id id t.attempts t.table2, ==_refl id) refl)
  ]
]

-- When GetIoCtx or GetIoCtx2 gives a context, then the next call with the same name or identifier gives
-- the same one, whatever librados would answer then, and changes nothing.
pub ask_again :
    (code later : ℕ → ℤ) (key : Bytes ⊎ ℕ) (t u : IoCtxTable) (io : ℕ)
    → ask code key t ≡ (some io, u)
    → ask later key u ≡ (some io, u)
ask_again code later (inl name) t u io e =
    found_name later name io u
      (subst (Kept (λ v. find name v.table1)) e (get_io_ctx-Kept code name t))
ask_again code later (inr id) t u io e =
    found_id later id io u (subst (Kept (λ v. lookup id v.table2)) e (get_io_ctx2-Kept code id t))
