-- ===== src/Proxy/IoCtx/Table.antt =====
-- src/ceph_proxy/PoolContext.h, IOCtxTable, with GetIoCtx and GetIoCtx2 of src/ceph_proxy/CephProxy.cc and
-- RadosCreateIoCtx, RadosCreateIoCtx2 and RadosReleaseIoCtx of RadosWrapper.cc: the contexts of the main
-- client. A context is named by the number of the attempt that created it. One call runs at a time.
pub mod Maps
pub mod Held
use global_cache_adaptor.Common.{
  ℕ, ◌+◌, ◌-◌, Bool, true, false, List, [], ◌∷◌, Option, none, some, leb, if◌then◌else◌, length,
}
use global_cache_adaptor.Common.Bytes.{Bytes, same}
use global_cache_adaptor.Common.Int.{ℤ, pos, neg, is_neg}
use global_cache_adaptor.Common.Number.{to_int}
use global_cache_adaptor.Common.OrdMap.{OrdMap, lookup, insert, erase}

-- The map from names, whose order the source does not use.
abbrev pub NameMap : Type 0
NameMap = List (Bytes × ℕ)

abbrev pub find : Bytes → NameMap → Option ℕ
find k [] = none
find k ((j, v) ∷ m) = let rest = find k m in if same j k then some v else rest

abbrev pub put : Bytes → ℕ → NameMap → NameMap
put k v [] = (k, v) ∷ []
put k v ((j, w) ∷ m) = let rest = put k v m in if same j k then (j, v) ∷ m else (j, w) ∷ rest

abbrev pub remove : Bytes → NameMap → NameMap
remove k [] = []
remove k ((j, w) ∷ m) = let rest = remove k m in if same j k then m else (j, w) ∷ rest

-- The two tables; how many attempts were made to create a context, how many of these failed, and how many
-- IoCtx objects are not deleted.
pub record IoCtxTable : Type 0 where
  pub table1 : NameMap
  pub table2 : OrdMap ℕ
  pub attempts : ℕ
  pub failed : ℕ
  pub live : ℕ

-- Insert by name: the code, and the table. A context that is there is overwritten.
unfoldable pub insert_name : Bytes → ℕ → IoCtxTable → ℤ × IoCtxTable
insert_name name io t = (
  elim (find name t.table1) [ none ↦ pos 0 | some old ↦ neg 1 ],
  record t { table1 = put name io t.table1 },
)

-- Insert by identifier: a context that is there stays.
unfoldable pub insert_id : ℕ → ℕ → IoCtxTable → ℤ × IoCtxTable
insert_id id io t = elim (lookup id t.table2) [
  | none ↦ (pos 0, record t { table2 = insert id io t.table2 })
  | some old ↦ (neg 1, t)
]

-- RadosReleaseIoCtx.
abbrev pub release : IoCtxTable → IoCtxTable
release t = record t { live = t.live - 1 }

-- Delete.
unfoldable pub delete_name : Bytes → IoCtxTable → IoCtxTable
delete_name name t = elim (find name t.table1) [
  | none ↦ t
  | some io ↦ record (release t) { table1 = remove name t.table1 }
]

unfoldable pub delete_id : ℕ → IoCtxTable → IoCtxTable
delete_id id t = elim (lookup id t.table2) [
  | none ↦ t
  | some io ↦ record (release t) { table2 = erase id t.table2 }
]

-- Clear.
unfoldable pub clear : IoCtxTable → IoCtxTable
clear t = record t { table1 = []; table2 = []; live = t.live - length t.table1 - length t.table2 }

-- RadosCreateIoCtx and RadosCreateIoCtx2, where `code` is what librados answers to an attempt. After a
-- failure the object stays.
unfoldable pub create : (ℕ → ℤ) → IoCtxTable → Option ℕ × IoCtxTable
create code t =
    if is_neg (code t.attempts)
    then (none, record t { attempts = t.attempts + 1; failed = t.failed + 1; live = t.live + 1 })
    else (some t.attempts, record t { attempts = t.attempts + 1; live = t.live + 1 })

-- What GetIoCtx does with the attempt, and what GetIoCtx2 does.
abbrev pub keep_name : Bytes → Option ℕ × IoCtxTable → Option ℕ × IoCtxTable
keep_name name (none, t) = (none, t)
keep_name name (some io, t) = (some io, (insert_name name io t).1)

abbrev pub keep_id : ℕ → Option ℕ × IoCtxTable → Option ℕ × IoCtxTable
keep_id id (none, t) = (none, t)
keep_id id (some io, t) = (some io, (insert_id id io t).1)

-- GetIoCtx; `none` is a null pointer.
unfoldable pub get_io_ctx : (ℕ → ℤ) → Bytes → IoCtxTable → Option ℕ × IoCtxTable
get_io_ctx code name t = elim (find name t.table1) [
  | none ↦ keep_name name (create code t)
  | some io ↦ (some io, t)
]

-- GetIoCtx2.
unfoldable pub get_io_ctx2 : (ℕ → ℤ) → ℕ → IoCtxTable → Option ℕ × IoCtxTable
get_io_ctx2 code id t = elim (lookup id t.table2) [
  | none ↦ keep_id id (create code t)
  | some io ↦ (some io, t)
]

-- GetPoolIdByPoolName, where `get_id` is what librados says of a context: the code, cut to an `int`.
abbrev pub id_from : (ℕ → ℤ) → Option ℕ × IoCtxTable → ℤ × IoCtxTable
id_from get_id (none, t) = (neg 1, t)
id_from get_id (some io, t) = (to_int (get_id io), release t)

unfoldable pub get_pool_id_by_pool_name : (ℕ → ℤ) → (ℕ → ℤ) → IoCtxTable → ℤ × IoCtxTable
get_pool_id_by_pool_name code get_id t = id_from get_id (create code t)

-- RadosGetPoolName: the code, and what is written to `buf`.
abbrev pub rados_get_pool_name : Bytes → ℕ → ℤ × Option Bytes
rados_get_pool_name name max_len =
    if leb max_len (length name) then (neg 34, none) else (pos 0, some name)

-- GetPoolNameByPoolId, where `get_name` is what librados says of a context.
abbrev pub name_from : (ℕ → Bytes) → ℕ → Option ℕ × IoCtxTable → (ℤ × Option Bytes) × IoCtxTable
name_from get_name max_len (none, t) = ((neg 1, none), t)
name_from get_name max_len (some io, t) = (rados_get_pool_name (get_name io) max_len, release t)

unfoldable pub get_pool_name_by_pool_id :
    (ℕ → ℤ) → (ℕ → Bytes) → ℕ → IoCtxTable → (ℤ × Option Bytes) × IoCtxTable
get_pool_name_by_pool_id code get_name max_len t = name_from get_name max_len (create code t)
