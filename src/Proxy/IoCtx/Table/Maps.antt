-- ===== src/Proxy/IoCtx/Table/Maps.antt =====
-- src/ceph_proxy/PoolContext.h: the sizes of the two maps.
use global_cache_adaptor.Common.{ℕ, suc, ◌≡◌, refl, arith, [], ◌∷◌, none, some, length}
use global_cache_adaptor.Common.Bytes.{Bytes, same_refl}
use global_cache_adaptor.Common.OrdMap.{OrdMap, lookup, insert, erase}
use global_cache_adaptor.Proxy.IoCtx.Table.{NameMap, find, put, remove}

pub length-put :
    (k : Bytes) (v : ℕ) (m : NameMap) → find k m ≡ none → length (put k v m) ≡ suc (length m)
length-put k v [] h = refl
length-put k v ((j, w) ∷ m) h = ground (arith, length-put k v m)

pub length-remove :
    (k : Bytes) (v : ℕ) (m : NameMap) → find k m ≡ some v → suc (length (remove k m)) ≡ length m
length-remove k v [] h = cc
length-remove k v ((j, w) ∷ m) h = ground (arith, length-remove k v m)

pub find-put : (k : Bytes) (v : ℕ) (m : NameMap) → find k (put k v m) ≡ some v
find-put k v [] = ground (arith, same_refl k)
find-put k v ((j, w) ∷ m) = ground (arith, find-put k v m)

pub length-insert :
    (k v : ℕ) (m : OrdMap ℕ) → lookup k m ≡ none → length (insert k v m) ≡ suc (length m)
length-insert k v [] h = refl
length-insert k v ((j, w) ∷ m) h = ground (arith, length-insert k v m)

pub length-erase :
    (k v : ℕ) (m : OrdMap ℕ) → lookup k m ≡ some v → suc (length (erase k m)) ≡ length m
length-erase k v [] h = cc
length-erase k v ((j, w) ∷ m) h = ground (arith, length-erase k v m)
