-- ===== src/Proxy/OmapIter.antt =====
-- src/ceph_proxy/RadosWrapper.cc: the iterator over the OMAP of an object, RadosOmapIter, which
-- ReadCallback starts and RadosOmapGetNext moves. An iterator of std::map is the key of its element, and
-- `none` at the end, so that it stays where it is when elements are put into the map.
pub mod Visits
use global_cache_adaptor.Common.{
  ℕ, zero, suc, Bool, true, false, List, [], ◌∷◌, Option, none, some, if◌then◌else◌, length,
}
use global_cache_adaptor.Common.Bytes.{Bytes, same}

abbrev pub Pairs : Type 0
Pairs = List (Bytes × Bytes)

-- RadosOmapIter, with the elements of its map and set in their order.
pub record OmapIter : Type 0 where
  pub values : Pairs
  pub i : Option Bytes
  pub keys : List Bytes

-- `begin()`.
abbrev pub begin : Pairs → Option Bytes
begin [] = none
begin ((k, v) ∷ m) = some k

-- The value of an element, and the iterator behind it.
unfoldable pub element : Bytes → Pairs → Option (Bytes × Option Bytes)
element k [] = none
element k ((j, v) ∷ m) = let rest = element k m in if same j k then some (v, begin m) else rest

-- `values[k]` for a key that may be new; the order is that of `before`, which is the map's.
abbrev pub touch : (Bytes → Bytes → Bool) → Bytes → Pairs → Pairs
touch before k [] = (k, []) ∷ []
touch before k ((j, v) ∷ m) =
    let rest = touch before k m in
    if same j k then (j, v) ∷ m else if before k j then (k, []) ∷ (j, v) ∷ m else (j, v) ∷ rest

abbrev pub touch_all : (Bytes → Bytes → Bool) → List Bytes → Pairs → Pairs
touch_all before [] m = m
touch_all before (k ∷ ks) m = touch_all before ks (touch before k m)

-- What ReadCallback does with the iterator, behind a read without an error.
unfoldable pub start : (Bytes → Bytes → Bool) → OmapIter → OmapIter
start before it = record it { i = begin it.values; values = touch_all before it.keys it.values }

-- RadosOmapGetNext: the key and the value (`none`: null pointers), and the iterator.
unfoldable pub next : OmapIter → Option (Bytes × Bytes) × OmapIter
next it = elim it.i [
  | none ↦ (none, it)
  | some k ↦ elim (element k it.values) [
    | none ↦ (none, it)
    | some (v, after) ↦ (some (k, v), record it { i = after })
  ]
]

-- A caller that goes on to the end, for at most so many calls: what it reads, and whether it came to the
-- end. It stops at the first null key.
abbrev pub go_on : (OmapIter → Pairs × Bool) → Option (Bytes × Bytes) × OmapIter → Pairs × Bool
go_on rest (none, it) = ([], true)
go_on rest (some pair, it) = (pair ∷ (rest it).0, (rest it).1)

unfoldable pub visit : ℕ → OmapIter → Pairs × Bool
visit zero it = ([], false)
visit (suc left) it = go_on (visit left) (next it)

-- RadosOmapIterSize.
abbrev pub iter_size : OmapIter → ℕ
iter_size it = length it.values
