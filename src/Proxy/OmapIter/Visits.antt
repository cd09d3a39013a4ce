-- ===== src/Proxy/OmapIter/Visits.antt =====
-- src/ceph_proxy/RadosWrapper.cc: what a caller of RadosOmapGetNext sees.
use global_cache_adaptor.Common.{
  ℕ, suc, ◌≡◌, refl, ap, sym, ◌∙◌, Bool, true, false, List, [], ◌∷◌, ◌++◌, none, some, length,
  append_assoc,
}
use mathlib.Core.Path.{subst}
use global_cache_adaptor.Common.Bytes.{Bytes, same, same_refl}
use global_cache_adaptor.Proxy.OmapIter.{Pairs, OmapIter, begin, element, start, next, go_on, visit}

-- A key differs from those of the elements.
abbrev pub Apart : Bytes → Pairs → Type 0
Apart k [] = Unit
Apart k ((j, v) ∷ m) = (same k j ≡ false) × Apart k m

-- The keys of a map differ, each from those behind it.
abbrev pub AreApart : Pairs → Type 0
AreApart [] = Unit
AreApart ((k, v) ∷ m) = Apart k m × AreApart m

Apart-middle :
    (j k v : Bytes) (pre post : Pairs) → Apart j (pre ++ (k, v) ∷ post) → same j k ≡ false
Apart-middle j k v [] post h = h.0
Apart-middle j k v ((i, w) ∷ pre) post h = Apart-middle j k v pre post h.1

element_at :
    (k v : Bytes) (pre post : Pairs)
    → AreApart (pre ++ (k, v) ∷ post)
    → element k (pre ++ (k, v) ∷ post) ≡ some (v, begin post)
unfolding element
element_at k v [] post h = rw (same_refl k) refl
element_at k v ((j, w) ∷ pre) post h =
    rw (Apart-middle j k v pre post h.0) (element_at k v pre post h.1)

next_at :
    (k v : Bytes) (pre post : Pairs) (keys : List Bytes)
    → AreApart (pre ++ (k, v) ∷ post)
    → next (record { values = pre ++ (k, v) ∷ post; i = some k; keys = keys })
      ≡ (some (k, v), record { values = pre ++ (k, v) ∷ post; i = begin post; keys = keys })
unfolding next
next_at k v pre post keys h = rw (next, element_at k v pre post h) refl

visit_step :
    (left : ℕ) (it it' : OmapIter) (pair : Bytes × Bytes)
    → next it ≡ (some pair, it')
    → visit (suc left) it ≡ (pair ∷ (visit left it').0, (visit left it').1)
unfolding visit
visit_step left it it' pair e = ap (go_on (visit left)) e

visit_from :
    (pre post : Pairs) (keys : List Bytes)
    → AreApart (pre ++ post)
    → visit (suc (length post)) (record { values = pre ++ post; i = begin post; keys = keys })
      ≡ (post, true)
unfolding visit next
visit_from pre [] keys h = refl
visit_from pre ((k, v) ∷ post) keys h =
    let assoc : (pre ++ (k, v) ∷ []) ++ post ≡ pre ++ (k, v) ∷ post =
      append_assoc pre ((k, v) ∷ []) post in
    let rest = visit_from (pre ++ (k, v) ∷ []) post keys (subst AreApart (sym assoc) h) in
    let moved : visit (suc (length post))
          (record { values = pre ++ (k, v) ∷ post; i = begin post; keys = keys })
        ≡ (post, true) =
      subst
        (λ m.
          visit (suc (length post)) (record { values = m; i = begin post; keys = keys })
          ≡ (post, true))
        assoc rest in
    visit_step (suc (length post))
      (record { values = pre ++ (k, v) ∷ post; i = some k; keys = keys }) _ (k, v)
      (next_at k v pre post keys h)
    ∙ ap (λ x. ((k, v) ∷ x.0, x.1)) moved

-- If the keys of the map that the read filled in differ, then after ReadCallback a caller of
-- RadosOmapGetNext that asks once more than there are elements reads each of them once, in the order of
-- the map, and then comes to the end; when only keys were read, into a map without values, it comes to
-- the end at once, whatever the keys are.
pub start-visit :
    (before : Bytes → Bytes → Bool) (m : Pairs) (keys : List Bytes) (n : ℕ)
    → AreApart m
    → (visit (suc (length m)) (start before (record { values = m; i = none; keys = [] }))
        ≡ (m, true))
      × (visit (suc n) (start before (record { values = []; i = none; keys = keys })) ≡ ([], true))
unfolding start visit next
start-visit before m keys n h = (visit_from [] m [] h, refl)
