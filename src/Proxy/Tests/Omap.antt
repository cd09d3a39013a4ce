-- ===== src/Proxy/Tests/Omap.antt =====
-- Runs of the model of RadosOmapGetNext on concrete inputs.
use global_cache_adaptor.Common.{◌≡◌, refl, Bool, true, [], ◌∷◌, none}
use global_cache_adaptor.Common.Bytes.{Bytes, bytes}
use global_cache_adaptor.Proxy.OmapIter.{Pairs, start, visit}
use global_cache_adaptor.Proxy.OmapIter.Visits.{start-visit}

abbrev two : Pairs
two = (bytes "a", bytes "1") ∷ (bytes "b", bytes "2") ∷ []

abbrev before : Bytes → Bytes → Bool
before a b = true

-- The caller asked for keys only.
keys_run :
    (start before (record { values = []; i = none; keys = bytes "a" ∷ [] })).values
    ≡ (bytes "a", []) ∷ []
unfolding start
keys_run = refl

start-visit_example :
    (visit 3 (start before (record { values = two; i = none; keys = [] })) ≡ (two, true))
    × (visit 6 (start before (record { values = []; i = none; keys = bytes "a" ∷ [] }))
        ≡ ([], true))
start-visit_example = start-visit before two (bytes "a" ∷ []) 5 ((refl, tt), (tt, tt))
