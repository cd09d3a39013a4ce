-- ===== src/Proxy/OsdMap/Epochs.antt =====
-- The loop of UpdateOSDMap against the cluster's true sequence of maps.
use global_cache_adaptor.Common.{
  ℕ, zero, suc, ◌+◌, ◌-◌, ◌≤◌, ◌<◌, ◌≡◌, refl, sym, ◌⊎◌, inl, inr, arith, Bool, true, false, Option,
  none, some, leb, ◌==◌, if◌then◌else◌, u32, Bool-cases, Option-cases,
}
use global_cache_adaptor.Common.Bytes.{Bytes}
use global_cache_adaptor.Common.OrdMap.{lookup}
use global_cache_adaptor.Proxy.OsdMap.{OsdMapApi, MosdMap, incremental_at, update_loop}

module _ {Map Inc : Type 0} (api : OsdMapApi Map Inc) where
  -- The message is one of a cluster whose map of epoch `e` is `at e`: what it holds decodes to these
  -- maps, and its range is one of unsigned numbers.
  pub record IsPublished (at : ℕ → Map) (m : MosdMap Inc) : Type 0 where
    pub epoch_at : (e : ℕ) → e < 4294967296 → api.epoch (at e) ≡ e
    pub full : (e : ℕ) (b : Bytes) (o : Map) → lookup e m.maps ≡ some b → api.decode o b ≡ at e
    pub step :
        (e : ℕ) (i : Inc)
        → lookup (suc e) m.incremental_maps ≡ some i
        → api.apply_incremental (at e) i ≡ at (suc e)
    pub range : m.oldest ≤ m.last
    pub last-lt : suc m.last < 4294967296

  -- The message does not bring a copy of epoch `j` on: of an epoch `e` behind it, which is in the
  -- message's range, there is no whole map, and no increment that applies. That is the next epoch,
  -- without an increment, or the oldest of the message, where the next epochs are not in its range.
  pub record Lacks (m : MosdMap Inc) (j e : ℕ) : Type 0 where
    pub in_range : (m.oldest ≤ e) × (e ≤ m.last)
    pub no_map : lookup e m.maps ≡ none
    pub no_increment :
        ((e ≡ suc j) × (lookup e m.incremental_maps ≡ none)) ⊎ ((suc j < e) × (e ≡ m.oldest))

  -- The end of the loop: at the last epoch of the message, or at an earlier one with a renewal, since
  -- the message lacks what comes next.
  pub data End (at : ℕ → Map) (m : MosdMap Inc) (k : ℕ) : Option (Map × Bool) → Type 0 where
    reached : End at m k (some (at m.last, true))
    stopped : (j e : ℕ) → k ≤ j → suc j ≤ m.last → Lacks m j e → End at m k (some (at j, false))

  weaken :
      {at : ℕ → Map} {m : MosdMap Inc} {j k : ℕ} {r : Option (Map × Bool)}
      → j ≤ k
      → End at m k r
      → End at m j r
  weaken h reached = reached
  weaken h (stopped i e f g x) = stopped i e (omega arith) g x

  at_last : {at : ℕ → Map} {m : MosdMap Inc} (k : ℕ) → k ≡ m.last → End at m k (some (at k, true))
  at_last k q = rw q reached

  module _ (at : ℕ → Map) (m : MosdMap Inc) (p : IsPublished at m) where
    pub u32-suc : (e : ℕ) → e ≤ m.last → u32 (e + 1) ≡ suc e
    u32-suc e h = omega (arith, p.last-lt)

    -- An increment that the loop takes is the one of the next epoch.
    found :
        (e k : ℕ) (i : Inc)
        → k ≤ m.last
        → incremental_at api m e (at k) ≡ some i
        → (e ≡ suc k) × (api.apply_incremental (at k) i ≡ at e)
    found e k i h f = elim (Bool-cases (e == u32 (k + 1))) [
      | inl y ↦ by_equal (ground (arith, u32-suc k h)) (rw y at g)
      | inr n ↦ by_none (rw n at g)
    ]
      where
        g : (if e == u32 (k + 1) then lookup e m.incremental_maps else none) ≡ some i
        g = rw (sym (p.epoch_at k (omega (arith, p.last-lt)))) f

        by_none : none ≡ some i → (e ≡ suc k) × (api.apply_incremental (at k) i ≡ at e)
        by_none x = ground arith

        by_equal :
            e ≡ suc k
            → lookup e m.incremental_maps ≡ some i
            → (e ≡ suc k) × (api.apply_incremental (at k) i ≡ at e)
        by_equal q l =
            let l1 : lookup (suc k) m.incremental_maps ≡ some i = rw (sym q) l in
            let a : api.apply_incremental (at k) i ≡ at e = rw q (p.step k i l1) in (q, a)

    skipped : (e : ℕ) → suc e ≤ m.oldest → u32 (m.oldest - 1 + 1) ≡ m.oldest
    skipped e h = omega (arith, p.last-lt, p.range)

    -- What the loop lacks where it stops.
    lacks :
        (e k : ℕ)
        → suc k ≤ e
        → e ≤ m.last
        → m.oldest ≤ e
        → (e ≡ suc k) ⊎ (e ≤ m.oldest)
        → incremental_at api m e (at k) ≡ none
        → lookup e m.maps ≡ none
        → Lacks m k e
    lacks e k h g o c f l = record {
      in_range = (o, g);
      no_map = l;
      no_increment = elim (Bool-cases (e == u32 (k + 1))) [
        | inl y ↦ inl (by_next y, rw y at n)
        | inr y ↦ inr (by_oldest y c, by_place y c)
      ];
    }
      where
        n : (if e == u32 (k + 1) then lookup e m.incremental_maps else none) ≡ none
        n = rw (sym (p.epoch_at k (omega (arith, p.last-lt)))) f

        next : u32 (k + 1) ≡ suc k
        next = u32-suc k (omega arith)

        by_next : (e == u32 (k + 1)) ≡ true → e ≡ suc k
        by_next y = ground (arith, next)

        by_oldest : (e == u32 (k + 1)) ≡ false → (e ≡ suc k) ⊎ (e ≤ m.oldest) → suc k < e
        by_oldest y c = ground (arith, next)

        by_place : (e == u32 (k + 1)) ≡ false → (e ≡ suc k) ⊎ (e ≤ m.oldest) → e ≡ m.oldest
        by_place y c = ground (arith, next)

    pub update_loop-End :
        (fuel e k : ℕ)
        → suc k ≤ e
        → e ≤ suc m.last
        → (e ≡ suc k) ⊎ (e ≤ m.oldest)
        → suc (suc m.last) ≤ fuel + e
        → End at m k (update_loop api fuel m e (at k))
    unfolding update_loop
    update_loop-End zero e k h g c n = ground arith
    update_loop-End (suc fuel) e k h g c n = elim (Bool-cases (leb e m.last)) [
      | inr over ↦ rw (update_loop, over) (at_last k (ground arith))
      | inl y ↦ elim (Option-cases (incremental_at api m e (at k))) [
        | inr (i, f) ↦
            let (q, a) = found e k i (ground arith) f in
            rw (update_loop, y, f, u32-suc e (ground arith), a)
              (weaken (omega arith) (
                update_loop-End fuel (suc e) e (omega arith) (ground arith) (inl refl)
                  (ground arith)))
        | inl f ↦ elim (Option-cases (lookup e m.maps)) [
          | inr (b, l) ↦
              rw (update_loop, y, f, l, u32-suc e (ground arith), p.full e b api.fresh l)
                (weaken (omega arith) (
                  update_loop-End fuel (suc e) e (omega arith) (ground arith) (inl refl)
                    (ground arith)))
          | inl l ↦ elim (Bool-cases (leb m.oldest e)) [
            | inl z ↦
                rw (update_loop, y, f, l, z)
                  (stopped k e (omega arith) (ground arith)
                    (lacks e k h (ground arith) (ground arith) c f l))
            | inr z ↦
                rw (update_loop, y, f, l, z, skipped e (ground arith))
                  (update_loop-End fuel m.oldest k (ground arith) (omega (arith, p.range))
                    (inr (omega arith)) (ground arith))
          ]
        ]
      ]
    ]
