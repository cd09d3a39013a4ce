-- ===== src/Common/OrdMap.antt =====
-- std::map with an unsigned key: an association list in the order of its keys, which is the order in
-- which the source iterates.
use Prim.Native.Nat.{ℕ, suc, ◌≤◌}
use mathlib.Core.Path.{◌≡◌, refl}
use mathlib.Core.List.{List, [], ◌∷◌}
use mathlib.Core.Option.{Option, none, some}
use native.Mathlib.Omega.{arith}
use global_cache_adaptor.Common.Tests.{ltb, ◌==◌, if◌then◌else◌}

abbrev pub OrdMap {ℓ} : Type ℓ → Type ℓ
OrdMap V = List (ℕ × V)

module _ {ℓ} {V : Type ℓ} where
  abbrev pub lookup : ℕ → OrdMap V → Option V
  lookup k [] = none
  lookup k ((j, v) ∷ m) = if j == k then some v else lookup k m

  -- `m[k] = v`.
  abbrev pub insert : ℕ → V → OrdMap V → OrdMap V
  insert k v [] = (k, v) ∷ []
  insert k v ((j, w) ∷ m) =
      if k == j then (k, v) ∷ m else if ltb k j then (k, v) ∷ (j, w) ∷ m else (j, w) ∷ insert k v m

  abbrev pub erase : ℕ → OrdMap V → OrdMap V
  erase k [] = []
  erase k ((j, w) ∷ m) = if j == k then m else (j, w) ∷ erase k m

  abbrev pub keys : OrdMap V → List ℕ
  keys [] = []
  keys ((k, v) ∷ m) = k ∷ keys m

  -- Every key is at least `n`, and the keys rise.
  abbrev pub From : ℕ → OrdMap V → Type 0
  From n [] = Unit
  From n ((k, v) ∷ m) = (n ≤ k) × From (suc k) m

  pub lookup-insert :
      (k j : ℕ) (v : V) (m : OrdMap V)
      → lookup j (insert k v m) ≡ (if k == j then some v else lookup j m)
  lookup-insert k j v [] = refl
  lookup-insert k j v ((i, w) ∷ m) = ground (arith, lookup-insert k j v m)

  pub insert-From : (n k : ℕ) (v : V) (m : OrdMap V) → n ≤ k → From n m → From n (insert k v m)
  insert-From n k v [] h f = (h, tt)
  insert-From n k v ((i, w) ∷ m) h f = ground (arith, insert-From (suc i) k v m)

  pub From-mono : (a b : ℕ) (m : OrdMap V) → a ≤ b → From b m → From a m
  From-mono a b [] h f = tt
  From-mono a b ((i, w) ∷ m) h f = (omega arith, f.1)

  pub erase-From : (n k : ℕ) (m : OrdMap V) → From n m → From n (erase k m)
  erase-From n k [] f = tt
  erase-From n k ((i, w) ∷ m) f = ground (arith, erase-From (suc i) k m f.1, From-mono n (suc i) m)

  pub lookup_below : (k n : ℕ) (m : OrdMap V) → From n m → suc k ≤ n → lookup k m ≡ none
  lookup_below k n [] f h = refl
  lookup_below k n ((i, w) ∷ m) f h = ground (arith, lookup_below k (suc i) m f.1)

  pub lookup-erase :
      (k j n : ℕ) (m : OrdMap V)
      → From n m
      → lookup j (erase k m) ≡ (if k == j then none else lookup j m)
  lookup-erase k j n [] f = ground arith
  lookup-erase k j n ((i, w) ∷ m) f =
      ground (arith, lookup-erase k j (suc i) m f.1, lookup_below i (suc i) m f.1)
