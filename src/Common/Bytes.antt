-- ===== src/Common/Bytes.antt =====
-- Strings of the source as lists of byte values: comparison and strtok_r of the C library.
use Prim.Native.Char.{code}
use Prim.Native.Nat.{ℕ}
use Prim.Native.String.{String}
use mathlib.Core.Path.{◌≡◌, refl}
use mathlib.Core.Bool.{Bool, true, false, ◌&&◌}
use mathlib.Core.List.{List, [], ◌∷◌}
use native.Mathlib.Omega.{arith}
use global_cache_adaptor.Common.Tests.{◌==◌, if◌then◌else◌}

abbrev pub Bytes : Type 0
Bytes = List ℕ

-- A literal of the source.
abbrev pub bytes : String → Bytes
bytes String.[] = []
bytes (String.◌∷◌ c s) = code c ∷ bytes s

-- strcmp(a, b) == 0.
abbrev pub same : Bytes → Bytes → Bool
same [] [] = true
same [] (b ∷ bs) = false
same (a ∷ as') [] = false
same (a ∷ as') (b ∷ bs) = a == b && same as' bs

pub same_refl : (a : Bytes) → same a a ≡ true
same_refl [] = refl
same_refl (x ∷ a) = ground (arith, same_refl a)

pub same→eq : (a b : Bytes) → same a b ≡ true → a ≡ b
same→eq [] [] h = refl
same→eq [] (b ∷ bs) h = cc
same→eq (a ∷ as') [] h = cc
same→eq (a ∷ as') (b ∷ bs) h = ground (arith, same→eq as' bs)

-- strtok_r over the whole string: the word that `s` begins with, which may be empty, and the words
-- behind it. An empty word is no token.
abbrev pub push_word : Bytes → List Bytes → List Bytes
push_word [] r = r
push_word (x ∷ w) r = (x ∷ w) ∷ r

abbrev pub scan : ℕ → Bytes → Bytes × List Bytes
scan d [] = ([], [])
scan d (c ∷ s) =
    let (word, rest) = scan d s in if c == d then ([], push_word word rest) else (c ∷ word, rest)

abbrev pub tokens : ℕ → Bytes → List Bytes
tokens d s = let (word, rest) = scan d s in push_word word rest
