-- ===== src/Prelude/Dict.antt =====
-- A keyed map as an association list: `DashMap` and `HashMap` with one task at a time.
-- Ids are texts that the code only compares and hashes, so a key is a number that stands for one.
use Prim.Native.Nat.{ℕ, ◌+◌}
use mathlib.Core.Path.{◌≡◌, refl}
use mathlib.Core.Bool.{true}
use mathlib.Core.Option.{Option, none, some}
use mathlib.Core.List.{List, [], ◌∷◌}
use native.Mathlib.Omega.{arith}
use poly_bot.Prelude.Tests.{◌==◌, if◌then◌else◌, is_some, map_option}
use poly_bot.Prelude.Lists.{length}

abbrev pub Dict {ℓ} : Type ℓ → Type ℓ
Dict V = List (ℕ × V)

module _ {ℓ} {V : Type ℓ} where
  abbrev pub lookup : ℕ → Dict V → Option V
  lookup k [] = none
  lookup k ((j, v) ∷ m) = if j == k then some v else lookup k m

  abbrev pub insert : ℕ → V → Dict V → Dict V
  insert k v [] = (k, v) ∷ []
  insert k v ((j, w) ∷ m) = if j == k then (k, v) ∷ m else (j, w) ∷ insert k v m

  abbrev pub erase : ℕ → Dict V → Dict V
  erase k [] = []
  erase k ((j, w) ∷ m) = if j == k then erase k m else (j, w) ∷ erase k m

  -- a write through `get_mut`
  abbrev pub adjust : ℕ → (V → V) → Dict V → Dict V
  adjust k f [] = []
  adjust k f ((j, w) ∷ m) = (if j == k then (j, f w) else (j, w)) ∷ adjust k f m

  abbrev pub values : Dict V → List V
  values [] = []
  values ((j, w) ∷ m) = w ∷ values m

  -- no key is listed twice
  abbrev pub HasDistinctKeys : Dict V → Type ℓ
  HasDistinctKeys [] = Unit
  HasDistinctKeys ((j, w) ∷ m) = (lookup j m ≡ none) × HasDistinctKeys m

  pub lookup-insert :
      (k j : ℕ) (v : V) (m : Dict V)
      → lookup j (insert k v m) ≡ (if k == j then some v else lookup j m)
  lookup-insert k j v [] = refl
  lookup-insert k j v ((i, w) ∷ m) = ground (arith, lookup-insert k j v m)

  pub lookup-erase :
      (k j : ℕ) (m : Dict V) → lookup j (erase k m) ≡ (if k == j then none else lookup j m)
  lookup-erase k j [] = ground arith
  lookup-erase k j ((i, w) ∷ m) = ground (arith, lookup-erase k j m)

  pub lookup-adjust :
      (k j : ℕ) (f : V → V) (m : Dict V)
      → lookup j (adjust k f m) ≡ (if k == j then map_option f (lookup j m) else lookup j m)
  lookup-adjust k j f [] = ground arith
  lookup-adjust k j f ((i, w) ∷ m) = ground (arith, lookup-adjust k j f m)

  pub insert-HasDistinctKeys :
      (k : ℕ) (v : V) (m : Dict V) → HasDistinctKeys m → HasDistinctKeys (insert k v m)
  insert-HasDistinctKeys k v [] h = (refl, tt)
  insert-HasDistinctKeys k v ((i, w) ∷ m) h =
      ground (arith, lookup-insert k i v m, insert-HasDistinctKeys k v m h.1)

  pub erase-HasDistinctKeys : (k : ℕ) (m : Dict V) → HasDistinctKeys m → HasDistinctKeys (erase k m)
  erase-HasDistinctKeys k [] h = tt
  erase-HasDistinctKeys k ((i, w) ∷ m) h =
      ground (arith, lookup-erase k i m, erase-HasDistinctKeys k m h.1)

  pub adjust-HasDistinctKeys :
      (k : ℕ) (f : V → V) (m : Dict V) → HasDistinctKeys m → HasDistinctKeys (adjust k f m)
  adjust-HasDistinctKeys k f [] h = tt
  adjust-HasDistinctKeys k f ((i, w) ∷ m) h =
      ground (arith, lookup-adjust k i f m, adjust-HasDistinctKeys k f m h.1)

  pub length-insert :
      (k : ℕ) (v : V) (m : Dict V)
      → length (insert k v m) ≡ (if is_some (lookup k m) then length m else length m + 1)
  length-insert k v [] = omega arith
  length-insert k v ((i, w) ∷ m) = ground (arith, length-insert k v m)

  pub length-adjust : (k : ℕ) (f : V → V) (m : Dict V) → length (adjust k f m) ≡ length m
  length-adjust k f [] = refl
  length-adjust k f ((i, w) ∷ m) = omega (arith, length-adjust k f m)

  pub erase_missing : (k : ℕ) (m : Dict V) → lookup k m ≡ none → erase k m ≡ m
  erase_missing k [] h = refl
  erase_missing k ((i, w) ∷ m) h = ground (arith, erase_missing k m)

  pub length-erase :
      (k : ℕ) (m : Dict V)
      → HasDistinctKeys m
      → is_some (lookup k m) ≡ true
      → length (erase k m) + 1 ≡ length m
  length-erase k [] d h = cc
  length-erase k ((i, w) ∷ m) d h = ground (arith, length-erase k m d.1, erase_missing k m)
