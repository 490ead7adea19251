-- ===== src/Prelude/Map.antt =====
-- `HashMap` and `BTreeMap` with numbers as keys: an association list that holds a key once. The
-- program never depends on the order of the entries.
use mathlib.Core.Path.{◌≡◌, refl}
use mathlib.Core.Bool.{true}
use mathlib.Core.Option.{Option, none, some}
use mathlib.Core.List.{List, [], ◌∷◌}
use native.Mathlib.Omega.{arith}
use Prim.Native.Nat.{ℕ, ◌≤◌, ◌<◌}
use rust_muxio.Prelude.Tests.{◌==◌, if◌then◌else◌}
use rust_muxio.Prelude.Lists.{length, is_empty}

abbrev pub Map {ℓ} : Type ℓ → Type ℓ
Map V = List (ℕ × V)

module _ {ℓ} {V : Type ℓ} where
  unfoldable pub get : ℕ → Map V → Option V
  get k [] = none
  get k ((j, v) ∷ m) = let rest = get k m in if j == k then some v else rest

  unfoldable pub remove : ℕ → Map V → Map V
  remove k [] = []
  remove k ((j, v) ∷ m) = let rest = remove k m in if j == k then rest else (j, v) ∷ rest

  unfoldable pub insert : ℕ → V → Map V → Map V
  unfolding remove
  insert k v m = (k, v) ∷ remove k m

  pub get-remove : (k j : ℕ) (m : Map V) → get j (remove k m) ≡ (if k == j then none else get j m)
  unfolding get remove
  get-remove k j [] = ground arith
  get-remove k j ((i, v) ∷ m) = ground (arith, get-remove k j m)

  pub get-insert :
      (k j : ℕ) (v : V) (m : Map V) → get j (insert k v m) ≡ (if k == j then some v else get j m)
  unfolding get insert
  get-insert k j v m = ground (arith, get-remove k j m)

  pub length-remove : (k : ℕ) (m : Map V) → length (remove k m) ≤ length m
  unfolding remove
  length-remove k [] = omega arith
  length-remove k ((i, v) ∷ m) = ground (arith, length-remove k m)

  -- Taking out a key that is there makes the map shorter.
  pub length-remove_lt :
      (k : ℕ) (m : Map V) (v : V) → get k m ≡ some v → length (remove k m) < length m
  unfolding get remove
  length-remove_lt k [] v h = cc
  length-remove_lt k ((i, w) ∷ m) v h = ground (arith, length-remove_lt k m v, length-remove k m)

  pub get_empty : (k : ℕ) → get k [] ≡ none
  unfolding get
  get_empty k = refl

  -- A map with no entry holds no key.
  pub get_short : (k : ℕ) (m : Map V) → length m ≤ 0 → get k m ≡ none
  unfolding get
  get_short k [] h = refl
  get_short k ((j, v) ∷ m) h = absurd (omega arith)

  -- A map that holds no key has no entry.
  pub empty_of_get : (m : Map V) → ((k : ℕ) → get k m ≡ none) → is_empty m ≡ true
  unfolding get
  empty_of_get [] h = refl
  empty_of_get ((j, v) ∷ m) h = ground (arith, h j)

  pub get_of_empty : (k : ℕ) (m : Map V) → is_empty m ≡ true → get k m ≡ none
  unfolding get
  get_of_empty k [] h = refl
  get_of_empty k ((j, v) ∷ m) h = cc
