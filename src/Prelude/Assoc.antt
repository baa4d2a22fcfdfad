-- ===== src/Prelude/Assoc.antt =====
-- A hash map with numbers for keys, as an association list in which no key stands twice.
use Prim.Native.Nat.{ℕ, ◌+◌, ◌≤◌}
use mathlib.Core.Path.{◌≡◌, refl}
use mathlib.Core.Bool.{Bool, true, false}
use mathlib.Core.List.{List, [], ◌∷◌}
use mathlib.Core.Option.{Option, none, some}
use native.Mathlib.Omega.{arith}
use bubbler.Prelude.Tests.{◌==◌, if◌then◌else◌}
use bubbler.Prelude.Lists.{length}

-- One for an entry that is counted.
abbrev pub bit : Bool → ℕ
bit true = 1
bit false = 0

module _ {ℓ} {V : Type ℓ} where
  unfoldable pub lookup : ℕ → List (ℕ × V) → Option V
  lookup k [] = none
  lookup name ((key, value) ∷ rest) = if key == name then some value else lookup name rest

  unfoldable pub insert : ℕ → V → List (ℕ × V) → List (ℕ × V)
  insert k v [] = (k, v) ∷ []
  insert name new ((key, value) ∷ rest) =
      if key == name then (name, new) ∷ rest else (key, value) ∷ insert name new rest

  unfoldable pub remove : ℕ → List (ℕ × V) → List (ℕ × V)
  remove k [] = []
  remove k ((j, w) ∷ m) = if j == k then m else (j, w) ∷ remove k m

  unfoldable pub count : (ℕ → V → Bool) → List (ℕ × V) → ℕ
  count p [] = 0
  count p ((j, w) ∷ m) = bit (p j w) + count p m

  abbrev pub IsUnique : List (ℕ × V) → Type ℓ
  IsUnique [] = Unit
  IsUnique ((j, w) ∷ m) = (lookup j m ≡ none) × IsUnique m

  pub lookup-insert :
      (name sought : ℕ) (new : V) (rest : List (ℕ × V))
      → lookup sought (insert name new rest)
        ≡ (if name == sought then some new else lookup sought rest)
  unfolding lookup insert
  lookup-insert name sought new [] = refl
  lookup-insert name sought new ((key, value) ∷ rest) =
      ground (arith, lookup-insert name sought new rest)

  pub lookup-remove :
      (k j : ℕ) (m : List (ℕ × V))
      → IsUnique m
      → lookup j (remove k m) ≡ (if k == j then none else lookup j m)
  unfolding lookup remove
  lookup-remove k j [] u = ground arith
  lookup-remove k j ((i, w) ∷ m) u = ground (arith, lookup-remove k j m)

  pub insert-IsUnique : (k : ℕ) (v : V) (m : List (ℕ × V)) → IsUnique m → IsUnique (insert k v m)
  unfolding insert
  insert-IsUnique k v [] u = (unfold lookup in refl, u)
  insert-IsUnique k v ((i, w) ∷ m) u = ground (arith, insert-IsUnique k v m, lookup-insert k i v m)

  pub remove-IsUnique : (k : ℕ) (m : List (ℕ × V)) → IsUnique m → IsUnique (remove k m)
  unfolding remove
  remove-IsUnique k [] u = u
  remove-IsUnique k ((i, w) ∷ m) u = ground (arith, remove-IsUnique k m, lookup-remove k i m)

  pub length-insert_absent :
      (k : ℕ) (v : V) (m : List (ℕ × V)) → lookup k m ≡ none → length (insert k v m) ≡ length m + 1
  unfolding lookup insert
  length-insert_absent k v [] h = refl
  length-insert_absent k v ((i, w) ∷ m) h = ground (arith, length-insert_absent k v m)

  pub length-insert_present :
      (k : ℕ) (v old : V) (m : List (ℕ × V))
      → lookup k m ≡ some old
      → length (insert k v m) ≡ length m
  unfolding lookup insert
  length-insert_present k v old [] h = cc
  length-insert_present k v old ((i, w) ∷ m) h = ground (arith, length-insert_present k v old m)

  pub length-remove_present :
      (k : ℕ) (old : V) (m : List (ℕ × V))
      → lookup k m ≡ some old
      → length (remove k m) + 1 ≡ length m
  unfolding lookup remove
  length-remove_present k old [] h = cc
  length-remove_present k old ((i, w) ∷ m) h = ground (arith, length-remove_present k old m)

  pub count-insert_absent :
      (p : ℕ → V → Bool) (k : ℕ) (v : V) (m : List (ℕ × V))
      → lookup k m ≡ none
      → count p (insert k v m) ≡ count p m + bit (p k v)
  unfolding lookup insert count
  count-insert_absent p k v [] h = omega arith
  count-insert_absent p k v ((i, w) ∷ m) h = ground (arith, count-insert_absent p k v m)

  pub count-insert_present :
      (p : ℕ → V → Bool) (k : ℕ) (v old : V) (m : List (ℕ × V))
      → lookup k m ≡ some old
      → count p (insert k v m) + bit (p k old) ≡ count p m + bit (p k v)
  unfolding lookup insert count
  count-insert_present p k v old [] h = cc
  count-insert_present p k v old ((i, w) ∷ m) h = ground (arith, count-insert_present p k v old m)

  pub count-remove_present :
      (p : ℕ → V → Bool) (k : ℕ) (old : V) (m : List (ℕ × V))
      → lookup k m ≡ some old
      → count p (remove k m) + bit (p k old) ≡ count p m
  unfolding lookup remove count
  count-remove_present p k old [] h = cc
  count-remove_present p k old ((i, w) ∷ m) h = ground (arith, count-remove_present p k old m)

  pub count-le-length : (p : ℕ → V → Bool) (m : List (ℕ × V)) → count p m ≤ length m
  unfolding count
  count-le-length p [] = omega arith
  count-le-length p ((i, w) ∷ m) = ground (arith, count-le-length p m)
