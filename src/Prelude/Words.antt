-- ===== src/Prelude/Words.antt =====
-- Bytes and machine words: byte order, 32-bit words as four bytes, checked sums of `usize`.
use Prim.Native.Nat.{ℕ, ◌+◌, ◌*◌, ◌/◌, ◌%◌, ◌^◌, ◌<◌}
use mathlib.Core.List.{List, [], ◌∷◌}
use mathlib.Core.Option.{Option, none, some}
use mathlib.Core.Path.{◌≡◌, refl}
use native.Mathlib.Omega.{arith}
use bubbler.Prelude.Lists.{length}
use bubbler.Prelude.Tests.{ltb, if◌then◌else◌}

abbrev pub IsByte : ℕ → Type 0
IsByte b = b < 256

abbrev pub IsU16 : ℕ → Type 0
IsU16 n = n < 2 ^ 16

abbrev pub IsU32 : ℕ → Type 0
IsU32 n = n < 2 ^ 32

-- The order of the bytes of a word in memory.
pub data Endian : Type 0 where
  little big : Endian

-- `u32::from_le_bytes`, `from_be_bytes`, and `from_ne_bytes` on a machine of this order.
unfoldable pub u32_from_bytes : Endian → ℕ → ℕ → ℕ → ℕ → ℕ
u32_from_bytes little a b c d = a + b * 2 ^ 8 + c * 2 ^ 16 + d * 2 ^ 24
u32_from_bytes big a b c d = d + c * 2 ^ 8 + b * 2 ^ 16 + a * 2 ^ 24

-- `u32::to_le_bytes`, `to_be_bytes`, `to_ne_bytes`.
unfoldable pub u32_to_bytes : Endian → ℕ → List ℕ
u32_to_bytes little v = v % 256 ∷ v / 2 ^ 8 % 256 ∷ v / 2 ^ 16 % 256 ∷ v / 2 ^ 24 % 256 ∷ []
u32_to_bytes big v = v / 2 ^ 24 % 256 ∷ v / 2 ^ 16 % 256 ∷ v / 2 ^ 8 % 256 ∷ v % 256 ∷ []

-- The word in the first four bytes of a slice of at least four.
unfoldable pub u32_of_slice : Endian → List ℕ → ℕ
u32_of_slice o (a ∷ b ∷ c ∷ d ∷ rest) = u32_from_bytes o a b c d
u32_of_slice o _ = 0

-- `a.checked_add(b)` on a 64-bit `usize`.
unfoldable pub checked_add : ℕ → ℕ → Option ℕ
checked_add a b = if ltb (a + b) (2 ^ 64) then some (a + b) else none

pub length-u32_to_bytes : (order : Endian) (v : ℕ) → length (u32_to_bytes order v) ≡ 4
unfolding u32_to_bytes
length-u32_to_bytes little v = refl
length-u32_to_bytes big v = refl

pub u32_of_slice-u32_to_bytes :
    (order : Endian) (v : ℕ) → IsU32 v → u32_of_slice order (u32_to_bytes order v) ≡ v
unfolding u32_to_bytes u32_of_slice u32_from_bytes
u32_of_slice-u32_to_bytes little v h = omega arith
u32_of_slice-u32_to_bytes big v h = omega arith

pub checked_add-some : (a b : ℕ) → a + b < 2 ^ 64 → checked_add a b ≡ some (a + b)
unfolding checked_add
checked_add-some a b h = ground arith
