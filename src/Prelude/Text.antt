-- ===== src/Prelude/Text.antt =====
-- Text as bytes: literals, decimal numbers, ASCII tests, UTF-8 as Rust's standard library reads it.
use Prim.Native.Nat.{ℕ, zero, suc, ◌+◌, ◌-◌, ◌/◌, ◌%◌, ◌<◌}
use Prim.Native.Char.{code}
use Prim.Native.String.{String}
use mathlib.Core.Bool.{Bool, true, false, ◌&&◌, ◌||◌}
use mathlib.Core.List.{List, [], ◌∷◌, ◌++◌}
use mathlib.Core.Option.{Option, none, some}
use mathlib.Core.Path.{◌≡◌, refl}
use native.Mathlib.Omega.{arith}
use bubbler.Prelude.Lists.{All}
use bubbler.Prelude.Tests.{ltb, leb, ◌==◌, if◌then◌else◌, ◌=b=◌}

-- The bytes of an ASCII literal.
abbrev pub codes : String → List ℕ
codes String.[] = []
codes (String.◌∷◌ letter more) = code letter ∷ codes more

decimal_loop : ℕ → ℕ → List ℕ → List ℕ
decimal_loop zero n acc = acc
decimal_loop (suc fuel) n acc =
    let more = decimal_loop fuel (n / 10) ((b'0' + n % 10) ∷ acc) in
    if ltb n 10 then (b'0' + n) ∷ acc else more

-- A number as `{}` prints it. Forty digits hold a `u128`.
unfoldable pub decimal : ℕ → List ℕ
unfolding decimal_loop
decimal n = decimal_loop 40 n []

unfoldable pub is_digit : ℕ → Bool
is_digit b = leb b'0' b && leb b b'9'

unfoldable pub is_alphanumeric : ℕ → Bool
unfolding is_digit
is_alphanumeric b = is_digit b || (leb b'A' b && leb b b'Z') || (leb b'a' b && leb b b'z')

unfoldable pub to_lower : ℕ → ℕ
to_lower b = if leb b'A' b && leb b b'Z' then b + 32 else b

-- Whether a list of names holds one: `binary_search` on a sorted list.
unfoldable pub contains_name : List (List ℕ) → List ℕ → Bool
contains_name [] name = false
contains_name (x ∷ xs) name = (x =b= name) || contains_name xs name

-- What the first byte of a character asks for: how many bytes more, and the range of the next.
pub data Lead : Type 0 where
  ascii : Lead
  sequence : ℕ → ℕ → ℕ → Lead
  invalid : Lead

unfoldable pub lead : ℕ → Lead
lead b =
    if ltb b 0x80
    then ascii
    else if leb 0xC2 b && leb b 0xDF
    then sequence 1 0x80 0xBF
    else if b == 0xE0
    then sequence 2 0xA0 0xBF
    else if b == 0xED
    then sequence 2 0x80 0x9F
    else if leb 0xE1 b && leb b 0xEF
    then sequence 2 0x80 0xBF
    else if b == 0xF0
    then sequence 3 0x90 0xBF
    else if leb 0xF1 b && leb b 0xF3
    then sequence 3 0x80 0xBF
    else if b == 0xF4
    then sequence 3 0x80 0x8F
    else invalid

replacement : List ℕ
replacement = 0xEF ∷ 0xBF ∷ 0xBD ∷ []

-- Where a decoder stands: at the start of a character, or inside one, with the bytes that it holds.
pub data Place : Type 0 where
  start : Place
  inside : List ℕ → ℕ → ℕ → ℕ → Place

-- One byte at the start of a character: what goes out, and the place after it.
first_byte : ℕ → List ℕ × Place
unfolding lead replacement
first_byte b = elim (lead b) [
  | ascii ↦ (b ∷ [], start)
  | sequence more lo hi ↦ ([], inside (b ∷ []) more lo hi)
  | invalid ↦ (replacement, start)
]

next_byte : Place → ℕ → List ℕ × Place
unfolding first_byte replacement
next_byte start b = first_byte b
next_byte (inside held more lo hi) b =
    if leb lo b && leb b hi
    then (if more == 1
        then (held ++ (b ∷ []), start)
        else ([], inside (held ++ (b ∷ [])) (more - 1) 0x80 0xBF))
    else (replacement ++ (first_byte b).0, (first_byte b).1)

lossy_from : Place → List ℕ → List ℕ
unfolding next_byte replacement
lossy_from start [] = []
lossy_from (inside held more lo hi) [] = replacement
lossy_from place (b ∷ bs) = let (out, place') = next_byte place b in out ++ lossy_from place' bs

-- `to_string_lossy`: each longest broken piece of a character becomes U+FFFD.
unfoldable pub to_string_lossy : List ℕ → List ℕ
unfolding lossy_from
to_string_lossy s = lossy_from start s

utf8_next : Place → ℕ → Option Place
unfolding lead
utf8_next start b = elim (lead b) [
  | ascii ↦ some start
  | sequence more lo hi ↦ some (inside [] more lo hi)
  | invalid ↦ none
]
utf8_next (inside held more lo hi) b =
    if leb lo b && leb b hi
    then (if more == 1 then some start else some (inside [] (more - 1) 0x80 0xBF))
    else none

utf8_from : Place → List ℕ → Bool
unfolding utf8_next
utf8_from start [] = true
utf8_from (inside held more lo hi) [] = false
utf8_from place (b ∷ bs) = elim (utf8_next place b) [
  | none ↦ false
  | some place' ↦ utf8_from place' bs
]

-- `to_str`: the same bytes, if they are UTF-8.
unfoldable pub to_str : List ℕ → Option (List ℕ)
unfolding utf8_from
to_str s = if utf8_from start s then some s else none

-- `to_str` changes no byte.
pub to_str_same : (s t : List ℕ) → to_str s ≡ some t → t ≡ s
unfolding to_str
to_str_same s t h = ground arith

lead-ascii : (b : ℕ) → b < 128 → lead b ≡ ascii
unfolding lead
lead-ascii b h = ground arith

utf8_next-ascii : (b : ℕ) → b < 128 → utf8_next start b ≡ some start
unfolding utf8_next
utf8_next-ascii b h = rw (lead-ascii b h, utf8_next)

utf8_from-ascii : (s : List ℕ) → All (λ b. b < 128) s → utf8_from start s ≡ true
unfolding utf8_from
utf8_from-ascii [] h = refl
utf8_from-ascii (b ∷ s) (small, h) = rw (utf8_next-ascii b small, utf8_from) (utf8_from-ascii s h)

-- ASCII is UTF-8.
pub to_str-ascii : (s : List ℕ) → All (λ b. b < 128) s → to_str s ≡ some s
unfolding to_str
to_str-ascii s h = rw (utf8_from-ascii s h)
