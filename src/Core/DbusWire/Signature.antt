-- ===== src/Core/DbusWire/Signature.antt =====
-- crates/bubbler-core/src/dbus_wire.rs: the reader of signatures. Instead of a place in the signature, a
-- function takes and returns the bytes that are left. The first number that `parse_type` takes is fuel
-- for types within types: `max_nesting` is enough, since a type stands in at most 32 arrays and in at
-- most 32 structs. The loop over the fields of a struct has the bytes left as its fuel.
pub mod Ends
pub mod Printed
use bubbler.Prelude.{
  ℕ, zero, suc, ◌+◌, Bool, true, false, List, [], ◌∷◌, Result, ok, err, ◌>>=◌, ◌>>◌, refuse_if, ltb,
  leb, ◌==◌, not, length, if◌then◌else◌,
}
use bubbler.Core.DbusWire.Types.{
  WireError, WireType, WireTypes, is_basic, count_types, max_signature, max_container_depth,
}

-- What the first byte of a type is.
pub data Opening : Type 0 where
  basic : WireType → Opening
  opens_array opens_struct unknown : Opening

unfoldable pub opening : ℕ → Opening
opening c =
    if c == b'y'
    then Opening.basic WireType.byte
    else if c == b'b'
    then Opening.basic WireType.bool
    else if c == b'n'
    then Opening.basic WireType.int16
    else if c == b'q'
    then Opening.basic WireType.uint16
    else if c == b'i'
    then Opening.basic WireType.int32
    else if c == b'u'
    then Opening.basic WireType.uint32
    else if c == b'x'
    then Opening.basic WireType.int64
    else if c == b't'
    then Opening.basic WireType.uint64
    else if c == b'd'
    then Opening.basic WireType.double
    else if c == b's'
    then Opening.basic WireType.str
    else if c == b'o'
    then Opening.basic WireType.object_path
    else if c == b'g'
    then Opening.basic WireType.signature
    else if c == b'h'
    then Opening.basic WireType.fd
    else if c == b'v'
    then Opening.basic WireType.variant
    else if c == b'a'
    then Opening.opens_array
    else if c == b'('
    then Opening.opens_struct
    else Opening.unknown

abbrev bad : WireError
bad = WireError.bad_signature []

-- `bytes.get(*at) != Some(&c)`, and the byte behind it.
unfoldable pub expect : ℕ → List ℕ → Result WireError (List ℕ)
expect c [] = err bad
expect c (b ∷ bytes) = if b == c then ok bytes else err bad

-- The rest of a dict entry whose key was read.
unfoldable pub entry_behind :
    (List ℕ → Result WireError (WireType × List ℕ))
    → WireType × List ℕ
    → Result WireError (WireType × List ℕ)
entry_behind one (key, bytes) = do
  refuse_if (not (is_basic key)) bad
  (value, behind) ← one bytes
  left ← expect b'}' behind
  ok (WireType.array (WireType.dict_entry key value), left)

-- The element type of an array: `one` reads a type inside the array, `inner` one inside a dict entry in it.
unfoldable pub array_behind :
    (one inner : List ℕ → Result WireError (WireType × List ℕ))
    → ℕ
    → List ℕ
    → Result WireError (WireType × List ℕ)
array_behind one inner structs [] = do (element, left) ← one []; ok (WireType.array element, left)
array_behind one inner structs (b ∷ bytes) =
    if b == b'{'
    then (do
      refuse_if (leb max_container_depth structs) bad
      key ← inner bytes
      entry_behind inner key)
    else (do (element, left) ← one (b ∷ bytes); ok (WireType.array element, left))

-- The loop over the fields of a struct, up to and with the parenthesis that closes it.
unfoldable pub fields_behind :
    (List ℕ → Result WireError (WireType × List ℕ))
    → ℕ
    → List ℕ
    → Result WireError (WireTypes × List ℕ)
fields_behind one zero bytes = err WireError.out_of_fuel
fields_behind one (suc fuel) [] = err bad
fields_behind one (suc fuel) (b ∷ bytes) =
    let more = (do
      (field, left) ← one (b ∷ bytes)
      (fields, behind) ← fields_behind one fuel left
      ok (WireTypes.cons field fields, behind)) in
    if b == b')' then ok (WireTypes.nil, bytes) else more

-- What stands behind the first byte of a type, in so many arrays and structs; `one` reads a type within.
unfoldable pub type_behind :
    (ℕ → ℕ → List ℕ → Result WireError (WireType × List ℕ))
    → Opening
    → ℕ
    → ℕ
    → List ℕ
    → Result WireError (WireType × List ℕ)
type_behind one (Opening.basic ty) arrays structs bytes = ok (ty, bytes)
type_behind one Opening.opens_array arrays structs bytes = do
  refuse_if (leb max_container_depth arrays) bad
  array_behind (one (arrays + 1) structs) (one (arrays + 1) (structs + 1)) structs bytes
type_behind one Opening.opens_struct arrays structs bytes = do
  refuse_if (leb max_container_depth structs) bad
  (fields, behind) ← fields_behind (one arrays (structs + 1)) (length bytes + 1) bytes
  refuse_if (count_types fields == 0) bad
  ok (WireType.struct fields, behind)
type_behind one Opening.unknown arrays structs bytes = err bad

unfoldable pub parse_type : ℕ → ℕ → ℕ → List ℕ → Result WireError (WireType × List ℕ)
parse_type zero arrays structs bytes = err WireError.out_of_fuel
parse_type (suc fuel) arrays structs [] = err bad
parse_type (suc fuel) arrays structs (c ∷ bytes) =
    type_behind (parse_type fuel) (opening c) arrays structs bytes

abbrev pub max_nesting : ℕ
max_nesting = 65

-- The loop of `parse_signature`.
unfoldable pub parse_types : ℕ → List ℕ → Result WireError WireTypes
parse_types fuel [] = ok WireTypes.nil
parse_types zero (b ∷ bytes) = err WireError.out_of_fuel
parse_types (suc fuel) (b ∷ bytes) = do
  (ty, left) ← parse_type max_nesting 0 0 (b ∷ bytes)
  types ← parse_types fuel left
  ok (WireTypes.cons ty types)

-- `map_err(|_| bad())`; a lack of fuel stays visible.
unfoldable pub named : List ℕ → Result WireError WireTypes → Result WireError WireTypes
named sig (ok types) = ok types
named sig (err WireError.out_of_fuel) = err WireError.out_of_fuel
named sig (err e) = err (WireError.bad_signature sig)

unfoldable pub parse_signature : List ℕ → Result WireError WireTypes
parse_signature sig = do
  refuse_if (ltb max_signature (length sig)) (WireError.bad_signature sig)
  named sig (parse_types (length sig) sig)
