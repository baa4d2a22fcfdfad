-- ===== src/Core/DbusWire/Encode/Parts.antt =====
-- crates/bubbler-core/src/dbus_wire.rs: the parts of the writer. A function takes the length of the buffer, at which
-- alignment goes, and returns the bytes that it appends; the length of an array, which the source writes
-- back into its place, stands in front of the elements. What is the same for every value (the depth and
-- the padding) and what each container checks are functions that take the writing of the parts.
use bubbler.Prelude.{
  ℕ, zero, suc, ◌+◌, ◌/◌, ◌%◌, ◌^◌, Bool, true, false, List, [], ◌∷◌, ◌++◌, Option, none, some,
  Result, ok, err, ◌>>=◌, ◌>>◌, ok_or, refuse_if, ltb, leb, ◌==◌, not, ◌&&◌, ◌||◌, length,
  replicate, codes, is_alphanumeric,
}
use bubbler.NetProxy.Allow.{split, all}
use bubbler.Core.DbusWire.Types.{
  WireError, Value, Values, WireType, WireTypes, kind, alignment, code, count_types, count_values,
  max_array, max_depth, padding_at,
}
use bubbler.Core.DbusWire.Signature.{parse_signature}

-- `v.to_le_bytes()` for a number of so many bytes.
unfoldable pub le_bytes : ℕ → ℕ → List ℕ
le_bytes zero v = []
le_bytes (suc n) v = v % 256 ∷ le_bytes n (v / 256)

-- `bytes.contains(&0)`
unfoldable pub contains_nul : List ℕ → Bool
contains_nul [] = false
contains_nul (b ∷ bytes) = b == 0 || contains_nul bytes

unfoldable pub is_element : List ℕ → Bool
is_element element = not (length element == 0) && all (λ b. is_alphanumeric b || b == b'_') element

unfoldable pub are_elements : List (List ℕ) → Bool
are_elements [] = true
are_elements (element ∷ elements) = is_element element && are_elements elements

unfoldable pub valid_object_path : List ℕ → Bool
valid_object_path [] = false
valid_object_path (b ∷ rest) =
    (b == b'/' && length rest == 0)
    || (b == b'/' && (not (length rest == 0) && are_elements (split b'/' rest)))

unfoldable pub encode_str : List ℕ → Result WireError (List ℕ)
encode_str text = do
  refuse_if (contains_nul text) WireError.bad_string
  refuse_if (not (ltb (length text) (2 ^ 32))) (WireError.array_too_long (length text))
  ok (le_bytes 4 (length text) ++ (text ++ (0 ∷ [])))

-- The length goes out as a `u8`.
unfoldable pub encode_signature : List ℕ → List ℕ
encode_signature sig = length sig % 256 ∷ (sig ++ (0 ∷ []))

unfoldable pub mismatch : WireType → Value → Result WireError (List ℕ)
mismatch ty value = err (WireError.type_mismatch (code ty) (kind value))

unfoldable pub bit_of : Bool → ℕ
bit_of true = 1
bit_of false = 0

-- The values that hold no other value.
unfoldable pub encode_basic : WireType → Value → Result WireError (List ℕ)
encode_basic WireType.byte (Value.byte v) = ok (v ∷ [])
encode_basic WireType.bool (Value.bool v) = ok (le_bytes 4 (bit_of v))
encode_basic WireType.int16 (Value.int16 v) = ok (le_bytes 2 v)
encode_basic WireType.uint16 (Value.uint16 v) = ok (le_bytes 2 v)
encode_basic WireType.int32 (Value.int32 v) = ok (le_bytes 4 v)
encode_basic WireType.uint32 (Value.uint32 v) = ok (le_bytes 4 v)
encode_basic WireType.int64 (Value.int64 v) = ok (le_bytes 8 v)
encode_basic WireType.uint64 (Value.uint64 v) = ok (le_bytes 8 v)
encode_basic WireType.double (Value.double v) = ok (le_bytes 8 v)
encode_basic WireType.fd (Value.fd v) = ok (le_bytes 4 v)
encode_basic WireType.str (Value.str v) = encode_str v
encode_basic WireType.object_path (Value.object_path v) = do
  refuse_if (not (valid_object_path v)) (WireError.bad_object_path v)
  encode_str v
encode_basic WireType.signature (Value.signature v) = do
  types ← parse_signature v
  ok (encode_signature v)
encode_basic ty value = mismatch ty value

unfoldable pub is_array : WireType → Bool
is_array (WireType.array element) = true
is_array ty = false

-- What goes in front of a value: the tests of the depth (an array takes one level more, whatever the
-- value is) and the padding.
unfoldable pub encode_padded :
    ℕ → WireType → ℕ → (ℕ → Result WireError (List ℕ)) → Result WireError (List ℕ)
encode_padded at ty depth body = do
  refuse_if (ltb max_depth depth) WireError.depth
  refuse_if (is_array ty && leb max_depth depth) WireError.depth
  bytes ← body (at + padding_at at (alignment ty))
  ok (replicate (padding_at at (alignment ty)) 0 ++ bytes)

-- Where the elements of an array start whose length is written at `at`.
unfoldable pub elements_at : ℕ → WireType → ℕ
elements_at at element = at + 4 + padding_at (at + 4) (alignment element)

-- The length in front of the elements and the padding, which it does not count.
unfoldable pub encode_elements : ℕ → WireType → List ℕ → Result WireError (List ℕ)
encode_elements at element bytes = do
  refuse_if (ltb max_array (length bytes)) (WireError.array_too_long (length bytes))
  ok (le_bytes 4 (length bytes) ++ (replicate (padding_at (at + 4) (alignment element)) 0 ++ bytes))

unfoldable pub array_mismatch : Value → Result WireError (List ℕ)
array_mismatch value = err (WireError.type_mismatch b'a' (kind value))

unfoldable pub encode_byte_array : WireType → ℕ → List ℕ → ℕ → Result WireError (List ℕ)
encode_byte_array (WireType.array element) depth bytes at = do
  refuse_if (leb max_depth depth) WireError.depth
  elim element [
    | WireType.byte ↦ encode_elements at WireType.byte bytes
    | _ ↦ array_mismatch (Value.byte_array bytes)
  ]
encode_byte_array ty depth bytes at = mismatch ty (Value.byte_array bytes)

-- An array of values; `items` writes them at an offset against a type.
unfoldable pub encode_array :
    WireType
    → ℕ
    → Value
    → (WireType → ℕ → Result WireError (List ℕ))
    → ℕ
    → Result WireError (List ℕ)
encode_array (WireType.array element) depth value items at = do
  refuse_if (leb max_depth depth) WireError.depth
  elim element [
    | WireType.byte ↦ array_mismatch value
    | WireType.dict_entry key entry ↦ array_mismatch value
    | other ↦ (do bytes ← items other (elements_at at other); encode_elements at other bytes)
  ]
encode_array ty depth value items at = mismatch ty value

-- A key that is not a string is refused before anything is written.
unfoldable pub is_str : WireType → Bool
is_str WireType.str = true
is_str ty = false

unfoldable pub encode_dict :
    WireType
    → ℕ
    → Value
    → (WireType → ℕ → Result WireError (List ℕ))
    → ℕ
    → Result WireError (List ℕ)
encode_dict (WireType.array element) depth value entries at = do
  refuse_if (leb max_depth depth) WireError.depth
  elim element [
    | WireType.dict_entry key entry ↦ (do
      refuse_if (not (is_str key)) (WireError.unsupported (codes "dict keys that are not strings"))
      bytes ← entries entry (elements_at at (WireType.dict_entry key entry))
      encode_elements at (WireType.dict_entry key entry) bytes)
    | _ ↦ array_mismatch value
  ]
encode_dict ty depth value entries at = mismatch ty value

unfoldable pub encode_struct :
    WireType → Values → (WireTypes → ℕ → Result WireError (List ℕ)) → ℕ → Result WireError (List ℕ)
encode_struct (WireType.struct fields) given write at = do
  refuse_if (not (count_types fields == count_values given))
      (WireError.arity (count_types fields) (count_values given))
  write fields at
encode_struct ty given write at = mismatch ty (Value.struct given)

-- `let [inner_type] = types.as_slice()`
unfoldable pub single : WireTypes → Option WireType
single (WireTypes.cons ty WireTypes.nil) = some ty
single types = none

-- A variant: the signature of what is in it, and that.
unfoldable pub encode_variant :
    WireType
    → Value
    → Result WireError (List ℕ)
    → (WireType → ℕ → Result WireError (List ℕ))
    → ℕ
    → Result WireError (List ℕ)
encode_variant WireType.variant inner signature write at = do
  sig ← signature
  types ← parse_signature sig
  ty ← ok_or (single types) (WireError.bad_signature sig)
  bytes ← write ty (at + length (encode_signature sig))
  ok (encode_signature sig ++ bytes)
encode_variant ty inner signature write at = mismatch ty (Value.variant inner)
