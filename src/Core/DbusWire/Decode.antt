-- ===== src/Core/DbusWire/Decode.antt =====
-- crates/bubbler-core/src/dbus_wire.rs: the reader of a block of values. The buffer of the reader is a
-- parameter, since no function changes it. The fuel of `decode_value` is for values within values, and
-- 66 is enough for a depth of at most 64; that of a loop over elements is what is left of the budget of
-- values, since each element counts as one. A sum that overflows `usize` is past the end of the buffer,
-- which is the same error.
use bubbler.Prelude.{
  ℕ, zero, suc, ◌+◌, ◌-◌, ◌*◌, true, false, List, [], ◌∷◌, Result, ok, err, ◌>>=◌, ◌>>◌, ok_or,
  refuse_if, ltb, leb, ◌==◌, not, length, slice, if◌then◌else◌, codes, to_str,
}
use bubbler.NetProxy.Allow.{all}
use bubbler.Core.DbusWire.Types.{
  WireError, Value, Values, Entries, WireType, WireTypes, alignment, max_array, max_values,
  max_depth, padding_at,
}
use bubbler.Core.DbusWire.Signature.{parse_signature}
use bubbler.Core.DbusWire.Encode.{contains_nul, valid_object_path, is_str, single}

-- Where the reader is, and the values so far.
pub record Reader : Type 0 where
  pub at : ℕ
  pub values : ℕ

-- `from_le_bytes`
unfoldable pub from_le_bytes : List ℕ → ℕ
from_le_bytes [] = 0
from_le_bytes (b ∷ bytes) = b + 256 * from_le_bytes bytes

-- `Reader::value`
unfoldable pub count_value : Reader → Result WireError Reader
count_value r = do
  refuse_if (ltb max_values (r.values + 1)) WireError.too_many_values
  ok (record r { values = r.values + 1 })

abbrev pub max_nested : ℕ
max_nested = 66

-- How an array of a type is read: as bytes, as the entries of a dict, or as values.
pub data Elements : Type 0 where
  as_bytes as_values : Elements
  as_entries : WireType → WireType → Elements

unfoldable pub elements_of : WireType → Elements
elements_of WireType.byte = Elements.as_bytes
elements_of (WireType.dict_entry key entry) = Elements.as_entries key entry
elements_of ty = Elements.as_values

module _ (buf : List ℕ) where
  -- `Reader::take`
  unfoldable pub take_bytes : ℕ → Reader → Result WireError (List ℕ × Reader)
  take_bytes n r = do
    bytes ← ok_or (slice buf r.at (r.at + n)) WireError.truncated
    ok (bytes, record r { at = r.at + n })

  -- `Reader::align`
  unfoldable pub align : ℕ → Reader → Result WireError Reader
  align alignment r = do
    (bytes, r') ← take_bytes (padding_at r.at alignment) r
    refuse_if (not (all (λ b. b == 0) bytes)) WireError.padding
    ok r'

  -- A number of so many bytes: `Reader::byte`, `uint32` and the reads of `decode_value`.
  unfoldable pub number : ℕ → Reader → Result WireError (ℕ × Reader)
  number n r = do (bytes, r') ← take_bytes n r; ok (from_le_bytes bytes, r')

  -- `Reader::text`
  unfoldable pub text : ℕ → Reader → Result WireError (List ℕ × Reader)
  text len r = do
    (bytes, r') ← take_bytes len r
    refuse_if (contains_nul bytes) WireError.bad_string
    (nul, r'') ← number 1 r'
    refuse_if (not (nul == 0)) WireError.bad_string
    s ← ok_or (to_str bytes) WireError.bad_string
    ok (s, r'')

  -- A length of four bytes, or of one, and the text.
  unfoldable pub long_text : Reader → Result WireError (List ℕ × Reader)
  long_text r = do (len, r') ← number 4 r; text len r'

  unfoldable pub short_text : Reader → Result WireError (List ℕ × Reader)
  short_text r = do (len, r') ← number 1 r; text len r'

  -- A value that is a number, when its bytes were read.
  unfoldable pub numeric : ℕ → (ℕ → Value) → Reader → Result WireError (Value × Reader)
  numeric n make r = do (v, r') ← number n r; ok (make v, r')

  unfoldable pub boolean : ℕ × Reader → Result WireError (Value × Reader)
  boolean (v, r) =
      if v == 0
      then ok (Value.bool false, r)
      else if v == 1
      then ok (Value.bool true, r)
      else err (WireError.bad_bool v)

  module _ (one : WireType → ℕ → Reader → Result WireError (Value × Reader)) where
    -- The fields of a struct, and the values of a block.
    unfoldable pub decode_fields : WireTypes → ℕ → Reader → Result WireError (Values × Reader)
    decode_fields WireTypes.nil depth r = ok (Values.nil, r)
    decode_fields (WireTypes.cons field fields) depth r = do
      (value, r') ← one field depth r
      (values, r'') ← decode_fields fields depth r'
      ok (Values.cons value values, r'')

    -- The loop over the items of an array that ends at `end`.
    unfoldable pub decode_items : ℕ → WireType → ℕ → ℕ → Reader → Result WireError (Values × Reader)
    decode_items zero element depth end r = err WireError.out_of_fuel
    decode_items (suc fuel) element depth end r =
        let more = (do
          (item, r') ← one element depth r
          refuse_if (ltb end r'.at) WireError.truncated
          (items, r'') ← decode_items fuel element depth end r'
          ok (Values.cons item items, r'')) in
        if ltb r.at end then more else ok (Values.nil, r)

    -- One entry of a dict; its key is not read as a value, and the entry is counted here.
    unfoldable pub decode_entry : WireType → ℕ → Reader → Result WireError (List ℕ × Value × Reader)
    decode_entry ty depth r = do
      r1 ← count_value r
      r2 ← align 8 r1
      (key, r3) ← long_text r2
      (value, r4) ← one ty depth r3
      ok (key, value, r4)

    unfoldable pub decode_entries :
        ℕ → WireType → ℕ → ℕ → Reader → Result WireError (Entries × Reader)
    decode_entries zero ty depth end r = err WireError.out_of_fuel
    decode_entries (suc fuel) ty depth end r =
        let more = (do
          (key, value, r') ← decode_entry ty depth r
          refuse_if (ltb end r'.at) WireError.truncated
          (entries, r'') ← decode_entries fuel ty depth end r'
          ok (Entries.entry key value entries, r'')) in
        if ltb r.at end then more else ok (Entries.end, r)

    -- What stands behind the length and the padding of an array.
    unfoldable pub decode_elements :
        Elements → WireType → ℕ → ℕ → ℕ → Reader → Result WireError (Value × Reader)
    decode_elements Elements.as_bytes element depth len end r = do
      (bytes, r') ← take_bytes len r
      ok (Value.byte_array bytes, r')
    decode_elements (Elements.as_entries key entry) element depth len end r = do
      refuse_if (not (is_str key)) (WireError.unsupported (codes "dict keys that are not strings"))
      (entries, r') ← decode_entries (max_values + 1 - r.values) entry (depth + 1) end r
      ok (Value.dict entries, r')
    decode_elements Elements.as_values element depth len end r = do
      (items, r') ← decode_items (max_values + 1 - r.values) element (depth + 1) end r
      ok (Value.array items, r')

    unfoldable pub decode_array : WireType → ℕ → Reader → Result WireError (Value × Reader)
    decode_array element depth r = do
      refuse_if (leb max_depth depth) WireError.depth
      (len, r1) ← number 4 r
      refuse_if (ltb max_array len) (WireError.array_too_long len)
      r2 ← align (alignment element) r1
      refuse_if (ltb (length buf) (r2.at + len)) WireError.truncated
      (value, r3) ← decode_elements (elements_of element) element depth len (r2.at + len) r2
      refuse_if (not (r3.at == r2.at + len)) WireError.truncated
      ok (value, r3)

    unfoldable pub decode_variant : ℕ → Reader → Result WireError (Value × Reader)
    decode_variant depth r = do
      (sig, r1) ← short_text r
      types ← parse_signature sig
      ty ← ok_or (single types) (WireError.bad_signature sig)
      (inner, r2) ← one ty (depth + 1) r1
      ok (Value.variant inner, r2)

    -- What stands behind the padding of a value.
    unfoldable pub decode_body : WireType → ℕ → Reader → Result WireError (Value × Reader)
    decode_body WireType.byte depth r = numeric 1 Value.byte r
    decode_body WireType.bool depth r = number 4 r >>= boolean
    decode_body WireType.int16 depth r = numeric 2 Value.int16 r
    decode_body WireType.uint16 depth r = numeric 2 Value.uint16 r
    decode_body WireType.int32 depth r = numeric 4 Value.int32 r
    decode_body WireType.uint32 depth r = numeric 4 Value.uint32 r
    decode_body WireType.int64 depth r = numeric 8 Value.int64 r
    decode_body WireType.uint64 depth r = numeric 8 Value.uint64 r
    decode_body WireType.double depth r = numeric 8 Value.double r
    decode_body WireType.fd depth r = numeric 4 Value.fd r
    decode_body WireType.str depth r = do (s, r') ← long_text r; ok (Value.str s, r')
    decode_body WireType.object_path depth r = do
      (path, r') ← long_text r
      refuse_if (not (valid_object_path path)) (WireError.bad_object_path path)
      ok (Value.object_path path, r')
    decode_body WireType.signature depth r = do
      (sig, r') ← short_text r
      types ← parse_signature sig
      ok (Value.signature sig, r')
    decode_body WireType.variant depth r = decode_variant depth r
    decode_body (WireType.array element) depth r = decode_array element depth r
    decode_body (WireType.struct fields) depth r = do
      (values, r') ← decode_fields fields (depth + 1) r
      ok (Value.struct values, r')
    decode_body (WireType.dict_entry key entry) depth r =
        err (WireError.unsupported (codes "a dict entry outside an array"))

  unfoldable pub decode_value : ℕ → WireType → ℕ → Reader → Result WireError (Value × Reader)
  decode_value zero ty depth r = err WireError.out_of_fuel
  decode_value (suc fuel) ty depth r = do
    refuse_if (ltb max_depth depth) WireError.depth
    r1 ← count_value r
    r2 ← align (alignment ty) r1
    decode_body (decode_value fuel) ty depth r2

unfoldable pub decode : List ℕ → List ℕ → Result WireError Values
decode sig body = do
  types ← parse_signature sig
  (values, r) ←
      decode_fields body (decode_value body max_nested) types 0 (record { at = 0; values = 0 })
  refuse_if (not (r.at == length body)) (WireError.trailing (length body - r.at))
  ok values
