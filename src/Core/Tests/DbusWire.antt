-- ===== src/Core/Tests/DbusWire.antt =====
-- A block of values written and read again, and the theorems on it.
use bubbler.Prelude.{
  ℕ, ◌≡◌, ◌≤◌, refl, List, [], ◌∷◌, ok, err, codes, ◌=b=◌, is_digit, is_alphanumeric, to_str, slice,
  length, arith, ◌^◌,
}
use bubbler.NetProxy.Allow.{split, extend, all}
use bubbler.Core.DbusWire.Types.{
  WireError, Value, Values, Entries, WireType, WireTypes, kind, alignment, code, is_basic,
  count_types, count_values, padding_at,
}
use bubbler.Core.DbusWire.Signature.{
  opening, expect, entry_behind, array_behind, fields_behind, type_behind, parse_type, parse_types,
  named, parse_signature,
}
use bubbler.Core.DbusWire.Encode.{
  le_bytes, contains_nul, is_element, are_elements, valid_object_path, encode_str, encode_signature,
  mismatch, bit_of, encode_basic, is_array, encode_padded, elements_at, encode_elements,
  array_mismatch, encode_byte_array, encode_array, is_str, encode_dict, encode_struct, single,
  encode_variant, signature_of, signatures_of, signature_of_first, signature_of_entry, encode_value,
  encode_fields, encode_items, encode_entries, encode,
}
use bubbler.Core.DbusWire.Decode.{
  from_le_bytes, count_value, take_bytes, align, number, text, long_text, short_text, numeric,
  boolean, elements_of, decode_fields, decode_items, decode_entry, decode_entries, decode_elements,
  decode_array, decode_variant, decode_body, decode_value, decode,
}
use bubbler.Core.DbusWire.Signature.Printed.{print, prints, AreSound, parse_signature-prints}
use bubbler.Core.DbusWire.Pieces.{AreValues, weight, weights}
use bubbler.Core.DbusWire.RoundTrip.{decode-encode_values}
use bubbler.Core.DbusWire.Budget.{IsBounded, decode-IsBounded}

unfoldable pub program : Unit {0}
unfolding ◌=b=◌ is_digit is_alphanumeric to_str slice split extend all kind alignment code is_basic
    count_types count_values padding_at opening expect entry_behind array_behind fields_behind
    type_behind parse_type parse_types named parse_signature le_bytes contains_nul is_element
    are_elements valid_object_path encode_str encode_signature mismatch bit_of encode_basic is_array
    encode_padded elements_at encode_elements array_mismatch encode_byte_array encode_array is_str
    encode_dict encode_struct single encode_variant signature_of signatures_of signature_of_first
    signature_of_entry encode_value encode_fields encode_items encode_entries encode from_le_bytes
    count_value take_bytes align number text long_text short_text numeric boolean elements_of
    decode_fields decode_items decode_entry decode_entries decode_elements decode_array
    decode_variant decode_body decode_value decode print weight
program = tt

-- A byte, a dict whose value is a variant with a struct inside, an array of bytes.
abbrev signature : List ℕ
signature = codes "ya{sv}ay"

abbrev pair : Value
pair = Value.struct (Values.cons (Value.str (codes "up")) (Values.cons (Value.uint64 7) Values.nil))

abbrev block : Values
block = Values.cons (Value.byte 1) (
    Values.cons (Value.dict (Entries.entry (codes "k") (Value.variant pair) Entries.end))
      (Values.cons (Value.byte_array (4 ∷ 5 ∷ [])) Values.nil))

abbrev written : List ℕ
written =
    1 ∷ 0 ∷ 0 ∷ 0 ∷ 32 ∷ 0 ∷ 0 ∷ 0 ∷ 1 ∷ 0 ∷ 0 ∷ 0 ∷ b'k' ∷ 0 ∷ 4 ∷ b'(' ∷ b's' ∷ b't' ∷ b')' ∷ 0
    ∷ 0 ∷ 0 ∷ 0 ∷ 0 ∷ 2 ∷ 0 ∷ 0 ∷ 0 ∷ b'u' ∷ b'p' ∷ 0 ∷ 0 ∷ 7 ∷ 0 ∷ 0 ∷ 0 ∷ 0 ∷ 0 ∷ 0 ∷ 0 ∷ 2 ∷ 0
    ∷ 0 ∷ 0 ∷ 4 ∷ 5 ∷ []

writes : encode signature block ≡ ok written
unfolding program
writes = refl

reads : decode signature written ≡ ok block
unfolding program
reads = refl

lone_brace : parse_signature (codes "{sv}") ≡ err (WireError.bad_signature (codes "{sv}"))
unfolding program
lone_brace = refl

abbrev types : WireTypes
types = WireTypes.cons WireType.byte (
    WireTypes.cons (WireType.array (WireType.dict_entry WireType.str WireType.variant))
      (WireTypes.cons (WireType.array WireType.byte) WireTypes.nil))

parses : parse_signature signature ≡ ok types
unfolding program
parses = refl

parse_signature-prints_example :
    (signature ≡ prints types) × AreSound types × (length signature ≤ 255)
parse_signature-prints_example = parse_signature-prints signature types parses

in_range : AreValues block
unfolding program
in_range = (omega arith, ((refl, (refl, (omega arith, tt)), tt), (tt, tt)))

block_weight : weights block ≤ 2 ^ 20
unfolding program
block_weight = omega arith

decode-encode_values_example : decode signature written ≡ ok block
decode-encode_values_example = decode-encode_values signature block writes in_range block_weight

-- Sixteen bytes of an array of structs with variants.
abbrev deep : List ℕ
deep = 9 ∷ 0 ∷ 0 ∷ 0 ∷ 0 ∷ 0 ∷ 0 ∷ 0 ∷ 1 ∷ 1 ∷ b'v' ∷ 0 ∷ 1 ∷ b'v' ∷ 0 ∷ 1 ∷ []

decode-IsBounded_example : IsBounded (decode (codes "a(yv)") deep)
decode-IsBounded_example = decode-IsBounded (codes "a(yv)") deep
