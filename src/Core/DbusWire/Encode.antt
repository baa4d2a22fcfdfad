-- ===== src/Core/DbusWire/Encode.antt =====
-- crates/bubbler-core/src/dbus_wire.rs: the writer of values, by recursion on them. What is done at one value
-- is in the child Parts.
mod Parts
unfoldable pub use Parts.*
use bubbler.Prelude.{
  ℕ, zero, suc, ◌+◌, ◌-◌, ◌*◌, ◌/◌, ◌%◌, ◌^◌, Bool, true, false, List, [], ◌∷◌, ◌++◌, Option, none,
  some, Result, ok, err, ◌>>=◌, ◌>>◌, ok_or, refuse_if, ltb, leb, ◌==◌, ◌=b=◌, not, ◌&&◌, ◌||◌,
  length, replicate, if◌then◌else◌, codes, is_alphanumeric,
}
use bubbler.NetProxy.Allow.{split, all}
use bubbler.Core.DbusWire.Types.{
  WireError, Value, Values, Entries, WireType, WireTypes, kind, alignment, code, count_types,
  count_values, max_array, max_depth, padding_at,
}
use bubbler.Core.DbusWire.Signature.{parse_signature}

abbrev empty_array : WireError
empty_array = WireError.unsupported (codes "an empty array inside a variant")

abbrev empty_dict : WireError
empty_dict = WireError.unsupported (codes "an empty dict inside a variant")

-- `signature_of`; the second function is its loop over the fields of a struct, and the others look at the
-- first element.
unfoldable mutual
  pub signature_of : Value → ℕ → Result WireError (List ℕ)
  signature_of (Value.byte v) depth = do
    refuse_if (ltb max_depth depth) WireError.depth
    ok (codes "y")
  signature_of (Value.bool v) depth = do
    refuse_if (ltb max_depth depth) WireError.depth
    ok (codes "b")
  signature_of (Value.int16 v) depth = do
    refuse_if (ltb max_depth depth) WireError.depth
    ok (codes "n")
  signature_of (Value.uint16 v) depth = do
    refuse_if (ltb max_depth depth) WireError.depth
    ok (codes "q")
  signature_of (Value.int32 v) depth = do
    refuse_if (ltb max_depth depth) WireError.depth
    ok (codes "i")
  signature_of (Value.uint32 v) depth = do
    refuse_if (ltb max_depth depth) WireError.depth
    ok (codes "u")
  signature_of (Value.int64 v) depth = do
    refuse_if (ltb max_depth depth) WireError.depth
    ok (codes "x")
  signature_of (Value.uint64 v) depth = do
    refuse_if (ltb max_depth depth) WireError.depth
    ok (codes "t")
  signature_of (Value.double v) depth = do
    refuse_if (ltb max_depth depth) WireError.depth
    ok (codes "d")
  signature_of (Value.str v) depth = do
    refuse_if (ltb max_depth depth) WireError.depth
    ok (codes "s")
  signature_of (Value.object_path v) depth = do
    refuse_if (ltb max_depth depth) WireError.depth
    ok (codes "o")
  signature_of (Value.signature v) depth = do
    refuse_if (ltb max_depth depth) WireError.depth
    ok (codes "g")
  signature_of (Value.fd v) depth = do
    refuse_if (ltb max_depth depth) WireError.depth
    ok (codes "h")
  signature_of (Value.byte_array v) depth = do
    refuse_if (ltb max_depth depth) WireError.depth
    ok (codes "ay")
  signature_of (Value.variant v) depth = do
    refuse_if (ltb max_depth depth) WireError.depth
    ok (codes "v")
  signature_of (Value.array items) depth = do
    refuse_if (ltb max_depth depth) WireError.depth
    sig ← signature_of_first items (depth + 1)
    ok (codes "a" ++ sig)
  signature_of (Value.dict entries) depth = do
    refuse_if (ltb max_depth depth) WireError.depth
    sig ← signature_of_entry entries (depth + 1)
    ok (codes "a{s" ++ (sig ++ codes "}"))
  signature_of (Value.struct fields) depth = do
    refuse_if (ltb max_depth depth) WireError.depth
    sig ← signatures_of fields (depth + 1)
    ok (codes "(" ++ (sig ++ codes ")"))

  pub signatures_of : Values → ℕ → Result WireError (List ℕ)
  signatures_of Values.nil depth = ok []
  signatures_of (Values.cons field fields) depth = do
    sig ← signature_of field depth
    more ← signatures_of fields depth
    ok (sig ++ more)

  pub signature_of_first : Values → ℕ → Result WireError (List ℕ)
  signature_of_first Values.nil depth = err empty_array
  signature_of_first (Values.cons item items) depth = signature_of item depth

  pub signature_of_entry : Entries → ℕ → Result WireError (List ℕ)
  signature_of_entry Entries.end depth = err empty_dict
  signature_of_entry (Entries.entry key value entries) depth = signature_of value depth

-- `encode_value`, and its loops over the fields of a struct, the items of an array and the entries of a dict.
unfoldable mutual
  pub encode_value : ℕ → WireType → Value → ℕ → Result WireError (List ℕ)
  encode_value at ty (Value.byte_array bytes) depth =
      encode_padded at ty depth (encode_byte_array ty depth bytes)
  encode_value at ty (Value.array items) depth = encode_padded at ty depth (
      encode_array ty depth (Value.array items)
        (λ element start. encode_items start element items (depth + 1)))
  encode_value at ty (Value.dict entries) depth = encode_padded at ty depth (
      encode_dict ty depth (Value.dict entries)
        (λ element start. encode_entries start element entries (depth + 1)))
  encode_value at ty (Value.struct given) depth =
      encode_padded at ty depth
        (encode_struct ty given (λ fields start. encode_fields start fields given (depth + 1)))
  encode_value at ty (Value.variant inner) depth = encode_padded at ty depth (
      encode_variant ty inner (signature_of inner 0)
        (λ element start. encode_value start element inner (depth + 1)))
  encode_value at ty value depth = encode_padded at ty depth (λ start. encode_basic ty value)

  pub encode_fields : ℕ → WireTypes → Values → ℕ → Result WireError (List ℕ)
  encode_fields at WireTypes.nil given depth = ok []
  encode_fields at (WireTypes.cons field fields) Values.nil depth = ok []
  encode_fields at (WireTypes.cons field fields) (Values.cons value given) depth = do
    bytes ← encode_value at field value depth
    more ← encode_fields (at + length bytes) fields given depth
    ok (bytes ++ more)

  pub encode_items : ℕ → WireType → Values → ℕ → Result WireError (List ℕ)
  encode_items at element Values.nil depth = ok []
  encode_items at element (Values.cons item items) depth = do
    bytes ← encode_value at element item depth
    more ← encode_items (at + length bytes) element items depth
    ok (bytes ++ more)

  pub encode_entries : ℕ → WireType → Entries → ℕ → Result WireError (List ℕ)
  encode_entries at ty Entries.end depth = ok []
  encode_entries at ty (Entries.entry key value entries) depth = do
    text ← encode_str key
    bytes ← encode_value (at + padding_at at 8 + length text) ty value depth
    more ← encode_entries (at + padding_at at 8 + length text + length bytes) ty entries depth
    ok (replicate (padding_at at 8) 0 ++ (text ++ (bytes ++ more)))

unfoldable pub encode : List ℕ → Values → Result WireError (List ℕ)
encode sig values = do
  types ← parse_signature sig
  refuse_if (not (count_types types == count_values values))
      (WireError.arity (count_types types) (count_values values))
  encode_fields 0 types values 0
