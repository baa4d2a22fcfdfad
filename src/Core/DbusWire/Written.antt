-- ===== src/Core/DbusWire/Written.antt =====
-- crates/bubbler-core/src/dbus_wire.rs: what the parts of the writer wrote, where they succeeded.
use bubbler.Prelude.{
  ℕ, ◌+◌, ◌≡◌, ◌≤◌, ◌<◌, refl, ap, true, false, some, List, [], ◌∷◌, ◌++◌, length, length-append,
  replicate, Result, ok, >>=-eq-ok, bind_refuse_if_inv, bind_ok_or_inv, ltb, leb, ◌==◌, not, ◌&&◌,
  arith,
}
use mathlib.Core.Path.{subst}
use bubbler.Core.DbusWire.Types.{
  WireError, Value, Values, WireType, WireTypes, alignment, count_types, count_values, max_array,
  max_depth, padding_at,
}
use bubbler.Core.DbusWire.Signature.{parse_signature}
use bubbler.Core.DbusWire.Signature.Printed.{IsSound, AreSound}
use bubbler.Core.DbusWire.Encode.{
  le_bytes, valid_object_path, encode_str, encode_signature, mismatch, bit_of, encode_basic,
  is_array, encode_padded, elements_at, encode_elements, array_mismatch, encode_byte_array,
  encode_array, is_str, encode_dict, encode_struct, single, encode_variant, encode_value,
  encode_fields,
}
use bubbler.Core.DbusWire.Decode.{Elements, elements_of}
use bubbler.Core.DbusWire.Reads.{length-le_bytes, encode_str_inv}

pub encode_padded_inv :
    (at : ℕ) (ty : WireType) (d : ℕ) (body : ℕ → Result WireError (List ℕ)) (e : List ℕ)
    → encode_padded at ty d body ≡ ok e
    → (ltb max_depth d ≡ false)
      × (bytes : List ℕ) × (body (at + padding_at at (alignment ty)) ≡ ok bytes)
      × (replicate (padding_at at (alignment ty)) 0 ++ bytes ≡ e)
unfolding encode_padded
encode_padded_inv at ty d body e h =
    let (room, h1) = bind_refuse_if_inv (ltb max_depth d) _ _ h in
    let (nested, h2) = bind_refuse_if_inv (is_array ty && leb max_depth d) _ _ h1 in
    let (bytes, e2, h3) = >>=-eq-ok (body (at + padding_at at (alignment ty))) _ h2 in
    (room, bytes, e2, cc)

pub encode_elements_inv :
    (at : ℕ) (element : WireType) (bytes e : List ℕ)
    → encode_elements at element bytes ≡ ok e
    → (length bytes ≤ max_array)
      × (le_bytes 4 (length bytes)
            ++ (replicate (padding_at (at + 4) (alignment element)) 0 ++ bytes)
          ≡ e)
unfolding encode_elements
encode_elements_inv at element bytes e h =
    let (short, h1) = bind_refuse_if_inv (ltb max_array (length bytes)) _ _ h in (ground arith, cc)

pub encode_byte_array_inv :
    (ty : WireType) (d : ℕ) (bytes : List ℕ) (at : ℕ) (e : List ℕ)
    → encode_byte_array ty d bytes at ≡ ok e
    → (ty ≡ WireType.array WireType.byte)
      × (leb max_depth d ≡ false)
      × (encode_elements at WireType.byte bytes ≡ ok e)
unfolding encode_byte_array array_mismatch mismatch
encode_byte_array_inv (WireType.array WireType.byte) d bytes at e h =
    let (room, h1) = bind_refuse_if_inv (leb max_depth d) _ _ h in (refl, room, h1)
encode_byte_array_inv (WireType.array element) d bytes at e h = ground arith
encode_byte_array_inv ty d bytes at e h = cc

module _ (d at : ℕ) (value : Value) (write : WireType → ℕ → Result WireError (List ℕ)) where
  pub encode_array_inv :
      (ty : WireType) (e : List ℕ)
      → encode_array ty d value write at ≡ ok e
      → (element : WireType) × (ty ≡ WireType.array element)
        × (leb max_depth d ≡ false)
        × (elements_of element ≡ Elements.as_values)
        × (inner : List ℕ) × (write element (elements_at at element) ≡ ok inner)
        × (encode_elements at element inner ≡ ok e)
  unfolding encode_array array_mismatch mismatch elements_of
  encode_array_inv (WireType.array WireType.byte) e h = absurd (ground arith)
  encode_array_inv (WireType.array (WireType.dict_entry key entry)) e h = absurd (ground arith)
  encode_array_inv (WireType.array element) e h =
      let (room, h1) = bind_refuse_if_inv (leb max_depth d) _ _ h in
      let (inner, e2, h2) = >>=-eq-ok (write element (elements_at at element)) _ h1 in
      (element, refl, room, refl, inner, e2, h2)
  encode_array_inv ty e h = cc

  pub encode_dict_inv :
      (ty : WireType) (e : List ℕ)
      → encode_dict ty d value write at ≡ ok e
      → (key : WireType) × (entry : WireType) × (ty
          ≡ WireType.array (WireType.dict_entry key entry))
        × (leb max_depth d ≡ false)
        × (is_str key ≡ true)
        × (inner : List ℕ) × (write entry (elements_at at (WireType.dict_entry key entry))
            ≡ ok inner)
        × (encode_elements at (WireType.dict_entry key entry) inner ≡ ok e)
  unfolding encode_dict array_mismatch mismatch
  encode_dict_inv (WireType.array (WireType.dict_entry key entry)) e h =
      let (room, h1) = bind_refuse_if_inv (leb max_depth d) _ _ h in
      let (text, h2) = bind_refuse_if_inv (not (is_str key)) _ _ h1 in
      let (inner, e3, h3) =
        >>=-eq-ok (write entry (elements_at at (WireType.dict_entry key entry))) _ h2 in
      (key, entry, refl, room, ground arith, inner, e3, h3)
  encode_dict_inv (WireType.array element) e h = absurd (ground arith)
  encode_dict_inv ty e h = cc

pub encode_struct_inv :
    (ty : WireType) (given : Values) (write : WireTypes → ℕ → Result WireError (List ℕ)) (at : ℕ)
    (e : List ℕ)
    → encode_struct ty given write at ≡ ok e
    → (fields : WireTypes) × (ty ≡ WireType.struct fields)
      × (count_types fields ≡ count_values given)
      × (write fields at ≡ ok e)
unfolding encode_struct mismatch
encode_struct_inv (WireType.struct fields) given write at e h =
    let (same, h1) = bind_refuse_if_inv (not (count_types fields == count_values given)) _ _ h in
    (fields, refl, ground arith, h1)
encode_struct_inv ty given write at e h = cc

pub encode_variant_inv :
    (ty : WireType) (inner : Value) (signature : Result WireError (List ℕ))
    (write : WireType → ℕ → Result WireError (List ℕ)) (at : ℕ) (e : List ℕ)
    → encode_variant ty inner signature write at ≡ ok e
    → (ty ≡ WireType.variant)
      × (sig : List ℕ) × (types : WireTypes) × (inside : WireType) × (bytes : List ℕ)
      × (parse_signature sig ≡ ok types)
      × (single types ≡ some inside)
      × (write inside (at + length (encode_signature sig)) ≡ ok bytes)
      × (encode_signature sig ++ bytes ≡ e)
unfolding encode_variant mismatch
encode_variant_inv WireType.variant inner signature write at e h =
    let (sig, e1, h1) = >>=-eq-ok signature _ h in
    let (types, e2, h2) = >>=-eq-ok (parse_signature sig) _ h1 in
    let (inside, e3, h3) = bind_ok_or_inv (single types) _ _ h2 in
    let (bytes, e4, h4) = >>=-eq-ok (write inside (at + length (encode_signature sig))) _ h3 in
    (refl, sig, types, inside, bytes, e2, e3, e4, cc)
encode_variant_inv ty inner signature write at e h = cc

-- Every value that is written takes at least one byte.
le_bytes-pos :
    (n v : ℕ) (e : List ℕ)
    → 0 < n
    → ◌≡◌ {A = Result WireError (List ℕ)} (ok (le_bytes n v)) (ok e)
    → 0 < length e
le_bytes-pos n v e some_bytes h =
    let same : le_bytes n v ≡ e = cc in omega (arith, ap length same, length-le_bytes n v)

str-pos : (s e : List ℕ) → encode_str s ≡ ok e → 0 < length e
str-pos s e h =
    let (no_nul, short, same) = encode_str_inv s e h in
    omega (
      arith,
      ap length same,
      length-append (le_bytes 4 (length s)) (s ++ (0 ∷ [])),
      length-le_bytes 4 (length s),
    )

basic-pos : (ty : WireType) (v : Value) (e : List ℕ) → encode_basic ty v ≡ ok e → 0 < length e
unfolding encode_basic mismatch
basic-pos WireType.byte (Value.byte v) e h =
    let same : v ∷ [] ≡ e = cc in omega (arith, ap length same)
basic-pos WireType.bool (Value.bool v) e h = le_bytes-pos 4 (bit_of v) e (omega arith) h
basic-pos WireType.int16 (Value.int16 v) e h = le_bytes-pos 2 v e (omega arith) h
basic-pos WireType.uint16 (Value.uint16 v) e h = le_bytes-pos 2 v e (omega arith) h
basic-pos WireType.int32 (Value.int32 v) e h = le_bytes-pos 4 v e (omega arith) h
basic-pos WireType.uint32 (Value.uint32 v) e h = le_bytes-pos 4 v e (omega arith) h
basic-pos WireType.int64 (Value.int64 v) e h = le_bytes-pos 8 v e (omega arith) h
basic-pos WireType.uint64 (Value.uint64 v) e h = le_bytes-pos 8 v e (omega arith) h
basic-pos WireType.double (Value.double v) e h = le_bytes-pos 8 v e (omega arith) h
basic-pos WireType.fd (Value.fd v) e h = le_bytes-pos 4 v e (omega arith) h
basic-pos WireType.str (Value.str v) e h = str-pos v e h
basic-pos WireType.object_path (Value.object_path v) e h =
    let (valid, h1) = bind_refuse_if_inv (not (valid_object_path v)) _ _ h in str-pos v e h1
basic-pos WireType.signature (Value.signature v) e h =
    let (types, parsed, h1) = >>=-eq-ok (parse_signature v) _ h in
    let same : encode_signature v ≡ e = cc in
    unfold encode_signature in omega (arith, ap length same)
basic-pos ty v e h = cc

padded-pos :
    (at : ℕ) (ty : WireType) (d : ℕ) (body : ℕ → Result WireError (List ℕ)) (e : List ℕ)
    → encode_padded at ty d body ≡ ok e
    → ((start : ℕ) (bytes : List ℕ) → body start ≡ ok bytes → 0 < length bytes)
    → 0 < length e
padded-pos at ty d body e h inside =
    let (room, bytes, written, same) = encode_padded_inv at ty d body e h in
    let some_bytes = inside _ bytes written in
    omega (arith, ap length same, length-append (replicate (padding_at at (alignment ty)) 0) bytes)

elements-pos :
    (at : ℕ) (element : WireType) (bytes e : List ℕ)
    → encode_elements at element bytes ≡ ok e
    → 0 < length e
elements-pos at element bytes e h =
    let (short, same) = encode_elements_inv at element bytes e h in
    omega (
      arith,
      ap length same,
      length-append (le_bytes 4 (length bytes))
          (replicate (padding_at (at + 4) (alignment element)) 0 ++ bytes),
      length-le_bytes 4 (length bytes),
    )

signature-pos : (sig bytes e : List ℕ) → encode_signature sig ++ bytes ≡ e → 0 < length e
unfolding encode_signature
signature-pos sig bytes e h = omega (arith, ap length h)

mutual
  unfolding encode_value encode_fields count_types count_values

  pub encode_value-pos :
      (v : Value) (ty : WireType) (at d : ℕ) (e : List ℕ)
      → encode_value at ty v d ≡ ok e
      → IsSound ty
      → 0 < length e
  encode_value-pos (Value.byte_array bytes) ty at d e h sound =
      padded-pos at ty d _ e h (λ start b w.
        elements-pos start WireType.byte bytes b (encode_byte_array_inv ty d bytes start b w).2)
  encode_value-pos (Value.array items) ty at d e h sound = padded-pos at ty d _ e h (λ start b w.
      let (element, arrayed, room, kind, inner, wrote, framed) =
        encode_array_inv d start _ _ ty b w in
      elements-pos start element inner b framed)
  encode_value-pos (Value.dict entries) ty at d e h sound = padded-pos at ty d _ e h (λ start b w.
      let (key, entry, arrayed, room, kind, inner, wrote, framed) =
        encode_dict_inv d start _ _ ty b w in
      elements-pos start (WireType.dict_entry key entry) inner b framed)
  encode_value-pos (Value.struct given) ty at d e h sound = padded-pos at ty d _ e h (λ start b w.
      let (fields, is_struct, same, wrote) = encode_struct_inv ty given _ start b w in
      encode_fields-pos given fields start (d + 1) b wrote same (subst IsSound is_struct sound))
  encode_value-pos (Value.variant inner) ty at d e h sound = padded-pos at ty d _ e h (λ start b w.
      let (is_variant, sig, types, inside, bytes, parsed, one, wrote, same) =
        encode_variant_inv ty inner _ _ start b w in
      signature-pos sig bytes b same)
  encode_value-pos v ty at d e h sound =
      padded-pos at ty d (λ start. encode_basic ty v) e h (λ start b w. basic-pos ty v b w)

  encode_fields-pos :
      (given : Values) (fields : WireTypes) (at d : ℕ) (e : List ℕ)
      → encode_fields at fields given d ≡ ok e
      → count_types fields ≡ count_values given
      → (0 < count_types fields) × AreSound fields
      → 0 < length e
  encode_fields-pos Values.nil fields at d e h same (some_fields, sound) = absurd (omega arith)
  encode_fields-pos (Values.cons v given) WireTypes.nil at d e h same (some_fields, sound) =
      absurd (omega arith)
  encode_fields-pos (Values.cons v given) (WireTypes.cons field fields) at d e h same
        (some_fields, sound) =
      let (bytes, e1, h1) = >>=-eq-ok (encode_value at field v d) _ h in
      let (more, e2, h2) = >>=-eq-ok (encode_fields (at + length bytes) fields given d) _ h1 in
      let whole : bytes ++ more ≡ e = cc in
      omega (
        arith,
        ap length whole,
        length-append bytes more,
        encode_value-pos v field at d bytes e1 sound.0,
      )
